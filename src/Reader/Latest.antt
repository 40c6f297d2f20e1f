-- ===== src/Reader/Latest.antt =====
-- `as_of` holds, for each key, a record that no visible record of the key supersedes.
use qkt_data_hub.Prelude.{
  ℕ, ◌≡◌, refl, ◌∙◌, true, false, ◌&&◌, Option, none, some, List, [], ◌∷◌, inl, inr, arith,
  Bool-cases, if◌then◌else◌, All,
}
use qkt_data_hub.Prelude.Order.{Ord, le_trans_lt, lt_asymm, nat_ord, pair_ord}
use qkt_data_hub.Prelude.Text.{Text, text_eq, text_eq_iff, text_eq_refl}
use qkt_data_hub.Prelude.Dict.{Dict, lookup, lookup-insert, All-insert, text_key}
use qkt_data_hub.Record.{Record}
use qkt_data_hub.Reader.{supersedes, latest_step, latest_of, version}

abbrev version_ord : Ord (ℕ × (ℕ × ℕ))
version_ord = pair_ord

-- The entry of `k` is a record that `r` does not supersede.
abbrev pub Holds : Text → Record → Dict Text Record → Type 0
Holds k r m =
    (b : Record) × (lookup k m ≡ some b) × (version_ord.lt (version b) (version r) ≡ false)

-- What one turn of the loop does to every key.
lookup-latest_step :
    (m : Dict Text Record) (r : Record) (k : Text)
    → lookup k (latest_step m r)
      ≡ (if text_eq r.key k && supersedes r (lookup k m) then some r else lookup k m)
unfolding latest_step
lookup-latest_step m r k = ground (arith, text_eq_iff r.key k, lookup-insert r.key k r m)

pub Holds-step :
    (m : Dict Text Record) (r a : Record) (k : Text) → Holds k a m → Holds k a (latest_step m r)
Holds-step m r a k (b, e, h) = elim (Bool-cases (text_eq r.key k && supersedes r (some b))) [
  | inr f ↦ (b, lookup-latest_step m r k ∙ rw (e, f), h)
  | inl t ↦ (
    r,
    lookup-latest_step m r k ∙ rw (e, t),
    le_trans_lt (version a) (version b) (version r) h (lt_asymm (version b) (version r) (newer t)),
  )
]
  where
    newer :
        (text_eq r.key k && supersedes r (some b)) ≡ true
        → version_ord.lt (version b) (version r) ≡ true
    newer t = unfold supersedes in ground arith

pub Holds-step_self : (m : Dict Text Record) (r : Record) → Holds r.key r (latest_step m r)
Holds-step_self m r = elim (Bool-cases (supersedes r (lookup r.key m))) [
  | inl t ↦
      (r, lookup-latest_step m r r.key ∙ rw (text_eq_refl r.key, t), version_ord.irrefl (version r))
  | inr f ↦ old (lookup r.key m) refl f
]
  where
    old :
        (o : Option Record)
        → lookup r.key m ≡ o
        → supersedes r (lookup r.key m) ≡ false
        → Holds r.key r (latest_step m r)
    old none e f = absurd (unfold supersedes in ground arith)
    old (some b) e f = (
      b,
      lookup-latest_step m r r.key ∙ rw (text_eq_refl r.key, f, e),
      unfold supersedes in ground arith,
    )

pub Holds-latest_of :
    (records : List Record) (m : Dict Text Record) (k : Text) (a : Record)
    → Holds k a m
    → Holds k a (latest_of m records)
unfolding latest_of
Holds-latest_of [] m k a h = h
Holds-latest_of (r ∷ records) m k a h =
    Holds-latest_of records (latest_step m r) k a (Holds-step m r a k h)

pub latest_of-Holds :
    (records : List Record) (m : Dict Text Record)
    → All (λ r. Holds r.key r (latest_of m records)) records
unfolding latest_of
latest_of-Holds [] m = tt
latest_of-Holds (r ∷ records) m = (
  Holds-latest_of records (latest_step m r) r.key r (Holds-step_self m r),
  latest_of-Holds records (latest_step m r),
)

-- Every entry is one of the records, under its own key.
pub latest_of-All :
    (P : Record → Type 0) (records : List Record) (m : Dict Text Record)
    → All P records
    → All (λ e. (e.1.key ≡ e.0) × P e.1) m
    → All (λ e. (e.1.key ≡ e.0) × P e.1) (latest_of m records)
unfolding latest_of latest_step
latest_of-All P [] m h k = k
latest_of-All P (r ∷ records) m h k = latest_of-All P records (latest_step m r) h.1 step
  where
    step : All (λ e. (e.1.key ≡ e.0) × P e.1) (latest_step m r)
    step = elim (Bool-cases (supersedes r (lookup r.key m))) [
      | inl t ↦ rw t (All-insert (λ e. (e.1.key ≡ e.0) × P e.1) r.key r m (refl, h.0) k)
      | inr f ↦ rw f k
    ]
