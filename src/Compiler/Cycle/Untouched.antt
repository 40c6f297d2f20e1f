-- ===== src/Compiler/Cycle/Untouched.antt =====
-- The records of a window that no new record of the journal touches.
use qkt_data_hub.Prelude.{
  ℕ, zero, suc, ◌≤◌, ◌≡◌, refl, sym, ap, ◌∙◌, Bool, true, false, ◌&&◌, ltb, leb, Option, none, some,
  List, [], ◌∷◌, keep, length, take, ok, Bool-cases, inl, inr, All, All-imp, All-both, arith,
}
use qkt_data_hub.Prelude.Int.{ℤ}
use qkt_data_hub.Prelude.Order.{◌≺◌, nat_ord, pair_ord, lt_of_lt_of_le}
use qkt_data_hub.Prelude.Text.{
  Text, text_eq, text_eq_iff, text_ord, text_lt, text_trans, text_irrefl,
}
use mathlib.Core.Path.{subst}
use qkt_data_hub.Prelude.Dict.{text_key}
use qkt_data_hub.Prelude.Sort.{sort_by}
use qkt_data_hub.Prelude.SortKeep.{keep-keep, length-sort_by}
use qkt_data_hub.Record.{Record, sort_key, max_timestamp_ms}
use qkt_data_hub.Record.Names.{chomp}
use qkt_data_hub.Compiler.{month_bounds, parse_window, in_window, window_records}
use qkt_data_hub.Compiler.Cycle.{window_of, first_changed, least, is_before, count_of}
use qkt_data_hub.Compiler.Cycle.Dated.{in_window-window_of}

length-chomp : (w : Text) → length (chomp w) ≤ length w
unfolding chomp
length-chomp [] = omega arith
length-chomp (c ∷ []) = ground arith
length-chomp (c ∷ d ∷ s) = omega (arith, length-chomp (d ∷ s))

parse_window-length : (w : Text) (bounds : ℤ × ℤ) → parse_window w ≡ ok bounds → length w ≡ 7
unfolding parse_window
parse_window-length (a ∷ b ∷ c ∷ d ∷ e ∷ m ∷ n ∷ []) bounds h = refl
parse_window-length [] bounds h = cc
parse_window-length (a ∷ []) bounds h = cc
parse_window-length (a ∷ b ∷ []) bounds h = cc
parse_window-length (a ∷ b ∷ c ∷ []) bounds h = cc
parse_window-length (a ∷ b ∷ c ∷ d ∷ []) bounds h = cc
parse_window-length (a ∷ b ∷ c ∷ d ∷ e ∷ []) bounds h = cc
parse_window-length (a ∷ b ∷ c ∷ d ∷ e ∷ m ∷ []) bounds h = cc
parse_window-length (a ∷ b ∷ c ∷ d ∷ e ∷ m ∷ n ∷ o ∷ s) bounds h = cc

month_bounds-length :
    (w : Text) (bounds : ℤ × ℤ) → length w ≤ 7 → month_bounds w ≡ ok bounds → length w ≡ 7
unfolding month_bounds
month_bounds-length w bounds le h =
    omega (arith, length-chomp w, parse_window-length (chomp w) bounds h)

pub length-take_le : (n : ℕ) (s : Text) → length (take n s) ≤ n
length-take_le zero s = omega arith
length-take_le (suc n) [] = omega arith
length-take_le (suc n) (c ∷ s) = omega (arith, length-take_le n s)

-- a record journalled later lies in another month
abbrev pub IsElsewhere : ℕ → Text → Record → Type 0
IsElsewhere previous month r =
    ltb previous r.seq ≡ true → text_eq (window_of r.known_at) month ≡ false

least-before :
    (month w : Text) (o : Option Text)
    → is_before month (least w o) ≡ true
    → (month ≺ w ≡ true) × (is_before month o ≡ true)
least-before month w none h = (h, refl)
least-before month w (some v) h = elim (Bool-cases (v ≺ w)) [
  | inl e ↦ let lt : month ≺ v ≡ true = rw e at h in (text_trans month v w lt e, lt)
  | inr e ↦ let lt : month ≺ w ≡ true = rw e at h in (lt, lt_of_lt_of_le month w v lt e)
]

before-differs : (month w : Text) → month ≺ w ≡ true → text_eq w month ≡ false
before-differs month w h = elim (Bool-cases (text_eq w month)) [
  | inr e ↦ e
  | inl e ↦
      let same = (text_eq_iff w month).0 e in
      cc (text_irrefl w, subst (λ t. text_lt t w ≡ true) (sym same) h)
]

pub first_changed-IsElsewhere :
    (previous : ℕ) (month : Text) (records : List Record)
    → is_before month (first_changed previous records) ≡ true
    → All (IsElsewhere previous month) records
unfolding first_changed
first_changed-IsElsewhere previous month [] h = tt
first_changed-IsElsewhere previous month (r ∷ records) h = elim (Bool-cases (ltb previous r.seq)) [
  | inl e ↦
      let (lt, later) =
        least-before month (window_of r.known_at) (first_changed previous records) (rw e at h) in
      (
        λ new. before-differs month (window_of r.known_at) lt,
        first_changed-IsElsewhere previous month records later,
      )
  | inr e ↦ (λ new. cc, first_changed-IsElsewhere previous month records (rw e at h))
]

-- what was journalled when `previous` was the last sequence number
abbrev pub known_then : ℕ → Record → Bool
known_then previous r = leb r.seq previous

abbrev pub in_month : Text → Record → Bool
in_month month r = text_eq (window_of r.known_at) month

keep_same_All :
    (p q : Record → Bool) (records : List Record)
    → All (λ r. p r ≡ q r) records
    → keep p records ≡ keep q records
keep_same_All p q [] h = refl
keep_same_All p q (r ∷ records) h = elim (Bool-cases (q r)) [
  | inl e ↦ rw (h.0, e) (ap (λ l. r ∷ l) (keep_same_All p q records h.1))
  | inr e ↦ rw (h.0, e) (keep_same_All p q records h.1)
]

module _ (month : Text) (bounds : ℤ × ℤ) (made : month_bounds month ≡ ok bounds)
    (short : length month ≤ 7) where
  in_window-in_month :
      (r : Record) → r.known_at ≤ max_timestamp_ms → in_window bounds r ≡ in_month month r
  in_window-in_month r late =
      in_window-window_of month r bounds (month_bounds-length month bounds short made) late made

  in_window-known_then :
      (previous : ℕ) (r : Record)
      → r.known_at ≤ max_timestamp_ms
      → IsElsewhere previous month r
      → in_window bounds r ≡ (known_then previous r && in_window bounds r)
  in_window-known_then previous r late elsewhere = elim (Bool-cases (ltb previous r.seq)) [
    | inl new ↦ let out = in_window-in_month r late ∙ elsewhere new in rw out (ground arith)
    | inr old ↦
        let then_known : known_then previous r ≡ true = ground (arith, old) in rw then_known refl
  ]

  pub window_records-known_then :
      (previous : ℕ) (records : List Record)
      → All (λ r. r.known_at ≤ max_timestamp_ms) records
      → All (IsElsewhere previous month) records
      → window_records bounds records ≡ window_records bounds (keep (known_then previous) records)
  unfolding window_records
  window_records-known_then previous records late elsewhere = ap (sort_by sort_key) (
      keep_same_All (in_window bounds) (λ r. known_then previous r && in_window bounds r) records
        (All-imp _ _ records (λ r h. in_window-known_then previous r h.0 h.1)
          (All-both _ _ records late elsewhere))
      ∙ sym (keep-keep (in_window bounds) (known_then previous) records))

  pub length-window_records :
      (records : List Record)
      → All (λ r. r.known_at ≤ max_timestamp_ms) records
      → length (window_records bounds records) ≡ count_of records month
  unfolding window_records count_of
  length-window_records records late =
      length-sort_by sort_key (keep (in_window bounds) records)
      ∙ ap length (
          keep_same_All (in_window bounds) (in_month month) records
            (All-imp _ _ records in_window-in_month late))
