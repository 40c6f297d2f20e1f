-- ===== src/Reader/Range/Joined.antt =====
-- Stretches of a sorted history join where one ends and the next begins.
use qkt_data_hub.Prelude.{
  ℕ, suc, ◌≤◌, ◌≡◌, refl, sym, ap, ◌∙◌, Bool, false, ◌&&◌, List, [], ◌∷◌, ◌++◌, keep, leb, ltb,
  arith, inl, inr, Bool-cases, All, All-imp,
}
use qkt_data_hub.Prelude.Order.{nat_ord, pair_ord}
use qkt_data_hub.Prelude.Text.{text_ord}
use qkt_data_hub.Prelude.Sort.{IsSorted, IsBelow, sort_by}
use qkt_data_hub.Prelude.SortKeep.{keep-sort_by, keep_same}
use qkt_data_hub.Record.{Record, sort_key}
use qkt_data_hub.Reader.{in_range, read_range}

-- low <= known_at < high
abbrev pub in_span : ℕ → ℕ → Record → Bool
in_span low high r = leb low r.known_at && ltb r.known_at high

abbrev pub span : ℕ → ℕ → List Record → List Record
span low high = keep (in_span low high)

-- no record of the list is before `t`
abbrev After : ℕ → List Record → Type 0
After t = All (λ r. t ≤ r.known_at)

IsBelow-After :
    (r : Record) (records : List Record) → IsBelow sort_key r records → After r.known_at records
unfolding sort_key
IsBelow-After r records b = All-imp _ _ records (λ s h. ground arith) b

span_before : (low mid : ℕ) (records : List Record) → After mid records → span low mid records ≡ []
span_before low mid [] h = refl
span_before low mid (r ∷ records) h =
    let out : in_span low mid r ≡ false = ground (arith, h.0) in
    rw (out, span_before low mid records h.1) refl

span_same :
    (low mid high : ℕ) (records : List Record)
    → low ≤ mid
    → After mid records
    → span mid high records ≡ span low high records
span_same low mid high [] a h = refl
span_same low mid high (r ∷ records) a h =
    let same : in_span mid high r ≡ in_span low high r = ground (arith, h.0) in
    rw (same, span_same low mid high records a h.1) refl

pub span-append :
    (low mid high : ℕ) (records : List Record)
    → low ≤ mid
    → mid ≤ high
    → IsSorted sort_key records
    → span low mid records ++ span mid high records ≡ span low high records
span-append low mid high [] a b s = refl
span-append low mid high (r ∷ records) a b s = elim (Bool-cases (ltb r.known_at mid)) [
  | inl e ↦
      let late : in_span mid high r ≡ false = ground arith in
      let same : in_span low mid r ≡ leb low r.known_at = ground arith in
      let both : in_span low high r ≡ leb low r.known_at = ground arith in
      let rest = span-append low mid high records a b s.1 in
      elim (Bool-cases (leb low r.known_at)) [
        | inl q ↦ rw (late, same, both, q) (ap (λ l. r ∷ l) rest)
        | inr q ↦ rw (late, same, both, q) rest
      ]
  | inr e ↦
      let head : mid ≤ r.known_at = ground arith in
      let after : After mid (r ∷ records) =
        (head, All-imp _ _ records (λ t h. omega arith) (IsBelow-After r records s.0)) in
      rw (span_before low mid (r ∷ records) after) (span_same low mid high (r ∷ records) a after)
]

-- a read of the journal is a stretch of the sorted journal
pub read_range-span :
    (journal : List Record) (low high : ℕ)
    → read_range journal low high ≡ span low (suc high) (sort_by sort_key journal)
unfolding read_range
read_range-span journal low high =
    sym (keep-sort_by sort_key (in_range low high) journal)
    ∙ keep_same (in_range low high) (in_span low (suc high)) (sort_by sort_key journal)
        (λ r. ground arith)

pub span_empty : (low high : ℕ) (records : List Record) → high ≤ low → span low high records ≡ []
span_empty low high [] h = refl
span_empty low high (r ∷ records) h =
    let out : in_span low high r ≡ false = ground arith in
    rw (out, span_empty low high records h) refl
