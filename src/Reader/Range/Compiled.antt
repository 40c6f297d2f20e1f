-- ===== src/Reader/Range/Compiled.antt =====
-- `range` gives what the journal alone gives, where each snapshot holds its window of the journal.
use mathlib.Core.List.{append-nil}
use qkt_data_hub.Prelude.{
  ℕ, suc, ◌+◌, ◌-◌, ◌≤◌, ◌<◌, ◌≡◌, refl, sym, ap, ◌∙◌, ◌||◌, ◌&&◌, List, [], ◌∷◌, ◌++◌, keep,
  Result, ok, leb, ltb, arith, inl, inr, Bool-cases, All, All-imp, max, min,
}
use qkt_data_hub.Prelude.Order.{nat_ord, pair_ord}
use qkt_data_hub.Prelude.Text.{Text, text_ord}
use qkt_data_hub.Prelude.Sort.{IsSorted, sort_by, sort_by-IsSorted}
use qkt_data_hub.Prelude.SortKeep.{keep-keep, keep_same, IsSorted-keep, sort_by_sorted}
use qkt_data_hub.Record.{Record, sort_key}
use qkt_data_hub.Reader.{in_range, read_range}
use qkt_data_hub.Reader.Range.{WindowInfo, decode_window, gap, range_from, range}
use qkt_data_hub.Reader.Range.Joined.{in_span, span, span-append, span_empty, read_range-span}

-- windows in order, none of which meets another
abbrev pub AreApart : List WindowInfo → Type 0
AreApart [] = Unit
AreApart (w ∷ windows) =
    (w.from_ms ≤ w.to_ms) × (All (λ v. w.to_ms < v.from_ms) windows × AreApart windows)

module _ (read_bytes : Text → Result Text) (sha256_of : Text → Text)
    (decode : Text → Result (List Record)) (journal : List Record) where
  -- the snapshot of a window holds the records of the journal that the window covers
  abbrev pub IsFaithful : WindowInfo → Type 0
  IsFaithful w =
      decode_window read_bytes sha256_of decode journal w
      ≡ ok (read_range journal w.from_ms w.to_ms)

  abbrev sorted : List Record
  sorted = sort_by sort_key journal

  sorted-IsSorted : IsSorted sort_key sorted
  sorted-IsSorted = sort_by-IsSorted sort_key journal

  -- what is left of a window inside the range
  inside :
      (known_from known_to : ℕ) (w : WindowInfo)
      → keep (in_range known_from known_to) (read_range journal w.from_ms w.to_ms)
        ≡ span (max known_from w.from_ms) (min (suc known_to) (suc w.to_ms)) sorted
  inside known_from known_to w =
      ap (keep (in_range known_from known_to)) (read_range-span journal w.from_ms w.to_ms)
      ∙ keep-keep (in_range known_from known_to) (in_span w.from_ms (suc w.to_ms)) sorted
      ∙ keep_same (λ r. in_span w.from_ms (suc w.to_ms) r && in_range known_from known_to r)
          (in_span (max known_from w.from_ms) (min (suc known_to) (suc w.to_ms))) sorted
          (λ r. ground arith)

  gap-span :
      (cursor : ℕ) (w : WindowInfo)
      → gap read_bytes sha256_of decode journal cursor w.from_ms
        ≡ span cursor (max cursor w.from_ms) sorted
  unfolding gap
  gap-span cursor w = elim (Bool-cases (ltb cursor w.from_ms)) [
    | inl e ↦
        let last : suc (w.from_ms - 1) ≡ w.from_ms = ground arith in
        let top : max cursor w.from_ms ≡ w.from_ms = ground arith in
        rw (e, top)
          (read_range-span journal cursor (w.from_ms - 1) ∙ ap (λ n. span cursor n sorted) last)
    | inr e ↦
        let top : max cursor w.from_ms ≡ cursor = ground arith in
        rw (e, top) (sym (span_empty cursor cursor sorted (omega arith)))
  ]

  -- the gap before a window and what is left of the window, as one stretch
  joined :
      (known_from known_to cursor : ℕ) (w : WindowInfo)
      → known_from ≤ cursor
      → cursor ≤ max known_from w.from_ms
      → max known_from w.from_ms ≤ min (suc known_to) (suc w.to_ms)
      → gap read_bytes sha256_of decode journal cursor w.from_ms
          ++ keep (in_range known_from known_to) (read_range journal w.from_ms w.to_ms)
        ≡ span cursor (min (suc known_to) (suc w.to_ms)) sorted
  joined known_from known_to cursor w a b c =
      let same : max cursor w.from_ms ≡ max known_from w.from_ms = omega arith in
      rw (gap-span cursor w, inside known_from known_to w, same)
        (span-append cursor (max known_from w.from_ms) (min (suc known_to) (suc w.to_ms)) sorted b c
          sorted-IsSorted)

  range_from-span :
      (known_from known_to : ℕ) (windows : List WindowInfo) (cursor : ℕ)
      → known_from ≤ known_to
      → known_from ≤ cursor
      → All (λ w. cursor ≤ max known_from w.from_ms) windows
      → AreApart windows
      → All IsFaithful windows
      → range_from read_bytes sha256_of decode journal known_from known_to windows cursor
        ≡ ok (span cursor (suc known_to) sorted)
  unfolding range_from
  range_from-span known_from known_to [] cursor le a b apart faithful =
      elim (Bool-cases (leb cursor known_to)) [
        | inl e ↦ rw e (ap ok (read_range-span journal cursor known_to))
        | inr e ↦ rw e (ap ok (sym (span_empty cursor (suc known_to) sorted (ground arith))))
      ]
  range_from-span known_from known_to (w ∷ windows) cursor le a b apart faithful =
      elim (Bool-cases (ltb w.to_ms known_from || ltb known_to w.from_ms)) [
        | inl e ↦
            rw e (range_from-span known_from known_to windows cursor le a b.1 apart.1.1 faithful.1)
        | inr e ↦
            let meets : (known_from ≤ w.to_ms) × (w.from_ms ≤ known_to) = ground arith in
            let near = b.0 in
            let long = apart.0 in
            let piece = joined known_from known_to cursor w a b.0 (omega arith) in
            elim (Bool-cases (ltb known_to (max cursor (w.to_ms + 1)))) [
              | inl q ↦
                  let end : min (suc known_to) (suc w.to_ms) ≡ suc known_to = ground arith in
                  rw (e, faithful.0, q, append-nil, piece, end) refl
              | inr q ↦
                  let end : min (suc known_to) (suc w.to_ms) ≡ suc w.to_ms = ground arith in
                  let next : max cursor (w.to_ms + 1) ≡ suc w.to_ms = ground arith in
                  let later =
                    range_from-span known_from known_to windows (suc w.to_ms) le (omega arith)
                      (All-imp _ _ windows (λ v h. omega arith) apart.1.0) apart.1.1 faithful.1 in
                  rw (e, faithful.0, q, next, later, piece, end)
                    (ap ok (
                      span-append cursor (suc w.to_ms) (suc known_to) sorted (omega arith)
                        (ground arith) sorted-IsSorted))
            ]
      ]

  -- Where the windows of the manifest are in order and apart, and each snapshot has its recorded hash
  -- and decodes to the journal's records of its window, `range` gives for any stretch of history what
  -- a read of the journal gives, in the same order.
  pub range-read_range :
      (windows : List WindowInfo) (known_from known_to : ℕ)
      → known_from ≤ known_to
      → AreApart windows
      → All IsFaithful windows
      → range read_bytes sha256_of decode journal windows known_from known_to
        ≡ ok (read_range journal known_from known_to)
  unfolding range
  range-read_range [] known_from known_to le apart faithful = ap ok (
      rw (read_range-span journal known_from known_to) (
        sort_by_sorted sort_key _
          (IsSorted-keep sort_key (in_span known_from (suc known_to)) sorted sorted-IsSorted)))
  range-read_range (w ∷ windows) known_from known_to le apart faithful =
      rw
        (
          range_from-span known_from known_to (w ∷ windows) known_from le (omega arith)
              (near w, All-imp (λ v. w.to_ms < v.from_ms) _ windows (λ v h. near v) apart.1.0) apart
              faithful,
          read_range-span journal known_from known_to,
        )
        (ap ok (
          sort_by_sorted sort_key (span known_from (suc known_to) sorted)
            (IsSorted-keep sort_key (in_span known_from (suc known_to)) sorted sorted-IsSorted)))
    where
      near : (v : WindowInfo) → known_from ≤ max known_from v.from_ms
      near v = omega arith
