-- ===== src/Reader/Windows.antt =====
-- `windows` of hubread/reader.py: the intervals around the events ahead.
use qkt_data_hub.Prelude.{
  ℕ, ◌+◌, ◌≤◌, ◌≡◌, refl, true, arith, All-Among, List, [], ◌∷◌, map, keep, All, All-imp, All-keep,
  All-keep_of, All-both, Among, Among-keep, Among-map,
}
use qkt_data_hub.Prelude.Int.{ℤ, pos, pos_part, neg_part, int_ord}
use qkt_data_hub.Prelude.Order.{pair_ord}
use qkt_data_hub.Prelude.Text.{Text}
use qkt_data_hub.Prelude.Dict.{Dict, values}
use qkt_data_hub.Prelude.Sort.{IsSorted, sort_by-IsSorted, All-sort_by, Among-sort_by}
use qkt_data_hub.Record.{Record}
use qkt_data_hub.Reader.{Policy, as_of, interval, is_ahead, windows}
use qkt_data_hub.Reader.Visible.{MaySee}
use qkt_data_hub.Reader.AsOf.{as_of-MaySee}

All-map :
    {A B : Type 0} (P : B → Type 0) (f : A → B) (xs : List A)
    → All (λ x. P (f x)) xs
    → All P (map f xs)
All-map P f [] h = tt
All-map P f (x ∷ xs) h = (h.0, All-map P f xs h.1)

All-values : (P : Record → Type 0) (d : Dict Text Record) → All (λ e. P e.1) d → All P (values d)
All-values P d h = All-map P (λ e. e.1) d h

module _ (policy : Policy) (journal : List Record) (scope : Text) (t ahead_ms pad_ms : ℕ) where
  abbrev pub latest : List Record
  latest = values (as_of policy journal scope t)

  -- A record that `as_of` holds, from the journal and for a consumer to see, which takes effect at `t` or
  -- later, and at most `ahead_ms` later.
  pub record IsEvent (r : Record) : Type 0 where
    pub held : Among r latest
    pub journalled : Among r journal
    pub seen : MaySee policy scope t r
    pub from : t ≤ r.effective_at
    pub to : r.effective_at ≤ t + ahead_ms

  -- the interval begins `pad_ms` before the record takes effect, and ends `pad_ms` after it
  pub record IsAround (r : Record) (i : ℤ × ℤ) : Type 0 where
    pub begins : pos_part i.0 + pad_ms ≡ r.effective_at + neg_part i.0
    pub ends : i.1 ≡ pos (r.effective_at + pad_ms)

  interval-IsAround : (r : Record) → IsAround r (interval pad_ms r)
  interval-IsAround r = record { begins = ground arith; ends = refl }

  latest-seen : All (λ r. MaySee policy scope t r × Among r journal) latest
  latest-seen =
      All-values _ (as_of policy journal scope t)
        (All-imp _ _ _ (λ e h. h.1) (as_of-MaySee policy journal scope t))

  event :
      (r : Record)
      → Among r latest
      → MaySee policy scope t r × Among r journal
      → is_ahead t ahead_ms r ≡ true
      → IsEvent r
  event r m h e = record {
    held = m;
    journalled = h.1;
    seen = h.0;
    from = ground (arith, e);
    to = ground (arith, e);
  }

  -- The intervals are in order. Each lies around an event: a record of the journal that `as_of` holds and
  -- the consumer may see at `t`, and that takes effect within `ahead_ms` from `t`; and every such record
  -- has its interval. An interval reaches from `pad_ms` before the instant of effect to `pad_ms` after it.
  pub windows-IsEvent :
      IsSorted (λ i. i) (windows policy journal scope t ahead_ms pad_ms)
      × (All
            (λ i. (r : Record) × (IsEvent r) × (IsAround r i))
            (windows policy journal scope t ahead_ms pad_ms)
          × ((r : Record)
              → Among r latest
              → t ≤ r.effective_at
              → r.effective_at ≤ t + ahead_ms
              → (i : ℤ × ℤ) × (Among i (windows policy journal scope t ahead_ms pad_ms))
                × (IsAround r i)))
  unfolding windows
  windows-IsEvent =
      let key : ℤ × ℤ → ℤ × ℤ = λ i. i in
      let events = keep (is_ahead t ahead_ms) latest in
      let spans = map (interval pad_ms) events in
      let known : All (λ r. Among r latest × (MaySee policy scope t r × Among r journal)) latest =
        All-both _ _ latest (All-Among latest) latest-seen in
      let ahead : All IsEvent events =
        All-imp _ IsEvent events (λ r h. event r h.0.0 h.0.1 h.1)
          (All-both _ (λ r. is_ahead t ahead_ms r ≡ true) events
            (All-keep _ (is_ahead t ahead_ms) latest known)
            (All-keep_of (λ r. is_ahead t ahead_ms r ≡ true) (is_ahead t ahead_ms) latest
              (λ r e. e))) in
      let around : ℤ × ℤ → Type 0 = λ i. (r : Record) × (IsEvent r) × (IsAround r i) in
      (
        sort_by-IsSorted key spans,
        (
          All-sort_by key around spans (
              All-map around (interval pad_ms) events (
                All-imp IsEvent (λ r. around (interval pad_ms r)) events
                  (λ r h. (r, h, interval-IsAround r)) ahead)),
          λ r m from to.
              let e : is_ahead t ahead_ms r ≡ true = ground arith in
              (
                interval pad_ms r,
                Among-sort_by key (interval pad_ms r) spans (
                    Among-map (interval pad_ms) events r
                      (Among-keep (is_ahead t ahead_ms) latest r m e)),
                interval-IsAround r,
              ),
        ),
      )
