-- ===== src/Reader/AsOf.antt =====
-- `as_of` of hubread/reader.py: what its answer holds, and that it holds it for every visible fact.
use qkt_data_hub.Prelude.{
  ℕ, ◌≤◌, ◌≡◌, List, [], arith, All, All-keep, All-keep_of, All-both, All-Among, All-at, Among,
  Among-keep,
}
use qkt_data_hub.Prelude.Order.{nat_ord, pair_ord}
use qkt_data_hub.Prelude.Text.{Text, text_ord}
use qkt_data_hub.Prelude.Sort.{All-sort_by, Among-sort_by}
use qkt_data_hub.Record.{Record, min_timestamp_ms}
use qkt_data_hub.Reader.{Policy, read_range, visible_records, as_of}
use qkt_data_hub.Reader.Visible.{MaySee, is_visible→MaySee, MaySee→is_visible}
use qkt_data_hub.Reader.Latest.{Holds, latest_of-Holds, latest_of-All}

module _ (policy : Policy) (journal : List Record) (scope : Text) (t : ℕ) where
  visible-MaySee : All (MaySee policy scope t) (visible_records policy journal scope t)
  unfolding visible_records
  visible-MaySee = All-keep_of _ _ _ (is_visible→MaySee policy scope t)

  visible-Among : All (λ r. Among r journal) (visible_records policy journal scope t)
  unfolding visible_records read_range
  visible-Among = All-keep _ _ _ (All-sort_by _ _ _ (All-keep _ _ journal (All-Among journal)))

  -- No answer holds a fact from after `t`, of another scope, or one that the policy refuses, and
  -- each entry is a record of the journal under its own key.
  pub as_of-MaySee :
      All
        (λ e. (e.1.key ≡ e.0) × (MaySee policy scope t e.1 × Among e.1 journal))
        (as_of policy journal scope t)
  unfolding as_of
  as_of-MaySee = latest_of-All _ _ [] (All-both _ _ _ visible-MaySee visible-Among) tt

  Among-visible :
      (r : Record)
      → Among r journal
      → MaySee policy scope t r
      → min_timestamp_ms ≤ r.known_at
      → Among r (visible_records policy journal scope t)
  unfolding visible_records read_range
  Among-visible r m s h =
      Among-keep _ _ r (Among-sort_by _ r _ (Among-keep _ journal r m (ground (arith, s.known))))
        (MaySee→is_visible policy scope t r s)

  -- Every visible fact has an entry under its key, and does not supersede it by its revision, its
  -- instant and its sequence number.
  pub as_of-latest :
      (r : Record)
      → Among r journal
      → MaySee policy scope t r
      → min_timestamp_ms ≤ r.known_at
      → Holds r.key r (as_of policy journal scope t)
  unfolding as_of
  as_of-latest r m s h =
      All-at (λ a. Holds a.key a (as_of policy journal scope t))
        (visible_records policy journal scope t) r
        (latest_of-Holds (visible_records policy journal scope t) []) (Among-visible r m s h)
