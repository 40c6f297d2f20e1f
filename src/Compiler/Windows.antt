-- ===== src/Compiler/Windows.antt =====
-- hub/compiler.py: a window compiled from a longer read of the journal is the window compiled alone.
use qkt_data_hub.Prelude.{ℕ, ◌≤◌, ◌≡◌, sym, ap, ◌∙◌, ◌&&◌, List, keep, ok, arith}
use qkt_data_hub.Prelude.Int.{ℤ, pos, negsuc, pos_part}
use qkt_data_hub.Prelude.Order.{nat_ord, pair_ord}
use qkt_data_hub.Prelude.Text.{Text, text_ord}
use qkt_data_hub.Prelude.Sort.{sort_by, IsSorted, sort_by-IsSorted}
use qkt_data_hub.Prelude.SortKeep.{keep-keep, keep_same, keep-sort_by}
use qkt_data_hub.Record.{Record, sort_key, min_timestamp_ms}
use qkt_data_hub.Reader.{in_range, read_range}
use qkt_data_hub.Derive.Decimals.{DecimalContext}
use qkt_data_hub.Schema.{DatasetSchema}
use qkt_data_hub.Compiler.{
  in_window, month_bounds, window_records, write_window, verify_derived_fields, compile_dataset,
}
use qkt_data_hub.Compiler.Verified.{known_by, verify_derived_fields-keep}

-- the read up to `lo` is the part of the read up to `hi` that was known by `lo`
read_range-known_by :
    (journal : List Record) (lo hi : ℕ)
    → lo ≤ hi
    → read_range journal min_timestamp_ms lo
      ≡ keep (known_by lo) (read_range journal min_timestamp_ms hi)
unfolding read_range
read_range-known_by journal lo hi le = sym (
    keep-sort_by sort_key (known_by lo) (keep (in_range min_timestamp_ms hi) journal)
    ∙ ap (sort_by sort_key) (
        keep-keep (known_by lo) (in_range min_timestamp_ms hi) journal
        ∙ keep_same (λ r. in_range min_timestamp_ms hi r && known_by lo r)
            (in_range min_timestamp_ms lo) journal (λ r. ground arith)))

ends_by :
    (bounds : ℤ × ℤ) (r : Record)
    → (known_by (pos_part bounds.1) r && in_window bounds r) ≡ in_window bounds r
ends_by (start, pos n) r = ground arith
ends_by (start, negsuc n) r = ground arith

-- a window that ends by `lo` reads only what was known by `lo`
window_records-known_by :
    (bounds : ℤ × ℤ) (records : List Record)
    → window_records bounds (keep (known_by (pos_part bounds.1)) records)
      ≡ window_records bounds records
unfolding window_records
window_records-known_by bounds records = ap (sort_by sort_key) (
    keep-keep (in_window bounds) (known_by (pos_part bounds.1)) records
    ∙ keep_same (λ r. known_by (pos_part bounds.1) r && in_window bounds r) (in_window bounds)
        records (ends_by bounds))

read_range-IsSorted :
    (journal : List Record) (hi : ℕ) → IsSorted sort_key (read_range journal min_timestamp_ms hi)
unfolding read_range
read_range-IsSorted journal hi =
    sort_by-IsSorted sort_key (keep (in_range min_timestamp_ms hi) journal)

module _ (c : DecimalContext) where
  -- Where one read of the journal up to `hi` has verified, a window that ends by `hi` is written from
  -- it as `compile_dataset` compiles it from its own read with its own verification.
  pub compile_dataset-write_window :
      (journal : List Record) (schema : DatasetSchema) (window : Text) (bounds : ℤ × ℤ) (hi : ℕ)
      → month_bounds window ≡ ok bounds
      → pos_part bounds.1 ≤ hi
      → verify_derived_fields c schema (read_range journal min_timestamp_ms hi) ≡ ok tt
      → compile_dataset c journal schema window
        ≡ write_window (read_range journal min_timestamp_ms hi) window
  unfolding compile_dataset write_window
  compile_dataset-write_window journal schema window bounds hi b le v =
      let records = read_range journal min_timestamp_ms hi in
      let verified =
        verify_derived_fields-keep c schema (pos_part bounds.1) records
          (read_range-IsSorted journal hi) v in
      rw (b, read_range-known_by journal (pos_part bounds.1) hi le, verified)
        (ap ok (window_records-known_by bounds records))
