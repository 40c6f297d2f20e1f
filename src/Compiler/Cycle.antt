-- ===== src/Compiler/Cycle.antt =====
-- `compile_all` of hub/compiler.py, which keeps the windows that no new record touches, with the files
-- that it writes below the root. The first and last day of a window are those of a year from 1970 on.
use qkt_data_hub.Prelude.{
  ℕ, ◌+◌, ◌/◌, Bool, true, false, not, ◌&&◌, Option, none, some, List, [], ◌∷◌, ◌++◌, map, keep,
  length, take, drop, max, Result, ok, err, ◌>>=◌, key_error, ltb, leb, ◌==◌, if◌then◌else◌,
}
use qkt_data_hub.Prelude.Int.{ℤ, pos_part}
use qkt_data_hub.Prelude.Order.{◌≺◌, nat_ord, pair_ord}
use qkt_data_hub.Prelude.Text.{Text, codes, text_eq, text_ord}
use qkt_data_hub.Prelude.Dict.{Dict, lookup, insert, text_key}
use qkt_data_hub.Prelude.Sets.{sorted_set}
use qkt_data_hub.Record.{Record, min_timestamp_ms, max_timestamp_ms}
use qkt_data_hub.Record.Names.{chomp, elem}
use qkt_data_hub.Calendar.{civil, date_text, day_str, ms_per_day}
use qkt_data_hub.Derive.Decimals.{DecimalContext}
use qkt_data_hub.Schema.{DatasetSchema, derived_fields, or_raise}
use qkt_data_hub.Snapshot.Utf8.{Bytes}
use qkt_data_hub.Snapshot.Encode.{encode}
use qkt_data_hub.Reader.{read_range}
use qkt_data_hub.Compiler.{
  month_bounds, window_records, max_text, min_text, read_from, verify_derived_fields,
}
use qkt_data_hub.Manifest.{WindowEntry, DatasetManifest, FieldEntry}
pub mod Dated
pub mod Untouched
pub mod Kept

-- `_window_of`
unfoldable pub window_of : ℕ → Text
unfolding day_str
window_of known_at = take 7 (day_str known_at)

-- max((r.seq for r in records), default=0)
unfoldable pub last_seq_of : List Record → ℕ
last_seq_of [] = 0
last_seq_of (r ∷ records) = max r.seq (last_seq_of records)

abbrev pub least : Text → Option Text → Option Text
least w none = some w
least w (some v) = some (if v ≺ w then v else w)

-- min((_window_of(r.known_at) for r in records if r.seq > previous), default=None)
unfoldable pub first_changed : ℕ → List Record → Option Text
unfolding window_of
first_changed previous [] = none
first_changed previous (r ∷ records) =
    let rest = first_changed previous records in
    if ltb previous r.seq then least (window_of r.known_at) rest else rest

-- counts.get(month, 0)
unfoldable pub count_of : List Record → Text → ℕ
unfolding window_of text_eq
count_of records month = length (keep (λ r. text_eq (window_of r.known_at) month) records)

abbrev pub is_before : Text → Option Text → Bool
is_before month none = true
is_before month (some w) = month ≺ w

abbrev pub month_of : WindowEntry → Text
month_of e = take 7 e.from_day

module _ (is_file : Text → Bool) (records : List Record) (windows : List Text) where
  -- the condition on an entry
  unfoldable pub is_kept : ℕ → WindowEntry → Bool
  unfolding first_changed count_of elem
  is_kept previous e =
      elem (month_of e) windows
      && is_before (month_of e) (first_changed previous records)
      && count_of records (month_of e) == e.records
      && is_file e.file

  -- the loop over the entries
  unfoldable pub kept_entries : ℕ → List WindowEntry → Dict Text WindowEntry → Dict Text WindowEntry
  unfolding is_kept insert
  kept_entries previous [] kept = kept
  kept_entries previous (e ∷ entries) kept =
      kept_entries previous entries
        (if is_kept previous e then insert (month_of e) e kept else kept)

  -- `_unchanged_windows`, with the hash of the schema
  unfoldable pub unchanged_windows : Text → Option DatasetManifest → Dict Text WindowEntry
  unfolding kept_entries last_seq_of text_eq
  unchanged_windows hash none = []
  unchanged_windows hash (some previous) =
      if text_eq previous.schema_hash hash && leb previous.last_seq (last_seq_of records)
      then kept_entries previous.last_seq previous.windows []
      else []
