-- ===== src/Tests/Restored.antt =====
-- A journal of two records, the first of which is in a snapshot.
use qkt_data_hub.Prelude.{ℕ, ◌≡◌, refl, List, [], ◌∷◌, Result, ok, arith}
use qkt_data_hub.Prelude.Order.{nat_ord, pair_ord}
use qkt_data_hub.Prelude.Text.{Text, codes, text_eq, text_ord, text_lt}
use qkt_data_hub.Prelude.Dict.{lookup, insert}
use qkt_data_hub.Prelude.Sort.{sort_by}
use qkt_data_hub.Prelude.Sets.{sorted_set}
use qkt_data_hub.Record.{Record, text, null, sort_key}
use qkt_data_hub.Record.Json.{show_ℕ}
use qkt_data_hub.Record.Stamp.{with_id, compute_id, identity_payload}
use qkt_data_hub.Record.Checks.{post_init}
use qkt_data_hub.Record.Names.{matches_dataset, domain, elem, matches_scope, matches_field_name}
use qkt_data_hub.Derive.Calls.{int_value}
use qkt_data_hub.Snapshot.Utf8.{Bytes, encode_text}
use qkt_data_hub.Snapshot.Encode.{
  encode, storable_fields, ◌<+>◌, write_header, pack_str, pack_fields, field_type_code,
  pack_dictionary, dictionaries, pack_strs, write_columns, write_column, map_result,
  availability_ordinal, encode_field_value, encode_typed, index_from, pack_column, write_fields,
}
use qkt_data_hub.Snapshot.Words.{pack}
use qkt_data_hub.Snapshot.Restores.Rows.{a_number, no_value, stored_from}
use qkt_data_hub.Reader.{read_range}
use qkt_data_hub.Reader.Range.{WindowInfo, range}
use qkt_data_hub.Reader.Range.Snapshots.{read_snapshot, IsWhole, IsCompiled, range-compiled}
use qkt_data_hub.Tests.Samples.{plain, fact}
use qkt_data_hub.Tests.Pipeline.{growth}
use qkt_data_hub.Tests.Snapshots.{
  whole_numbers, whole_numbers-ScalesBack, blank, blank_digest, named, bytes_of, strict,
}

-- both fields of the schema, the derived one without a value
abbrev bare : ℕ → Text → Record
bare known_at value = record (fact (codes "a") 1 known_at 1_600_000_000_000 value) {
  dataset = codes "rates.x";
  fields = (codes "x", text value) ∷ (codes "d", null) ∷ [];
}

abbrev reading : ℕ → Text → Record
reading known_at value = with_id plain (bare known_at value)

abbrev journal : List Record
journal = reading 1_600_000_000_200 (codes "7") ∷ reading 1_600_000_000_900 (codes "3") ∷ []

abbrev snapshot : Bytes
snapshot = bytes_of (
    encode whole_numbers blank_digest blank growth
      (read_range journal 1_600_000_000_000 1_600_000_000_500))

abbrev window : WindowInfo
window = record {
  file = codes "a.qkh";
  sha256 = snapshot;
  from_ms = 1_600_000_000_000;
  to_ms = 1_600_000_000_500;
}

abbrev store : Text → Result Text
store file = ok snapshot

window-IsCompiled :
    IsCompiled whole_numbers plain blank_digest blank growth store plain journal window
unfolding encode text_eq ◌<+>◌ write_header pack pack_str encode_text storable_fields pack_fields
    field_type_code pack_dictionary dictionaries sorted_set text_lt pack_strs write_columns
    write_column map_result lookup sort_by show_ℕ sort_key availability_ordinal encode_field_value
    index_from pack_column write_fields encode_typed int_value read_range with_id
window-IsCompiled = record { bytes = snapshot; on_disk = refl; hashed = refl; written = refl }

first-IsWhole :
    IsWhole whole_numbers plain blank_digest blank growth (reading 1_600_000_000_200 (codes "7"))
unfolding post_init matches_dataset domain elem text_eq matches_scope matches_field_name strict
    show_ℕ int_value with_id compute_id identity_payload stored_from storable_fields lookup insert
first-IsWhole = record {
  storable = record {
    valid = refl;
    of_dataset = refl;
    kept = (a_number (codes "7") refl, (no_value, tt));
  };
  complete = refl;
  addressed = refl;
}

second-IsWhole :
    IsWhole whole_numbers plain blank_digest blank growth (reading 1_600_000_000_900 (codes "3"))
unfolding post_init matches_dataset domain elem text_eq matches_scope matches_field_name strict
    show_ℕ int_value with_id compute_id identity_payload stored_from storable_fields lookup insert
second-IsWhole = record {
  storable = record {
    valid = refl;
    of_dataset = refl;
    kept = (a_number (codes "3") refl, (no_value, tt));
  };
  complete = refl;
  addressed = refl;
}

range-compiled_example :
    range store plain
      (read_snapshot whole_numbers plain blank_digest blank growth)
      journal
      (window ∷ [])
      1_600_000_000_100
      1_600_000_001_000
    ≡ ok (read_range journal 1_600_000_000_100 1_600_000_001_000)
range-compiled_example =
    range-compiled whole_numbers plain blank_digest blank growth store plain journal
      whole_numbers-ScalesBack (λ b. refl) refl named (first-IsWhole, (second-IsWhole, tt))
      (window ∷ []) 1_600_000_000_100 1_600_000_001_000 (omega arith) (omega arith, (tt, tt))
      (window-IsCompiled, tt)
