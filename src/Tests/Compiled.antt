-- ===== src/Tests/Compiled.antt =====
-- The compiler on concrete journals: one that verifies, and one that a batch of newest rows first
-- leaves behind.
use qkt_data_hub.Prelude.{ℕ, ◌≡◌, refl, List, [], ◌∷◌, ok, err, store_error, arith}
use qkt_data_hub.Prelude.Int.{ℤ, pos}
use qkt_data_hub.Prelude.Text.{Text, codes}
use qkt_data_hub.Prelude.Text.{text_lt}
use qkt_data_hub.Prelude.Dict.{lookup, merge}
use qkt_data_hub.Prelude.Sort.{sort_by}
use qkt_data_hub.Schema.{fields_at}
use qkt_data_hub.Derive.Compile.{parse_text}
use qkt_data_hub.Derive.Statistics.{lag_value}
use qkt_data_hub.Ingest.{admit, build_key, value_of}
use qkt_data_hub.Ingest.Step.{max_lookback, step, keyed, prepare, earlier, opened}
use qkt_data_hub.Schema.{validate_payload}
use qkt_data_hub.Record.Stamp.{create, with_id}
use qkt_data_hub.Record.Checks.{post_init}
use qkt_data_hub.Record.Names.{matches_dataset, domain, matches_scope, matches_field_name}
use qkt_data_hub.Dedupe.{assign, seen, observe}
use qkt_data_hub.History.{cut_before}
use qkt_data_hub.Record.Json.{show_ℕ}
use qkt_data_hub.Record.{Record, Payload, null, text, min_timestamp_ms}
use qkt_data_hub.Reader.{read_range}
use qkt_data_hub.Compiler.{month_bounds, verify_derived_fields, write_window, compile_dataset}
use qkt_data_hub.Compiler.Windows.{compile_dataset-write_window}
use qkt_data_hub.Ingest.Step.{steps, start}
use qkt_data_hub.Tests.Samples.{fact, counting, plain}
use qkt_data_hub.Tests.Pipeline.{growth, live_batch, progress_of, row}

abbrev grown : Text → ℕ → Payload → Record
grown key effective_at fields = record (fact key 1 1_700_000_000_000 effective_at []) {
  fields = fields;
}

abbrev pub pair_of_facts : List Record
pair_of_facts =
    grown (codes "b") 1_600_086_400_000
      ((codes "x", text (codes "7")) ∷ (codes "d", text (codes "4")) ∷ [])
    ∷ grown (codes "a") 1_600_000_000_000 ((codes "x", text (codes "3")) ∷ (codes "d", null) ∷ [])
    ∷ []

abbrev pub november : ℤ × ℤ
november = (pos 1_698_796_800_000, pos 1_701_388_799_999)

november_bounds : month_bounds (codes "2023-11") ≡ ok november
unfolding month_bounds
november_bounds = refl

facts_verified :
    verify_derived_fields counting growth
      (read_range pair_of_facts min_timestamp_ms 1_800_000_000_000)
    ≡ ok tt
unfolding verify_derived_fields fields_at lookup parse_text max_lookback read_range sort_by text_lt
    merge lag_value cut_before show_ℕ
facts_verified = refl

compile_dataset-write_window_example :
    compile_dataset counting pair_of_facts growth (codes "2023-11")
    ≡ write_window (read_range pair_of_facts min_timestamp_ms 1_800_000_000_000) (codes "2023-11")
compile_dataset-write_window_example =
    compile_dataset-write_window counting pair_of_facts growth (codes "2023-11") november
      1_800_000_000_000 november_bounds (omega arith) facts_verified

-- what `ingest` makes of the later day first
abbrev newest_first : List Record
newest_first =
    (progress_of (
      steps counting plain live_batch 1 (start counting plain [] [])
        (row 1_600_086_400_000 (codes "7") ∷ row 1_600_000_000_000 (codes "3") ∷ []))).records

newest_first-refused :
    verify_derived_fields counting growth
      (read_range newest_first min_timestamp_ms 1_800_000_000_000)
    ≡ err store_error
unfolding verify_derived_fields fields_at lookup parse_text max_lookback read_range sort_by text_lt
    merge lag_value cut_before show_ℕ steps step keyed admit build_key prepare earlier opened
    validate_payload value_of create post_init matches_dataset domain matches_scope
    matches_field_name assign seen observe with_id
newest_first-refused = refl
