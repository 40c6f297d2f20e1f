-- ===== src/Tests/Pipeline.antt =====
-- A batch of the pipeline on concrete candidates: a new fact, its repeat, and a row from the future.
use qkt_data_hub.Prelude.{ℕ, ◌≡◌, refl, true, none, List, [], ◌∷◌, Result, ok, err, All, map}
use mathlib.Core.List.{flat_map}
use qkt_data_hub.Prelude.Text.{Text, codes, text_eq, text_lt}
use qkt_data_hub.Prelude.Int.{pos}
use qkt_data_hub.Prelude.Dict.{lookup, merge, text_key}
use qkt_data_hub.Derive.Compile.{parse_text}
use qkt_data_hub.Record.{observed, text, Value}
use qkt_data_hub.Schema.{
  DatasetSchema, derived_fields, fields_at, FieldSpec, number_type, forbid, allow, validate_payload,
  NullPolicy,
}
use qkt_data_hub.Schema.Valid.{IsDeclared, validate_payload-IsDeclared}
use qkt_data_hub.Record.Json.{show_ℕ, canonical_payload}
use qkt_data_hub.Derive.Statistics.{lag_value}
use qkt_data_hub.Derive.Calls.{int_value}
use qkt_data_hub.Ingest.{Candidate, Batch, Progress}
use qkt_data_hub.Ingest.{admit, build_key, value_of}
use qkt_data_hub.Record.Stamp.{create, with_id, payload_hash}
use qkt_data_hub.Record.Checks.{post_init}
use qkt_data_hub.Record.Names.{matches_dataset, domain, matches_scope, matches_field_name}
use qkt_data_hub.Dedupe.{assign, seen, observe}
use qkt_data_hub.Ingest.Step.{
  step, keyed, prepare, opened, refuse, ingest, steps, max_lookback, reach_of, derive_fields,
  earlier, start,
}
use qkt_data_hub.Ingest.Counts.{Counted, ingest-Counted}
use qkt_data_hub.Ingest.Stamped.{IsStamped, ingest-IsStamped}
use qkt_data_hub.Ingest.Ordered.{AreOrdered, ingest-AreOrdered}
use qkt_data_hub.Dedupe.{rebuild_from}
use qkt_data_hub.Ingest.Replayed.{ingest-rebuild_from}
use qkt_data_hub.Ingest.Histories.{derive_fields-earlier}
use qkt_data_hub.History.{empty, upsert, before, cut_before, before_all, ScopeHistory}
use qkt_data_hub.Tests.Samples.{counting, plain, payload}

abbrev pub spec_of : Text → NullPolicy → Text → FieldSpec
spec_of name policy derived = record {
  name = name;
  type = number_type;
  unit = [];
  values = [];
  null_policy = policy;
  derived = derived;
  strategy = true;
}

-- x is given; d is what it grew by
abbrev pub growth : DatasetSchema
growth = record {
  name = codes "rates.x";
  version = pos 1;
  scope_kind = codes "all";
  key = codes "effective_at" ∷ [];
  fields =
      (codes "x", spec_of (codes "x") forbid [])
      ∷ (codes "d", spec_of (codes "d") allow (codes "diff(x, 1)"))
      ∷ [];
  title = [];
  value_alias = [];
  range = ok [];
  derived_order = codes "d" ∷ [];
}

abbrev pub live_batch : Batch
live_batch = record {
  schema = growth;
  now_ms = 1_700_000_000_000;
  wall = 1_700_000_000_000;
  source = codes "feed";
  source_version = [];
  parser = [];
  raw_ref = none;
  live = true;
  skew_tolerance_ms = 5_000;
  max_observed_age_ms = none;
  keeps_log = true;
}

abbrev pub row : ℕ → Text → Candidate
row effective_at value = record {
  scope = codes "USD";
  key = [];
  effective_at = effective_at;
  fields = (codes "x", text value) ∷ [];
  period_start = none;
  period_end = none;
  known_at = none;
  availability = observed;
  title = [];
  extra = [];
}

abbrev rows : List Candidate
rows =
    row 1_600_000_000_000 (codes "3")
    ∷ row 1_600_086_400_000 (codes "7")
    ∷ row 1_600_086_400_000 (codes "7")
    ∷ row 5 (codes "1")
    ∷ []

growth_reach : reach_of counting growth ≡ ok 1
unfolding reach_of derived_fields fields_at lookup text_eq max_lookback parse_text
growth_reach = refl

abbrev pub progress_of : Result Progress → Progress
progress_of (ok p) = p
progress_of (err e) = start counting plain [] []

abbrev ran : Progress
ran = progress_of (steps counting plain live_batch 1 (start counting plain [] []) rows)

steps-ran : steps counting plain live_batch 1 (start counting plain [] []) rows ≡ ok ran
unfolding steps step keyed admit build_key prepare earlier opened max_lookback lookup text_eq
    validate_payload value_of create post_init matches_dataset domain matches_scope
    matches_field_name assign seen observe with_id fields_at parse_text show_ℕ refuse derived_fields
    merge lag_value before cut_before upsert text_lt payload_hash canonical_payload flat_map
steps-ran = refl

outcome_ran : ingest counting plain rows live_batch [] [] ≡ ok ran
unfolding ingest
outcome_ran = rw growth_reach steps-ran

ingest-Counted_example : Counted true 4 ran
ingest-Counted_example = ingest-Counted counting plain rows live_batch [] [] ran outcome_ran

ingest-IsStamped_example : All (IsStamped live_batch) ran.records
ingest-IsStamped_example = ingest-IsStamped counting plain rows live_batch [] [] ran outcome_ran

ingest-AreOrdered_example : AreOrdered ran.history
ingest-AreOrdered_example =
    ingest-AreOrdered counting plain rows live_batch [] [] ran tt outcome_ran

ingest-rebuild_from_example : ran.index ≡ rebuild_from plain [] ran.records
ingest-rebuild_from_example =
    ingest-rebuild_from counting plain rows live_batch [] [] ran outcome_ran

abbrev facts : ScopeHistory
facts = upsert (upsert empty 10 (codes "a") (payload 1)) 20 (codes "b") (payload 2)

derive_fields-earlier_example :
    derive_fields counting growth (payload 5) [] (earlier counting 1 facts 30 (codes "c"))
    ≡ derive_fields counting growth (payload 5) [] (before_all facts 30 (codes "c"))
derive_fields-earlier_example =
    derive_fields-earlier counting growth (payload 5) [] facts 30 (codes "c") 1 growth_reach

accepted : validate_payload counting growth (payload 5) ≡ ok (payload 5)
unfolding validate_payload lookup text_eq int_value show_ℕ
accepted = refl

validate_payload-IsDeclared_example :
    (map (λ (e : Text × Value). e.0) (payload 5) ≡ map (λ e. e.0) (payload 5))
    × All (IsDeclared counting growth) (payload 5)
validate_payload-IsDeclared_example =
    validate_payload-IsDeclared counting growth (payload 5) (payload 5) accepted
