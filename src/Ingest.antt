-- ===== src/Ingest.antt =====
-- hub/pipeline.py: `build_key`, `derive_fields` and `ingest`, with the `Candidate` of
-- hub/collectors/__init__.py and the log of hub/quarantine.py as a list.
use qkt_data_hub.Prelude.{
  ℕ, ◌+◌, Bool, true, false, not, ◌&&◌, Option, none, some, is_none, List, [], ◌∷◌, ◌++◌, Result,
  ok, err, ◌>>=◌, ◌>>◌, require, Exception, hub_error, ltb, if◌then◌else◌, max,
}
use qkt_data_hub.Prelude.Int.{pos}
use qkt_data_hub.Prelude.Text.{Text, codes, text_eq}
use qkt_data_hub.Prelude.Dict.{Dict, lookup, insert, merge, text_key}
use qkt_data_hub.Calendar.{iso_day}
use qkt_data_hub.Record.{Record, Availability, observed, Value, null, text, bool, int, Payload}
use qkt_data_hub.Record.Json.{show_ℤ, show_ℕ}
use qkt_data_hub.Record.Stamp.{create, payload_hash}
use qkt_data_hub.Dedupe.{RevisionIndex, seen, assign, is_repeat}
use qkt_data_hub.History.{ScopeHistory, empty, upsert, before}
use qkt_data_hub.Derive.Decimals.{DecimalContext}
use qkt_data_hub.Derive.Syntax.{History}
use qkt_data_hub.Derive.Compile.{compile_expr, lookback_of}
use qkt_data_hub.Schema.{DatasetSchema, FieldSpec, derived_fields, validate_payload}
pub mod Step
pub mod Counts
pub mod Stamped
pub mod Histories
pub mod Ordered
pub mod Replayed

pub record Candidate : Type 0 where
  pub scope : Text
  pub key : Text
  pub effective_at : ℕ
  pub fields : Payload
  pub period_start : Option ℕ
  pub period_end : Option ℕ
  pub known_at : Option ℕ
  pub availability : Availability
  pub title : Text
  pub extra : Dict Text Text

-- the arguments of `ingest` that hold for the whole batch; `wall` is the clock's reading
pub record Batch : Type 0 where
  pub schema : DatasetSchema
  pub now_ms : ℕ
  pub wall : ℕ
  pub source : Text
  pub source_version : Text
  pub parser : Text
  pub raw_ref : Option Text
  pub live : Bool
  pub skew_tolerance_ms : ℕ
  pub max_observed_age_ms : Option ℕ
  pub keeps_log : Bool

-- what `Quarantine.write` is called with
pub record Rejection : Type 0 where
  pub dataset : Text
  pub reason : Exception
  pub payload : Payload
  pub at : ℕ
  pub raw_ref : Option Text

-- `IngestResult`, with the objects that `ingest` changes
pub record Progress : Type 0 where
  pub records : List Record
  pub quarantined : ℕ
  pub duplicates : ℕ
  pub revisions : ℕ
  pub index : RevisionIndex
  pub history : Dict Text ScopeHistory
  pub log : List Rejection

-- str(value)
unfoldable pub str : Value → Text
str null = codes "None"
str (text s) = s
str (bool true) = codes "True"
str (bool false) = codes "False"
str (int n) = show_ℤ n

-- d.get(name) is None
unfoldable pub str_or : Text → Option Value → Text
unfolding str
str_or default none = default
str_or default (some value) = str value

unfoldable pub field_part : Option Value → Text
unfolding str
field_part none = []
field_part (some null) = []
field_part (some value) = str value

unfoldable pub period_part : Option ℕ → Result Text
unfolding iso_day
period_part none = ok (codes "-")
period_part (some ms) = iso_day ms

-- `candidate.title or str(candidate.fields.get("title", ""))`
unfoldable pub title_part : Candidate → Text
unfolding str_or
title_part candidate =
    if text_eq candidate.title []
    then str_or [] (lookup (codes "title") candidate.fields)
    else candidate.title

unfoldable pub key_part : Candidate → Text → Result Text
unfolding period_part title_part field_part
key_part candidate name =
    if text_eq name (codes "scope")
    then ok candidate.scope
    else if text_eq name (codes "effective_at")
    then (iso_day candidate.effective_at >>= λ day.
        ok (day ++ (codes "T" ++ show_ℕ candidate.effective_at)))
    else if text_eq name (codes "period_start")
    then period_part candidate.period_start
    else if text_eq name (codes "period_end")
    then period_part candidate.period_end
    else if text_eq name (codes "title")
    then ok (title_part candidate)
    else ok (field_part (lookup name candidate.fields))

-- "|".join(parts)
unfoldable pub join_bar : List Text → Text
join_bar [] = []
join_bar (part ∷ []) = part
join_bar (part ∷ next ∷ parts) = part ++ (codes "|" ++ join_bar (next ∷ parts))

unfoldable pub key_parts : Candidate → List Text → Result (List Text)
unfolding key_part
key_parts candidate [] = ok []
key_parts candidate (name ∷ names) = do
  part ← key_part candidate name
  parts ← key_parts candidate names
  ok (part ∷ parts)

unfoldable pub build_key : DatasetSchema → Candidate → Result Text
unfolding key_parts join_bar
build_key schema candidate = do parts ← key_parts candidate schema.key; ok (join_bar parts)

-- a derived value as it goes into the payload
unfoldable pub value_of : Option Text → Value
value_of none = null
value_of (some s) = text s

unfoldable pub has_key : Text → Dict Text Text → Bool
has_key name m = not (is_none (lookup name m))

-- what the checks before the key decide: `known_at`, `availability` and `stale`
pub record Stamp : Type 0 where
  pub known_at : ℕ
  pub availability : Availability
  pub stale : Bool

unfoldable pub known_or : ℕ → Option ℕ → ℕ
known_or now_ms none = now_ms
known_or now_ms (some at) = at

-- wall - candidate.effective_at > max_observed_age_ms, on integers
unfoldable pub is_stale : ℕ → ℕ → Option ℕ → Bool
is_stale wall effective_at none = false
is_stale wall effective_at (some age) = ltb (age + effective_at) wall

unfoldable pub stamp_of : Batch → Candidate → Stamp
unfolding known_or is_stale
stamp_of batch candidate =
    if batch.live
    then record {
      known_at = batch.now_ms;
      availability = observed;
      stale = is_stale batch.wall candidate.effective_at batch.max_observed_age_ms;
    }
    else record {
      known_at = known_or batch.now_ms candidate.known_at;
      availability = candidate.availability;
      stale = false;
    }

-- the guards up to the key
unfoldable pub admit : Batch → Candidate → Result Stamp
unfolding has_key stamp_of
admit batch candidate = do
  require (not (has_key (codes "parse_error") candidate.extra)) hub_error
  let stamp = stamp_of batch candidate
  require (not (ltb (batch.wall + batch.skew_tolerance_ms) stamp.known_at)) hub_error
  ok stamp
