-- ===== src/Ingest/Step.antt =====
-- hub/pipeline.py: `derive_fields`, one turn of the loop of `ingest`, and `ingest`.
use qkt_data_hub.Prelude.{
  ℕ, ◌+◌, Option, none, some, List, [], ◌∷◌, ◌++◌, Result, ok, err, ◌>>=◌, Exception, hub_error,
  value_error, arithmetic_error, is_hub_error, Bool, true, Bool-cases, inl, inr, Yields, ltb,
  if◌then◌else◌, max,
}
use qkt_data_hub.Prelude.Int.{pos}
use qkt_data_hub.Prelude.Text.{Text, codes}
use qkt_data_hub.Prelude.Dict.{Dict, lookup, insert, merge, text_key}
use qkt_data_hub.Record.{Record, Payload, int, envelope_version}
use qkt_data_hub.Record.Stamp.{create, payload_hash}
use qkt_data_hub.Dedupe.{RevisionIndex, seen, assign, is_repeat}
use qkt_data_hub.History.{ScopeHistory, empty, upsert, before}
use qkt_data_hub.Derive.Decimals.{DecimalContext}
use qkt_data_hub.Derive.Syntax.{History}
use qkt_data_hub.Derive.Compile.{compile_expr, lookback_of}
use qkt_data_hub.Schema.{DatasetSchema, FieldSpec, derived_fields, validate_payload}
use qkt_data_hub.Ingest.{Candidate, Batch, Progress, Stamp, build_key, value_of, admit}

-- the facts of one scope so far: `history.setdefault(scope, ScopeHistory())`
unfoldable pub opened : Option ScopeHistory → ScopeHistory
opened none = empty
opened (some h) = h

abbrev pub scope_history : Progress → Text → ScopeHistory
scope_history p scope = opened (lookup scope p.history)

abbrev pub envelope : ℕ → ℕ → Payload
envelope known_at effective_at =
    (codes "known_at", int (pos known_at)) ∷ (codes "effective_at", int (pos effective_at)) ∷ []

unfoldable pub reject : Batch → Candidate → Exception → Progress → Progress
reject batch candidate e p = record p {
  quarantined = p.quarantined + 1;
  log =
      if batch.keeps_log
      then p.log
        ++ (record {
          dataset = batch.schema.name;
          reason = e;
          payload = candidate.fields;
          at = batch.now_ms;
          raw_ref = batch.raw_ref;
        }
            ∷ [])
      else p.log;
}

-- except (HubError, ValueError, ArithmeticError)
abbrev pub is_caught : Exception → Bool
is_caught value_error = true
is_caught arithmetic_error = true
is_caught e = is_hub_error e

-- The handler of the `try`; any other exception leaves `ingest`.
unfoldable pub refuse : Batch → Candidate → Exception → Progress → Result Progress
unfolding reject
refuse batch candidate e p = if is_caught e then ok (reject batch candidate e p) else err e

pub Yields-refuse :
    (P : Progress → Type 0) (batch : Batch) (candidate : Candidate) (e : Exception) (p : Progress)
    → P (reject batch candidate e p)
    → Yields P (refuse batch candidate e p)
unfolding refuse
Yields-refuse P batch candidate e p h = elim (Bool-cases (is_caught e)) [
  | inl caught ↦ rw caught h
  | inr other ↦ rw other tt
]

unfoldable pub repeat : Progress → Progress
repeat p = record p { duplicates = p.duplicates + 1 }

-- the envelope and the payload of a record whose revision and id are not known yet
abbrev pub draft : Batch → Stamp → Text → Payload → Candidate → Record
draft batch stamp key payload candidate = record {
  dataset = batch.schema.name;
  scope = candidate.scope;
  key = key;
  revision = 1;
  known_at = stamp.known_at;
  effective_at = candidate.effective_at;
  availability = stamp.availability;
  source = batch.source;
  fields = payload;
  period_start = candidate.period_start;
  period_end = candidate.period_end;
  source_version = batch.source_version;
  parser = batch.parser;
  raw_ref = batch.raw_ref;
  seq = 0;
  id = [];
  v = envelope_version;
}

module _ (c : DecimalContext) where
  -- the loop of `derive_fields`, on the mapping that an expression sees and on the payload
  unfoldable pub derive_each : List FieldSpec → Payload → Payload → History → Result Payload
  unfolding compile_expr
  derive_each [] merged out history = ok out
  derive_each (spec ∷ specs) merged out history = do
    expression ← compile_expr c spec.derived
    result ← expression merged history
    derive_each specs (insert spec.name (value_of result) merged)
        (insert spec.name (value_of result) out) history

  unfoldable pub derive_fields : DatasetSchema → Payload → Payload → History → Result Payload
  unfolding derive_each
  derive_fields schema payload extra history = do
    specs ← derived_fields schema
    derive_each specs (merge payload extra) payload history

  -- max((lookback(spec.derived) for spec in ...), default=0)
  unfoldable pub max_lookback : List FieldSpec → Result ℕ
  unfolding lookback_of
  max_lookback [] = ok 0
  max_lookback (spec ∷ specs) = do
    n ← lookback_of c spec.derived
    rest ← max_lookback specs
    ok (max n rest)

  unfoldable pub reach_of : DatasetSchema → Result ℕ
  reach_of schema = do specs ← derived_fields schema; max_lookback specs

  -- what derived fields may look back on: nothing, for a dataset whose fields never do
  unfoldable pub earlier : ℕ → ScopeHistory → ℕ → Text → History
  earlier reach h effective_at key = if ltb 0 reach then before h effective_at key reach else []

  module _ (sha256 : Text → Text) where
    -- from the key to `Record.create`
    unfoldable pub prepare : Batch → ℕ → ScopeHistory → Stamp → Text → Candidate → Result Record
    unfolding derive_fields
    prepare batch reach h stamp key candidate = do
      derived ←
          derive_fields batch.schema candidate.fields
            (envelope stamp.known_at candidate.effective_at)
            (earlier reach h candidate.effective_at key)
      payload ← validate_payload c batch.schema derived
      create sha256 (draft batch stamp key payload candidate)

    -- the facts of a scope after a record of it is journaled
    unfoldable pub keep_fact : ℕ → Candidate → Record → Progress → Dict Text ScopeHistory
    keep_fact reach candidate r p =
        if ltb 0 reach
        then insert candidate.scope
            (upsert (scope_history p candidate.scope) candidate.effective_at r.key r.fields)
            p.history
        else p.history

    -- what follows `assign`, on its result
    unfoldable pub record_assigned :
        ℕ → Candidate → Option Record × RevisionIndex → Progress → Progress
    unfolding keep_fact repeat
    record_assigned reach candidate (none, index) p = repeat p
    record_assigned reach candidate (some r, index) p = record p {
      records = p.records ++ (r ∷ []);
      revisions = if ltb 1 r.revision then p.revisions + 1 else p.revisions;
      index = index;
      history = keep_fact reach candidate r p;
    }

    -- the check of a stale record, and `assign`
    unfoldable pub settle :
        Batch → ℕ → Stamp → Candidate → Progress → Result Record → Result Progress
    unfolding record_assigned reject refuse repeat
    settle batch reach stamp candidate p (err e) = refuse batch candidate e p
    settle batch reach stamp candidate p (ok r) = ok (
        if stamp.stale
        then (if is_repeat (payload_hash sha256 r) (seen p.index batch.schema.name r.key)
            then repeat p
            else reject batch candidate hub_error p)
        else record_assigned reach candidate (assign sha256 p.index r) p)

    -- `history.setdefault`, and what follows it
    unfoldable pub step_keyed :
        Batch → ℕ → Candidate → Progress → Result (Stamp × Text) → Result Progress
    unfolding settle refuse
    step_keyed batch reach candidate p (err e) = refuse batch candidate e p
    step_keyed batch reach candidate p (ok (stamp, key)) =
        let h = scope_history p candidate.scope in
        settle batch reach stamp candidate
          (record p { history = insert candidate.scope h p.history })
          (prepare batch reach h stamp key candidate)

    -- the guards, and the key of what passes them
    unfoldable pub keyed : Batch → Candidate → Result (Stamp × Text)
    keyed batch candidate = do
      stamp ← admit batch candidate
      key ← build_key batch.schema candidate
      ok (stamp, key)

    -- one turn of the loop of `ingest`
    unfoldable pub step : Batch → ℕ → Progress → Candidate → Result Progress
    unfolding step_keyed
    step batch reach p candidate = step_keyed batch reach candidate p (keyed batch candidate)

    unfoldable pub steps : Batch → ℕ → Progress → List Candidate → Result Progress
    unfolding step
    steps batch reach p [] = ok p
    steps batch reach p (candidate ∷ candidates) = do
      next ← step batch reach p candidate
      steps batch reach next candidates

    abbrev pub start : RevisionIndex → Dict Text ScopeHistory → Progress
    start index history = record {
      records = [];
      quarantined = 0;
      duplicates = 0;
      revisions = 0;
      index = index;
      history = history;
      log = [];
    }

    unfoldable pub ingest :
        List Candidate → Batch → RevisionIndex → Dict Text ScopeHistory → Result Progress
    unfolding reach_of steps
    ingest candidates batch index history = do
      reach ← reach_of batch.schema
      steps batch reach (start index history) candidates
