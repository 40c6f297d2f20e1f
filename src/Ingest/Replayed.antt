-- ===== src/Ingest/Replayed.antt =====
-- hub/pipeline.py: the revision index that `ingest` leaves is the one that a restart would rebuild.
use qkt_data_hub.Prelude.{
  Yields, ℕ, ◌≡◌, refl, sym, ap, ◌∙◌, List, [], ◌∷◌, ◌++◌, Result, ok, err, inl, inr, Bool-cases,
  Yields-at, Yields-bind,
}
use qkt_data_hub.Prelude.Text.{Text}
use qkt_data_hub.Prelude.Dict.{Dict, insert, text_key}
use qkt_data_hub.Record.{Record}
use qkt_data_hub.Record.Stamp.{payload_hash}
use qkt_data_hub.Dedupe.{RevisionIndex, seen, assign, is_repeat, observe, rebuild_from}
use qkt_data_hub.Dedupe.Revised.{revised}
use qkt_data_hub.History.{ScopeHistory}
use qkt_data_hub.Derive.Decimals.{DecimalContext}
use qkt_data_hub.Ingest.{Candidate, Batch, Progress, Stamp}
use qkt_data_hub.Ingest.Step.{
  reject, refuse, Yields-refuse, repeat, record_assigned, settle, step_keyed, keyed, step, steps,
  start, ingest, reach_of, scope_history, prepare,
}

rebuild_from-append :
    (sha256 : Text → Text) (index : RevisionIndex) (records : List Record) (r : Record)
    → rebuild_from sha256 index (records ++ r ∷ [])
      ≡ observe sha256 (rebuild_from sha256 index records) r
unfolding rebuild_from
rebuild_from-append sha256 index [] r = refl
rebuild_from-append sha256 index (s ∷ records) r =
    rebuild_from-append sha256 (observe sha256 index s) records r

module _ (c : DecimalContext) (sha256 : Text → Text) (batch : Batch) (reach : ℕ)
    (index : RevisionIndex) where
  -- the index is the first one with the records so far observed
  abbrev pub IsReplayed : Progress → Type 0
  IsReplayed p = p.index ≡ rebuild_from sha256 index p.records

  record_assigned-IsReplayed :
      (candidate : Candidate) (r : Record) (p : Progress)
      → IsReplayed p
      → IsReplayed (record_assigned c sha256 reach candidate (assign sha256 p.index r) p)
  unfolding record_assigned assign repeat
  record_assigned-IsReplayed candidate r p w =
      elim (Bool-cases (is_repeat (payload_hash sha256 r) (seen p.index r.dataset r.key))) [
        | inl e ↦ rw e w
        | inr e ↦
            let journaled = revised sha256 p.index r in
            rw e (
              ap (λ i. observe sha256 i journaled) w
              ∙ sym (rebuild_from-append sha256 index p.records journaled))
      ]

  settle-IsReplayed :
      (stamp : Stamp) (candidate : Candidate) (p : Progress) (r : Result Record)
      → IsReplayed p
      → Yields IsReplayed (settle c sha256 batch reach stamp candidate p r)
  unfolding settle reject refuse repeat
  settle-IsReplayed stamp candidate p (err e) w = Yields-refuse IsReplayed batch candidate e p w
  settle-IsReplayed stamp candidate p (ok r) w = elim (Bool-cases stamp.stale) [
    | inl late ↦
        elim (Bool-cases
          (is_repeat (payload_hash sha256 r) (seen p.index batch.schema.name r.key))) [
            | inl known ↦ rw (late, known) w
            | inr new ↦ rw (late, new) w
          ]
    | inr in_time ↦ rw in_time (record_assigned-IsReplayed candidate r p w)
  ]

  step_keyed-IsReplayed :
      (candidate : Candidate) (p : Progress) (k : Result (Stamp × Text))
      → IsReplayed p
      → Yields IsReplayed (step_keyed c sha256 batch reach candidate p k)
  unfolding step_keyed reject refuse
  step_keyed-IsReplayed candidate p (err e) w = Yields-refuse IsReplayed batch candidate e p w
  step_keyed-IsReplayed candidate p (ok (stamp, key)) w =
      let h = scope_history p candidate.scope in
      settle-IsReplayed stamp candidate (record p { history = insert candidate.scope h p.history })
        (prepare c sha256 batch reach h stamp key candidate) w

  steps-IsReplayed :
      (candidates : List Candidate) (p : Progress)
      → IsReplayed p
      → Yields IsReplayed (steps c sha256 batch reach p candidates)
  unfolding steps step
  steps-IsReplayed [] p w = w
  steps-IsReplayed (candidate ∷ candidates) p w =
      Yields-bind IsReplayed (step c sha256 batch reach p candidate)
        (λ next. steps c sha256 batch reach next candidates)
        λ next q. steps-IsReplayed candidates next (
          Yields-at IsReplayed (step c sha256 batch reach p candidate)
            (step_keyed-IsReplayed candidate p (keyed c sha256 batch candidate) w) q)

-- The index after a batch is the index before it with the batch's records observed in turn: a writer
-- that restarts and replays those records holds the same index.
pub ingest-rebuild_from :
    (c : DecimalContext) (sha256 : Text → Text) (candidates : List Candidate) (batch : Batch)
    (index : RevisionIndex) (history : Dict Text ScopeHistory) (p : Progress)
    → ingest c sha256 candidates batch index history ≡ ok p
    → p.index ≡ rebuild_from sha256 index p.records
unfolding ingest rebuild_from
ingest-rebuild_from c sha256 candidates batch index history p h =
    let goal : Progress → Type 0 = λ q. q.index ≡ rebuild_from sha256 index q.records in
    Yields-at goal (ingest c sha256 candidates batch index history)
      (Yields-bind goal (reach_of c batch.schema)
        (λ reach. steps c sha256 batch reach (start c sha256 index history) candidates)
        λ reach q.
          steps-IsReplayed c sha256 batch reach index candidates (start c sha256 index history)
            refl)
      h
