-- ===== src/Ingest/Ordered.antt =====
-- hub/pipeline.py: the scope histories that `ingest` keeps stay in order.
use qkt_data_hub.Prelude.{
  Yields, ℕ, ◌≡◌, Option, none, some, List, [], ◌∷◌, Result, ok, err, inl, inr, Bool-cases,
  Option-cases, All, Yields-at, Yields-bind, ltb,
}
use qkt_data_hub.Prelude.Text.{Text}
use qkt_data_hub.Prelude.Dict.{Dict, lookup, insert, text_key, All-insert, All-lookup}
use qkt_data_hub.Record.{Record}
use qkt_data_hub.Record.Stamp.{payload_hash}
use qkt_data_hub.Dedupe.{RevisionIndex, seen, assign, is_repeat}
use qkt_data_hub.History.{ScopeHistory}
use qkt_data_hub.History.Slots.{Slots, empty-Slots, upsert-Slots}
use qkt_data_hub.Derive.Decimals.{DecimalContext}
use qkt_data_hub.Ingest.{Candidate, Batch, Progress, Stamp}
use qkt_data_hub.Ingest.Step.{
  reject, refuse, Yields-refuse, repeat, opened, keep_fact, record_assigned, settle, step_keyed,
  keyed, step, steps, start, ingest, reach_of, scope_history, prepare,
}

-- every scope's facts are in order, one for each key
abbrev pub AreOrdered : Dict Text ScopeHistory → Type 0
AreOrdered history = All (λ e. Slots e.1) history

scope_history-Slots :
    (history : Dict Text ScopeHistory) (scope : Text)
    → AreOrdered history
    → Slots (opened (lookup scope history))
unfolding opened
scope_history-Slots history scope w = elim (Option-cases (lookup scope history)) [
  | inl e ↦ rw e empty-Slots
  | inr (h, e) ↦ rw e (All-lookup (λ e. Slots e.1) scope history w e)
]

module _ (c : DecimalContext) (sha256 : Text → Text) (batch : Batch) (reach : ℕ) where
  record_assigned-AreOrdered :
      (candidate : Candidate) (assigned : Option Record × RevisionIndex) (p : Progress)
      → AreOrdered p.history
      → AreOrdered (record_assigned c sha256 reach candidate assigned p).history
  unfolding record_assigned repeat keep_fact
  record_assigned-AreOrdered candidate (none, index) p w = w
  record_assigned-AreOrdered candidate (some r, index) p w = elim (Bool-cases (ltb 0 reach)) [
    | inl e ↦ rw e (
        All-insert (λ e. Slots e.1) candidate.scope _ p.history
          (upsert-Slots (scope_history p candidate.scope)
            (scope_history-Slots p.history candidate.scope w) candidate.effective_at r.key r.fields)
          w)
    | inr e ↦ rw e w
  ]

  settle-AreOrdered :
      (stamp : Stamp) (candidate : Candidate) (p : Progress) (r : Result Record)
      → AreOrdered p.history
      → Yields (λ q. AreOrdered q.history) (settle c sha256 batch reach stamp candidate p r)
  unfolding settle reject refuse repeat
  settle-AreOrdered stamp candidate p (err e) w =
      Yields-refuse (λ q. AreOrdered q.history) batch candidate e p w
  settle-AreOrdered stamp candidate p (ok r) w = elim (Bool-cases stamp.stale) [
    | inl late ↦
        elim (Bool-cases
          (is_repeat (payload_hash sha256 r) (seen p.index batch.schema.name r.key))) [
            | inl known ↦ rw (late, known) w
            | inr new ↦ rw (late, new) w
          ]
    | inr in_time ↦ rw in_time (record_assigned-AreOrdered candidate (assign sha256 p.index r) p w)
  ]

  step_keyed-AreOrdered :
      (candidate : Candidate) (p : Progress) (k : Result (Stamp × Text))
      → AreOrdered p.history
      → Yields (λ q. AreOrdered q.history) (step_keyed c sha256 batch reach candidate p k)
  unfolding step_keyed reject refuse
  step_keyed-AreOrdered candidate p (err e) w =
      Yields-refuse (λ q. AreOrdered q.history) batch candidate e p w
  step_keyed-AreOrdered candidate p (ok (stamp, key)) w =
      let h = scope_history p candidate.scope in
      settle-AreOrdered stamp candidate (record p { history = insert candidate.scope h p.history })
        (prepare c sha256 batch reach h stamp key candidate)
        (All-insert (λ e. Slots e.1) candidate.scope h p.history
          (scope_history-Slots p.history candidate.scope w) w)

  steps-AreOrdered :
      (candidates : List Candidate) (p : Progress)
      → AreOrdered p.history
      → Yields (λ q. AreOrdered q.history) (steps c sha256 batch reach p candidates)
  unfolding steps step
  steps-AreOrdered [] p w = w
  steps-AreOrdered (candidate ∷ candidates) p w =
      Yields-bind (λ q. AreOrdered q.history) (step c sha256 batch reach p candidate)
        (λ next. steps c sha256 batch reach next candidates)
        λ next q. steps-AreOrdered candidates next (
          Yields-at (λ q. AreOrdered q.history) (step c sha256 batch reach p candidate)
            (step_keyed-AreOrdered candidate p (keyed c sha256 batch candidate) w) q)

-- `ingest` leaves every scope's facts in ascending order, one slot for each key, if it got them so,
-- in whatever order the candidates of the batch stand.
pub ingest-AreOrdered :
    (c : DecimalContext) (sha256 : Text → Text) (candidates : List Candidate) (batch : Batch)
    (index : RevisionIndex) (history : Dict Text ScopeHistory) (p : Progress)
    → AreOrdered history
    → ingest c sha256 candidates batch index history ≡ ok p
    → AreOrdered p.history
unfolding ingest
ingest-AreOrdered c sha256 candidates batch index history p w h =
    let goal : Progress → Type 0 = λ q. AreOrdered q.history in
    Yields-at goal (ingest c sha256 candidates batch index history)
      (Yields-bind goal (reach_of c batch.schema)
        (λ reach. steps c sha256 batch reach (start c sha256 index history) candidates)
        λ reach q.
          steps-AreOrdered c sha256 batch reach candidates (start c sha256 index history) w)
      h
