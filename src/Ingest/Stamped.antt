-- ===== src/Ingest/Stamped.antt =====
-- hub/pipeline.py: the promises of `ingest` about the records that it returns.
use qkt_data_hub.Prelude.{
  ℕ, ◌+◌, ◌≤◌, ◌≡◌, refl, true, not, List, [], ◌∷◌, Result, ok, err, ◌>>◌, require, hub_error,
  arith, ltb, inl, inr, Bool-cases, All, All-append, Yields, Yields-at, Yields-bind, Yields-require,
}
use qkt_data_hub.Prelude.Text.{Text, codes}
use qkt_data_hub.Prelude.Dict.{Dict, insert, text_key}
use qkt_data_hub.Record.{Record, Payload, observed}
use qkt_data_hub.Record.Checks.{InBounds, post_init, post_init-InBounds}
use qkt_data_hub.Record.Stamp.{create, with_id, payload_hash}
use qkt_data_hub.Dedupe.{RevisionIndex, seen, assign, is_repeat, next_revision}
use qkt_data_hub.History.{ScopeHistory}
use qkt_data_hub.Derive.Decimals.{DecimalContext}
use qkt_data_hub.Schema.{validate_payload}
use qkt_data_hub.Ingest.{Candidate, Batch, Progress, Stamp, has_key, stamp_of, admit, build_key}
use qkt_data_hub.Ingest.Step.{
  reject, refuse, Yields-refuse, repeat, draft, derive_fields, envelope, earlier, record_assigned,
  settle, step_keyed, keyed, step, steps, start, ingest, reach_of, scope_history, prepare,
}

-- What a record of a batch is: it lies in the bounds of the store, it is not known ahead of the
-- clock by more than the tolerance, and in live collection it is `observed` now.
pub record IsStamped (batch : Batch) (r : Record) : Type 0 where
  pub bounds : InBounds r
  pub of_dataset : r.dataset ≡ batch.schema.name
  pub not_ahead : r.known_at ≤ batch.wall + batch.skew_tolerance_ms
  pub live : batch.live ≡ true → (r.availability ≡ observed) × (r.known_at ≡ batch.now_ms)

-- a stamp that the guards let through
record Admitted (batch : Batch) (s : Stamp) : Type 0 where
  not_ahead : s.known_at ≤ batch.wall + batch.skew_tolerance_ms
  live : batch.live ≡ true → (s.availability ≡ observed) × (s.known_at ≡ batch.now_ms)

admit-Admitted :
    (batch : Batch) (candidate : Candidate) → Yields (Admitted batch) (admit batch candidate)
unfolding admit stamp_of
admit-Admitted batch candidate =
    let s = stamp_of batch candidate in
    Yields-require (Admitted batch) (not (has_key (codes "parse_error") candidate.extra)) _
      (require (not (ltb (batch.wall + batch.skew_tolerance_ms) s.known_at)) hub_error >> ok s)
      λ p.
        Yields-require (Admitted batch)
          (not (ltb (batch.wall + batch.skew_tolerance_ms) s.known_at)) _ (ok s)
          λ q. record { not_ahead = ground arith; live = live }
  where
    live :
        batch.live ≡ true
        → ((stamp_of batch candidate).availability ≡ observed)
          × ((stamp_of batch candidate).known_at ≡ batch.now_ms)
    live l = rw l (refl, refl)

module _ (c : DecimalContext) (sha256 : Text → Text) (batch : Batch) (reach : ℕ) where
  keyed-Admitted :
      (candidate : Candidate) → Yields (λ k. Admitted batch k.0) (keyed c sha256 batch candidate)
  unfolding keyed
  keyed-Admitted candidate =
      Yields-bind (λ k. Admitted batch k.0) (admit batch candidate) _
        λ stamp p.
          Yields-bind (λ k. Admitted batch k.0) (build_key batch.schema candidate)
            (λ key. ok (stamp, key))
            λ key q.
              Yields-at (Admitted batch) (admit batch candidate) (admit-Admitted batch candidate) p

  create-IsStamped :
      (stamp : Stamp) (key : Text) (payload : Payload) (candidate : Candidate)
      → Admitted batch stamp
      → Yields (IsStamped batch) (create sha256 (draft batch stamp key payload candidate))
  unfolding create with_id
  create-IsStamped stamp key payload candidate a =
      let r = draft batch stamp key payload candidate in
      Yields-bind (IsStamped batch) (post_init r) (λ u. ok (with_id sha256 r))
        λ u p.
          let b = post_init-InBounds r p in
          record {
            bounds = record {
              known_from = b.known_from;
              known_to = b.known_to;
              effective_from = b.effective_from;
              effective_to = b.effective_to;
              revised = b.revised;
            };
            of_dataset = refl;
            not_ahead = a.not_ahead;
            live = a.live;
          }

  prepare-IsStamped :
      (h : ScopeHistory) (stamp : Stamp) (key : Text) (candidate : Candidate)
      → Admitted batch stamp
      → Yields (IsStamped batch) (prepare c sha256 batch reach h stamp key candidate)
  unfolding prepare
  prepare-IsStamped h stamp key candidate a =
      Yields-bind (IsStamped batch)
        (derive_fields c batch.schema candidate.fields
          (envelope stamp.known_at candidate.effective_at)
          (earlier c reach h candidate.effective_at key))
        _
        λ derived p.
          Yields-bind (IsStamped batch) (validate_payload c batch.schema derived) _
            λ payload q. create-IsStamped stamp key payload candidate a

  abbrev Stamped : Progress → Type 0
  Stamped p = All (IsStamped batch) p.records

  record_assigned-Stamped :
      (candidate : Candidate) (r : Record) (p : Progress)
      → IsStamped batch r
      → Stamped p
      → Stamped (record_assigned c sha256 reach candidate (assign sha256 p.index r) p)
  unfolding record_assigned assign with_id next_revision
  record_assigned-Stamped candidate r p w all =
      elim (Bool-cases (is_repeat (payload_hash sha256 r) (seen p.index r.dataset r.key))) [
        | inl e ↦ rw e (unfold repeat in all)
        | inr e ↦ rw e (All-append (IsStamped batch) p.records _ all (revised, tt))
      ]
    where
      revised :
          IsStamped batch
            (with_id sha256 (record r { revision = next_revision (seen p.index r.dataset r.key) }))
      revised = record {
        bounds = record {
          known_from = w.bounds.known_from;
          known_to = w.bounds.known_to;
          effective_from = w.bounds.effective_from;
          effective_to = w.bounds.effective_to;
          revised = ground arith;
        };
        of_dataset = w.of_dataset;
        not_ahead = w.not_ahead;
        live = w.live;
      }

  settle-Stamped :
      (stamp : Stamp) (candidate : Candidate) (p : Progress) (r : Result Record)
      → Yields (IsStamped batch) r
      → Stamped p
      → Yields Stamped (settle c sha256 batch reach stamp candidate p r)
  unfolding settle reject refuse repeat
  settle-Stamped stamp candidate p (err e) w all = Yields-refuse Stamped batch candidate e p all
  settle-Stamped stamp candidate p (ok r) w all = elim (Bool-cases stamp.stale) [
    | inl late ↦
        elim (Bool-cases
          (is_repeat (payload_hash sha256 r) (seen p.index batch.schema.name r.key))) [
            | inl known ↦ rw (late, known) all
            | inr new ↦ rw (late, new) all
          ]
    | inr in_time ↦ rw in_time (record_assigned-Stamped candidate r p w all)
  ]

  step_keyed-Stamped :
      (candidate : Candidate) (p : Progress) (k : Result (Stamp × Text))
      → Yields (λ k. Admitted batch k.0) k
      → Stamped p
      → Yields Stamped (step_keyed c sha256 batch reach candidate p k)
  unfolding step_keyed reject refuse
  step_keyed-Stamped candidate p (err e) a all = Yields-refuse Stamped batch candidate e p all
  step_keyed-Stamped candidate p (ok (stamp, key)) a all =
      let h = scope_history p candidate.scope in
      settle-Stamped stamp candidate (record p { history = insert candidate.scope h p.history })
        (prepare c sha256 batch reach h stamp key candidate)
        (prepare-IsStamped h stamp key candidate a) all

  steps-Stamped :
      (candidates : List Candidate) (p : Progress)
      → Stamped p
      → Yields Stamped (steps c sha256 batch reach p candidates)
  unfolding steps step
  steps-Stamped [] p all = all
  steps-Stamped (candidate ∷ candidates) p all =
      Yields-bind Stamped (step c sha256 batch reach p candidate)
        (λ next. steps c sha256 batch reach next candidates)
        λ next q. steps-Stamped candidates next (
          Yields-at Stamped (step c sha256 batch reach p candidate)
            (step_keyed-Stamped candidate p (keyed c sha256 batch candidate)
              (keyed-Admitted candidate) all)
            q)

-- Every record that `ingest` returns lies in the store's bounds, belongs to the dataset, is not
-- known ahead of the writer's clock by more than the tolerance, and in live collection is
-- `observed` and known at `now_ms`, whatever the candidate suggested.
pub ingest-IsStamped :
    (c : DecimalContext) (sha256 : Text → Text) (candidates : List Candidate) (batch : Batch)
    (index : RevisionIndex) (history : Dict Text ScopeHistory) (p : Progress)
    → ingest c sha256 candidates batch index history ≡ ok p
    → All (IsStamped batch) p.records
unfolding ingest
ingest-IsStamped c sha256 candidates batch index history p h =
    let goal : Progress → Type 0 = λ q. All (IsStamped batch) q.records in
    Yields-at goal (ingest c sha256 candidates batch index history)
      (Yields-bind goal (reach_of c batch.schema)
        (λ reach. steps c sha256 batch reach (start c sha256 index history) candidates)
        λ reach q. steps-Stamped c sha256 batch reach candidates (start c sha256 index history) tt)
      h
