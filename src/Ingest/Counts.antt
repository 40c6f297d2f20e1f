-- ===== src/Ingest/Counts.antt =====
-- hub/pipeline.py: what the numbers of an `IngestResult` add up to.
use qkt_data_hub.Prelude.{
  ℕ, ◌+◌, ◌≤◌, ◌≡◌, refl, suc, Bool, true, false, Option, none, some, List, [], ◌∷◌, Result, ok,
  err, Exception, hub_error, length, length-append, arith, if◌then◌else◌, Yields, Yields-at,
  Yields-bind, Bool-cases, inl, inr,
}
use qkt_data_hub.Prelude.Text.{Text}
use qkt_data_hub.Prelude.Dict.{Dict, text_key}
use qkt_data_hub.Record.{Record}
use qkt_data_hub.Record.Stamp.{payload_hash}
use qkt_data_hub.Dedupe.{RevisionIndex, seen, assign, is_repeat}
use qkt_data_hub.History.{ScopeHistory}
use qkt_data_hub.Derive.Decimals.{DecimalContext}
use qkt_data_hub.Ingest.{Candidate, Batch, Progress, Stamp}
use qkt_data_hub.Ingest.Step.{
  reject, Yields-refuse, repeat, record_assigned, settle, step_keyed, keyed, step, steps, start,
  ingest, reach_of, prepare,
}

-- `n` candidates are accounted for, each once
pub record Counted (keeps_log : Bool) (n : ℕ) (p : Progress) : Type 0 where
  pub total : length p.records + (p.quarantined + p.duplicates) ≡ n
  pub logged : length p.log ≡ (if keeps_log then p.quarantined else 0)
  pub revised : p.revisions ≤ length p.records

reject-Counted :
    (batch : Batch) (candidate : Candidate) (e : Exception) (n : ℕ) (p : Progress)
    → Counted batch.keeps_log n p
    → Counted batch.keeps_log (suc n) (reject batch candidate e p)
unfolding reject
reject-Counted batch candidate e n p w = record {
  total = let t = w.total in omega arith;
  logged = elim (Bool-cases batch.keeps_log) [
    | inl on ↦
        let l : length p.log ≡ p.quarantined = rw on at w.logged in
        rw (on, length-append) (omega arith)
    | inr off ↦ let l : length p.log ≡ 0 = rw off at w.logged in rw off l
  ];
  revised = w.revised;
}

repeat-Counted :
    (keeps_log : Bool) (n : ℕ) (p : Progress)
    → Counted keeps_log n p
    → Counted keeps_log (suc n) (repeat p)
unfolding repeat
repeat-Counted keeps_log n p w = record {
  total = let t = w.total in omega arith;
  logged = w.logged;
  revised = w.revised;
}

module _ (c : DecimalContext) (sha256 : Text → Text) (batch : Batch) (reach : ℕ) where
  abbrev Counts : ℕ → Progress → Type 0
  Counts = Counted batch.keeps_log

  record_assigned-Counted :
      (candidate : Candidate) (assigned : Option Record × RevisionIndex) (n : ℕ) (p : Progress)
      → Counts n p
      → Counts (suc n) (record_assigned c sha256 reach candidate assigned p)
  unfolding record_assigned
  record_assigned-Counted candidate (none, index) n p w = repeat-Counted batch.keeps_log n p w
  record_assigned-Counted candidate (some r, index) n p w = record {
    total = let t = w.total in rw length-append (omega arith);
    logged = w.logged;
    revised = let v = w.revised in rw length-append (ground arith);
  }

  settle-Counted :
      (stamp : Stamp) (candidate : Candidate) (n : ℕ) (p : Progress) (r : Result Record)
      → Counts n p
      → Yields (Counts (suc n)) (settle c sha256 batch reach stamp candidate p r)
  unfolding settle
  settle-Counted stamp candidate n p (err e) w =
      Yields-refuse (Counts (suc n)) batch candidate e p (reject-Counted batch candidate e n p w)
  settle-Counted stamp candidate n p (ok r) w =
      stale (is_repeat (payload_hash sha256 r) (seen p.index batch.schema.name r.key)) stamp.stale
    where
      stale :
          (repeated late : Bool)
          → Counts (suc n) (
              if late
              then (if repeated then repeat p else reject batch candidate hub_error p)
              else record_assigned c sha256 reach candidate (assign sha256 p.index r) p)
      stale true true = repeat-Counted batch.keeps_log n p w
      stale false true = reject-Counted batch candidate hub_error n p w
      stale repeated false = record_assigned-Counted candidate (assign sha256 p.index r) n p w

  step_keyed-Counted :
      (candidate : Candidate) (n : ℕ) (p : Progress) (k : Result (Stamp × Text))
      → Counts n p
      → Yields (Counts (suc n)) (step_keyed c sha256 batch reach candidate p k)
  unfolding step_keyed
  step_keyed-Counted candidate n p (err e) w =
      Yields-refuse (Counts (suc n)) batch candidate e p (reject-Counted batch candidate e n p w)
  step_keyed-Counted candidate n p (ok (stamp, key)) w =
      settle-Counted stamp candidate n _ (prepare c sha256 batch reach _ stamp key candidate)
        (record { total = w.total; logged = w.logged; revised = w.revised })

  steps-Counted :
      (candidates : List Candidate) (n : ℕ) (p : Progress)
      → Counts n p
      → Yields (Counts (n + length candidates)) (steps c sha256 batch reach p candidates)
  unfolding steps step
  steps-Counted [] n p w = (let same : n + 0 ≡ n = omega arith in rw same w)
  steps-Counted (candidate ∷ candidates) n p w =
      let same : n + suc (length candidates) ≡ suc n + length candidates = omega arith in
      Yields-bind (Counts (n + suc (length candidates))) (step c sha256 batch reach p candidate)
        (λ next. steps c sha256 batch reach next candidates)
        λ next q.
          let counted =
            Yields-at (Counts (suc n)) (step c sha256 batch reach p candidate)
              (step_keyed-Counted candidate n p (keyed c sha256 batch candidate) w) q in
          rw same (steps-Counted candidates (suc n) next counted)

-- Every candidate of a batch that `ingest` gets through is counted once: as a record, as quarantined or
-- as a duplicate. Where a quarantine log is kept, each quarantined one has its entry there, and otherwise
-- nothing is logged. No more revisions are counted than records.
pub ingest-Counted :
    (c : DecimalContext) (sha256 : Text → Text) (candidates : List Candidate) (batch : Batch)
    (index : RevisionIndex) (history : Dict Text ScopeHistory) (p : Progress)
    → ingest c sha256 candidates batch index history ≡ ok p
    → Counted batch.keeps_log (length candidates) p
unfolding ingest
ingest-Counted c sha256 candidates batch index history p h =
    let goal = Counted batch.keeps_log (length candidates) in
    let first : Counted batch.keeps_log 0 (start c sha256 index history) = record {
      total = refl;
      logged = ground arith;
      revised = omega arith;
    } in
    let none_yet : 0 + length candidates ≡ length candidates = omega arith in
    Yields-at goal (ingest c sha256 candidates batch index history)
      (Yields-bind goal (reach_of c batch.schema)
        (λ reach. steps c sha256 batch reach (start c sha256 index history) candidates)
        λ reach q.
          rw (← none_yet)
            (steps-Counted c sha256 batch reach candidates 0 (start c sha256 index history) first))
      h
