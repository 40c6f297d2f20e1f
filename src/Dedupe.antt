-- ===== src/Dedupe.antt =====
-- hub/dedupe.py: revisions and exact duplicates. The proofs are in the modules below.
pub mod Replay
pub mod Counted
pub mod Revised
pub mod Assign
use qkt_data_hub.Prelude.{
  ℕ, ◌+◌, Bool, true, false, Option, none, some, List, [], ◌∷◌, ltb, if◌then◌else◌,
}
use qkt_data_hub.Prelude.Text.{Text, text_eq}
use qkt_data_hub.Prelude.Dict.{Dict, lookup, insert, text_key, pair_key}
use qkt_data_hub.Record.{Record}
use qkt_data_hub.Record.Stamp.{payload_hash, with_id}

-- `RevisionIndex._state`: (dataset, key) to (revision, payload hash)
abbrev pub RevisionIndex : Type 0
RevisionIndex = Dict (Text × Text) (ℕ × Text)

abbrev pub state_key : Record → Text × Text
state_key r = (r.dataset, r.key)

unfoldable pub seen : RevisionIndex → Text → Text → Option (ℕ × Text)
unfolding lookup
seen index dataset key = lookup (dataset, key) index

-- current is None or record.revision > current[0]
unfoldable pub is_newer : Record → Option (ℕ × Text) → Bool
is_newer r none = true
is_newer r (some current) = ltb current.0 r.revision

-- prior is not None and prior[1] == candidate.payload_hash()
unfoldable pub is_repeat : Text → Option (ℕ × Text) → Bool
is_repeat hash none = false
is_repeat hash (some prior) = text_eq prior.1 hash

unfoldable pub next_revision : Option (ℕ × Text) → ℕ
next_revision none = 1
next_revision (some prior) = prior.0 + 1

module _ (sha256 : Text → Text) where
  unfoldable pub observe : RevisionIndex → Record → RevisionIndex
  unfolding is_newer
  observe index r =
      if is_newer r (seen index r.dataset r.key)
      then insert (state_key r) (r.revision, payload_hash sha256 r) index
      else index

  unfoldable pub rebuild_from : RevisionIndex → List Record → RevisionIndex
  rebuild_from index [] = index
  rebuild_from index (r ∷ records) = rebuild_from (observe index r) records

  -- The record that is journaled, if any, and the index after it.
  unfoldable pub assign : RevisionIndex → Record → Option Record × RevisionIndex
  unfolding is_repeat next_revision
  assign index candidate =
      let prior = seen index candidate.dataset candidate.key in
      let assigned = with_id sha256 (record candidate { revision = next_revision prior }) in
      if is_repeat (payload_hash sha256 candidate) prior
      then (none, index)
      else (some assigned, observe index assigned)
