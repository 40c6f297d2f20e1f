-- ===== src/Tests/Store.antt =====
-- Revisions, the history of a scope and the reader on sample records.
use qkt_data_hub.Prelude.{
  ◌≡◌, refl, Option, none, some, List, [], ◌∷◌, ◌++◌, inl, inr, arith, All, Any, map, keep, last,
  ◌&&◌, ◌≤◌, ◌⊎◌, Among,
}
use qkt_data_hub.Prelude.Text.{Text, codes}
use qkt_data_hub.Prelude.Dict.{text_key}
use qkt_data_hub.Record.{Record}
use qkt_data_hub.Record.Stamp.{payload_hash}
use qkt_data_hub.Dedupe.{RevisionIndex, seen, assign, rebuild_from}
use qkt_data_hub.Dedupe.Replay.{IsAbout, revision_of, rebuild_from-highest}
use qkt_data_hub.Dedupe.Counted.{newest}
use qkt_data_hub.Dedupe.Revised.{IsRevised, journalled, of_key}
use qkt_data_hub.Dedupe.Assign.{assign-IsRevised, empty-IsRevised}
use qkt_data_hub.Reader.{as_of}
use qkt_data_hub.Reader.Visible.{MaySee, as_of-append_later}
use qkt_data_hub.Reader.Latest.{Holds}
use qkt_data_hub.Reader.AsOf.{as_of-MaySee, as_of-latest}
use qkt_data_hub.History.{ScopeHistory, empty, upsert, before, slot_ord, is_other, fields_of}
use qkt_data_hub.History.Slots.{Slots, empty-Slots, upsert-Slots}
use qkt_data_hub.History.Before.{before_lem}
use qkt_data_hub.Tests.Samples.{plain, first, second, later, cautious, payload}

-- the journal and the index after a first candidate
abbrev one_seen : Option Record × RevisionIndex
one_seen = assign plain [] first

one_seen-IsRevised : IsRevised plain (journalled one_seen.0) one_seen.1
one_seen-IsRevised = (assign-IsRevised plain [] [] (empty-IsRevised plain) first).0

assign-IsRevised_example :
    let out = assign plain one_seen.1 second in
    let after = journalled one_seen.0 ++ journalled out.0 in
    IsRevised plain after out.1
    × ((r : Record) × (newest (of_key plain second.dataset second.key after) ≡ some r)
        × (payload_hash plain r ≡ payload_hash plain second))
assign-IsRevised_example =
    assign-IsRevised plain (journalled one_seen.0) one_seen.1 one_seen-IsRevised second

abbrev journal : List Record
journal = second ∷ first ∷ []

rebuild_from-highest_example :
    let top = seen (rebuild_from plain [] journal) (codes "cal.us") (codes "cpi") in
    All (λ r. IsAbout plain (codes "cal.us") (codes "cpi") r → r.revision ≤ revision_of top) journal
    × ((top ≡ none)
        ⊎ Any
            (λ r.
              IsAbout plain (codes "cal.us") (codes "cpi") r
              × (top ≡ some (r.revision, payload_hash plain r)))
            journal)
rebuild_from-highest_example = rebuild_from-highest plain (codes "cal.us") (codes "cpi") journal

first_visible : MaySee cautious (codes "USD") 1_000_000_000_500 first
first_visible = record { scoped = refl; known = omega arith; trusted = λ p q. cc }

as_of-MaySee_example :
    All
      (λ (e : Text × Record).
        (e.1.key ≡ e.0) × (MaySee cautious (codes "USD") 1_000_000_000_500 e.1 × Among e.1 journal))
      (as_of cautious journal (codes "USD") 1_000_000_000_500)
as_of-MaySee_example = as_of-MaySee cautious journal (codes "USD") 1_000_000_000_500

as_of-latest_example :
    Holds first.key first (as_of cautious journal (codes "USD") 1_000_000_000_500)
as_of-latest_example =
    as_of-latest cautious journal (codes "USD") 1_000_000_000_500 first (inr (inl refl))
      first_visible (omega arith)

as_of-append_later_example :
    as_of cautious (journal ++ later ∷ []) (codes "USD") 1_000_000_300_000
    ≡ as_of cautious journal (codes "USD") 1_000_000_300_000
as_of-append_later_example =
    as_of-append_later cautious journal (later ∷ []) (codes "USD") 1_000_000_300_000
      (omega arith, tt)

abbrev one_fact : ScopeHistory
one_fact = upsert empty 20 (codes "b") (payload 2)

one_fact-Slots : Slots one_fact
one_fact-Slots = upsert-Slots empty empty-Slots 20 (codes "b") (payload 2)

upsert-Slots_example : Slots (upsert one_fact 10 (codes "a") (payload 1))
upsert-Slots_example = upsert-Slots one_fact one_fact-Slots 10 (codes "a") (payload 1)

before_lem_example :
    before one_fact 30 (codes "c") 4
    ≡ last 4 (
        map
          (λ s. fields_of one_fact s.1)
          (keep (λ s. slot_ord.lt s (30, codes "c") && is_other (codes "c") s) one_fact.order))
before_lem_example = before_lem one_fact 30 (codes "c") 4 one_fact-Slots
