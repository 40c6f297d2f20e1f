-- ===== src/Dedupe/Revised.antt =====
-- A journal whose revisions count up, and the index that goes with it.
use qkt_data_hub.Prelude.{
  ℕ, suc, ◌≡◌, refl, sym, ap, ◌∙◌, true, Option, none, some, List, [], ◌∷◌, ◌++◌, map, keep,
  keep-append, length, if◌then◌else◌, Bool-cases, Option-cases, inl, inr, arith,
}
use mathlib.Core.List.{append-nil}
use qkt_data_hub.Prelude.Text.{Text}
use qkt_data_hub.Prelude.Dict.{text_key}
use qkt_data_hub.Record.{Record}
use qkt_data_hub.Record.Stamp.{payload_hash, with_id}
use qkt_data_hub.Dedupe.{RevisionIndex, seen, is_newer, next_revision}
use qkt_data_hub.Dedupe.Replay.{about}
use qkt_data_hub.Dedupe.Counted.{newest, newest-none, newest-map, upto, newest-upto, Differ}

pub map-append_one :
    {A B : Type 0} (f : A → B) (l : List A) (x : A) → map f (l ++ x ∷ []) ≡ map f l ++ f x ∷ []
map-append_one f [] x = refl
map-append_one f (y ∷ l) x = ap (λ m. f y ∷ m) (map-append_one f l x)

abbrev pub journalled : Option Record → List Record
journalled none = []
journalled (some r) = r ∷ []

module _ (sha256 : Text → Text) where
  abbrev pub prior : RevisionIndex → Record → Option (ℕ × Text)
  prior index r = seen index r.dataset r.key

  -- the record that `assign` journals
  abbrev pub revised : RevisionIndex → Record → Record
  revised index r = with_id sha256 (record r { revision = next_revision (prior index r) })

  -- the records of one key, oldest first
  abbrev pub of_key : Text → Text → List Record → List Record
  of_key dataset key records = keep (about sha256 dataset key) records

  abbrev pub summary : Option Record → Option (ℕ × Text)
  summary none = none
  summary (some r) = some (r.revision, payload_hash sha256 r)

  -- A journal in which the revisions of each key are 1, 2, 3 and so on, no two neighbours of a key have the
  -- same payload, and the index holds the newest one of each key.
  pub record IsRevised (records : List Record) (index : RevisionIndex) : Type 0 where
    pub held :
        (dataset key : Text)
        → seen index dataset key ≡ summary (newest (of_key dataset key records))
    pub counted :
        (dataset key : Text)
        → map (λ r. r.revision) (of_key dataset key records)
          ≡ upto (length (of_key dataset key records))
    pub changing :
        (dataset key : Text) → Differ (map (payload_hash sha256) (of_key dataset key records))

  -- the number after the newest one of a key
  pub next_revision-length :
      (own : List Record)
      → map (λ r. r.revision) own ≡ upto (length own)
      → next_revision (summary (newest own)) ≡ suc (length own)
  unfolding next_revision
  next_revision-length own h = elim (Option-cases (newest own)) [
    | inl e ↦ let empty = newest-none own e in rw (e, empty) refl
    | inr (r, e) ↦
        let at =
          newest-upto (length own) r.revision
            (ap newest (sym h) ∙ newest-map (λ r. r.revision) own r e) in
        rw e (omega (arith, at))
  ]

  pub of_key-append :
      (dataset key : Text) (records : List Record) (r : Record)
      → of_key dataset key (records ++ r ∷ []) ≡ (
          if about sha256 dataset key r
          then of_key dataset key records ++ r ∷ []
          else of_key dataset key records)
  of_key-append dataset key records r =
      keep-append (about sha256 dataset key) records (r ∷ [])
      ∙ elim (Bool-cases (about sha256 dataset key r)) [
        | inl e ↦ rw e refl
        | inr e ↦ rw e (append-nil (of_key dataset key records))
      ]

  pub newer :
      (own : List Record) (r : Record)
      → map (λ r. r.revision) own ≡ upto (length own)
      → r.revision ≡ suc (length own)
      → is_newer r (summary (newest own)) ≡ true
  unfolding is_newer
  newer own r h e = elim (Option-cases (newest own)) [
    | inl n ↦ rw n refl
    | inr (s, n) ↦
        let at =
          newest-upto (length own) s.revision
            (ap newest (sym h) ∙ newest-map (λ r. r.revision) own s n) in
        rw n (ground (arith, at, e))
  ]
