-- ===== src/Dedupe/Replay.antt =====
-- Replaying a journal into the index keeps, for each key, the highest revision.
use qkt_data_hub.Prelude.{
  ℕ, ◌≤◌, ◌≡◌, refl, ◌∙◌, Bool, ◌&&◌, true, Option, none, some, List, [], ◌∷◌, ◌⊎◌, inl, inr, arith,
  Bool-cases, if◌then◌else◌, All, Any,
}
use qkt_data_hub.Prelude.Text.{Text, text_eq_iff}
use qkt_data_hub.Prelude.Dict.{text_key, pair_key, lookup-insert, pair_eq, pair_eq_iff}
use qkt_data_hub.Record.{Record}
use qkt_data_hub.Record.Stamp.{payload_hash}
use qkt_data_hub.Dedupe.{RevisionIndex, state_key, seen, is_newer, observe, rebuild_from}

abbrev pub revision_of : Option (ℕ × Text) → ℕ
revision_of none = 0
revision_of (some p) = p.0

module _ (sha256 : Text → Text) (dataset key : Text) where
  -- `r` is about this key
  abbrev pub IsAbout : Record → Type 0
  IsAbout r = (r.dataset ≡ dataset) × (r.key ≡ key)

  abbrev pub about : Record → Bool
  about r = pair_eq (state_key r) (dataset, key)

  pub about→IsAbout : (r : Record) → about r ≡ true → IsAbout r
  about→IsAbout r h = ground (arith, text_eq_iff r.dataset dataset, text_eq_iff r.key key)

  pub IsAbout→about : (r : Record) → IsAbout r → about r ≡ true
  IsAbout→about r h = ground (arith, text_eq_iff r.dataset dataset, text_eq_iff r.key key)

  pub seen-observe :
      (index : RevisionIndex) (r : Record)
      → seen (observe sha256 index r) dataset key ≡ (
          if about r && is_newer r (seen index dataset key)
          then some (r.revision, payload_hash sha256 r)
          else seen index dataset key)
  unfolding observe seen
  seen-observe index r = ground (
    arith,
    pair_eq_iff (state_key r) (dataset, key),
    lookup-insert (state_key r) (dataset, key) (r.revision, payload_hash sha256 r) index,
  )

  abbrev here : RevisionIndex → Option (ℕ × Text)
  here index = seen index dataset key

  observe_grows :
      (index : RevisionIndex) (r : Record)
      → revision_of (here index) ≤ revision_of (here (observe sha256 index r))
  unfolding is_newer
  observe_grows index r = ground (arith, seen-observe index r)

  observe_covers :
      (index : RevisionIndex) (r : Record)
      → IsAbout r
      → r.revision ≤ revision_of (here (observe sha256 index r))
  unfolding is_newer
  observe_covers index r h = ground (arith, seen-observe index r, IsAbout→about r h)

  rebuild_grows :
      (records : List Record) (index : RevisionIndex)
      → revision_of (here index) ≤ revision_of (here (rebuild_from sha256 index records))
  unfolding rebuild_from
  rebuild_grows [] index = omega arith
  rebuild_grows (r ∷ records) index =
      omega (arith, observe_grows index r, rebuild_grows records (observe sha256 index r))

  rebuild_covers :
      (records : List Record) (index : RevisionIndex)
      → All
          (λ r. IsAbout r → r.revision ≤ revision_of (here (rebuild_from sha256 index records)))
          records
  unfolding rebuild_from
  rebuild_covers [] index = tt
  rebuild_covers (r ∷ records) index = (
    (λ h. omega (arith, observe_covers index r h, rebuild_grows records (observe sha256 index r))),
    rebuild_covers records (observe sha256 index r),
  )

  rebuild_source :
      (records : List Record) (index : RevisionIndex)
      → (here (rebuild_from sha256 index records) ≡ here index)
        ⊎ Any
            (λ r.
              IsAbout r
              × (here (rebuild_from sha256 index records)
                  ≡ some (r.revision, payload_hash sha256 r)))
            records
  unfolding rebuild_from
  rebuild_source [] index = inl refl
  rebuild_source (r ∷ records) index = elim (rebuild_source records (observe sha256 index r)) [
    | inr found ↦ inr (inr found)
    | inl same ↦ elim (Bool-cases (about r && is_newer r (here index))) [
      | inl new ↦
          inr (inl (about→IsAbout r (ground arith), same ∙ ground (arith, seen-observe index r)))
      | inr old ↦ inl (same ∙ ground (arith, seen-observe index r))
    ]
  ]

  -- After a replay into an empty index, no record of a key has a revision above the one that the
  -- index holds, and what the index holds is the revision and the payload hash of such a record.
  pub rebuild_from-highest :
      (records : List Record)
      → let top = seen (rebuild_from sha256 [] records) dataset key in
        All (λ r. IsAbout r → r.revision ≤ revision_of top) records
        × ((top ≡ none)
            ⊎ Any (λ r. IsAbout r × (top ≡ some (r.revision, payload_hash sha256 r))) records)
  unfolding seen
  rebuild_from-highest records = (rebuild_covers records [], rebuild_source records [])
