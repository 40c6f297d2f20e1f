-- ===== src/Dedupe/Assign.antt =====
-- What `assign` of hub/dedupe.py makes of a journal, record by record.
use qkt_data_hub.Prelude.{
  suc, ◌≡◌, ◌≢◌, refl, sym, ap, ◌∙◌, true, false, none, some, List, [], ◌∷◌, ◌++◌, map, length,
  length-append, Bool-cases, Option-cases, inl, inr, arith,
}
use mathlib.Core.Path.{subst}
use mathlib.Core.List.{append-nil}
use qkt_data_hub.Prelude.Text.{Text, text_eq_iff}
use qkt_data_hub.Prelude.Dict.{text_key}
use qkt_data_hub.Record.{Record}
use qkt_data_hub.Record.Stamp.{payload_hash, with_id}
use qkt_data_hub.Dedupe.{RevisionIndex, seen, is_newer, is_repeat, next_revision, observe, assign}
use qkt_data_hub.Dedupe.Replay.{seen-observe, about, IsAbout→about, about→IsAbout}
use qkt_data_hub.Dedupe.Counted.{
  newest, newest-append, newest-none, newest-map, upto, Differ, Differ-append,
}
use qkt_data_hub.Dedupe.Revised.{
  map-append_one, journalled, prior, revised, of_key, summary, IsRevised, next_revision-length,
  of_key-append, newer,
}

module _ (sha256 : Text → Text) where
  module _ (records : List Record) (index : RevisionIndex) (w : IsRevised sha256 records index)
      (candidate : Record) where
    abbrev own : List Record
    own = of_key sha256 candidate.dataset candidate.key records

    abbrev made : Record
    made = revised sha256 index candidate

    made-revision : made.revision ≡ suc (length own)
    unfolding with_id
    made-revision =
        ap next_revision (w.held candidate.dataset candidate.key)
        ∙ next_revision-length sha256 own (w.counted candidate.dataset candidate.key)

    own-append :
        of_key sha256 candidate.dataset candidate.key (records ++ made ∷ []) ≡ own ++ made ∷ []
    unfolding with_id
    own-append =
        let its : about sha256 candidate.dataset candidate.key made ≡ true =
          IsAbout→about sha256 candidate.dataset candidate.key made (refl, refl) in
        of_key-append sha256 candidate.dataset candidate.key records made ∙ rw its refl

    own-held :
        seen (observe sha256 index made) candidate.dataset candidate.key
        ≡ summary sha256
            (newest (of_key sha256 candidate.dataset candidate.key (records ++ made ∷ [])))
    unfolding with_id
    own-held =
        let its : about sha256 candidate.dataset candidate.key made ≡ true =
          IsAbout→about sha256 candidate.dataset candidate.key made (refl, refl) in
        let next : is_newer made (seen index candidate.dataset candidate.key) ≡ true =
          ap (is_newer made) (w.held candidate.dataset candidate.key)
          ∙ newer sha256 own made (w.counted candidate.dataset candidate.key) made-revision in
        seen-observe sha256 candidate.dataset candidate.key index made
        ∙ rw (its, next) refl
        ∙ ap (summary sha256) (sym (newest-append own made))
        ∙ ap (λ l. summary sha256 (newest l)) (sym own-append)

    own-counted :
        let now = of_key sha256 candidate.dataset candidate.key (records ++ made ∷ []) in
        map (λ r. r.revision) now ≡ upto (length now)
    own-counted =
        let more : length (own ++ made ∷ []) ≡ suc (length own) =
          length-append own (made ∷ []) ∙ omega arith in
        let after : map (λ r. r.revision) (own ++ made ∷ []) ≡ upto (length (own ++ made ∷ [])) =
          map-append_one (λ r. r.revision) own made
          ∙ ap (λ l. l ++ made.revision ∷ []) (w.counted candidate.dataset candidate.key)
          ∙ ap (λ n. upto (length own) ++ n ∷ []) made-revision
          ∙ ap upto (sym more) in
        subst (λ l. map (λ r. r.revision) l ≡ upto (length l)) (sym own-append) after

    newest-differs :
        is_repeat (payload_hash sha256 candidate) (prior sha256 index candidate) ≡ false
        → (s : Text) → newest (map (payload_hash sha256) own) ≡ some s
        → s ≢ payload_hash sha256 candidate
    unfolding is_repeat
    newest-differs fresh s h = elim (Option-cases (newest own)) [
      | inl e ↦
          let empty = newest-none own e in
          let none_there : none ≡ some s =
            ap (λ l. newest (map (payload_hash sha256) l)) (sym empty) ∙ h in
          cc
      | inr (r, e) ↦
          let there : some (payload_hash sha256 r) ≡ some s =
            sym (newest-map (payload_hash sha256) own r e) ∙ h in
          let is_s : payload_hash sha256 r ≡ s = cc in
          let other : is_repeat (payload_hash sha256 candidate) (summary sha256 (some r)) ≡ false =
            ap (λ o. is_repeat (payload_hash sha256 candidate) (summary sha256 o)) (sym e)
            ∙ ap (is_repeat (payload_hash sha256 candidate))
                (sym (w.held candidate.dataset candidate.key))
            ∙ fresh in
          λ same.
            let twice : payload_hash sha256 r ≡ payload_hash sha256 candidate = is_s ∙ same in
            let yes =
              (text_eq_iff (payload_hash sha256 r) (payload_hash sha256 candidate)).1 twice in
            cc (yes, other)
    ]

    own-changing :
        is_repeat (payload_hash sha256 candidate) (prior sha256 index candidate) ≡ false
        → Differ (
            map
              (payload_hash sha256)
              (of_key sha256 candidate.dataset candidate.key (records ++ made ∷ [])))
    unfolding with_id payload_hash
    own-changing fresh =
        let after =
          Differ-append (map (payload_hash sha256) own) (payload_hash sha256 candidate)
            (w.changing candidate.dataset candidate.key) (newest-differs fresh) in
        subst (λ l. Differ (map (payload_hash sha256) l)) (sym own-append)
          (subst Differ (sym (map-append_one (payload_hash sha256) own made)) after)

    -- what holds of the candidate's key and held of every key holds of every key
    at_each_key :
        (P : RevisionIndex → List Record → Text → Text → Type 0)
        → P
            (observe sha256 index made)
            (of_key sha256 candidate.dataset candidate.key (records ++ made ∷ []))
            candidate.dataset
            candidate.key
        → ((dataset key : Text)
            → seen (observe sha256 index made) dataset key ≡ seen index dataset key
            → P (observe sha256 index made) (of_key sha256 dataset key records) dataset key)
        → (dataset key : Text)
        → P
            (observe sha256 index made)
            (of_key sha256 dataset key (records ++ made ∷ []))
            dataset
            key
    unfolding with_id
    at_each_key P here others dataset key = elim (Bool-cases (about sha256 dataset key made)) [
      | inl e ↦
          let (d, k) = about→IsAbout sha256 dataset key made e in
          subst
            (λ x. P (observe sha256 index made) (of_key sha256 x key (records ++ made ∷ [])) x key)
            d
            (subst
              (λ y.
                P (observe sha256 index made)
                  (of_key sha256 candidate.dataset y (records ++ made ∷ [])) candidate.dataset y)
              k here)
      | inr e ↦
          let same : of_key sha256 dataset key (records ++ made ∷ [])
              ≡ of_key sha256 dataset key records =
            of_key-append sha256 dataset key records made ∙ rw e refl in
          let kept : seen (observe sha256 index made) dataset key ≡ seen index dataset key =
            seen-observe sha256 dataset key index made ∙ rw e refl in
          subst (λ l. P (observe sha256 index made) l dataset key) (sym same)
            (others dataset key kept)
    ]

    made-IsRevised :
        is_repeat (payload_hash sha256 candidate) (prior sha256 index candidate) ≡ false
        → IsRevised sha256 (records ++ made ∷ []) (observe sha256 index made)
    made-IsRevised fresh = record {
      held =
          at_each_key (λ i l dataset key. seen i dataset key ≡ summary sha256 (newest l)) own-held
            (λ dataset key kept. kept ∙ w.held dataset key);
      counted =
          at_each_key (λ i l dataset key. map (λ r. r.revision) l ≡ upto (length l)) own-counted
            (λ dataset key kept. w.counted dataset key);
      changing =
          at_each_key (λ i l dataset key. Differ (map (payload_hash sha256) l)) (own-changing fresh)
            (λ dataset key kept. w.changing dataset key);
    }

    repeated :
        is_repeat (payload_hash sha256 candidate) (prior sha256 index candidate) ≡ true
        → (r : Record) × (newest own ≡ some r)
          × (payload_hash sha256 r ≡ payload_hash sha256 candidate)
    unfolding is_repeat
    repeated h = elim (Option-cases (newest own)) [
      | inl e ↦
          let none_there : prior sha256 index candidate ≡ none =
            w.held candidate.dataset candidate.key ∙ ap (summary sha256) e in
          cc (rw none_there at h)
      | inr (r, e) ↦
          let there : prior sha256 index candidate ≡ summary sha256 (some r) =
            w.held candidate.dataset candidate.key ∙ ap (summary sha256) e in
          (
            r,
            e,
            (text_eq_iff (payload_hash sha256 r) (payload_hash sha256 candidate)).0 (rw there at h),
          )
    ]

    -- Whatever the candidate, `assign` leaves a journal in which the revisions of each key are 1, 2, 3 and so
    -- on with no two neighbours of the same payload, with the index that holds the newest of each key, if it
    -- got such; and the newest record of the candidate's key then has the payload of the candidate.
    pub assign-IsRevised :
        let out = assign sha256 index candidate in
        let after = records ++ journalled out.0 in
        IsRevised sha256 after out.1
        × ((r : Record) × (newest (of_key sha256 candidate.dataset candidate.key after) ≡ some r)
            × (payload_hash sha256 r ≡ payload_hash sha256 candidate))
    unfolding assign with_id payload_hash
    assign-IsRevised =
        elim (Bool-cases
          (is_repeat (payload_hash sha256 candidate) (prior sha256 index candidate))) [
            | inl e ↦ rw (e, append-nil records) (w, repeated e)
            | inr e ↦
                rw e (made-IsRevised e, (made, ap newest own-append ∙ newest-append own made, refl))
          ]

-- an empty journal under an empty index
pub empty-IsRevised : (sha256 : Text → Text) → IsRevised sha256 [] []
unfolding seen
empty-IsRevised sha256 = record {
  held = λ dataset key. refl;
  counted = λ dataset key. refl;
  changing = λ dataset key. tt;
}
