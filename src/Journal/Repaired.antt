-- ===== src/Journal/Repaired.antt =====
-- hub/journal.py: what the repair of torn tails leaves on disk.
use mathlib.Core.List.{append-nil}
use qkt_data_hub.Prelude.{
  ◌≡◌, ◌≢◌, true, arith, ok, refl, sym, ap, ◌∙◌, List, [], ◌∷◌, ◌++◌, All, length, leb, inl, inr,
  Bool-cases,
}
use qkt_data_hub.Prelude.Text.{Text}
use qkt_data_hub.Record.Json.OneLine.{IsOneLine}
use qkt_data_hub.Snapshot.Utf8.{Bytes, encode_text}
use qkt_data_hub.Snapshot.Utf8.Replaced.{decode_replaced-encode_text}
use qkt_data_hub.Journal.{Files, split_tail}
use qkt_data_hub.Journal.Lines.{IsWhole, no_text, split_tail-IsCut}
use qkt_data_hub.Journal.Writer.{TornTail, repair_tail, repair_files}

-- What a repair makes of a file: whole lines, which the file began with; of the rest, which has no
-- newline, the quarantine has an entry if there is any.
pub record IsRepaired (path : Text × Text) (bytes kept : Bytes) (entries : List TornTail)
    : Type 0 where
  pub whole : IsWhole kept
  pub rest : Bytes
  pub joined : kept ++ rest ≡ bytes
  pub torn : IsOneLine rest
  pub nothing : rest ≡ [] → entries ≡ []
  pub noted :
      rest ≢ []
      → (entry : TornTail) × (entries ≡ entry ∷ [])
        × (entry.dataset ≡ path.0)
        × (entry.file ≡ path)
        × (entry.offset ≡ length kept)
        × ((s : Text) → encode_text s ≡ ok rest → entry.discarded ≡ s)

-- A repaired journal file holds whole lines alone, the ones that it began with, up to its last newline.
-- What follows that, if anything, leaves exactly one entry in the quarantine, under the dataset and the
-- file and the offset at which it was cut; where it is whole characters of UTF-8, the entry has its text.
pub repair_tail-IsRepaired :
    (path : Text × Text) (bytes : Bytes)
    → IsRepaired path bytes (repair_tail path bytes).0 (repair_tail path bytes).1
unfolding repair_tail
repair_tail-IsRepaired path bytes =
    let w = split_tail-IsCut bytes in
    elim (Bool-cases (leb 1 (length (split_tail bytes).1))) [
      | inl e ↦ rw e (record {
        whole = w.whole;
        rest = (split_tail bytes).1;
        joined = w.joined;
        torn = w.rest;
        nothing = λ none_left. let empty : leb 1 0 ≡ true = rw none_left at e in ground arith;
        noted = λ some_left. (_, refl, refl, refl, refl, λ s h. decode_replaced-encode_text s h);
      })
      | inr e ↦
          let none_left = no_text (split_tail bytes).1 e in
          let kept : (split_tail bytes).0 ≡ bytes =
            sym (append-nil (split_tail bytes).0)
            ∙ ap (λ t. (split_tail bytes).0 ++ t) (sym none_left)
            ∙ w.joined in
          rw e (record {
            whole = rw kept at w.whole;
            rest = [];
            joined = append-nil bytes;
            torn = tt;
            nothing = λ n. refl;
            noted = λ some_left. absurd (some_left refl);
          })
    ]

pub repair_files-IsWhole : (files : Files) → All (λ e. IsWhole e.1) (repair_files files).0
unfolding repair_files
repair_files-IsWhole [] = tt
repair_files-IsWhole ((path, bytes) ∷ files) =
    ((repair_tail-IsRepaired path bytes).whole, repair_files-IsWhole files)
