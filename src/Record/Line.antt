-- ===== src/Record/Line.antt =====
-- `to_json` of hubread/record.py: the text of a record in the journal.
use qkt_data_hub.Prelude.{◌≡◌, [], ◌∷◌, ◌++◌, if◌then◌else◌}
use qkt_data_hub.Prelude.Int.{pos}
use qkt_data_hub.Prelude.Text.{Text, codes, text_eq}
use qkt_data_hub.Prelude.Dict.{Dict}
use qkt_data_hub.Record.{Record, text, int}
use qkt_data_hub.Record.Json.{Json, leaf, canonical_json}
use qkt_data_hub.Record.Json.OneLine.{IsOneLine, canonical_json-IsOneLine, canonical_json-cons}
use qkt_data_hub.Record.Stamp.{identity_payload, compute_id}

module _ (sha256 : Text → Text) where
  -- `self.id or self.compute_id()`
  unfoldable pub id_or_computed : Record → Text
  unfolding text_eq
  id_or_computed r = if text_eq r.id [] then compute_id sha256 r else r.id

  -- the identity, with `seq` and `id`
  unfoldable pub full_payload : Record → Dict Text Json
  unfolding identity_payload id_or_computed
  full_payload r =
      identity_payload r
      ++ ((codes "seq", leaf (int (pos r.seq))) ∷ (codes "id", leaf (text (id_or_computed r))) ∷ [])

  unfoldable pub to_json : Record → Text
  unfolding canonical_json full_payload
  to_json r = canonical_json (full_payload r)

  -- No newline stands in the text of a record, whatever its fields hold: it is one line of a file.
  pub to_json-IsOneLine : (r : Record) → IsOneLine (to_json r)
  unfolding to_json
  to_json-IsOneLine r = canonical_json-IsOneLine (full_payload r)

  pub to_json-cons : (r : Record) → (rest : Text) × (to_json r ≡ b'{' ∷ rest)
  unfolding to_json
  to_json-cons r = canonical_json-cons (full_payload r)
