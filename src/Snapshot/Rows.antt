-- ===== src/Snapshot/Rows.antt =====
-- `decode` of hubread/snapshot.py: its checks, and the records that it makes of the columns. `digest`
-- is hashlib's SHA-256 of bytes, `sha256` its hex form of a text, from which an id is made.
use qkt_data_hub.Prelude.{
  ℕ, zero, suc, ◌+◌, ◌-◌, ◌*◌, Bool, true, false, Option, none, some, List, [], ◌∷◌, Result, ok,
  err, ◌>>=◌, ◌>>◌, require, store_error, record_error, length, take, drop, get_elem?, ◌==◌,
  if◌then◌else◌,
}
use qkt_data_hub.Prelude.Int.{ℤ, pos, negsuc}
use qkt_data_hub.Prelude.Text.{Text, text_eq}
use qkt_data_hub.Prelude.Dict.{insert, text_key}
use qkt_data_hub.Record.{
  Record, Value, null, text, bool, int, Payload, Availability, observed, published, derived,
  envelope_version,
}
use qkt_data_hub.Record.Stamp.{create}
use qkt_data_hub.Derive.Decimals.{DecimalContext}
use qkt_data_hub.Schema.{FieldType, number_type, bool_type, or_raise}
use qkt_data_hub.Snapshot.Utf8.{Bytes}
use qkt_data_hub.Snapshot.Cursor.{Cursor}
use qkt_data_hub.Snapshot.Encode.{magic, null_sentinel, null_dict_index}
use qkt_data_hub.Snapshot.Decode.{
  same_int, SnapshotField, SnapshotHeader, Columns, read_header, read_columns,
}

-- column[i], whose index is below the length of the column
abbrev pub at : List ℤ → ℕ → ℤ
at [] i = pos 0
at (v ∷ vs) zero = v
at (v ∷ vs) (suc i) = at vs i

-- `_lookup`
unfoldable pub index_into : List Text → ℤ → Result Text
unfolding or_raise
index_into l (pos i) = or_raise store_error (get_elem? l i)
index_into l (negsuc i) = err store_error

unfoldable pub optional_ref : List Text → ℤ → Result (Option Text)
unfolding index_into
optional_ref l i =
    if same_int i null_dict_index then ok none else (index_into l i >>= λ s. ok (some s))

-- list(Availability)[ordinal]
unfoldable pub availability_of : ℤ → Result Availability
unfolding or_raise
availability_of (pos n) = or_raise store_error (get_elem? (observed ∷ published ∷ derived ∷ []) n)
availability_of (negsuc n) = err store_error

-- A number that `Record` takes: it refuses one below 0.
unfoldable pub natural : ℤ → Result ℕ
natural (pos n) = ok n
natural (negsuc n) = err record_error

unfoldable pub optional_natural : ℤ → Result (Option ℕ)
unfolding natural
optional_natural v = if same_int v null_sentinel then ok none else (natural v >>= λ n. ok (some n))

-- bool(raw)
abbrev truth : ℤ → Bool
truth (pos zero) = false
truth _ = true

module _ (c : DecimalContext) (scale : ℕ) where
  unfoldable pub decode_typed : FieldType → ℤ → Result Value
  decode_typed number_type raw = do s ← c.scaled_text raw scale; ok (text s)
  decode_typed bool_type raw = ok (bool (truth raw))
  decode_typed _ raw = ok (int raw)

  -- `_decode_field_value`
  unfoldable pub decode_field_value : FieldType → ℤ → Result Value
  unfolding decode_typed
  decode_field_value type raw =
      let present = decode_typed type raw in if same_int raw null_sentinel then ok null else present

  -- the payload of the record `i`, from the fields that are still to come
  unfoldable pub decode_payload : List SnapshotField → List (List ℤ) → ℕ → Payload → Result Payload
  unfolding decode_field_value
  decode_payload (f ∷ fields) (values ∷ columns) i made = do
    v ← decode_field_value f.type (at values i)
    decode_payload fields columns i (insert f.name v made)
  decode_payload _ _ i made = ok made

module _ (c : DecimalContext) (sha256 : Text → Text) (header : SnapshotHeader)
    (columns : Columns) where
  -- one turn of the loop: the lookups in the order of the source, then the checks of the record
  unfoldable pub decode_row : ℕ → Result Record
  unfolding decode_payload index_into availability_of optional_ref natural optional_natural create
  decode_row i = do
    availability ← availability_of (at columns.availabilities i)
    raw_ref ← optional_ref header.dictionaries.raw_refs (at columns.raw_ref_idxs i)
    fields ← decode_payload c header.scale header.fields columns.field_columns i []
    scope ← index_into header.dictionaries.scopes (at columns.scope_idxs i)
    key ← index_into header.dictionaries.keys (at columns.key_idxs i)
    source ← index_into header.dictionaries.sources (at columns.source_idxs i)
    source_version ←
        index_into header.dictionaries.source_versions (at columns.source_version_idxs i)
    parser ← index_into header.dictionaries.parsers (at columns.parser_idxs i)
    period_start ← optional_natural (at columns.period_starts i)
    period_end ← optional_natural (at columns.period_ends i)
    revision ← natural (at columns.revisions i)
    known_at ← natural (at columns.known_ats i)
    effective_at ← natural (at columns.effective_ats i)
    seq ← natural (at columns.seqs i)
    create sha256 (record {
      dataset = header.dataset;
      scope = scope;
      key = key;
      revision = revision;
      known_at = known_at;
      effective_at = effective_at;
      availability = availability;
      source = source;
      fields = fields;
      period_start = period_start;
      period_end = period_end;
      source_version = source_version;
      parser = parser;
      raw_ref = raw_ref;
      seq = seq;
      id = [];
      v = envelope_version;
    })

  -- the loop over the records from `i` on
  unfoldable pub decode_rows : ℕ → ℕ → Result (List Record)
  unfolding decode_row
  decode_rows zero i = ok []
  decode_rows (suc n) i = do r ← decode_row i; records ← decode_rows n (suc i); ok (r ∷ records)

-- `_FIXED_ROW_BYTES`
abbrev pub fixed_row_bytes : ℕ
fixed_row_bytes = 8 * 4 + 4 * 3 + 1 + 8 + 4 * 4

abbrev pub expected_len : SnapshotHeader → Cursor → ℕ
expected_len header body =
    body.offset + header.record_count * (fixed_row_bytes + header.field_count * 8) + 32

-- `decode`
unfoldable pub decode :
    DecimalContext → (Text → Text) → (Bytes → Bytes) → Bytes → Result (SnapshotHeader × List Record)
unfolding read_header read_columns decode_rows
decode c sha256 digest buffer = do
  require (text_eq (take 4 buffer) magic) store_error
  (header, body) ← read_header (record { unread = buffer; offset = 0 })
  require (length buffer == expected_len header body) store_error
  let checked_len = length buffer - 32
  require (text_eq (digest (take checked_len buffer)) (drop checked_len buffer)) store_error
  (columns, end) ← read_columns header.record_count header.fields body
  records ← decode_rows c sha256 header columns header.record_count 0
  ok (header, records)
