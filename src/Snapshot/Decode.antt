-- ===== src/Snapshot/Decode.antt =====
-- The reading half of `decode` in hubread/snapshot.py: the header and the columns.
use qkt_data_hub.Prelude.{
  ℕ, zero, suc, Bool, not, ◌||◌, Option, none, some, List, [], ◌∷◌, require, store_error,
}
use qkt_data_hub.Prelude.Int.{ℤ, pos, pos_part, ltb_ℤ}
use qkt_data_hub.Prelude.Text.{Text}
use qkt_data_hub.Prelude.Dict.{text_key}
use qkt_data_hub.Schema.{FieldType, number_type, bool_type, timestamp_type, enum_type, or_raise}
use qkt_data_hub.Snapshot.Utf8.{Bytes}
use qkt_data_hub.Snapshot.Words.{byte, int32, int64}
use qkt_data_hub.Snapshot.Cursor.{
  Reading, given, checked, ◌>>=◌, ◌>>◌, take_bytes, value, string, column, is_negative,
}
use qkt_data_hub.Snapshot.Encode.{version, Dictionaries}

-- `SnapshotField`
pub record SnapshotField : Type 0 where
  pub name : Text
  pub type : FieldType
  pub unit : Text

-- `SnapshotHeader`, with its dictionaries as one field
pub record SnapshotHeader : Type 0 where
  pub version : ℤ
  pub schema_hash : Bytes
  pub dataset : Text
  pub record_count : ℕ
  pub field_count : ℕ
  pub scale : ℕ
  pub fields : List SnapshotField
  pub dictionaries : Dictionaries

-- `_TYPE_NAME_BY_CODE`
unfoldable pub type_of_code : ℤ → Option FieldType
type_of_code (pos zero) = some number_type
type_of_code (pos (suc zero)) = some bool_type
type_of_code (pos (suc (suc zero))) = some timestamp_type
type_of_code (pos (suc (suc (suc zero)))) = some enum_type
type_of_code _ = none

unfoldable pub read_fields : ℕ → Reading (List SnapshotField)
read_fields zero = given []
read_fields (suc n) = do
  name ← string
  code ← value byte
  type ← checked (or_raise store_error (type_of_code code))
  unit ← string
  fields ← read_fields n
  given (record { name = name; type = type; unit = unit } ∷ fields)

-- [cursor.string() for _ in range(count)]
unfoldable pub strings : ℕ → Reading (List Text)
strings zero = given []
strings (suc n) = do s ← string; l ← strings n; given (s ∷ l)

-- the range of a negative count is empty
unfoldable pub read_dictionary : Reading (List Text)
read_dictionary = do count ← value int32; strings (pos_part count)

abbrev pub same_int : ℤ → ℤ → Bool
same_int a b = not (ltb_ℤ a b || ltb_ℤ b a)

unfoldable pub read_header : Reading SnapshotHeader
read_header = do
  start ← take_bytes 4
  found ← value int32
  checked (require (same_int found version) store_error)
  schema_hash ← take_bytes 32
  dataset ← string
  count ← value int32
  field_count ← value int32
  scale ← value int32
  checked (
      require (not (is_negative count || is_negative field_count || is_negative scale)) store_error)
  fields ← read_fields (pos_part field_count)
  scopes ← read_dictionary
  keys ← read_dictionary
  sources ← read_dictionary
  source_versions ← read_dictionary
  parsers ← read_dictionary
  raw_refs ← read_dictionary
  given (record {
    version = found;
    schema_hash = schema_hash;
    dataset = dataset;
    record_count = pos_part count;
    field_count = pos_part field_count;
    scale = pos_part scale;
    fields = fields;
    dictionaries = record {
      scopes = scopes;
      keys = keys;
      sources = sources;
      source_versions = source_versions;
      parsers = parsers;
      raw_refs = raw_refs;
    };
  })

-- The columns, each with one value for every record.
pub record Columns : Type 0 where
  pub known_ats : List ℤ
  pub effective_ats : List ℤ
  pub period_starts : List ℤ
  pub period_ends : List ℤ
  pub scope_idxs : List ℤ
  pub key_idxs : List ℤ
  pub revisions : List ℤ
  pub availabilities : List ℤ
  pub seqs : List ℤ
  pub source_idxs : List ℤ
  pub source_version_idxs : List ℤ
  pub parser_idxs : List ℤ
  pub raw_ref_idxs : List ℤ
  pub field_columns : List (List ℤ)

-- [cursor.column("q", n) for _ in fields]
unfoldable pub read_field_columns : ℕ → List SnapshotField → Reading (List (List ℤ))
read_field_columns n [] = given []
read_field_columns n (f ∷ fields) = do
  values ← column int64 n
  rest ← read_field_columns n fields
  given (values ∷ rest)

unfoldable pub read_columns : ℕ → List SnapshotField → Reading Columns
read_columns n fields = do
  known_ats ← column int64 n
  effective_ats ← column int64 n
  period_starts ← column int64 n
  period_ends ← column int64 n
  scope_idxs ← column int32 n
  key_idxs ← column int32 n
  revisions ← column int32 n
  availabilities ← column byte n
  seqs ← column int64 n
  source_idxs ← column int32 n
  source_version_idxs ← column int32 n
  parser_idxs ← column int32 n
  raw_ref_idxs ← column int32 n
  field_columns ← read_field_columns n fields
  given (record {
    known_ats = known_ats;
    effective_ats = effective_ats;
    period_starts = period_starts;
    period_ends = period_ends;
    scope_idxs = scope_idxs;
    key_idxs = key_idxs;
    revisions = revisions;
    availabilities = availabilities;
    seqs = seqs;
    source_idxs = source_idxs;
    source_version_idxs = source_version_idxs;
    parser_idxs = parser_idxs;
    raw_ref_idxs = raw_ref_idxs;
    field_columns = field_columns;
  })
