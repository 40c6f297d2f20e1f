-- ===== src/Snapshot/Encode.antt =====
-- hub/snapshot.py: the bytes of a snapshot. `digest` is hashlib's SHA-256, and `schema_hash` the one
-- of the schema's document.
use qkt_data_hub.Prelude.{
  ℕ, Bool, true, false, ◌&&◌, Option, none, some, List, [], ◌∷◌, ◌++◌, map, keep, Result, ok, err,
  ◌>>=◌, ◌>>◌, require, key_error, store_error, record_error, length, suc, if◌then◌else◌,
}
use qkt_data_hub.Prelude.Int.{ℤ, pos, negsuc}
use qkt_data_hub.Prelude.Order.{nat_ord, pair_ord}
use qkt_data_hub.Prelude.Text.{Text, text_eq, text_ord, codes}
use qkt_data_hub.Prelude.Dict.{lookup, values, text_key}
use qkt_data_hub.Prelude.Sort.{sort_by}
use qkt_data_hub.Prelude.Sets.{sorted_set}
use qkt_data_hub.Record.{
  Record, Value, null, text, bool, int, Availability, observed, published, derived, sort_key,
}
use qkt_data_hub.Record.Json.{show_ℤ}
use qkt_data_hub.Derive.Decimals.{DecimalContext}
use qkt_data_hub.Schema.{
  FieldSpec, FieldType, number_type, bool_type, timestamp_type, enum_type, string_type,
  DatasetSchema, is_storable,
}
use qkt_data_hub.Snapshot.Utf8.{Bytes, encode_text}
use qkt_data_hub.Snapshot.Words.{Format, byte, int32, int64, pack}

-- `MAGIC`
abbrev pub magic : Bytes
magic = codes "QKH1"

-- `VERSION`
abbrev pub version : ℤ
version = pos 1

-- `SCALE`
abbrev pub scale : ℕ
scale = 8

-- `NULL_SENTINEL`
abbrev pub null_sentinel : ℤ
null_sentinel = negsuc 9_223_372_036_854_775_807

-- `NULL_DICT_INDEX`
abbrev pub null_dict_index : ℤ
null_dict_index = negsuc 0

-- `field_type_code`
unfoldable pub field_type_code : FieldType → Result ℤ
field_type_code number_type = ok (pos 0)
field_type_code bool_type = ok (pos 1)
field_type_code timestamp_type = ok (pos 2)
field_type_code enum_type = ok (pos 3)
field_type_code string_type = err store_error

-- One write after another: the first that raises ends it.
infixr 30 ◌<+>◌
unfoldable pub ◌<+>◌ : Result Bytes → Result Bytes → Result Bytes
first <+> second = do front ← first; back ← second; ok (front ++ back)

-- `_pack_str`
unfoldable pub pack_str : Text → Result Bytes
unfolding ◌<+>◌
pack_str s = do body ← encode_text s; pack int32 (pos (length body)) <+> ok body

unfoldable pub pack_strs : List Text → Result Bytes
pack_strs [] = ok []
pack_strs (s ∷ l) = pack_str s <+> pack_strs l

-- `_pack_column`
unfoldable pub pack_column : Format → List ℤ → Result Bytes
pack_column f [] = ok []
pack_column f (v ∷ vs) = pack f v <+> pack_column f vs

-- [f(x) for x in xs]
unfoldable pub map_result : {A B : Type 0} → (A → Result B) → List A → Result (List B)
map_result f [] = ok []
map_result f (x ∷ xs) = do y ← f x; ys ← map_result f xs; ok (y ∷ ys)

-- the values of a column over the records, packed
unfoldable pub write_column : Format → (Record → Result ℤ) → List Record → Result Bytes
write_column f value records = do column ← map_result value records; pack_column f column

-- {v: i for i, v in enumerate(…)}[s]
unfoldable pub index_from : ℕ → List Text → Text → Result ℤ
index_from i [] s = err key_error
index_from i (t ∷ l) s =
    let further = index_from (suc i) l s in if text_eq t s then ok (pos i) else further

abbrev pub index_of : List Text → Text → Result ℤ
index_of = index_from 0

abbrev pub optional_index : List Text → Option Text → Result ℤ
optional_index l none = ok null_dict_index
optional_index l (some s) = index_of l s

abbrev pub optional_instant : Option ℕ → Result ℤ
optional_instant none = ok null_sentinel
optional_instant (some t) = ok (pos t)

-- {r.raw_ref for r in ordered if r.raw_ref is not None}
abbrev pub given_refs : List Record → List Text
given_refs [] = []
given_refs (r ∷ records) = elim r.raw_ref [
  | none ↦ given_refs records
  | some s ↦ s ∷ given_refs records
]

-- position in `Availability`
unfoldable pub availability_ordinal : Availability → ℤ
availability_ordinal observed = pos 0
availability_ordinal published = pos 1
availability_ordinal derived = pos 2

abbrev pub is_storable_type : FieldType → Bool
is_storable_type string_type = false
is_storable_type _ = true

unfoldable pub storable_fields : DatasetSchema → List FieldSpec
storable_fields schema = keep (λ f. is_storable_type f.type) (values schema.fields)

-- The six dictionaries of a snapshot.
pub record Dictionaries : Type 0 where
  pub scopes : List Text
  pub keys : List Text
  pub sources : List Text
  pub source_versions : List Text
  pub parsers : List Text
  pub raw_refs : List Text

unfoldable pub dictionaries : List Record → Dictionaries
dictionaries ordered = record {
  scopes = sorted_set (map (λ r. r.scope) ordered);
  keys = sorted_set (map (λ r. r.key) ordered);
  sources = sorted_set (map (λ r. r.source) ordered);
  source_versions = sorted_set (map (λ r. r.source_version) ordered);
  parsers = sorted_set (map (λ r. r.parser) ordered);
  raw_refs = sorted_set (given_refs ordered);
}

unfoldable pub pack_dictionary : List Text → Result Bytes
pack_dictionary l = pack int32 (pos (length l)) <+> pack_strs l

abbrev pub pack_type : FieldType → Result Bytes
pack_type type = do code ← field_type_code type; pack byte code

unfoldable pub pack_fields : List FieldSpec → Result Bytes
pack_fields [] = ok []
pack_fields (f ∷ fields) =
    pack_str f.name <+> (pack_type f.type <+> (pack_str f.unit <+> pack_fields fields))

-- all that stands before the columns
unfoldable pub write_header : Bytes → Text → ℕ → List FieldSpec → Dictionaries → Result Bytes
write_header schema_hash dataset count fields d =
    ok magic
    <+> (pack int32 version
        <+> (ok schema_hash
            <+> (pack_str dataset
                <+> (pack int32 (pos count)
                    <+> (pack int32 (pos (length fields))
                        <+> (pack int32 (pos scale)
                            <+> (pack_fields fields
                                <+> (pack_dictionary d.scopes
                                    <+> (pack_dictionary d.keys
                                        <+> (pack_dictionary d.sources
                                            <+> (pack_dictionary d.source_versions
                                                <+> (pack_dictionary d.parsers
                                                    <+> pack_dictionary d.raw_refs))))))))))))

-- no record of another dataset
abbrev pub all_of_dataset : Text → List Record → Bool
all_of_dataset name [] = true
all_of_dataset name (r ∷ records) = text_eq r.dataset name && all_of_dataset name records

module _ (c : DecimalContext) where
  -- the NUMBER branch: within the bounds of a column, or refused
  unfoldable pub encode_number : Text → Result ℤ
  encode_number s = do n ← c.scaled s; require (is_storable n) store_error; ok n

  -- `_encode_field_value` on a value that is not None
  unfoldable pub encode_typed : FieldType → Value → Result ℤ
  unfolding encode_number
  encode_typed number_type (text s) = encode_number s
  encode_typed number_type (int n) = encode_number (show_ℤ n)
  encode_typed bool_type (bool true) = ok (pos 1)
  encode_typed bool_type (bool false) = ok (pos 0)
  encode_typed timestamp_type (int n) = ok n
  encode_typed enum_type (int n) = ok n
  encode_typed _ _ = err store_error

  -- `_encode_field_value` on `fields.get(name)`
  unfoldable pub encode_field_value : FieldSpec → Option Value → Result ℤ
  encode_field_value spec none = ok null_sentinel
  encode_field_value spec (some null) = ok null_sentinel
  encode_field_value spec (some (text s)) = encode_typed spec.type (text s)
  encode_field_value spec (some (bool b)) = encode_typed spec.type (bool b)
  encode_field_value spec (some (int n)) = encode_typed spec.type (int n)

  unfoldable pub write_fields : List FieldSpec → List Record → Result Bytes
  write_fields [] ordered = ok []
  write_fields (f ∷ fields) ordered =
      write_column int64 (λ r. encode_field_value f (lookup f.name r.fields)) ordered
      <+> write_fields fields ordered

  unfoldable pub write_columns : List FieldSpec → Dictionaries → List Record → Result Bytes
  write_columns fields d ordered =
      write_column int64 (λ r. ok (pos r.known_at)) ordered
      <+> (write_column int64 (λ r. ok (pos r.effective_at)) ordered
          <+> (write_column int64 (λ r. optional_instant r.period_start) ordered
              <+> (write_column int64 (λ r. optional_instant r.period_end) ordered
                  <+> (write_column int32 (λ r. index_of d.scopes r.scope) ordered
                      <+> (write_column int32 (λ r. index_of d.keys r.key) ordered
                          <+> (write_column int32 (λ r. ok (pos r.revision)) ordered
                              <+> (write_column byte (λ r. ok (availability_ordinal r.availability))
                                    ordered
                                  <+> (write_column int64 (λ r. ok (pos r.seq)) ordered
                                      <+> (write_column int32 (λ r. index_of d.sources r.source)
                                            ordered
                                          <+> (write_column int32
                                                (λ r. index_of d.source_versions r.source_version)
                                                ordered
                                              <+> (write_column int32
                                                    (λ r. index_of d.parsers r.parser) ordered
                                                  <+> (write_column int32
                                                        (λ r. optional_index d.raw_refs r.raw_ref)
                                                        ordered
                                                      <+> write_fields fields ordered))))))))))))

  -- `encode`
  unfoldable pub encode : (Bytes → Bytes) → Bytes → DatasetSchema → List Record → Result Bytes
  unfolding sort_by sort_key
  encode digest schema_hash schema records = do
    let ordered = sort_by sort_key records
    let fields = storable_fields schema
    let d = dictionaries ordered
    require (all_of_dataset schema.name ordered) record_error
    out ←
        write_header schema_hash schema.name (length ordered) fields d
        <+> write_columns fields d ordered
    ok (out ++ digest out)
