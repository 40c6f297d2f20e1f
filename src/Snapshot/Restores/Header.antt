-- ===== src/Snapshot/Restores/Header.antt =====
-- The header of a snapshot is read back as it was written.
use qkt_data_hub.Prelude.{
  ℕ, ◌≡◌, refl, ap, some, List, [], ◌∷◌, map, Result, ok, >>=-eq-ok, ok_inj, ◌∙◌, store_error,
  length,
}
use qkt_data_hub.Prelude.Int.{ℤ, pos}
use qkt_data_hub.Prelude.Text.{Text}
use qkt_data_hub.Schema.{
  FieldSpec, FieldType, number_type, bool_type, timestamp_type, enum_type, string_type, or_raise,
}
use qkt_data_hub.Snapshot.Utf8.{Bytes}
use qkt_data_hub.Snapshot.Words.{byte, int32, pack}
use qkt_data_hub.Snapshot.Cursor.{Reading, checked, ◌>>=◌, take_bytes, value, string}
use qkt_data_hub.Snapshot.Encode.{
  magic, version, scale, ◌<+>◌, field_type_code, pack_str, pack_type, pack_fields, pack_dictionary,
  Dictionaries, write_header,
}
use qkt_data_hub.Snapshot.Decode.{
  SnapshotField, SnapshotHeader, type_of_code, read_fields, read_dictionary, read_header,
}
use qkt_data_hub.Snapshot.Restores.{
  Restores, Returns, Restores-bind, Restores-next, Restores-map, Restores-checked, Restores-given,
}
use qkt_data_hub.Snapshot.Restores.Words.{
  take_bytes-Returns, value-Returns, string-Returns, read_dictionary-Returns,
}

-- what the field table says of a declared field
abbrev pub column_field : FieldSpec → SnapshotField
column_field f = record { name = f.name; type = f.type; unit = f.unit }

type_of_code-field_type_code :
    (t : FieldType) (code : ℤ) → field_type_code t ≡ ok code → type_of_code code ≡ some t
unfolding field_type_code type_of_code
type_of_code-field_type_code number_type code e = rw (← ok_inj e) refl
type_of_code-field_type_code bool_type code e = rw (← ok_inj e) refl
type_of_code-field_type_code timestamp_type code e = rw (← ok_inj e) refl
type_of_code-field_type_code enum_type code e = rw (← ok_inj e) refl
type_of_code-field_type_code string_type code e = cc

type-Restores :
    (t : FieldType) → Restores (pack_type t) (value byte) (λ code. type_of_code code ≡ some t)
type-Restores t bytes e =
    let (code, p, q) = >>=-eq-ok (field_type_code t) _ e in
    let (read, same, reads) = value-Returns byte code bytes q in
    (read, ap type_of_code same ∙ type_of_code-field_type_code t code p, reads)

module _ {B : Type 0} (Q : B → Type 0) (then : Result Bytes) where
  text_at :
      (s : Text) (next : Text → Reading B)
      → Restores then (next s) Q
      → Restores (pack_str s <+> then) (string >>= next) Q
  text_at s next = Restores-next Q (pack_str s) then string next s (string-Returns s)

  number_at :
      (v : ℤ) (next : ℤ → Reading B)
      → Restores then (next v) Q
      → Restores (pack int32 v <+> then) (value int32 >>= next) Q
  number_at v next =
      Restores-next Q (pack int32 v) then (value int32) next v (value-Returns int32 v)

  bytes_at :
      (bytes : Bytes) (n : ℕ) (next : Bytes → Reading B)
      → length bytes ≡ n
      → Restores then (next bytes) Q
      → Restores (ok bytes <+> then) (take_bytes n >>= next) Q
  bytes_at bytes n next l =
      Restores-next Q (ok bytes) then (take_bytes n) next bytes (take_bytes-Returns bytes n l)

  dictionary_at :
      (l : List Text) (next : List Text → Reading B)
      → Restores then (next l) Q
      → Restores (pack_dictionary l <+> then) (read_dictionary >>= next) Q
  dictionary_at l next =
      Restores-next Q (pack_dictionary l) then read_dictionary next l (read_dictionary-Returns l)

type_at :
    {B : Type 0} (Q : B → Type 0) (t : FieldType) (then : Result Bytes)
    (next : FieldType → Reading B)
    → Restores then (next t) Q
    → Restores
        (pack_type t <+> then)
        (value byte >>= λ code. checked (or_raise store_error (type_of_code code)) >>= next)
        Q
unfolding or_raise
type_at Q t then next h =
    Restores-bind Q (pack_type t) then (value byte) _ (type-Restores t) λ code e.
      Restores-checked Q then (or_raise store_error (type_of_code code)) next t
        (ap (or_raise store_error) e) h

read_fields-Returns :
    (fields : List FieldSpec)
    → Returns (pack_fields fields) (read_fields (length fields)) (map column_field fields)
unfolding pack_fields read_fields
read_fields-Returns [] = Restores-given (λ l. l ≡ []) [] refl
read_fields-Returns (f ∷ fields) =
    let all = map column_field (f ∷ fields) in
    let Q : List SnapshotField → Type 0 = λ l. l ≡ all in
    let units = pack_str f.unit <+> pack_fields fields in
    text_at Q (pack_type f.type <+> units) f.name _ (
      type_at Q f.type units _ (
        text_at Q (pack_fields fields) f.unit _ (
          Restores-map Q (pack_fields fields) (read_fields (length fields))
            (λ l. column_field f ∷ l) (read_fields-Returns fields)
            (λ l e. ap (λ t. column_field f ∷ t) e))))

-- the header that is read of what was written
abbrev pub header_of : Bytes → Text → ℕ → List FieldSpec → Dictionaries → SnapshotHeader
header_of schema_hash dataset count fields d = record {
  version = version;
  schema_hash = schema_hash;
  dataset = dataset;
  record_count = count;
  field_count = length fields;
  scale = scale;
  fields = map column_field fields;
  dictionaries = d;
}

pub read_header-Returns :
    (schema_hash : Bytes) (dataset : Text) (count : ℕ) (fields : List FieldSpec) (d : Dictionaries)
    → length schema_hash ≡ 32
    → Returns
        (write_header schema_hash dataset count fields d)
        read_header
        (header_of schema_hash dataset count fields d)
unfolding write_header read_header
read_header-Returns schema_hash dataset count fields d l =
    let Q : SnapshotHeader → Type 0 = λ h. h ≡ header_of schema_hash dataset count fields d in
    bytes_at Q _ magic 4 _ refl (
      number_at Q _ version _ (
        Restores-checked Q _ (ok tt) _ tt refl (
          bytes_at Q _ schema_hash 32 _ l (
            text_at Q _ dataset _ (
              number_at Q _ (pos count) _ (
                number_at Q _ (pos (length fields)) _ (
                  number_at Q _ (pos scale) _ (
                    Restores-checked Q _ (ok tt) _ tt refl (
                      Restores-next Q (pack_fields fields) _ (read_fields (length fields)) _
                        (map column_field fields) (read_fields-Returns fields)
                        (dictionary_at Q _ d.scopes _ (
                          dictionary_at Q _ d.keys _ (
                            dictionary_at Q _ d.sources _ (
                              dictionary_at Q _ d.source_versions _ (
                                dictionary_at Q _ d.parsers _ (
                                  Restores-map Q (pack_dictionary d.raw_refs) read_dictionary _
                                    (read_dictionary-Returns d.raw_refs)
                                    (λ refs. ap λ r.
                                      header_of schema_hash dataset count fields
                                        (record d { raw_refs = r })))))))))))))))))
