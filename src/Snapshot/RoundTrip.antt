-- ===== src/Snapshot/RoundTrip.antt =====
-- A compiled window, written by hub/snapshot.py and read by hubread/snapshot.py.
use qkt_data_hub.Prelude.{
  ℕ, ◌+◌, ◌-◌, ◌≡◌, refl, sym, ap, ◌∙◌, true, List, [], ◌++◌, map, Result, ok, >>=-eq-ok, ok_inj,
  require, record_error, length, take, drop, All, length-append, ◌==◌, arith,
}
use mathlib.Core.List.{append_assoc}
use qkt_data_hub.Prelude.Order.{nat_ord, pair_ord}
use qkt_data_hub.Prelude.Sort.{sort_by, All-sort_by}
use qkt_data_hub.Prelude.Text.{Text, text_eq, text_eq_refl, text_ord}
use qkt_data_hub.Record.{Record, sort_key}
use qkt_data_hub.Record.Stamp.{with_id}
use qkt_data_hub.Derive.Decimals.{DecimalContext}
use qkt_data_hub.Schema.{DatasetSchema, FieldSpec}
use qkt_data_hub.Snapshot.Utf8.{Bytes}
use qkt_data_hub.Snapshot.Cursor.{Cursor}
use qkt_data_hub.Snapshot.Encode.{
  magic, ◌<+>◌, storable_fields, Dictionaries, dictionaries, write_header, write_columns, encode,
  all_of_dataset,
}
use qkt_data_hub.Snapshot.Decode.{read_header, SnapshotHeader}
use qkt_data_hub.Snapshot.Rows.{decode, expected_len}
use qkt_data_hub.Snapshot.Restores.Words.{take-append, drop-append}
use qkt_data_hub.Snapshot.Restores.Header.{header_of, read_header-Returns}
use qkt_data_hub.Snapshot.Restores.Columns.{write_columns-Restores, length-write_columns}
use qkt_data_hub.Snapshot.Restores.Rows.{ScalesBack}
use qkt_data_hub.Snapshot.Restores.Records.{stored, IsFieldName, IsStorable, decode_rows-stored}

-- What `encode` wrote: a header, the columns, and the digest of both.
pub record Written (c : DecimalContext) (digest : Bytes → Bytes) (schema_hash : Bytes)
    (schema : DatasetSchema) (ordered : List Record) (bytes : Bytes) : Type 0 where
  pub header_bytes : Bytes
  pub column_bytes : Bytes
  pub header_written :
      write_header schema_hash schema.name
        (length ordered)
        (storable_fields schema)
        (dictionaries ordered)
      ≡ ok header_bytes
  pub columns_written :
      write_columns c (storable_fields schema) (dictionaries ordered) ordered ≡ ok column_bytes
  pub laid_out : bytes ≡ (header_bytes ++ column_bytes) ++ digest (header_bytes ++ column_bytes)

module _ (c : DecimalContext) (digest : Bytes → Bytes) (schema_hash : Bytes)
    (schema : DatasetSchema) where
  pub encode-Written :
      (records : List Record) {bytes : Bytes}
      → encode c digest schema_hash schema records ≡ ok bytes
      → Written c digest schema_hash schema (sort_by sort_key records) bytes
  unfolding encode ◌<+>◌
  encode-Written records e =
      let ordered = sort_by sort_key records in
      let header =
        write_header schema_hash schema.name (length ordered) (storable_fields schema)
          (dictionaries ordered) in
      let columns = write_columns c (storable_fields schema) (dictionaries ordered) ordered in
      let (u, p, q) = >>=-eq-ok (require (all_of_dataset schema.name ordered) record_error) _ e in
      let (out, r, s) = >>=-eq-ok (header <+> columns) _ q in
      let (front, t, v) = >>=-eq-ok header _ r in
      let (back, w, x) = >>=-eq-ok columns _ v in
      record {
        header_bytes = front;
        column_bytes = back;
        header_written = t;
        columns_written = w;
        laid_out = sym (ok_inj s) ∙ ap (λ o. o ++ digest o) (sym (ok_inj x));
      }

begins_with :
    (start : Bytes) (then : Result Bytes) {bytes : Bytes}
    → (ok start <+> then) ≡ ok bytes
    → (more : Bytes) × (bytes ≡ start ++ more)
unfolding ◌<+>◌
begins_with start then e = let (more, p, q) = >>=-eq-ok then _ e in (more, sym (ok_inj q))

header-magic :
    (schema_hash : Bytes) (dataset : Text) (count : ℕ) (specs : List FieldSpec) (d : Dictionaries)
    {front : Bytes}
    → write_header schema_hash dataset count specs d ≡ ok front
    → (more : Bytes) × (front ≡ magic ++ more)
unfolding write_header
header-magic schema_hash dataset count specs d e = begins_with magic _ e

module _ (c : DecimalContext) (sha256 : Text → Text) (digest : Bytes → Bytes) (schema_hash : Bytes)
    (schema : DatasetSchema) where
  abbrev pub specs : List FieldSpec
  specs = storable_fields schema

  -- the header of a snapshot of these records
  abbrev pub header_for : List Record → SnapshotHeader
  header_for ordered =
      header_of schema_hash schema.name (length ordered) specs (dictionaries ordered)

  module _ (digest_len : (b : Bytes) → length (digest b) ≡ 32) (hash_len : length schema_hash ≡ 32)
      (ordered : List Record) (front back : Bytes)
      (front_written : write_header schema_hash schema.name
          (length ordered)
          specs
          (dictionaries ordered)
        ≡ ok front)
      (back_written : write_columns c specs (dictionaries ordered) ordered ≡ ok back) where
    abbrev pub seal : Bytes
    seal = digest (front ++ back)

    abbrev pub body : Cursor
    body = record { unread = back ++ seal; offset = 0 + length front }

    pub header-read :
        read_header (record { unread = front ++ (back ++ seal); offset = 0 })
        ≡ ok (header_for ordered, body)
    header-read =
        let (h, same, reads) =
          read_header-Returns schema_hash schema.name (length ordered) specs (dictionaries ordered)
            hash_len front front_written in
        rw (reads (back ++ seal) 0) (ap (λ x. ok (x, body)) same)

    starts : text_eq (take 4 (front ++ (back ++ seal))) magic ≡ true
    starts =
        let (more, p) =
          header-magic schema_hash schema.name (length ordered) specs (dictionaries ordered)
            front_written in
        rw p (text_eq_refl magic)

    pub fits_len : length (front ++ (back ++ seal)) ≡ expected_len (header_for ordered) body
    fits_len =
        length-append front (back ++ seal)
        ∙ ap (λ n. length front + n) (length-append back seal)
        ∙ omega (
          arith,
          digest_len (front ++ back),
          length-write_columns c ordered specs (dictionaries ordered) back_written,
        )

    whole : length (front ++ (back ++ seal)) - 32 ≡ length (front ++ back)
    whole = omega (
      arith,
      length-append front (back ++ seal),
      length-append back seal,
      length-append front back,
      digest_len (front ++ back),
    )

    sealed :
        text_eq
          (digest (take (length (front ++ (back ++ seal)) - 32) (front ++ (back ++ seal))))
          (drop (length (front ++ (back ++ seal)) - 32) (front ++ (back ++ seal)))
        ≡ true
    sealed =
        rw
          (
            whole,
            ← append_assoc front back seal,
            take-append (front ++ back) seal,
            drop-append (front ++ back) seal,
          )
          (text_eq_refl seal)

    decode_written :
        ScalesBack c
        → All (λ f. IsFieldName f.name) specs
        → All (IsStorable c schema.name specs) ordered
        → decode c sha256 digest (front ++ (back ++ seal))
          ≡ ok (header_for ordered, map (λ r. with_id sha256 (stored specs r)) ordered)
    unfolding decode
    decode_written law named storable =
        let (t, are, reads) =
          write_columns-Restores c ordered specs (dictionaries ordered) back back_written in
        let rows =
          decode_rows-stored c sha256 law schema_hash schema.name (length ordered) specs
            (dictionaries ordered) named t [] ordered are storable in
        let len : (length (front ++ (back ++ seal)) == expected_len (header_for ordered) body)
            ≡ true =
          ground (arith, fits_len) in
        rw (starts, header-read, len, sealed, reads seal (0 + length front), rows) refl

  -- What `encode` writes of records of the schema's dataset, whose declared numbers are canonical and
  -- whose integers are not the null sentinel, `decode` accepts, and it gives those records in the
  -- store's order, each with the payload of the storable fields and with the id of that content. The
  -- decimal context is to undo its own scaling, the digest to have 32 bytes.
  pub decode-encode :
      (records : List Record)
      → ScalesBack c
      → ((b : Bytes) → length (digest b) ≡ 32)
      → length schema_hash ≡ 32
      → All (λ f. IsFieldName f.name) specs
      → All (IsStorable c schema.name specs) records
      → {bytes : Bytes} → encode c digest schema_hash schema records ≡ ok bytes
      → decode c sha256 digest bytes
        ≡ ok (
          header_for (sort_by sort_key records),
          map (λ r. with_id sha256 (stored specs r)) (sort_by sort_key records),
        )
  decode-encode records law digest_len hash_len named storable e =
      let w = encode-Written c digest schema_hash schema records e in
      rw
        (
          w.laid_out,
          append_assoc w.header_bytes w.column_bytes (digest (w.header_bytes ++ w.column_bytes)),
        )
        (decode_written digest_len hash_len (sort_by sort_key records) w.header_bytes w.column_bytes
          w.header_written w.columns_written law named
          (All-sort_by sort_key (IsStorable c schema.name specs) records storable))
