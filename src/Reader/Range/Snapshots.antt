-- ===== src/Reader/Range/Snapshots.antt =====
-- `range` of hubread/reader.py over the snapshots that hub/snapshot.py wrote and hubread/snapshot.py
-- decodes.
use qkt_data_hub.Prelude.{
  ℕ, ◌≤◌, ◌≡◌, refl, ap, ◌∙◌, List, [], ◌∷◌, map, keep, Result, ok, ◌>>=◌, length, All, All-imp,
  All-keep,
}
use qkt_data_hub.Prelude.Order.{nat_ord, pair_ord}
use qkt_data_hub.Prelude.Text.{Text, text_ord, text_eq_refl}
use qkt_data_hub.Prelude.Sort.{All-sort_by, sort_by-IsSorted, IsSorted}
use qkt_data_hub.Prelude.SortKeep.{sort_by_sorted}
use qkt_data_hub.Record.{Record, sort_key}
use qkt_data_hub.Record.Stamp.{with_id, compute_id, identity_payload}
use qkt_data_hub.Derive.Decimals.{DecimalContext}
use qkt_data_hub.Schema.{DatasetSchema}
use qkt_data_hub.Snapshot.Utf8.{Bytes}
use qkt_data_hub.Snapshot.Encode.{encode, storable_fields}
use qkt_data_hub.Snapshot.Rows.{decode}
use qkt_data_hub.Snapshot.RoundTrip.{decode-encode}
use qkt_data_hub.Snapshot.Restores.Rows.{ScalesBack, stored_from}
use qkt_data_hub.Snapshot.Restores.Records.{stored, IsFieldName, IsStorable}
use qkt_data_hub.Reader.{in_range, read_range}
use qkt_data_hub.Reader.Range.{WindowInfo, decode_window, range}
use qkt_data_hub.Reader.Range.Compiled.{AreApart, IsFaithful, range-read_range}

read_range-IsSorted :
    (journal : List Record) (low high : ℕ) → IsSorted sort_key (read_range journal low high)
unfolding read_range
read_range-IsSorted journal low high = sort_by-IsSorted sort_key (keep (in_range low high) journal)

module _ (c : DecimalContext) (sha256 : Text → Text) (digest : Bytes → Bytes) (schema_hash : Bytes)
    (schema : DatasetSchema) where
  -- _, records = decode(data)
  unfoldable pub read_snapshot : Bytes → Result (List Record)
  unfolding decode
  read_snapshot buffer = do (header, records) ← decode c sha256 digest buffer; ok records

  -- A record of the store whose payload is what a snapshot keeps: the storable fields, in their order.
  pub record IsWhole (r : Record) : Type 0 where
    pub storable : IsStorable c schema.name (storable_fields schema) r
    pub complete : stored_from (storable_fields schema) r.fields [] ≡ r.fields
    pub addressed : compute_id sha256 r ≡ r.id

  IsWhole-same : (r : Record) → IsWhole r → with_id sha256 (stored (storable_fields schema) r) ≡ r
  unfolding with_id compute_id identity_payload
  IsWhole-same r h =
      ap (λ fields. with_id sha256 (record r { fields = fields; id = [] })) h.complete
      ∙ ap (λ id. record r { id = id }) h.addressed

  stored-same :
      (records : List Record)
      → All IsWhole records
      → map (λ r. with_id sha256 (stored (storable_fields schema) r)) records ≡ records
  stored-same [] h = refl
  stored-same (r ∷ records) h = rw (IsWhole-same r h.0, stored-same records h.1) refl

  module _ (read_bytes : Text → Result Text) (sha256_of : Text → Text) (journal : List Record) where
    -- a window as the compiler leaves it: the file holds what `encode` makes of the journal's records
    -- of the window, and the manifest names its hash
    pub record IsCompiled (w : WindowInfo) : Type 0 where
      pub bytes : Bytes
      pub on_disk : read_bytes w.file ≡ ok bytes
      pub hashed : sha256_of bytes ≡ w.sha256
      pub written :
          encode c digest schema_hash schema (read_range journal w.from_ms w.to_ms) ≡ ok bytes

    module _ (law : ScalesBack c) (digest_len : (b : Bytes) → length (digest b) ≡ 32)
        (hash_len : length schema_hash ≡ 32)
        (named : All (λ f. IsFieldName f.name) (storable_fields schema))
        (whole : All IsWhole journal) where
      window-IsWhole : (low high : ℕ) → All IsWhole (read_range journal low high)
      unfolding read_range
      window-IsWhole low high =
          All-sort_by sort_key IsWhole (keep (in_range low high) journal)
            (All-keep IsWhole (in_range low high) journal whole)

      compiled-IsFaithful :
          (w : WindowInfo) → IsCompiled w → IsFaithful read_bytes sha256_of read_snapshot journal w
      unfolding decode_window read_snapshot
      compiled-IsFaithful w h =
          let records = read_range journal w.from_ms w.to_ms in
          let held = window-IsWhole w.from_ms w.to_ms in
          let back =
            decode-encode c sha256 digest schema_hash schema records law digest_len hash_len named
              (All-imp IsWhole (IsStorable c schema.name (storable_fields schema)) records
                (λ r k. k.storable) held)
              h.written in
          let same =
            ap (map (λ r. with_id sha256 (stored (storable_fields schema) r)))
              (sort_by_sorted sort_key records (read_range-IsSorted journal w.from_ms w.to_ms))
            ∙ stored-same records held in
          rw (h.on_disk, ← h.hashed, text_eq_refl (sha256_of h.bytes), back, same) refl

      -- Where the windows of the manifest are in order and apart, and each file is what `encode` makes of
      -- the journal's records of its window, under the hash that the manifest names, `range` over the
      -- decoded files gives for any stretch of history what the journal alone gives. The payload of each
      -- record is its storable fields in their order, as a snapshot can hold them, and its id is that of
      -- its content; the decimal context undoes its own scaling, the digest and the schema's hash have 32
      -- bytes, and the storable fields have names that a record takes.
      pub range-compiled :
          (windows : List WindowInfo) (known_from known_to : ℕ)
          → known_from ≤ known_to
          → AreApart windows
          → All IsCompiled windows
          → range read_bytes sha256_of read_snapshot journal windows known_from known_to
            ≡ ok (read_range journal known_from known_to)
      range-compiled windows known_from known_to le apart compiled =
          range-read_range read_bytes sha256_of read_snapshot journal windows known_from known_to le
            apart
            (All-imp IsCompiled (IsFaithful read_bytes sha256_of read_snapshot journal) windows
              compiled-IsFaithful compiled)
