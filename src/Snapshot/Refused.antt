-- ===== src/Snapshot/Refused.antt =====
-- `decode` of hubread/snapshot.py on what is left of a snapshot.
use qkt_data_hub.Prelude.{
  ℕ, ◌≡◌, refl, sym, ap, ◌∙◌, false, List, ◌∷◌, ◌++◌, Result, ok, err, store_error, length, take,
  length-append, ◌==◌, Bool-cases, inl, inr, ◌⊎◌, ok_inj, arith,
}
use mathlib.Core.List.{append_assoc}
use qkt_data_hub.Prelude.Order.{nat_ord, pair_ord}
use qkt_data_hub.Prelude.Sort.{sort_by}
use qkt_data_hub.Prelude.Text.{Text, text_eq, text_ord}
use qkt_data_hub.Record.{Record, sort_key}
use qkt_data_hub.Derive.Decimals.{DecimalContext}
use qkt_data_hub.Schema.{DatasetSchema}
use qkt_data_hub.Snapshot.Utf8.{Bytes}
use qkt_data_hub.Snapshot.Cursor.{Cursor}
use qkt_data_hub.Snapshot.Encode.{magic, encode}
use qkt_data_hub.Snapshot.Decode.{read_header, SnapshotHeader}
use qkt_data_hub.Snapshot.Rows.{decode, expected_len}
use qkt_data_hub.Snapshot.Truncated.{read_header-IsSteady, Refuses}
use qkt_data_hub.Snapshot.RoundTrip.{encode-Written, header-read, fits_len}

Result-cases :
    {A : Type 0} (r : Result A) → Refuses r → (r ≡ err store_error) ⊎ ((a : A) × (r ≡ ok a))
Result-cases (err e) h = inl (ap err h)
Result-cases (ok a) h = inr (a, refl)

-- A header that is read of the front of a buffer announces the length of the whole buffer.
announced :
    (front lost : Bytes) (whole : SnapshotHeader × Cursor) (header : SnapshotHeader) (at : Cursor)
    → read_header (record { unread = front ++ lost; offset = 0 }) ≡ ok whole
    → read_header (record { unread = front; offset = 0 }) ≡ ok (header, at)
    → expected_len header at ≡ expected_len whole.0 whole.1
announced front lost whole header at all read =
    let further = read_header-IsSteady.extends (record { unread = front; offset = 0 }) lost read in
    ap (λ (p : SnapshotHeader × Cursor). expected_len p.0 p.1) (ok_inj (sym further ∙ all))

module _ (c : DecimalContext) (sha256 : Text → Text) (digest : Bytes → Bytes) (schema_hash : Bytes)
    (schema : DatasetSchema) where
  -- Whatever is cut off the end of a snapshot that `encode` wrote, `decode` refuses the rest with a
  -- `StoreError`. Digests have 32 bytes.
  pub decode-truncated :
      (records : List Record)
      → ((b : Bytes) → length (digest b) ≡ 32)
      → length schema_hash ≡ 32
      → {bytes : Bytes} → encode c digest schema_hash schema records ≡ ok bytes
      → (front lost : Bytes) (x : ℕ) → bytes ≡ front ++ (x ∷ lost)
      → decode c sha256 digest front ≡ err store_error
  unfolding decode
  decode-truncated records digest_len hash_len e front lost x cut =
      let w = encode-Written c digest schema_hash schema records e in
      let ordered = sort_by sort_key records in
      let seal = digest (w.header_bytes ++ w.column_bytes) in
      let layout : front ++ (x ∷ lost) ≡ w.header_bytes ++ (w.column_bytes ++ seal) =
        sym cut ∙ w.laid_out ∙ append_assoc w.header_bytes w.column_bytes seal in
      let all =
        ap (λ b. read_header (record { unread = b; offset = 0 })) layout
        ∙ header-read c sha256 digest schema_hash schema digest_len hash_len ordered w.header_bytes
            w.column_bytes w.header_written w.columns_written in
      let len =
        ap length layout
        ∙ fits_len c sha256 digest schema_hash schema digest_len hash_len ordered w.header_bytes
            w.column_bytes w.header_written w.columns_written in
      elim (Bool-cases (text_eq (take 4 front) magic)) [
        | inr bad ↦ rw bad refl
        | inl good ↦
            elim (Result-cases (read_header (record { unread = front; offset = 0 }))
              (read_header-IsSteady.refuses _)) [
                | inl failed ↦ rw (good, failed) refl
                | inr ((header, at), read) ↦
                    let short : (length front == expected_len header at) ≡ false = ground (
                      arith,
                      announced front (x ∷ lost) _ header at all read,
                      len,
                      length-append front (x ∷ lost),
                    ) in
                    rw (good, read, short) refl
              ]
      ]
