-- ===== src/Snapshot/Restores/Columns.antt =====
-- The columns of a snapshot: what they are read as, and how many bytes they take.
use qkt_data_hub.Prelude.{
  ℕ, suc, ◌+◌, ◌*◌, ◌≡◌, sym, ap, ◌∙◌, List, [], ◌∷◌, map, Result, ok, >>=-eq-ok, ok_inj, length,
  length-append, arith,
}
use mathlib.Core.Path.{subst}
use qkt_data_hub.Prelude.Int.{ℤ, pos}
use qkt_data_hub.Prelude.Dict.{lookup, text_key}
use qkt_data_hub.Record.{Record}
use qkt_data_hub.Derive.Decimals.{DecimalContext}
use qkt_data_hub.Schema.{FieldSpec}
use qkt_data_hub.Snapshot.Utf8.{Bytes}
use qkt_data_hub.Snapshot.Words.{Format, byte, int32, int64, size}
use qkt_data_hub.Snapshot.Cursor.{Reading, column, ◌>>=◌}
use qkt_data_hub.Snapshot.Encode.{
  ◌<+>◌, pack_column, map_result, write_column, write_fields, write_columns, Dictionaries, index_of,
  optional_index, optional_instant, availability_ordinal, encode_field_value,
}
use qkt_data_hub.Snapshot.Decode.{Columns, read_field_columns, read_columns}
use qkt_data_hub.Snapshot.Rows.{fixed_row_bytes}
use qkt_data_hub.Snapshot.Restores.{Restores, Returns, Restores-bind, Restores-map, Restores-given}
use qkt_data_hub.Snapshot.Restores.Words.{column-Returns, unpack_all-pack_column}
use qkt_data_hub.Snapshot.Restores.Header.{column_field}

length-map_result :
    {A B : Type 0} (f : A → Result B) (xs : List A) {ys : List B}
    → map_result f xs ≡ ok ys
    → length ys ≡ length xs
unfolding map_result
length-map_result f [] e = ap length (sym (ok_inj e))
length-map_result f (x ∷ xs) e =
    let (y, p, q) = >>=-eq-ok (f x) _ e in
    let (ys, r, s) = >>=-eq-ok (map_result f xs) _ q in
    ap length (sym (ok_inj s)) ∙ ap suc (length-map_result f xs r)

-- the column holds the value of each record
abbrev pub IsColumn : (Record → Result ℤ) → List Record → List ℤ → Type 0
IsColumn value records column = map_result value records ≡ ok column

write_column-Restores :
    (f : Format) (value : Record → Result ℤ) (records : List Record)
    → Restores (write_column f value records) (column f (length records)) (IsColumn value records)
unfolding write_column
write_column-Restores f value records bytes e =
    let (vs, p, q) = >>=-eq-ok (map_result value records) _ e in
    let l = length-map_result value records p in
    let (ws, same, reads) =
      subst (λ n. Returns (pack_column f vs) (column f n) vs) l (column-Returns f vs) bytes q in
    (ws, p ∙ ap ok (sym same), reads)

module _ (c : DecimalContext) (records : List Record) where
  abbrev pub field_value : FieldSpec → Record → Result ℤ
  field_value f r = encode_field_value c f (lookup f.name r.fields)

  -- one column for every field
  abbrev pub AreFieldColumns : List FieldSpec → List (List ℤ) → Type 0
  AreFieldColumns [] [] = Unit
  AreFieldColumns (f ∷ fields) (vs ∷ columns) =
      IsColumn (field_value f) records vs × AreFieldColumns fields columns
  AreFieldColumns _ _ = ⊥

  pub record AreColumns (fields : List FieldSpec) (d : Dictionaries) (t : Columns) : Type 0 where
    pub known_ats : IsColumn (λ r. ok (pos r.known_at)) records t.known_ats
    pub effective_ats : IsColumn (λ r. ok (pos r.effective_at)) records t.effective_ats
    pub period_starts : IsColumn (λ r. optional_instant r.period_start) records t.period_starts
    pub period_ends : IsColumn (λ r. optional_instant r.period_end) records t.period_ends
    pub scope_idxs : IsColumn (λ r. index_of d.scopes r.scope) records t.scope_idxs
    pub key_idxs : IsColumn (λ r. index_of d.keys r.key) records t.key_idxs
    pub revisions : IsColumn (λ r. ok (pos r.revision)) records t.revisions
    pub availabilities :
        IsColumn (λ r. ok (availability_ordinal r.availability)) records t.availabilities
    pub seqs : IsColumn (λ r. ok (pos r.seq)) records t.seqs
    pub source_idxs : IsColumn (λ r. index_of d.sources r.source) records t.source_idxs
    pub source_version_idxs :
        IsColumn (λ r. index_of d.source_versions r.source_version) records t.source_version_idxs
    pub parser_idxs : IsColumn (λ r. index_of d.parsers r.parser) records t.parser_idxs
    pub raw_ref_idxs : IsColumn (λ r. optional_index d.raw_refs r.raw_ref) records t.raw_ref_idxs
    pub field_columns : AreFieldColumns fields t.field_columns

  column_at :
      {B : Type 0} (Q : B → Type 0) (then : Result Bytes) (f : Format) (value : Record → Result ℤ)
      (next : List ℤ → Reading B)
      → ((vs : List ℤ) → IsColumn value records vs → Restores then (next vs) Q)
      → Restores (write_column f value records <+> then) (column f (length records) >>= next) Q
  column_at Q then f value next =
      Restores-bind Q (write_column f value records) then (column f (length records)) next
        (write_column-Restores f value records)

  write_fields-Restores :
      (fields : List FieldSpec)
      → Restores
          (write_fields c fields records)
          (read_field_columns (length records) (map column_field fields))
          (AreFieldColumns fields)
  unfolding write_fields read_field_columns
  write_fields-Restores [] = Restores-given (AreFieldColumns []) [] tt
  write_fields-Restores (f ∷ fields) =
      column_at (AreFieldColumns (f ∷ fields)) (write_fields c fields records) int64 (field_value f)
        _
        λ vs p.
          Restores-map (AreFieldColumns (f ∷ fields)) (write_fields c fields records)
            (read_field_columns (length records) (map column_field fields)) (λ l. vs ∷ l)
            (write_fields-Restores fields) (λ l q. (p, q))

  pub write_columns-Restores :
      (fields : List FieldSpec) (d : Dictionaries)
      → Restores
          (write_columns c fields d records)
          (read_columns (length records) (map column_field fields))
          (AreColumns fields d)
  unfolding write_columns read_columns
  write_columns-Restores fields d =
      let Q = AreColumns fields d in
      column_at Q _ int64 _ _ λ v1 p1. column_at Q _ int64 _ _ λ v2 p2.
        column_at Q _ int64 _ _ λ v3 p3. column_at Q _ int64 _ _ λ v4 p4.
          column_at Q _ int32 _ _ λ v5 p5. column_at Q _ int32 _ _ λ v6 p6.
            column_at Q _ int32 _ _ λ v7 p7. column_at Q _ byte _ _ λ v8 p8.
              column_at Q _ int64 _ _ λ v9 p9. column_at Q _ int32 _ _ λ v10 p10.
                column_at Q _ int32 _ _ λ v11 p11. column_at Q _ int32 _ _ λ v12 p12.
                  column_at Q _ int32 _ _ λ v13 p13.
                    Restores-map Q (write_fields c fields records)
                      (read_field_columns (length records) (map column_field fields)) _
                      (write_fields-Restores fields)
                      (λ v q. record {
                        known_ats = p1;
                        effective_ats = p2;
                        period_starts = p3;
                        period_ends = p4;
                        scope_idxs = p5;
                        key_idxs = p6;
                        revisions = p7;
                        availabilities = p8;
                        seqs = p9;
                        source_idxs = p10;
                        source_version_idxs = p11;
                        parser_idxs = p12;
                        raw_ref_idxs = p13;
                        field_columns = q;
                      })

  -- the write puts down `n` bytes
  abbrev Takes : Result Bytes → ℕ → Type 0
  Takes write n = (bytes : Bytes) → write ≡ ok bytes → length bytes ≡ n

  Takes-then :
      (write then : Result Bytes) {m n : ℕ}
      → Takes write m
      → Takes then n
      → Takes (write <+> then) (m + n)
  unfolding ◌<+>◌
  Takes-then write then h k bytes e =
      let (front, p, q) = >>=-eq-ok write _ e in
      let (back, r, s) = >>=-eq-ok then _ q in
      ap length (sym (ok_inj s)) ∙ omega (arith, length-append front back, h front p, k back r)

  write_column-Takes :
      (f : Format) (value : Record → Result ℤ)
      → Takes (write_column f value records) (size f * length records)
  unfolding write_column
  write_column-Takes f value bytes e =
      let (vs, p, q) = >>=-eq-ok (map_result value records) _ e in
      (unpack_all-pack_column f vs bytes q).0
      ∙ ap (λ n. size f * n) (length-map_result value records p)

  write_fields-Takes :
      (fields : List FieldSpec)
      → Takes (write_fields c fields records) (length fields * (8 * length records))
  unfolding write_fields
  write_fields-Takes [] bytes e = ap length (sym (ok_inj e)) ∙ omega arith
  write_fields-Takes (f ∷ fields) bytes e =
      Takes-then _ _ (write_column-Takes int64 (field_value f)) (write_fields-Takes fields) bytes e
      ∙ grind arith

  then_column :
      (f : Format) (value : Record → Result ℤ) (then : Result Bytes) {n : ℕ}
      → Takes then n
      → Takes (write_column f value records <+> then) (size f * length records + n)
  then_column f value then h =
      Takes-then (write_column f value records) then (write_column-Takes f value) h

  pub length-write_columns :
      (fields : List FieldSpec) (d : Dictionaries) {bytes : Bytes}
      → write_columns c fields d records ≡ ok bytes
      → length bytes ≡ length records * (fixed_row_bytes + length fields * 8)
  unfolding write_columns
  length-write_columns fields d {bytes} e =
      then_column int64 _ _
        (then_column int64 _ _ (
          then_column int64 _ _ (
            then_column int64 _ _ (
              then_column int32 _ _ (
                then_column int32 _ _ (
                  then_column int32 _ _ (
                    then_column byte _ _ (
                      then_column int64 _ _ (
                        then_column int32 _ _ (
                          then_column int32 _ _ (
                            then_column int32 _ _
                              (then_column int32 _ _ (write_fields-Takes fields)))))))))))))
        bytes e
      ∙ grind arith
