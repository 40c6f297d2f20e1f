-- ===== src/Snapshot/Restores/Records.antt =====
-- The rows of the columns become the records, but for what a snapshot does not hold.
use qkt_data_hub.Prelude.{
  ℕ, suc, ◌≡◌, refl, sym, ap, ◌∙◌, true, false, List, [], ◌∷◌, ◌++◌, map, ok, >>=-eq-ok,
  require-eq_ok, ok_inj, Option, length, All, require, record_error, ◌==◌, ==_iff, length-append,
  arith,
}
use mathlib.Core.Path.{subst}
use mathlib.Core.List.{append_assoc}
use qkt_data_hub.Prelude.Text.{Text}
use qkt_data_hub.Prelude.Int.{ℤ, pos}
use qkt_data_hub.Prelude.Dict.{insert, lookup, text_key, All-insert}
use qkt_data_hub.Record.{Record, Payload}
use qkt_data_hub.Record.Checks.{post_init, check_fields, IsValid}
use qkt_data_hub.Record.Names.{matches_field_name, elem, reserved_field_names}
use qkt_data_hub.Record.Stamp.{create, with_id}
use qkt_data_hub.Derive.Decimals.{DecimalContext}
use qkt_data_hub.Schema.{FieldSpec}
use qkt_data_hub.Snapshot.Utf8.{Bytes}
use qkt_data_hub.Snapshot.Encode.{
  Dictionaries, index_of, optional_index, optional_instant, availability_ordinal,
}
use qkt_data_hub.Snapshot.Decode.{Columns}
use qkt_data_hub.Snapshot.Rows.{
  at, decode_row, decode_rows, availability_of, optional_ref, optional_natural, index_into, natural,
}
use qkt_data_hub.Snapshot.Restores.Header.{header_of}
use qkt_data_hub.Snapshot.Restores.Columns.{AreColumns, IsColumn}
use qkt_data_hub.Snapshot.Restores.Rows.{
  IsKept, ScalesBack, stored_from, stored_value, index_into-index_of, optional_ref-optional_index,
  availability_of-availability_ordinal, optional_natural-optional_instant, value_at,
  decode_payload-stored_from,
}

-- the record with the payload that a snapshot holds
abbrev pub stored : List FieldSpec → Record → Record
stored specs r = record r { fields = stored_from specs r.fields []; id = [] }

-- a field name that `Record` takes
abbrev pub IsFieldName : Text → Type 0
IsFieldName name = (matches_field_name name ≡ true) × (elem name reserved_field_names ≡ false)

check_fields-IsFieldName :
    (fields : Payload) → All (λ e. IsFieldName e.0) fields → check_fields fields ≡ ok tt
unfolding check_fields
check_fields-IsFieldName [] h = refl
check_fields-IsFieldName ((name, v) ∷ fields) h =
    rw (h.0.0, h.0.1) (check_fields-IsFieldName fields h.1)

stored_from-IsFieldName :
    (specs : List FieldSpec) (fields made : Payload)
    → All (λ f. IsFieldName f.name) specs
    → All (λ e. IsFieldName e.0) made
    → All (λ e. IsFieldName e.0) (stored_from specs fields made)
unfolding stored_from
stored_from-IsFieldName [] fields made h k = k
stored_from-IsFieldName (f ∷ specs) fields made h k =
    stored_from-IsFieldName specs fields (insert f.name (stored_value (lookup f.name fields)) made)
      h.1
      (All-insert (λ e. IsFieldName e.0) f.name (stored_value (lookup f.name fields)) made h.0 k)

-- the checks of a record read its payload last
post_init-stored :
    (r : Record) (fields : Payload)
    → IsValid r
    → check_fields fields ≡ ok tt
    → IsValid (record r { fields = fields; id = [] })
unfolding post_init
post_init-stored r fields h k = ground (arith, k)

IsValid-v : (r : Record) → IsValid r → r.v ≡ 1
unfolding post_init
IsValid-v r h =
    let (u, p, q) = >>=-eq-ok (require (r.v == 1) record_error) _ h in
    (==_iff r.v 1).0 (require-eq_ok (r.v == 1) record_error p)

-- what a record must be for a snapshot to hold it
pub record IsStorable (c : DecimalContext) (dataset : Text) (specs : List FieldSpec) (r : Record)
    : Type 0 where
  pub valid : IsValid r
  pub of_dataset : r.dataset ≡ dataset
  pub kept : All (λ f. IsKept c f.type (lookup f.name r.fields)) specs

module _ (c : DecimalContext) (sha256 : Text → Text) (law : ScalesBack c) (schema_hash : Bytes)
    (dataset : Text) (count : ℕ) (specs : List FieldSpec) (d : Dictionaries)
    (named : All (λ f. IsFieldName f.name) specs) (columns : Columns) where
  create-stored :
      (r : Record)
      → IsStorable c dataset specs r
      → create sha256 (record (stored specs r) { dataset = dataset; v = 1 })
        ≡ ok (with_id sha256 (stored specs r))
  unfolding create
  create-stored r s =
      let named_fields = stored_from-IsFieldName specs r.fields [] named tt in
      let checked_fields = check_fields-IsFieldName (stored_from specs r.fields []) named_fields in
      let valid = post_init-stored r (stored_from specs r.fields []) s.valid checked_fields in
      rw (← s.of_dataset, ← IsValid-v r s.valid, valid) refl

  module _ (done : List Record) (r : Record) (todo : List Record) (s : IsStorable c dataset specs r)
      (h : AreColumns c (done ++ r ∷ todo) specs d columns) where
    natural_at :
        (value : Record → ℕ) (column : List ℤ)
        → IsColumn (λ x. ok (pos (value x))) (done ++ r ∷ todo) column
        → natural (at column (length done)) ≡ ok (value r)
    unfolding natural
    natural_at value column e =
        rw (← ok_inj (value_at c law done r todo (λ x. ok (pos (value x))) column e)) refl

    text_at :
        (l : List Text) (value : Record → Text) (column : List ℤ)
        → IsColumn (λ x. index_of l (value x)) (done ++ r ∷ todo) column
        → index_into l (at column (length done)) ≡ ok (value r)
    text_at l value column e =
        index_into-index_of l (value r) _
          (value_at c law done r todo (λ x. index_of l (value x)) column e)

    optional_at :
        (value : Record → Option ℕ) (column : List ℤ)
        → IsColumn (λ x. optional_instant (value x)) (done ++ r ∷ todo) column
        → optional_natural (at column (length done)) ≡ ok (value r)
    optional_at value column e =
        optional_natural-optional_instant (value r) _
          (value_at c law done r todo (λ x. optional_instant (value x)) column e)

    availability_at : availability_of (at columns.availabilities (length done)) ≡ ok r.availability
    availability_at =
        ap availability_of (
          sym (
            ok_inj (
              value_at c law done r todo (λ x. ok (availability_ordinal x.availability)) _
                h.availabilities)))
        ∙ availability_of-availability_ordinal r.availability

    ref_at : optional_ref d.raw_refs (at columns.raw_ref_idxs (length done)) ≡ ok r.raw_ref
    ref_at =
        optional_ref-optional_index d.raw_refs r.raw_ref _
          (value_at c law done r todo (λ x. optional_index d.raw_refs x.raw_ref) _ h.raw_ref_idxs)

    decode_row-stored :
        decode_row c sha256 (header_of schema_hash dataset count specs d) columns (length done)
        ≡ ok (with_id sha256 (stored specs r))
    unfolding decode_row
    decode_row-stored =
        rw
          (
            availability_at,
            ref_at,
            decode_payload-stored_from c law done r todo specs columns.field_columns []
                h.field_columns s.kept,
            text_at d.scopes (λ x. x.scope) _ h.scope_idxs,
            text_at d.keys (λ x. x.key) _ h.key_idxs,
            text_at d.sources (λ x. x.source) _ h.source_idxs,
            text_at d.source_versions (λ x. x.source_version) _ h.source_version_idxs,
            text_at d.parsers (λ x. x.parser) _ h.parser_idxs,
            optional_at (λ x. x.period_start) _ h.period_starts,
            optional_at (λ x. x.period_end) _ h.period_ends,
            natural_at (λ x. x.revision) _ h.revisions,
            natural_at (λ x. x.known_at) _ h.known_ats,
            natural_at (λ x. x.effective_at) _ h.effective_ats,
            natural_at (λ x. x.seq) _ h.seqs,
          )
          (create-stored r s)

  pub decode_rows-stored :
      (done todo : List Record)
      → AreColumns c (done ++ todo) specs d columns
      → All (IsStorable c dataset specs) todo
      → decode_rows c sha256
          (header_of schema_hash dataset count specs d)
          columns
          (length todo)
          (length done)
        ≡ ok (map (λ r. with_id sha256 (stored specs r)) todo)
  unfolding decode_rows
  decode_rows-stored done [] h s = refl
  decode_rows-stored done (r ∷ todo) h s =
      let further : done ++ r ∷ todo ≡ (done ++ r ∷ []) ++ todo =
        sym (append_assoc done (r ∷ []) todo) in
      let passed : length (done ++ r ∷ []) ≡ suc (length done) =
        omega (arith, length-append done (r ∷ [])) in
      rw
        (
          decode_row-stored done r todo s.0 h,
          ← passed,
          decode_rows-stored (done ++ r ∷ []) todo
              (subst (λ l. AreColumns c l specs d columns) further h) s.1,
        )
        refl
