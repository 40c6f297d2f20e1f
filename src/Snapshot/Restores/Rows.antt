-- ===== src/Snapshot/Restores/Rows.antt =====
-- The records that `decode` makes of the columns that `encode` wrote.
use qkt_data_hub.Prelude.{
  ℕ, suc, ◌+◌, ◌≡◌, refl, sym, ap, ◌∙◌, Bool, true, false, Option, none, some, List, [], ◌∷◌, ◌++◌,
  map, Result, ok, >>=-eq-ok, ok_inj, length, get_elem?, All, require, require-eq_ok, store_error,
  Bool-cases, inl, inr, arith,
}
use qkt_data_hub.Prelude.Int.{ℤ, pos, negsuc}
use qkt_data_hub.Prelude.Text.{Text, text_eq, text_eq_iff}
use qkt_data_hub.Prelude.Dict.{insert, lookup, text_key}
use qkt_data_hub.Record.{
  Record, Value, null, text, bool, int, Payload, Availability, observed, published, derived,
}
use qkt_data_hub.Derive.Decimals.{DecimalContext}
use qkt_data_hub.Schema.{
  FieldSpec, FieldType, number_type, bool_type, timestamp_type, enum_type, or_raise, is_storable,
}
use qkt_data_hub.Snapshot.Encode.{
  map_result, index_from, index_of, optional_index, optional_instant, availability_ordinal,
  encode_number, encode_typed, encode_field_value, null_sentinel, scale,
}
use qkt_data_hub.Snapshot.Decode.{same_int}
use qkt_data_hub.Snapshot.Rows.{
  at, index_into, optional_ref, availability_of, optional_natural, natural, decode_field_value,
  decode_payload,
}
use qkt_data_hub.Snapshot.Restores.Header.{column_field}
use qkt_data_hub.Snapshot.Restores.Columns.{IsColumn, AreFieldColumns, field_value}

-- a column holds at the place of a record what was worked out for it
at-map_result :
    {A : Type 0} (f : A → Result ℤ) (done : List A) (x : A) (todo : List A) (column : List ℤ)
    → map_result f (done ++ x ∷ todo) ≡ ok column
    → f x ≡ ok (at column (length done))
unfolding map_result
at-map_result f [] x todo column e =
    let (v, p, q) = >>=-eq-ok (f x) _ e in
    let (vs, r, s) = >>=-eq-ok (map_result f todo) _ q in p ∙ ap (λ l. ok (at l 0)) (ok_inj s)
at-map_result f (y ∷ done) x todo column e =
    let (v, p, q) = >>=-eq-ok (f y) _ e in
    let (vs, r, s) = >>=-eq-ok (map_result f (done ++ x ∷ todo)) _ q in
    at-map_result f done x todo vs r ∙ ap (λ l. ok (at l (suc (length done)))) (ok_inj s)

index_from-get_elem? :
    (l : List Text) (s : Text) (i : ℕ) (v : ℤ)
    → index_from i l s ≡ ok v
    → (k : ℕ) × (v ≡ pos (i + k)) × (get_elem? l k ≡ some s)
unfolding index_from
index_from-get_elem? [] s i v e = cc
index_from-get_elem? (t ∷ l) s i v e = elim (Bool-cases (text_eq t s)) [
  | inl h ↦ (0, sym (ok_inj (rw h at e)) ∙ ap pos (omega arith), ap some ((text_eq_iff t s).0 h))
  | inr h ↦
      let (k, p, q) = index_from-get_elem? l s (suc i) v (rw h at e) in
      (suc k, p ∙ ap pos (omega arith), q)
]

pub index_into-index_of :
    (l : List Text) (s : Text) (v : ℤ) → index_of l s ≡ ok v → index_into l v ≡ ok s
unfolding index_into or_raise
index_into-index_of l s v e =
    let (k, p, q) = index_from-get_elem? l s 0 v e in
    let zero_on : 0 + k ≡ k = omega arith in rw (p, zero_on, q) refl

pub optional_ref-optional_index :
    (l : List Text) (s : Option Text) (v : ℤ) → optional_index l s ≡ ok v → optional_ref l v ≡ ok s
unfolding optional_ref
optional_ref-optional_index l none v e = rw (← ok_inj e) refl
optional_ref-optional_index l (some s) v e =
    let (k, p, q) = index_from-get_elem? l s 0 v e in
    let found = index_into-index_of l s v e in
    let differs : same_int v (negsuc 0) ≡ false = rw p (ground arith) in rw (differs, found) refl

pub availability_of-availability_ordinal :
    (a : Availability) → availability_of (availability_ordinal a) ≡ ok a
unfolding availability_of availability_ordinal or_raise
availability_of-availability_ordinal observed = refl
availability_of-availability_ordinal published = refl
availability_of-availability_ordinal derived = refl

pub optional_natural-optional_instant :
    (t : Option ℕ) (v : ℤ) → optional_instant t ≡ ok v → optional_natural v ≡ ok t
unfolding optional_natural natural
optional_natural-optional_instant none v e = rw (← ok_inj e) refl
optional_natural-optional_instant (some t) v e = rw (← ok_inj e) (ground arith)

-- what a snapshot has of a field that a record may lack
abbrev pub stored_value : Option Value → Value
stored_value none = null
stored_value (some v) = v

-- the payload that a snapshot gives back: the fields of its table, in order
unfoldable pub stored_from : List FieldSpec → Payload → Payload → Payload
stored_from [] fields made = made
stored_from (f ∷ specs) fields made =
    stored_from specs fields (insert f.name (stored_value (lookup f.name fields)) made)

module _ (c : DecimalContext) where
  -- A value that a column holds as it is: a number in canonical form, an integer that is not the one
  -- that stands for null.
  pub data IsKept : FieldType → Option Value → Type 0 where
    absent : {t : FieldType} → IsKept t none
    no_value : {t : FieldType} → IsKept t (some null)
    a_number :
        {s : Text} (written : Text)
        → c.canonical written ≡ some s
        → IsKept number_type (some (text s))
    a_bool : {b : Bool} → IsKept bool_type (some (bool b))
    a_timestamp : {n : ℤ} → same_int n null_sentinel ≡ false → IsKept timestamp_type (some (int n))
    an_ordinal : {n : ℤ} → same_int n null_sentinel ≡ false → IsKept enum_type (some (int n))

  -- A canonical number that is whole at scale 8 is what its scaled integer stands for.
  abbrev pub ScalesBack : Type 0
  ScalesBack =
      (written s : Text) (n : ℤ)
      → c.canonical written ≡ some s
      → c.scaled s ≡ ok n
      → c.scaled_text n scale ≡ ok s

  module _ (law : ScalesBack) where
    number-kept :
        (written s : Text) (v : ℤ)
        → c.canonical written ≡ some s
        → encode_number c s ≡ ok v
        → decode_field_value c scale number_type v ≡ ok (text s)
    unfolding encode_number decode_field_value
    number-kept written s v h e =
        let (n, p, q) = >>=-eq-ok (c.scaled s) _ e in
        let (u, r, w) = >>=-eq-ok (require (is_storable n) store_error) _ q in
        let storable = require-eq_ok (is_storable n) store_error r in
        let differs : same_int n null_sentinel ≡ false = ground arith in
        rw (← ok_inj w, differs, law written s n h p) refl

    decode_field_value-encode_field_value :
        (f : FieldSpec) {t : FieldType} {o : Option Value} (v : ℤ)
        → f.type ≡ t
        → IsKept t o
        → encode_field_value c f o ≡ ok v
        → decode_field_value c scale t v ≡ ok (stored_value o)
    unfolding encode_field_value decode_field_value encode_typed
    decode_field_value-encode_field_value f v same absent e = rw (← ok_inj e) refl
    decode_field_value-encode_field_value f v same no_value e = rw (← ok_inj e) refl
    decode_field_value-encode_field_value f v same (a_number {s} written h) e =
        number-kept written s v h (rw same at e)
    decode_field_value-encode_field_value f v same (a_bool {b = true}) e =
        rw (← ok_inj (rw same at e)) refl
    decode_field_value-encode_field_value f v same (a_bool {b = false}) e =
        rw (← ok_inj (rw same at e)) refl
    decode_field_value-encode_field_value f v same (a_timestamp h) e =
        rw (← ok_inj (rw same at e), h) refl
    decode_field_value-encode_field_value f v same (an_ordinal h) e =
        rw (← ok_inj (rw same at e), h) refl

    module _ (done : List Record) (r : Record) (todo : List Record) where
      abbrev pub records : List Record
      records = done ++ r ∷ todo

      pub value_at :
          (value : Record → Result ℤ) (column : List ℤ)
          → IsColumn value records column
          → value r ≡ ok (at column (length done))
      value_at value column = at-map_result value done r todo column

      pub decode_payload-stored_from :
          (specs : List FieldSpec) (columns : List (List ℤ)) (made : Payload)
          → AreFieldColumns c records specs columns
          → All (λ f. IsKept f.type (lookup f.name r.fields)) specs
          → decode_payload c scale (map column_field specs) columns (length done) made
            ≡ ok (stored_from specs r.fields made)
      unfolding decode_payload stored_from
      decode_payload-stored_from [] [] made h k = refl
      decode_payload-stored_from [] (vs ∷ columns) made h k = absurd h
      decode_payload-stored_from (f ∷ specs) [] made h k = absurd h
      decode_payload-stored_from (f ∷ specs) (vs ∷ columns) made h k =
          let encoded = value_at (field_value c records f) vs h.0 in
          rw (decode_field_value-encode_field_value f (at vs (length done)) refl k.0 encoded)
            (decode_payload-stored_from specs columns _ h.1 k.1)
