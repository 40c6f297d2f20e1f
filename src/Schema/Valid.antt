-- ===== src/Schema/Valid.antt =====
-- `validate_payload` of hub/schema.py: what it lets through.
use qkt_data_hub.Prelude.{
  ◌≡◌, refl, Bool, true, false, not, Option, none, some, [], ◌∷◌, map, ok, err, err_inj, All,
  Exception, schema_error, arith, ap, Yields, Yields-at, Yields-bind, Yields-require,
}
use qkt_data_hub.Prelude.Int.{ℤ}
use qkt_data_hub.Prelude.Text.{Text}
use qkt_data_hub.Prelude.Dict.{lookup, text_key}
use qkt_data_hub.Record.{Value, null, text, bool, int, Payload}
use qkt_data_hub.Record.Json.{show_ℤ}
use qkt_data_hub.Derive.Decimals.{DecimalContext}
use qkt_data_hub.Schema.{
  FieldSpec, FieldType, number_type, bool_type, timestamp_type, enum_type, string_type,
  DatasetSchema, or_raise, is_storable, is_ordinal, is_forbidden, validate_number, validate_typed,
  validate_field, validate_fields, validate_payload, check_ranges,
}

pub or_raise-eq_ok :
    {A : Type 0} (e : Exception) (o : Option A) {a : A} → or_raise e o ≡ ok a → o ≡ some a
unfolding or_raise
or_raise-eq_ok e none h = cc
or_raise-eq_ok e (some b) h = cc

pub or_raise-eq_err :
    {A : Type 0} (e : Exception) (o : Option A) {d : Exception}
    → or_raise e o ≡ err d
    → (o ≡ none) × (e ≡ d)
unfolding or_raise
or_raise-eq_err e none h = (refl, err_inj h)
or_raise-eq_err e (some b) h = cc

module _ (c : DecimalContext) where
  -- A value that a field of this type may hold in the store. A number is text in its canonical
  -- form and fits the 64-bit column of a snapshot.
  pub data Fits (spec : FieldSpec) : FieldType → Value → Type 0 where
    no_value : {type : FieldType} → is_forbidden spec.null_policy ≡ false → Fits spec type null
    a_number :
        {s : Text} (written : Text) (n : ℤ)
        → c.canonical written ≡ some s
        → c.units s ≡ some n
        → is_storable n ≡ true
        → Fits spec number_type (text s)
    a_bool : {b : Bool} → Fits spec bool_type (bool b)
    a_timestamp : {n : ℤ} → Fits spec timestamp_type (int n)
    an_ordinal : {n : ℤ} → is_ordinal spec n ≡ true → Fits spec enum_type (int n)
    a_string : {s : Text} → Fits spec string_type (text s)

  -- an entry of a payload under a declared name
  abbrev pub IsDeclared : DatasetSchema → Text × Value → Type 0
  IsDeclared schema e =
      (spec : FieldSpec) × (lookup e.0 schema.fields ≡ some spec) × (Fits spec spec.type e.1)

  validate_number-Fits :
      (spec : FieldSpec) (s : Text) → Yields (Fits spec number_type) (validate_number c s)
  unfolding validate_number
  validate_number-Fits spec s =
      Yields-bind (Fits spec number_type) (or_raise schema_error (c.canonical s)) _ λ written p.
        Yields-bind (Fits spec number_type) (or_raise schema_error (c.units written)) _ λ n q.
          Yields-require (Fits spec number_type) (is_storable n) _ (ok (text written))
            (a_number s n (or_raise-eq_ok schema_error _ p) (or_raise-eq_ok schema_error _ q))

  validate_typed-Fits :
      (spec : FieldSpec) (type : FieldType) (v : Value)
      → Yields (Fits spec type) (validate_typed c spec type v)
  unfolding validate_typed
  validate_typed-Fits spec number_type null = tt
  validate_typed-Fits spec number_type (bool b) = tt
  validate_typed-Fits spec number_type (text s) = validate_number-Fits spec s
  validate_typed-Fits spec number_type (int n) = validate_number-Fits spec (show_ℤ n)
  validate_typed-Fits spec bool_type (bool b) = a_bool
  validate_typed-Fits spec bool_type null = tt
  validate_typed-Fits spec bool_type (text s) = tt
  validate_typed-Fits spec bool_type (int n) = tt
  validate_typed-Fits spec timestamp_type (int n) = a_timestamp
  validate_typed-Fits spec timestamp_type null = tt
  validate_typed-Fits spec timestamp_type (text s) = tt
  validate_typed-Fits spec timestamp_type (bool b) = tt
  validate_typed-Fits spec enum_type (int n) =
      Yields-require (Fits spec enum_type) (is_ordinal spec n) _ (ok (int n)) an_ordinal
  validate_typed-Fits spec enum_type null = tt
  validate_typed-Fits spec enum_type (text s) = tt
  validate_typed-Fits spec enum_type (bool b) = tt
  validate_typed-Fits spec string_type (text s) = a_string
  validate_typed-Fits spec string_type null = tt
  validate_typed-Fits spec string_type (int n) = tt
  validate_typed-Fits spec string_type (bool b) = tt

  not_forbidden : (b : Bool) → not b ≡ true → b ≡ false
  not_forbidden b h = ground arith

  validate_field-Fits :
      (spec : FieldSpec) (v : Value) → Yields (Fits spec spec.type) (validate_field c spec v)
  unfolding validate_field
  validate_field-Fits spec null =
      Yields-require (Fits spec spec.type) (not (is_forbidden spec.null_policy)) _ (ok null)
        λ p. no_value (not_forbidden _ p)
  validate_field-Fits spec (text s) = validate_typed-Fits spec spec.type (text s)
  validate_field-Fits spec (bool b) = validate_typed-Fits spec spec.type (bool b)
  validate_field-Fits spec (int n) = validate_typed-Fits spec spec.type (int n)

  -- the names stay, and every value fits
  abbrev Checks : DatasetSchema → Payload → Payload → Type 0
  Checks schema fields out =
      (map (λ e. e.0) out ≡ map (λ e. e.0) fields) × All (IsDeclared schema) out

  validate_fields-Checks :
      (schema : DatasetSchema) (fields : Payload)
      → Yields (Checks schema fields) (validate_fields c schema fields)
  unfolding validate_fields
  validate_fields-Checks schema [] = (refl, tt)
  validate_fields-Checks schema ((name, value) ∷ fields) =
      let goal = Checks schema ((name, value) ∷ fields) in
      Yields-bind goal (or_raise schema_error (lookup name schema.fields)) _ λ spec p.
        Yields-bind goal (validate_field c spec value) _ λ checked q.
          Yields-bind goal (validate_fields c schema fields) _ λ rest r.
            let fits = Yields-at (Fits spec spec.type) _ (validate_field-Fits spec value) q in
            let rests =
              Yields-at (Checks schema fields) _ (validate_fields-Checks schema fields) r in
            (
              ap (λ names. name ∷ names) rests.0,
              ((spec, or_raise-eq_ok schema_error _ p, fits), rests.1),
            )

  -- A payload that is accepted has the field names that were given, in their order, each declared,
  -- and every value fits its declared type: a number is canonical and storable, an ordinal is in
  -- range, and a null stands only where the schema allows one.
  pub validate_payload-IsDeclared :
      (schema : DatasetSchema) (fields out : Payload)
      → validate_payload c schema fields ≡ ok out
      → (map (λ e. e.0) out ≡ map (λ e. e.0) fields) × All (IsDeclared schema) out
  unfolding validate_payload
  validate_payload-IsDeclared schema fields out h =
      Yields-at (Checks schema fields) (validate_payload c schema fields)
        (Yields-bind (Checks schema fields) (validate_fields c schema fields) _ λ checked p.
          Yields-bind (Checks schema fields) schema.range _ λ range r.
            Yields-bind (Checks schema fields) (check_ranges c range checked) (λ u. ok checked)
              λ u q. Yields-at (Checks schema fields) _ (validate_fields-Checks schema fields) p)
        h
