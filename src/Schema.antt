-- ===== src/Schema.antt =====
-- hub/schema.py: the declared fields of a dataset, and `validate_payload`.
use qkt_data_hub.Prelude.{
  ℕ, Bool, true, false, not, ◌&&◌, ◌||◌, Option, none, some, List, [], ◌∷◌, map, Result, ok, err,
  ◌>>=◌, ◌>>◌, Exception, require, schema_error, key_error, keep, length, ltb,
}
use qkt_data_hub.Prelude.Int.{ℤ, pos, negsuc, ltb_ℤ}
use qkt_data_hub.Prelude.Text.{Text, text_eq}
use qkt_data_hub.Prelude.Dict.{Dict, lookup, values, text_key}
use qkt_data_hub.Record.{Value, null, text, bool, int, Payload}
use qkt_data_hub.Record.Json.{show_ℤ}
use qkt_data_hub.Derive.Decimals.{DecimalContext}
pub mod Valid
pub mod Order
pub mod Document
pub mod Load
pub mod Loaded
pub mod WellFormed

pub data FieldType : Type 0 where
  number_type bool_type timestamp_type enum_type string_type : FieldType

pub data NullPolicy : Type 0 where
  forbid allow allow_until_release : NullPolicy

pub record FieldSpec : Type 0 where
  pub name : Text
  pub type : FieldType
  pub unit : Text
  pub values : List Text
  pub null_policy : NullPolicy
  pub derived : Text
  pub strategy : Bool

-- `DatasetSchema`; `range` is what `.items()` gives of `quality["range"]`, its bounds as `str` writes
-- them
pub record DatasetSchema : Type 0 where
  pub name : Text
  pub version : ℤ
  pub scope_kind : Text
  pub key : List Text
  pub fields : Dict Text FieldSpec
  pub title : Text
  pub value_alias : Text
  pub range : Result (Dict Text (Text × Text))
  pub derived_order : List Text

unfoldable pub strategy_fields : DatasetSchema → List FieldSpec
strategy_fields schema = keep (λ f. f.strategy) (values schema.fields)

-- d[k], which raises on a missing key
unfoldable pub or_raise : {A : Type 0} → Exception → Option A → Result A
or_raise e none = err e
or_raise e (some a) = ok a

-- [self.fields[name] for name in names]
unfoldable pub fields_at : Dict Text FieldSpec → List Text → Result (List FieldSpec)
unfolding or_raise
fields_at fields [] = ok []
fields_at fields (name ∷ names) = do
  spec ← or_raise key_error (lookup name fields)
  specs ← fields_at fields names
  ok (spec ∷ specs)

unfoldable pub derived_fields : DatasetSchema → Result (List FieldSpec)
derived_fields schema = fields_at schema.fields schema.derived_order

-- NULL_SENTINEL < n < 2**63
abbrev pub is_storable : ℤ → Bool
is_storable n =
    ltb_ℤ (negsuc 9_223_372_036_854_775_807) n && ltb_ℤ n (pos 9_223_372_036_854_775_808)

-- 0 <= value < len(spec.values)
unfoldable pub is_ordinal : FieldSpec → ℤ → Bool
is_ordinal spec (pos n) = ltb n (length spec.values)
is_ordinal spec (negsuc n) = false

unfoldable pub is_forbidden : NullPolicy → Bool
is_forbidden forbid = true
is_forbidden allow = false
is_forbidden allow_until_release = false

module _ (c : DecimalContext) where
  -- the NUMBER branch on the text of the value: its canonical text, if a snapshot can hold it
  unfoldable pub validate_number : Text → Result Value
  unfolding or_raise
  validate_number s = do
    written ← or_raise schema_error (c.canonical s)
    scaled ← or_raise schema_error (c.units written)
    require (is_storable scaled) schema_error
    ok (text written)

  -- `_validate_field` on a value that is not null
  unfoldable pub validate_typed : FieldSpec → FieldType → Value → Result Value
  unfolding validate_number is_ordinal
  validate_typed spec number_type (text s) = validate_number s
  validate_typed spec number_type (int n) = validate_number (show_ℤ n)
  validate_typed spec bool_type (bool b) = ok (bool b)
  validate_typed spec timestamp_type (int n) = ok (int n)
  validate_typed spec enum_type (int n) = require (is_ordinal spec n) schema_error >> ok (int n)
  validate_typed spec string_type (text s) = ok (text s)
  validate_typed spec _ _ = err schema_error

  unfoldable pub validate_field : FieldSpec → Value → Result Value
  unfolding validate_typed is_forbidden
  validate_field spec null = require (not (is_forbidden spec.null_policy)) schema_error >> ok null
  validate_field spec (text s) = validate_typed spec spec.type (text s)
  validate_field spec (bool b) = validate_typed spec spec.type (bool b)
  validate_field spec (int n) = validate_typed spec spec.type (int n)

  -- the first loop of `validate_payload`
  unfoldable pub validate_fields : DatasetSchema → Payload → Result Payload
  unfolding or_raise validate_field
  validate_fields schema [] = ok []
  validate_fields schema ((name, value) ∷ fields) = do
    spec ← or_raise schema_error (lookup name schema.fields)
    checked ← validate_field spec value
    rest ← validate_fields schema fields
    ok ((name, checked) ∷ rest)

  -- the argument of `Decimal(out[name])`, `none` where the value is null
  unfoldable pub decimal_text : Value → Option Text
  decimal_text null = none
  decimal_text (text s) = some s
  decimal_text (bool true) = some (b'1' ∷ [])
  decimal_text (bool false) = some (b'0' ∷ [])
  decimal_text (int n) = some (show_ℤ n)

  -- num < lo or num > hi raises
  unfoldable pub check_range : Text × Text → Option Text → Result (Unit {0})
  check_range bounds none = ok tt
  check_range bounds (some num) = do
    under ← c.below num bounds.0
    require (not under) schema_error
    over ← c.below bounds.1 num
    require (not over) schema_error

  -- `name in out and out[name] is not None`
  unfoldable pub text_at : Option Value → Option Text
  unfolding decimal_text
  text_at none = none
  text_at (some value) = decimal_text value

  -- the second loop of `validate_payload`
  unfoldable pub check_ranges : Dict Text (Text × Text) → Payload → Result (Unit {0})
  unfolding check_range text_at
  check_ranges [] out = ok tt
  check_ranges ((name, bounds) ∷ range) out =
      check_range bounds (text_at (lookup name out)) >> check_ranges range out

  unfoldable pub validate_payload : DatasetSchema → Payload → Result Payload
  unfolding validate_fields check_ranges
  validate_payload schema fields = do
    out ← validate_fields schema fields
    range ← schema.range
    check_ranges range out
    ok out
