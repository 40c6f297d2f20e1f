-- ===== src/Schema/Load.antt =====
-- `load_schema` and `_load_field_spec` of hub/schema.py, on a document that hub/simpleyaml.py has read.
pub mod Fields
use qkt_data_hub.Prelude.{
  Bool, true, false, not, ◌&&◌, ◌||◌, Option, none, some, List, [], ◌∷◌, Result, ok, err, ◌>>=◌,
  ◌>>◌, require, schema_error, type_error, attribute_error, if◌then◌else◌,
}
use qkt_data_hub.Prelude.Int.{ℤ}
use qkt_data_hub.Prelude.Text.{Text, codes, text_eq}
use qkt_data_hub.Prelude.Dict.{Dict, lookup, insert, text_key}
use qkt_data_hub.Record.Names.{elem, matches_field_name, reserved_field_names, domain, domains}
use qkt_data_hub.Record.Checks.{not_empty}
use qkt_data_hub.Record.Json.{show_ℤ}
use qkt_data_hub.Derive.Decimals.{DecimalContext}
use qkt_data_hub.Derive.Calls.{reserved_expression_names}
use qkt_data_hub.Schema.{
  FieldType, number_type, bool_type, timestamp_type, enum_type, string_type, NullPolicy, forbid,
  allow, allow_until_release, FieldSpec, DatasetSchema, or_raise,
}
use qkt_data_hub.Schema.Order.{keys_of, derived_order, has_expression}
use qkt_data_hub.Schema.Document.{
  Doc, null, bool, int, float, string, sequence, mapping, nil, cons, items, is_true,
  require_mapping, string_or, require_string, bool_or,
}
pub use qkt_data_hub.Schema.Load.Fields.{
  top_level_keys, field_keys, quality_keys, scope_kinds, envelope_key_names, every, null_policies,
  all_unique, not_none, no_values, values_or_empty,
}
unfoldable pub use qkt_data_hub.Schema.Load.Fields.{
  reject_unknown_keys, field_type_of, member_of, null_policy_of, strings_of, require_list,
  enum_values, values_of, load_field_spec, load_fields,
}

-- the loop over the names of `key`
unfoldable pub check_key : Dict Text FieldSpec → List Text → Result (Unit {0})
check_key fields [] = ok tt
check_key fields (k ∷ ks) = do
  require (elem k (keys_of fields) || elem k envelope_key_names) schema_error
  require (not (has_expression (lookup k fields))) schema_error
  check_key fields ks

unfoldable pub load_key : Dict Text FieldSpec → Doc → Result (List Text)
unfolding require_list strings_of check_key
load_key fields raw = do
  ds ← require_list raw
  require (not_none ds) schema_error
  names ← or_raise schema_error (strings_of ds)
  check_key fields names
  ok names

-- str(d), as `Decimal` is given it; it refuses the text of a list or a mapping whatever it holds
abbrev pub str_of : Doc → Text
str_of null = codes "None"
str_of (bool true) = codes "True"
str_of (bool false) = codes "False"
str_of (int n) = show_ℤ n
str_of (float s is_zero) = s
str_of (string s) = s
str_of (sequence ds) = codes "[]"
str_of (mapping es) = codes "{}"

-- [lo, hi]
unfoldable pub bounds_from : Doc → Result (Text × Text)
bounds_from (sequence (cons lo (cons hi nil))) = ok (str_of lo, str_of hi)
bounds_from _ = err schema_error

unfoldable pub load_bounds : List Text → Dict Text Doc → Result (Dict Text (Text × Text))
unfolding bounds_from
load_bounds declared [] = ok []
load_bounds declared ((name, raw) ∷ rest) = do
  require (elem name declared) schema_error
  bounds ← bounds_from raw
  others ← load_bounds declared rest
  ok ((name, bounds) ∷ others)

-- A falsy range is not looked at: `validate_payload` then asks it for its items.
abbrev pub items_of_falsy : Doc → Result (Dict Text (Text × Text))
items_of_falsy (mapping es) = ok []
items_of_falsy _ = err attribute_error

unfoldable pub load_range : List Text → Option Doc → Result (Result (Dict Text (Text × Text)))
unfolding load_bounds
load_range declared none = ok (ok [])
load_range declared (some raw) =
    let checked : Result (Result (Dict Text (Text × Text))) = (do
      d ← require_mapping raw
      bounds ← load_bounds declared d
      ok (ok bounds)) in
    if is_true raw then checked else ok (items_of_falsy raw)

abbrev pub require_int : Doc → Result ℤ
require_int (int n) = ok n
require_int _ = err schema_error

abbrev pub mapping_or_empty : Option Doc → Result (Dict Text Doc)
mapping_or_empty none = ok []
mapping_or_empty (some d) = require_mapping d

-- every required key is there
abbrev pub has_all : Dict Text Doc → Bool
has_all doc =
    every (λ k. elem k (keys_of doc))
      (codes "dataset"
        ∷ codes "version"
        ∷ codes "title"
        ∷ codes "scope_kind"
        ∷ codes "key"
        ∷ codes "fields"
        ∷ [])

-- doc[k]
abbrev pub at_key : Text → Dict Text Doc → Result Doc
at_key k doc = or_raise schema_error (lookup k doc)

-- `load_schema`
unfoldable pub load_schema : DecimalContext → (Text → Text) → Doc → Result DatasetSchema
unfolding reject_unknown_keys member_of load_fields load_key load_range derived_order or_raise
load_schema c lower raw = do
  doc ← require_mapping raw
  reject_unknown_keys doc top_level_keys
  require (has_all doc) schema_error
  raw_name ← at_key (codes "dataset") doc
  name ← require_string raw_name
  require (not_empty name) schema_error
  require (elem (domain name) domains) schema_error
  raw_version ← at_key (codes "version") doc
  version ← require_int raw_version
  raw_title ← at_key (codes "title") doc
  title ← require_string raw_title
  raw_kind ← at_key (codes "scope_kind") doc
  scope_kind ← member_of scope_kinds raw_kind
  raw_fields ← at_key (codes "fields") doc
  declared ← require_mapping raw_fields
  fields ← load_fields lower declared []
  order ← derived_order c fields
  raw_key ← at_key (codes "key") doc
  key ← load_key fields raw_key
  quality ← mapping_or_empty (lookup (codes "quality") doc)
  reject_unknown_keys quality quality_keys
  range ← load_range (keys_of fields) (lookup (codes "range") quality)
  alias ← string_or [] (lookup (codes "value_alias") doc)
  require (not (not_empty alias) || elem alias (keys_of fields)) schema_error
  ok (record {
    name = name;
    version = version;
    scope_kind = scope_kind;
    key = key;
    fields = fields;
    title = title;
    value_alias = alias;
    range = range;
    derived_order = order;
  })
