-- ===== src/Schema/Load/Fields.antt =====
-- The keys that hub/schema.py knows, and `_load_field_spec`. `lower` is Python's `str.lower`.
use qkt_data_hub.Prelude.{
  Bool, true, false, not, ◌&&◌, Option, none, some, List, [], ◌∷◌, Result, ok, err, ◌>>=◌, ◌>>◌,
  require, schema_error, type_error, if◌then◌else◌,
}
use qkt_data_hub.Prelude.Text.{Text, codes, text_eq}
use qkt_data_hub.Prelude.Dict.{Dict, lookup, insert, text_key}
use qkt_data_hub.Record.Names.{elem, matches_field_name, reserved_field_names}
use qkt_data_hub.Derive.Calls.{reserved_expression_names}
use qkt_data_hub.Schema.{
  FieldType, number_type, bool_type, timestamp_type, enum_type, string_type, NullPolicy, forbid,
  allow, allow_until_release, FieldSpec, or_raise,
}
use qkt_data_hub.Schema.Order.{keys_of}
use qkt_data_hub.Schema.Document.{
  Doc, string, sequence, mapping, nil, items, is_true, require_mapping, string_or, bool_or,
}

-- `_TOP_LEVEL_KEYS`
abbrev pub top_level_keys : List Text
top_level_keys =
    codes "dataset"
    ∷ codes "version"
    ∷ codes "title"
    ∷ codes "scope_kind"
    ∷ codes "key"
    ∷ codes "fields"
    ∷ codes "quality"
    ∷ codes "value_alias"
    ∷ codes "collector"
    ∷ codes "retention"
    ∷ []

-- `_FIELD_KEYS`
abbrev pub field_keys : List Text
field_keys =
    codes "type"
    ∷ codes "unit"
    ∷ codes "values"
    ∷ codes "null_policy"
    ∷ codes "derived"
    ∷ codes "strategy"
    ∷ []

-- `_QUALITY_KEYS`
abbrev pub quality_keys : List Text
quality_keys = codes "range" ∷ []

-- `_SCOPE_KINDS`
abbrev pub scope_kinds : List Text
scope_kinds =
    codes "currency" ∷ codes "instrument" ∷ codes "issuer" ∷ codes "region" ∷ codes "all" ∷ []

-- `_ENVELOPE_KEY_NAMES`
abbrev pub envelope_key_names : List Text
envelope_key_names =
    codes "scope" ∷ codes "period_start" ∷ codes "period_end" ∷ codes "effective_at" ∷ []

-- all(p(s) for s in texts)
abbrev pub every : (Text → Bool) → List Text → Bool
every p [] = true
every p (s ∷ l) = p s && every p l

-- `_reject_unknown_keys`
unfoldable pub reject_unknown_keys : Dict Text Doc → List Text → Result (Unit {0})
reject_unknown_keys d allowed = require (every (λ k. elem k allowed) (keys_of d)) schema_error

-- FieldType(raw)
unfoldable pub field_type_of : Doc → Result FieldType
field_type_of (string s) =
    if text_eq s (codes "number")
    then ok number_type
    else if text_eq s (codes "bool")
    then ok bool_type
    else if text_eq s (codes "timestamp")
    then ok timestamp_type
    else if text_eq s (codes "enum")
    then ok enum_type
    else if text_eq s (codes "string")
    then ok string_type
    else err schema_error
field_type_of _ = err schema_error

-- Membership in a frozenset of strings: a list or a mapping has no hash.
unfoldable pub member_of : List Text → Doc → Result Text
member_of allowed (string s) = require (elem s allowed) schema_error >> ok s
member_of allowed (sequence ds) = err type_error
member_of allowed (mapping es) = err type_error
member_of allowed _ = err schema_error

policy_of : Text → NullPolicy
policy_of s =
    if text_eq s (codes "forbid")
    then forbid
    else if text_eq s (codes "allow")
    then allow
    else allow_until_release

-- `_NULL_POLICIES`
abbrev pub null_policies : List Text
null_policies = codes "forbid" ∷ codes "allow" ∷ codes "allow_until_release" ∷ []

unfoldable pub null_policy_of : Option Doc → Result NullPolicy
unfolding member_of policy_of
null_policy_of none = ok forbid
null_policy_of (some d) = do s ← member_of null_policies d; ok (policy_of s)

-- a list of strings, or none where an entry is no string
unfoldable pub strings_of : List Doc → Option (List Text)
strings_of [] = some []
strings_of (string s ∷ ds) = elim (strings_of ds) [ none ↦ none | some l ↦ some (s ∷ l) ]
strings_of (_ ∷ ds) = none

-- len(set(l)) == len(l)
abbrev pub all_unique : List Text → Bool
all_unique [] = true
all_unique (s ∷ l) = not (elem s l) && all_unique l

abbrev pub not_none : List Doc → Bool
not_none [] = false
not_none (d ∷ ds) = true

-- an optional list: what is no list is refused
unfoldable pub require_list : Doc → Result (List Doc)
require_list (sequence ds) = ok (items ds)
require_list _ = err schema_error

module _ (lower : Text → Text) where
  -- the labels of an enum
  unfoldable pub enum_values : Doc → Result (List Text)
  unfolding require_list strings_of
  enum_values raw = do
    ds ← require_list raw
    require (not_none ds) schema_error
    labels ← or_raise schema_error (strings_of ds)
    require (every (λ v. text_eq (lower v) v) labels) schema_error
    require (all_unique labels) schema_error
    ok labels

  -- values that are given to another type than an enum
  abbrev pub no_values : Doc → Result (List Text)
  no_values raw = require (not (is_true raw)) schema_error >> ok []

  abbrev pub values_or_empty : Option Doc → Doc
  values_or_empty none = sequence nil
  values_or_empty (some d) = d

  unfoldable pub values_of : FieldType → Doc → Result (List Text)
  unfolding enum_values
  values_of enum_type raw = enum_values raw
  values_of _ raw = no_values raw

  -- `_load_field_spec`
  unfoldable pub load_field_spec : Text → Doc → Result FieldSpec
  unfolding reject_unknown_keys field_type_of values_of null_policy_of or_raise
  load_field_spec name raw = do
    spec ← require_mapping raw
    reject_unknown_keys spec field_keys
    raw_type ← or_raise schema_error (lookup (codes "type") spec)
    type ← field_type_of raw_type
    unit ← string_or [] (lookup (codes "unit") spec)
    labels ← values_of type (values_or_empty (lookup (codes "values") spec))
    null_policy ← null_policy_of (lookup (codes "null_policy") spec)
    derived ← string_or [] (lookup (codes "derived") spec)
    strategy ← bool_or true (lookup (codes "strategy") spec)
    ok (record {
      name = name;
      type = type;
      unit = unit;
      values = labels;
      null_policy = null_policy;
      derived = derived;
      strategy = strategy;
    })

  -- the loop over the declared fields, with those loaded so far
  unfoldable pub load_fields : Dict Text Doc → Dict Text FieldSpec → Result (Dict Text FieldSpec)
  unfolding load_field_spec
  load_fields [] fields = ok fields
  load_fields ((name, raw) ∷ rest) fields = do
    require (matches_field_name name) schema_error
    require (not (elem name reserved_field_names)) schema_error
    require (not (elem name reserved_expression_names)) schema_error
    spec ← load_field_spec name raw
    load_fields rest (insert name spec fields)
