-- ===== src/Schema/Loaded.antt =====
-- What `load_schema` of hub/schema.py guarantees of a schema that it returns.
use qkt_data_hub.Prelude.{
  ◌≡◌, ◌≢◌, refl, sym, some, inl, inr, Option-cases, Bool, true, false, not, ◌||◌, List, [], ◌∷◌,
  ok, >>=-eq-ok, require-eq_ok, ok_inj, require, schema_error, All, arith,
}
use mathlib.Core.Path.{subst}
use qkt_data_hub.Prelude.Text.{Text, codes, text_eq}
use qkt_data_hub.Prelude.Dict.{Dict, lookup, insert, values, All-insert, text_key}
use qkt_data_hub.Record.Names.{elem, matches_field_name, reserved_field_names}
use qkt_data_hub.Derive.Decimals.{DecimalContext}
use qkt_data_hub.Derive.Calls.{reserved_expression_names}
use qkt_data_hub.Schema.{
  FieldType, number_type, bool_type, timestamp_type, enum_type, string_type, FieldSpec, or_raise,
}
use qkt_data_hub.Schema.Valid.{or_raise-eq_ok}
use qkt_data_hub.Schema.Order.{
  keys_of, has_expression, Dependencies, dependencies_of, derived_order,
}
use qkt_data_hub.Schema.Order.Sorted.{order_of-IsTopological}
use qkt_data_hub.Schema.Order.Settled.{IsOrder}
use qkt_data_hub.Schema.Document.{
  Doc, null, bool, int, float, string, sequence, mapping, require_mapping, string_or, bool_or,
  is_true,
}
use qkt_data_hub.Schema.Load.{
  reject_unknown_keys, field_keys, field_type_of, enum_values, values_of, null_policy_of,
  load_field_spec, load_fields, every, all_unique, check_key, load_key, require_list, strings_of,
  envelope_key_names, not_none, no_values,
}

-- An enum has labels, one at least, each once and in lower case; no other type has any.
abbrev pub HasLabels : (Text → Text) → FieldType → List Text → Type 0
HasLabels lower enum_type labels =
    (labels ≢ []) × (all_unique labels ≡ true) × (every (λ v. text_eq (lower v) v) labels ≡ true)
HasLabels lower _ labels = labels ≡ []

-- A declared field, under its own name, which neither the envelope nor an expression function has.
pub record IsDeclaredWell (lower : Text → Text) (e : Text × FieldSpec) : Type 0 where
  pub named : e.0 ≡ e.1.name
  pub field_name : matches_field_name e.0 ≡ true
  pub not_envelope : elem e.0 reserved_field_names ≡ false
  pub not_function : elem e.0 reserved_expression_names ≡ false
  pub labelled : HasLabels lower e.1.type e.1.values

eq_false-not : (b : Bool) → not b ≡ true → b ≡ false
eq_false-not b h = ground arith

-- the labels of a list that has an entry
strings_of-not_none :
    (ds : List Doc) (found : List Text)
    → not_none ds ≡ true
    → strings_of ds ≡ some found
    → found ≢ []
unfolding strings_of
strings_of-not_none [] found h e = cc
strings_of-not_none (string s ∷ ds) found h e = elim (Option-cases (strings_of ds)) [
  | inl missing ↦ cc (rw missing at e)
  | inr (l, there) ↦ let same : some (s ∷ l) ≡ some found = rw there at e in λ none_found. cc
]
strings_of-not_none (null ∷ ds) found h e = cc
strings_of-not_none (bool b ∷ ds) found h e = cc
strings_of-not_none (int n ∷ ds) found h e = cc
strings_of-not_none (float t b ∷ ds) found h e = cc
strings_of-not_none (sequence l ∷ ds) found h e = cc
strings_of-not_none (mapping m ∷ ds) found h e = cc

module _ (lower : Text → Text) where
  no_labels : (raw : Doc) (labels : List Text) → no_values lower raw ≡ ok labels → labels ≡ []
  no_labels raw labels h =
      let (u, a, h) = >>=-eq-ok (require (not (is_true raw)) schema_error) _ h in sym (ok_inj h)

  values_of-HasLabels :
      (t : FieldType) (raw : Doc) (labels : List Text)
      → values_of lower t raw ≡ ok labels
      → HasLabels lower t labels
  unfolding values_of enum_values
  values_of-HasLabels enum_type raw labels h =
      let (ds, a, h) = >>=-eq-ok (require_list raw) _ h in
      let (u, b, h) = >>=-eq-ok (require (not_none ds) schema_error) _ h in
      let (found, d, h) = >>=-eq-ok (or_raise schema_error (strings_of ds)) _ h in
      let (v, e, h) =
        >>=-eq-ok (require (every (λ s. text_eq (lower s) s) found) schema_error) _ h in
      let (w, f, h) = >>=-eq-ok (require (all_unique found) schema_error) _ h in
      subst (λ l. HasLabels lower enum_type l) (ok_inj h)
        (
          strings_of-not_none ds found (require-eq_ok (not_none ds) schema_error b)
              (or_raise-eq_ok schema_error (strings_of ds) d),
          require-eq_ok _ schema_error f,
          require-eq_ok _ schema_error e,
        )
  values_of-HasLabels number_type raw labels h = no_labels raw labels h
  values_of-HasLabels bool_type raw labels h = no_labels raw labels h
  values_of-HasLabels timestamp_type raw labels h = no_labels raw labels h
  values_of-HasLabels string_type raw labels h = no_labels raw labels h

  load_field_spec-labelled :
      (name : Text) (raw : Doc) (spec : FieldSpec)
      → load_field_spec lower name raw ≡ ok spec
      → (name ≡ spec.name) × HasLabels lower spec.type spec.values
  unfolding load_field_spec
  load_field_spec-labelled name raw spec h =
      let (d, a, h) = >>=-eq-ok (require_mapping raw) _ h in
      let (u, b, h) = >>=-eq-ok (reject_unknown_keys d field_keys) _ h in
      let (raw_type, e, h) = >>=-eq-ok (or_raise schema_error (lookup (codes "type") d)) _ h in
      let (type, f, h) = >>=-eq-ok (field_type_of raw_type) _ h in
      let (unit, g, h) = >>=-eq-ok (string_or [] (lookup (codes "unit") d)) _ h in
      let (labels, k, h) = >>=-eq-ok (values_of lower type _) _ h in
      let (policy, l, h) = >>=-eq-ok (null_policy_of (lookup (codes "null_policy") d)) _ h in
      let (derived, m, h) = >>=-eq-ok (string_or [] (lookup (codes "derived") d)) _ h in
      let (strategy, n, h) = >>=-eq-ok (bool_or true (lookup (codes "strategy") d)) _ h in
      subst (λ s. (name ≡ s.name) × HasLabels lower s.type s.values) (ok_inj h)
        (refl, values_of-HasLabels type _ labels k)

  pub load_fields-IsDeclaredWell :
      (declared : Dict Text Doc) (made fields : Dict Text FieldSpec)
      → load_fields lower declared made ≡ ok fields
      → All (IsDeclaredWell lower) made
      → All (IsDeclaredWell lower) fields
  unfolding load_fields
  load_fields-IsDeclaredWell [] made fields h k = subst (All (IsDeclaredWell lower)) (ok_inj h) k
  load_fields-IsDeclaredWell ((name, raw) ∷ rest) made fields h k =
      let (u, a, h) = >>=-eq-ok (require (matches_field_name name) schema_error) _ h in
      let (v, b, h) = >>=-eq-ok (require (not (elem name reserved_field_names)) schema_error) _ h in
      let (w, d, h) =
        >>=-eq-ok (require (not (elem name reserved_expression_names)) schema_error) _ h in
      let (spec, e, h) = >>=-eq-ok (load_field_spec lower name raw) _ h in
      let (named, labelled) = load_field_spec-labelled name raw spec e in
      let not_envelope = require-eq_ok (not (elem name reserved_field_names)) schema_error b in
      let not_function = require-eq_ok (not (elem name reserved_expression_names)) schema_error d in
      let well : IsDeclaredWell lower (name, spec) = record {
        named = named;
        field_name = require-eq_ok (matches_field_name name) schema_error a;
        not_envelope = eq_false-not (elem name reserved_field_names) not_envelope;
        not_function = eq_false-not (elem name reserved_expression_names) not_function;
        labelled = labelled;
      } in
      load_fields-IsDeclaredWell rest (insert name spec made) fields h
        (All-insert (IsDeclaredWell lower) name spec made well k)

-- a name that may stand in the key of a dataset
abbrev pub IsKeyName : Dict Text FieldSpec → Text → Type 0
IsKeyName fields k =
    ((elem k (keys_of fields) || elem k envelope_key_names) ≡ true)
    × (has_expression (lookup k fields) ≡ false)

check_key-IsKeyName :
    (fields : Dict Text FieldSpec) (ks : List Text)
    → check_key fields ks ≡ ok tt
    → All (IsKeyName fields) ks
unfolding check_key
check_key-IsKeyName fields [] h = tt
check_key-IsKeyName fields (k ∷ ks) h =
    let declared = elem k (keys_of fields) || elem k envelope_key_names in
    let (u, a, h) = >>=-eq-ok (require declared schema_error) _ h in
    let (v, b, h) = >>=-eq-ok (require (not (has_expression (lookup k fields))) schema_error) _ h in
    let not_derived = require-eq_ok (not (has_expression (lookup k fields))) schema_error b in
    (
      (require-eq_ok declared schema_error a, eq_false-not _ not_derived),
      check_key-IsKeyName fields ks h,
    )

pub load_key-IsKeyName :
    (fields : Dict Text FieldSpec) (raw : Doc) (key : List Text)
    → load_key fields raw ≡ ok key
    → All (IsKeyName fields) key
unfolding load_key
load_key-IsKeyName fields raw key h =
    let (ds, a, h) = >>=-eq-ok (require_list raw) _ h in
    let (u, b, h) = >>=-eq-ok (require (not_none ds) schema_error) _ h in
    let (names, d, h) = >>=-eq-ok (or_raise schema_error (strings_of ds)) _ h in
    let (v, e, h) = >>=-eq-ok (check_key fields names) _ h in
    subst (All (IsKeyName fields)) (ok_inj h) (check_key-IsKeyName fields names e)

pub derived_order-IsOrder :
    (c : DecimalContext) (fields : Dict Text FieldSpec) (order : List Text)
    → derived_order c fields ≡ ok order
    → (deps : Dependencies) × (dependencies_of c fields (values fields) ≡ ok deps)
      × IsOrder deps order
unfolding derived_order
derived_order-IsOrder c fields order h =
    let (deps, a, h) = >>=-eq-ok (dependencies_of c fields (values fields)) _ h in
    (deps, a, order_of-IsTopological deps order h)
