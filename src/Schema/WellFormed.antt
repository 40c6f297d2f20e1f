-- ===== src/Schema/WellFormed.antt =====
-- `load_schema` of hub/schema.py: the promise of a loaded schema.
use qkt_data_hub.Prelude.{
  ◌≡◌, true, not, ◌||◌, [], ok, Yields-at, Yields-bind, require-eq_ok, require, schema_error, All,
}
use qkt_data_hub.Prelude.Text.{Text, codes}
use qkt_data_hub.Prelude.Dict.{lookup, values, text_key}
use qkt_data_hub.Record.Names.{elem, domain, domains}
use qkt_data_hub.Record.Checks.{not_empty}
use qkt_data_hub.Derive.Decimals.{DecimalContext}
use qkt_data_hub.Schema.{DatasetSchema}
use qkt_data_hub.Schema.Order.{keys_of, Dependencies, dependencies_of, derived_order}
use qkt_data_hub.Schema.Order.Settled.{IsOrder}
use qkt_data_hub.Schema.Document.{Doc, require_mapping, string_or, require_string}
use qkt_data_hub.Schema.Load.{
  reject_unknown_keys, load_fields, load_key, load_schema, at_key, top_level_keys, has_all,
  require_int, member_of, scope_kinds, mapping_or_empty, quality_keys, load_range,
}
use qkt_data_hub.Schema.Loaded.{
  IsDeclaredWell, IsKeyName, load_fields-IsDeclaredWell, load_key-IsKeyName, derived_order-IsOrder,
}

-- What `load_schema` promises to every other part of the hub.
pub record IsWellFormed (c : DecimalContext) (lower : Text → Text) (schema : DatasetSchema)
    : Type 0 where
  pub domain_known : elem (domain schema.name) domains ≡ true
  pub fields_declared : All (IsDeclaredWell lower) schema.fields
  pub key_declared : All (IsKeyName schema.fields) schema.key
  pub ordered :
      (deps : Dependencies) × (dependencies_of c schema.fields (values schema.fields) ≡ ok deps)
      × IsOrder deps schema.derived_order
  pub alias_declared :
      (not (not_empty schema.value_alias) || elem schema.value_alias (keys_of schema.fields)) ≡ true

-- Every schema that `load_schema` returns has a known domain and at least the promises of a field: a
-- name of its own that neither the envelope nor a function takes, labels exactly where it is an enum,
-- there at least one, each once and in lower case.
-- Its key names declared fields or envelope entries, none of them derived, its derived fields are in an
-- order that puts each after those it reads, and its alias, if it has one, is declared.
pub load_schema-IsWellFormed :
    (c : DecimalContext) (lower : Text → Text) (raw : Doc) (schema : DatasetSchema)
    → load_schema c lower raw ≡ ok schema
    → IsWellFormed c lower schema
unfolding load_schema
load_schema-IsWellFormed c lower raw schema h =
    let P = IsWellFormed c lower in
    Yields-at P (load_schema c lower raw)
      (Yields-bind P (require_mapping raw) _ λ doc p.
        Yields-bind P (reject_unknown_keys doc top_level_keys) _ λ u p.
          Yields-bind P (require (has_all doc) schema_error) _ λ u p.
            Yields-bind P (at_key (codes "dataset") doc) _ λ raw_name p.
              Yields-bind P (require_string raw_name) _ λ name p.
                Yields-bind P (require (not_empty name) schema_error) _ λ u p.
                  Yields-bind P (require (elem (domain name) domains) schema_error) _ λ u known.
                    Yields-bind P (at_key (codes "version") doc) _ λ raw_version p.
                      Yields-bind P (require_int raw_version) _ λ version p.
                        Yields-bind P (at_key (codes "title") doc) _ λ raw_title p.
                          Yields-bind P (require_string raw_title) _ λ title p.
                            Yields-bind P (at_key (codes "scope_kind") doc) _ λ raw_kind p.
                              Yields-bind P (member_of scope_kinds raw_kind) _ λ scope_kind p.
                                Yields-bind P (at_key (codes "fields") doc) _ λ raw_fields p.
                                  Yields-bind P (require_mapping raw_fields) _ λ declared p.
                                    Yields-bind P (load_fields lower declared []) _ λ fields loaded.
                                      Yields-bind P (derived_order c fields) _ λ order sorted.
                                        Yields-bind P (at_key (codes "key") doc) _ λ raw_key p.
                                          Yields-bind P (load_key fields raw_key) _ λ key keyed.
                                            Yields-bind P
                                              (mapping_or_empty (lookup (codes "quality") doc)) _
                                              λ quality p.
                                                Yields-bind P
                                                  (reject_unknown_keys quality quality_keys) _
                                                  λ u p.
                                                    Yields-bind P
                                                      (load_range (keys_of fields)
                                                        (lookup (codes "range") quality))
                                                      _
                                                      λ range p.
                                                        Yields-bind P
                                                          (string_or []
                                                            (lookup (codes "value_alias") doc))
                                                          _
                                                          λ alias p.
                                                            Yields-bind P
                                                            (require
                                                            (not (not_empty alias)
                                                            || elem alias (keys_of fields))
                                                            schema_error)
                                                            _
                                                            λ u aliased. record {
                                                            domain_known =
                                                            require-eq_ok
                                                            (elem (domain name) domains)
                                                            schema_error known;
                                                            fields_declared =
                                                            load_fields-IsDeclaredWell lower
                                                            declared [] fields loaded tt;
                                                            key_declared =
                                                            load_key-IsKeyName fields raw_key key
                                                            keyed;
                                                            ordered =
                                                            derived_order-IsOrder c fields order
                                                            sorted;
                                                            alias_declared =
                                                            require-eq_ok
                                                            (not (not_empty alias)
                                                            || elem alias (keys_of fields))
                                                            schema_error aliased;
                                                            })
      h
