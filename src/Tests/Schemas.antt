-- ===== src/Tests/Schemas.antt =====
-- A schema document that loads, its derived fields in order, a cycle, and a range left empty.
use qkt_data_hub.Prelude.{
  ◌≡◌, refl, List, [], ◌∷◌, Result, ok, err, schema_error, attribute_error, ◌>>=◌, ◌⊎◌,
}
use qkt_data_hub.Prelude.Int.{pos}
use qkt_data_hub.Prelude.Text.{Text, codes, text_eq, text_lt}
use qkt_data_hub.Prelude.Dict.{lookup, insert, values}
use qkt_data_hub.Prelude.Sets.{sorted_set}
use qkt_data_hub.Derive.Compile.{parse_text, referenced_names}
use qkt_data_hub.Record.Names.{elem, domain, matches_field_name}
use qkt_data_hub.Schema.{DatasetSchema, validate_payload}
use qkt_data_hub.Schema.Document.{
  Doc, Entries, entry, end, string, int, sequence, mapping, cons, nil, null,
}
use qkt_data_hub.Schema.Load.{load_schema}
use qkt_data_hub.Schema.Order.{
  Dependencies, dependencies_of, order_of, visit, each, mark_of, derived_order,
}
use qkt_data_hub.Schema.Order.Settled.{IsOrder}
use qkt_data_hub.Schema.Order.Cycles.{Steps}
use qkt_data_hub.Schema.Order.Closed.{derived_order-settled}
use qkt_data_hub.Schema.WellFormed.{IsWellFormed, load_schema-IsWellFormed}
use qkt_data_hub.Tests.Samples.{counting, plain}
use qkt_data_hub.Tests.Pipeline.{growth}

-- c reads b, and b reads a
abbrev chain : Dependencies
chain = (codes "c", codes "b" ∷ []) ∷ (codes "b", codes "a" ∷ []) ∷ (codes "a", []) ∷ []

abbrev in_order : List Text
in_order = codes "a" ∷ codes "b" ∷ codes "c" ∷ []

chain-ordered : order_of chain ≡ ok in_order
unfolding order_of visit each mark_of sorted_set lookup insert text_lt text_eq
chain-ordered = refl

ring-refused :
    order_of ((codes "a", codes "b" ∷ []) ∷ (codes "b", codes "a" ∷ []) ∷ []) ≡ err schema_error
unfolding order_of visit each mark_of sorted_set lookup insert text_lt text_eq
ring-refused = refl

abbrev growth_reads : Dependencies
growth_reads = (codes "d", []) ∷ []

growth-read : dependencies_of counting growth.fields (values growth.fields) ≡ ok growth_reads
unfolding dependencies_of referenced_names parse_text
growth-read = refl

derived_order-settled_example :
    ((order : List Text) × (derived_order counting growth.fields ≡ ok order)
      × IsOrder growth_reads order)
    ⊎ ((derived_order counting growth.fields ≡ err schema_error)
        × ((n : Text) × Steps growth_reads n n))
derived_order-settled_example =
    derived_order-settled counting growth.fields growth_reads (refl, (refl, tt)) growth-read

abbrev number_field : Entries → Doc
number_field more = mapping (entry (codes "type") (string (codes "number")) more)

abbrev document : Entries → Doc
document more = mapping (
    entry (codes "dataset") (string (codes "rates.x")) (
      entry (codes "version") (int (pos 1)) (
        entry (codes "title") (string []) (
          entry (codes "scope_kind") (string (codes "all")) (
            entry (codes "key") (sequence (cons (string (codes "effective_at")) nil)) (
              entry (codes "fields")
                (mapping (
                  entry (codes "x") (number_field end) (
                    entry (codes "d")
                      (number_field (entry (codes "derived") (string (codes "diff(x, 1)")) end))
                      end)))
                more))))))

abbrev schema_of : Result DatasetSchema → DatasetSchema
schema_of (ok schema) = schema
schema_of (err e) = growth

abbrev loaded : DatasetSchema
loaded = schema_of (load_schema counting plain (document end))

document-loaded : load_schema counting plain (document end) ≡ ok loaded
unfolding load_schema elem text_eq lookup domain matches_field_name insert referenced_names
    parse_text
document-loaded = refl

load_schema-IsWellFormed_example : IsWellFormed counting plain loaded
load_schema-IsWellFormed_example =
    load_schema-IsWellFormed counting plain (document end) loaded document-loaded

-- `range:` with nothing after it loads, and then every payload is met by an AttributeError.
abbrev empty_range : Doc
empty_range = document (entry (codes "quality") (mapping (entry (codes "range") null end)) end)

empty_range-crashes :
    (load_schema counting plain empty_range >>= λ schema. validate_payload counting schema [])
    ≡ err attribute_error
unfolding load_schema validate_payload elem text_eq lookup domain matches_field_name insert
    referenced_names parse_text
empty_range-crashes = refl
