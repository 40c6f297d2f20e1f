-- ===== src/Schema/Order/Closed.antt =====
-- `_derived_order` of hub/schema.py on the fields of a schema: what the loop over them collects.
use qkt_data_hub.Prelude.{
  ◌≡◌, sym, ap, ◌∙◌, true, not, some, List, [], ◌∷◌, keep, ok, err, >>=-eq-ok, ok_inj, schema_error,
  require, Bool-cases, inl, inr, ◌⊎◌, All, All-imp, All-keep_of, Among, Option-cases,
}
use mathlib.Core.Path.{subst}
use qkt_data_hub.Prelude.Text.{Text, text_eq, text_eq_iff}
use qkt_data_hub.Prelude.Dict.{Dict, lookup, values, text_key}
use qkt_data_hub.Record.Names.{elem}
use qkt_data_hub.Record.Checks.{not_empty}
use qkt_data_hub.Derive.Decimals.{DecimalContext}
use qkt_data_hub.Derive.Compile.{referenced_names}
use qkt_data_hub.Schema.{FieldSpec}
use qkt_data_hub.Schema.Order.{
  Dependencies, keys_of, dependencies_of, derived_order, all_available, is_derived_name,
}
use qkt_data_hub.Schema.Order.Cycles.{Steps}
use qkt_data_hub.Schema.Order.Settled.{IsClosed, IsOrder, order_of-settled}

-- each field stands under its own name, as `load_schema` makes them
abbrev pub AreNamed : Dict Text FieldSpec → Type 0
AreNamed fields = All (λ e. e.0 ≡ e.1.name) fields

module _ (c : DecimalContext) (fields : Dict Text FieldSpec) where
  -- a derived field of the list has its entry
  dependencies_of-keys :
      (specs : List FieldSpec) (deps : Dependencies) (spec : FieldSpec)
      → dependencies_of c fields specs ≡ ok deps
      → Among spec specs
      → not_empty spec.derived ≡ true
      → Among spec.name (keys_of deps)
  unfolding dependencies_of
  dependencies_of-keys [] deps spec h m d = elim m [ ]
  dependencies_of-keys (s ∷ specs) deps spec h m d = elim (Bool-cases (not_empty s.derived)) [
    | inr lacks ↦ elim m [
      | inl e ↦ cc (subst (λ x. not_empty x.derived ≡ true) (sym e) d, lacks)
      | inr t ↦ dependencies_of-keys specs deps spec (rw lacks at h) t d
    ]
    | inl has ↦
        let (names, p, q) = >>=-eq-ok (referenced_names c s.derived) _ (rw has at h) in
        let (u, r, t) = >>=-eq-ok (require (all_available fields names) schema_error) _ q in
        let (v, w, x) = >>=-eq-ok (require (not (elem s.name names)) schema_error) _ t in
        let (rest, y, z) = >>=-eq-ok (dependencies_of c fields specs) _ x in
        subst (λ l. Among spec.name (keys_of l)) (ok_inj z)
          (elim m [
            | inl e ↦ inl (ap (λ i. i.name) e)
            | inr t ↦ inr (dependencies_of-keys specs rest spec y t d)
          ])
  ]

  -- and what is read is derived itself
  dependencies_of-derived :
      (specs : List FieldSpec) (deps : Dependencies) (name : Text) (reads : List Text)
      → dependencies_of c fields specs ≡ ok deps
      → lookup name deps ≡ some reads
      → All (λ n. is_derived_name fields n ≡ true) reads
  unfolding dependencies_of lookup
  dependencies_of-derived [] deps name reads h l =
      cc (subst (λ d. lookup name d ≡ some reads) (sym (ok_inj h)) l)
  dependencies_of-derived (s ∷ specs) deps name reads h l =
      elim (Bool-cases (not_empty s.derived)) [
        | inr lacks ↦ dependencies_of-derived specs deps name reads (rw lacks at h) l
        | inl has ↦
            let (names, p, q) = >>=-eq-ok (referenced_names c s.derived) _ (rw has at h) in
            let (u, r, t) = >>=-eq-ok (require (all_available fields names) schema_error) _ q in
            let (v, w, x) = >>=-eq-ok (require (not (elem s.name names)) schema_error) _ t in
            let (rest, y, z) = >>=-eq-ok (dependencies_of c fields specs) _ x in
            let found = subst (λ d. lookup name d ≡ some reads) (sym (ok_inj z)) l in
            elim (Bool-cases (text_eq s.name name)) [
              | inr other ↦ dependencies_of-derived specs rest name reads y (rw other at found)
              | inl same ↦
                  let kept : some (keep (is_derived_name fields) names) ≡ some reads =
                    rw same at found in
                  let equal : keep (is_derived_name fields) names ≡ reads = cc in
                  subst (λ ns. All (λ n. is_derived_name fields n ≡ true) ns) equal
                    (All-keep_of (λ n. is_derived_name fields n ≡ true) (is_derived_name fields)
                      names (λ n e. e))
            ]
      ]

  lookup-values :
      (d : Dict Text FieldSpec) (name : Text) (spec : FieldSpec)
      → AreNamed d
      → lookup name d ≡ some spec
      → Among spec (values d) × (spec.name ≡ name)
  unfolding lookup
  lookup-values [] name spec n h = cc
  lookup-values ((k, s) ∷ d) name spec n h = elim (Bool-cases (text_eq k name)) [
    | inl e ↦
        let found : some s ≡ some spec = rw e at h in
        let same : s ≡ spec = cc in
        (inl same, subst (λ i. i.name ≡ name) same (sym n.0 ∙ (text_eq_iff k name).0 e))
    | inr e ↦ let (m, q) = lookup-values d name spec n.1 (rw e at h) in (inr m, q)
  ]

  derived_in :
      (deps : Dependencies) (n : Text)
      → AreNamed fields
      → dependencies_of c fields (values fields) ≡ ok deps
      → is_derived_name fields n ≡ true
      → Among n (keys_of deps)
  unfolding is_derived_name
  derived_in deps n named h d = elim (Option-cases (lookup n fields)) [
    | inl none_there ↦ cc (rw none_there at d)
    | inr (spec, found) ↦
        let (m, same) = lookup-values fields n spec named found in
        subst (λ t. Among t (keys_of deps)) same
          (dependencies_of-keys (values fields) deps spec h m (rw found at d))
  ]

  dependencies_of-IsClosed :
      (deps : Dependencies)
      → AreNamed fields
      → dependencies_of c fields (values fields) ≡ ok deps
      → IsClosed deps
  dependencies_of-IsClosed deps named h name reads l =
      All-imp _ (λ n. Among n (keys_of deps)) reads (λ n d. derived_in deps n named h d)
        (dependencies_of-derived (values fields) deps name reads h l)

  -- Where the expressions of the fields are read without an error, `_derived_order` ends in one of two
  -- ways: with an order that has every derived field exactly once and after the derived fields that it
  -- reads, or with a `SchemaError`, and then some derived field reads itself over one step or more.
  pub derived_order-settled :
      (deps : Dependencies)
      → AreNamed fields
      → dependencies_of c fields (values fields) ≡ ok deps
      → ((order : List Text) × (derived_order c fields ≡ ok order) × IsOrder deps order)
        ⊎ ((derived_order c fields ≡ err schema_error) × ((n : Text) × Steps deps n n))
  unfolding derived_order
  derived_order-settled deps named h =
      rw h (order_of-settled deps (dependencies_of-IsClosed deps named h))
