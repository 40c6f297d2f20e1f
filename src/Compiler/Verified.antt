-- ===== src/Compiler/Verified.antt =====
-- hub/compiler.py: derived fields that verify over a longer read verify over a shorter one.
use qkt_data_hub.Prelude.{
  ℕ, ◌≡◌, refl, sym, ◌∙◌, Bool, false, ◌&&◌, List, [], ◌∷◌, keep, ok, leb, arith, inl, inr, ◌⊎◌,
  Bool-cases, Among, Among-keep, >>=-eq-ok,
}
use qkt_data_hub.Prelude.Text.{Text, text_eq, text_eq_iff}
use qkt_data_hub.Prelude.Order.{nat_ord, pair_ord}
use qkt_data_hub.Prelude.Text.{text_ord}
use qkt_data_hub.Prelude.Dict.{merge, text_key}
use qkt_data_hub.Prelude.Sort.{IsSorted, IsBelow}
use qkt_data_hub.Prelude.SortKeep.{keep-keep, keep_same, IsSorted-keep}
use qkt_data_hub.Record.{Record, sort_key}
use qkt_data_hub.History.{ScopeHistory, empty, upsert, before}
use qkt_data_hub.Derive.Decimals.{DecimalContext}
use qkt_data_hub.Schema.{DatasetSchema, FieldSpec, derived_fields}
use qkt_data_hub.Ingest.Step.{envelope, max_lookback}
use qkt_data_hub.Compiler.{
  Expr, scopes_of, of_scope, compile_specs, verify_record, verify_scope, verify_scopes,
  verify_specs, verify_derived_fields,
}

-- known by `t`
abbrev pub known_by : ℕ → Record → Bool
known_by t r = leb r.known_at t

-- After the first record that is not known by `t`, none is.
none_known :
    (t : ℕ) (r : Record) (records : List Record)
    → known_by t r ≡ false
    → IsBelow sort_key r records
    → keep (known_by t) records ≡ []
unfolding sort_key
none_known t r [] e b = refl
none_known t r (s ∷ records) e b =
    let later : known_by t s ≡ false = ground arith in rw later (none_known t r records e b.1)

module _ (c : DecimalContext) where
  verify_scope-keep :
      (exprs : List (Text × Expr c)) (reach t : ℕ) (records : List Record) (h : ScopeHistory)
      → IsSorted sort_key records
      → verify_scope c exprs reach h records ≡ ok tt
      → verify_scope c exprs reach h (keep (known_by t) records) ≡ ok tt
  unfolding verify_scope
  verify_scope-keep exprs reach t [] h s v = refl
  verify_scope-keep exprs reach t (r ∷ records) h s v = elim (Bool-cases (known_by t r)) [
    | inl e ↦
        let (u, own, rest) =
          >>=-eq-ok
            (verify_record c exprs (merge r.fields (envelope r.known_at r.effective_at))
              (before h r.effective_at r.key reach) r.fields)
            _ v in
        rw (e, own)
          (verify_scope-keep exprs reach t records (upsert h r.effective_at r.key r.fields) s.1
            rest)
    | inr e ↦ rw (e, none_known t r records e s.0) refl
  ]

  -- a scope comes up, or has no record
  of_scope-scopes_of :
      (scope : Text) (records : List Record)
      → Among scope (scopes_of records) ⊎ (of_scope scope records ≡ [])
  unfolding scopes_of
  of_scope-scopes_of scope [] = inr refl
  of_scope-scopes_of scope (r ∷ records) = elim (Bool-cases (text_eq r.scope scope)) [
    | inl e ↦ inl (inl ((text_eq_iff r.scope scope).0 e))
    | inr e ↦ elim (of_scope-scopes_of scope records) [
      | inl m ↦ inl (
          inr (
            Among-keep _ (scopes_of records) scope m
              (ground (arith, text_eq_iff r.scope scope, text_eq_iff scope r.scope))))
      | inr none ↦ inr (rw (e, none) refl)
    ]
  ]

  verify_scopes-at :
      (exprs : List (Text × Expr c)) (reach : ℕ) (records : List Record) (scopes : List Text)
      (scope : Text)
      → verify_scopes c exprs reach records scopes ≡ ok tt
      → Among scope scopes
      → verify_scope c exprs reach empty (of_scope scope records) ≡ ok tt
  unfolding verify_scopes
  verify_scopes-at exprs reach records [] scope v m = elim m [ ]
  verify_scopes-at exprs reach records (s ∷ scopes) scope v m =
      let (u, own, rest) = >>=-eq-ok (verify_scope c exprs reach empty (of_scope s records)) _ v in
      elim m [
        | inl e ↦ rw (sym e) own
        | inr later ↦ verify_scopes-at exprs reach records scopes scope rest later
      ]

  every_scope :
      (exprs : List (Text × Expr c)) (reach : ℕ) (records : List Record) (scope : Text)
      → verify_scopes c exprs reach records (scopes_of records) ≡ ok tt
      → verify_scope c exprs reach empty (of_scope scope records) ≡ ok tt
  unfolding verify_scope
  every_scope exprs reach records scope v = elim (of_scope-scopes_of scope records) [
    | inl m ↦ verify_scopes-at exprs reach records (scopes_of records) scope v m
    | inr none ↦ rw none refl
  ]

  of_scope-keep :
      (scope : Text) (t : ℕ) (records : List Record)
      → of_scope scope (keep (known_by t) records) ≡ keep (known_by t) (of_scope scope records)
  of_scope-keep scope t records =
      keep-keep _ _ records
      ∙ keep_same (λ r. known_by t r && text_eq r.scope scope)
          (λ r. text_eq r.scope scope && known_by t r) records (λ r. ground arith)
      ∙ sym (keep-keep (known_by t) (λ r. text_eq r.scope scope) records)

  verify_scopes-keep :
      (exprs : List (Text × Expr c)) (reach t : ℕ) (records : List Record) (scopes : List Text)
      → IsSorted sort_key records
      → verify_scopes c exprs reach records (scopes_of records) ≡ ok tt
      → verify_scopes c exprs reach (keep (known_by t) records) scopes ≡ ok tt
  unfolding verify_scopes
  verify_scopes-keep exprs reach t records [] s v = refl
  verify_scopes-keep exprs reach t records (scope ∷ scopes) s v =
      let own =
        verify_scope-keep exprs reach t (of_scope scope records) empty
          (IsSorted-keep sort_key _ records s) (every_scope exprs reach records scope v) in
      rw (of_scope-keep scope t records, own) (verify_scopes-keep exprs reach t records scopes s v)

  -- What verifies over all records of a sorted read verifies over those of them known by `t`.
  pub verify_derived_fields-keep :
      (schema : DatasetSchema) (t : ℕ) (records : List Record)
      → IsSorted sort_key records
      → verify_derived_fields c schema records ≡ ok tt
      → verify_derived_fields c schema (keep (known_by t) records) ≡ ok tt
  unfolding verify_derived_fields verify_specs
  verify_derived_fields-keep schema t records s v =
      let (specs, found, verified) = >>=-eq-ok (derived_fields schema) _ v in
      rw found (go specs verified)
    where
      go :
          (specs : List FieldSpec)
          → verify_specs c specs records ≡ ok tt
          → verify_specs c specs (keep (known_by t) records) ≡ ok tt
      go [] w = refl
      go (spec ∷ specs) w =
          let (exprs, compiled, rest) = >>=-eq-ok (compile_specs c (spec ∷ specs)) _ w in
          let (reach, reached, scoped) = >>=-eq-ok (max_lookback c (spec ∷ specs)) _ rest in
          rw (compiled, reached) (verify_scopes-keep exprs reach t records _ s scoped)
