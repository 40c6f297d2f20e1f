-- ===== src/Ingest/Histories.antt =====
-- hub/pipeline.py: the scope histories that `ingest` keeps, and what a derived field reads of them.
use qkt_data_hub.Prelude.{
  ℕ, zero, suc, ◌≤◌, ◌≡◌, refl, sym, max, List, [], ◌∷◌, ok, last, arith, >>=-eq-ok, >>=-ap, ok_inj,
  length, length-last, lt→ltb,
}
use qkt_data_hub.Prelude.Text.{Text}
use qkt_data_hub.Prelude.Dict.{text_key}
use qkt_data_hub.Record.{Payload}
use qkt_data_hub.History.{ScopeHistory, before_all}
use qkt_data_hub.History.Newest.{before-last}
use qkt_data_hub.Derive.{run}
use qkt_data_hub.Derive.Decimals.{DecimalContext}
use qkt_data_hub.Derive.Syntax.{History, Node, lookback}
use qkt_data_hub.Derive.Lookback.{eval-last}
use qkt_data_hub.Derive.Compile.{parse_text, compile_expr, lookback_of}
use qkt_data_hub.Schema.{DatasetSchema, FieldSpec, derived_fields}
use qkt_data_hub.Ingest.Step.{derive_each, derive_fields, max_lookback, reach_of, earlier}

module _ (c : DecimalContext) where
  run-last :
      (node : Node c.Decimal) (merged : Payload) (m : ℕ) (h : History)
      → lookback node ≤ m
      → run c node merged (last m h) ≡ run c node merged h
  unfolding run
  run-last node merged m h le = rw (eval-last c node merged m h le)

  derive_each-last :
      (specs : List FieldSpec) (m reach : ℕ) (merged out : Payload) (h : History)
      → max_lookback c specs ≡ ok reach
      → reach ≤ m
      → derive_each c specs merged out (last m h) ≡ derive_each c specs merged out h
  unfolding derive_each max_lookback lookback_of compile_expr
  derive_each-last [] m reach merged out h e le = refl
  derive_each-last (spec ∷ specs) m reach merged out h e le =
      let (n, of_spec, of_rest) = >>=-eq-ok (lookback_of c spec.derived) _ e in
      let (rest, of_specs, of_max) = >>=-eq-ok (max_lookback c specs) _ of_rest in
      let (node, parsed, of_node) = >>=-eq-ok (parse_text c spec.derived) _ of_spec in
      let same : max n rest ≡ reach = ok_inj of_max in
      let own : lookback node ≡ n = ok_inj of_node in
      rw (parsed, run-last node merged m h (omega arith))
        (>>=-ap (run c node merged h) _ _
          λ value. derive_each-last specs m rest _ _ h of_specs (omega arith))

  no_entries : (h : History) → length h ≡ 0 → h ≡ []
  no_entries [] e = refl
  no_entries (payload ∷ h) e = ground arith

  last_none : (h : History) → last 0 h ≡ []
  last_none h = no_entries (last 0 h) (omega (arith, length-last 0 h))

  earlier-last :
      (reach : ℕ) (h : ScopeHistory) (effective_at : ℕ) (key : Text)
      → earlier c reach h effective_at key ≡ last reach (before_all h effective_at key)
  unfolding earlier
  earlier-last zero h effective_at key = sym (last_none (before_all h effective_at key))
  earlier-last (suc n) h effective_at key =
      rw (lt→ltb 0 (suc n) (omega arith)) (before-last h effective_at key (suc n))

  -- The facts that `ingest` hands to the derived fields of a dataset, which are no more than the
  -- longest lookback of them, give what all the earlier facts of the scope give.
  pub derive_fields-earlier :
      (schema : DatasetSchema) (payload extra : Payload) (h : ScopeHistory) (effective_at : ℕ)
      (key : Text) (reach : ℕ)
      → reach_of c schema ≡ ok reach
      → derive_fields c schema payload extra (earlier c reach h effective_at key)
        ≡ derive_fields c schema payload extra (before_all h effective_at key)
  unfolding derive_fields reach_of
  derive_fields-earlier schema payload extra h effective_at key reach e =
      let (specs, found, of_specs) = >>=-eq-ok (derived_fields schema) _ e in
      rw (found, earlier-last reach h effective_at key)
        (derive_each-last specs reach reach _ _ _ of_specs (omega arith))
