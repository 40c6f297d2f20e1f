-- ===== src/Derive/Parser/Total.antt =====
-- The fuel of `parse` is enough for every token list: each rule that succeeds takes a token.
use qkt_data_hub.Prelude.{
  ℕ, zero, suc, ◌+◌, ◌*◌, ◌≤◌, ◌<◌, ◌≡◌, ◌≢◌, Option, none, some, [], ◌∷◌, ◌==◌, arith, inl, inr,
  Option-cases, length,
}
use qkt_data_hub.Prelude.Text.{Text}
use qkt_data_hub.Prelude.Dict.{text_key}
use qkt_data_hub.Derive.Decimals.{DecimalContext}
use qkt_data_hub.Derive.Syntax.{Node, field_ref, bin_op, Operator}
use qkt_data_hub.Derive.Tokens.{number, name, op}
use qkt_data_hub.Record.Names.{elem}
use qkt_data_hub.Derive.Calls.{
  Tokens, reserved_expression_names, starts_call, Parse, done, failed, out_of_fuel, expect_op,
}
use qkt_data_hub.Derive.Parser.{
  literal_of, name_atom, next_sum, next_product, advance, expr, expr_loop, term, term_loop, factor,
  atom,
}
use qkt_data_hub.Derive.Calls.Arguments.{
  Leaves, Leaves-bind, Leaves-mono, Leaves-if, expect_op-Leaves, call_of-Leaves,
}

advance_sum : (ts : Tokens) (o : Operator) → next_sum ts ≡ some o → length (advance ts) < length ts
unfolding next_sum
advance_sum (op d ∷ ts) o h = omega arith
advance_sum [] o h = cc
advance_sum (number t ∷ ts) o h = cc
advance_sum (name t ∷ ts) o h = cc

advance_product :
    (ts : Tokens) (o : Operator) → next_product ts ≡ some o → length (advance ts) < length ts
unfolding next_product
advance_product (op d ∷ ts) o h = omega arith
advance_product [] o h = cc
advance_product (number t ∷ ts) o h = cc
advance_product (name t ∷ ts) o h = cc

module _ (c : DecimalContext) where
  literal_of-Leaves :
      (d : Option c.Decimal) (ts : Tokens) → Leaves (suc (length ts)) (literal_of c d ts)
  unfolding literal_of
  literal_of-Leaves none ts = tt
  literal_of-Leaves (some d) ts = omega arith

  name_atom-Leaves : (t : Text) (ts : Tokens) → Leaves (suc (length ts)) (name_atom c t ts)
  unfolding name_atom
  name_atom-Leaves t ts =
      Leaves-if (starts_call ts) _ _ (suc (length ts)) (call_of-Leaves c.Decimal t ts) (
        Leaves-if (elem t reserved_expression_names) failed (done (field_ref t) ts)
          (suc (length ts)) tt (omega arith))

  -- One induction on the fuel: a rule that succeeds takes a token.
  mutual
    unfolding expr

    expr-Leaves : (f : ℕ) (ts : Tokens) → 5 * length ts + 4 < f → Leaves (length ts) (expr c f ts)
    expr-Leaves zero ts h = absurd (omega arith)
    expr-Leaves (suc f) ts h =
        Leaves-bind (term c f ts) _ (length ts) (length ts) (term-Leaves f ts (omega arith))
          λ node rest le.
            Leaves-mono (expr_loop c f node rest) (suc (length rest)) (length ts) (omega arith)
              (expr_loop-Leaves f node rest (omega arith))

    expr_loop-Leaves :
        (f : ℕ) (node : Node c.Decimal) (ts : Tokens)
        → 5 * length ts + 4 < f
        → Leaves (suc (length ts)) (expr_loop c f node ts)
    expr_loop-Leaves zero node ts h = absurd (omega arith)
    expr_loop-Leaves (suc f) node ts h = elim (Option-cases (next_sum ts)) [
      | inl e ↦ rw (e, expr_loop) (omega arith)
      | inr (o, e) ↦
          let shorter = advance_sum ts o e in
          rw (e, expr_loop)
            (Leaves-bind (term c f (advance ts)) _ (length (advance ts)) (suc (length ts))
              (term-Leaves f (advance ts) (omega arith))
              λ right rest le.
                Leaves-mono (expr_loop c f (bin_op o node right) rest) (suc (length rest))
                  (suc (length ts)) (omega arith)
                  (expr_loop-Leaves f (bin_op o node right) rest (omega arith)))
    ]

    term-Leaves : (f : ℕ) (ts : Tokens) → 5 * length ts + 3 < f → Leaves (length ts) (term c f ts)
    term-Leaves zero ts h = absurd (omega arith)
    term-Leaves (suc f) ts h =
        Leaves-bind (factor c f ts) _ (length ts) (length ts) (factor-Leaves f ts (omega arith))
          λ node rest le.
            Leaves-mono (term_loop c f node rest) (suc (length rest)) (length ts) (omega arith)
              (term_loop-Leaves f node rest (omega arith))

    term_loop-Leaves :
        (f : ℕ) (node : Node c.Decimal) (ts : Tokens)
        → 5 * length ts + 3 < f
        → Leaves (suc (length ts)) (term_loop c f node ts)
    term_loop-Leaves zero node ts h = absurd (omega arith)
    term_loop-Leaves (suc f) node ts h = elim (Option-cases (next_product ts)) [
      | inl e ↦ rw (e, term_loop) (omega arith)
      | inr (o, e) ↦
          let shorter = advance_product ts o e in
          rw (e, term_loop)
            (Leaves-bind (factor c f (advance ts)) _ (length (advance ts)) (suc (length ts))
              (factor-Leaves f (advance ts) (omega arith))
              λ right rest le.
                Leaves-mono (term_loop c f (bin_op o node right) rest) (suc (length rest))
                  (suc (length ts)) (omega arith)
                  (term_loop-Leaves f (bin_op o node right) rest (omega arith)))
    ]

    factor-Leaves :
        (f : ℕ) (ts : Tokens) → 5 * length ts + 2 < f → Leaves (length ts) (factor c f ts)
    factor-Leaves zero ts h = absurd (omega arith)
    factor-Leaves (suc f) (op d ∷ ts) h =
        Leaves-if (d == b'-') _ (atom c f (op d ∷ ts)) (suc (length ts))
          (Leaves-bind (factor c f ts) _ (length ts) (suc (length ts))
            (factor-Leaves f ts (omega arith)) (λ operand rest le. omega arith))
          (atom-Leaves f (op d ∷ ts) (omega arith))
    factor-Leaves (suc f) [] h = atom-Leaves f [] (omega arith)
    factor-Leaves (suc f) (number t ∷ ts) h = atom-Leaves f (number t ∷ ts) (omega arith)
    factor-Leaves (suc f) (name t ∷ ts) h = atom-Leaves f (name t ∷ ts) (omega arith)

    atom-Leaves : (f : ℕ) (ts : Tokens) → 5 * length ts + 1 < f → Leaves (length ts) (atom c f ts)
    atom-Leaves zero ts h = absurd (omega arith)
    atom-Leaves (suc f) [] h = tt
    atom-Leaves (suc f) (number t ∷ ts) h = literal_of-Leaves (c.create t) ts
    atom-Leaves (suc f) (name t ∷ ts) h = name_atom-Leaves t ts
    atom-Leaves (suc f) (op d ∷ ts) h =
        Leaves-if (d == b'(') _ failed (suc (length ts))
          (Leaves-bind (expr c f ts) _ (length ts) (suc (length ts))
            (expr-Leaves f ts (omega arith))
            λ node rest le.
              Leaves-bind (expect_op b')' rest) _ (suc (length rest)) (suc (length ts))
                (expect_op-Leaves b')' rest) (λ u after le'. omega arith))
          tt

  -- With the fuel that `parse` gives it, and with any more, the parser never runs out, whatever the
  -- tokens are.
  pub expr-ne-out_of_fuel :
      (ts : Tokens) (f : ℕ) → 5 * length ts + 5 ≤ f → expr c f ts ≢ out_of_fuel
  expr-ne-out_of_fuel ts f h e = go (expr c f ts) (expr-Leaves f ts (omega arith)) e
    where
      go : (p : Parse (Node c.Decimal)) → Leaves (length ts) p → p ≢ out_of_fuel
      go (done a rest) l q = cc
      go failed l q = cc
      go out_of_fuel l q = l
