-- ===== src/Derive/Parser.antt =====
-- `_Parser` of hub/derive.py: recursive descent over the tokens, down to the calls.
pub mod Total
use qkt_data_hub.Prelude.{
  ℕ, zero, suc, ◌+◌, ◌*◌, ◌-◌, Bool, true, false, not, ◌&&◌, ◌||◌, Option, none, some, List, [],
  ◌∷◌, ◌==◌, Result, ok, err, schema_error, if◌then◌else◌, length,
}
use qkt_data_hub.Prelude.Text.{Text, codes, text_eq}
use qkt_data_hub.Prelude.Dict.{Dict, lookup, insert, text_key}
use qkt_data_hub.Record.Names.{elem}
use qkt_data_hub.Derive.Decimals.{DecimalContext}
use qkt_data_hub.Derive.Syntax.{
  Node, literal, field_ref, unary, bin_op, call, Operator, plus, minus, times, over, Function, lag,
  diff, zscore, pct_rank, since, until,
}
use qkt_data_hub.Derive.Tokens.{Token, number, name, op}
use qkt_data_hub.Derive.Calls.{
  Tokens, Parse, done, failed, out_of_fuel, ◌>>=◌, reserved_expression_names, expect_op,
  starts_call, call_of,
}

sum_operator : ℕ → Option Operator
sum_operator c = if c == b'+' then some plus else if c == b'-' then some minus else none

product_operator : ℕ → Option Operator
product_operator c = if c == b'*' then some times else if c == b'/' then some over else none

-- the operator that the next token is, if it is one of this level
unfoldable pub next_sum : Tokens → Option Operator
unfolding sum_operator
next_sum (op c ∷ rest) = sum_operator c
next_sum _ = none

unfoldable pub next_product : Tokens → Option Operator
unfolding product_operator
next_product (op c ∷ rest) = product_operator c
next_product _ = none

abbrev pub advance : Tokens → Tokens
advance [] = []
advance (t ∷ ts) = ts

module _ (c : DecimalContext) where
  abbrev Tree : Type 0
  Tree = Node c.Decimal

  unfoldable pub literal_of : Option c.Decimal → Tokens → Parse Tree
  literal_of none rest = failed
  literal_of (some d) rest = done (literal d) rest

  unfoldable pub name_atom : Text → Tokens → Parse Tree
  unfolding starts_call call_of elem
  name_atom text rest =
      if starts_call rest
      then call_of text rest
      else if elem text reserved_expression_names
      then failed
      else done (field_ref text) rest

  unfoldable mutual
    unfolding literal_of name_atom expect_op next_sum next_product

    -- `_expr`, and its loop
    pub expr : ℕ → Tokens → Parse Tree
    expr zero ts = out_of_fuel
    expr (suc f) ts = term f ts >>= λ node rest. expr_loop f node rest

    pub expr_loop : ℕ → Tree → Tokens → Parse Tree
    expr_loop zero node ts = out_of_fuel
    expr_loop (suc f) node ts = elim (next_sum ts) [
      | none ↦ done node ts
      | some o ↦ term f (advance ts) >>= λ right rest. expr_loop f (bin_op o node right) rest
    ]

    -- `_term`, and its loop
    pub term : ℕ → Tokens → Parse Tree
    term zero ts = out_of_fuel
    term (suc f) ts = factor f ts >>= λ node rest. term_loop f node rest

    pub term_loop : ℕ → Tree → Tokens → Parse Tree
    term_loop zero node ts = out_of_fuel
    term_loop (suc f) node ts = elim (next_product ts) [
      | none ↦ done node ts
      | some o ↦ factor f (advance ts) >>= λ right rest. term_loop f (bin_op o node right) rest
    ]

    -- `_factor`
    pub factor : ℕ → Tokens → Parse Tree
    factor zero ts = out_of_fuel
    factor (suc f) (op d ∷ rest) =
        let negated : Parse Tree = factor f rest >>= λ operand left. done (unary operand) left in
        let plain : Parse Tree = atom f (op d ∷ rest) in if d == b'-' then negated else plain
    factor (suc f) ts = atom f ts

    -- `_atom`
    pub atom : ℕ → Tokens → Parse Tree
    atom zero ts = out_of_fuel
    atom (suc f) [] = failed
    atom (suc f) (number text ∷ rest) = literal_of (c.create text) rest
    atom (suc f) (name text ∷ rest) = name_atom text rest
    atom (suc f) (op d ∷ rest) =
        let inner : Parse Tree =
          expr f rest >>= λ node left. expect_op b')' left >>= λ _ after. done node after in
        if d == b'(' then inner else failed

  finish : Parse Tree → Result Tree
  finish (done node []) = ok node
  finish (done node (t ∷ ts)) = err schema_error
  finish failed = err schema_error
  finish out_of_fuel = err schema_error

  -- `parse`
  unfoldable pub parse : Tokens → Result Tree
  unfolding expr finish
  parse ts = finish (expr (5 * length ts + 5) ts)
