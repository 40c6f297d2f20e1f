-- ===== src/Derive.antt =====
-- hub/derive.py: the expression tree of derived fields and its evaluation.
pub mod Decimals
pub mod Syntax
pub mod Statistics
pub mod Ranks
pub mod Lookback
pub mod Missing
pub mod Tokens
pub mod Calls
pub mod Parser
pub mod Compile
use qkt_data_hub.Prelude.{
  ℕ, zero, suc, ◌+◌, Bool, true, false, ◌||◌, Option, none, some, List, [], ◌∷◌, ltb, leb, ◌==◌,
  map, Result, ok, err, ◌>>=◌, if◌then◌else◌, length,
}
use qkt_data_hub.Prelude.Text.{Text, codes}
use qkt_data_hub.Prelude.Dict.{lookup, text_key}
use qkt_data_hub.Record.{Payload}
use Decimals.{DecimalContext}
use Syntax.{
  Node, literal, field_ref, unary, bin_op, call, Operator, plus, minus, times, over, Function, lag,
  diff, zscore, pct_rank, since, until, History,
}
use Statistics.{read_field, lag_value, zscore_value}
use Ranks.{pct_rank_value}

module _ (c : DecimalContext) where
  open c use {Decimal}

  -- `CTX.add`, `CTX.subtract`, …; a trapped signal is `None`
  unfoldable pub apply_operator : Operator → Decimal → Decimal → Option Decimal
  apply_operator plus a b = c.add a b
  apply_operator minus a b = c.subtract a b
  apply_operator times a b = c.multiply a b
  apply_operator over a b = c.divide a b

  -- both operands, or `None`
  abbrev pub with_both :
      (Decimal → Decimal → Option Decimal) → Option Decimal → Option Decimal → Option Decimal
  with_both f none b = none
  with_both f (some a) none = none
  with_both f (some a) (some b) = f a b

  abbrev pub with_one : (Decimal → Option Decimal) → Option Decimal → Option Decimal
  with_one f none = none
  with_one f (some a) = f a

  -- `_since_until`
  unfoldable pub since_until : Bool → Text → Payload → Option Decimal
  unfolding read_field
  since_until true field payload =
      with_both c.subtract (read_field c (codes "known_at") payload) (read_field c field payload)
  since_until false field payload =
      with_both (λ known ts. c.subtract ts known) (read_field c (codes "known_at") payload)
        (read_field c field payload)

  -- `_Call.eval`
  unfoldable pub call_function : Function → Text → Payload → History → Result (Option Decimal)
  unfolding since_until
  call_function (lag n) field payload history = ok (lag_value c field n history)
  call_function (diff n) field payload history =
      ok (with_both c.subtract (read_field c field payload) (lag_value c field n history))
  call_function (zscore window min_obs) field payload history =
      ok (zscore_value c field window min_obs payload history)
  call_function (pct_rank window) field payload history =
      pct_rank_value c field window payload history
  call_function since field payload history = ok (since_until true field payload)
  call_function until field payload history = ok (since_until false field payload)

  -- `_Node.eval` of every class
  unfoldable pub eval : Node Decimal → Payload → History → Result (Option Decimal)
  unfolding apply_operator call_function
  eval (literal value) payload history = ok (some value)
  eval (field_ref name) payload history = ok (read_field c name payload)
  eval (unary operand) payload history = do
    value ← eval operand payload history
    ok (with_one c.minus value)
  eval (bin_op op left right) payload history = do
    a ← eval left payload history
    b ← eval right payload history
    ok (with_both (apply_operator op) a b)
  eval (call function field) payload history = call_function function field payload history

  text_of : Option Decimal → Result (Option Text)
  text_of none = ok none
  text_of (some value) = do text ← c.decimal_str value; ok (some text)

  -- the closure that `compile_expr` returns
  unfoldable pub run : Node Decimal → Payload → History → Result (Option Text)
  unfolding text_of eval
  run node payload history = do result ← eval node payload history; text_of result
