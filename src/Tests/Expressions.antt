-- ===== src/Tests/Expressions.antt =====
-- Expressions on sample payloads, and the parser on sample texts.
use qkt_data_hub.Prelude.{
  ◌≡◌, ◌≢◌, refl, none, [], ◌∷◌, inl, ok, err, schema_error, recursion_error, arith, last, length,
  ◌+◌,
}
use qkt_data_hub.Prelude.Text.{codes, text_eq}
use qkt_data_hub.Prelude.Dict.{lookup}
use qkt_data_hub.Derive.{eval}
use qkt_data_hub.Derive.Statistics.{read_field, lag_value}
use qkt_data_hub.Derive.Syntax.{
  Node, literal, field_ref, bin_op, call, plus, minus, times, lag, diff, zscore, History, lookback,
}
use qkt_data_hub.Derive.Tokens.{op, tokenize, tokenize_from}
use qkt_data_hub.Derive.Tokens.Total.{tokenize_from-tokenize}
use qkt_data_hub.Derive.Parser.{expr}
use qkt_data_hub.Derive.Calls.{out_of_fuel}
use qkt_data_hub.Derive.Parser.Total.{expr-ne-out_of_fuel}
use qkt_data_hub.Derive.Compile.{parse_text}
use qkt_data_hub.Derive.Lookback.{eval-last}
use qkt_data_hub.Derive.Missing.{HasNoValue, here, left, eval-missing}
use qkt_data_hub.Tests.Samples.{counting, payload}

abbrev three : History
three = payload 1 ∷ payload 2 ∷ payload 3 ∷ []

-- diff(x, 1) + lag(x, 2)
abbrev tree : Node (counting.Decimal)
tree = bin_op plus (call (diff 1) (codes "x")) (call (lag 2) (codes "x"))

eval-last_example :
    eval counting tree (payload 9) (last 2 three) ≡ eval counting tree (payload 9) three
eval-last_example = eval-last counting tree (payload 9) 2 three (unfold lookback in omega arith)

no_prior : eval counting (call (diff 1) (codes "x")) (payload 9) [] ≡ ok none
unfolding eval read_field lag_value lookup text_eq
no_prior = refl

eval-missing_example : HasNoValue (eval counting tree (payload 9) [])
eval-missing_example =
    eval-missing counting (payload 9) [] (left plus (call (lag 2) (codes "x")) here) (inl no_prior)

expr-ne-out_of_fuel_example : expr counting 15 (op b'(' ∷ op b'(' ∷ []) ≢ out_of_fuel
expr-ne-out_of_fuel_example = expr-ne-out_of_fuel counting (op b'(' ∷ op b'(' ∷ []) 15 (omega arith)

-- products bind tighter than sums, and sums group to the left
precedence :
    parse_text counting (codes "a - b*2 - lag(c, 3)")
    ≡ ok (
        bin_op minus
          (bin_op minus (field_ref (codes "a")) (bin_op times (field_ref (codes "b")) (literal 2)))
          (call (lag 3) (codes "c")))
unfolding parse_text
precedence = refl

reserved : parse_text counting (codes "zscore + 1") ≡ err schema_error
unfolding parse_text
reserved = refl

keywords_in_any_order :
    parse_text counting (codes "zscore(x, min_obs=4, window=5)")
    ≡ ok (call (zscore 5 4) (codes "x"))
unfolding parse_text
keywords_in_any_order = refl

tokenize_from-tokenize_example :
    (tokenize_from (length (codes "diff(x, 1)") + 5) (codes "diff(x, 1)")
      ≡ tokenize (codes "diff(x, 1)"))
    × (tokenize (codes "diff(x, 1)") ≢ err recursion_error)
tokenize_from-tokenize_example = tokenize_from-tokenize (codes "diff(x, 1)") 5
