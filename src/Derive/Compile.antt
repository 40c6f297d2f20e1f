-- ===== src/Derive/Compile.antt =====
-- `compile_expr`, `referenced_names` and `lookback` of hub/derive.py: what the schema and the pipeline
-- call.
use qkt_data_hub.Prelude.{ℕ, Option, List, Result, ok, ◌>>=◌}
use qkt_data_hub.Prelude.Text.{Text}
use qkt_data_hub.Record.{Payload}
use qkt_data_hub.Derive.{run}
use qkt_data_hub.Derive.Decimals.{DecimalContext}
use qkt_data_hub.Derive.Syntax.{Node, History, names, lookback}
use qkt_data_hub.Derive.Tokens.{tokenize}
use qkt_data_hub.Derive.Parser.{parse}

module _ (c : DecimalContext) where
  unfoldable pub parse_text : Text → Result (Node c.Decimal)
  unfolding tokenize parse
  parse_text s = do ts ← tokenize s; parse c ts

  unfoldable pub referenced_names : Text → Result (List Text)
  unfolding names
  referenced_names s = do node ← parse_text s; ok (names node)

  unfoldable pub lookback_of : Text → Result ℕ
  unfolding lookback
  lookback_of s = do node ← parse_text s; ok (lookback node)

  unfoldable pub compile_expr : Text → Result (Payload → History → Result (Option Text))
  unfolding run
  compile_expr s = do node ← parse_text s; ok (run c node)
