-- ===== src/Derive/Syntax.antt =====
-- The expression tree of hub/derive.py, with `lookback` and `names`.
use qkt_data_hub.Prelude.{ℕ, max, List, [], ◌∷◌, ◌++◌}
use qkt_data_hub.Prelude.Text.{Text}
use qkt_data_hub.Record.{Payload}

-- prior payloads, oldest first
abbrev pub History : Type 0
History = List Payload

pub data Operator : Type 0 where
  plus minus times over : Operator

-- `_Call.func` with its `int_args`
pub data Function : Type 0 where
  lag diff pct_rank : ℕ → Function
  zscore : ℕ → ℕ → Function
  since until : Function

pub data Node (D : Type 0) : Type 0 where
  literal : D → Node D
  field_ref : Text → Node D
  unary : Node D → Node D
  bin_op : Operator → Node D → Node D → Node D
  call : Function → Text → Node D

-- `_Call.lookback`
unfoldable pub reach : Function → ℕ
reach (lag n) = n
reach (diff n) = n
reach (pct_rank window) = window
reach (zscore window min_obs) = window
reach since = 0
reach until = 0

unfoldable pub lookback : {D : Type 0} → Node D → ℕ
unfolding reach
lookback (literal value) = 0
lookback (field_ref name) = 0
lookback (unary operand) = lookback operand
lookback (bin_op op left right) = max (lookback left) (lookback right)
lookback (call function field) = reach function

unfoldable pub names : {D : Type 0} → Node D → List Text
names (literal value) = []
names (field_ref name) = name ∷ []
names (unary operand) = names operand
names (bin_op op left right) = names left ++ names right
names (call function field) = field ∷ []
