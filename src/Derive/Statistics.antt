-- ===== src/Derive/Statistics.antt =====
-- The history functions of hub/derive.py: `_to_decimal`, `_lag`, `_recent_window`, and
-- `_zscore`.
use qkt_data_hub.Prelude.{
  ℕ, ◌-◌, ◌||◌, Option, none, some, List, [], ◌∷◌, ltb, ◌==◌, if◌then◌else◌, length, get_elem?,
  last,
}
use qkt_data_hub.Prelude.Text.{Text}
use qkt_data_hub.Prelude.Dict.{lookup, text_key}
use qkt_data_hub.Record.{Value, Payload, null, text, bool, int}
use qkt_data_hub.Record.Json.{show_ℤ}
use qkt_data_hub.Derive.Decimals.{DecimalContext}
use qkt_data_hub.Derive.Syntax.{History}

-- the chain of a `try` whose handler returns `None`
infixl 5 ◌>>=◌
abbrev ◌>>=◌ : {A B : Type 0} → Option A → (A → Option B) → Option B
none >>= f = none
some a >>= f = f a

module _ (c : DecimalContext) where
  open c use {Decimal}

  -- `_to_decimal` of `payload.get(name)`
  unfoldable pub to_decimal : Option Value → Option Decimal
  to_decimal none = none
  to_decimal (some null) = none
  to_decimal (some (bool b)) = none
  to_decimal (some (text s)) = c.create s
  to_decimal (some (int n)) = c.create (show_ℤ n)

  unfoldable pub read_field : Text → Payload → Option Decimal
  unfolding to_decimal
  read_field name payload = to_decimal (lookup name payload)

  unfoldable pub value_back : Text → Option Payload → Option Decimal
  unfolding read_field
  value_back field none = none
  value_back field (some payload) = read_field field payload

  -- `_lag`: history[-n] where n is in range
  unfoldable pub lag_value : Text → ℕ → History → Option Decimal
  unfolding value_back
  lag_value field n history =
      if n == 0 || ltb (length history) n
      then none
      else value_back field (get_elem? history (length history - n))

  -- every value, or `None` at the first hole
  unfoldable pub all_values : Text → History → Option (List Decimal)
  unfolding read_field
  all_values field [] = some []
  all_values field (payload ∷ rest) = do
    value ← read_field field payload
    values ← all_values field rest
    some (value ∷ values)

  -- `_recent_window`
  unfoldable pub recent_window : Text → ℕ → History → Option (List Decimal)
  unfolding all_values
  recent_window field window history =
      all_values field (if ltb 0 window then last window history else [])

  sum_from : Decimal → List Decimal → Option Decimal
  sum_from total [] = some total
  sum_from total (v ∷ values) = do total' ← c.add total v; sum_from total' values

  squares_from : Decimal → Decimal → List Decimal → Option Decimal
  squares_from mean total [] = some total
  squares_from mean total (v ∷ values) = do
    delta ← c.subtract v mean
    square ← c.multiply delta delta
    total' ← c.add total square
    squares_from mean total' values

  -- the `try` block of `_zscore`
  score : Decimal → List Decimal → Option Decimal
  unfolding sum_from squares_from
  score current values = do
    total ← sum_from (c.of_ℕ 0) values
    mean ← c.divide total (c.of_ℕ (length values))
    variance_num ← squares_from mean (c.of_ℕ 0) values
    variance ← c.divide variance_num (c.of_ℕ (length values - 1))
    stdev ← c.sqrt variance
    if c.is_zero stdev then none else do delta ← c.subtract current mean; c.divide delta stdev

  unfoldable pub zscore_value : Text → ℕ → ℕ → Payload → History → Option Decimal
  unfolding recent_window score
  zscore_value field window min_obs payload history = do
    current ← read_field field payload
    values ← recent_window field window history
    if ltb (length values) min_obs || ltb (length values) 2 then none else score current values
