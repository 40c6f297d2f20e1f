-- ===== src/Derive/Decimals.antt =====
-- Python's `decimal`, under the context `CTX` in hub/derive.py. A trapped signal (division by zero,
-- an invalid operation, overflow) is `none` where the source catches it.
use qkt_data_hub.Prelude.{ℕ, Bool, Option, Result}
use qkt_data_hub.Prelude.Int.{ℤ}
use qkt_data_hub.Prelude.Text.{Text}

pub record DecimalContext : Type 1 where
  pub Decimal : Type 0
  -- CTX.create_decimal(text)
  pub create : Text → Option Decimal
  -- Decimal(n)
  pub of_ℕ : ℕ → Decimal
  pub minus : Decimal → Option Decimal
  pub add : Decimal → Decimal → Option Decimal
  pub subtract : Decimal → Decimal → Option Decimal
  pub multiply : Decimal → Decimal → Option Decimal
  pub divide : Decimal → Decimal → Option Decimal
  -- d.sqrt(CTX)
  pub sqrt : Decimal → Option Decimal
  -- d == 0
  pub is_zero : Decimal → Bool
  -- a < b, which raises on a NaN
  pub less : Decimal → Decimal → Result Bool
  -- `decimal_str` of hubread/record.py on a decimal, which raises on one that is not finite
  pub decimal_str : Decimal → Result Text
  -- `decimal_str` on a text, where a value that is refused is `none`
  pub canonical : Text → Option Text
  -- Decimal(text).scaleb(SCALE) of hub/schema.py as an integer, `none` where it is not whole
  pub units : Text → Option ℤ
  -- Decimal(a) < Decimal(b), which raises where one is not a decimal
  pub below : Text → Text → Result Bool
  -- int(Decimal(text).scaleb(SCALE)) of hub/snapshot.py, which raises `StoreError` where the text is
  -- no decimal or the product is not whole, and `OverflowError` at infinity
  pub scaled : Text → Result ℤ
  -- decimal_str(Decimal(n).scaleb(-scale)) of hubread/snapshot.py
  pub scaled_text : ℤ → ℕ → Result Text
