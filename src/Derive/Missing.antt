-- ===== src/Derive/Missing.antt =====
-- Missing data stays missing: one missing part makes the whole expression missing.
use qkt_data_hub.Prelude.{
  ◌≡◌, refl, ap, none, some, Option, ◌⊎◌, inl, inr, Result, ok, err, ◌>>=◌, Exception,
}
use qkt_data_hub.Record.{Payload}
use qkt_data_hub.Derive.{eval, with_both, with_one, apply_operator}
use qkt_data_hub.Derive.Decimals.{DecimalContext}
use qkt_data_hub.Derive.Syntax.{Node, unary, bin_op, Operator, History}

-- `part` is a subexpression
pub data Within {D : Type 0} (part : Node D) : Node D → Type 0 where
  here : Within part part
  operand : {n : Node D} → Within part n → Within part (unary n)
  left : {l : Node D} (op : Operator) (r : Node D) → Within part l → Within part (bin_op op l r)
  right : {r : Node D} (op : Operator) (l : Node D) → Within part r → Within part (bin_op op l r)

-- no value: `None`, or an exception on the way
abbrev pub HasNoValue : {D : Type 0} → Result (Option D) → Type 0
HasNoValue r = (r ≡ ok none) ⊎ ((e : Exception) × (r ≡ err e))

module _ (c : DecimalContext) (payload : Payload) (h : History) where
  both_missing_left :
      (f : c.Decimal → c.Decimal → Option c.Decimal) (b : Option c.Decimal)
      → with_both c f none b ≡ none
  both_missing_left f b = refl

  both_missing_right :
      (f : c.Decimal → c.Decimal → Option c.Decimal) (a : Option c.Decimal)
      → with_both c f a none ≡ none
  both_missing_right f none = refl
  both_missing_right f (some a) = refl

  left_missing :
      (f : c.Decimal → c.Decimal → Option c.Decimal) (r s : Result (Option c.Decimal))
      → HasNoValue r
      → HasNoValue (r >>= λ a. s >>= λ b. ok (with_both c f a b))
  left_missing f r (ok b) (inl e) = rw e (inl refl)
  left_missing f r (err x) (inl e) = rw e (inr (x, refl))
  left_missing f r s (inr (x, e)) = rw e (inr (x, refl))

  right_missing :
      (f : c.Decimal → c.Decimal → Option c.Decimal) (r s : Result (Option c.Decimal))
      → HasNoValue s
      → HasNoValue (r >>= λ a. s >>= λ b. ok (with_both c f a b))
  right_missing f (ok a) s (inl e) = rw e (inl (ap ok (both_missing_right f a)))
  right_missing f (ok a) s (inr (x, e)) = rw e (inr (x, refl))
  right_missing f (err x) s m = inr (x, refl)

  one_missing :
      (f : c.Decimal → Option c.Decimal) (r : Result (Option c.Decimal))
      → HasNoValue r
      → HasNoValue (r >>= λ a. ok (with_one c f a))
  one_missing f r (inl e) = rw e (inl refl)
  one_missing f r (inr (x, e)) = rw e (inr (x, refl))

  -- If a part of an expression has no value, the expression has none: no operator turns missing data
  -- into a number.
  pub eval-missing :
      {part node : Node c.Decimal}
      → Within part node
      → HasNoValue (eval c part payload h)
      → HasNoValue (eval c node payload h)
  unfolding eval
  eval-missing here m = m
  eval-missing (operand w) m = one_missing c.minus _ (eval-missing w m)
  eval-missing (left op r w) m =
      left_missing (apply_operator c op) _ (eval c r payload h) (eval-missing w m)
  eval-missing (right op l w) m =
      right_missing (apply_operator c op) (eval c l payload h) _ (eval-missing w m)
