-- ===== src/Derive/Lookback.antt =====
-- `lookback` is enough history: handing an expression that many of the newest entries gives what the
-- whole history gives.
use qkt_data_hub.Prelude.{
  ℕ, zero, suc, ◌+◌, ◌-◌, ◌≤◌, ◌≡◌, refl, ap, ◌∙◌, true, false, ◌||◌, [], ◌∷◌, ltb, ◌==◌, arith,
  inl, inr, Bool-cases, length, get_elem?, drop, last, last-last, length-last, length-drop,
}
use qkt_data_hub.Prelude.Text.{Text}
use qkt_data_hub.Record.{Payload}
use qkt_data_hub.Derive.{eval, call_function}
use qkt_data_hub.Derive.Decimals.{DecimalContext}
use qkt_data_hub.Derive.Syntax.{
  Node, literal, field_ref, unary, bin_op, call, Function, lag, diff, zscore, pct_rank, since,
  until, History, lookback, reach,
}
use qkt_data_hub.Derive.Statistics.{lag_value, value_back, recent_window, zscore_value}
use qkt_data_hub.Derive.Ranks.{pct_rank_value}

get_elem?-drop : (n i : ℕ) (xs : History) → get_elem? (drop n xs) i ≡ get_elem? xs (n + i)
get_elem?-drop zero i xs = ap (get_elem? xs) (omega arith)
get_elem?-drop (suc n) i [] = refl
get_elem?-drop (suc n) i (x ∷ xs) =
    let e : suc n + i ≡ suc (n + i) = omega arith in rw e (get_elem?-drop n i xs)

-- the entry that `lag` reads, counted from the end
get_elem?-last :
    (n m : ℕ) (h : History)
    → n ≤ m
    → n ≤ length h
    → get_elem? (last m h) (length (last m h) - n) ≡ get_elem? h (length h - n)
get_elem?-last n m h le fits =
    get_elem?-drop (length h - m) (length (last m h) - n) h
    ∙ ap (get_elem? h) (omega (arith, length-drop (length h - m) h))

module _ (c : DecimalContext) where
  lag_value-last :
      (field : Text) (n m : ℕ) (h : History)
      → n ≤ m
      → lag_value c field n (last m h) ≡ lag_value c field n h
  unfolding lag_value
  lag_value-last field n m h le = elim (Bool-cases (n == 0 || ltb (length h) n)) [
    | inl t ↦
        let u : (n == 0 || ltb (length (last m h)) n) ≡ true = ground (arith, length-last m h) in
        rw (t, u)
    | inr f ↦
        let u : (n == 0 || ltb (length (last m h)) n) ≡ false = ground (arith, length-last m h) in
        rw (f, u, lag_value) (ap (value_back c field) (get_elem?-last n m h le (ground arith)))
  ]

  recent_window-last :
      (field : Text) (n m : ℕ) (h : History)
      → n ≤ m
      → recent_window c field n (last m h) ≡ recent_window c field n h
  unfolding recent_window
  recent_window-last field n m h le = elim (Bool-cases (ltb 0 n)) [
    | inl t ↦ rw (t, last-last n m h le)
    | inr f ↦ rw f
  ]

  call_function-last :
      (f : Function) (field : Text) (payload : Payload) (m : ℕ) (h : History)
      → reach f ≤ m
      → call_function c f field payload (last m h) ≡ call_function c f field payload h
  unfolding call_function reach
  call_function-last (lag n) field payload m h le = rw (lag_value-last field n m h le)
  call_function-last (diff n) field payload m h le = rw (lag_value-last field n m h le)
  call_function-last (zscore n k) field payload m h le =
      unfold zscore_value in rw (recent_window-last field n m h le)
  call_function-last (pct_rank n) field payload m h le =
      unfold pct_rank_value in rw (recent_window-last field n m h le)
  call_function-last since field payload m h le = refl
  call_function-last until field payload m h le = refl

  -- With any `m` at or above its lookback, an expression evaluates over the newest `m` prior payloads
  -- as it does over all of them.
  pub eval-last :
      (node : Node c.Decimal) (payload : Payload) (m : ℕ) (h : History)
      → lookback node ≤ m
      → eval c node payload (last m h) ≡ eval c node payload h
  unfolding eval lookback
  eval-last (literal d) payload m h le = refl
  eval-last (field_ref name) payload m h le = refl
  eval-last (unary operand) payload m h le = rw (eval-last operand payload m h le)
  eval-last (bin_op op left right) payload m h le =
      rw (eval-last left payload m h (omega arith), eval-last right payload m h (omega arith))
  eval-last (call f field) payload m h le = call_function-last f field payload m h le
