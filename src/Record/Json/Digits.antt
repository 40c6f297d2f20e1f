-- ===== src/Record/Json/Digits.antt =====
-- The fuel of `show_ℕ` is enough: the decimal text of a number reads back as that number.
use qkt_data_hub.Prelude.{
  ℕ, zero, suc, ◌+◌, ◌-◌, ◌*◌, ◌/◌, ◌%◌, ◌<◌, ◌≡◌, refl, ◌∙◌, [], ◌∷◌, ◌++◌, ltb, arith, inl, inr,
  Bool-cases,
}
use qkt_data_hub.Prelude.Text.{Text}
use qkt_data_hub.Record.Json.{digits, show_ℕ}

-- `int` of a text of digits
value_from : ℕ → Text → ℕ
value_from n [] = n
value_from n (c ∷ s) = value_from (10 * n + (c - 48)) s

value_from-append :
    (n : ℕ) (s : Text) (c : ℕ) → value_from n (s ++ c ∷ []) ≡ 10 * value_from n s + (c - 48)
unfolding value_from
value_from-append n [] c = refl
value_from-append n (d ∷ s) c = value_from-append (10 * n + (d - 48)) s c

value_from-digits : (f n : ℕ) → n < f → value_from 0 (digits f n) ≡ n
unfolding digits value_from
value_from-digits zero n h = ground arith
value_from-digits (suc f) n h = elim (Bool-cases (ltb n 10)) [
  | inl e ↦ rw e (omega arith)
  | inr e ↦
      let rest : value_from 0 (digits f (n / 10)) ≡ n / 10 =
        value_from-digits f (n / 10) (ground arith) in
      rw e (value_from-append 0 (digits f (n / 10)) (48 + n % 10) ∙ rw rest (omega arith))
]

-- No digit of a number is lost: its text, read from the left, gives the number.
value_from-show_ℕ : (n : ℕ) → value_from 0 (show_ℕ n) ≡ n
unfolding show_ℕ
value_from-show_ℕ n = value_from-digits (suc n) n (omega arith)
