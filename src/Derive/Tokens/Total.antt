-- ===== src/Derive/Tokens/Total.antt =====
-- The fuel of `tokenize` is enough: every token takes a character, and with more fuel the tokens are
-- the same.
use qkt_data_hub.Prelude.{
  ◌≢◌, List, Result, ok, err, recursion_error, ◌>>=◌, err_inj, ℕ, zero, suc, ◌+◌, ◌≤◌, ◌≡◌, refl,
  ap, ◌∙◌, Bool, true, ◌&&◌, [], ◌∷◌, length, ◌==◌, arith, inl, inr, Bool-cases,
}
use qkt_data_hub.Prelude.Text.{Text}
use qkt_data_hub.Derive.Tokens.{
  Token, number, name, op, is_digit, starts_name, is_name_char, is_op, is_space, span, fraction,
  read_number, tokenize_from, tokenize,
}

span-le : (p : ℕ → Bool) (s : Text) → length (span p s).1 ≤ length s
unfolding span
span-le p [] = omega arith
span-le p (c ∷ s) = elim (Bool-cases (p c)) [
  | inl e ↦ rw e (let l = span-le p s in omega arith)
  | inr e ↦ rw e (omega arith)
]

span-lt : (p : ℕ → Bool) (c : ℕ) (s : Text) → p c ≡ true → length (span p (c ∷ s)).1 ≤ length s
unfolding span
span-lt p c s e = rw e (span-le p s)

fraction-le : (s : Text) → length (fraction s).1 ≤ length s
unfolding fraction
fraction-le [] = omega arith
fraction-le (c ∷ []) = omega arith
fraction-le (c ∷ d ∷ s) = elim (Bool-cases (c == b'.' && is_digit d)) [
  | inl e ↦ rw e (let l = span-le is_digit (d ∷ s) in omega arith)
  | inr e ↦ rw e (omega arith)
]

read_number-lt : (c : ℕ) (s : Text) → is_digit c ≡ true → length (read_number (c ∷ s)).1 ≤ length s
unfolding read_number
read_number-lt c s e =
    let l = span-lt is_digit c s e in let m = fraction-le (span is_digit (c ∷ s)).1 in omega arith

starts_name→is_name_char : (c : ℕ) → starts_name c ≡ true → is_name_char c ≡ true
unfolding is_name_char
starts_name→is_name_char c e = rw e refl

-- one more than enough fuel gives the same tokens, or the same refusal.
tokenize_from-suc : (f : ℕ) (s : Text) → length s ≤ f → tokenize_from (suc f) s ≡ tokenize_from f s
unfolding tokenize_from
tokenize_from-suc f [] h = refl
tokenize_from-suc zero (c ∷ s) h = ground arith
tokenize_from-suc (suc f) (c ∷ s) h = elim (Bool-cases (is_digit c)) [
  | inl e ↦
      let l = read_number-lt c s e in
      rw (tokenize_from-suc f (read_number (c ∷ s)).1 (omega arith), e) refl
  | inr e ↦ elim (Bool-cases (starts_name c)) [
    | inl n ↦
        let l = span-lt is_name_char c s (starts_name→is_name_char c n) in
        rw (tokenize_from-suc f (span is_name_char (c ∷ s)).1 (omega arith), e, n) refl
    | inr n ↦ elim (Bool-cases (is_op c)) [
      | inl o ↦ rw (e, n, o, tokenize_from-suc f s (omega arith)) refl
      | inr o ↦ elim (Bool-cases (is_space c)) [
        | inl w ↦ rw (e, n, o, w, tokenize_from-suc f s (omega arith)) refl
        | inr w ↦ rw (e, n, o, w) refl
      ]
    ]
  ]
]

tokenize_from-more :
    (s : Text) (k : ℕ) → tokenize_from (length s + k) s ≡ tokenize_from (length s) s
tokenize_from-more s zero = ap (λ f. tokenize_from f s) (omega arith)
tokenize_from-more s (suc k) =
    let more : length s + suc k ≡ suc (length s + k) = omega arith in
    rw more (tokenize_from-suc (length s + k) s (omega arith) ∙ tokenize_from-more s k)

-- what follows a token does not make the fuel run out
then-ne_recursion_error :
    (r : Result (List Token)) (t : Token)
    → r ≢ err recursion_error
    → (r >>= λ ts. ok (t ∷ ts)) ≢ err recursion_error
then-ne_recursion_error (ok ts) t h e = cc
then-ne_recursion_error (err x) t h e = h (ap (λ x. err x) (err_inj e))

tokenize_from-ne_recursion_error :
    (f : ℕ) (s : Text) → length s ≤ f → tokenize_from f s ≢ err recursion_error
unfolding tokenize_from
tokenize_from-ne_recursion_error f [] h = λ e. cc
tokenize_from-ne_recursion_error zero (c ∷ s) h = ground arith
tokenize_from-ne_recursion_error (suc f) (c ∷ s) h = elim (Bool-cases (is_digit c)) [
  | inl e ↦
      let l = read_number-lt c s e in
      let ih = tokenize_from-ne_recursion_error f (read_number (c ∷ s)).1 (omega arith) in
      let step =
        then-ne_recursion_error (tokenize_from f (read_number (c ∷ s)).1)
          (number (read_number (c ∷ s)).0) ih in
      rw e (rw e at step)
  | inr e ↦ elim (Bool-cases (starts_name c)) [
    | inl n ↦
        let l = span-lt is_name_char c s (starts_name→is_name_char c n) in
        let ih = tokenize_from-ne_recursion_error f (span is_name_char (c ∷ s)).1 (omega arith) in
        let step =
          then-ne_recursion_error (tokenize_from f (span is_name_char (c ∷ s)).1)
            (name (span is_name_char (c ∷ s)).0) ih in
        rw (e, n) (rw (e, n) at step)
    | inr n ↦
        let ih = tokenize_from-ne_recursion_error f s (omega arith) in
        elim (Bool-cases (is_op c)) [
          | inl o ↦ rw (e, n, o) (then-ne_recursion_error (tokenize_from f s) (op c) ih)
          | inr o ↦ elim (Bool-cases (is_space c)) [
            | inl w ↦ rw (e, n, o, w) ih
            | inr w ↦ rw (e, n, o, w) (λ x. cc)
          ]
        ]
  ]
]

-- With the length of the text as its fuel, or any more, the tokenizer gives what `tokenize` gives, and
-- that is never the `recursion_error` of fuel that runs out.
pub tokenize_from-tokenize :
    (s : Text) (k : ℕ)
    → (tokenize_from (length s + k) s ≡ tokenize s) × (tokenize s ≢ err recursion_error)
unfolding tokenize
tokenize_from-tokenize s k =
    (tokenize_from-more s k, tokenize_from-ne_recursion_error (length s) s (omega arith))
