-- ===== src/Journal/Encoded.antt =====
-- The bytes of a line: UTF-8 keeps it one line, and a file without a newline.
use qkt_data_hub.Prelude.{
  ℕ, ◌<◌, ◌≡◌, ◌≢◌, true, All-append, refl, sym, ap, ◌∙◌, [], ◌∷◌, ◌++◌, ok, >>=-eq-ok, ok_inj,
  Bool-cases, inl, inr, ltb, leb, ◌&&◌, arith,
}
use qkt_data_hub.Prelude.Text.{Text}
use mathlib.Core.List.{append_assoc}
use qkt_data_hub.Record.Json.OneLine.{IsOneLine}
use qkt_data_hub.Snapshot.Utf8.{Bytes, encode_char, encode_text}

encode_char-IsOneLine :
    (c : ℕ) {bytes : Bytes} → c ≢ 10 → encode_char c ≡ ok bytes → IsOneLine bytes
unfolding encode_char
encode_char-IsOneLine c other e = elim (Bool-cases (ltb c 128)) [
  | inl t ↦ rw (← ok_inj (rw t at e)) (other, tt)
  | inr t ↦ elim (Bool-cases (ltb c 2048)) [
    | inl u ↦ rw (← ok_inj (rw (t, u) at e)) (omega arith, (omega arith, tt))
    | inr u ↦ elim (Bool-cases (ltb c 65_536)) [
      | inl v ↦ elim (Bool-cases (leb 55_296 c && leb c 57_343)) [
        | inl w ↦ cc (rw (t, u, v, w) at e)
        | inr w ↦
            rw (← ok_inj (rw (t, u, v, w) at e)) (omega arith, (omega arith, (omega arith, tt)))
      ]
      | inr v ↦ elim (Bool-cases (ltb c 1_114_112)) [
        | inl w ↦
            rw (← ok_inj (rw (t, u, v, w) at e))
              (omega arith, (omega arith, (omega arith, (omega arith, tt))))
        | inr w ↦ cc (rw (t, u, v, w) at e)
      ]
    ]
  ]
]

pub encode_text-IsOneLine :
    (s : Text) {bytes : Bytes} → IsOneLine s → encode_text s ≡ ok bytes → IsOneLine bytes
unfolding encode_text
encode_text-IsOneLine [] one e = rw (← ok_inj e) tt
encode_text-IsOneLine (c ∷ s) one e =
    let (front, p, q) = >>=-eq-ok (encode_char c) _ e in
    let (back, r, t) = >>=-eq-ok (encode_text s) _ q in
    rw (← ok_inj t) (
      All-append (λ d. d ≢ 10) front back (encode_char-IsOneLine c one.0 p)
        (encode_text-IsOneLine s one.1 r))

-- a text that begins with an ASCII character
pub encode_text-ascii :
    (c : ℕ) (s : Text) {bytes : Bytes}
    → c < 128
    → encode_text (c ∷ s) ≡ ok bytes
    → (rest : Bytes) × (bytes ≡ c ∷ rest)
unfolding encode_text encode_char
encode_text-ascii c s ascii e =
    let small : ltb c 128 ≡ true = ground arith in
    let (back, r, t) = >>=-eq-ok (encode_text s) _ (rw small at e) in (back, sym (ok_inj t))

-- the newline that ends a line
pub encode_text-newline :
    (s : Text) {bytes : Bytes}
    → encode_text (s ++ 10 ∷ []) ≡ ok bytes
    → (line : Bytes) × (encode_text s ≡ ok line) × (bytes ≡ line ++ 10 ∷ [])
unfolding encode_text encode_char
encode_text-newline [] e = ([], refl, sym (ok_inj e))
encode_text-newline (c ∷ s) e =
    let (front, p, q) = >>=-eq-ok (encode_char c) _ e in
    let (back, r, t) = >>=-eq-ok (encode_text (s ++ 10 ∷ [])) _ q in
    let (line, made, ends) = encode_text-newline s r in
    (
      front ++ line,
      rw (p, made) refl,
      sym (ok_inj t) ∙ ap (λ b. front ++ b) ends ∙ sym (append_assoc front line (10 ∷ [])),
    )
