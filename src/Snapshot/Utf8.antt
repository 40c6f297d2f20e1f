-- ===== src/Snapshot/Utf8.antt =====
-- Python's UTF-8, as hub/snapshot.py writes a text and hubread/snapshot.py reads one: strict, so
-- surrogates, overlong forms and stray bytes are refused.
pub mod Replaced
use qkt_data_hub.Prelude.{
  ℕ, ◌+◌, ◌-◌, ◌*◌, ◌/◌, ◌%◌, ◌≤◌, ◌<◌, ◌≡◌, refl, false, not, ◌&&◌, Option, none, some, List, [],
  ◌∷◌, ◌++◌, Result, ok, err, ◌>>=◌, value_error, >>=-eq-ok, ok_inj, leb, ltb, ◌==◌, if◌then◌else◌,
  Bool-cases, arith, inl, inr,
}
use qkt_data_hub.Prelude.Text.{Text}

abbrev pub Bytes : Type 0
Bytes = List ℕ

-- the bytes of one code point
unfoldable pub encode_char : ℕ → Result Bytes
encode_char c =
    if ltb c 128
    then ok (c ∷ [])
    else if ltb c 2048
    then ok ((192 + c / 64) ∷ (128 + c % 64) ∷ [])
    else if ltb c 65_536
    then (if leb 55_296 c && leb c 57_343
        then err value_error
        else ok ((224 + c / 4096) ∷ (128 + c / 64 % 64) ∷ (128 + c % 64) ∷ []))
    else if ltb c 1_114_112
    then ok
        ((240 + c / 262_144) ∷ (128 + c / 4096 % 64) ∷ (128 + c / 64 % 64) ∷ (128 + c % 64) ∷ [])
    else err value_error

-- text.encode("utf-8")
unfoldable pub encode_text : Text → Result Bytes
unfolding encode_char
encode_text [] = ok []
encode_text (c ∷ s) = do front ← encode_char c; back ← encode_text s; ok (front ++ back)

-- Between two bytes: how many are still to come of a code point, its bits so far, and the bounds of
-- the next byte.
pub record Partial : Type 0 where
  pub need : ℕ
  pub bits : ℕ
  pub low : ℕ
  pub high : ℕ

abbrev pub fresh : Partial
fresh = record { need = 0; bits = 0; low = 128; high = 191 }

expect : ℕ → ℕ → ℕ → ℕ → Option (Option ℕ × Partial)
expect need bits low high = some (none, record { need = need; bits = bits; low = low; high = high })

-- the first byte of a code point
first_byte : ℕ → Option (Option ℕ × Partial)
unfolding expect
first_byte b =
    if ltb b 128
    then some (some b, fresh)
    else if ltb b 194
    then none
    else if ltb b 224
    then expect 1 (b - 192) 128 191
    else if ltb b 240
    then expect 2 (b - 224) (if b == 224 then 160 else 128) (if b == 237 then 159 else 191)
    else if ltb b 245
    then expect 3 (b - 240) (if b == 240 then 144 else 128) (if b == 244 then 143 else 191)
    else none

pub next_byte : Partial → ℕ → Option (Option ℕ × Partial)
unfolding expect first_byte
next_byte p b =
    if p.need == 0
    then first_byte b
    else if not (leb p.low b && leb b p.high)
    then none
    else if p.need == 1
    then some (some (p.bits * 64 + (b - 128)), fresh)
    else expect (p.need - 1) (p.bits * 64 + (b - 128)) 128 191

emit : Option ℕ → Option Text → Option Text
emit out none = none
emit none (some s) = some s
emit (some c) (some s) = some (c ∷ s)

abbrev pub and_then : {A B : Type 0} → Option A → (A → Option B) → Option B
and_then none next = none
and_then (some a) next = next a

-- bytes.decode("utf-8"), `none` where it raises
unfoldable pub decode_from : Bytes → Partial → Option Text
unfolding emit
decode_from [] p = if p.need == 0 then some [] else none
decode_from (b ∷ bytes) p = and_then (next_byte p b) (λ r. emit r.0 (decode_from bytes r.1))

unfoldable pub decode_text : Bytes → Option Text
unfolding decode_from
decode_text bytes = decode_from bytes fresh

continues :
    (b : ℕ) (bytes : Bytes) (p q : Partial) (s : Text)
    → next_byte p b ≡ some (none, q)
    → decode_from bytes q ≡ some s
    → decode_from (b ∷ bytes) p ≡ some s
unfolding decode_from emit
continues b bytes p q s e h = rw (e, h) refl

completes :
    (b : ℕ) (bytes : Bytes) (p : Partial) (c : ℕ) (s : Text)
    → next_byte p b ≡ some (some c, fresh)
    → decode_from bytes fresh ≡ some s
    → decode_from (b ∷ bytes) p ≡ some (c ∷ s)
unfolding decode_from emit
completes b bytes p c s e h = rw (e, h) refl

abbrev lead : ℕ → ℕ → ℕ → ℕ → Partial
lead need bits low high = record { need = need; bits = bits; low = low; high = high }

module _ (c : ℕ) (back : Bytes) (s : Text) (h : decode_from back fresh ≡ some s) where
  one_byte : c < 128 → decode_from (c ∷ back) fresh ≡ some (c ∷ s)
  unfolding next_byte first_byte
  one_byte lt = completes c back fresh c s (ground arith) h

  last_byte :
      decode_from
        ((128 + c % 64) ∷ back)
        (record { need = 1; bits = c / 64; low = 128; high = 191 })
      ≡ some (c ∷ s)
  unfolding next_byte
  last_byte = completes _ back _ c s (ground arith) h

  two_bytes :
      128 ≤ c → c < 2048 → decode_from ((192 + c / 64) ∷ (128 + c % 64) ∷ back) fresh ≡ some (c ∷ s)
  unfolding next_byte first_byte expect
  two_bytes le lt = continues _ _ _ _ _ (ground arith) last_byte

  three_bytes :
      2048 ≤ c
      → c < 65_536
      → (leb 55_296 c && leb c 57_343) ≡ false
      → decode_from ((224 + c / 4096) ∷ (128 + c / 64 % 64) ∷ (128 + c % 64) ∷ back) fresh
        ≡ some (c ∷ s)
  unfolding next_byte first_byte expect
  three_bytes le lt no_surrogate =
      continues _ _ _
        (lead 2 (c / 4096) (if c / 4096 == 0 then 160 else 128)
          (if c / 4096 == 13 then 159 else 191))
        _ (ground arith) (continues _ _ _ _ _ (ground arith) last_byte)

  four_bytes :
      65_536 ≤ c
      → c < 1_114_112
      → decode_from
          ((240 + c / 262_144)
            ∷ (128 + c / 4096 % 64)
            ∷ (128 + c / 64 % 64)
            ∷ (128 + c % 64)
            ∷ back)
          fresh
        ≡ some (c ∷ s)
  unfolding next_byte first_byte expect
  four_bytes le lt =
      continues _ _ _
        (lead 3 (c / 262_144) (if c / 262_144 == 0 then 144 else 128)
          (if c / 262_144 == 4 then 143 else 191))
        _ (ground arith)
        (continues _ _ _ (lead 2 (c / 4096) 128 191) _ (ground arith)
          (continues _ _ _ (lead 1 (c / 64) 128 191) _ (ground arith) last_byte))

decode_from-encode_char :
    (c : ℕ) (front back : Bytes) (s : Text)
    → encode_char c ≡ ok front
    → decode_from back fresh ≡ some s
    → decode_from (front ++ back) fresh ≡ some (c ∷ s)
unfolding encode_char
decode_from-encode_char c front back s e h = elim (Bool-cases (ltb c 128)) [
  | inl t ↦ rw (← ok_inj (rw t at e)) (one_byte c back s h (ground arith))
  | inr t ↦ elim (Bool-cases (ltb c 2048)) [
    | inl u ↦ rw (← ok_inj (rw (t, u) at e)) (two_bytes c back s h (ground arith) (ground arith))
    | inr u ↦ elim (Bool-cases (ltb c 65_536)) [
      | inl v ↦ elim (Bool-cases (leb 55_296 c && leb c 57_343)) [
        | inl w ↦ cc (rw (t, u, v, w) at e)
        | inr w ↦
            rw (← ok_inj (rw (t, u, v, w) at e))
              (three_bytes c back s h (ground arith) (ground arith) w)
      ]
      | inr v ↦ elim (Bool-cases (ltb c 1_114_112)) [
        | inl w ↦
            rw (← ok_inj (rw (t, u, v, w) at e))
              (four_bytes c back s h (ground arith) (ground arith))
        | inr w ↦ cc (rw (t, u, v, w) at e)
      ]
    ]
  ]
]

-- What is written as UTF-8 is read back.
pub decode_text-encode_text :
    (s : Text) {bytes : Bytes} → encode_text s ≡ ok bytes → decode_text bytes ≡ some s
unfolding encode_text decode_text
decode_text-encode_text [] e = rw (← ok_inj e) (unfold decode_from in refl)
decode_text-encode_text (c ∷ s) e =
    let (front, p, q) = >>=-eq-ok (encode_char c) _ e in
    let (back, r, t) = >>=-eq-ok (encode_text s) _ q in
    rw (← ok_inj t) (decode_from-encode_char c front back s p (decode_text-encode_text s r))
