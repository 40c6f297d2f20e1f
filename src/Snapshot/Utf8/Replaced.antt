-- ===== src/Snapshot/Utf8/Replaced.antt =====
-- bytes.decode("utf-8", errors="replace") of Python, as hub/journal.py keeps a torn line: U+FFFD stands
-- for each longest start of a character that no character completes, and for each stray byte.
use qkt_data_hub.Prelude.{
  ℕ, ◌≡◌, refl, ap, ◌∙◌, Option, none, some, [], ◌∷◌, ok, ◌==◌, if◌then◌else◌, Bool-cases,
  Option-cases, inl, inr,
}
use qkt_data_hub.Prelude.Text.{Text}
use qkt_data_hub.Snapshot.Utf8.{
  Bytes, Partial, fresh, next_byte, emit, decode_from, decode_text, encode_text,
  decode_text-encode_text,
}

abbrev pub replacement : ℕ
replacement = 65_533

abbrev give : (Partial → Text) → Option (Option ℕ × Partial) → Text → Text
give go (some (none, q)) bad = go q
give go (some (some c, q)) bad = c ∷ go q
give go none bad = replacement ∷ bad

-- A byte that does not go on with a character is read anew as the first of one.
unfoldable pub decode_replaced_from : Bytes → Partial → Text
decode_replaced_from [] p = if p.need == 0 then [] else replacement ∷ []
decode_replaced_from (b ∷ bytes) p =
    let go : Partial → Text = λ q. decode_replaced_from bytes q in
    let anew = give go (next_byte fresh b) (go fresh) in
    give go (next_byte p b) (if p.need == 0 then go fresh else anew)

unfoldable pub decode_replaced : Bytes → Text
unfolding decode_replaced_from
decode_replaced bytes = decode_replaced_from bytes fresh

-- where the strict decoder succeeds, nothing is replaced
decode_replaced_from-decode_from :
    (bytes : Bytes) (p : Partial) (s : Text)
    → decode_from bytes p ≡ some s
    → decode_replaced_from bytes p ≡ s
unfolding decode_from decode_replaced_from emit
decode_replaced_from-decode_from [] p s h = elim (Bool-cases (p.need == 0)) [
  | inl e ↦ let same : some [] ≡ some s = rw e at h in rw e cc
  | inr e ↦ cc (rw e at h)
]
decode_replaced_from-decode_from (b ∷ bytes) p s h = elim (Option-cases (next_byte p b)) [
  | inl e ↦ cc (rw e at h)
  | inr ((none, q), e) ↦ elim (Option-cases (decode_from bytes q)) [
    | inl f ↦ cc (rw (e, f) at h)
    | inr (t, f) ↦
        let same : some t ≡ some s = rw (e, f) at h in
        let t_is : t ≡ s = cc in rw e (decode_replaced_from-decode_from bytes q t f ∙ t_is)
  ]
  | inr ((some c, q), e) ↦ elim (Option-cases (decode_from bytes q)) [
    | inl f ↦ cc (rw (e, f) at h)
    | inr (t, f) ↦
        let same : some (c ∷ t) ≡ some s = rw (e, f) at h in
        let whole : c ∷ t ≡ s = cc in
        rw e (ap (λ l. c ∷ l) (decode_replaced_from-decode_from bytes q t f) ∙ whole)
  ]
]

-- What was written as UTF-8 is read back as it was.
pub decode_replaced-encode_text :
    (s : Text) {bytes : Bytes} → encode_text s ≡ ok bytes → decode_replaced bytes ≡ s
unfolding decode_replaced decode_text
decode_replaced-encode_text s {bytes} e =
    decode_replaced_from-decode_from bytes fresh s (decode_text-encode_text s e)

-- a stray byte, a character cut short, and a byte that begins anew
replaced_parts :
    decode_replaced (226 ∷ 130 ∷ 65 ∷ 255 ∷ 226 ∷ 130 ∷ [])
    ≡ replacement ∷ 65 ∷ replacement ∷ replacement ∷ []
unfolding decode_replaced next_byte
replaced_parts = refl
