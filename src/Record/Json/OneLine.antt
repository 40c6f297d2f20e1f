-- ===== src/Record/Json/OneLine.antt =====
-- `canonical_json` writes one line: every newline in it is escaped.
use mathlib.Core.List.{flat_map}
use qkt_data_hub.Prelude.{
  ℕ, zero, suc, ◌/◌, ◌≡◌, ◌≢◌, refl, true, false, List, [], ◌∷◌, All, All-append, arith, ltb, inl,
  inr, Bool-cases,
}
use qkt_data_hub.Prelude.Int.{pos, negsuc}
use qkt_data_hub.Prelude.Sort.{sort_by}
use qkt_data_hub.Prelude.Text.{Text, text_ord}
use qkt_data_hub.Prelude.Dict.{Dict}
use qkt_data_hub.Record.{Value, null, text, bool, int}
use qkt_data_hub.Record.Json.{
  Json, leaf, object, digits, show_ℕ, show_ℤ, hex_digit, escape, quote, show_value, comma_separated,
  members, show_object, show_json, canonical_json,
}

abbrev pub IsOneLine : Text → Type 0
IsOneLine s = All (λ c. c ≢ 10) s

escape-IsOneLine : (c : ℕ) → IsOneLine (escape c)
unfolding escape hex_digit
escape-IsOneLine c = ground arith

flat_map-IsOneLine : (s : Text) → IsOneLine (flat_map escape s)
unfolding flat_map
flat_map-IsOneLine [] = tt
flat_map-IsOneLine (c ∷ s) =
    All-append (λ d. d ≢ 10) (escape c) (flat_map escape s) (escape-IsOneLine c)
      (flat_map-IsOneLine s)

quote-IsOneLine : (s : Text) → IsOneLine (quote s)
unfolding quote
quote-IsOneLine s = (
  omega arith,
  All-append (λ d. d ≢ 10) (flat_map escape s) (34 ∷ []) (flat_map-IsOneLine s) (omega arith, tt),
)

digits-IsOneLine : (f n : ℕ) → IsOneLine (digits f n)
unfolding digits
digits-IsOneLine zero n = tt
digits-IsOneLine (suc f) n = elim (Bool-cases (ltb n 10)) [
  | inl e ↦ rw e (omega arith, tt)
  | inr e ↦ rw e (
      All-append (λ d. d ≢ 10) (digits f (n / 10)) _ (digits-IsOneLine f (n / 10))
        (omega arith, tt))
]

show_ℕ-IsOneLine : (n : ℕ) → IsOneLine (show_ℕ n)
unfolding show_ℕ
show_ℕ-IsOneLine n = digits-IsOneLine (suc n) n

show_value-IsOneLine : (v : Value) → IsOneLine (show_value v)
unfolding show_value show_ℤ
show_value-IsOneLine null = (omega arith, (omega arith, (omega arith, (omega arith, tt))))
show_value-IsOneLine (text s) = quote-IsOneLine s
show_value-IsOneLine (bool true) = (omega arith, (omega arith, (omega arith, (omega arith, tt))))
show_value-IsOneLine (bool false) =
    (omega arith, (omega arith, (omega arith, (omega arith, (omega arith, tt)))))
show_value-IsOneLine (int (pos n)) = show_ℕ-IsOneLine n
show_value-IsOneLine (int (negsuc n)) = (omega arith, show_ℕ-IsOneLine (suc n))

comma_separated-IsOneLine : (l : List Text) → All IsOneLine l → IsOneLine (comma_separated l)
unfolding comma_separated
comma_separated-IsOneLine [] h = tt
comma_separated-IsOneLine (s ∷ []) h = h.0
comma_separated-IsOneLine (s ∷ t ∷ l) h =
    All-append (λ d. d ≢ 10) s _ h.0 (omega arith, comma_separated-IsOneLine (t ∷ l) h.1)

members-IsOneLine :
    {V : Type 0} (show : V → Text) (d : Dict Text V)
    → ((v : V) → IsOneLine (show v))
    → All IsOneLine (members show d)
unfolding members
members-IsOneLine show [] h = tt
members-IsOneLine show ((k, v) ∷ d) h = (
  All-append (λ c. c ≢ 10) (quote k) _ (quote-IsOneLine k) (omega arith, h v),
  members-IsOneLine show d h,
)

show_object-IsOneLine :
    {V : Type 0} (show : V → Text) (d : Dict Text V)
    → ((v : V) → IsOneLine (show v))
    → IsOneLine (show_object show d)
unfolding show_object
show_object-IsOneLine show d h =
    let sorted = sort_by (λ e. e.0) d in
    (
      omega arith,
      All-append (λ c. c ≢ 10) (comma_separated (members show sorted)) _
          (comma_separated-IsOneLine (members show sorted) (members-IsOneLine show sorted h))
          (omega arith, tt),
    )

show_json-IsOneLine : (j : Json) → IsOneLine (show_json j)
unfolding show_json
show_json-IsOneLine (leaf v) = show_value-IsOneLine v
show_json-IsOneLine (object d) = show_object-IsOneLine show_value d show_value-IsOneLine

pub canonical_json-IsOneLine : (d : Dict Text Json) → IsOneLine (canonical_json d)
unfolding canonical_json
canonical_json-IsOneLine d = show_object-IsOneLine show_json d show_json-IsOneLine

pub canonical_json-cons : (d : Dict Text Json) → (rest : Text) × (canonical_json d ≡ b'{' ∷ rest)
unfolding canonical_json show_object
canonical_json-cons d = (_, refl)
