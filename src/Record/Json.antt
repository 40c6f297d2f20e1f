-- ===== src/Record/Json.antt =====
-- `canonical_json` of hubread/record.py: keys sorted, no spaces, text as it is but for escapes.
use mathlib.Core.List.{flat_map}
use qkt_data_hub.Prelude.{
  ℕ, zero, suc, ◌+◌, ◌/◌, ◌%◌, true, false, List, [], ◌∷◌, ◌++◌, ltb, ◌==◌, if◌then◌else◌,
}
use qkt_data_hub.Prelude.Text.{Text, codes, text_lt, text_ord}
use qkt_data_hub.Prelude.Dict.{Dict}
use qkt_data_hub.Prelude.Sort.{sort_by}
use qkt_data_hub.Prelude.Int.{ℤ, pos, negsuc}
use qkt_data_hub.Record.{Value, Payload, null, text, bool, int}
pub mod OneLine
pub mod Digits

-- decimal digits; a number has fewer digits than the fuel that it is given
digits : ℕ → ℕ → Text
digits zero n = []
digits (suc f) n =
    let rest = digits f (n / 10) in if ltb n 10 then (48 + n) ∷ [] else rest ++ (48 + n % 10) ∷ []

-- str(n)
unfoldable pub show_ℕ : ℕ → Text
unfolding digits
show_ℕ n = digits (suc n) n

unfoldable pub show_ℤ : ℤ → Text
unfolding show_ℕ
show_ℤ (pos n) = show_ℕ n
show_ℤ (negsuc n) = b'-' ∷ show_ℕ (suc n)

hex_digit : ℕ → ℕ
hex_digit d = if ltb d 10 then 48 + d else 87 + d

-- the escapes of `json.dumps(…, ensure_ascii=False)`
escape : ℕ → Text
unfolding hex_digit
escape c =
    if c == 34
    then 92 ∷ 34 ∷ []
    else if c == 92
    then 92 ∷ 92 ∷ []
    else if c == 10
    then 92 ∷ b'n' ∷ []
    else if c == 13
    then 92 ∷ b'r' ∷ []
    else if c == 9
    then 92 ∷ b't' ∷ []
    else if c == 12
    then 92 ∷ b'f' ∷ []
    else if c == 8
    then 92 ∷ b'b' ∷ []
    else if ltb c 32
    then 92 ∷ b'u' ∷ 48 ∷ 48 ∷ hex_digit (c / 16) ∷ hex_digit (c % 16) ∷ []
    else c ∷ []

quote : Text → Text
unfolding escape
quote s = 34 ∷ (flat_map escape s ++ 34 ∷ [])

show_value : Value → Text
unfolding quote show_ℤ
show_value null = codes "null"
show_value (text s) = quote s
show_value (bool true) = codes "true"
show_value (bool false) = codes "false"
show_value (int n) = show_ℤ n

-- What a record's JSON holds: values, and one object of values.
pub data Json : Type 0 where
  leaf : Value → Json
  object : Payload → Json

comma_separated : List Text → Text
comma_separated [] = []
comma_separated (s ∷ []) = s
comma_separated (s ∷ t ∷ l) = s ++ b',' ∷ comma_separated (t ∷ l)

members : {V : Type 0} → (V → Text) → Dict Text V → List Text
unfolding quote
members show [] = []
members show ((k, v) ∷ d) = (quote k ++ b':' ∷ show v) ∷ members show d

show_object : {V : Type 0} → (V → Text) → Dict Text V → Text
unfolding members comma_separated sort_by text_lt
show_object show d = b'{' ∷ (comma_separated (members show (sort_by (λ e. e.0) d)) ++ b'}' ∷ [])

show_json : Json → Text
unfolding show_value show_object
show_json (leaf v) = show_value v
show_json (object d) = show_object show_value d

-- `canonical_json` of a payload
unfoldable pub canonical_payload : Payload → Text
unfolding show_object show_value
canonical_payload d = show_object show_value d

-- `canonical_json` of an envelope
unfoldable pub canonical_json : Dict Text Json → Text
unfolding show_object show_json
canonical_json d = show_object show_json d
