-- ===== src/Derive/Tokens.antt =====
-- `_tokenize` of hub/derive.py: `_TOKEN_RE` at each position. Of the digits that \d matches it knows
-- those of ASCII; the model takes a text with others for one that is refused.
use qkt_data_hub.Prelude.{
  ℕ, zero, suc, Bool, ◌&&◌, ◌||◌, List, [], ◌∷◌, ◌++◌, leb, ◌==◌, Result, ok, err, schema_error,
  recursion_error, ◌>>=◌, if◌then◌else◌, length,
}
use qkt_data_hub.Prelude.Text.{Text}
-- `_Token` without its position, which only an error message uses

pub mod Total

pub data Token : Type 0 where
  number : Text → Token
  name : Text → Token
  op : ℕ → Token

-- \d
unfoldable pub is_digit : ℕ → Bool
is_digit c = leb b'0' c && leb c b'9'

-- [A-Za-z_]
unfoldable pub starts_name : ℕ → Bool
starts_name c = (leb b'a' c && leb c b'z') || (leb b'A' c && leb c b'Z') || c == b'_'

is_name_char : ℕ → Bool
unfolding starts_name is_digit
is_name_char c = starts_name c || is_digit c

-- [+\-*/(),=]
unfoldable pub is_op : ℕ → Bool
is_op c =
    c == b'+'
    || c == b'-'
    || c == b'*'
    || c == b'/'
    || c == b'('
    || c == b')'
    || c == b','
    || c == b'='

-- \s, which matches the white space of Unicode
unfoldable pub is_space : ℕ → Bool
is_space c =
    (leb 9 c && leb c 13)
    || (leb 28 c && leb c 32)
    || c == 133
    || c == 160
    || c == 5_760
    || (leb 8_192 c && leb c 8_202)
    || c == 8_232
    || c == 8_233
    || c == 8_239
    || c == 8_287
    || c == 12_288

-- the longest prefix of characters that pass, and the rest
unfoldable pub span : (ℕ → Bool) → Text → Text × Text
span p [] = ([], [])
span p (c ∷ s) = let (taken, rest) = span p s in if p c then (c ∷ taken, rest) else ([], c ∷ s)

-- (\.\d+)?
fraction : Text → Text × Text
unfolding span is_digit
fraction [] = ([], [])
fraction (c ∷ []) = ([], c ∷ [])
fraction (c ∷ d ∷ s) =
    if c == b'.' && is_digit d
    then (let (taken, rest) = span is_digit (d ∷ s) in (c ∷ taken, rest))
    else ([], c ∷ d ∷ s)

-- \d+(\.\d+)?
read_number : Text → Text × Text
unfolding fraction
read_number s =
    let (whole, after) = span is_digit s in
    let (part, rest) = fraction after in (whole ++ part, rest)

-- Each token takes a character, so the length of the text is fuel enough; to run out of it is `recursion_error`,
-- which no text gives.
pub tokenize_from : ℕ → Text → Result (List Token)
unfolding read_number is_name_char is_op is_space
tokenize_from f [] = ok []
tokenize_from zero (c ∷ s) = err recursion_error
tokenize_from (suc f) (c ∷ s) =
    let (digits, after_digits) = read_number (c ∷ s) in
    let (letters, after_letters) = span is_name_char (c ∷ s) in
    let with_number : Result (List Token) = (do
      ts ← tokenize_from f after_digits
      ok (number digits ∷ ts)) in
    let with_name : Result (List Token) = (do
      ts ← tokenize_from f after_letters
      ok (name letters ∷ ts)) in
    let with_op : Result (List Token) = (do ts ← tokenize_from f s; ok (op c ∷ ts)) in
    let skipped = tokenize_from f s in
    if is_digit c
    then with_number
    else if starts_name c
    then with_name
    else if is_op c
    then with_op
    else if is_space c
    then skipped
    else err schema_error

unfoldable pub tokenize : Text → Result (List Token)
unfolding tokenize_from
tokenize s = tokenize_from (length s) s
