-- ===== src/Record/Names.antt =====
-- The three patterns of hubread/record.py, `DATASET_RE`, `SCOPE_RE` and `FIELD_NAME_RE`, as
-- matchers over code points. Python's `$` also matches before one newline at the end.
use qkt_data_hub.Prelude.{
  ℕ, Bool, true, false, ◌&&◌, ◌||◌, List, [], ◌∷◌, leb, ◌==◌, if◌then◌else◌, length,
}
use qkt_data_hub.Prelude.Text.{Text, codes, text_eq}

abbrev pub all_of : (ℕ → Bool) → Text → Bool
all_of p [] = true
all_of p (c ∷ s) = p c && all_of p s

abbrev pub any_of : (ℕ → Bool) → Text → Bool
any_of p [] = false
any_of p (c ∷ s) = p c || any_of p s

-- `text in texts`
unfoldable pub elem : Text → List Text → Bool
elem t [] = false
elem t (s ∷ l) = text_eq s t || elem t l

-- the text that `$` looks at: without a newline at its end
unfoldable pub chomp : Text → Text
chomp [] = []
chomp (c ∷ []) = if c == 10 then [] else c ∷ []
chomp (c ∷ d ∷ s) = c ∷ chomp (d ∷ s)

is_lower : ℕ → Bool
is_lower c = leb b'a' c && leb c b'z'

is_upper : ℕ → Bool
is_upper c = leb b'A' c && leb c b'Z'

is_digit : ℕ → Bool
is_digit c = leb b'0' c && leb c b'9'

-- [a-z0-9_]
is_word : ℕ → Bool
unfolding is_lower is_digit
is_word c = is_lower c || is_digit c || c == b'_'

-- [A-Z0-9_:-]
is_scope_char : ℕ → Bool
unfolding is_upper is_digit
is_scope_char c = is_upper c || is_digit c || c == b'_' || c == b':' || c == b'-'

-- [a-z][a-z0-9_]*
snake_case : Text → Bool
unfolding is_word is_lower
snake_case [] = false
snake_case (c ∷ s) = is_lower c && all_of is_word s

unfoldable pub matches_field_name : Text → Bool
unfolding snake_case chomp
matches_field_name s = snake_case (chomp s)

unfoldable pub matches_scope : Text → Bool
unfolding is_scope_char is_upper chomp
matches_scope s =
    let t = chomp s in
    all_of is_scope_char t && any_of is_upper t && leb 1 (length t) && leb (length t) 64

-- s.split(".")
unfoldable pub split_dots : Text → List Text
split_dots [] = [] ∷ []
split_dots (c ∷ s) = elim (split_dots s) [
  | [] ↦ (c ∷ []) ∷ []
  | w ∷ ws ↦ if c == b'.' then [] ∷ w ∷ ws else (c ∷ w) ∷ ws
]

all_segments : List Text → Bool
unfolding is_word
all_segments [] = true
all_segments ([] ∷ ws) = false
all_segments ((c ∷ w) ∷ ws) = all_of is_word (c ∷ w) && all_segments ws

segments_ok : List Text → Bool
unfolding snake_case all_segments
segments_ok [] = false
segments_ok (w ∷ ws) = snake_case w && all_segments ws && leb 1 (length ws) && leb (length ws) 4

unfoldable pub matches_dataset : Text → Bool
unfolding segments_ok split_dots chomp
matches_dataset s = segments_ok (split_dots (chomp s))

first_of_list : List Text → Text
first_of_list [] = []
first_of_list (w ∷ ws) = w

-- dataset.split(".", 1)[0]
unfoldable pub domain : Text → Text
unfolding split_dots first_of_list
domain s = first_of_list (split_dots s)

-- `DOMAINS`
abbrev pub domains : List Text
domains =
    codes "macro"
    ∷ codes "cal"
    ∷ codes "rates"
    ∷ codes "cb"
    ∷ codes "pos"
    ∷ codes "inv"
    ∷ codes "corp"
    ∷ codes "venue"
    ∷ codes "mkt"
    ∷ codes "text"
    ∷ codes "hub"
    ∷ []

-- `RESERVED_FIELD_NAMES`
abbrev pub reserved_field_names : List Text
reserved_field_names = codes "known_at" ∷ codes "effective_at" ∷ codes "revision" ∷ []
