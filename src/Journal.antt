-- ===== src/Journal.antt =====
-- The journal's files: hub/journal.py writes them and hubread/journal.py reads them. A file is the
-- list of its bytes.
use qkt_data_hub.Prelude.{
  ℕ, zero, suc, ◌+◌, ◌-◌, Bool, true, false, not, ◌&&◌, Option, none, some, List, [], ◌∷◌, ◌++◌,
  map, keep, Result, ok, err, ◌>>=◌, ◌>>◌, require, store_error, length, ltb, leb, ◌==◌,
  if◌then◌else◌, max, drop,
}
use qkt_data_hub.Prelude.Order
use qkt_data_hub.Prelude.Text.{Text, text_eq, text_ord}
use qkt_data_hub.Prelude.Dict.{Dict, lookup, insert, text_key, pair_key}
use qkt_data_hub.Prelude.Sort.{sort_by}
pub mod Lines
pub mod Encoded
pub mod Writer
pub mod Numbered
pub mod Appended
pub mod Repaired
pub mod Open
pub mod Tail
pub mod Delivered

abbrev pub newline : ℕ
newline = 10

abbrev pub Files : Type 0
Files = Dict (Text × Text) Text

-- line.split("\n")
abbrev pub attach : ℕ → List Text → List Text
attach c [] = (c ∷ []) ∷ []
attach c (line ∷ lines) = (c ∷ line) ∷ lines

unfoldable pub split_lines : Text → List Text
split_lines [] = [] ∷ []
split_lines (c ∷ s) = if c == newline then [] ∷ split_lines s else attach c (split_lines s)

-- `if not line: continue`
abbrev pub not_blank : Text → Bool
not_blank line = not (text_eq line [])

unfoldable pub lines : Text → List Text
unfolding split_lines
lines s = keep not_blank (split_lines s)

-- the text up to the last newline, and what follows it
unfoldable pub split_tail : Text → Text × Text
split_tail [] = ([], [])
split_tail (c ∷ s) =
    let (complete, remainder) = split_tail s in
    if leb 1 (length complete)
    then (c ∷ complete, remainder)
    else if c == newline
    then (c ∷ [], remainder)
    else ([], c ∷ remainder)

-- `list_day_files`: the days of a dataset and their texts, oldest first
unfoldable pub list_day_files : Text → Files → List (Text × Text)
unfolding sort_by
list_day_files dataset files =
    sort_by (λ e. e.0) (map (λ e. (e.0.1, e.1)) (keep (λ e. text_eq e.0.0 dataset) files))
