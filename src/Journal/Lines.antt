-- ===== src/Journal/Lines.antt =====
-- How the lines of a file grow, and where its last complete line ends.
use mathlib.Core.List.{append-nil, append_assoc}
use qkt_data_hub.Prelude.{
  ℕ, ◌≡◌, refl, ap, ◌∙◌, true, false, List, [], ◌∷◌, ◌++◌, keep, keep-append, length, leb, ◌==◌,
  arith, inl, inr, ◌⊎◌, Bool-cases,
}
use qkt_data_hub.Prelude.Text.{Text, text_eq}
use qkt_data_hub.Record.Json.OneLine.{IsOneLine}
use qkt_data_hub.Journal.{newline, split_lines, not_blank, lines, split_tail}

split_lines-cons : (s : Text) → (l : Text) × (ls : List Text) × (split_lines s ≡ l ∷ ls)
unfolding split_lines
split_lines-cons [] = ([], [], refl)
split_lines-cons (c ∷ s) = elim (Bool-cases (c == newline)) [
  | inl e ↦ rw e ([], split_lines s, refl)
  | inr e ↦ let (l, ls, p) = split_lines-cons s in rw (e, p) (c ∷ l, ls, refl)
]

split_lines-append : (a s : Text) → split_lines (a ++ newline ∷ s) ≡ split_lines a ++ split_lines s
unfolding split_lines
split_lines-append [] s = refl
split_lines-append (c ∷ a) s = elim (Bool-cases (c == newline)) [
  | inl e ↦ rw e (ap (λ ls. [] ∷ ls) (split_lines-append a s))
  | inr e ↦ let (l, ls, p) = split_lines-cons a in rw (e, split_lines-append a s, p) refl
]

pub lines-append : (a s : Text) → lines (a ++ newline ∷ s) ≡ lines a ++ lines s
unfolding lines
lines-append a s =
    ap (keep not_blank) (split_lines-append a s)
    ∙ keep-append not_blank (split_lines a) (split_lines s)

split_lines-IsOneLine : (s : Text) → IsOneLine s → split_lines s ≡ s ∷ []
unfolding split_lines
split_lines-IsOneLine [] h = refl
split_lines-IsOneLine (c ∷ s) h = rw (split_lines-IsOneLine s h.1) (ground arith)

-- a file that holds whole lines alone
abbrev pub IsWhole : Text → Type 0
IsWhole s = (s ≡ []) ⊎ ((a : Text) × (s ≡ a ++ newline ∷ []))

lines-nil : lines [] ≡ []
unfolding lines split_lines text_eq
lines-nil = refl

lines-one : (c : ℕ) (line : Text) → IsOneLine (c ∷ line) → lines (c ∷ line) ≡ (c ∷ line) ∷ []
unfolding lines text_eq
lines-one c line h = ap (keep not_blank) (split_lines-IsOneLine (c ∷ line) h)

lines-line :
    (c : ℕ) (line : Text)
    → IsOneLine (c ∷ line)
    → lines ((c ∷ line) ++ newline ∷ []) ≡ (c ∷ line) ∷ []
lines-line c line h =
    lines-append (c ∷ line) [] ∙ rw (lines-nil, append-nil (lines (c ∷ line))) (lines-one c line h)

-- One more line in a file of whole lines is one more line of the file.
pub lines-add :
    (s : Text) (c : ℕ) (line : Text)
    → IsWhole s
    → IsOneLine (c ∷ line)
    → lines (s ++ ((c ∷ line) ++ newline ∷ [])) ≡ lines s ++ (c ∷ line) ∷ []
lines-add s c line (inl e) h = rw (e, lines-nil) (lines-line c line h)
lines-add s c line (inr (a, e)) h =
    let added = (c ∷ line) ++ newline ∷ [] in
    rw e (
      ap lines (append_assoc a (newline ∷ []) added)
      ∙ lines-append a added
      ∙ rw (lines-append a [], lines-nil, append-nil (lines a), lines-line c line h) refl)

-- a text in two parts, of which the first holds whole lines and the second no newline
pub record IsCut (s : Text) (p : Text × Text) : Type 0 where
  pub joined : p.0 ++ p.1 ≡ s
  pub whole : IsWhole p.0
  pub rest : IsOneLine p.1

pub no_text : (s : Text) → leb 1 (length s) ≡ false → s ≡ []
no_text [] e = refl
no_text (c ∷ s) e = ground arith

cons-IsWhole : (c : ℕ) (s : Text) → leb 1 (length s) ≡ true → IsWhole s → IsWhole (c ∷ s)
cons-IsWhole c s e (inl p) = let none_left : leb 1 0 ≡ true = rw p at e in ground arith
cons-IsWhole c s e (inr (a, p)) = inr (c ∷ a, ap (λ t. c ∷ t) p)

IsCut-cons : (c : ℕ) (s : Text) → IsCut s (split_tail s) → IsCut (c ∷ s) (split_tail (c ∷ s))
unfolding split_tail
IsCut-cons c s w = elim (Bool-cases (leb 1 (length (split_tail s).0))) [
  | inl e ↦ rw e (record {
    joined = ap (λ t. c ∷ t) w.joined;
    whole = cons-IsWhole c (split_tail s).0 e w.whole;
    rest = w.rest;
  })
  | inr e ↦
      let left : (split_tail s).1 ≡ s = rw (no_text (split_tail s).0 e) at w.joined in
      elim (Bool-cases (c == newline)) [
        | inl n ↦
            let is_newline : c ≡ newline = ground arith in
            rw (e, n)
              (record {
                joined = ap (λ t. c ∷ t) left;
                whole = inr ([], ap (λ d. d ∷ []) is_newline);
                rest = w.rest;
              })
        | inr n ↦
            rw (e, n)
              (record {
                joined = ap (λ t. c ∷ t) left;
                whole = inl refl;
                rest = (ground arith, w.rest);
              })
      ]
]

-- The cut of `split_tail` is after the last newline.
pub split_tail-IsCut : (s : Text) → IsCut s (split_tail s)
unfolding split_tail
split_tail-IsCut [] = record { joined = refl; whole = inl refl; rest = tt }
split_tail-IsCut (c ∷ s) = IsCut-cons c s (split_tail-IsCut s)
