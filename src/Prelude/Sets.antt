-- ===== src/Prelude/Sets.antt =====
-- Python's `sorted` on a set of texts: each once, in order.
use mathlib.Core.Path.{◌≡◌, refl, sym, subst}
use mathlib.Core.Logic.{◌⊎◌, inl, inr}
use mathlib.Core.List.{List, [], ◌∷◌}
use qkt_data_hub.Prelude.Tests.{if◌then◌else◌, Bool-cases}
use qkt_data_hub.Prelude.Lists.{All, All-imp, All-at, All-Among, Among}
use qkt_data_hub.Prelude.Order.{◌≺◌}
use qkt_data_hub.Prelude.Text.{Text, text_ord, text_lt, text_connex}

-- sorted({…})
add_sorted : Text → List Text → List Text
add_sorted s [] = s ∷ []
add_sorted s (t ∷ l) =
    let further = t ∷ add_sorted s l in
    if s ≺ t then s ∷ t ∷ l else (if t ≺ s then further else t ∷ l)

unfoldable pub sorted_set : List Text → List Text
unfolding add_sorted
sorted_set [] = []
sorted_set (s ∷ l) = add_sorted s (sorted_set l)

Among-add_sorted_self : (s : Text) (l : List Text) → Among s (add_sorted s l)
unfolding add_sorted
Among-add_sorted_self s [] = inl refl
Among-add_sorted_self s (t ∷ l) = elim (Bool-cases (text_lt s t)) [
  | inl e ↦ rw e (inl refl)
  | inr e ↦ elim (Bool-cases (text_lt t s)) [
    | inl f ↦ rw (e, f) (inr (Among-add_sorted_self s l))
    | inr f ↦ rw (e, f) (inl (sym (text_connex s t e f)))
  ]
]

Among-add_sorted : (s t : Text) (l : List Text) → Among t l → Among t (add_sorted s l)
unfolding add_sorted
Among-add_sorted s t [] m = elim m [ ]
Among-add_sorted s t (u ∷ l) m = elim (Bool-cases (text_lt s u)) [
  | inl e ↦ rw e (inr m)
  | inr e ↦ elim (Bool-cases (text_lt u s)) [
    | inl f ↦ rw (e, f) (elim m [ inl h ↦ inl h | inr h ↦ inr (Among-add_sorted s t l h) ])
    | inr f ↦ rw (e, f) m
  ]
]

pub Among-sorted_set : (t : Text) (l : List Text) → Among t l → Among t (sorted_set l)
unfolding sorted_set
Among-sorted_set t [] m = m
Among-sorted_set t (s ∷ l) (inl e) =
    subst (λ u. Among u (add_sorted s (sorted_set l))) e (Among-add_sorted_self s (sorted_set l))
Among-sorted_set t (s ∷ l) (inr m) = Among-add_sorted s t (sorted_set l) (Among-sorted_set t l m)

add_sorted-Among : (s t : Text) (l : List Text) → Among t (add_sorted s l) → (s ≡ t) ⊎ Among t l
unfolding add_sorted
add_sorted-Among s t [] (inl e) = inl e
add_sorted-Among s t [] (inr m) = inr m
add_sorted-Among s t (u ∷ l) m = elim (Bool-cases (text_lt s u)) [
  | inl e ↦ elim (rw e at m) [ inl h ↦ inl h | inr h ↦ inr h ]
  | inr e ↦ elim (Bool-cases (text_lt u s)) [
    | inl f ↦ elim (rw (e, f) at m) [
      | inl h ↦ inr (inl h)
      | inr h ↦ elim (add_sorted-Among s t l h) [ inl g ↦ inl g | inr g ↦ inr (inr g) ]
    ]
    | inr f ↦ inr (rw (e, f) at m)
  ]
]

-- the set has no element of its own
pub sorted_set-Among : (t : Text) (l : List Text) → Among t (sorted_set l) → Among t l
unfolding sorted_set
sorted_set-Among t [] m = m
sorted_set-Among t (s ∷ l) m = elim (add_sorted-Among s t (sorted_set l) m) [
  | inl e ↦ inl e
  | inr h ↦ inr (sorted_set-Among t l h)
]

pub All-sorted_set : (P : Text → Type 0) (l : List Text) → All P l → All P (sorted_set l)
All-sorted_set P l h =
    All-imp (λ t. Among t (sorted_set l)) P (sorted_set l)
      (λ t a. All-at P l t h (sorted_set-Among t l a)) (All-Among (sorted_set l))

pub All-of_sorted_set : (P : Text → Type 0) (l : List Text) → All P (sorted_set l) → All P l
All-of_sorted_set P l h =
    All-imp (λ t. Among t l) P l (λ t a. All-at P (sorted_set l) t h (Among-sorted_set t l a))
      (All-Among l)
