-- ===== src/Dedupe/Counted.antt =====
-- Lists that grow at their end: their newest element, counts from one, and neighbours that differ.
use qkt_data_hub.Prelude.{
  ℕ, zero, suc, ◌≡◌, ◌≢◌, refl, sym, ap, ◌∙◌, Option, none, some, List, [], ◌∷◌, ◌++◌, map,
}
use qkt_data_hub.Prelude.Text.{Text}

module _ {A : Type 0} where
  -- the last element
  abbrev pub newest : List A → Option A
  newest [] = none
  newest (x ∷ []) = some x
  newest (x ∷ y ∷ l) = newest (y ∷ l)

  pub newest-append : (l : List A) (x : A) → newest (l ++ x ∷ []) ≡ some x
  newest-append [] x = refl
  newest-append (y ∷ []) x = refl
  newest-append (y ∷ z ∷ l) x = newest-append (z ∷ l) x

  pub newest-none : (l : List A) → newest l ≡ none → l ≡ []
  newest-none [] h = refl
  newest-none (x ∷ []) h = cc
  newest-none (x ∷ y ∷ l) h = let n = newest-none (y ∷ l) h in cc

-- 1, 2, … n
abbrev pub upto : ℕ → List ℕ
upto zero = []
upto (suc n) = upto n ++ suc n ∷ []

pub newest-map :
    {A B : Type 0} (f : A → B) (l : List A) (x : A)
    → newest l ≡ some x
    → newest (map f l) ≡ some (f x)
newest-map f [] x h = cc
newest-map f (y ∷ []) x h =
    let same : some y ≡ some x = h in let is_x : y ≡ x = cc in ap (λ z. some (f z)) is_x
newest-map f (y ∷ z ∷ l) x h = newest-map f (z ∷ l) x h

pub newest-upto : (n k : ℕ) → newest (upto n) ≡ some k → k ≡ n
newest-upto zero k h = cc
newest-upto (suc n) k h =
    let same : some (suc n) ≡ some k = sym (newest-append (upto n) (suc n)) ∙ h in cc

-- no two neighbours are the same
abbrev pub Differ : List Text → Type 0
Differ [] = Unit
Differ (s ∷ []) = Unit
Differ (s ∷ t ∷ l) = (s ≢ t) × Differ (t ∷ l)

pub Differ-append :
    (l : List Text) (t : Text)
    → Differ l
    → ((s : Text) → newest l ≡ some s → s ≢ t)
    → Differ (l ++ t ∷ [])
Differ-append [] t h k = tt
Differ-append (s ∷ []) t h k = (k s refl, tt)
Differ-append (s ∷ u ∷ l) t h k = (h.0, Differ-append (u ∷ l) t h.1 k)
