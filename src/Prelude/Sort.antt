-- ===== src/Prelude/Sort.antt =====
-- `sorted(xs, key=f)`: a stable sort. Its result is ascending, and permutes its input.
use mathlib.Core.Path.{◌≡◌, refl}
use mathlib.Core.Logic.{inl, inr}
use mathlib.Core.Bool.{false}
use mathlib.Core.List.{List, [], ◌∷◌, Perm}
use mathlib.Core.List.Perm
use qkt_data_hub.Prelude.Tests.{if◌then◌else◌, Bool-cases}
use qkt_data_hub.Prelude.Lists.{All, All-imp, Among}
use qkt_data_hub.Prelude.Order.{Ord, le_trans_lt, lt_asymm}

module _ {A K : Type 0} ⦃o : Ord K⦄ (f : A → K) where
  -- before the first element that is not smaller, so equal elements keep their order
  unfoldable pub insert_sorted : A → List A → List A
  insert_sorted x [] = x ∷ []
  insert_sorted x (y ∷ ys) = if o.lt (f y) (f x) then y ∷ insert_sorted x ys else x ∷ y ∷ ys

  unfoldable pub sort_by : List A → List A
  unfolding insert_sorted
  sort_by [] = []
  sort_by (x ∷ xs) = insert_sorted x (sort_by xs)

  -- `x` is not above any element
  abbrev pub IsBelow : A → List A → Type 0
  IsBelow x = All (λ y. o.lt (f y) (f x) ≡ false)

  abbrev pub IsSorted : List A → Type 0
  IsSorted [] = Unit
  IsSorted (x ∷ xs) = IsBelow x xs × IsSorted xs

  IsBelow-insert_sorted :
      (x y : A) (ys : List A)
      → o.lt (f x) (f y) ≡ false
      → IsBelow y ys
      → IsBelow y (insert_sorted x ys)
  unfolding insert_sorted
  IsBelow-insert_sorted x y [] h k = (h, tt)
  IsBelow-insert_sorted x y (z ∷ zs) h k = elim (Bool-cases (o.lt (f z) (f x))) [
    | inl e ↦ rw e (k.0, IsBelow-insert_sorted x y zs h k.1)
    | inr e ↦ rw e (h, k)
  ]

  insert_sorted-IsSorted : (x : A) (xs : List A) → IsSorted xs → IsSorted (insert_sorted x xs)
  unfolding insert_sorted
  insert_sorted-IsSorted x [] s = (tt, tt)
  insert_sorted-IsSorted x (y ∷ ys) s = elim (Bool-cases (o.lt (f y) (f x))) [
    | inl e ↦
        rw e (
          IsBelow-insert_sorted x y ys (lt_asymm (f y) (f x) e) s.0,
          insert_sorted-IsSorted x ys s.1,
        )
    | inr e ↦ rw e ((e, All-imp _ _ ys (λ z h. le_trans_lt (f x) (f y) (f z) e h) s.0), s)
  ]

  pub sort_by-IsSorted : (xs : List A) → IsSorted (sort_by xs)
  unfolding sort_by
  sort_by-IsSorted [] = tt
  sort_by-IsSorted (x ∷ xs) = insert_sorted-IsSorted x (sort_by xs) (sort_by-IsSorted xs)

  insert_sorted-perm : (x : A) (xs : List A) → Perm (insert_sorted x xs) (x ∷ xs)
  unfolding insert_sorted
  insert_sorted-perm x [] = Perm.rfl
  insert_sorted-perm x (y ∷ ys) = elim (Bool-cases (o.lt (f y) (f x))) [
    | inl e ↦ rw e (Perm.trans (Perm.cons y (insert_sorted-perm x ys)) (Perm.swap x y ys))
    | inr e ↦ rw e Perm.rfl
  ]

  pub sort_by-perm : (xs : List A) → Perm (sort_by xs) xs
  unfolding sort_by
  sort_by-perm [] = Perm.rfl
  sort_by-perm (x ∷ xs) =
      Perm.trans (insert_sorted-perm x (sort_by xs)) (Perm.cons x (sort_by-perm xs))

  module _ {κ} (P : A → Type κ) where
    All-insert_sorted : (x : A) (xs : List A) → P x → All P xs → All P (insert_sorted x xs)
    unfolding insert_sorted
    All-insert_sorted x [] p h = (p, tt)
    All-insert_sorted x (y ∷ ys) p h = elim (Bool-cases (o.lt (f y) (f x))) [
      | inl e ↦ rw e (h.0, All-insert_sorted x ys p h.1)
      | inr e ↦ rw e (p, h)
    ]

    pub All-sort_by : (xs : List A) → All P xs → All P (sort_by xs)
    unfolding sort_by
    All-sort_by [] h = tt
    All-sort_by (x ∷ xs) h = All-insert_sorted x (sort_by xs) h.0 (All-sort_by xs h.1)

  Among-insert_sorted_self : (x : A) (xs : List A) → Among x (insert_sorted x xs)
  unfolding insert_sorted
  Among-insert_sorted_self x [] = inl refl
  Among-insert_sorted_self x (y ∷ ys) = elim (Bool-cases (o.lt (f y) (f x))) [
    | inl e ↦ rw e (inr (Among-insert_sorted_self x ys))
    | inr e ↦ rw e (inl refl)
  ]

  Among-insert_sorted : (x y : A) (xs : List A) → Among y xs → Among y (insert_sorted x xs)
  unfolding insert_sorted
  Among-insert_sorted x y [] m = inr m
  Among-insert_sorted x y (z ∷ zs) m = elim (Bool-cases (o.lt (f z) (f x))) [
    | inr e ↦ rw e (inr m)
    | inl e ↦ rw e (elim m [ inl h ↦ inl h | inr h ↦ inr (Among-insert_sorted x y zs h) ])
  ]

  pub Among-sort_by : (x : A) (xs : List A) → Among x xs → Among x (sort_by xs)
  unfolding sort_by
  Among-sort_by x [] m = m
  Among-sort_by x (y ∷ ys) (inl e) = rw e (Among-insert_sorted_self x (sort_by ys))
  Among-sort_by x (y ∷ ys) (inr m) = Among-insert_sorted y x (sort_by ys) (Among-sort_by x ys m)
