-- ===== src/Prelude/SortKeep.antt =====
-- Sorting and filtering commute, since the sort is stable.
use mathlib.Core.Path.{◌≡◌, refl, sym, ap, ◌∙◌}
use mathlib.Core.Logic.{inl, inr}
use mathlib.Core.Bool.{Bool, true, false, ◌&&◌}
use native.Mathlib.Omega.{arith}
use Prim.Native.Nat.{suc}
use mathlib.Core.List.{List, [], ◌∷◌}
use qkt_data_hub.Prelude.Tests.{Bool-cases}
use qkt_data_hub.Prelude.Lists.{All-imp, All-keep, keep, length}
use qkt_data_hub.Prelude.Order.{Ord, le_trans_lt}
use qkt_data_hub.Prelude.Sort.{insert_sorted, sort_by, IsBelow, IsSorted, sort_by-IsSorted}

module _ {A : Type 0} where
  pub keep-keep : (p q : A → Bool) (xs : List A) → keep p (keep q xs) ≡ keep (λ x. q x && p x) xs
  keep-keep p q [] = refl
  keep-keep p q (x ∷ xs) = ground (arith, keep-keep p q xs)

  pub keep_same : (p q : A → Bool) (xs : List A) → ((x : A) → p x ≡ q x) → keep p xs ≡ keep q xs
  keep_same p q [] h = refl
  keep_same p q (x ∷ xs) h = rw (h x, keep_same p q xs h) refl

module _ {A K : Type 0} ⦃o : Ord K⦄ (f : A → K) where
  pub IsSorted-keep : (p : A → Bool) (xs : List A) → IsSorted f xs → IsSorted f (keep p xs)
  IsSorted-keep p [] s = tt
  IsSorted-keep p (x ∷ xs) s = elim (Bool-cases (p x)) [
    | inl e ↦ rw e (All-keep _ p xs s.0, IsSorted-keep p xs s.1)
    | inr e ↦ rw e (IsSorted-keep p xs s.1)
  ]

  insert_sorted-IsBelow : (x : A) (xs : List A) → IsBelow f x xs → insert_sorted f x xs ≡ x ∷ xs
  unfolding insert_sorted
  insert_sorted-IsBelow x [] b = refl
  insert_sorted-IsBelow x (y ∷ ys) b = rw b.0 refl

  keep-insert_sorted_in :
      (p : A → Bool) (x : A) (xs : List A)
      → p x ≡ true
      → IsSorted f xs
      → keep p (insert_sorted f x xs) ≡ insert_sorted f x (keep p xs)
  unfolding insert_sorted
  keep-insert_sorted_in p x [] t s = rw t refl
  keep-insert_sorted_in p x (y ∷ ys) t s = elim (Bool-cases (o.lt (f y) (f x))) [
    | inl e ↦ elim (Bool-cases (p y)) [
      | inl q ↦ rw (e, q, e) (ap (λ l. y ∷ l) (keep-insert_sorted_in p x ys t s.1))
      | inr q ↦ rw (e, q) (keep-insert_sorted_in p x ys t s.1)
    ]
    | inr e ↦
        let below : IsBelow f x (y ∷ ys) =
          (e, All-imp _ _ ys (λ z h. le_trans_lt (f x) (f y) (f z) e h) s.0) in
        rw (e, t) (sym (insert_sorted-IsBelow x (keep p (y ∷ ys)) (All-keep _ p (y ∷ ys) below)))
  ]

  keep-insert_sorted_out :
      (p : A → Bool) (x : A) (xs : List A) → p x ≡ false → keep p (insert_sorted f x xs) ≡ keep p xs
  unfolding insert_sorted
  keep-insert_sorted_out p x [] t = rw t refl
  keep-insert_sorted_out p x (y ∷ ys) t = elim (Bool-cases (o.lt (f y) (f x))) [
    | inl e ↦ elim (Bool-cases (p y)) [
      | inl q ↦ rw (e, q) (ap (λ l. y ∷ l) (keep-insert_sorted_out p x ys t))
      | inr q ↦ rw (e, q) (keep-insert_sorted_out p x ys t)
    ]
    | inr e ↦ rw (e, t) refl
  ]

  pub keep-sort_by : (p : A → Bool) (xs : List A) → keep p (sort_by f xs) ≡ sort_by f (keep p xs)
  unfolding sort_by
  keep-sort_by p [] = refl
  keep-sort_by p (x ∷ xs) = elim (Bool-cases (p x)) [
    | inl t ↦
        keep-insert_sorted_in p x (sort_by f xs) t (sort_by-IsSorted f xs)
        ∙ rw t (ap (insert_sorted f x) (keep-sort_by p xs))
    | inr t ↦ keep-insert_sorted_out p x (sort_by f xs) t ∙ rw t (keep-sort_by p xs)
  ]

  -- a sorted list stays as it is
  pub sort_by_sorted : (xs : List A) → IsSorted f xs → sort_by f xs ≡ xs
  unfolding sort_by
  sort_by_sorted [] s = refl
  sort_by_sorted (x ∷ xs) s =
      ap (insert_sorted f x) (sort_by_sorted xs s.1) ∙ insert_sorted-IsBelow x xs s.0

  length-insert_sorted : (x : A) (xs : List A) → length (insert_sorted f x xs) ≡ suc (length xs)
  unfolding insert_sorted
  length-insert_sorted x [] = refl
  length-insert_sorted x (y ∷ ys) = elim (Bool-cases (o.lt (f y) (f x))) [
    | inl e ↦ rw e (ap (λ n. suc n) (length-insert_sorted x ys))
    | inr e ↦ rw e refl
  ]

  pub length-sort_by : (xs : List A) → length (sort_by f xs) ≡ length xs
  unfolding sort_by
  length-sort_by [] = refl
  length-sort_by (x ∷ xs) =
      length-insert_sorted x (sort_by f xs) ∙ ap (λ n. suc n) (length-sort_by xs)
