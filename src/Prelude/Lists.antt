-- ===== src/Prelude/Lists.antt =====
-- Lists measured by native numbers, under the library's names, and predicates by recursion.
use Prim.Native.Nat.{ℕ, zero, suc, ◌+◌, ◌-◌, ◌≤◌, min}
use mathlib.Core.Path.{◌≡◌, refl, sym, ap, subst, ◌∙◌}
use mathlib.Core.Logic.{◌⊎◌, inl, inr}
use mathlib.Core.Bool.{Bool, true, false}
use mathlib.Core.List.{
  List, [], ◌∷◌, ◌++◌, map, reverse, reverse-append, reverse-reverse, append-nil,
}
use mathlib.Core.Option.{Option, none, some}
use native.Mathlib.Omega.{arith}
use qkt_data_hub.Prelude.Tests.{if◌then◌else◌, Bool-cases, leb}

module _ {ℓ} {A : Type ℓ} where
  abbrev pub length : List A → ℕ
  length [] = 0
  length (x ∷ xs) = suc (length xs)

  abbrev pub get_elem? : List A → ℕ → Option A
  get_elem? [] i = none
  get_elem? (x ∷ xs) zero = some x
  get_elem? (x ∷ xs) (suc i) = get_elem? xs i

  abbrev pub drop : ℕ → List A → List A
  drop zero xs = xs
  drop (suc n) [] = []
  drop (suc n) (x ∷ xs) = drop n xs

  -- the elements that pass a Boolean test, in order
  abbrev pub keep : (A → Bool) → List A → List A
  keep p [] = []
  keep p (x ∷ xs) = if p x then x ∷ keep p xs else keep p xs

  pub length-append : (xs ys : List A) → length (xs ++ ys) ≡ length xs + length ys
  length-append [] ys = omega arith
  length-append (x ∷ xs) ys = omega (arith, length-append xs ys)

  pub length-drop : (n : ℕ) (xs : List A) → length (drop n xs) ≡ length xs - n
  length-drop zero xs = omega arith
  length-drop (suc n) [] = omega arith
  length-drop (suc n) (x ∷ xs) = omega (arith, length-drop n xs)

  pub length-keep : (p : A → Bool) (xs : List A) → length (keep p xs) ≤ length xs
  length-keep p [] = omega arith
  length-keep p (x ∷ xs) = ground (arith, length-keep p xs)

  pub keep-append : (p : A → Bool) (xs ys : List A) → keep p (xs ++ ys) ≡ keep p xs ++ keep p ys
  keep-append p [] ys = refl
  keep-append p (x ∷ xs) ys = ground (arith, keep-append p xs ys)

module _ {ℓ κ} {A : Type ℓ} where
  -- every element satisfies `P`
  abbrev pub All : (A → Type κ) → List A → Type κ
  All P [] = Unit
  All P (x ∷ xs) = P x × All P xs

module _ {ℓ} {A : Type ℓ} where
  -- some element satisfies `P`, with its place
  abbrev pub Any : (A → Type 0) → List A → Type 0
  Any P [] = ⊥
  Any P (x ∷ xs) = P x ⊎ Any P xs

module _ {ℓ κ} {A : Type ℓ} (P : A → Type κ) where
  pub All-append : (xs ys : List A) → All P xs → All P ys → All P (xs ++ ys)
  All-append [] ys h k = k
  All-append (x ∷ xs) ys h k = (h.0, All-append xs ys h.1 k)

  pub All-keep : (p : A → Bool) (xs : List A) → All P xs → All P (keep p xs)
  All-keep p [] h = h
  All-keep p (x ∷ xs) h = elim (Bool-cases (p x)) [
    | inl e ↦ rw e (h.0, All-keep p xs h.1)
    | inr e ↦ rw e (All-keep p xs h.1)
  ]

  -- what passes the test satisfies what the test decides
  pub All-keep_of : (p : A → Bool) (xs : List A) → ((x : A) → p x ≡ true → P x) → All P (keep p xs)
  All-keep_of p [] h = tt
  All-keep_of p (x ∷ xs) h = elim (Bool-cases (p x)) [
    | inl e ↦ rw e (h x e, All-keep_of p xs h)
    | inr e ↦ rw e (All-keep_of p xs h)
  ]

  pub All-imp {κ'} : (Q : A → Type κ') (xs : List A) → ((x : A) → P x → Q x) → All P xs → All Q xs
  All-imp Q [] f h = tt
  All-imp Q (x ∷ xs) f h = (f x h.0, All-imp Q xs f h.1)

-- `x` is an element
abbrev pub Among : {A : Type 0} → A → List A → Type 0
Among x xs = Any (λ y. y ≡ x) xs

All-Among_of :
    {A : Type 0} (xs ys : List A) → ((x : A) → Among x xs → Among x ys) → All (λ x. Among x ys) xs
All-Among_of [] ys h = tt
All-Among_of (x ∷ xs) ys h = (h x (inl refl), All-Among_of xs ys (λ y m. h y (inr m)))

pub All-Among : {A : Type 0} (xs : List A) → All (λ x. Among x xs) xs
All-Among xs = All-Among_of xs xs (λ x m. m)

pub All-at : {A : Type 0} (P : A → Type 0) (xs : List A) (x : A) → All P xs → Among x xs → P x
All-at P (y ∷ xs) x h (inl e) = subst P e h.0
All-at P (y ∷ xs) x h (inr m) = All-at P xs x h.1 m
All-at P [] x h m = elim m [ ]

pub Among-keep :
    {A : Type 0} (p : A → Bool) (xs : List A) (x : A)
    → Among x xs
    → p x ≡ true
    → Among x (keep p xs)
Among-keep p [] x m h = elim m [ ]
Among-keep p (y ∷ xs) x (inl e) h = rw (ap p e ∙ h) (inl e)
Among-keep p (y ∷ xs) x (inr m) h = elim (Bool-cases (p y)) [
  | inl t ↦ rw t (inr (Among-keep p xs x m h))
  | inr f ↦ rw f (Among-keep p xs x m h)
]

pub All-both {ℓ κ κ'} :
    {A : Type ℓ} (P : A → Type κ) (Q : A → Type κ') (xs : List A)
    → All P xs
    → All Q xs
    → All (λ x. P x × Q x) xs
All-both P Q [] h k = tt
All-both P Q (x ∷ xs) h k = ((h.0, k.0), All-both P Q xs h.1 k.1)

pub Among-map :
    {A B : Type 0} (f : A → B) (xs : List A) (x : A) → Among x xs → Among (f x) (map f xs)
Among-map f [] x m = elim m [ ]
Among-map f (y ∷ xs) x (inl e) = inl (ap f e)
Among-map f (y ∷ xs) x (inr m) = inr (Among-map f xs x m)

module _ {ℓ} {A : Type ℓ} where
  abbrev pub take : ℕ → List A → List A
  take zero xs = []
  take (suc n) [] = []
  take (suc n) (x ∷ xs) = x ∷ take n xs

  -- Python's xs[-n:] for a positive n
  abbrev pub last : ℕ → List A → List A
  last n xs = drop (length xs - n) xs

  pub length-last : (n : ℕ) (xs : List A) → length (last n xs) ≡ min n (length xs)
  length-last n xs = omega (arith, length-drop (length xs - n) xs)

  pub drop-nil : (k : ℕ) → let none_left : List A = [] in drop k none_left ≡ []
  drop-nil zero = refl
  drop-nil (suc k) = refl

  drop-drop : (m n : ℕ) (xs : List A) → drop m (drop n xs) ≡ drop (m + n) xs
  drop-drop m zero xs = ap (λ k. drop k xs) (omega arith)
  drop-drop m (suc n) [] = let e : m + suc n ≡ suc (m + n) = omega arith in rw e (drop-nil m)
  drop-drop m (suc n) (x ∷ xs) =
      let e : m + suc n ≡ suc (m + n) = omega arith in rw e (drop-drop m n xs)

  -- the last few of a longer tail are the last few
  pub last-last : (m n : ℕ) (xs : List A) → m ≤ n → last m (last n xs) ≡ last m xs
  last-last m n xs h =
      drop-drop _ _ xs ∙ ap (λ k. drop k xs) (omega (arith, length-drop (length xs - n) xs))

module _ {ℓ} {A : Type ℓ} where
  pub keep-reverse : (p : A → Bool) (xs : List A) → keep p (reverse xs) ≡ reverse (keep p xs)
  keep-reverse p [] = refl
  keep-reverse p (x ∷ xs) =
      ap (keep p) (reverse-append (x ∷ []) xs)
      ∙ keep-append p (reverse xs) (x ∷ [])
      ∙ go (p x) (keep-reverse p xs)
    where
      go :
          (b : Bool)
          → keep p (reverse xs) ≡ reverse (keep p xs)
          → keep p (reverse xs) ++ (if b then x ∷ [] else [])
            ≡ reverse (if b then x ∷ keep p xs else keep p xs)
      go true ih = rw ih (sym (reverse-append (x ∷ []) (keep p xs)))
      go false ih = append-nil (keep p (reverse xs)) ∙ ih

  pub take-append_short : (n : ℕ) (xs ys : List A) → n ≤ length xs → take n (xs ++ ys) ≡ take n xs
  take-append_short zero xs ys h = refl
  take-append_short (suc n) [] ys h = absurd (omega arith)
  take-append_short (suc n) (x ∷ xs) ys h = ap (◌∷◌ x) (take-append_short n xs ys (omega arith))

  pub take-nil : (k : ℕ) → let none_left : List A = [] in take k none_left ≡ []
  take-nil zero = refl
  take-nil (suc k) = refl

  take_all : (n : ℕ) (xs : List A) → length xs ≤ n → take n xs ≡ xs
  take_all n [] h = take-nil n
  take_all zero (x ∷ xs) h = absurd (omega arith)
  take_all (suc n) (x ∷ xs) h = ap (◌∷◌ x) (take_all n xs (omega arith))

  pub length-reverse : (xs : List A) → length (reverse xs) ≡ length xs
  length-reverse [] = refl
  length-reverse (x ∷ xs) =
      ap length (reverse-append (x ∷ []) xs)
      ∙ length-append (reverse xs) (x ∷ [])
      ∙ omega (arith, length-reverse xs)

  -- the last `n`, taken from the back
  pub reverse-take-reverse : (n : ℕ) (xs : List A) → reverse (take n (reverse xs)) ≡ last n xs
  reverse-take-reverse n [] = ap reverse (take_all n [] (omega arith)) ∙ sym (drop-nil (0 - n))
  reverse-take-reverse n (x ∷ xs) = elim (Bool-cases (leb n (length xs))) [
    | inl h ↦
        let short : n ≤ length (reverse xs) = ground (arith, length-reverse xs) in
        let e : length (x ∷ xs) - n ≡ suc (length xs - n) = ground arith in
        ap (λ l. reverse (take n l)) (reverse-append (x ∷ []) xs)
        ∙ ap reverse (take-append_short n (reverse xs) (x ∷ []) short)
        ∙ reverse-take-reverse n xs
        ∙ rw e
    | inr h ↦
        let long : length (reverse (x ∷ xs)) ≤ n = ground (arith, length-reverse (x ∷ xs)) in
        let e : length (x ∷ xs) - n ≡ 0 = ground arith in
        ap reverse (take_all n (reverse (x ∷ xs)) long) ∙ reverse-reverse (x ∷ xs) ∙ rw e
  ]

module _ {A : Type 0} (p q : A → Bool) (sub : (x : A) → q x ≡ true → p x ≡ true) where
  -- a stronger test keeps no more elements
  pub length-keep_le : (xs : List A) → length (keep q xs) ≤ length (keep p xs)
  length-keep_le [] = omega arith
  length-keep_le (x ∷ xs) = ground (arith, sub x, length-keep_le xs)

  -- and fewer, where an element fails it alone
  pub length-keep_lt :
      (x : A) (xs : List A)
      → Among x xs
      → p x ≡ true
      → q x ≡ false
      → suc (length (keep q xs)) ≤ length (keep p xs)
  length-keep_lt x [] m h k = elim m [ ]
  length-keep_lt x (y ∷ xs) (inl e) h k =
      let kept = subst (λ z. p z ≡ true) (sym e) h in
      let dropped = subst (λ z. q z ≡ false) (sym e) k in
      rw (kept, dropped) (omega (arith, length-keep_le xs))
  length-keep_lt x (y ∷ xs) (inr m) h k = ground (arith, sub y, length-keep_lt x xs m h k)
