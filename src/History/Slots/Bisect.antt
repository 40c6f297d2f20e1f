-- ===== src/History/Slots/Bisect.antt =====
-- Bisection, removal and insertion on ascending slots.
use qkt_data_hub.Prelude.{
  ◌≡◌, ◌≢◌, refl, sym, ◌∙◌, true, false, some, List, [], ◌∷◌, inl, inr, Bool-cases, All, All-imp,
  All-at, Among, get_elem?,
}
use qkt_data_hub.History.{Slot, slot_ord, bisect_left, insort, remove_at}

-- `x` is below every element
abbrev pub Below : Slot → List Slot → Type 0
Below x = All (λ y. slot_ord.lt x y ≡ true)

abbrev pub Ascending : List Slot → Type 0
Ascending [] = Unit
Ascending (x ∷ xs) = Below x xs × Ascending xs

-- the list without the slot that bisection finds
abbrev pub removed : List Slot → Slot → List Slot
removed order x = remove_at order (bisect_left order x)

not_self : (x y : Slot) → slot_ord.lt x y ≡ true → y ≢ x
not_self x y h e = cc (slot_ord.irrefl x)

-- bisection finds a slot that is there
pub get_elem?-bisect_left :
    (order : List Slot) (x : Slot)
    → Ascending order
    → Among x order
    → get_elem? order (bisect_left order x) ≡ some x
unfolding bisect_left
get_elem?-bisect_left [] x h m = elim m [ ]
get_elem?-bisect_left (y ∷ ys) x h (inl e) = rw (e, slot_ord.irrefl x)
get_elem?-bisect_left (y ∷ ys) x h (inr m) =
    rw (All-at _ ys x h.0 m) (get_elem?-bisect_left ys x h.1 m)

pub removed-All :
    (P : Slot → Type 0) (order : List Slot) (x : Slot) → All P order → All P (removed order x)
unfolding bisect_left remove_at
removed-All P [] x h = tt
removed-All P (y ∷ ys) x h = elim (Bool-cases (slot_ord.lt y x)) [
  | inl e ↦ rw e (h.0, removed-All P ys x h.1)
  | inr e ↦ rw e h.1
]

pub removed-Ascending :
    (order : List Slot) (x : Slot) → Ascending order → Ascending (removed order x)
unfolding bisect_left remove_at
removed-Ascending [] x h = tt
removed-Ascending (y ∷ ys) x h = elim (Bool-cases (slot_ord.lt y x)) [
  | inl e ↦ rw e (removed-All _ ys x h.0, removed-Ascending ys x h.1)
  | inr e ↦ rw e h.1
]

-- the slot itself is gone
pub removed-ne :
    (order : List Slot) (x : Slot)
    → Ascending order
    → Among x order
    → All (λ y. y ≢ x) (removed order x)
unfolding bisect_left remove_at
removed-ne [] x h m = tt
removed-ne (y ∷ ys) x h (inl e) =
    rw (e, slot_ord.irrefl x) (All-imp _ _ ys (λ z l. not_self x z (rw e at l)) h.0)
removed-ne (y ∷ ys) x h (inr m) =
    let l = All-at _ ys x h.0 m in rw l ((λ e. not_self y x l (sym e)), removed-ne ys x h.1 m)

-- and every other slot stays
pub Among-removed :
    (order : List Slot) (x y : Slot)
    → Ascending order
    → Among x order
    → Among y order
    → y ≢ x
    → Among y (removed order x)
unfolding bisect_left remove_at
Among-removed [] x y h m n ne = elim n [ ]
Among-removed (z ∷ zs) x y h (inl e) (inl f) ne = absurd (ne (sym f ∙ e))
Among-removed (z ∷ zs) x y h (inl e) (inr n) ne = rw (e, slot_ord.irrefl x) n
Among-removed (z ∷ zs) x y h (inr m) (inl f) ne = rw (All-at _ zs x h.0 m) (inl f)
Among-removed (z ∷ zs) x y h (inr m) (inr n) ne =
    rw (All-at _ zs x h.0 m) (inr (Among-removed zs x y h.1 m n ne))

pub insort-All :
    (P : Slot → Type 0) (order : List Slot) (x : Slot) → P x → All P order → All P (insort order x)
unfolding insort
insort-All P [] x p h = (p, tt)
insort-All P (y ∷ ys) x p h = elim (Bool-cases (slot_ord.lt x y)) [
  | inl e ↦ rw e (p, h)
  | inr e ↦ rw e (h.0, insort-All P ys x p h.1)
]

pub insort-Ascending :
    (order : List Slot) (x : Slot)
    → Ascending order
    → All (λ y. y ≢ x) order
    → Ascending (insort order x)
unfolding insort
insort-Ascending [] x h ne = (tt, tt)
insort-Ascending (y ∷ ys) x h ne = elim (Bool-cases (slot_ord.lt x y)) [
  | inl e ↦ rw e ((e, All-imp _ _ ys (λ z l. slot_ord.trans x y z e l) h.0), h)
  | inr e ↦ rw e (insort-All _ ys x (below y e ne.0) h.0, insort-Ascending ys x h.1 ne.1)
]
  where
    below : (y : Slot) → slot_ord.lt x y ≡ false → y ≢ x → slot_ord.lt y x ≡ true
    below y f n = elim (Bool-cases (slot_ord.lt y x)) [
      | inl l ↦ l
      | inr g ↦ absurd (n (slot_ord.connex y x g f))
    ]

pub Among-insort_self : (order : List Slot) (x : Slot) → Among x (insort order x)
unfolding insort
Among-insort_self [] x = inl refl
Among-insort_self (y ∷ ys) x = elim (Bool-cases (slot_ord.lt x y)) [
  | inl e ↦ rw e (inl refl)
  | inr e ↦ rw e (inr (Among-insort_self ys x))
]

pub Among-insort : (order : List Slot) (x y : Slot) → Among y order → Among y (insort order x)
unfolding insort
Among-insort [] x y m = elim m [ ]
Among-insort (z ∷ zs) x y m = elim (Bool-cases (slot_ord.lt x z)) [
  | inl e ↦ rw e (inr m)
  | inr e ↦ rw e (elim m [ inl f ↦ inl f | inr n ↦ inr (Among-insort zs x y n) ])
]
