-- ===== src/History/Before.antt =====
-- What `before` hands to a derived field: the facts that precede, and never the fact itself.
use qkt_data_hub.Prelude.{
  ℕ, ◌≡◌, refl, ap, sym, ◌∙◌, Bool, false, ◌&&◌, List, [], ◌∷◌, inl, inr, map, keep, take, last,
  Bool-cases,
}
use qkt_data_hub.Prelude.SortKeep.{keep-keep}
use qkt_data_hub.Prelude.Text.{Text}
use qkt_data_hub.History.{
  ScopeHistory, Slot, slot_ord, bisect_left, is_other, fields_of, before_all, before, cut_before,
}
use qkt_data_hub.History.Newest.{before-last}
use qkt_data_hub.History.Slots.{Slots, Ascending, Below}

abbrev pub precedes : Slot → Slot → Bool
precedes x y = slot_ord.lt y x

none-Below :
    (x y : Slot) (ys : List Slot) → slot_ord.lt y x ≡ false → Below y ys → keep (precedes x) ys ≡ []
none-Below x y [] f h = refl
none-Below x y (z ∷ zs) f h = elim (Bool-cases (slot_ord.lt z x)) [
  | inl t ↦ cc (slot_ord.trans y z x h.0 t, f)
  | inr g ↦ rw g (none-Below x y zs f h.1)
]

-- on ascending slots the cut of bisection is the filter by the order
take-bisect_left :
    (order : List Slot) (x : Slot)
    → Ascending order
    → take (bisect_left order x) order ≡ keep (precedes x) order
unfolding bisect_left
take-bisect_left [] x h = refl
take-bisect_left (y ∷ ys) x h = elim (Bool-cases (slot_ord.lt y x)) [
  | inl t ↦ rw t (ap (◌∷◌ y) (take-bisect_left ys x h.1))
  | inr f ↦ rw f (sym (none-Below x y ys f h.0))
]

cut_before-keep :
    (h : ScopeHistory) (effective_at : ℕ) (key : Text)
    → Slots h
    → keep (is_other key) (cut_before h effective_at key)
      ≡ keep (λ s. slot_ord.lt s (effective_at, key) && is_other key s) h.order
unfolding cut_before
cut_before-keep h effective_at key w =
    ap (keep (is_other key)) (take-bisect_left h.order (effective_at, key) w.ascending)
    ∙ keep-keep (is_other key) (precedes (effective_at, key)) h.order

-- The facts that a derived field may look back on are those that come before `(effective_at, key)`
-- in the order of instants and keys, of other keys only, in that order; and of these the newest
-- `limit`, whatever the order in which the facts were put in.
pub before_lem :
    (h : ScopeHistory) (effective_at : ℕ) (key : Text) (limit : ℕ)
    → Slots h
    → before h effective_at key limit
      ≡ last limit (
          map
            (λ s. fields_of h s.1)
            (keep (λ s. slot_ord.lt s (effective_at, key) && is_other key s) h.order))
unfolding before_all
before_lem h effective_at key limit w =
    before-last h effective_at key limit
    ∙ ap (λ l. last limit (map (λ s. fields_of h s.1) l)) (cut_before-keep h effective_at key w)
