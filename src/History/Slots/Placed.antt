-- ===== src/History/Slots/Placed.antt =====
-- What `upsert` does to the order: the key's slot moves, and every other slot stays.
use qkt_data_hub.Prelude.{
  ℕ, ◌≡◌, ◌≢◌, refl, ap, ◌∙◌, List, [], ◌∷◌, ◌⊎◌, inl, inr, Bool-cases, ◌==◌, ==_iff, All, All-imp,
  All-Among, Among,
}
use qkt_data_hub.Prelude.Text.{Text, text_eq, text_eq_iff}
use qkt_data_hub.History.{Slot, bisect_left, insort, move_slot}
use qkt_data_hub.History.Slots.Bisect.{
  Ascending, removed, get_elem?-bisect_left, removed-All, removed-Ascending, removed-ne,
  Among-removed, insort-All, insort-Ascending, Among-insort_self, Among-insort,
}

-- `after` is `before` with the one slot of `key` at `e`.
pub record IsPlaced (before after : List Slot) (e : ℕ) (key : Text) : Type 0 where
  pub ascending : Ascending after
  pub only : All (λ s. (s ≡ (e, key)) ⊎ (Among s before × (s.1 ≢ key))) after
  pub placed : Among (e, key) after
  pub others : (s : Slot) → Among s before → s.1 ≢ key → Among s after

module _ (order : List Slot) (ascending : Ascending order) (e : ℕ) (key : Text) where
  -- a key that has no slot
  pub insort-IsPlaced : All (λ s. s.1 ≢ key) order → IsPlaced order (insort order (e, key)) e key
  insort-IsPlaced fresh = record {
    ascending =
        insort-Ascending order (e, key) ascending
          (All-imp _ _ order (λ s n p. n (ap (λ x. x.1) p)) fresh);
    only = insort-All _ order (e, key) (inl refl) (members order (All-Among order) fresh);
    placed = Among-insort_self order (e, key);
    others = λ s m n. Among-insort order (e, key) s m;
  }
    where
      members :
          (l : List Slot)
          → All (λ s. Among s order) l
          → All (λ s. s.1 ≢ key) l
          → All (λ s. (s ≡ (e, key)) ⊎ (Among s order × (s.1 ≢ key))) l
      members [] h k = tt
      members (s ∷ l) h k = (inr (h.0, k.0), members l h.1 k.1)

  -- the slot of `key` stands at `old`
  module _ (old : ℕ) (there : Among (old, key) order)
      (unique : All (λ s. s.1 ≡ key → s ≡ (old, key)) order) where
    abbrev rest : List Slot
    rest = removed order (old, key)

    rest_ne : All (λ s. (s.1 ≢ key) × Among s order) rest
    rest_ne =
        All-imp₂ rest (removed-ne order (old, key) ascending there)
          (removed-All _ order (old, key) unique) (removed-All _ order (old, key) (All-Among order))
      where
        All-imp₂ :
            (l : List Slot)
            → All (λ s. s ≢ (old, key)) l
            → All (λ s. s.1 ≡ key → s ≡ (old, key)) l
            → All (λ s. Among s order) l
            → All (λ s. (s.1 ≢ key) × Among s order) l
        All-imp₂ [] a b c = tt
        All-imp₂ (s ∷ l) a b c = ((λ p. a.0 (b.0 p), c.0), All-imp₂ l a.1 b.1 c.1)

    moved-IsPlaced : IsPlaced order (insort rest (e, key)) e key
    moved-IsPlaced = record {
      ascending =
          insort-Ascending rest (e, key) (removed-Ascending order (old, key) ascending)
            (All-imp _ _ rest (λ s n p. n.0 (ap (λ x. x.1) p)) rest_ne);
      only =
          insort-All _ rest (e, key) (inl refl) (All-imp _ _ rest (λ s n. inr (n.1, n.0)) rest_ne);
      placed = Among-insort_self rest (e, key);
      others = λ s m n.
          Among-insort rest (e, key) s
            (Among-removed order (old, key) s ascending there m (λ p. n (ap (λ x. x.1) p)));
    }

    stay-IsPlaced : old ≡ e → IsPlaced order order e key
    stay-IsPlaced same = record {
      ascending = ascending;
      only = stay order unique (All-Among order);
      placed = rw same at there;
      others = λ s m n. m;
    }
      where
        stay :
            (l : List Slot)
            → All (λ s. s.1 ≡ key → s ≡ (old, key)) l
            → All (λ s. Among s order) l
            → All (λ s. (s ≡ (e, key)) ⊎ (Among s order × (s.1 ≢ key))) l
        stay [] a b = tt
        stay (s ∷ l) a b = (
          elim (Bool-cases (text_eq s.1 key)) [
            | inl t ↦ inl (a.0 ((text_eq_iff s.1 key).0 t) ∙ ap (λ x. (x, key)) same)
            | inr f ↦ inr (b.0, λ p. cc ((text_eq_iff s.1 key).1 p, f))
          ],
          stay l a.1 b.1,
        )

    pub move_slot-IsPlaced :
        IsPlaced order (move_slot order (bisect_left order (old, key)) e key) e key
    unfolding move_slot
    move_slot-IsPlaced =
        rw (get_elem?-bisect_left order (old, key) ascending there, move_slot)
          (elim (Bool-cases (old == e)) [
            | inl t ↦ rw t (stay-IsPlaced ((==_iff old e).0 t))
            | inr f ↦ rw f moved-IsPlaced
          ])
