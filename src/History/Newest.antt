-- ===== src/History/Newest.antt =====
-- The limited walk of `before` gives the newest facts of the unlimited one.
use mathlib.Core.List.{reverse, reverse-append, map-append}
use qkt_data_hub.Prelude.{
  ℕ, zero, suc, ◌≡◌, refl, ap, sym, ◌∙◌, List, [], ◌∷◌, map, take, last, keep, inl, inr, Bool-cases,
  keep-reverse, take-nil, reverse-take-reverse,
}
use qkt_data_hub.Prelude.Text.{Text}
use qkt_data_hub.Record.{Payload}
use qkt_data_hub.History.{
  ScopeHistory, Slot, is_other, fields_of, walk_back, before, before_all, cut_before,
}

walk_back-take :
    (h : ScopeHistory) (key : Text) (n : ℕ) (slots : List Slot)
    → walk_back h key n slots ≡ take n (map (λ s. fields_of h s.1) (keep (is_other key) slots))
unfolding walk_back
walk_back-take h key n [] = sym (take-nil n)
walk_back-take h key zero (s ∷ slots) = refl
walk_back-take h key (suc n) (s ∷ slots) = elim (Bool-cases (is_other key s)) [
  | inl e ↦ rw e (ap (◌∷◌ (fields_of h s.1)) (walk_back-take h key n slots))
  | inr e ↦ rw e (walk_back-take h key (suc n) slots)
]

map-reverse_payloads :
    (f : Slot → Payload) (slots : List Slot) → map f (reverse slots) ≡ reverse (map f slots)
map-reverse_payloads f [] = refl
map-reverse_payloads f (s ∷ slots) =
    ap (map f) (reverse-append (s ∷ []) slots)
    ∙ map-append f (reverse slots) (s ∷ [])
    ∙ rw (map-reverse_payloads f slots) (sym (reverse-append (f s ∷ []) (map f slots)))

-- `before` with a limit returns the newest `limit` facts of what `before` without one returns.
pub before-last :
    (h : ScopeHistory) (effective_at : ℕ) (key : Text) (limit : ℕ)
    → before h effective_at key limit ≡ last limit (before_all h effective_at key)
unfolding before before_all
before-last h effective_at key limit =
    ap reverse (walk_back-take h key limit (reverse (cut_before h effective_at key)))
    ∙ ap (λ l. reverse (take limit (map (λ s. fields_of h s.1) l)))
        (keep-reverse (is_other key) (cut_before h effective_at key))
    ∙ ap (λ l. reverse (take limit l))
        (map-reverse_payloads (λ s. fields_of h s.1)
          (keep (is_other key) (cut_before h effective_at key)))
    ∙ reverse-take-reverse limit
        (map (λ s. fields_of h s.1) (keep (is_other key) (cut_before h effective_at key)))
