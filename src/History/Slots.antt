-- ===== src/History/Slots.antt =====
-- Every key of a `ScopeHistory` has one slot, at its own instant, and the slots ascend.
mod Bisect
mod Placed
use qkt_data_hub.Prelude.{
  ℕ, ◌≡◌, ◌≢◌, refl, ap, sym, ◌∙◌, true, false, Option, none, some, List, [], ◌∷◌, ◌⊎◌, inl, inr,
  arith, Bool-cases, Option-cases, if◌then◌else◌, All, All-imp, All-at, Among,
}
use mathlib.Core.Path.{subst}
use qkt_data_hub.Prelude.Text.{Text, text_eq, text_eq_iff}
use qkt_data_hub.Prelude.Dict.{lookup, insert, lookup-insert, lookup-insert_self, text_key}
use qkt_data_hub.Record.{Payload}
use qkt_data_hub.History.{ScopeHistory, Slot, empty, upsert, place, position, bisect_left}
pub use Bisect.{Ascending, Below}
use Placed.{IsPlaced, insort-IsPlaced, move_slot-IsPlaced}

pub record Slots (h : ScopeHistory) : Type 0 where
  pub ascending : Ascending h.order
  pub listed : All (λ s. lookup s.1 h.effective_at ≡ some s.0) h.order
  pub slotted : (k : Text) (e : ℕ) → lookup k h.effective_at ≡ some e → Among (e, k) h.order
  pub known :
      (k : Text) (e : ℕ)
      → lookup k h.effective_at ≡ some e
      → (f : Payload) × (lookup k h.fields ≡ some f)

pub empty-Slots : Slots empty
unfolding lookup
empty-Slots = record { ascending = tt; listed = tt; slotted = λ k e p. cc; known = λ k e p. cc }

module _ (h : ScopeHistory) (w : Slots h) (e : ℕ) (key : Text) (fields : Payload) where
  position_is : (o : Option ℕ) → lookup key h.effective_at ≡ o → Option ℕ
  position_is none p = none
  position_is (some old) p = some (bisect_left h.order (old, key))

  position_lem :
      (o : Option ℕ) (p : lookup key h.effective_at ≡ o) → position h key ≡ position_is o p
  unfolding position position_is
  position_lem none p = rw (p, position)
  position_lem (some old) p = rw (p, position)

  place-IsPlaced : IsPlaced h.order (place h.order (position h key) e key) e key
  place-IsPlaced = go (lookup key h.effective_at) refl
    where
      go :
          (o : Option ℕ)
          → lookup key h.effective_at ≡ o
          → IsPlaced h.order (place h.order (position h key) e key) e key
      go none p = rw (position_lem none p) (
          unfold place position_is in
          insort-IsPlaced h.order w.ascending e key (
            All-imp _ _ h.order (λ s q r. cc (q, p, ap (λ k. lookup k h.effective_at) r)) w.listed))
      go (some old) p = rw (position_lem (some old) p) (
          unfold place position_is in
          move_slot-IsPlaced h.order w.ascending e key old (w.slotted key old p)
            (All-imp _ _ h.order (λ s q r. same s q r p) w.listed))
        where
          same :
              (s : Slot)
              → lookup s.1 h.effective_at ≡ some s.0
              → s.1 ≡ key
              → lookup key h.effective_at ≡ some old
              → s ≡ (old, key)
          same (a, b) q r p = cc (ap (λ k. lookup k h.effective_at) r)

  -- `upsert` keeps one ascending slot for each key, at the instant that the key has.
  pub upsert-Slots : Slots (upsert h e key fields)
  unfolding upsert
  upsert-Slots = record {
    ascending = place-IsPlaced.ascending;
    listed = All-imp _ _ _ listed' place-IsPlaced.only;
    slotted = λ k d p. slotted' k d (Bool-cases (text_eq key k)) p;
    known = λ k d p. known' k d (Bool-cases (text_eq key k)) p;
  }
    where
      listed' :
          (s : Slot)
          → (s ≡ (e, key)) ⊎ (Among s h.order × (s.1 ≢ key))
          → lookup s.1 (insert key e h.effective_at) ≡ some s.0
      listed' s (inl p) =
          ap (λ x. lookup x.1 (insert key e h.effective_at)) p
          ∙ lookup-insert_self key e h.effective_at
          ∙ ap (λ x. some x.0) (sym p)
      listed' s (inr (m, n)) =
          lookup-insert key s.1 e h.effective_at
          ∙ ground (arith, text_eq_iff key s.1, All-at _ h.order s w.listed m, n)

      earlier :
          (k : Text) (d : ℕ)
          → text_eq key k ≡ false
          → lookup k (insert key e h.effective_at) ≡ some d
          → lookup k h.effective_at ≡ some d
      earlier k d f p = ground (arith, lookup-insert key k e h.effective_at)

      slotted' :
          (k : Text) (d : ℕ)
          → (text_eq key k ≡ true) ⊎ (text_eq key k ≡ false)
          → lookup k (insert key e h.effective_at) ≡ some d
          → Among (d, k) (place h.order (position h key) e key)
      slotted' k d (inl t) p =
          subst (λ x. Among x (place h.order (position h key) e key))
            (cc ((text_eq_iff key k).0 t, rw t at (lookup-insert key k e h.effective_at)))
            place-IsPlaced.placed
      slotted' k d (inr f) p =
          place-IsPlaced.others (d, k) (w.slotted k d (earlier k d f p))
            (λ q. cc ((text_eq_iff key k).1 (sym q), f))

      known' :
          (k : Text) (d : ℕ)
          → (text_eq key k ≡ true) ⊎ (text_eq key k ≡ false)
          → lookup k (insert key e h.effective_at) ≡ some d
          → (f : Payload) × (lookup k (insert key fields h.fields) ≡ some f)
      known' k d (inl t) p = (fields, lookup-insert key k fields h.fields ∙ rw t)
      known' k d (inr f) p =
          let (g, q) = w.known k d (earlier k d f p) in
          (g, lookup-insert key k fields h.fields ∙ rw f q)
