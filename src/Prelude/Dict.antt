-- ===== src/Prelude/Dict.antt =====
-- Python's `dict` as an association list in the order of insertion, over keys with a Boolean
-- equality.
use mathlib.Core.Path.{◌≡◌, refl, subst}
use mathlib.Core.Logic.{◌↔◌, inl, inr}
use mathlib.Core.Bool.{Bool, true, ◌&&◌}
use mathlib.Core.List.{List, [], ◌∷◌, map}
use mathlib.Core.Option.{Option, none, some}
use native.Mathlib.Omega.{arith}
use qkt_data_hub.Prelude.Tests.{if◌then◌else◌, Bool-cases}
use qkt_data_hub.Prelude.Lists.{All}
use qkt_data_hub.Prelude.Text.{Text, text_eq, text_eq_iff}

pub record Eq (A : Type 0) : Type 0 where
  pub beq : A → A → Bool
  pub beq_iff : (a b : A) → (beq a b ≡ true) ↔ (a ≡ b)

instance abbrev pub text_key : Eq Text
text_key = record { beq = text_eq; beq_iff = text_eq_iff }

module _ {A B : Type 0} ⦃ea : Eq A⦄ ⦃eb : Eq B⦄ where
  abbrev pub pair_eq : A × B → A × B → Bool
  pair_eq p q = ea.beq p.0 q.0 && eb.beq p.1 q.1

  pub pair_eq_iff : (p q : A × B) → (pair_eq p q ≡ true) ↔ (p ≡ q)
  pair_eq_iff (a, b) (c, d) = ground (arith, ea.beq_iff a c, eb.beq_iff b d)

  instance abbrev pub pair_key : Eq (A × B)
  pair_key = record { beq = pair_eq; beq_iff = pair_eq_iff }

pub beq_refl : {K : Type 0} ⦃e : Eq K⦄ (k : K) → e.beq k k ≡ true
beq_refl ⦃e⦄ k = (e.beq_iff k k).1 refl

abbrev pub Dict : Type 0 → Type 0 → Type 0
Dict K V = List (K × V)

module _ {K V : Type 0} ⦃e : Eq K⦄ where
  -- d.get(k)
  unfoldable pub lookup : K → Dict K V → Option V
  lookup k [] = none
  lookup k ((j, v) ∷ m) = if e.beq j k then some v else lookup k m

  -- d[k] = v: a key keeps its place, a new key goes last
  unfoldable pub insert : K → V → Dict K V → Dict K V
  insert k v [] = (k, v) ∷ []
  insert k v ((j, w) ∷ m) = if e.beq j k then (j, v) ∷ m else (j, w) ∷ insert k v m

  pub lookup-insert :
      (k j : K) (v : V) (m : Dict K V)
      → lookup j (insert k v m) ≡ (if e.beq k j then some v else lookup j m)
  unfolding lookup insert
  lookup-insert k j v [] = refl
  lookup-insert k j v ((i, w) ∷ m) =
      ground (arith, e.beq_iff k j, e.beq_iff i k, e.beq_iff i j, lookup-insert k j v m)

  pub lookup-insert_self : (k : K) (v : V) (m : Dict K V) → lookup k (insert k v m) ≡ some v
  lookup-insert_self k v m = simp (lookup-insert, beq_refl)

  pub All-insert :
      (P : K × V → Type 0) (k : K) (v : V) (m : Dict K V)
      → P (k, v)
      → All P m
      → All P (insert k v m)
  unfolding insert
  All-insert P k v [] p h = (p, tt)
  All-insert P k v ((j, w) ∷ m) p h = elim (Bool-cases (e.beq j k)) [
    | inl q ↦ rw q (rw ((e.beq_iff j k).0 q) p, h.1)
    | inr q ↦ rw q (h.0, All-insert P k v m p h.1)
  ]

  pub All-lookup :
      (P : K × V → Type 0) (k : K) (m : Dict K V) {v : V} → All P m → lookup k m ≡ some v → P (k, v)
  unfolding lookup
  All-lookup P k [] all p = cc
  All-lookup P k ((j, w) ∷ m) {v} all p = elim (Bool-cases (e.beq j k)) [
    | inl q ↦
        let same : j ≡ k = (e.beq_iff j k).0 q in
        let found : some w ≡ some v = rw q at p in
        let value : w ≡ v = cc in subst (λ t. P (t, v)) same (subst (λ t. P (j, t)) value all.0)
    | inr q ↦ All-lookup P k m all.1 (rw q at p)
  ]

  -- {**d, **e}
  unfoldable pub merge : Dict K V → Dict K V → Dict K V
  merge d [] = d
  merge d ((k, v) ∷ m) = merge (insert k v d) m

-- the values, in order
abbrev pub values : {K V : Type 0} → Dict K V → List V
values m = map (λ e. e.1) m
