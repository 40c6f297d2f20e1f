-- ===== src/Prelude/Order.antt =====
-- Strict total orders with a Boolean test, as Python's `<` on integers, texts and tuples.
use Prim.Native.Nat.{ℕ}
use mathlib.Core.Path.{◌≡◌}
use mathlib.Core.Logic.{inl, inr}
use mathlib.Core.Bool.{Bool, true, false, not, ◌&&◌, ◌||◌}
use native.Mathlib.Omega.{arith}
use qkt_data_hub.Prelude.Tests.{ltb, Bool-cases}

pub record Ord (A : Type 0) : Type 0 where
  pub lt : A → A → Bool
  pub irrefl : (a : A) → lt a a ≡ false
  pub trans : (a b c : A) → lt a b ≡ true → lt b c ≡ true → lt a c ≡ true
  pub connex : (a b : A) → lt a b ≡ false → lt b a ≡ false → a ≡ b

infix 50 ◌≺◌
abbrev pub ◌≺◌ : {A : Type 0} ⦃o : Ord A⦄ → A → A → Bool
◌≺◌ ⦃o⦄ = o.lt

pub ltb_irrefl : (a : ℕ) → ltb a a ≡ false
ltb_irrefl a = ground arith

pub ltb_trans : (a b c : ℕ) → ltb a b ≡ true → ltb b c ≡ true → ltb a c ≡ true
ltb_trans a b c p q = ground arith

pub ltb_connex : (a b : ℕ) → ltb a b ≡ false → ltb b a ≡ false → a ≡ b
ltb_connex a b p q = ground arith

instance abbrev pub nat_ord : Ord ℕ
nat_ord = record { lt = ltb; irrefl = ltb_irrefl; trans = ltb_trans; connex = ltb_connex }

module _ {A : Type 0} ⦃o : Ord A⦄ where
  pub lt_asymm : (a b : A) → o.lt a b ≡ true → o.lt b a ≡ false
  lt_asymm a b p = elim (Bool-cases (o.lt b a)) [
    | inl q ↦ cc (o.trans a b a p q, o.irrefl a)
    | inr q ↦ q
  ]

  -- a ≤ b < c, with `≤` as the negated test
  pub lt_of_le_of_lt : (a b c : A) → o.lt b a ≡ false → o.lt b c ≡ true → o.lt a c ≡ true
  lt_of_le_of_lt a b c p q = elim (Bool-cases (o.lt a b)) [
    | inl r ↦ o.trans a b c r q
    | inr r ↦ rw (o.connex a b r p) q
  ]

  pub lt_of_lt_of_le : (a b c : A) → o.lt a b ≡ true → o.lt c b ≡ false → o.lt a c ≡ true
  lt_of_lt_of_le a b c p q = elim (Bool-cases (o.lt b c)) [
    | inl r ↦ o.trans a b c p r
    | inr r ↦ rw (← o.connex b c r q) p
  ]

  pub le_trans_lt : (a b c : A) → o.lt b a ≡ false → o.lt c b ≡ false → o.lt c a ≡ false
  le_trans_lt a b c p q = elim (Bool-cases (o.lt c a)) [
    | inl r ↦ cc (lt_of_lt_of_le c a b r p, q)
    | inr r ↦ r
  ]

-- Tuples compare by their first components that differ.
module _ {A B : Type 0} ⦃oa : Ord A⦄ ⦃ob : Ord B⦄ where
  abbrev pub pair_lt : A × B → A × B → Bool
  pair_lt p q = oa.lt p.0 q.0 || (not (oa.lt q.0 p.0) && ob.lt p.1 q.1)

  pub pair_irrefl : (p : A × B) → pair_lt p p ≡ false
  pair_irrefl p = ground (arith, oa.irrefl p.0, ob.irrefl p.1)

  pub pair_trans : (p q r : A × B) → pair_lt p q ≡ true → pair_lt q r ≡ true → pair_lt p r ≡ true
  pair_trans p q r h k = ground (
    arith,
    oa.trans p.0 q.0 r.0,
    ob.trans p.1 q.1 r.1,
    lt_of_le_of_lt p.0 q.0 r.0,
    lt_of_lt_of_le p.0 q.0 r.0,
    le_trans_lt p.0 q.0 r.0,
    lt_asymm p.0 r.0,
    lt_asymm p.0 q.0,
    lt_asymm q.0 r.0,
  )

  pub pair_connex : (p q : A × B) → pair_lt p q ≡ false → pair_lt q p ≡ false → p ≡ q
  pair_connex (a, b) (c, d) h k =
      ground (arith, oa.connex a c, ob.connex b d, lt_asymm a c, lt_asymm c a)

  instance abbrev pub pair_ord : Ord (A × B)
  pair_ord = record { lt = pair_lt; irrefl = pair_irrefl; trans = pair_trans; connex = pair_connex }
