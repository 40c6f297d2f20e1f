-- ===== src/Prelude/Text.antt =====
-- Python's `str` as the list of its code points: equality, and the order by code points.
use Prim.Native.Nat.{ℕ}
use Prim.Native.Char.{code}
use Prim.Native.String.{String}
use mathlib.Core.Path.{◌≡◌, refl}
use mathlib.Core.Logic.{◌↔◌}
use mathlib.Core.Bool.{Bool, true, false, ◌&&◌, ◌||◌}
use mathlib.Core.List.{List, [], ◌∷◌}
use native.Mathlib.Omega.{arith}
use qkt_data_hub.Prelude.Tests.{ltb, ◌==◌}
use qkt_data_hub.Prelude.Order.{Ord}

abbrev pub Text : Type 0
Text = List ℕ

-- a literal of the source
abbrev pub codes : String → Text
codes String.[] = []
codes (String.◌∷◌ c s) = code c ∷ codes s

unfoldable pub text_eq : Text → Text → Bool
text_eq [] [] = true
text_eq [] (d ∷ t) = false
text_eq (c ∷ s) [] = false
text_eq (c ∷ s) (d ∷ t) = c == d && text_eq s t

pub text_eq_iff : (s t : Text) → (text_eq s t ≡ true) ↔ (s ≡ t)
unfolding text_eq
text_eq_iff [] [] = ground arith
text_eq_iff [] (d ∷ t) = ground arith
text_eq_iff (c ∷ s) [] = ground arith
text_eq_iff (c ∷ s) (d ∷ t) = ground (arith, text_eq_iff s t)

pub text_eq_refl : (s : Text) → text_eq s s ≡ true
text_eq_refl s = (text_eq_iff s s).1 refl

unfoldable pub text_lt : Text → Text → Bool
text_lt s [] = false
text_lt [] (d ∷ t) = true
text_lt (c ∷ s) (d ∷ t) = ltb c d || (c == d && text_lt s t)

pub text_irrefl : (s : Text) → text_lt s s ≡ false
unfolding text_lt
text_irrefl [] = refl
text_irrefl (c ∷ s) = ground (arith, text_irrefl s)

pub text_trans : (s t u : Text) → text_lt s t ≡ true → text_lt t u ≡ true → text_lt s u ≡ true
unfolding text_lt
text_trans s [] u h k = cc
text_trans s (d ∷ t) [] h k = cc
text_trans [] (d ∷ t) (e ∷ u) h k = refl
text_trans (c ∷ s) (d ∷ t) (e ∷ u) h k = ground (arith, text_trans s t u)

pub text_connex : (s t : Text) → text_lt s t ≡ false → text_lt t s ≡ false → s ≡ t
unfolding text_lt
text_connex [] [] h k = refl
text_connex [] (d ∷ t) h k = cc
text_connex (c ∷ s) [] h k = cc
text_connex (c ∷ s) (d ∷ t) h k = ground (arith, text_connex s t)

instance abbrev pub text_ord : Ord Text
text_ord = record { lt = text_lt; irrefl = text_irrefl; trans = text_trans; connex = text_connex }
