-- ===== src/Derive/Calls/Arguments.antt =====
-- What the argument rules of the parser leave of the tokens.
use qkt_data_hub.Prelude.{
  ℕ, suc, ◌≤◌, ◌<◌, Bool, true, false, Option, none, some, List, [], ◌∷◌, ◌==◌, arith, inl, inr,
  Bool-cases, if◌then◌else◌, length,
}
use qkt_data_hub.Prelude.Text.{Text, codes, text_eq}
use qkt_data_hub.Prelude.Dict.{Dict, insert, lookup, text_key}
use qkt_data_hub.Derive.Syntax.{Function, lag, diff, since, until}
use qkt_data_hub.Derive.Tokens.{number, name, op}
use qkt_data_hub.Derive.Calls.{
  Tokens, Parse, done, failed, out_of_fuel, ◌>>=◌, int_value, expect_op, positional_int,
  named_int_kwargs, zscore_of, zscore_from, pct_rank_of, pct_rank_from, int_arg, zscore_args,
  pct_rank_args, call_args_for, field_name, call_of,
}

-- The parse did not run out of fuel, and what it left is shorter than `n`.
abbrev pub Leaves : {A : Type 0} → ℕ → Parse A → Type 0
Leaves n (done a rest) = length rest < n
Leaves n failed = Unit
Leaves n out_of_fuel = ⊥

pub Leaves-bind :
    {A B : Type 0} (p : Parse A) (g : A → Tokens → Parse B) (n m : ℕ)
    → Leaves n p
    → ((a : A) (rest : Tokens) → length rest < n → Leaves m (g a rest))
    → Leaves m (p >>= g)
Leaves-bind (done a rest) g n m h k = k a rest h
Leaves-bind failed g n m h k = tt
Leaves-bind out_of_fuel g n m h k = absurd h

pub Leaves-mono : {A : Type 0} (p : Parse A) (n m : ℕ) → n ≤ m → Leaves n p → Leaves m p
Leaves-mono (done a rest) n m le h = omega arith
Leaves-mono failed n m le h = tt
Leaves-mono out_of_fuel n m le h = h

pub expect_op-Leaves : (d : ℕ) (ts : Tokens) → Leaves (suc (length ts)) (expect_op d ts)
unfolding expect_op
expect_op-Leaves d [] = tt
expect_op-Leaves d (op e ∷ ts) = elim (Bool-cases (e == d)) [
  | inl t ↦ rw t (omega arith)
  | inr f ↦ rw f tt
]
expect_op-Leaves d (number t ∷ ts) = tt
expect_op-Leaves d (name t ∷ ts) = tt

pub Leaves-if :
    {A : Type 0} (b : Bool) (p q : Parse A) (n : ℕ)
    → Leaves n p
    → Leaves n q
    → Leaves n (if b then p else q)
Leaves-if true p q n h k = h
Leaves-if false p q n h k = k

positional_int-Leaves : (ts : Tokens) → Leaves (suc (length ts)) (positional_int ts)
unfolding positional_int
positional_int-Leaves (number t ∷ ts) = Leaves-if _ failed (done _ ts) _ tt (omega arith)
positional_int-Leaves _ = tt

field_name-Leaves : (ts : Tokens) → Leaves (suc (length ts)) (field_name ts)
unfolding field_name
field_name-Leaves (name t ∷ ts) = omega arith
field_name-Leaves _ = tt

named_int_kwargs-Leaves :
    (allowed : List Text) (found : Dict Text ℕ) (ts : Tokens)
    → Leaves (suc (length ts)) (named_int_kwargs allowed found ts)
unfolding named_int_kwargs
named_int_kwargs-Leaves allowed found (name key ∷ op e ∷ number v ∷ op d ∷ ts) =
    Leaves-if _ failed _ _ tt (
      Leaves-if (d == b',') _ (done _ (op d ∷ ts)) _
        (Leaves-mono _ (suc (length ts)) _ (omega arith)
          (named_int_kwargs-Leaves allowed (insert key (int_value 0 v) found) ts))
        (omega arith))
named_int_kwargs-Leaves allowed found (name key ∷ op e ∷ number v ∷ []) =
    Leaves-if _ (done _ []) failed _ (omega arith) tt
named_int_kwargs-Leaves allowed found (name key ∷ op e ∷ number v ∷ number w ∷ ts) =
    Leaves-if _ (done _ (number w ∷ ts)) failed _ (omega arith) tt
named_int_kwargs-Leaves allowed found (name key ∷ op e ∷ number v ∷ name w ∷ ts) =
    Leaves-if _ (done _ (name w ∷ ts)) failed _ (omega arith) tt
named_int_kwargs-Leaves allowed found _ = tt

zscore_of-Leaves : (a b : Option ℕ) (ts : Tokens) → Leaves (suc (length ts)) (zscore_of a b ts)
unfolding zscore_of
zscore_of-Leaves (some a) (some b) ts = omega arith
zscore_of-Leaves _ _ ts = tt

pct_rank_of-Leaves : (a : Option ℕ) (ts : Tokens) → Leaves (suc (length ts)) (pct_rank_of a ts)
unfolding pct_rank_of
pct_rank_of-Leaves (some a) ts = omega arith
pct_rank_of-Leaves none ts = tt

-- a rule that leaves no more than it was given, and then another
then_Leaves :
    {A B : Type 0} (p : Parse A) (g : A → Tokens → Parse B) (n : ℕ)
    → Leaves (suc n) p
    → ((a : A) (rest : Tokens) → Leaves (suc (length rest)) (g a rest))
    → Leaves (suc n) (p >>= g)
then_Leaves p g n h k =
    Leaves-bind p g (suc n) (suc n) h
      (λ a rest le. Leaves-mono _ (suc (length rest)) _ (omega arith) (k a rest))

int_arg-Leaves : (f : ℕ → Function) (ts : Tokens) → Leaves (suc (length ts)) (int_arg f ts)
unfolding int_arg
int_arg-Leaves f ts =
    then_Leaves _ _ _ (expect_op-Leaves _ ts)
      (λ a r. then_Leaves _ _ _ (positional_int-Leaves r) (λ n s. omega arith))

zscore_args-Leaves : (ts : Tokens) → Leaves (suc (length ts)) (zscore_args ts)
unfolding zscore_args
zscore_args-Leaves ts = then_Leaves _ _ _ (expect_op-Leaves _ ts) (λ a r.
    then_Leaves _ zscore_from (length r)
      (named_int_kwargs-Leaves (codes "window" ∷ codes "min_obs" ∷ []) [] r)
      (λ k s.
        unfold zscore_from in
        zscore_of-Leaves (lookup (codes "window") k) (lookup (codes "min_obs") k) s))

pct_rank_args-Leaves : (ts : Tokens) → Leaves (suc (length ts)) (pct_rank_args ts)
unfolding pct_rank_args
pct_rank_args-Leaves ts = then_Leaves _ _ _ (expect_op-Leaves _ ts) (λ a r.
    then_Leaves _ pct_rank_from (length r) (named_int_kwargs-Leaves (codes "window" ∷ []) [] r)
      (λ k s. unfold pct_rank_from in pct_rank_of-Leaves (lookup (codes "window") k) s))

call_args_for-Leaves :
    (func : Text) (ts : Tokens) → Leaves (suc (length ts)) (call_args_for func ts)
unfolding call_args_for
call_args_for-Leaves func ts =
    Leaves-if (text_eq func (codes "lag")) (int_arg lag ts) _ (suc (length ts))
      (int_arg-Leaves lag ts)
      (Leaves-if (text_eq func (codes "diff")) (int_arg diff ts) _ (suc (length ts))
        (int_arg-Leaves diff ts)
        (Leaves-if (text_eq func (codes "zscore")) (zscore_args ts) _ (suc (length ts))
          (zscore_args-Leaves ts)
          (Leaves-if (text_eq func (codes "pct_rank")) (pct_rank_args ts) _ (suc (length ts))
            (pct_rank_args-Leaves ts)
            (Leaves-if (text_eq func (codes "since")) (done since ts) (done until ts)
              (suc (length ts)) (omega arith) (omega arith)))))

pub call_of-Leaves :
    (D : Type 0) (func : Text) (ts : Tokens) → Leaves (suc (length ts)) (call_of {D = D} func ts)
unfolding call_of
call_of-Leaves D func ts = Leaves-if _ failed _ _ tt (
    then_Leaves _ _ _ (expect_op-Leaves _ ts) (λ a r.
      then_Leaves _ _ _ (field_name-Leaves r) (λ field s.
        then_Leaves _ _ _ (call_args_for-Leaves func s)
          (λ function t. then_Leaves _ _ _ (expect_op-Leaves _ t) (λ b u. omega arith)))))
