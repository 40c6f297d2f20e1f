-- ===== src/Prelude/Outcome.antt =====
-- hubread/errors.py: the exception classes, one constructor for each, with Python's own
-- `ArithmeticError`, `ValueError`, `KeyError`, `struct.error`, `RecursionError`,
-- `TypeError` and `AttributeError`, and what a function that may raise one returns.
use mathlib.Core.Path.{◌≡◌, refl}
use mathlib.Core.Logic.{◌⊎◌, inl, inr}
use mathlib.Core.Bool.{Bool, true, false}

pub data Exception : Type 0 where
  hub_error config_error schema_error record_error parse_error store_error : Exception
  arithmetic_error value_error key_error struct_error recursion_error : Exception
  type_error attribute_error : Exception

-- isinstance(e, HubError)
abbrev pub is_hub_error : Exception → Bool
is_hub_error hub_error = true
is_hub_error config_error = true
is_hub_error schema_error = true
is_hub_error record_error = true
is_hub_error parse_error = true
is_hub_error store_error = true
is_hub_error _ = false

pub data Result {ℓ} (T : Type ℓ) : Type ℓ where
  err : Exception → Result T
  ok : T → Result T

infixl 5 ◌>>=◌ ◌>>◌
abbrev pub ◌>>=◌ {ℓ κ} : {T : Type ℓ} {U : Type κ} → Result T → (T → Result U) → Result U
err raised >>= next = err raised
ok value >>= next = next value

abbrev pub ◌>>◌ {κ} : {U : Type κ} → Result (Unit {0}) → Result U → Result U
check >> rest = check >>= λ u. rest

-- `if not test: raise e`
abbrev pub require : Bool → Exception → Result (Unit {0})
require true e = ok tt
require false e = err e

pub require-eq_ok : (b : Bool) (e : Exception) {u : Unit {0}} → require b e ≡ ok u → b ≡ true
require-eq_ok true e h = refl
require-eq_ok false e h = cc

-- What succeeds as a whole succeeds in its first part.
pub >>=-eq-ok {ℓ κ} :
    {T : Type ℓ} {U : Type κ} (r : Result T) (next : T → Result U) {u : U}
    → (r >>= next) ≡ ok u
    → (t : T) × (r ≡ ok t) × (next t ≡ ok u)
>>=-eq-ok (err raised) next p = cc
>>=-eq-ok (ok value) next p = (value, refl, p)

-- What fails as a whole fails in its first part or in what follows.
pub >>=-eq_err {ℓ κ} :
    {T : Type ℓ} {U : Type κ} (r : Result T) (next : T → Result U) {e : Exception}
    → (r >>= next) ≡ err e
    → (r ≡ err e) ⊎ ((t : T) × (r ≡ ok t) × (next t ≡ err e))
>>=-eq_err (err raised) next p = inl cc
>>=-eq_err (ok value) next p = inr (value, refl, p)

pub err_inj {ℓ} : {T : Type ℓ} {d e : Exception} → (let r : Result T = err d in r) ≡ err e → d ≡ e
err_inj h = cc

-- What holds of the value that is returned, if one is.
abbrev pub Yields {ℓ} : {T : Type ℓ} → (T → Type 0) → Result T → Type 0
Yields P (err raised) = Unit {0}
Yields P (ok value) = P value

pub Yields-bind {ℓ κ} :
    {T : Type ℓ} {U : Type κ} (P : U → Type 0) (r : Result T) (next : T → Result U)
    → ((t : T) → r ≡ ok t → Yields P (next t))
    → Yields P (r >>= next)
Yields-bind P (err raised) next h = tt
Yields-bind P (ok value) next h = h value refl

pub Yields-require {κ} :
    {U : Type κ} (P : U → Type 0) (test : Bool) (e : Exception) (rest : Result U)
    → (test ≡ true → Yields P rest)
    → Yields P (require test e >> rest)
Yields-require P true e rest h = h refl
Yields-require P false e rest h = tt

pub Yields-at {ℓ} :
    {T : Type ℓ} (P : T → Type 0) (r : Result T) {t : T} → Yields P r → r ≡ ok t → P t
Yields-at P (err raised) y p = cc
Yields-at P (ok value) {t} y p = let same : t ≡ value = cc in rw same y

pub >>=-ap {ℓ κ} :
    {T : Type ℓ} {U : Type κ} (r : Result T) (f g : T → Result U)
    → ((t : T) → f t ≡ g t)
    → (r >>= f) ≡ (r >>= g)
>>=-ap (err raised) f g h = refl
>>=-ap (ok value) f g h = h value

pub ok_inj {ℓ} : {T : Type ℓ} {t u : T} → ok t ≡ ok u → t ≡ u
ok_inj h = cc
