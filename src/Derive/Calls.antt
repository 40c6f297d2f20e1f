-- ===== src/Derive/Calls.antt =====
-- The calls of `_Parser` in hub/derive.py, and the argument rules of each function. A method returns
-- what it read and the tokens that are left; every error is a `SchemaError`.
pub mod Arguments
use qkt_data_hub.Prelude.{
  ℕ, zero, suc, ◌+◌, ◌*◌, ◌-◌, Bool, true, false, not, ◌&&◌, ◌||◌, Option, none, some, List, [],
  ◌∷◌, ◌==◌, Result, ok, err, schema_error, if◌then◌else◌, length,
}
use qkt_data_hub.Prelude.Text.{Text, codes, text_eq}
use qkt_data_hub.Prelude.Dict.{Dict, lookup, insert, text_key}
use qkt_data_hub.Record.Names.{elem}
use qkt_data_hub.Derive.Decimals.{DecimalContext}
use qkt_data_hub.Derive.Syntax.{
  Node, literal, field_ref, unary, bin_op, call, Operator, plus, minus, times, over, Function, lag,
  diff, zscore, pct_rank, since, until,
}
use qkt_data_hub.Derive.Tokens.{Token, number, name, op}

abbrev pub Tokens : Type 0
Tokens = List Token

-- `out_of_fuel` has no counterpart in the source, and is shown not to occur.
pub data Parse (A : Type 0) : Type 0 where
  done : A → Tokens → Parse A
  failed out_of_fuel : Parse A

infixl 5 ◌>>=◌
abbrev pub ◌>>=◌ : {A B : Type 0} → Parse A → (A → Tokens → Parse B) → Parse B
done a rest >>= f = f a rest
failed >>= f = failed
out_of_fuel >>= f = out_of_fuel

-- `RESERVED_EXPRESSION_NAMES`
abbrev pub reserved_expression_names : List Text
reserved_expression_names =
    codes "zscore"
    ∷ codes "lag"
    ∷ codes "diff"
    ∷ codes "pct_rank"
    ∷ codes "since"
    ∷ codes "until"
    ∷ []

-- `_expect_op`
unfoldable pub expect_op : ℕ → Tokens → Parse (Unit {0})
expect_op c (op d ∷ rest) = if d == c then done tt rest else failed
expect_op c _ = failed

-- int(text)
unfoldable pub int_value : ℕ → Text → ℕ
int_value n [] = n
int_value n (c ∷ s) = int_value (n * 10 + (c - 48)) s

-- "." in text
unfoldable pub has_dot : Text → Bool
has_dot [] = false
has_dot (c ∷ s) = c == b'.' || has_dot s

-- `_positional_int`
unfoldable pub positional_int : Tokens → Parse ℕ
unfolding has_dot int_value
positional_int (number text ∷ rest) = if has_dot text then failed else done (int_value 0 text) rest
positional_int _ = failed

-- the tests on one `name=INT`
unfoldable pub accepts : List Text → Dict Text ℕ → Text → ℕ → Text → Bool
unfolding elem has_dot lookup text_eq
accepts allowed found key equals value =
    elem key allowed
    && elim (lookup key found) [ none ↦ true | some n ↦ false ]
    && equals == b'='
    && not (has_dot value)

-- the loop of `_named_int_kwargs`
unfoldable pub named_int_kwargs : List Text → Dict Text ℕ → Tokens → Parse (Dict Text ℕ)
unfolding accepts int_value insert
named_int_kwargs allowed found (name key ∷ op equals ∷ number value ∷ op comma ∷ rest) =
    let found' = insert key (int_value 0 value) found in
    let more = named_int_kwargs allowed found' rest in
    if not (accepts allowed found key equals value)
    then failed
    else if comma == b','
    then more
    else done found' (op comma ∷ rest)
named_int_kwargs allowed found (name key ∷ op equals ∷ number value ∷ rest) =
    if accepts allowed found key equals value
    then done (insert key (int_value 0 value) found) rest
    else failed
named_int_kwargs allowed found _ = failed

unfoldable pub zscore_of : Option ℕ → Option ℕ → Tokens → Parse Function
zscore_of (some window) (some min_obs) rest = done (zscore window min_obs) rest
zscore_of _ _ rest = failed

unfoldable pub pct_rank_of : Option ℕ → Tokens → Parse Function
pct_rank_of (some window) rest = done (pct_rank window) rest
pct_rank_of none rest = failed

-- (kwargs["window"], kwargs["min_obs"]), where neither is missing
unfoldable pub zscore_from : Dict Text ℕ → Tokens → Parse Function
unfolding zscore_of lookup
zscore_from kwargs rest =
    zscore_of (lookup (codes "window") kwargs) (lookup (codes "min_obs") kwargs) rest

unfoldable pub pct_rank_from : Dict Text ℕ → Tokens → Parse Function
unfolding pct_rank_of lookup
pct_rank_from kwargs rest = pct_rank_of (lookup (codes "window") kwargs) rest

-- `, INT`
unfoldable pub int_arg : (ℕ → Function) → Tokens → Parse Function
unfolding expect_op positional_int
int_arg f ts = expect_op b',' ts >>= λ _ r. positional_int r >>= λ n s. done (f n) s

-- `, window=INT, min_obs=INT` in either order
unfoldable pub zscore_args : Tokens → Parse Function
unfolding expect_op named_int_kwargs zscore_from
zscore_args ts = expect_op b',' ts >>= λ _ r.
    named_int_kwargs (codes "window" ∷ codes "min_obs" ∷ []) [] r >>= zscore_from

-- `, window=INT`
unfoldable pub pct_rank_args : Tokens → Parse Function
unfolding expect_op named_int_kwargs pct_rank_from
pct_rank_args ts =
    expect_op b',' ts >>= λ _ r. named_int_kwargs (codes "window" ∷ []) [] r >>= pct_rank_from

-- `_call_args_for`
unfoldable pub call_args_for : Text → Tokens → Parse Function
unfolding int_arg zscore_args pct_rank_args text_eq
call_args_for func ts =
    if text_eq func (codes "lag")
    then int_arg lag ts
    else if text_eq func (codes "diff")
    then int_arg diff ts
    else if text_eq func (codes "zscore")
    then zscore_args ts
    else if text_eq func (codes "pct_rank")
    then pct_rank_args ts
    else if text_eq func (codes "since")
    then done since ts
    else done until ts

-- the first argument of a call: a name
unfoldable pub field_name : Tokens → Parse Text
field_name (name field ∷ rest) = done field rest
field_name _ = failed

unfoldable pub starts_call : Tokens → Bool
starts_call (op c ∷ rest) = c == b'('
starts_call _ = false

-- `_call`
unfoldable pub call_of : {D : Type 0} → Text → Tokens → Parse (Node D)
unfolding elem expect_op field_name call_args_for text_eq
call_of func ts =
    if not (elem func reserved_expression_names)
    then failed
    else (expect_op b'(' ts >>= λ _ r. field_name r >>= λ field s.
        call_args_for func s >>= λ function t.
        expect_op b')' t >>= λ _ u. done (call function field) u)
