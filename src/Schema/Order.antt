-- ===== src/Schema/Order.antt =====
-- `_derived_order` of hub/schema.py: the order in which derived fields are evaluated.
pub mod Marks
pub mod Sorted
pub mod Cycles
pub mod Settled
pub mod Closed
use qkt_data_hub.Prelude.{
  ℕ, zero, suc, Bool, true, false, not, ◌&&◌, ◌||◌, Option, none, some, List, [], ◌∷◌, ◌++◌, map,
  keep, Result, ok, err, ◌>>=◌, ◌>>◌, require, Exception, schema_error, key_error, recursion_error,
  length, ◌==◌, if◌then◌else◌,
}
use qkt_data_hub.Prelude.Text.{Text, codes}
use qkt_data_hub.Prelude.Dict.{Dict, lookup, insert, values, text_key}
use qkt_data_hub.Prelude.Sets.{sorted_set}
use qkt_data_hub.Record.Names.{elem}
use qkt_data_hub.Record.Checks.{not_empty}
use qkt_data_hub.Derive.Decimals.{DecimalContext}
use qkt_data_hub.Derive.Compile.{referenced_names}
use qkt_data_hub.Schema.{FieldSpec, or_raise}

-- the derived fields that each derived field reads
abbrev pub Dependencies : Type 0
Dependencies = Dict Text (List Text)

-- set(d)
abbrev pub keys_of : {V : Type 0} → Dict Text V → List Text
keys_of d = map (λ e. e.0) d

-- `_ENVELOPE_EXPRESSION_NAMES`
abbrev pub envelope_expression_names : List Text
envelope_expression_names = codes "known_at" ∷ codes "effective_at" ∷ []

abbrev pub is_available : Dict Text FieldSpec → Text → Bool
is_available fields name = elem name (keys_of fields) || elem name envelope_expression_names

abbrev pub all_available : Dict Text FieldSpec → List Text → Bool
all_available fields [] = true
all_available fields (name ∷ names) = is_available fields name && all_available fields names

abbrev pub has_expression : Option FieldSpec → Bool
has_expression none = false
has_expression (some spec) = not_empty spec.derived

-- n in fields and fields[n].derived
unfoldable pub is_derived_name : Dict Text FieldSpec → Text → Bool
is_derived_name fields name = has_expression (lookup name fields)

-- What the recursion of `visit` shares: the marks (1 while a name is open, 2 when it is done) and the
-- order so far.
pub record Walk : Type 0 where
  pub state : Dict Text ℕ
  pub order : List Text

abbrev pub or_zero : Option ℕ → ℕ
or_zero none = 0
or_zero (some mark) = mark

-- state.get(name, 0)
unfoldable pub mark_of : Walk → Text → ℕ
mark_of w name = or_zero (lookup name w.state)

abbrev pub marked : ℕ → Text → Walk → Walk
marked mark name w = record { state = insert name mark w.state; order = w.order }

-- state[name] = 2; order.append(name)
abbrev pub finish : Text → Walk → Walk
finish name w = record { state = insert name 2 w.state; order = w.order ++ (name ∷ []) }

-- for name in names: visit(name)
unfoldable pub each : (Text → Walk → Result Walk) → List Text → Walk → Result Walk
each visit [] w = ok w
each visit (name ∷ names) w = do v ← visit name w; each visit names v

-- `visit`; the fuel bounds the depth of the recursion, and Python raises where it is too deep
unfoldable pub visit : ℕ → Dependencies → Text → Walk → Result Walk
unfolding mark_of each sorted_set or_raise
visit zero deps name w =
    if mark_of w name == 2
    then ok w
    else (if mark_of w name == 1 then err schema_error else err recursion_error)
visit (suc depth) deps name w =
    let explored : Result Walk = (do
      names ← or_raise key_error (lookup name deps)
      v ← each (visit depth deps) (sorted_set names) (marked 1 name w)
      ok (finish name v)) in
    if mark_of w name == 2
    then ok w
    else (if mark_of w name == 1 then err schema_error else explored)

abbrev pub fresh_walk : Walk
fresh_walk = record { state = []; order = [] }

-- the second half of `_derived_order`; no walk is deeper than there are derived fields
unfoldable pub order_of : Dependencies → Result (List Text)
unfolding visit
order_of deps = do
  w ← each (visit (length deps) deps) (sorted_set (keys_of deps)) fresh_walk
  ok w.order

module _ (c : DecimalContext) where
  -- the loop over the declared fields
  unfoldable pub dependencies_of : Dict Text FieldSpec → List FieldSpec → Result Dependencies
  unfolding is_derived_name
  dependencies_of fields [] = ok []
  dependencies_of fields (spec ∷ specs) =
      let rest = dependencies_of fields specs in
      let added : Result Dependencies = (do
        names ← referenced_names c spec.derived
        require (all_available fields names) schema_error
        require (not (elem spec.name names)) schema_error
        deps ← rest
        ok ((spec.name, keep (is_derived_name fields) names) ∷ deps)) in
      if not_empty spec.derived then added else rest

  -- `_derived_order`
  unfoldable pub derived_order : Dict Text FieldSpec → Result (List Text)
  unfolding dependencies_of order_of
  derived_order fields = do deps ← dependencies_of fields (values fields); order_of deps
