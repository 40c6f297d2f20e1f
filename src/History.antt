-- ===== src/History.antt =====
-- `ScopeHistory` of hub/pipeline.py: one scope's facts in the order of their instants.
pub mod Slots
pub mod Before
pub mod Newest
use mathlib.Core.List.{reverse}
use qkt_data_hub.Prelude.{
  ℕ, zero, suc, Bool, true, false, not, Option, none, some, List, [], ◌∷◌, map, get_elem?, take,
  keep, ◌==◌, if◌then◌else◌,
}
use qkt_data_hub.Prelude.Order.{Ord, nat_ord, pair_ord}
use qkt_data_hub.Prelude.Text.{Text, text_eq, text_ord}
use qkt_data_hub.Prelude.Dict.{Dict, lookup, insert, text_key}
use qkt_data_hub.Record.{Payload}

-- (effective_at, key)
abbrev pub Slot : Type 0
Slot = ℕ × Text

abbrev pub slot_ord : Ord Slot
slot_ord = pair_ord

pub record ScopeHistory : Type 0 where
  pub order : List Slot
  pub fields : Dict Text Payload
  pub effective_at : Dict Text ℕ

abbrev pub empty : ScopeHistory
empty = record { order = []; fields = []; effective_at = [] }

-- bisect.bisect_left on an ascending list: how many slots are below `x`
unfoldable pub bisect_left : List Slot → Slot → ℕ
bisect_left [] x = 0
bisect_left (y ∷ ys) x = if slot_ord.lt y x then suc (bisect_left ys x) else 0

-- bisect.insort: after the slots that are not above `x`
unfoldable pub insort : List Slot → Slot → List Slot
insort [] x = x ∷ []
insort (y ∷ ys) x = if slot_ord.lt x y then x ∷ y ∷ ys else y ∷ insort ys x

-- del order[i]
unfoldable pub remove_at : List Slot → ℕ → List Slot
remove_at [] i = []
remove_at (y ∷ ys) zero = ys
remove_at (y ∷ ys) (suc i) = y ∷ remove_at ys i

-- `_position`
unfoldable pub position : ScopeHistory → Text → Option ℕ
unfolding bisect_left
position h key = elim (lookup key h.effective_at) [
  | none ↦ none
  | some e ↦ some (bisect_left h.order (e, key))
]

-- The branch of `upsert` for a key that has a slot, which stands at `i`. An index past the end
-- would raise; `Slots` shows that it never is.
unfoldable pub move_slot : List Slot → ℕ → ℕ → Text → List Slot
unfolding remove_at insort
move_slot order i effective_at key = elim (get_elem? order i) [
  | none ↦ order
  | some slot ↦
      if slot.0 == effective_at then order else insort (remove_at order i) (effective_at, key)
]

unfoldable pub place : List Slot → Option ℕ → ℕ → Text → List Slot
unfolding move_slot insort
place order none effective_at key = insort order (effective_at, key)
place order (some i) effective_at key = move_slot order i effective_at key

unfoldable pub upsert : ScopeHistory → ℕ → Text → Payload → ScopeHistory
unfolding place position
upsert h effective_at key fields = record {
  order = place h.order (position h key) effective_at key;
  fields = insert key fields h.fields;
  effective_at = insert key effective_at h.effective_at;
}

-- self._fields[k]; `Slots` shows that a key of the order is never missing
unfoldable pub fields_of : ScopeHistory → Text → Payload
fields_of h k = elim (lookup k h.fields) [ none ↦ [] | some f ↦ f ]

-- self._order[:cut]
unfoldable pub cut_before : ScopeHistory → ℕ → Text → List Slot
unfolding bisect_left
cut_before h effective_at key = take (bisect_left h.order (effective_at, key)) h.order

abbrev pub is_other : Text → Slot → Bool
is_other key slot = not (text_eq slot.1 key)

-- `before` without a limit
unfoldable pub before_all : ScopeHistory → ℕ → Text → List Payload
unfolding fields_of
before_all h effective_at key =
    map (λ s. fields_of h s.1) (keep (is_other key) (cut_before h effective_at key))

-- the `while` of `before`, on the slots before the cut from the newest
walk_back : ScopeHistory → Text → ℕ → List Slot → List Payload
unfolding fields_of
walk_back h key limit [] = []
walk_back h key zero (s ∷ slots) = []
walk_back h key (suc n) (s ∷ slots) =
    let skipped = walk_back h key (suc n) slots in
    let taken = fields_of h s.1 ∷ walk_back h key n slots in
    if is_other key s then taken else skipped

-- `before` with a limit
unfoldable pub before : ScopeHistory → ℕ → Text → ℕ → List Payload
unfolding walk_back
before h effective_at key limit =
    reverse (walk_back h key limit (reverse (cut_before h effective_at key)))

-- `payloads`
unfoldable pub payloads : ScopeHistory → List Payload
unfolding fields_of
payloads h = map (λ s. fields_of h s.1) h.order
