-- ===== src/Reader/Visible.antt =====
-- Visibility as a predicate, and what later records change.
use mathlib.Core.List.{append-nil}
use qkt_data_hub.Prelude.{
  ℕ, ◌+◌, ◌≤◌, ◌<◌, ◌≡◌, ◌≢◌, refl, true, List, [], ◌∷◌, ◌++◌, arith, keep, keep-append, All,
}
use qkt_data_hub.Prelude.Text.{Text, text_eq_iff}
use qkt_data_hub.Record.{Record, derived, min_timestamp_ms}
use qkt_data_hub.Reader.{Policy, in_range, read_range, is_visible, visible_records, as_of}

-- What a consumer may be shown at `t`.
pub record MaySee (policy : Policy) (scope : Text) (t : ℕ) (r : Record) : Type 0 where
  pub scoped : r.scope ≡ scope
  pub known : r.known_at + policy.min_lag_ms ≤ t
  pub trusted : policy.refuse_derived ≡ true → r.availability ≢ derived

pub is_visible→MaySee :
    (policy : Policy) (scope : Text) (t : ℕ) (r : Record)
    → is_visible policy scope t r ≡ true
    → MaySee policy scope t r
unfolding is_visible
is_visible→MaySee policy scope t r h = ground (arith, text_eq_iff r.scope scope)

pub MaySee→is_visible :
    (policy : Policy) (scope : Text) (t : ℕ) (r : Record)
    → MaySee policy scope t r
    → is_visible policy scope t r ≡ true
unfolding is_visible
MaySee→is_visible policy scope t r h = ground (arith, text_eq_iff r.scope scope)

-- records that all lie after `t` do not pass the range of a read up to `t`
keep_later :
    (t : ℕ) (later : List Record)
    → All (λ r. t < r.known_at) later
    → keep (in_range min_timestamp_ms t) later ≡ []
keep_later t [] h = refl
keep_later t (r ∷ later) h = ground (arith, keep_later t later)

-- Records that become known after `t` change nothing of what a consumer sees at `t`.
pub as_of-append_later :
    (policy : Policy) (journal later : List Record) (scope : Text) (t : ℕ)
    → All (λ r. t < r.known_at) later
    → as_of policy (journal ++ later) scope t ≡ as_of policy journal scope t
unfolding as_of visible_records read_range
as_of-append_later policy journal later scope t h =
    rw (keep-append (in_range min_timestamp_ms t) journal later, keep_later t later h)
      (rw append-nil)
