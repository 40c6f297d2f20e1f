-- ===== src/Record/Checks.antt =====
-- `Record.__post_init__` and `_check_timestamp`: the checks of the envelope, in their order.
-- That a number is an integer and no bool is its type here.
use qkt_data_hub.Prelude.{
  ℕ, ◌≤◌, ◌≡◌, Bool, true, false, not, ◌&&◌, Option, none, some, [], ◌∷◌, leb, ltb, ◌==◌, arith,
  Result, ok, record_error, require, ◌>>◌,
}
use qkt_data_hub.Prelude.Text.{Text}
use qkt_data_hub.Record.{Record, Payload, envelope_version, min_timestamp_ms, max_timestamp_ms}
use qkt_data_hub.Record.Names.{
  elem, matches_dataset, matches_scope, matches_field_name, domain, domains, reserved_field_names,
}

abbrev pub not_empty : Text → Bool
not_empty [] = false
not_empty (c ∷ s) = true

unfoldable pub check_timestamp : ℕ → Result (Unit {0})
check_timestamp t = require (leb min_timestamp_ms t && leb t max_timestamp_ms) record_error

unfoldable pub check_optional : Option ℕ → Result (Unit {0})
unfolding check_timestamp
check_optional none = ok tt
check_optional (some t) = check_timestamp t

-- period_end < period_start, where both are given
unfoldable pub check_period : Option ℕ → Option ℕ → Result (Unit {0})
check_period (some a) (some b) = require (not (ltb b a)) record_error
check_period _ _ = ok tt

unfoldable pub check_fields : Payload → Result (Unit {0})
check_fields [] = ok tt
check_fields ((name, value) ∷ rest) = do
  require (matches_field_name name) record_error
  require (not (elem name reserved_field_names)) record_error
  check_fields rest

unfoldable pub post_init : Record → Result (Unit {0})
unfolding check_timestamp check_optional check_period check_fields
post_init r = do
  require (r.v == envelope_version) record_error
  require (matches_dataset r.dataset) record_error
  require (elem (domain r.dataset) domains) record_error
  require (matches_scope r.scope) record_error
  require (not_empty r.key) record_error
  require (leb 1 r.revision) record_error
  check_timestamp r.known_at
  check_timestamp r.effective_at
  check_optional r.period_start
  check_optional r.period_end
  check_period r.period_start r.period_end
  require (not_empty r.source) record_error
  check_fields r.fields

abbrev pub IsValid : Record → Type 0
IsValid r = post_init r ≡ ok tt

-- What `__post_init__` accepts lies in the bounds that the rest of the store relies on.
pub record InBounds (r : Record) : Type 0 where
  pub known_from : min_timestamp_ms ≤ r.known_at
  pub known_to : r.known_at ≤ max_timestamp_ms
  pub effective_from : min_timestamp_ms ≤ r.effective_at
  pub effective_to : r.effective_at ≤ max_timestamp_ms
  pub revised : 1 ≤ r.revision

pub post_init-InBounds : (r : Record) → IsValid r → InBounds r
unfolding post_init
post_init-InBounds r h = ground arith
