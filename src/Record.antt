-- ===== src/Record.antt =====
-- hubread/record.py: the envelope of a fact, its checks, its content address and the one order.
pub mod Names
pub mod Json
pub mod Checks
pub mod Stamp
pub mod Line
use qkt_data_hub.Prelude.{ℕ, ◌∷◌, [], ◌++◌, Bool, Option, none, some, map, List}
use qkt_data_hub.Prelude.Text.{Text, codes}
use qkt_data_hub.Prelude.Dict.{Dict}
use qkt_data_hub.Prelude.Int.{ℤ, pos}

-- `Availability`
pub data Availability : Type 0 where
  observed published derived : Availability

-- A payload value. A float is refused by the source, so it has no constructor.
pub data Value : Type 0 where
  null : Value
  text : Text → Value
  bool : Bool → Value
  int : ℤ → Value

abbrev pub Payload : Type 0
Payload = Dict Text Value

-- `Record`. Instants are natural numbers: the checks refuse any before `MIN_TIMESTAMP_MS`.
pub record Record : Type 0 where
  pub dataset : Text
  pub scope : Text
  pub key : Text
  pub revision : ℕ
  pub known_at : ℕ
  pub effective_at : ℕ
  pub availability : Availability
  pub source : Text
  pub fields : Payload
  pub period_start : Option ℕ
  pub period_end : Option ℕ
  pub source_version : Text
  pub parser : Text
  pub raw_ref : Option Text
  pub seq : ℕ
  pub id : Text
  pub v : ℕ

abbrev pub envelope_version : ℕ
envelope_version = 1

abbrev pub min_timestamp_ms : ℕ
min_timestamp_ms = 946_684_800_000

abbrev pub max_timestamp_ms : ℕ
max_timestamp_ms = 4_102_444_800_000

-- `sort_key`: Python compares the tuple component by component
abbrev pub SortKey : Type 0
SortKey = ℕ × (Text × (Text × (ℕ × ℕ)))

unfoldable pub sort_key : Record → SortKey
sort_key r = (r.known_at, (r.scope, (r.key, (r.revision, r.seq))))
