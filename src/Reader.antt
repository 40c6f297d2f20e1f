-- ===== src/Reader.antt =====
-- hubread/reader.py, hubread/policy.py and `read_range` of hubread/journal.py: what a consumer may
-- see at an instant. A dataset's journal is the list of the records of its day files.
pub mod Visible
pub mod Latest
pub mod AsOf
pub mod Windows
pub mod Range
use qkt_data_hub.Prelude.{
  ℕ, ◌+◌, Bool, true, false, not, ◌&&◌, ◌||◌, Option, none, some, List, [], ◌∷◌, map, keep, leb,
  ltb, if◌then◌else◌,
}
use qkt_data_hub.Prelude.Order.{◌≺◌, nat_ord, pair_ord}
use qkt_data_hub.Prelude.Text.{Text, text_eq, text_ord}
use qkt_data_hub.Prelude.Dict.{Dict, lookup, insert, values, text_key}
use qkt_data_hub.Prelude.Sort.{sort_by}
use qkt_data_hub.Prelude.Int.{ℤ, pos, sub_ℕ, int_ord}
use qkt_data_hub.Record.{
  Record, Availability, observed, published, derived, sort_key, min_timestamp_ms,
}

-- `Policy`. Its numbers are not negative, which `__post_init__` checks.
pub record Policy : Type 0 where
  pub min_lag_ms : ℕ
  pub refuse_derived : Bool
  pub stale_after_ms : ℕ
  pub skew_tolerance_ms : ℕ

abbrev pub in_range : ℕ → ℕ → Record → Bool
in_range known_from known_to r = leb known_from r.known_at && leb r.known_at known_to

-- `read_range`: the day files only narrow down what is read
unfoldable pub read_range : List Record → ℕ → ℕ → List Record
unfolding sort_key
read_range journal known_from known_to =
    sort_by sort_key (keep (in_range known_from known_to) journal)

is_derived : Availability → Bool
is_derived derived = true
is_derived _ = false

-- the three `continue`s of `_visible_records`, and its `append`
unfoldable pub is_visible : Policy → Text → ℕ → Record → Bool
unfolding is_derived
is_visible policy scope t r =
    if not (text_eq r.scope scope)
    then false
    else if policy.refuse_derived && is_derived r.availability
    then false
    else not (ltb t (r.known_at + policy.min_lag_ms))

unfoldable pub visible_records : Policy → List Record → Text → ℕ → List Record
unfolding is_visible
visible_records policy journal scope t =
    keep (is_visible policy scope t) (read_range journal min_timestamp_ms t)

-- (revision, known_at, seq)
abbrev pub version : Record → ℕ × (ℕ × ℕ)
version r = (r.revision, (r.known_at, r.seq))

unfoldable pub supersedes : Record → Option Record → Bool
supersedes r none = true
supersedes r (some current) = version current ≺ version r

-- one turn of the loop of `as_of`
unfoldable pub latest_step : Dict Text Record → Record → Dict Text Record
unfolding supersedes
latest_step latest r = if supersedes r (lookup r.key latest) then insert r.key r latest else latest

unfoldable pub latest_of : Dict Text Record → List Record → Dict Text Record
latest_of latest [] = latest
latest_of latest (r ∷ records) = latest_of (latest_step latest r) records

unfoldable pub as_of : Policy → List Record → Text → ℕ → Dict Text Record
as_of policy journal scope t = latest_of [] (visible_records policy journal scope t)

-- the interval around one event
abbrev pub interval : ℕ → Record → ℤ × ℤ
interval pad_ms r = (sub_ℕ r.effective_at pad_ms, pos (r.effective_at + pad_ms))

-- t <= record.effective_at <= t + ahead_ms
abbrev pub is_ahead : ℕ → ℕ → Record → Bool
is_ahead t ahead_ms r = leb t r.effective_at && leb r.effective_at (t + ahead_ms)

unfoldable pub windows : Policy → List Record → Text → ℕ → ℕ → ℕ → List (ℤ × ℤ)
unfolding sort_by
windows policy journal scope t ahead_ms pad_ms =
    sort_by (λ i. i)
      (map (interval pad_ms) (keep (is_ahead t ahead_ms) (values (as_of policy journal scope t))))
