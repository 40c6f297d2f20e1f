-- ===== src/Compiler.antt =====
-- hub/compiler.py: the bounds of a window, the verification of derived fields, and which records the
-- snapshot of a window holds. The bytes of a snapshot are not written here.
use qkt_data_hub.Prelude.{
  ℕ, suc, ◌+◌, ◌-◌, ◌*◌, ◌/◌, ◌%◌, Bool, true, false, not, ◌&&◌, ◌||◌, Option, none, some, List, [],
  ◌∷◌, map, keep, Result, ok, err, ◌>>=◌, ◌>>◌, require, config_error, value_error, store_error,
  leb, ltb, ◌==◌, if◌then◌else◌,
}
use qkt_data_hub.Prelude.Int.{ℤ, pos, sub_ℕ, ltb_ℤ, pos_part}
use qkt_data_hub.Prelude.Order.{nat_ord, pair_ord, ◌≺◌}
use qkt_data_hub.Prelude.Text.{Text, text_eq, text_ord}
use qkt_data_hub.Prelude.Dict.{lookup, merge, text_key}
use qkt_data_hub.Prelude.Sort.{sort_by}
use qkt_data_hub.Record.{Record, Value, null, text, bool, int, Payload, sort_key, min_timestamp_ms}
use qkt_data_hub.Record.Names.{chomp}
use qkt_data_hub.Calendar.{ms_per_day}
use qkt_data_hub.History.{ScopeHistory, empty, upsert, before}
use qkt_data_hub.Reader.{read_range}
use qkt_data_hub.Derive.Decimals.{DecimalContext}
use qkt_data_hub.Derive.Syntax.{History}
use qkt_data_hub.Derive.Compile.{compile_expr}
use qkt_data_hub.Schema.{DatasetSchema, FieldSpec, derived_fields}
use qkt_data_hub.Ingest.Step.{envelope, max_lookback}
pub mod Verified
pub mod Windows
pub mod Months
pub mod Cycle

-- days from 0000-03-01 to the first of a month
unfoldable pub days_before : ℕ → ℕ → ℕ
days_before year month =
    let y = if ltb month 3 then year - 1 else year in
    let mp = (month + 9) % 12 in 365 * y + y / 4 - y / 100 + y / 400 + (153 * mp + 2) / 5

-- the instant at which a month begins, in milliseconds from the epoch, and less `back`
unfoldable pub month_ms : ℕ → ℕ → ℕ → ℤ
unfolding days_before
month_ms year month back = sub_ℕ (days_before year month * ms_per_day) (719_468 * ms_per_day + back)

abbrev pub digit_of : ℕ → ℕ
digit_of c = c - 48

abbrev pub is_digit : ℕ → Bool
is_digit c = leb 48 c && leb c 57

-- the inclusive bounds of month `month` of a year
unfoldable pub bounds_of : ℕ → ℕ → Result (ℤ × ℤ)
unfolding month_ms
bounds_of year month =
    if year == 0 || month == 0 || ltb 12 month
    then err value_error
    else if month == 12
    then (if leb 9999 year
        then err value_error
        else ok (month_ms year 12 0, month_ms (suc year) 1 1))
    else ok (month_ms year month 0, month_ms year (suc month) 1)

-- `_month_bounds`, on a window without the newline that its pattern lets through
unfoldable pub parse_window : Text → Result (ℤ × ℤ)
unfolding bounds_of
parse_window (a ∷ b ∷ c ∷ d ∷ dash ∷ m ∷ n ∷ []) =
    if is_digit a
      && is_digit b
      && is_digit c
      && is_digit d
      && dash == b'-'
      && is_digit m
      && is_digit n
    then bounds_of (1000 * digit_of a + 100 * digit_of b + 10 * digit_of c + digit_of d)
        (10 * digit_of m + digit_of n)
    else err config_error
parse_window _ = err config_error

unfoldable pub month_bounds : Text → Result (ℤ × ℤ)
unfolding parse_window chomp
month_bounds window = parse_window (chomp window)

-- known_from <= r.known_at <= known_to
abbrev pub in_window : ℤ × ℤ → Record → Bool
in_window bounds r = not (ltb_ℤ (pos r.known_at) bounds.0) && not (ltb_ℤ bounds.1 (pos r.known_at))

-- expected == actual, where `actual` is `record.fields.get(name)`
unfoldable pub agrees : Option Text → Option Value → Bool
unfolding text_eq
agrees none none = true
agrees none (some null) = true
agrees none (some _) = false
agrees (some s) (some (text t)) = text_eq s t
agrees (some s) _ = false

-- the records that the snapshot of a window holds
unfoldable pub window_records : ℤ × ℤ → List Record → List Record
unfolding sort_by sort_key
window_records bounds history = sort_by sort_key (keep (in_window bounds) history)

-- `_write_window`
unfoldable pub write_window : List Record → Text → Result (List Record)
unfolding month_bounds window_records
write_window history window = do bounds ← month_bounds window; ok (window_records bounds history)

-- [_write_window(…, window, history) for window in windows]
unfoldable pub write_windows : List Record → List Text → Result (List (List Record))
unfolding write_window
write_windows history [] = ok []
write_windows history (window ∷ windows) = do
  out ← write_window history window
  outs ← write_windows history windows
  ok (out ∷ outs)

-- max(windows) and min(windows), over the first and the rest
unfoldable pub max_text : Text → List Text → Text
max_text s [] = s
max_text s (t ∷ l) =
    let later = max_text t l in let same = max_text s l in if s ≺ t then later else same

unfoldable pub min_text : Text → List Text → Text
min_text s [] = s
min_text s (t ∷ l) =
    let earlier = min_text t l in let same = min_text s l in if t ≺ s then earlier else same

-- the scopes, in the order in which they come up
unfoldable pub scopes_of : List Record → List Text
unfolding text_eq
scopes_of [] = []
scopes_of (r ∷ records) = r.scope ∷ keep (λ s. not (text_eq s r.scope)) (scopes_of records)

abbrev pub of_scope : Text → List Record → List Record
of_scope scope = keep (λ r. text_eq r.scope scope)

module _ (c : DecimalContext) where
  abbrev pub Expr : Type 0
  Expr = Payload → History → Result (Option Text)

  -- {spec.name: compile_expr(spec.derived) for spec in derived_specs}
  unfoldable pub compile_specs : List FieldSpec → Result (List (Text × Expr))
  unfolding compile_expr
  compile_specs [] = ok []
  compile_specs (spec ∷ specs) = do
    expr ← compile_expr c spec.derived
    exprs ← compile_specs specs
    ok ((spec.name, expr) ∷ exprs)

  -- the innermost loop of `_verify_derived_fields`
  unfoldable pub verify_record :
      List (Text × Expr) → Payload → History → Payload → Result (Unit {0})
  unfolding agrees
  verify_record [] payload history fields = ok tt
  verify_record ((name, expr) ∷ exprs) payload history fields = do
    expected ← expr payload history
    require (agrees expected (lookup name fields)) store_error
    verify_record exprs payload history fields

  -- the loop over the records of one scope
  unfoldable pub verify_scope :
      List (Text × Expr) → ℕ → ScopeHistory → List Record → Result (Unit {0})
  unfolding verify_record upsert before
  verify_scope exprs reach h [] = ok tt
  verify_scope exprs reach h (r ∷ records) =
      verify_record exprs (merge r.fields (envelope r.known_at r.effective_at))
        (before h r.effective_at r.key reach) r.fields
      >> verify_scope exprs reach (upsert h r.effective_at r.key r.fields) records

  -- the loop over the scopes
  unfoldable pub verify_scopes :
      List (Text × Expr) → ℕ → List Record → List Text → Result (Unit {0})
  unfolding verify_scope
  verify_scopes exprs reach records [] = ok tt
  verify_scopes exprs reach records (scope ∷ scopes) =
      verify_scope exprs reach empty (of_scope scope records)
      >> verify_scopes exprs reach records scopes

  unfoldable pub verify_specs : List FieldSpec → List Record → Result (Unit {0})
  unfolding compile_specs verify_scopes scopes_of
  verify_specs [] records = ok tt
  verify_specs (spec ∷ specs) records = do
    exprs ← compile_specs (spec ∷ specs)
    reach ← max_lookback c (spec ∷ specs)
    verify_scopes exprs reach records (scopes_of records)

  -- `_verify_derived_fields`
  unfoldable pub verify_derived_fields : DatasetSchema → List Record → Result (Unit {0})
  unfolding derived_fields verify_specs
  verify_derived_fields schema records = do
    specs ← derived_fields schema
    verify_specs specs records

  -- `compile_dataset`
  unfoldable pub compile_dataset : List Record → DatasetSchema → Text → Result (List Record)
  unfolding month_bounds read_range verify_derived_fields write_window
  compile_dataset journal schema window = do
    bounds ← month_bounds window
    let history = read_range journal min_timestamp_ms (pos_part bounds.1)
    verify_derived_fields schema history
    write_window history window

  -- where `compile_windows` starts to read
  unfoldable pub read_from : List FieldSpec → Text → Result ℕ
  unfolding month_bounds
  read_from [] window = do bounds ← month_bounds window; ok (pos_part bounds.0)
  read_from (spec ∷ specs) window = ok min_timestamp_ms

  -- `compile_windows`
  unfoldable pub compile_windows :
      List Record → DatasetSchema → List Text → Result (List (List Record))
  unfolding read_from max_text min_text write_windows
  compile_windows journal schema [] = ok []
  compile_windows journal schema (window ∷ windows) = do
    last_bounds ← month_bounds (max_text window windows)
    specs ← derived_fields schema
    known_from ← read_from specs (min_text window windows)
    let history = read_range journal known_from (pos_part last_bounds.1)
    verify_derived_fields schema history
    write_windows history (window ∷ windows)
