-- ===== src/Compiler/Cycle/Dated.antt =====
-- A window of hub/compiler.py by its name, and the records that are dated in it.
use qkt_data_hub.Prelude.{
  ℕ, ◌+◌, ◌*◌, ◌/◌, ◌≤◌, ◌<◌, ◌≡◌, refl, sym, ◌∙◌, Bool, true, ◌&&◌, ◌==◌, [], ◌∷◌, length, ok,
  Bool-cases, inl, inr, arith,
}
use qkt_data_hub.Prelude.Int.{ℤ}
use qkt_data_hub.Prelude.Text.{Text, text_eq, text_eq_iff}
use qkt_data_hub.Record.{Record, max_timestamp_ms}
use qkt_data_hub.Record.Names.{chomp}
use qkt_data_hub.Calendar.{civil, date_text, day_str, ms_per_day, digit}
use qkt_data_hub.Compiler.{month_bounds, parse_window, bounds_of, in_window, is_digit, digit_of}
use qkt_data_hub.Compiler.Months.{civil-within, in_window-dated}
use qkt_data_hub.Compiler.Cycle.{window_of}

civil-bounded : (days : ℕ) → days ≤ 47_482 → (civil days).year < 10_000
unfolding civil
civil-bounded days h = ground arith

-- a name of seven characters that names a month
named_month :
    (a b c d e m n : ℕ) (bounds : ℤ × ℤ)
    → month_bounds (a ∷ b ∷ c ∷ d ∷ e ∷ m ∷ n ∷ []) ≡ ok bounds
    → (is_digit a && is_digit b && is_digit c && is_digit d && e == b'-' && is_digit m && is_digit n
        ≡ true)
      × (bounds_of
            (1000 * digit_of a + 100 * digit_of b + 10 * digit_of c + digit_of d)
            (10 * digit_of m + digit_of n)
          ≡ ok bounds)
unfolding month_bounds parse_window chomp
named_month a b c d e m n bounds h = elim (Bool-cases (n == 10)) [
  | inl line ↦ cc (rw line at h)
  | inr whole ↦
      let h2 = rw whole at h in
      elim (Bool-cases (
        is_digit a
        && is_digit b
        && is_digit c
        && is_digit d
        && e == b'-'
        && is_digit m
        && is_digit n)) [ inl good ↦ (good, rw good at h2) | inr bad ↦ cc (rw bad at h2) ]
]

abbrev IsDigit : ℕ → Type 0
IsDigit c = (48 ≤ c) × (c ≤ 57)

-- the digits of a number are its own
year-digits :
    (year a b c d : ℕ)
    → year < 10_000
    → IsDigit a
    → IsDigit b
    → IsDigit c
    → IsDigit d
    → year ≡ 1000 * digit_of a + 100 * digit_of b + 10 * digit_of c + digit_of d
    → (digit (year / 1000) ≡ a)
      × (digit (year / 100) ≡ b)
      × (digit (year / 10) ≡ c)
      × (digit year ≡ d)
year-digits year a b c d low da db dc dd e = omega arith

digits-year :
    (year a b c d : ℕ)
    → year < 10_000
    → digit (year / 1000) ≡ a
    → digit (year / 100) ≡ b
    → digit (year / 10) ≡ c
    → digit year ≡ d
    → year ≡ 1000 * digit_of a + 100 * digit_of b + 10 * digit_of c + digit_of d
digits-year year a b c d low ea eb ec ed = omega arith

month-digits :
    (month m n : ℕ)
    → month ≤ 12
    → IsDigit m
    → IsDigit n
    → month ≡ 10 * digit_of m + digit_of n
    → (digit (month / 10) ≡ m) × (digit month ≡ n)
month-digits month m n low dm dn e = omega arith

digits-month :
    (month m n : ℕ)
    → month ≤ 12
    → digit (month / 10) ≡ m
    → digit month ≡ n
    → month ≡ 10 * digit_of m + digit_of n
digits-month month m n low em en = omega arith

abbrev seven : ℕ → ℕ → ℕ → ℕ → ℕ → ℕ → ℕ → Text
seven a b c d e m n = a ∷ b ∷ c ∷ d ∷ e ∷ m ∷ n ∷ []

-- what a date has for its first seven characters
abbrev month_name : ℕ → ℕ → Text
month_name year month =
    seven (digit (year / 1000)) (digit (year / 100)) (digit (year / 10)) (digit year) b'-'
      (digit (month / 10)) (digit month)

module _ (year month a b c d m n : ℕ) (low : year < 10_000) (small : month ≤ 12) (da : IsDigit a)
    (db : IsDigit b) (dc : IsDigit c) (dd : IsDigit d) (dm : IsDigit m) (dn : IsDigit n) where
  abbrev says : Bool
  says =
      year == 1000 * digit_of a + 100 * digit_of b + 10 * digit_of c + digit_of d
      && month == 10 * digit_of m + digit_of n

  says-name : says ≡ true → month_name year month ≡ seven a b c d b'-' m n
  says-name h =
      let y : year ≡ 1000 * digit_of a + 100 * digit_of b + 10 * digit_of c + digit_of d =
        ground (arith, h) in
      let q : month ≡ 10 * digit_of m + digit_of n = ground (arith, h) in
      let (ea, eb, ec, ed) = year-digits year a b c d low da db dc dd y in
      let (em, en) = month-digits month m n small dm dn q in rw (ea, eb, ec, ed, em, en) refl

  name-says : month_name year month ≡ seven a b c d b'-' m n → says ≡ true
  name-says h =
      let ea : digit (year / 1000) ≡ a = cc in
      let eb : digit (year / 100) ≡ b = cc in
      let ec : digit (year / 10) ≡ c = cc in
      let ed : digit year ≡ d = cc in
      let em : digit (month / 10) ≡ m = cc in
      let en : digit month ≡ n = cc in
      let y = digits-year year a b c d low ea eb ec ed in
      let q = digits-month month m n small em en in ground (arith, y, q)

  says-text_eq : says ≡ text_eq (month_name year month) (seven a b c d b'-' m n)
  says-text_eq = elim (Bool-cases says) [
    | inl e ↦
        e ∙ sym ((text_eq_iff (month_name year month) (seven a b c d b'-' m n)).1 (says-name e))
    | inr e ↦ e ∙ elim (Bool-cases (text_eq (month_name year month) (seven a b c d b'-' m n))) [
      | inr f ↦ sym f
      | inl f ↦ cc (name-says ((text_eq_iff (month_name year month) (seven a b c d b'-' m n)).0 f))
    ]
  ]

-- A record is in the window of a month exactly when the month of the day that it was known on has that
-- name.
in_window-named :
    (a b c d e m n : ℕ) (r : Record) (bounds : ℤ × ℤ)
    → r.known_at ≤ max_timestamp_ms
    → month_bounds (seven a b c d e m n) ≡ ok bounds
    → in_window bounds r ≡ text_eq (window_of r.known_at) (seven a b c d e m n)
unfolding window_of day_str date_text
in_window-named a b c d e m n r bounds late h =
    let (good, made) = named_month a b c d e m n bounds h in
    let day = civil (r.known_at / ms_per_day) in
    let (valid, from, to) = civil-within (r.known_at / ms_per_day) in
    let low = civil-bounded (r.known_at / ms_per_day) (omega (arith, late)) in
    let dash : e ≡ b'-' = ground (arith, good) in
    let same =
      says-text_eq day.year day.month a b c d m n low valid.1 (ground (arith, good))
        (ground (arith, good)) (ground (arith, good)) (ground (arith, good)) (ground (arith, good))
        (ground (arith, good)) in
    in_window-dated (1000 * digit_of a + 100 * digit_of b + 10 * digit_of c + digit_of d)
      (10 * digit_of m + digit_of n) r bounds made
    ∙ same
    ∙ rw dash refl

pub in_window-window_of :
    (w : Text) (r : Record) (bounds : ℤ × ℤ)
    → length w ≡ 7
    → r.known_at ≤ max_timestamp_ms
    → month_bounds w ≡ ok bounds
    → in_window bounds r ≡ text_eq (window_of r.known_at) w
in_window-window_of (a ∷ b ∷ c ∷ d ∷ e ∷ m ∷ n ∷ []) r bounds len late h =
    in_window-named a b c d e m n r bounds late h
in_window-window_of [] r bounds len late h = absurd (omega (arith, len))
in_window-window_of (a ∷ []) r bounds len late h = absurd (omega (arith, len))
in_window-window_of (a ∷ b ∷ []) r bounds len late h = absurd (omega (arith, len))
in_window-window_of (a ∷ b ∷ c ∷ []) r bounds len late h = absurd (omega (arith, len))
in_window-window_of (a ∷ b ∷ c ∷ d ∷ []) r bounds len late h = absurd (omega (arith, len))
in_window-window_of (a ∷ b ∷ c ∷ d ∷ e ∷ []) r bounds len late h = absurd (omega (arith, len))
in_window-window_of (a ∷ b ∷ c ∷ d ∷ e ∷ m ∷ []) r bounds len late h = absurd (omega (arith, len))
in_window-window_of (a ∷ b ∷ c ∷ d ∷ e ∷ m ∷ n ∷ o ∷ s) r bounds len late h =
    absurd (omega (arith, len))
