-- ===== src/Compiler/Months.antt =====
-- The months of hub/compiler.py's windows are those of the calendar: an instant lies in the month that
-- its date names.
pub mod Years
use qkt_data_hub.Prelude.{
  ℕ, suc, ◌+◌, ◌-◌, ◌*◌, ◌/◌, ◌%◌, ◌≤◌, ◌<◌, ◌≡◌, ◌∙◌, ◌⊎◌, inl, inr, sym, ok, leb, true, ◌&&◌,
  ◌||◌, ◌==◌, ap, ok_inj, arith, ltb, Bool-cases, if◌then◌else◌,
}
use qkt_data_hub.Calendar.{Date, from_march, civil, ms_per_day}
use qkt_data_hub.Compiler.{days_before, bounds_of, in_window, month_ms}
use qkt_data_hub.Record.{Record}
use qkt_data_hub.Prelude.Int.{ℤ, sub_ℕ}
use qkt_data_hub.Compiler.Months.Years.{cycle_start, yoe_of, year_start, year-within}

-- the first day of the month after
abbrev pub days_after : ℕ → ℕ → ℕ
days_after year month =
    if ltb month 12 then days_before year (suc month) else days_before (suc year) 1

march-within :
    (y doy : ℕ)
    → year_start y + doy < year_start (suc y)
    → let d = from_march y doy in
      (days_before d.year d.month ≤ year_start y + doy)
      × (year_start y + doy < days_after d.year d.month)
unfolding days_before
march-within y doy h =
    let mp = (5 * doy + 2) / 153 in
    let short : doy ≤ 365 = omega arith in
    elim (Bool-cases (ltb mp 10)) [ inl e ↦ rw e (ground arith) | inr e ↦ rw e (ground arith) ]

abbrev pub IsMonth : ℕ → Type 0
IsMonth month = (1 ≤ month) × (month ≤ 12)

from_march-IsMonth : (y doy : ℕ) → doy ≤ 365 → IsMonth (from_march y doy).month
from_march-IsMonth y doy h = ground arith

-- the instant of a day is in the month that its date names
pub civil-within :
    (days : ℕ)
    → let d = civil days in
      (IsMonth d.month)
      × (days_before d.year d.month ≤ days + 719_468)
      × (days + 719_468 < days_after d.year d.month)
unfolding civil
civil-within days =
    let z = days + 719_468 in
    let doe = z % 146_097 in
    let (same, after) = year-within z in
    let y = yoe_of doe + z / 146_097 * 400 in
    let doy = doe - cycle_start (yoe_of doe) in
    let lt : year_start y + doy < year_start (suc y) = omega (arith, same, after) in
    let (low, high) = march-within y doy lt in
    let short : doy ≤ 365 = omega (arith, lt) in
    (from_march-IsMonth y doy short, omega (arith, low, same), omega (arith, high, same))

-- a month that is later begins after
order_of : (a b : ℕ) → (a < b) ⊎ (b ≤ a)
order_of a b = omega arith

days_after-days_before :
    (y m y2 m2 : ℕ)
    → 1 ≤ y
    → IsMonth m
    → IsMonth m2
    → (y < y2) ⊎ ((y ≡ y2) × (m < m2))
    → days_after y m ≤ days_before y2 m2
unfolding days_before
days_after-days_before y m y2 m2 first a b h = ground arith

civil-year : (days : ℕ) → 1 ≤ (civil days).year
unfolding civil
civil-year days = ground arith

-- a day that lies in a month is dated in that month
civil-month :
    (days year month : ℕ)
    → 1 ≤ year
    → IsMonth month
    → days_before year month ≤ days + 719_468
    → days + 719_468 < days_after year month
    → ((civil days).year ≡ year) × ((civil days).month ≡ month)
civil-month days year month first is low high =
    let (valid, from, to) = civil-within days in
    let d = civil days in
    let earlier = days_after-days_before d.year d.month year month (civil-year days) valid is in
    let later = days_after-days_before year month d.year d.month first is valid in
    elim (order_of d.year year) [
      | inl lt ↦ absurd (omega (arith, earlier (inl lt), to, low))
      | inr ge ↦ elim (order_of year d.year) [
        | inl lt ↦ absurd (omega (arith, later (inl lt), from, high))
        | inr le ↦
            let same : d.year ≡ year = omega arith in
            elim (order_of d.month month) [
              | inl lt ↦ absurd (omega (arith, earlier (inr (same, lt)), to, low))
              | inr ge2 ↦ elim (order_of month d.month) [
                | inl lt ↦ absurd (omega (arith, later (inr (sym same, lt)), from, high))
                | inr le2 ↦ (same, omega arith)
              ]
            ]
      ]
    ]

-- an instant against the bounds of a month, in days
in_days :
    (first after : ℕ) (r : Record)
    → in_window
        (
          sub_ℕ (first * ms_per_day) (719_468 * ms_per_day + 0),
          sub_ℕ (after * ms_per_day) (719_468 * ms_per_day + 1),
        )
        r
      ≡ (leb first (r.known_at / ms_per_day + 719_468)
          && ltb (r.known_at / ms_per_day + 719_468) after)
in_days first after r = ground arith

bounds_of-eq_ok :
    (year month : ℕ) {bounds : ℤ × ℤ}
    → bounds_of year month ≡ ok bounds
    → (1 ≤ year)
      × (IsMonth month)
      × ((
        sub_ℕ (days_before year month * ms_per_day) (719_468 * ms_per_day + 0),
        sub_ℕ (days_after year month * ms_per_day) (719_468 * ms_per_day + 1),
      )
          ≡ bounds)
unfolding bounds_of month_ms
bounds_of-eq_ok year month h = elim (Bool-cases (year == 0 || month == 0 || ltb 12 month)) [
  | inl bad ↦ cc (rw bad at h)
  | inr good ↦
      let first : 1 ≤ year = ground (arith, good) in
      let valid : IsMonth month = ground (arith, good) in
      elim (Bool-cases (month == 12)) [
        | inr e ↦
            let short : ltb month 12 ≡ true = ground (arith, e, valid) in
            (first, valid, rw short (ok_inj (rw (good, e) at h)))
        | inl e ↦
            let last : month ≡ 12 = ground (arith, e) in
            elim (Bool-cases (leb 9999 year)) [
              | inl late ↦ cc (rw (good, e, late) at h)
              | inr soon ↦ (first, valid, rw last (ok_inj (rw (good, e, soon) at h)))
            ]
      ]
]

bounds_of-in_window :
    (year month : ℕ) (r : Record) (bounds : ℤ × ℤ)
    → bounds_of year month ≡ ok bounds
    → (1 ≤ year)
      × (IsMonth month)
      × (in_window bounds r ≡ (
          leb (days_before year month) (r.known_at / ms_per_day + 719_468)
          && ltb (r.known_at / ms_per_day + 719_468) (days_after year month)))
bounds_of-in_window year month r bounds h =
    let (first, valid, same) = bounds_of-eq_ok year month h in
    (
      first,
      valid,
      ap (λ b. in_window b r) (sym same)
          ∙ in_days (days_before year month) (days_after year month) r,
    )

-- Where a month has bounds, a record lies within them exactly when the UTC day that it was known on is
-- dated in that month of that year.
pub in_window-dated :
    (year month : ℕ) (r : Record) (bounds : ℤ × ℤ)
    → bounds_of year month ≡ ok bounds
    → let d = civil (r.known_at / ms_per_day) in
      in_window bounds r ≡ (d.year == year && d.month == month)
in_window-dated year month r bounds h =
    let days = r.known_at / ms_per_day in
    let (first, valid, same) = bounds_of-in_window year month r bounds h in
    elim (Bool-cases (
      leb (days_before year month) (days + 719_468)
      && ltb (days + 719_468) (days_after year month))) [
        | inl e ↦
            let (y, m) = civil-month days year month first valid (ground arith) (ground arith) in
            same ∙ e ∙ rw (y, m) (ground arith)
        | inr e ↦
            same
            ∙ e
            ∙ elim (Bool-cases ((civil days).year == year && (civil days).month == month)) [
              | inr n ↦ sym n
              | inl n ↦
                  let (v, from, to) = civil-within days in
                  let y : (civil days).year ≡ year = ground (arith, n) in
                  let m : (civil days).month ≡ month = ground (arith, n) in
                  let low : days_before year month ≤ days + 719_468 = rw (← y, ← m) from in
                  let high : days + 719_468 < days_after year month = rw (← y, ← m) to in
                  absurd (ground (arith, e, low, high))
            ]
      ]
