-- ===== src/Calendar.antt =====
-- `day_str` of hubread/journal.py and `_iso_day` of hub/pipeline.py: the UTC calendar day of an epoch
-- instant in milliseconds, as Python's `datetime` computes it.
use qkt_data_hub.Prelude.{
  ℕ, ◌+◌, ◌-◌, ◌*◌, ◌/◌, ◌%◌, [], ◌∷◌, refl, ◌≡◌, suc, Result, ok, err, value_error, leb, ltb,
  if◌then◌else◌,
}
use qkt_data_hub.Prelude.Text.{Text, codes}

pub record Date : Type 0 where
  pub year : ℕ
  pub month : ℕ
  pub day : ℕ

abbrev pub ms_per_day : ℕ
ms_per_day = 86_400_000

-- the first day and the day after the last that `datetime` can hold: 0001-01-01 lies before the epoch
abbrev pub year_10000_ms : ℕ
year_10000_ms = 253_402_300_800_000

-- years that begin in March: day `doy` of such a year is in month `mp`, counted from March
abbrev pub from_march : ℕ → ℕ → Date
from_march year doy =
    let mp = (5 * doy + 2) / 153 in
    let day = suc (doy - (153 * mp + 2) / 5) in
    if ltb mp 10
    then record { year = year; month = mp + 3; day = day }
    else record { year = suc year; month = mp - 9; day = day }

-- the date of a day counted from 1970-01-01, by the 400-year cycle of the Gregorian calendar
unfoldable pub civil : ℕ → Date
civil days =
    let z = days + 719_468 in
    let doe = z % 146_097 in
    let yoe = (doe - doe / 1460 + doe / 36_524 - doe / 146_096) / 365 in
    from_march (yoe + z / 146_097 * 400) (doe - (365 * yoe + yoe / 4 - yoe / 100))

abbrev pub digit : ℕ → ℕ
digit n = b'0' + n % 10

-- %Y-%m-%d of a year below 10000
unfoldable pub date_text : Date → Text
date_text d =
    digit (d.year / 1000)
    ∷ digit (d.year / 100)
    ∷ digit (d.year / 10)
    ∷ digit d.year
    ∷ b'-'
    ∷ digit (d.month / 10)
    ∷ digit d.month
    ∷ b'-'
    ∷ digit (d.day / 10)
    ∷ digit d.day
    ∷ []

unfoldable pub day_str : ℕ → Text
unfolding civil date_text
day_str ms = date_text (civil (ms / ms_per_day))

-- `_iso_day`, which raises past the year 9999
unfoldable pub iso_day : ℕ → Result Text
unfolding day_str
iso_day ms = if leb year_10000_ms ms then err value_error else ok (day_str ms)

leap_day : day_str 951_782_400_000 ≡ codes "2000-02-29"
unfolding day_str
leap_day = refl
