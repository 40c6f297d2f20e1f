-- ===== src/Compiler/Months/Years.antt =====
-- Years that begin in March, in a cycle of 400 years.
use qkt_data_hub.Prelude.{ℕ, suc, ◌+◌, ◌-◌, ◌*◌, ◌/◌, ◌%◌, ◌≤◌, ◌<◌, ◌≡◌, ◌∙◌, ◌⊎◌, inl, inr, arith}

-- the days of a cycle before its year `y`, years beginning in March
abbrev pub cycle_start : ℕ → ℕ
cycle_start y = 365 * y + y / 4 - y / 100

abbrev pub yoe_of : ℕ → ℕ
yoe_of doe = (doe - doe / 1460 + doe / 36_524 - doe / 146_096) / 365

yoe-within :
    (doe : ℕ)
    → doe < 146_097
    → (cycle_start (yoe_of doe) ≤ doe)
      × ((doe < cycle_start (suc (yoe_of doe))) ⊎ ((doe ≡ 146_096) × (yoe_of doe ≡ 399)))
yoe-within doe a = omega arith

-- the days before a year, as hub/compiler.py's model counts them
abbrev pub year_start : ℕ → ℕ
year_start y = 365 * y + y / 4 - y / 100 + y / 400

year_start-cycle :
    (era y : ℕ) → y < 400 → year_start (y + era * 400) ≡ 146_097 * era + cycle_start y
year_start-cycle era y h = omega arith

year_start-next :
    (era y : ℕ) → y < 399 → year_start (suc (y + era * 400)) ≡ 146_097 * era + cycle_start (suc y)
year_start-next era y h = omega arith

year_start-last : (era : ℕ) → year_start (suc (399 + era * 400)) ≡ 146_097 * suc era
year_start-last era = omega arith

year-split :
    (era doe yoe : ℕ)
    → doe < 146_097
    → yoe < 400
    → cycle_start yoe ≤ doe
    → (doe < cycle_start (suc yoe)) ⊎ ((doe ≡ 146_096) × (yoe ≡ 399))
    → (year_start (yoe + era * 400) + (doe - cycle_start yoe) ≡ 146_097 * era + doe)
      × (146_097 * era + doe < year_start (suc (yoe + era * 400)))
year-split era doe yoe small few le (inl lt) = omega arith
year-split era doe yoe small few le (inr last) = omega arith

pub year-within :
    (z : ℕ)
    → let y = yoe_of (z % 146_097) + z / 146_097 * 400 in
      (year_start y + (z % 146_097 - cycle_start (yoe_of (z % 146_097))) ≡ z)
      × (z < year_start (suc y))
year-within z =
    let (le, lt) = yoe-within (z % 146_097) (omega arith) in
    let (same, after) =
      year-split (z / 146_097) (z % 146_097) (yoe_of (z % 146_097)) (omega arith) (omega arith) le
        lt in
    let whole : 146_097 * (z / 146_097) + z % 146_097 ≡ z = omega arith in
    (same ∙ whole, omega (arith, after, whole))
