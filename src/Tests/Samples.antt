-- ===== src/Tests/Samples.antt =====
-- Values that the tests share: records of one dataset, a digest and decimals that count.
use qkt_data_hub.Prelude.{
  ℕ, true, none, some, [], ◌∷◌, ok, ltb, ◌+◌, ◌-◌, ◌*◌, ◌/◌, ◌==◌, if◌then◌else◌,
}
use qkt_data_hub.Prelude.Text.{Text, codes}
use qkt_data_hub.Prelude.Int.{pos, pos_part}
use qkt_data_hub.Record.{Record, Payload, observed, text}
use qkt_data_hub.Record.Json.{show_ℕ}
use qkt_data_hub.Reader.{Policy}
use qkt_data_hub.Derive.Decimals.{DecimalContext}
use qkt_data_hub.Derive.Calls.{int_value}

-- a digest that keeps the text itself
abbrev pub plain : Text → Text
plain s = s

abbrev pub fact : Text → ℕ → ℕ → ℕ → Text → Record
fact key revision known_at effective_at value = record {
  dataset = codes "cal.us";
  scope = codes "USD";
  key = key;
  revision = revision;
  known_at = known_at;
  effective_at = effective_at;
  availability = observed;
  source = codes "feed";
  fields = (codes "value", text value) ∷ [];
  period_start = none;
  period_end = none;
  source_version = [];
  parser = [];
  raw_ref = none;
  seq = 1;
  id = [];
  v = 1;
}

abbrev pub first : Record
first = fact (codes "cpi") 1 1_000_000_000_000 1_000_000_100_000 (codes "1")

abbrev pub second : Record
second = fact (codes "cpi") 2 1_000_000_200_000 1_000_000_100_000 (codes "2")

abbrev pub later : Record
later = fact (codes "nfp") 1 1_100_000_000_000 1_000_000_100_000 (codes "3")

abbrev pub cautious : Policy
cautious = record {
  min_lag_ms = 500;
  refuse_derived = true;
  stale_after_ms = 900_000;
  skew_tolerance_ms = 5_000;
}

-- natural numbers as decimals; division by zero is trapped
abbrev pub counting : DecimalContext
counting = record {
  Decimal = ℕ;
  create = λ s. some (int_value 0 s);
  of_ℕ = λ n. n;
  minus = λ n. none;
  add = λ a b. some (a + b);
  subtract = λ a b. some (a - b);
  multiply = λ a b. some (a * b);
  divide = λ a b. if b == 0 then none else some (a / b);
  sqrt = λ a. some a;
  is_zero = λ a. a == 0;
  less = λ a b. ok (ltb a b);
  decimal_str = λ a. ok (show_ℕ a);
  canonical = λ s. some s;
  units = λ s. some (pos (int_value 0 s * 100_000_000));
  below = λ a b. ok (ltb (int_value 0 a) (int_value 0 b));
  scaled = λ s. ok (pos (int_value 0 s * 100_000_000));
  scaled_text = λ n scale. ok (show_ℕ (pos_part n / 100_000_000));
}

abbrev pub payload : ℕ → Payload
payload n = (codes "x", text (show_ℕ n)) ∷ []
