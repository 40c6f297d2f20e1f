-- ===== src/Tests/Daemon.antt =====
-- The scheduler over two sources, one of which always fails.
use qkt_data_hub.Prelude.{
  ℕ, ◌+◌, ◌≤◌, ◌≡◌, refl, false, Option, some, List, [], ◌∷◌, Result, ok, err, parse_error, Among,
  if◌then◌else◌, arith,
}
use qkt_data_hub.Prelude.Text.{Text, codes, text_eq}
use qkt_data_hub.Prelude.Dict.{lookup, insert, text_key}
use qkt_data_hub.Record.{Record}
use qkt_data_hub.Scheduler.{
  SourceState, Cadence, Timing, Scheduler, due, poll_one, poll_due, turn, turns, compile_due,
}
use qkt_data_hub.Scheduler.Streaks.{AreStreaks, alerts_after, poll_one-alerts}
use qkt_data_hub.Scheduler.Polled.{AreIntervals, IsPlanned, poll_due-IsPlanned}
use qkt_data_hub.Scheduler.Clock.{RunsOn}
use qkt_data_hub.Scheduler.Live.{IsPolledBy, turns-IsPolledBy}

-- the world is its clock
abbrev clock : ℕ → ℕ
clock w = w

abbrev steady : Cadence
steady = record {
  steady_seconds = 60;
  near_every_seconds = 0;
  near_before_seconds = 0;
  near_after_seconds = 0;
}

abbrev cadence : Text → Option Cadence
cadence name = some steady

abbrev journal : Text → ℕ → Result (List Record)
journal name w = ok []

abbrev collect : Text → ℕ → Result ℕ × ℕ
collect name w = (if text_eq name (codes "bad") then err parse_error else ok 1, w + 10)

abbrev compile : ℕ → Result (Unit {0}) × ℕ
compile w = (ok tt, w)

abbrev sleep : ℕ → ℕ → ℕ
sleep n w = w + n

abbrev timing : Timing
timing = record {
  retry = 5_000;
  failures_before_alert = 2;
  compile_every = 60_000;
  heartbeat_every = 30_000;
}

abbrev source : ℕ → ℕ → SourceState
source next_due failures = record {
  next_due = next_due;
  consecutive_failures = failures;
  last_success = 0;
  alerted = false;
  events = [];
}

-- the bad source has failed once
abbrev daemon : Scheduler ℕ
daemon = record {
  state = (codes "bad", source 0 1) ∷ (codes "good", source 3_000 0) ∷ [];
  next_compile = 0;
  next_heartbeat = 0;
  alerts = [];
  world = 0;
}

abbrev outcome : Result (Scheduler ℕ) → Scheduler ℕ
outcome (ok d) = d
outcome (err e) = daemon

abbrev polled : Scheduler ℕ
polled = outcome (poll_one timing clock cadence journal collect 0 (codes "bad") daemon)

bad-polled : poll_one timing clock cadence journal collect 0 (codes "bad") daemon ≡ ok polled
unfolding poll_one lookup text_eq
bad-polled = refl

bad-found : lookup (codes "bad") daemon.state ≡ some (source 0 1)
unfolding lookup text_eq
bad-found = refl

-- the second failure in a row is the one that alerts
bad-alerted : polled.alerts ≡ codes "bad" ∷ []
unfolding poll_one lookup text_eq
bad-alerted = refl

poll_one-alerts_example :
    AreStreaks timing polled
    × (polled.alerts
        ≡ alerts_after timing clock cadence journal collect
            (omega arith)
            (codes "bad")
            (source 0 1)
            daemon)
poll_one-alerts_example =
    poll_one-alerts timing clock cadence journal collect (omega arith) 0 (codes "bad") daemon polled
      (source 0 1) (refl, (refl, tt)) bad-found bad-polled

steady_of :
    (c : Cadence) → some steady ≡ some c → (c.steady_seconds ≡ 60) × (c.near_every_seconds ≡ 0)
steady_of c e = let same : steady ≡ c = cc in rw (← same) (refl, refl)

intervals : AreIntervals timing cadence 60_000
intervals = record {
  retry_positive = omega arith;
  retry_bounded = omega arith;
  steady_positive = λ name c e. omega (arith, (steady_of c e).0);
  steady_bounded = λ name c e. omega (arith, (steady_of c e).0);
  near_bounded = λ name c e. omega (arith, (steady_of c e).1);
}

abbrev passed : Scheduler ℕ
passed = outcome (poll_due timing clock cadence journal collect daemon)

daemon-passed : poll_due timing clock cadence journal collect daemon ≡ ok passed
unfolding poll_due poll_one lookup text_eq
daemon-passed = refl

poll_due-IsPlanned_example :
    ((s : SourceState)
      → lookup (codes "bad") daemon.state ≡ some s
      → s.next_due ≤ 0
      → IsPlanned 60_000 0 (lookup (codes "bad") passed.state))
    × (¬ Among (codes "bad") (due 0 daemon.state)
        → lookup (codes "bad") passed.state ≡ lookup (codes "bad") daemon.state)
poll_due-IsPlanned_example =
    poll_due-IsPlanned timing clock cadence journal collect 60_000 intervals daemon passed
      (codes "bad") daemon-passed

runs_on : RunsOn timing clock cadence journal collect compile sleep 10
runs_on = record {
  collecting = λ name w. omega arith;
  collected = λ name w. omega arith;
  compiling = λ w. omega arith;
  compiled = λ w. omega arith;
  sleeping = λ n w. omega arith;
  slept = λ n w. omega arith;
}

abbrev after_four : Scheduler ℕ
after_four = outcome (turns timing clock cadence journal collect compile sleep 4 daemon)

four-turns : turns timing clock cadence journal collect compile sleep 4 daemon ≡ ok after_four
unfolding turns turn poll_due poll_one lookup text_eq compile_due insert
four-turns = refl

good-found : lookup (codes "good") daemon.state ≡ some (source 3_000 0)
unfolding lookup text_eq
good-found = refl

turns-IsPolledBy_example :
    IsPolledBy timing clock cadence journal collect compile sleep 10 runs_on 60_000 intervals 3
      4_040 daemon
      (codes "good")
turns-IsPolledBy_example =
    turns-IsPolledBy timing clock cadence journal collect compile sleep 10 runs_on 60_000 intervals
      3 daemon after_four (codes "good") (source 3_000 0) good-found (omega arith) four-turns
