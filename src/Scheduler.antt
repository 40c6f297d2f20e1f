-- ===== src/Scheduler.antt =====
-- hub/scheduler.py: the daemon that polls each dataset at its own pace and compiles on a slower timer.
-- Instants and spans are whole milliseconds, where the source holds seconds as floats. The writer that
-- the source opens before its first poll is held from the start; the heartbeat and status files are left
-- out. `W` is the world outside: `clock` is its time, `journal` reads all records of a dataset, `collect`
-- is `collect_once` and `compile` is `compile_all`, each with what it raises or returns, `sleep` waits.
use qkt_data_hub.Prelude.{
  ℕ, zero, suc, ◌+◌, ◌-◌, ◌*◌, Bool, true, false, not, ◌&&◌, ◌||◌, Option, none, some, List, [],
  ◌∷◌, ◌++◌, map, keep, Result, ok, err, ◌>>=◌, Exception, is_hub_error, hub_error, config_error,
  schema_error, record_error, parse_error, store_error, key_error, leb, ltb, ◌==◌, min, max,
  if◌then◌else◌,
}
use qkt_data_hub.Prelude.Order.{nat_ord}
use qkt_data_hub.Prelude.Text.{Text}
use qkt_data_hub.Prelude.Dict.{Dict, lookup, insert, values, text_key}
use qkt_data_hub.Prelude.Sort.{sort_by}
use qkt_data_hub.Record.{Record}
use qkt_data_hub.Schema.{or_raise}
pub mod Streaks
pub mod Polled
pub mod Clock
pub mod Told
pub mod Live

-- `SourceState`
pub record SourceState : Type 0 where
  pub next_due : ℕ
  pub consecutive_failures : ℕ
  pub last_success : ℕ
  pub alerted : Bool
  pub events : List ℕ

-- `Cadence` of hub/collectors/declarative.py, in whole seconds
pub record Cadence : Type 0 where
  pub steady_seconds : ℕ
  pub near_every_seconds : ℕ
  pub near_before_seconds : ℕ
  pub near_after_seconds : ℕ

-- What the scheduler reads of `HubConfig`.
pub record Timing : Type 0 where
  pub retry : ℕ
  pub failures_before_alert : ℕ
  pub compile_every : ℕ
  pub heartbeat_every : ℕ

-- the set of a list, before it is sorted
distinct : List ℕ → List ℕ
distinct [] = []
distinct (n ∷ l) = n ∷ keep (λ m. not (m == n)) (distinct l)

-- `_NEAR_EVENT_HORIZON_MS`
abbrev pub near_event_horizon : ℕ
near_event_horizon = 7 * 86_400_000

abbrev is_near_event : ℕ → ℕ → Bool
is_near_event now t = leb (now - 86_400_000) t && leb t (now + near_event_horizon)

-- {r.effective_at for r in records if …}, in order
unfoldable pub near_events : ℕ → List Record → List ℕ
unfolding distinct sort_by
near_events now records =
    sort_by (λ t. t) (distinct (keep (is_near_event now) (map (λ r. r.effective_at) records)))

-- event_ms - before_ms <= now_ms <= event_ms + after_ms, for one of the events
abbrev pub any_near : Cadence → ℕ → List ℕ → Bool
any_near c now [] = false
any_near c now (t ∷ events) =
    (leb t (now + c.near_before_seconds * 1000) && leb now (t + c.near_after_seconds * 1000))
    || any_near c now events

-- `_interval_for`
unfoldable pub interval_for : Timing → Option Cadence → List ℕ → ℕ → ℕ
interval_for timing none events now = timing.retry
interval_for timing (some c) events now =
    if c.near_every_seconds == 0
    then c.steady_seconds * 1000
    else (if any_near c now events then c.near_every_seconds * 1000 else c.steady_seconds * 1000)

-- the names whose time has come
abbrev pub due : ℕ → Dict Text SourceState → List Text
due now [] = []
due now ((name, s) ∷ states) = if leb s.next_due now then name ∷ due now states else due now states

-- The state of a poll that succeeded, and of one that raised a `HubError`.
abbrev pub succeeded : ℕ → ℕ → List ℕ → SourceState
succeeded now interval events = record {
  next_due = now + interval;
  consecutive_failures = 0;
  last_success = now;
  alerted = false;
  events = events;
}

-- self._state[name].consecutive_failures reaches the threshold, and no alert is out
abbrev pub alerts_now : Timing → SourceState → Bool
alerts_now timing s = leb timing.failures_before_alert (s.consecutive_failures + 1) && not s.alerted

abbrev pub failed : Timing → ℕ → List ℕ → SourceState → SourceState
failed timing now events s = record {
  next_due = now + timing.retry;
  consecutive_failures = s.consecutive_failures + 1;
  last_success = s.last_success;
  alerted = s.alerted || alerts_now timing s;
  events = events;
}

-- The `Scheduler`, with the alerts that it has logged, newest last.
pub record Scheduler (W : Type 0) : Type 0 where
  pub state : Dict Text SourceState
  pub next_compile : ℕ
  pub next_heartbeat : ℕ
  pub alerts : List Text
  pub world : W

module _ {W : Type 0} (timing : Timing) (clock : W → ℕ) (cadence : Text → Option Cadence)
    (journal : Text → W → Result (List Record)) (collect : Text → W → Result ℕ × W) where
  events_or_none : ℕ → Result (List Record) → Result (List ℕ)
  unfolding near_events
  events_or_none now (ok records) = ok (near_events now records)
  events_or_none now (err e) = if is_hub_error e then ok [] else err e

  events_near : Option Cadence → Text → W → Result (List ℕ)
  unfolding events_or_none
  events_near none name w = ok []
  events_near (some c) name w =
      if c.near_every_seconds == 0 then ok [] else events_or_none (clock w) (journal name w)

  -- `_known_events`
  unfoldable pub known_events : Text → W → Result (List ℕ)
  unfolding events_near
  known_events name w = events_near (cadence name) name w

  -- the `try` of `_poll_due` and its handler
  unfoldable pub handle_outcome :
      Text → ℕ → List ℕ → SourceState → Scheduler W → Result ℕ × W → Result (Scheduler W)
  unfolding interval_for
  handle_outcome name now events s d (ok written, w) = ok (record d {
    state =
        insert name (succeeded now (interval_for timing (cadence name) events (clock w)) events)
          d.state;
    world = w;
  })
  handle_outcome name now events s d (err e, w) =
      if is_hub_error e
      then ok (record d {
        state = insert name (failed timing now events s) d.state;
        alerts = if alerts_now timing s then d.alerts ++ (name ∷ []) else d.alerts;
        world = w;
      })
      else err e

  -- one turn of the loop of `_poll_due`
  unfoldable pub poll_one : ℕ → Text → Scheduler W → Result (Scheduler W)
  unfolding known_events handle_outcome or_raise
  poll_one now name d = do
    s ← or_raise key_error (lookup name d.state)
    events ← known_events name d.world
    handle_outcome name now events s d (collect name d.world)

  unfoldable pub poll_names : ℕ → List Text → Scheduler W → Result (Scheduler W)
  unfolding poll_one
  poll_names now [] d = ok d
  poll_names now (name ∷ names) d = do polled ← poll_one now name d; poll_names now names polled

  -- `_poll_due`
  unfoldable pub poll_due : Scheduler W → Result (Scheduler W)
  unfolding poll_names
  poll_due d = poll_names (clock d.world) (due (clock d.world) d.state) d

  module _ (compile : W → Result (Unit {0}) × W) (sleep : ℕ → W → W) where
    abbrev pub caught : W → Result (Unit {0}) → Result W
    caught w (ok u) = ok w
    caught w (err e) = if is_hub_error e then ok w else err e

    -- the compile of `_loop`, if its time has come
    unfoldable pub compile_due : ℕ → Scheduler W → Result (Scheduler W)
    compile_due now d =
        let compiled =
          (let (result, w) = compile d.world in
            do
              after ← caught w result
              ok (record d { next_compile = now + timing.compile_every; world = after })) in
        if leb d.next_compile now then compiled else ok d

    abbrev pub beat_due : ℕ → Scheduler W → Scheduler W
    beat_due now d =
        if leb d.next_heartbeat now
        then record d { next_heartbeat = now + timing.heartbeat_every }
        else d

    -- min(s.next_due for s in …), with a default
    abbrev pub soonest : ℕ → List SourceState → ℕ
    soonest default [] = default
    soonest default (s ∷ []) = s.next_due
    soonest default (s ∷ t ∷ states) = min s.next_due (soonest default (t ∷ states))

    -- what `_loop` sleeps
    abbrev pub wait_of : ℕ → Scheduler W → ℕ
    wait_of now d = max 1000 (min (soonest (now + 60_000) (values d.state) - clock d.world) 60_000)

    -- one turn of `_loop`
    unfoldable pub turn : Scheduler W → Result (Scheduler W)
    unfolding poll_due compile_due
    turn d = do
      let now = clock d.world
      polled ← poll_due d
      compiled ← compile_due now polled
      let beaten = beat_due now compiled
      ok (record beaten { world = sleep (wait_of now beaten) beaten.world })

    -- a number of turns, until an exception ends the daemon
    unfoldable pub turns : ℕ → Scheduler W → Result (Scheduler W)
    unfolding turn
    turns zero d = ok d
    turns (suc k) d = do next ← turn d; turns k next
