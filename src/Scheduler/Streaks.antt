-- ===== src/Scheduler/Streaks.antt =====
-- The alerts of hub/scheduler.py: one for each streak of failures, when it reaches the threshold.
use qkt_data_hub.Prelude.{
  is_hub_error, ℕ, ◌+◌, ◌≤◌, ◌≡◌, refl, sym, ap, ◌∙◌, Bool, false, ◌&&◌, Option, some, List, [],
  ◌∷◌, ◌++◌, Result, ok, err, >>=-eq-ok, ok_inj, key_error, leb, ◌==◌, if◌then◌else◌, All,
  Bool-cases, inl, inr, arith,
}
use mathlib.Core.Path.{subst}
use qkt_data_hub.Prelude.Text.{Text}
use qkt_data_hub.Prelude.Dict.{lookup, All-insert, All-lookup, text_key}
use qkt_data_hub.Record.{Record}
use qkt_data_hub.Schema.{or_raise}
use qkt_data_hub.Schema.Valid.{or_raise-eq_ok}
use qkt_data_hub.Scheduler.{
  SourceState, Cadence, Timing, succeeded, failed, alerts_now, interval_for, Scheduler,
  known_events, handle_outcome, poll_one,
}

-- an alert is out exactly while the failures in a row are as many as the threshold
abbrev pub IsStreak : Timing → SourceState → Type 0
IsStreak timing s = s.alerted ≡ leb timing.failures_before_alert s.consecutive_failures

abbrev pub AreStreaks : {W : Type 0} → Timing → Scheduler W → Type 0
AreStreaks timing d = All (λ e. IsStreak timing e.1) d.state

-- the outcome is an error that the scheduler catches
abbrev pub is_failure : Result ℕ → Bool
is_failure (ok written) = false
is_failure (err e) = is_hub_error e

module _ {W : Type 0} (timing : Timing) (clock : W → ℕ) (cadence : Text → Option Cadence)
    (journal : Text → W → Result (List Record)) (collect : Text → W → Result ℕ × W)
    (some_failures : 1 ≤ timing.failures_before_alert) where
  -- the alerts after a poll of a source in this state
  abbrev pub alerts_after : Text → SourceState → Scheduler W → List Text
  alerts_after name s d =
      if is_failure (collect name d.world).0
        && s.consecutive_failures + 1 == timing.failures_before_alert
      then d.alerts ++ (name ∷ [])
      else d.alerts

  handle_outcome-AreStreaks :
      (name : Text) (now : ℕ) (events : List ℕ) (s : SourceState) (d after : Scheduler W)
      (result : Result ℕ) (w : W)
      → IsStreak timing s
      → AreStreaks timing d
      → handle_outcome timing clock cadence journal collect name now events s d (result, w)
        ≡ ok after
      → AreStreaks timing after
        × (after.alerts ≡ (
            if is_failure result && s.consecutive_failures + 1 == timing.failures_before_alert
            then d.alerts ++ (name ∷ [])
            else d.alerts))
  unfolding handle_outcome
  handle_outcome-AreStreaks name now events s d after (ok written) w streak all h =
      let made = succeeded now (interval_for timing (cadence name) events (clock w)) events in
      (
        subst (AreStreaks timing) (ok_inj h)
            (All-insert (λ e. IsStreak timing e.1) name made d.state (ground arith) all),
        ap (λ a. a.alerts) (sym (ok_inj h)),
      )
  handle_outcome-AreStreaks name now events s d after (err e) w streak all h =
      elim (Bool-cases (is_hub_error e)) [
        | inr other ↦ cc (rw other at h)
        | inl caught ↦
            let made = failed timing now events s in
            let kept : IsStreak timing made = ground (arith, streak) in
            let same = ok_inj (rw caught at h) in
            let reached : alerts_now timing s
                ≡ (s.consecutive_failures + 1 == timing.failures_before_alert) =
              ground (arith, streak) in
            (
              subst (AreStreaks timing) same
                  (All-insert (λ e. IsStreak timing e.1) name made d.state kept all),
              ap (λ a. a.alerts) (sym same) ∙ rw (caught, reached) refl,
            )
      ]

  -- A poll logs an alert exactly when it fails with a `HubError` and is then as many failures in a row
  -- as the threshold, and it leaves the alert of every source out exactly while its failures in a row
  -- are that many. The threshold is at least 1.
  pub poll_one-alerts :
      (now : ℕ) (name : Text) (d after : Scheduler W) (s : SourceState)
      → AreStreaks timing d
      → lookup name d.state ≡ some s
      → poll_one timing clock cadence journal collect now name d ≡ ok after
      → AreStreaks timing after × (after.alerts ≡ alerts_after name s d)
  unfolding poll_one
  poll_one-alerts now name d after s all found h =
      let (t, p, q) = >>=-eq-ok (or_raise key_error (lookup name d.state)) _ h in
      let there : some t ≡ some s = sym (or_raise-eq_ok key_error _ p) ∙ found in
      let same : t ≡ s = cc in
      let (events, r, u) =
        >>=-eq-ok (known_events timing clock cadence journal collect name d.world) _ q in
      handle_outcome-AreStreaks name now events s d after (collect name d.world).0
        (collect name d.world).1 (All-lookup (λ e. IsStreak timing e.1) name d.state all found) all
        (subst
          (λ x.
            handle_outcome timing clock cadence journal collect name now events x d
              (collect name d.world)
            ≡ ok after)
          same u)
