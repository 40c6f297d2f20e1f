-- ===== src/Scheduler/Clock.antt =====
-- What the steps of hub/scheduler.py's loop take of the clock.
use qkt_data_hub.Prelude.{
  length, is_hub_error, ℕ, suc, ◌+◌, ◌*◌, ◌≤◌, ◌≡◌, refl, sym, ap, ◌∙◌, Option, some, List, [], ◌∷◌,
  Result, ok, err, >>=-eq-ok, ok_inj, key_error, leb, Bool-cases, inl, inr, arith,
}
use qkt_data_hub.Prelude.Text.{Text, text_eq}
use qkt_data_hub.Prelude.Dict.{Dict, insert, lookup, text_key}
use qkt_data_hub.Record.{Record}
use qkt_data_hub.Schema.{or_raise}
use qkt_data_hub.Schema.Valid.{or_raise-eq_ok}
use qkt_data_hub.Scheduler.{
  SourceState, Cadence, Timing, Scheduler, poll_one, poll_names, handle_outcome, known_events,
  caught, compile_due, beat_due,
}

length-insert_known :
    {V : Type 0} (k : Text) (v w : V) (m : Dict Text V)
    → lookup k m ≡ some w
    → length (insert k v m) ≡ length m
unfolding insert lookup
length-insert_known k v w [] h = cc
length-insert_known k v w ((j, u) ∷ m) h = elim (Bool-cases (text_eq j k)) [
  | inl e ↦ rw e refl
  | inr e ↦ rw e (ap (λ n. suc n) (length-insert_known k v w m (rw e at h)))
]

module _ {W : Type 0} (timing : Timing) (clock : W → ℕ) (cadence : Text → Option Cadence)
    (journal : Text → W → Result (List Record)) (collect : Text → W → Result ℕ × W)
    (compile : W → Result (Unit {0}) × W) (sleep : ℕ → W → W) where
  -- The clock does not run backwards and a sleep lasts; a collect, a compile and what a sleep lasts too
  -- long take at most `lag` each.
  pub record RunsOn (lag : ℕ) : Type 0 where
    pub collecting : (name : Text) (w : W) → clock w ≤ clock (collect name w).1
    pub collected : (name : Text) (w : W) → clock (collect name w).1 ≤ clock w + lag
    pub compiling : (w : W) → clock w ≤ clock (compile w).1
    pub compiled : (w : W) → clock (compile w).1 ≤ clock w + lag
    pub sleeping : (n : ℕ) (w : W) → clock w + n ≤ clock (sleep n w)
    pub slept : (n : ℕ) (w : W) → clock (sleep n w) ≤ clock w + n + lag

  module _ (lag : ℕ) (runs : RunsOn lag) where
    handle_outcome-clock :
        (name : Text) (now : ℕ) (events : List ℕ) (s t : SourceState) (d after : Scheduler W)
        (result : Result ℕ) (w : W)
        → lookup name d.state ≡ some t
        → handle_outcome timing clock cadence journal collect name now events s d (result, w)
          ≡ ok after
        → (after.world ≡ w) × (length after.state ≡ length d.state)
    unfolding handle_outcome
    handle_outcome-clock name now events s t d after (ok written) w found h = (
      ap (λ a. a.world) (sym (ok_inj h)),
      ap (λ a. length a.state) (sym (ok_inj h)) ∙ length-insert_known name _ t d.state found,
    )
    handle_outcome-clock name now events s t d after (err e) w found h =
        elim (Bool-cases (is_hub_error e)) [
          | inr other ↦ cc (rw other at h)
          | inl caught ↦
              let same = ok_inj (rw caught at h) in
              (
                ap (λ a. a.world) (sym same),
                ap (λ a. length a.state) (sym same) ∙ length-insert_known name _ t d.state found,
              )
        ]

    pub poll_names-clock :
        (now : ℕ) (names : List Text) (d after : Scheduler W)
        → poll_names timing clock cadence journal collect now names d ≡ ok after
        → (clock d.world ≤ clock after.world)
          × (clock after.world ≤ clock d.world + length names * lag)
          × (length after.state ≡ length d.state)
    unfolding poll_names poll_one
    poll_names-clock now [] d after h =
        let same = ok_inj h in rw (← same) (omega arith, omega arith, refl)
    poll_names-clock now (n ∷ names) d after h =
        let (mid, p, q) = >>=-eq-ok (poll_one timing clock cadence journal collect now n d) _ h in
        let (s, a, b) = >>=-eq-ok (or_raise key_error (lookup n d.state)) _ p in
        let (events, r, u) =
          >>=-eq-ok (known_events timing clock cadence journal collect n d.world) _ b in
        let (same, size) =
          handle_outcome-clock n now events s s d mid (collect n d.world).0 (collect n d.world).1
            (or_raise-eq_ok key_error (lookup n d.state) a) u in
        let moved = runs.collecting n d.world in
        let soon = runs.collected n d.world in
        let (low, high, sizes) = poll_names-clock now names mid after q in
        let at : clock mid.world ≡ clock (collect n d.world).1 = ap clock same in
        let more : suc (length names) * lag ≡ length names * lag + lag = omega arith in
        (omega (arith, moved, low, at), omega (arith, soon, high, at, more), sizes ∙ size)

    caught-same :
        (w : W) (r : Result (Unit {0})) {v : W}
        → caught timing clock cadence journal collect compile sleep w r ≡ ok v
        → w ≡ v
    caught-same w (ok u) h = ok_inj h
    caught-same w (err e) h = elim (Bool-cases (is_hub_error e)) [
      | inl c ↦ ok_inj (rw c at h)
      | inr c ↦ cc (rw c at h)
    ]

    pub compile_due-keeps :
        (now : ℕ) (d after : Scheduler W)
        → compile_due timing clock cadence journal collect compile sleep now d ≡ ok after
        → (after.state ≡ d.state)
          × (clock d.world ≤ clock after.world)
          × (clock after.world ≤ clock d.world + lag)
    unfolding compile_due
    compile_due-keeps now d after h = elim (Bool-cases (leb d.next_compile now)) [
      | inr e ↦
          let same = ok_inj (rw e at h) in
          (ap (λ a. a.state) (sym same), rw (← same) (omega arith), rw (← same) (omega arith))
      | inl e ↦
          let (w, p, q) =
            >>=-eq-ok
              (caught timing clock cadence journal collect compile sleep (compile d.world).1
                (compile d.world).0)
              _ (rw e at h) in
          let same = ok_inj q in
          let moved = runs.compiling d.world in
          let world : clock (compile d.world).1 ≡ clock after.world =
            ap clock (caught-same (compile d.world).1 (compile d.world).0 p)
            ∙ ap (λ a. clock a.world) same in
          let soon = runs.compiled d.world in
          (ap (λ a. a.state) (sym same), omega (arith, moved, world), omega (arith, soon, world))
    ]

    pub beat_due-keeps :
        (now : ℕ) (d : Scheduler W)
        → ((beat_due timing clock cadence journal collect compile sleep now d).state ≡ d.state)
          × ((beat_due timing clock cadence journal collect compile sleep now d).world ≡ d.world)
    beat_due-keeps now d = elim (Bool-cases (leb d.next_heartbeat now)) [
      | inl e ↦ rw e (refl, refl)
      | inr e ↦ rw e (refl, refl)
    ]
