-- ===== src/Scheduler/Told.antt =====
-- What a poll of hub/scheduler.py leaves in the state of its source.
use qkt_data_hub.Prelude.{
  is_hub_error, ℕ, ◌+◌, ◌≤◌, ◌≡◌, refl, sym, ap, ◌∙◌, Option, some, List, [], ◌∷◌, Result, ok, err,
  >>=-eq-ok, ok_inj, key_error, Among, Bool-cases, inl, inr, arith,
}
use mathlib.Core.Path.{subst}
use qkt_data_hub.Prelude.Text.{Text, text_eq, text_eq_iff}
use qkt_data_hub.Prelude.Dict.{lookup, lookup-insert_self, text_key}
use qkt_data_hub.Record.{Record}
use qkt_data_hub.Schema.{or_raise}
use qkt_data_hub.Scheduler.{
  SourceState, Cadence, Timing, Scheduler, poll_one, poll_names, handle_outcome, known_events,
}
use qkt_data_hub.Scheduler.Polled.{AreIntervals, poll_one-Polls}

-- what the outcome of a poll says of the state after it
abbrev pub Tells : Timing → ℕ → Result ℕ → SourceState → Type 0
Tells timing now (ok written) s = (s.last_success ≡ now) × (s.consecutive_failures ≡ 0)
Tells timing now (err e) s = (s.next_due ≡ now + timing.retry) × (1 ≤ s.consecutive_failures)

module _ {W : Type 0} (timing : Timing) (clock : W → ℕ) (cadence : Text → Option Cadence)
    (journal : Text → W → Result (List Record)) (collect : Text → W → Result ℕ × W) (longest : ℕ)
    (intervals : AreIntervals timing cadence longest) where
  -- The source was polled: its state tells the outcome of a `collect` of it.
  abbrev pub IsTold : ℕ → Text → Scheduler W → Type 0
  IsTold now name d =
      (w : W) × (s : SourceState) × (lookup name d.state ≡ some s)
      × (Tells timing now (collect name w).0 s)

  handle_outcome-Tells :
      (name : Text) (now : ℕ) (events : List ℕ) (s : SourceState) (d after : Scheduler W)
      (result : Result ℕ) (w : W)
      → handle_outcome timing clock cadence journal collect name now events s d (result, w)
        ≡ ok after
      → (a : SourceState) × (lookup name after.state ≡ some a) × (Tells timing now result a)
  unfolding handle_outcome
  handle_outcome-Tells name now events s d after (ok written) w h = (
    _,
    ap (λ x. lookup name x.state) (sym (ok_inj h)) ∙ lookup-insert_self name _ d.state,
    (refl, refl),
  )
  handle_outcome-Tells name now events s d after (err e) w h = elim (Bool-cases (is_hub_error e)) [
    | inr other ↦ cc (rw other at h)
    | inl caught ↦ (
      _,
      ap (λ x. lookup name x.state) (sym (ok_inj (rw caught at h)))
          ∙ lookup-insert_self name _ d.state,
      (refl, omega arith),
    )
  ]

  poll_one-IsTold :
      (now : ℕ) (name : Text) (d after : Scheduler W)
      → poll_one timing clock cadence journal collect now name d ≡ ok after
      → IsTold now name after
  unfolding poll_one
  poll_one-IsTold now name d after h =
      let (s, p, q) = >>=-eq-ok (or_raise key_error (lookup name d.state)) _ h in
      let (events, r, u) =
        >>=-eq-ok (known_events timing clock cadence journal collect name d.world) _ q in
      let (a, found, tells) =
        handle_outcome-Tells name now events s d after (collect name d.world).0
          (collect name d.world).1 u in
      (d.world, a, found, tells)

  poll_names-again :
      (now : ℕ) (names : List Text) (d after : Scheduler W) (name : Text)
      → poll_names timing clock cadence journal collect now names d ≡ ok after
      → IsTold now name d
      → IsTold now name after
  unfolding poll_names
  poll_names-again now [] d after name h told = subst (IsTold now name) (ok_inj h) told
  poll_names-again now (n ∷ names) d after name h told =
      let (mid, p, q) = >>=-eq-ok (poll_one timing clock cadence journal collect now n d) _ h in
      poll_names-again now names mid after name q (elim (Bool-cases (text_eq n name)) [
        | inl e ↦
            subst (λ x. IsTold now x mid) ((text_eq_iff n name).0 e) (poll_one-IsTold now n d mid p)
        | inr differs ↦
            let (w, s, found, tells) = told in
            let others =
              (poll_one-Polls timing clock cadence journal collect longest intervals now n d mid
                  p).others
                name differs in
            (w, s, others ∙ found, tells)
      ])

  pub poll_names-IsTold :
      (now : ℕ) (names : List Text) (d after : Scheduler W) (name : Text)
      → poll_names timing clock cadence journal collect now names d ≡ ok after
      → Among name names
      → IsTold now name after
  unfolding poll_names
  poll_names-IsTold now [] d after name h m = elim m [ ]
  poll_names-IsTold now (n ∷ names) d after name h m =
      let (mid, p, q) = >>=-eq-ok (poll_one timing clock cadence journal collect now n d) _ h in
      elim m [
        | inr later ↦ poll_names-IsTold now names mid after name q later
        | inl e ↦
            poll_names-again now names mid after name q
              (subst (λ x. IsTold now x mid) e (poll_one-IsTold now n d mid p))
      ]
