-- ===== src/Scheduler/Polled.antt =====
-- A pass of `_poll_due` of hub/scheduler.py: it sees to every source whose time has come, and to none
-- else.
use qkt_data_hub.Prelude.{
  is_hub_error, ℕ, ◌+◌, ◌*◌, ◌≤◌, ◌<◌, ◌≡◌, refl, sym, ap, ◌∙◌, true, false, Option, none, some,
  List, [], ◌∷◌, Result, ok, err, >>=-eq-ok, ok_inj, key_error, leb, Among, Bool-cases, inl, inr,
  ◌⊎◌, arith,
}
use mathlib.Core.Path.{subst}
use qkt_data_hub.Prelude.Text.{Text, text_eq, text_eq_iff}
use qkt_data_hub.Prelude.Dict.{Dict, lookup, insert, lookup-insert, lookup-insert_self, text_key}
use qkt_data_hub.Record.{Record}
use qkt_data_hub.Schema.{or_raise}
use qkt_data_hub.Scheduler.{
  SourceState, Cadence, Timing, due, succeeded, failed, interval_for, Scheduler, known_events,
  handle_outcome, poll_one, poll_names, poll_due,
}

-- every interval is positive and at most `longest`
pub record AreIntervals (timing : Timing) (cadence : Text → Option Cadence) (longest : ℕ)
    : Type 0 where
  pub retry_positive : 1 ≤ timing.retry
  pub retry_bounded : timing.retry ≤ longest
  pub steady_positive : (name : Text) (c : Cadence) → cadence name ≡ some c → 1 ≤ c.steady_seconds
  pub steady_bounded :
      (name : Text) (c : Cadence) → cadence name ≡ some c → c.steady_seconds * 1000 ≤ longest
  pub near_bounded :
      (name : Text) (c : Cadence) → cadence name ≡ some c → c.near_every_seconds * 1000 ≤ longest

-- the next poll is to come, and not later than `longest` from now
abbrev pub IsPlanned : ℕ → ℕ → Option SourceState → Type 0
IsPlanned longest now none = ⊥
IsPlanned longest now (some s) = (now < s.next_due) × (s.next_due ≤ now + longest)

pub Among-due :
    (now : ℕ) (states : Dict Text SourceState) (name : Text) (s : SourceState)
    → lookup name states ≡ some s
    → s.next_due ≤ now
    → Among name (due now states)
unfolding lookup
Among-due now [] name s h le = cc
Among-due now ((k, t) ∷ states) name s h le = elim (Bool-cases (text_eq k name)) [
  | inl e ↦
      let found : some t ≡ some s = rw e at h in
      let same : t ≡ s = cc in
      let ready : leb t.next_due now ≡ true =
        subst (λ x. leb x.next_due now ≡ true) (sym same) (ground arith) in
      rw ready (inl ((text_eq_iff k name).0 e))
  | inr e ↦
      let later = Among-due now states name s (rw e at h) le in
      elim (Bool-cases (leb t.next_due now)) [ inl r ↦ rw r (inr later) | inr r ↦ rw r later ]
]

module _ {W : Type 0} (timing : Timing) (clock : W → ℕ) (cadence : Text → Option Cadence)
    (journal : Text → W → Result (List Record)) (collect : Text → W → Result ℕ × W) (longest : ℕ)
    (intervals : AreIntervals timing cadence longest) where
  interval_for-bounds :
      (name : Text) (o : Option Cadence) (events : List ℕ) (now : ℕ)
      → cadence name ≡ o
      → (1 ≤ interval_for timing o events now) × (interval_for timing o events now ≤ longest)
  unfolding interval_for
  interval_for-bounds name none events now e = (intervals.retry_positive, intervals.retry_bounded)
  interval_for-bounds name (some c) events now e = ground (
    arith,
    intervals.steady_positive name c e,
    intervals.steady_bounded name c e,
    intervals.near_bounded name c e,
  )

  -- what a poll makes of the states
  pub record Polls (now : ℕ) (name : Text) (d after : Scheduler W) : Type 0 where
    pub planned : IsPlanned longest now (lookup name after.state)
    pub others :
        (other : Text)
        → text_eq name other ≡ false
        → lookup other after.state ≡ lookup other d.state

  inserted-Polls :
      (now : ℕ) (name : Text) (d after : Scheduler W) (s : SourceState)
      → after.state ≡ insert name s d.state
      → now < s.next_due
      → s.next_due ≤ now + longest
      → Polls now name d after
  inserted-Polls now name d after s e lt le = record {
    planned = rw (e, lookup-insert_self name s d.state) (lt, le);
    others = λ other differs. rw e (lookup-insert name other s d.state ∙ rw differs refl);
  }

  handle_outcome-Polls :
      (name : Text) (now : ℕ) (events : List ℕ) (s : SourceState) (d after : Scheduler W)
      (result : Result ℕ) (w : W)
      → handle_outcome timing clock cadence journal collect name now events s d (result, w)
        ≡ ok after
      → Polls now name d after
  unfolding handle_outcome
  handle_outcome-Polls name now events s d after (ok written) w h =
      let (positive, bounded) = interval_for-bounds name (cadence name) events (clock w) refl in
      inserted-Polls now name d after
        (succeeded now (interval_for timing (cadence name) events (clock w)) events)
        (ap (λ a. a.state) (sym (ok_inj h))) (omega arith) (omega arith)
  handle_outcome-Polls name now events s d after (err e) w h = elim (Bool-cases (is_hub_error e)) [
    | inr other ↦ cc (rw other at h)
    | inl caught ↦
        inserted-Polls now name d after (failed timing now events s)
          (ap (λ a. a.state) (sym (ok_inj (rw caught at h))))
          (omega (arith, intervals.retry_positive)) (omega (arith, intervals.retry_bounded))
  ]

  pub poll_one-Polls :
      (now : ℕ) (name : Text) (d after : Scheduler W)
      → poll_one timing clock cadence journal collect now name d ≡ ok after
      → Polls now name d after
  unfolding poll_one
  poll_one-Polls now name d after h =
      let (s, p, q) = >>=-eq-ok (or_raise key_error (lookup name d.state)) _ h in
      let (events, r, u) =
        >>=-eq-ok (known_events timing clock cadence journal collect name d.world) _ q in
      handle_outcome-Polls name now events s d after (collect name d.world).0
        (collect name d.world).1 u

  -- of a name, once polled or never touched
  poll_names-keeps :
      (now : ℕ) (names : List Text) (d after : Scheduler W) (name : Text)
      → poll_names timing clock cadence journal collect now names d ≡ ok after
      → (lookup name after.state ≡ lookup name d.state)
        ⊎ IsPlanned longest now (lookup name after.state)
  unfolding poll_names
  poll_names-keeps now [] d after name h = inl (ap (λ a. lookup name a.state) (sym (ok_inj h)))
  poll_names-keeps now (n ∷ names) d after name h =
      let (mid, p, q) = >>=-eq-ok (poll_one timing clock cadence journal collect now n d) _ h in
      let polls = poll_one-Polls now n d mid p in
      elim (poll_names-keeps now names mid after name q) [
        | inr planned ↦ inr planned
        | inl same ↦ elim (Bool-cases (text_eq n name)) [
          | inr differs ↦ inl (same ∙ polls.others name differs)
          | inl e ↦ inr (
              subst (IsPlanned longest now) (sym same) (
                subst (λ t. IsPlanned longest now (lookup t mid.state)) ((text_eq_iff n name).0 e)
                  polls.planned))
        ]
      ]

  poll_names-IsPlanned :
      (now : ℕ) (names : List Text) (d after : Scheduler W) (name : Text)
      → poll_names timing clock cadence journal collect now names d ≡ ok after
      → Among name names
      → IsPlanned longest now (lookup name after.state)
  unfolding poll_names
  poll_names-IsPlanned now [] d after name h m = elim m [ ]
  poll_names-IsPlanned now (n ∷ names) d after name h m =
      let (mid, p, q) = >>=-eq-ok (poll_one timing clock cadence journal collect now n d) _ h in
      elim m [
        | inr later ↦ poll_names-IsPlanned now names mid after name q later
        | inl e ↦
            let planned =
              subst (λ t. IsPlanned longest now (lookup t mid.state)) e
                (poll_one-Polls now n d mid p).planned in
            elim (poll_names-keeps now names mid after name q) [
              | inr again ↦ again
              | inl same ↦ subst (IsPlanned longest now) (sym same) planned
            ]
      ]

  poll_names-others :
      (now : ℕ) (names : List Text) (d after : Scheduler W) (name : Text)
      → poll_names timing clock cadence journal collect now names d ≡ ok after
      → ¬ Among name names
      → lookup name after.state ≡ lookup name d.state
  unfolding poll_names
  poll_names-others now [] d after name h m = ap (λ a. lookup name a.state) (sym (ok_inj h))
  poll_names-others now (n ∷ names) d after name h m =
      let (mid, p, q) = >>=-eq-ok (poll_one timing clock cadence journal collect now n d) _ h in
      poll_names-others now names mid after name q (λ a. m (inr a))
      ∙ elim (Bool-cases (text_eq n name)) [
        | inl e ↦ absurd (m (inl ((text_eq_iff n name).0 e)))
        | inr differs ↦ (poll_one-Polls now n d mid p).others name differs
      ]

  -- Where a pass over the sources ends, each source whose time has come has its next poll after now and
  -- at most the longest interval away, whether its own poll succeeded or failed, and the state of every
  -- other source is as it was. The intervals are positive.
  pub poll_due-IsPlanned :
      (d after : Scheduler W) (name : Text)
      → poll_due timing clock cadence journal collect d ≡ ok after
      → ((s : SourceState)
          → lookup name d.state ≡ some s
          → s.next_due ≤ clock d.world
          → IsPlanned longest (clock d.world) (lookup name after.state))
        × (¬ Among name (due (clock d.world) d.state)
            → lookup name after.state ≡ lookup name d.state)
  unfolding poll_due
  poll_due-IsPlanned d after name h =
      let now = clock d.world in
      (
        λ s found le.
            poll_names-IsPlanned now (due now d.state) d after name h
              (Among-due now d.state name s found le),
        λ m. poll_names-others now (due now d.state) d after name h m,
      )
