-- ===== src/Scheduler/Live.antt =====
-- The loop of hub/scheduler.py polls every source in time.
use qkt_data_hub.Prelude.{
  length, max, ◌<◌, ◌-◌, ℕ, zero, suc, ◌+◌, ◌*◌, ◌≤◌, ◌≡◌, refl, sym, ap, ◌∙◌, Option, some, List,
  [], ◌∷◌, Result, ok, >>=-eq-ok, ok_inj, leb, Among, Bool-cases, inl, inr, ◌⊎◌, arith,
}
use qkt_data_hub.Prelude.Text.{Text, text_eq, text_eq_iff}
use qkt_data_hub.Prelude.Dict.{Dict, lookup, values, text_key}
use qkt_data_hub.Record.{Record}
use qkt_data_hub.Scheduler.{
  SourceState, Cadence, Timing, due, Scheduler, poll_due, compile_due, beat_due, wait_of, turn,
  turns, soonest,
}
use qkt_data_hub.Scheduler.Clock.{RunsOn, poll_names-clock, compile_due-keeps, beat_due-keeps}
use qkt_data_hub.Scheduler.Told.{IsTold, poll_names-IsTold}
use qkt_data_hub.Scheduler.Polled.{AreIntervals, Among-due, poll_due-IsPlanned}

-- membership is decided
Among-cases : (name : Text) (names : List Text) → Among name names ⊎ ¬ Among name names
Among-cases name [] = inr (λ m. elim m [ ])
Among-cases name (n ∷ names) = elim (Bool-cases (text_eq n name)) [
  | inl e ↦ inl (inl ((text_eq_iff n name).0 e))
  | inr differs ↦ elim (Among-cases name names) [
    | inl m ↦ inl (inr m)
    | inr no_m ↦ inr (λ m. elim m [ inl e ↦ cc ((text_eq_iff n name).1 e) | inr l ↦ no_m l ])
  ]
]

mul_mono : (a b c : ℕ) → a ≤ b → a * c ≤ b * c
mul_mono zero b c h = omega arith
mul_mono (suc a) zero c h = absurd (omega arith)
mul_mono (suc a) (suc b) c h =
    let l = mul_mono a b c (omega arith) in
    let left : suc a * c ≡ a * c + c = omega arith in
    let right : suc b * c ≡ b * c + c = omega arith in omega (arith, l, left, right)

length-due : (now : ℕ) (states : Dict Text SourceState) → length (due now states) ≤ length states
length-due now [] = omega arith
length-due now ((name, s) ∷ states) = elim (Bool-cases (leb s.next_due now)) [
  | inl e ↦ let l = length-due now states in rw e (omega arith)
  | inr e ↦ let l = length-due now states in rw e (omega arith)
]

not_due :
    (now : ℕ) (states : Dict Text SourceState) (name : Text) (s : SourceState)
    → lookup name states ≡ some s
    → ¬ Among name (due now states)
    → now < s.next_due
not_due now states name s found no_m = elim (Bool-cases (leb s.next_due now)) [
  | inl ready ↦ absurd (no_m (Among-due now states name s found (ground arith)))
  | inr early ↦ ground arith
]

module _ {W : Type 0} (timing : Timing) (clock : W → ℕ) (cadence : Text → Option Cadence)
    (journal : Text → W → Result (List Record)) (collect : Text → W → Result ℕ × W)
    (compile : W → Result (Unit {0}) × W) (sleep : ℕ → W → W) where
  soonest-le :
      (default : ℕ) (states : Dict Text SourceState) (name : Text) (s : SourceState)
      → lookup name states ≡ some s
      → soonest timing clock cadence journal collect compile sleep default (values states)
        ≤ s.next_due
  unfolding lookup
  soonest-le default [] name s h = cc
  soonest-le default ((k, t) ∷ []) name s h = elim (Bool-cases (text_eq k name)) [
    | inl e ↦
        let same : some t ≡ some s = rw e at h in let is_s : t ≡ s = cc in rw is_s (omega arith)
    | inr e ↦ cc (rw e at h)
  ]
  soonest-le default ((k, t) ∷ e2 ∷ states) name s h = elim (Bool-cases (text_eq k name)) [
    | inl e ↦
        let same : some t ≡ some s = rw e at h in
        let is_s : t ≡ s = cc in
        let at : t.next_due ≡ s.next_due = ap (λ x. x.next_due) is_s in omega (arith, at)
    | inr e ↦ let l = soonest-le default (e2 ∷ states) name s (rw e at h) in omega (arith, l)
  ]

  module _ (lag : ℕ) (runs : RunsOn timing clock cadence journal collect compile sleep lag)
      (longest : ℕ) (intervals : AreIntervals timing cadence longest) where
    -- what a turn does for one source
    record Turns (name : Text) (d after : Scheduler W) : Type 0 where
      pub idle :
          ¬ Among name (due (clock d.world) d.state) → lookup name after.state ≡ lookup name d.state
      pub told :
          Among name (due (clock d.world) d.state)
          → IsTold timing clock cadence journal collect longest intervals (clock d.world) name after
      pub slept : clock d.world + 1000 ≤ clock after.world
      pub size : length after.state ≡ length d.state
      pub woken :
          (s : SourceState)
          → lookup name after.state ≡ some s
          → clock after.world
            ≤ max s.next_due (clock d.world + (length d.state + 1) * lag + 1000) + lag

    turn-Turns :
        (name : Text) (d after : Scheduler W)
        → turn timing clock cadence journal collect compile sleep d ≡ ok after
        → Turns name d after
    unfolding turn poll_due
    turn-Turns name d after h =
        let now = clock d.world in
        let (polled, p, h) = >>=-eq-ok (poll_due timing clock cadence journal collect d) _ h in
        let (compiled, q, h) =
          >>=-eq-ok (compile_due timing clock cadence journal collect compile sleep now polled) _
            h in
        let beaten = beat_due timing clock cadence journal collect compile sleep now compiled in
        let wait = wait_of timing clock cadence journal collect compile sleep now beaten in
        let first =
          soonest timing clock cadence journal collect compile sleep (now + 60_000)
            (values beaten.state) in
        let (state, compiling, compiled_by) =
          compile_due-keeps timing clock cadence journal collect compile sleep lag runs now polled
            compiled q in
        let (beat_state, beat_world) =
          beat_due-keeps timing clock cadence journal collect compile sleep lag runs now compiled in
        let (polling, polled_by, size) =
          poll_names-clock timing clock cadence journal collect compile sleep lag runs now
            (due now d.state) d polled p in
        let sleeping = runs.sleeping wait beaten.world in
        let slept = runs.slept wait beaten.world in
        let same = ok_inj h in
        let at : clock (sleep wait beaten.world) ≡ clock after.world =
          ap (λ a. clock a.world) same in
        let from : clock beaten.world ≡ clock compiled.world = ap clock beat_world in
        let states : after.state ≡ polled.state =
          ap (λ a. a.state) (sym same) ∙ beat_state ∙ state in
        let enough : 1000 ≤ wait = omega arith in
        let few = length-due now d.state in
        let work : length (due now d.state) * lag ≤ length d.state * lag =
          mul_mono (length (due now d.state)) (length d.state) lag few in
        record {
          idle = λ m.
              ap (lookup name) states
              ∙ (poll_due-IsPlanned timing clock cadence journal collect longest intervals d polled
                    name p).1
                  m;
          told = λ m.
              let (w, s, found, tells) =
                poll_names-IsTold timing clock cadence journal collect longest intervals now
                  (due now d.state) d polled name p m in
              (w, s, ap (lookup name) states ∙ found, tells);
          slept = omega (arith, compiling, polling, sleeping, at, from, enough);
          size = ap length states ∙ size;
          woken = λ s found.
              let there : lookup name beaten.state ≡ some s =
                ap (λ a. lookup name a.state) same ∙ found in
              let soon = soonest-le (now + 60_000) beaten.state name s there in
              let short : wait ≤ max 1000 (s.next_due - clock beaten.world) = omega (arith, soon) in
              let all : (length d.state + 1) * lag ≡ length d.state * lag + lag = omega arith in
              omega (arith, compiled_by, polled_by, slept, at, from, short, work, all);
        }

    -- One of the next turns, at most the `k`th from now, starts by the instant `by` and polls the source.
    abbrev pub IsPolledBy : ℕ → ℕ → Scheduler W → Text → Type 0
    IsPolledBy k by d name =
        (j : ℕ) × (at : Scheduler W) × (next : Scheduler W) × (j ≤ k)
        × (turns timing clock cadence journal collect compile sleep j d ≡ ok at)
        × (turn timing clock cadence journal collect compile sleep at ≡ ok next)
        × (clock at.world ≤ by)
        × (IsTold timing clock cadence journal collect longest intervals (clock at.world) name next)

    -- However the polls of the other sources end, the loop polls a source in time. Where a source's next
    -- poll is due within k seconds and k + 1 turns end without an exception that is no `HubError`, one of
    -- these turns polls it: after that turn the state of the source tells the outcome of a `collect` of
    -- it. The turn starts no later than now, or than a second and `lag` times two more than there are
    -- sources after the poll is due. The clock does not run backwards, a sleep lasts as long as it is
    -- told to, and a collect, a compile and what a sleep lasts too long take at most `lag` each. The
    -- intervals are positive.
    pub turns-IsPolledBy :
        (k : ℕ) (d last : Scheduler W) (name : Text) (s : SourceState)
        → lookup name d.state ≡ some s
        → s.next_due ≤ clock d.world + k * 1000
        → turns timing clock cadence journal collect compile sleep (suc k) d ≡ ok last
        → IsPolledBy k (max (clock d.world) (s.next_due + 1000 + (length d.state + 2) * lag)) d name
    unfolding turns
    turns-IsPolledBy zero d last name s found le h =
        let (next, p, q) =
          >>=-eq-ok (turn timing clock cadence journal collect compile sleep d) _ h in
        let ready = Among-due (clock d.world) d.state name s found (omega arith) in
        (0, d, next, omega arith, refl, p, omega arith, (turn-Turns name d next p).told ready)
    turns-IsPolledBy (suc k) d last name s found le h =
        let (next, p, q) =
          >>=-eq-ok (turn timing clock cadence journal collect compile sleep d) _ h in
        let made = turn-Turns name d next p in
        elim (Among-cases name (due (clock d.world) d.state)) [
          | inl m ↦ (0, d, next, omega arith, refl, p, omega arith, made.told m)
          | inr no_m ↦
              let kept = made.idle no_m ∙ found in
              let later = made.slept in
              let woken = made.woken s kept in
              let early : clock d.world < s.next_due =
                not_due (clock d.world) d.state name s found no_m in
              let (j, at, after, bound, reached, polls, by, told) =
                turns-IsPolledBy k next last name s kept (omega (arith, later)) q in
              let all : (length d.state + 2) * lag ≡ (length d.state + 1) * lag + lag =
                omega arith in
              let same : (length next.state + 2) * lag ≡ (length d.state + 2) * lag =
                ap (λ n. (n + 2) * lag) made.size in
              (
                suc j,
                at,
                after,
                omega (arith, bound),
                rw p reached,
                polls,
                omega (arith, by, woken, early, all, same),
                told,
              )
        ]
