-- ===== src/Journal/Delivered.antt =====
-- hubread/journal.py: what a `JournalTail` delivers is in the order of the sequence numbers, once each.
use mathlib.Core.Path.{subst}
use qkt_data_hub.Prelude.{
  ℕ, suc, ◌<◌, ◌≡◌, refl, map, Option, none, some, List, [], ◌∷◌, ◌++◌, drop, leb, arith, inl, inr,
  Bool-cases,
}
use qkt_data_hub.Prelude.Text.{Text}
use qkt_data_hub.Prelude.Dict.{lookup, text_key, pair_key}
use qkt_data_hub.Journal.Writer.{content}
use qkt_data_hub.Record.{Record}
use qkt_data_hub.Journal.{Files, lines, list_day_files}
use qkt_data_hub.Journal.Tail.{
  Tail, take_line, take_lines, take_day, next_day, unread, poll_days, poll_at, poll, refresh_days,
  same_days,
}

-- the numbers rise strictly from above `low` up to `high`
abbrev pub Ascends : ℕ → List Record → ℕ → Type 0
Ascends low [] high = low ≡ high
Ascends low (r ∷ rs) high = (low < r.seq) × Ascends r.seq rs high

Ascends-append :
    (rs ss : List Record) (low mid high : ℕ)
    → Ascends low rs mid
    → Ascends mid ss high
    → Ascends low (rs ++ ss) high
Ascends-append [] ss low mid high a b = rw a b
Ascends-append (r ∷ rs) ss low mid high a b = (a.0, Ascends-append rs ss r.seq mid high a.1 b)

-- what a step of the tail delivers follows what came before
abbrev pub Follows : Tail → Tail × List Record → Type 0
Follows t p = Ascends t.last_seq p.1 p.0.last_seq

module _ (read : Text → Option Record) where
  take_line-Follows : (o : Option Record) (t : Tail) → Follows t (take_line read o t)
  unfolding take_line
  take_line-Follows none t = refl
  take_line-Follows (some r) t = elim (Bool-cases (leb r.seq t.last_seq)) [
    | inl e ↦ rw e refl
    | inr e ↦ rw e (ground arith, refl)
  ]

  take_lines-Follows : (ls : List Text) (t : Tail) → Follows t (take_lines read ls t)
  unfolding take_lines
  take_lines-Follows [] t = refl
  take_lines-Follows (line ∷ rest) t =
      Ascends-append (take_line read (read line) t).1 _ _ _ _ (take_line-Follows (read line) t)
        (take_lines-Follows rest (take_line read (read line) t).0)

  take_day-Follows : (chunk : Text × Text) (t : Tail) → Follows t (take_day read chunk t)
  unfolding take_day
  take_day-Follows chunk t = take_lines-Follows (lines chunk.0) _

  poll_days-Follows :
      (dataset : Text) (files : Files) (days : List Text) (i : ℕ) (t : Tail)
      → Follows t (poll_days read dataset files days i t)
  unfolding poll_days next_day
  poll_days-Follows dataset files [] i t = refl
  poll_days-Follows dataset files (day ∷ []) i t =
      take_day-Follows (unread read t.offset (content (lookup (dataset, day) files))) t
  poll_days-Follows dataset files (day ∷ next ∷ days) i t =
      let chunk = unread read t.offset (content (lookup (dataset, day) files)) in
      Ascends-append (take_day read chunk t).1 _ _ _ _ (take_day-Follows chunk t) (
        poll_days-Follows dataset files (next ∷ days) (suc i)
          (next_day read chunk.1 i (take_day read chunk t).0))

  poll_at-Follows :
      (dataset : Text) (files : Files) (o : Option ℕ) (t : Tail)
      → Follows t (poll_at read dataset files o t)
  unfolding poll_at
  poll_at-Follows dataset files none t = refl
  poll_at-Follows dataset files (some i) t = poll_days-Follows dataset files (drop i t.days) i t

  refresh_days-last_seq :
      (dataset : Text) (files : Files) (t : Tail)
      → (refresh_days dataset files t).last_seq ≡ t.last_seq
  unfolding refresh_days
  refresh_days-last_seq dataset files t =
      elim (Bool-cases (same_days (map (λ f. f.0) (list_day_files dataset files)) t.days)) [
        | inl e ↦ rw e refl
        | inr e ↦ rw e refl
      ]

  -- one `poll` on what is on disk
  pub poll-Follows :
      (dataset : Text) (files : Files) (t : Tail) → Follows t (poll read dataset files t)
  unfolding poll
  poll-Follows dataset files t =
      let fresh = refresh_days dataset files t in
      subst (λ n. Ascends n (poll read dataset files t).1 (poll read dataset files t).0.last_seq)
        (refresh_days-last_seq dataset files t) (poll_at-Follows dataset files fresh.index fresh)

  -- `poll` again and again, as the files change between the calls
  unfoldable pub polls : Text → List Files → Tail → Tail × List Record
  unfolding poll
  polls dataset [] t = (t, [])
  polls dataset (files ∷ later) t =
      let (after, taken) = poll read dataset files t in
      let (final, others) = polls dataset later after in (final, taken ++ others)
