-- ===== src/Journal/Tail.antt =====
-- hubread/journal.py: `JournalTail`, which follows the journal of one dataset as it grows. Offsets
-- count characters, as in the rest of the model of a file.
use qkt_data_hub.Prelude.{
  ℕ, suc, ◌+◌, Bool, true, false, ◌&&◌, Option, none, some, List, [], ◌∷◌, ◌++◌, map, drop, length,
  leb, if◌then◌else◌,
}
use qkt_data_hub.Prelude.Text.{Text, text_eq}
use qkt_data_hub.Prelude.Dict.{lookup, text_key, pair_key}
use qkt_data_hub.Record.{Record}
use qkt_data_hub.Journal.{Files, lines, split_tail, list_day_files}
use qkt_data_hub.Journal.Writer.{content}

-- `self._index` is `none` for -1
pub record Tail : Type 0 where
  pub last_seq : ℕ
  pub skipped : ℕ
  pub days : List Text
  pub index : Option ℕ
  pub offset : ℕ

-- `__init__`
abbrev pub follow : ℕ → Tail
follow from_seq = record { last_seq = from_seq; skipped = 0; days = []; index = none; offset = 0 }

abbrev pub first_index : Option ℕ → List Text → Option ℕ
first_index none [] = none
first_index none (day ∷ days) = some 0
first_index (some i) days = some i

-- days == self._days
unfoldable pub same_days : List Text → List Text → Bool
unfolding text_eq
same_days [] [] = true
same_days [] (e ∷ es) = false
same_days (d ∷ ds) [] = false
same_days (d ∷ ds) (e ∷ es) = text_eq d e && same_days ds es

-- `_refresh_days`
unfoldable pub refresh_days : Text → Files → Tail → Tail
unfolding list_day_files same_days
refresh_days dataset files t =
    let days = map (λ f. f.0) (list_day_files dataset files) in
    if same_days days t.days then t else record t { days = days; index = first_index t.index days }

-- `read` is `Record.from_json`, `none` where that raises
module _ (read : Text → Option Record) where
  -- one line, on what it holds
  unfoldable pub take_line : Option Record → Tail → Tail × List Record
  take_line none t = (record t { skipped = t.skipped + 1 }, [])
  take_line (some r) t =
      let taken : Tail = record t { last_seq = r.seq } in
      if leb r.seq t.last_seq then (t, []) else (taken, r ∷ [])

  unfoldable pub take_lines : List Text → Tail → Tail × List Record
  unfolding take_line
  take_lines [] t = (t, [])
  take_lines (line ∷ rest) t =
      let (after, taken) = take_line (read line) t in
      let (final, others) = take_lines rest after in (final, taken ++ others)

  -- what the tail has not read of a file, cut after the last newline
  unfoldable pub unread : ℕ → Text → Text × Text
  unfolding split_tail
  unread offset bytes = split_tail (drop offset bytes)

  -- one day file, without the step to the next
  unfoldable pub take_day : Text × Text → Tail → Tail × List Record
  unfolding take_lines lines
  take_day chunk t = take_lines (lines chunk.0) (record t { offset = t.offset + length chunk.0 })

  -- the step to the next day; a fragment that is left behind is counted
  unfoldable pub next_day : Text → ℕ → Tail → Tail
  next_day remainder i t = record t {
    skipped = if leb 1 (length remainder) then t.skipped + 1 else t.skipped;
    index = some (suc i);
    offset = 0;
  }

  -- the `while` of `poll`, on the days from the current one, which is at `i`
  unfoldable pub poll_days : Text → Files → List Text → ℕ → Tail → Tail × List Record
  unfolding unread take_day next_day
  poll_days dataset files [] i t = (t, [])
  poll_days dataset files (day ∷ []) i t =
      take_day (unread t.offset (content (lookup (dataset, day) files))) t
  poll_days dataset files (day ∷ next ∷ days) i t =
      let chunk = unread t.offset (content (lookup (dataset, day) files)) in
      let (after, taken) = take_day chunk t in
      let (final, others) =
        poll_days dataset files (next ∷ days) (suc i) (next_day chunk.1 i after) in
      (final, taken ++ others)

  unfoldable pub poll_at : Text → Files → Option ℕ → Tail → Tail × List Record
  unfolding poll_days
  poll_at dataset files none t = (t, [])
  poll_at dataset files (some i) t = poll_days dataset files (drop i t.days) i t

  unfoldable pub poll : Text → Files → Tail → Tail × List Record
  unfolding refresh_days poll_at
  poll dataset files t =
      let fresh = refresh_days dataset files t in poll_at dataset files fresh.index fresh
