-- ===== src/Compiler/Cycle/Kept.antt =====
-- The windows that `_unchanged_windows` of hub/compiler.py keeps hold what they held.
use qkt_data_hub.Prelude.{
  ℕ, ◌≤◌, ◌≡◌, refl, sym, ap, ◌∙◌, Bool, true, ◌&&◌, leb, some, List, [], ◌∷◌, keep, length, Result,
  ok, err, Bool-cases, inl, inr, All, Among, All-Among, >>=-eq-ok, ok_inj, arith,
}
use qkt_data_hub.Prelude.Int.{ℤ}
use qkt_data_hub.Prelude.Order.{nat_ord, pair_ord}
use qkt_data_hub.Prelude.Text.{Text, text_eq, text_ord}
use qkt_data_hub.Prelude.Dict.{Dict, insert, All-insert, text_key}
use qkt_data_hub.Record.{Record, max_timestamp_ms}
use qkt_data_hub.Record.Names.{elem}
use qkt_data_hub.Compiler.{month_bounds, write_window}
use qkt_data_hub.Compiler.Cycle.{
  first_changed, is_before, count_of, month_of, is_kept, kept_entries, unchanged_windows,
  last_seq_of,
}
use qkt_data_hub.Manifest.{WindowEntry, DatasetManifest}
use qkt_data_hub.Compiler.Cycle.Untouched.{
  IsElsewhere, known_then, length-take_le, first_changed-IsElsewhere, window_records-known_then,
  length-window_records,
}

-- An entry of the last manifest that is kept for a window: the window is one that is asked for, its file
-- is on disk, it holds what the journal of then had for it, and as many records as the entry says.
pub record IsUnchanged (is_file : Text → Bool) (records : List Record) (windows : List Text)
    (previous : DatasetManifest) (kept : Text × WindowEntry) : Type 0 where
  pub listed : Among kept.1 previous.windows
  pub named : month_of kept.1 ≡ kept.0
  pub asked : elem kept.0 windows ≡ true
  pub on_disk : is_file kept.1.file ≡ true
  pub same :
      write_window records kept.0
      ≡ write_window (keep (known_then previous.last_seq) records) kept.0
  pub counted :
      (held : List Record) → write_window records kept.0 ≡ ok held → length held ≡ kept.1.records

module _ (is_file : Text → Bool) (records : List Record) (windows : List Text)
    (late : All (λ r. r.known_at ≤ max_timestamp_ms) records) where
  write_window-known_then :
      (previous : ℕ) (month : Text)
      → length month ≤ 7
      → All (IsElsewhere previous month) records
      → write_window records month ≡ write_window (keep (known_then previous) records) month
  unfolding write_window
  write_window-known_then previous month short elsewhere = go (month_bounds month) refl
    where
      go :
          (read : Result (ℤ × ℤ))
          → month_bounds month ≡ read
          → write_window records month ≡ write_window (keep (known_then previous) records) month
      go (err e) p = rw p refl
      go (ok bounds) p =
          rw (p, ← window_records-known_then month bounds p short previous records late elsewhere)
            refl

  length-write_window :
      (month : Text) (held : List Record)
      → length month ≤ 7
      → write_window records month ≡ ok held
      → length held ≡ count_of records month
  unfolding write_window
  length-write_window month held short h =
      let (bounds, p, q) = >>=-eq-ok (month_bounds month) _ h in
      ap length (sym (ok_inj q)) ∙ length-window_records month bounds p short records late

  is_kept-IsUnchanged :
      (previous : DatasetManifest) (e : WindowEntry)
      → Among e previous.windows
      → is_kept is_file records windows previous.last_seq e ≡ true
      → IsUnchanged is_file records windows previous (month_of e, e)
  unfolding is_kept
  is_kept-IsUnchanged previous e m h =
      let asked : elem (month_of e) windows ≡ true = ground (arith, h) in
      let before : is_before (month_of e) (first_changed previous.last_seq records) ≡ true =
        ground (arith, h) in
      let counted : count_of records (month_of e) ≡ e.records = ground (arith, h) in
      let on_disk : is_file e.file ≡ true = ground (arith, h) in
      let short = length-take_le 7 e.from_day in
      record {
        listed = m;
        named = refl;
        asked = asked;
        on_disk = on_disk;
        same =
            write_window-known_then previous.last_seq (month_of e) short
              (first_changed-IsElsewhere previous.last_seq (month_of e) records before);
        counted = λ held k. length-write_window (month_of e) held short k ∙ counted;
      }

  kept_entries-IsUnchanged :
      (previous : DatasetManifest) (entries : List WindowEntry) (kept : Dict Text WindowEntry)
      → All (λ e. Among e previous.windows) entries
      → All (IsUnchanged is_file records windows previous) kept
      → All
          (IsUnchanged is_file records windows previous)
          (kept_entries is_file records windows previous.last_seq entries kept)
  unfolding kept_entries
  kept_entries-IsUnchanged previous [] kept m h = h
  kept_entries-IsUnchanged previous (e ∷ entries) kept m h =
      elim (Bool-cases (is_kept is_file records windows previous.last_seq e)) [
        | inl k ↦ rw k (
            kept_entries-IsUnchanged previous entries (insert (month_of e) e kept) m.1 (
              All-insert (IsUnchanged is_file records windows previous) (month_of e) e kept
                (is_kept-IsUnchanged previous e m.0 k) h))
        | inr k ↦ rw k (kept_entries-IsUnchanged previous entries kept m.1 h)
      ]

  -- Every entry that `_unchanged_windows` keeps is one of the last manifest, for a window that is asked
  -- for and a file that is on disk. The records that a compile would put into that window are the ones
  -- that it put there when the journal ended at the sequence number that the manifest last saw, and the
  -- entry counts them. No record is known later than the bounds of the store allow.
  pub unchanged_windows-IsUnchanged :
      (hash : Text) (previous : DatasetManifest)
      → All
          (IsUnchanged is_file records windows previous)
          (unchanged_windows is_file records windows hash (some previous))
  unfolding unchanged_windows
  unchanged_windows-IsUnchanged hash previous =
      elim (Bool-cases
        (text_eq previous.schema_hash hash && leb previous.last_seq (last_seq_of records))) [
          | inl e ↦ rw e (
              kept_entries-IsUnchanged previous previous.windows [] (All-Among previous.windows) tt)
          | inr e ↦ rw e tt
        ]
