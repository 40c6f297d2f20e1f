-- ===== src/Tests/Files.antt =====
-- The journal on concrete files: an append, a repair, the pool of open files, and a tail.
use qkt_data_hub.Prelude.{
  sym, ap, ◌∙◌, ok_inj, ℕ, ◌+◌, ◌-◌, ◌*◌, ◌≤◌, ◌≡◌, refl, true, false, none, some, Option, List, [],
  ◌∷◌, ◌++◌, ok, err, Result, length, Bool, ◌&&◌, ◌==◌, drop, if◌then◌else◌, arith, ltb,
}
use qkt_data_hub.Prelude.Text.{text_lt, Text, codes}
use mathlib.Core.List.{flat_map, map}
use qkt_data_hub.Prelude.Dict.{lookup}
use qkt_data_hub.Record.Checks.{post_init}
use qkt_data_hub.Record.Names.{matches_dataset, elem, domain, matches_scope, matches_field_name}
use qkt_data_hub.Record.Stamp.{with_id, compute_id}
use qkt_data_hub.Record.{Record}
use qkt_data_hub.Record.Line.{to_json, to_json-IsOneLine}
use qkt_data_hub.Record.Json.OneLine.{IsOneLine}
use qkt_data_hub.Journal.{Files, newline}
use qkt_data_hub.Journal.Writer.{
  Writer, Disk, append, open_writer, repair_tail, fd_for, max_open_journal_fds,
}
use qkt_data_hub.Journal.Repaired.{IsRepaired, repair_tail-IsRepaired}
use qkt_data_hub.Snapshot.Utf8.{Bytes, encode_text}
use qkt_data_hub.Journal.Open.{fd_for-bounded}
use qkt_data_hub.Journal.Appended.{Appends, append-Appends, open_writer-AllWhole}
use qkt_data_hub.Journal.Tail.{poll, follow}
use qkt_data_hub.Tests.Samples.{first, plain}

abbrev starts_with : Text → Text → Bool
starts_with [] s = true
starts_with (c ∷ p) [] = false
starts_with (c ∷ p) (d ∷ s) = c == d && starts_with p s

-- the digits before a comma or a brace
abbrev number_at : ℕ → Text → ℕ
number_at n [] = n
number_at n (c ∷ s) = let rest = number_at (10 * n + (c - 48)) s in if ltb c 48 then n else rest

-- the number that stands after "seq":
abbrev scan_seq : Text → Option ℕ
scan_seq [] = none
scan_seq (c ∷ s) =
    let rest = scan_seq s in
    if starts_with (codes "\"seq\":") (c ∷ s) then some (number_at 0 (drop 5 s)) else rest

abbrev cal_file : Text × Text
cal_file = (codes "cal.us", codes "2001-09-09")

-- one whole line and a fragment
abbrev torn : Disk
torn = record {
  files = (cal_file, codes "{\"seq\":7}" ++ newline ∷ codes "{\"se") ∷ [];
  quarantine = [];
}

repair_tail-IsRepaired_example :
    IsRepaired cal_file
      (codes "{}" ++ newline ∷ codes "{\"")
      (repair_tail cal_file (codes "{}" ++ newline ∷ codes "{\"")).0
      (repair_tail cal_file (codes "{}" ++ newline ∷ codes "{\"")).1
repair_tail-IsRepaired_example =
    repair_tail-IsRepaired cal_file (codes "{}" ++ newline ∷ codes "{\"")

fd_for-bounded_example :
    ((older : List (Text × Text)) × (fd_for cal_file [] ≡ older ++ cal_file ∷ []))
    × (length (fd_for cal_file []) ≤ max_open_journal_fds)
fd_for-bounded_example = fd_for-bounded cal_file [] (omega arith)

to_json-IsOneLine_example : IsOneLine (to_json plain first)
to_json-IsOneLine_example = to_json-IsOneLine plain first

abbrev opened : Writer × Disk
opened = open_writer torn

abbrev appended : Result (Record × (Writer × Disk))
appended = append scan_seq plain first opened.0 opened.1

abbrev result_of : Result (Record × (Writer × Disk)) → Record × (Writer × Disk)
result_of (err e) = (first, opened)
result_of (ok out) = out

appended_ok : appended ≡ ok (result_of appended)
unfolding append open_writer lookup post_init matches_dataset elem domain matches_scope
    matches_field_name with_id flat_map compute_id
appended_ok = refl

abbrev ascii : Text
ascii = to_json plain (result_of appended).0

appended_bytes : encode_text ascii ≡ ok ascii
unfolding append open_writer lookup post_init matches_dataset elem domain matches_scope
    matches_field_name to_json with_id flat_map compute_id encode_text
appended_bytes = refl

appended_seq : scan_seq ascii ≡ some (result_of appended).0.seq
unfolding append open_writer lookup post_init matches_dataset elem domain matches_scope
    matches_field_name to_json with_id flat_map compute_id
appended_seq = refl

appended_law :
    (line : Bytes) → encode_text ascii ≡ ok line → scan_seq line ≡ some (result_of appended).0.seq
appended_law line e = ap scan_seq (sym (ok_inj (sym appended_bytes ∙ e))) ∙ appended_seq

append-Appends_example : Appends scan_seq plain first opened.0 opened.1 (result_of appended)
append-Appends_example =
    append-Appends scan_seq plain first opened.0 opened.1 (result_of appended) appended_law
      (open_writer-AllWhole scan_seq plain torn).0 (open_writer-AllWhole scan_seq plain torn).1
      appended_ok

-- a reader of lines that hold a number alone
abbrev numbered_record : ℕ → Record
numbered_record n = record first { seq = n }

abbrev read_number_line : Text → Option Record
read_number_line line = some (numbered_record (number_at 0 line))

abbrev one_day : Files
one_day = (cal_file, codes "4" ++ newline ∷ []) ∷ []

abbrev next_day_too : Files
next_day_too =
    (cal_file, codes "4" ++ newline ∷ codes "6" ++ newline ∷ [])
    ∷ ((codes "cal.us", codes "2001-09-10"), codes "5" ++ newline ∷ codes "9" ++ newline ∷ [])
    ∷ []

-- A backfill wrote the older day after the newer one, so its numbers are higher.
abbrev backfilled : Files
backfilled =
    (cal_file, codes "10" ++ newline ∷ [])
    ∷ ((codes "cal.us", codes "2001-09-10"), codes "1" ++ newline ∷ codes "2" ++ newline ∷ [])
    ∷ []

-- A tail from the start delivers the older day's record and drops those of the newer one.
poll-drops_newer :
    map (λ r. r.seq) (poll read_number_line (codes "cal.us") backfilled (follow 0)).1 ≡ 10 ∷ []
unfolding poll text_lt lookup
poll-drops_newer = refl
