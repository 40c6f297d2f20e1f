-- ===== src/Journal/Writer.antt =====
-- hub/journal.py: `JournalWriter`, the one process that appends to the journal. The lock on the root
-- is taken before a writer exists, so a `Writer` is one that holds it.
use qkt_data_hub.Prelude.{
  ℕ, suc, Bool, true, false, not, Option, none, some, List, [], ◌∷◌, ◌++◌, keep, Result, ok, err,
  ◌>>=◌, ◌>>◌, require, store_error, length, leb, if◌then◌else◌, max, drop,
}
use qkt_data_hub.Prelude.Text.{Text, codes}
use qkt_data_hub.Prelude.Dict.{Dict, lookup, insert, text_key, pair_key, pair_eq}
use qkt_data_hub.Snapshot.Utf8.{Bytes, encode_text}
use qkt_data_hub.Snapshot.Utf8.Replaced.{decode_replaced}
use qkt_data_hub.Calendar.{day_str}
use qkt_data_hub.Record.{Record}
use qkt_data_hub.Record.Stamp.{create}
use qkt_data_hub.Record.Line.{to_json}
use qkt_data_hub.Journal.{Files, newline, lines, split_tail, list_day_files}

abbrev pub max_open_journal_fds : ℕ
max_open_journal_fds = 128

-- An entry of the quarantine for a torn tail, under the dataset; the file is named by its dataset and its
-- day, as everywhere here.
pub record TornTail : Type 0 where
  pub dataset : Text
  pub file : Text × Text
  pub offset : ℕ
  pub discarded : Text
  pub reason : Text

-- what is on disk
pub record Disk : Type 0 where
  pub files : Files
  pub quarantine : List TornTail

-- `self._seq`, `self._fds` from the least recently used, and `self._closed`
pub record Writer : Type 0 where
  pub seq : Dict Text ℕ
  pub fds : List (Text × Text)
  pub closed : Bool

-- `_repair_tail` and `_quarantine_torn_tail` on the bytes of one file: what stays, and what is kept of the
-- rest, in which U+FFFD stands for bytes that are no character
unfoldable pub repair_tail : Text × Text → Bytes → Bytes × List TornTail
unfolding split_tail decode_replaced
repair_tail path bytes =
    let (good, discarded) = split_tail bytes in
    let torn : TornTail = record {
      dataset = path.0;
      file = path;
      offset = length good;
      discarded = decode_replaced discarded;
      reason = codes "torn_tail_on_writer_open";
    } in
    if leb 1 (length discarded) then (good, torn ∷ []) else (bytes, [])

unfoldable pub repair_files : Files → Files × List TornTail
unfolding repair_tail
repair_files [] = ([], [])
repair_files ((path, bytes) ∷ files) =
    let (kept, cut) = repair_tail path bytes in
    let (rest, cuts) = repair_files files in ((path, kept) ∷ rest, cut ++ cuts)

-- `_repair_torn_tails`
unfoldable pub repair_torn_tails : Disk → Disk
unfolding repair_files
repair_torn_tails disk =
    let (files, cuts) = repair_files disk.files in
    record { files = files; quarantine = disk.quarantine ++ cuts }

-- `__init__`
unfoldable pub open_writer : Disk → Writer × Disk
unfolding repair_torn_tails
open_writer disk = (record { seq = []; fds = []; closed = false }, repair_torn_tails disk)

abbrev pub without : Text × Text → List (Text × Text) → List (Text × Text)
without path fds = keep (λ f. not (pair_eq f path)) fds

abbrev pub is_open : Text × Text → List (Text × Text) → Bool
is_open path [] = false
is_open path (f ∷ fds) = if pair_eq f path then true else is_open path fds

-- `_fd_for`: a hit moves to the end; a miss goes there, and evicts the first where all are taken
unfoldable pub fd_for : Text × Text → List (Text × Text) → List (Text × Text)
fd_for path fds =
    if is_open path fds
    then without path fds ++ (path ∷ [])
    else if leb max_open_journal_fds (length fds)
    then drop 1 fds ++ (path ∷ [])
    else fds ++ (path ∷ [])

-- os.write with O_APPEND | O_CREAT
abbrev pub content : Option Text → Text
content none = []
content (some bytes) = bytes

unfoldable pub write : Text × Text → Text → Files → Files
write path line files = insert path (content (lookup path files) ++ line) files

-- `close`
unfoldable pub close : Writer → Writer
close w = if w.closed then w else record w { fds = []; closed = true }

-- `seq_of` reads `json.loads(line)["seq"]`, `none` where that raises
module _ (seq_of : Text → Option ℕ) where
  unfoldable pub top_of_line : ℕ → Option ℕ → Result ℕ
  top_of_line top none = err store_error
  top_of_line top (some n) = ok (max top n)

  unfoldable pub top_of_lines : ℕ → List Text → Result ℕ
  unfolding top_of_line
  top_of_lines top [] = ok top
  top_of_lines top (line ∷ rest) = top_of_line top (seq_of line) >>= λ n. top_of_lines n rest

  unfoldable pub top_of_files : ℕ → List (Text × Text) → Result ℕ
  unfolding top_of_lines lines
  top_of_files top [] = ok top
  top_of_files top (file ∷ rest) = top_of_lines top (lines file.1) >>= λ n. top_of_files n rest

  -- `_resume_seq`
  unfoldable pub resume_seq : Text → Files → Result ℕ
  unfolding top_of_files list_day_files
  resume_seq dataset files = top_of_files 0 (list_day_files dataset files)

  -- the last number of a dataset, from the cache or from the disk
  unfoldable pub last_seq_of : Text → Files → Option ℕ → Result ℕ
  unfolding resume_seq
  last_seq_of dataset files none = resume_seq dataset files
  last_seq_of dataset files (some n) = ok n

  -- `_next_seq`
  unfoldable pub next_seq : Writer → Files → Text → Result ℕ
  unfolding last_seq_of
  next_seq w files dataset = do n ← last_seq_of dataset files (lookup dataset w.seq); ok (suc n)

  module _ (sha256 : Text → Text) where
    abbrev pub line_of : Record → Text
    line_of r = to_json sha256 r ++ (newline ∷ [])

    -- the write of `append`, and what it notes
    unfoldable pub store : Writer → Disk → ℕ → Record → Bytes → Record × (Writer × Disk)
    unfolding day_str fd_for write
    store w disk seq stamped line =
        let path : Text × Text = (stamped.dataset, day_str stamped.known_at) in
        let noted : Writer = record w {
          seq = insert stamped.dataset seq w.seq;
          fds = fd_for path w.fds;
        } in
        let stored : Disk = record disk { files = write path line disk.files } in
        (stamped, (noted, stored))

    -- `append`: the stamped record, with the writer and the disk after it
    unfoldable pub append : Record → Writer → Disk → Result (Record × (Writer × Disk))
    unfolding next_seq create store to_json encode_text
    append r w disk = do
      require (not w.closed) store_error
      seq ← next_seq w disk.files r.dataset
      stamped ← create sha256 (record r { seq = seq })
      line ← encode_text (line_of stamped)
      ok (store w disk seq stamped line)
