-- ===== src/Journal/Numbered.antt =====
-- hub/journal.py: the sequence numbers of a `JournalWriter`.
use qkt_data_hub.Prelude.{
  ℕ, ◌≤◌, ◌≡◌, ap, Option, none, some, List, [], ◌∷◌, ok, err, store_error, max, All, All-imp,
  All-at, All-Among, Among, Among-keep, Among-map, arith, inl, inr, Option-cases, >>=-eq-ok, ok_inj,
}
use qkt_data_hub.Prelude.Sort.{Among-sort_by}
use qkt_data_hub.Prelude.Text.{Text, text_eq, text_eq_iff, text_ord}
use qkt_data_hub.Prelude.Dict.{text_key, pair_key}
use qkt_data_hub.Journal.{Files, lines, list_day_files}
use qkt_data_hub.Journal.Writer.{top_of_line, top_of_lines, top_of_files, resume_seq, last_seq_of}

module _ (seq_of : Text → Option ℕ) where
  -- no line of the text has a number above `top`
  abbrev pub AtMost : ℕ → Text → Type 0
  AtMost top s = All (λ line. (n : ℕ) → seq_of line ≡ some n → n ≤ top) (lines s)

  -- no line on disk of the dataset has a number above `top`
  abbrev pub Below : ℕ → Text → Files → Type 0
  Below top dataset files = All (λ e. e.0.0 ≡ dataset → AtMost top e.1) files

  top_of_lines-le :
      (ls : List Text) (top m : ℕ)
      → top_of_lines seq_of top ls ≡ ok m
      → (top ≤ m) × All (λ line. (n : ℕ) → seq_of line ≡ some n → n ≤ m) ls
  unfolding top_of_lines top_of_line
  top_of_lines-le [] top m h = let e : top ≡ m = ok_inj h in (omega arith, tt)
  top_of_lines-le (line ∷ ls) top m h = elim (Option-cases (seq_of line)) [
    | inl e ↦ let bad : err store_error ≡ ok m = rw e at h in cc
    | inr (k, e) ↦
        let found : top_of_lines seq_of (max top k) ls ≡ ok m = rw e at h in
        let (up, rest) = top_of_lines-le ls (max top k) m found in
        (omega arith, ((λ n p. let same : n ≡ k = cc in omega arith), rest))
  ]

  top_of_files-le :
      (files : List (Text × Text)) (top m : ℕ)
      → top_of_files seq_of top files ≡ ok m
      → (top ≤ m) × All (λ e. AtMost m e.1) files
  unfolding top_of_files
  top_of_files-le [] top m h = let e : top ≡ m = ok_inj h in (omega arith, tt)
  top_of_files-le (file ∷ files) top m h =
      let (n, p, q) = >>=-eq-ok (top_of_lines seq_of top (lines file.1)) _ h in
      let (up, own) = top_of_lines-le (lines file.1) top n p in
      let (further, rest) = top_of_files-le files n m q in
      (
        omega arith,
        (All-imp _ _ (lines file.1) (λ line bound k e. let b = bound k e in omega arith) own, rest),
      )

  -- What `_resume_seq` finds is at or above every number on disk of the dataset.
  pub resume_seq-Below :
      (dataset : Text) (files : Files) (top : ℕ)
      → resume_seq seq_of dataset files ≡ ok top
      → Below top dataset files
  unfolding resume_seq list_day_files
  resume_seq-Below dataset files top h =
      All-imp (λ e. Among e files) (λ e. e.0.0 ≡ dataset → AtMost top e.1) files
        (λ e among same.
          All-at (λ f. AtMost top f.1) (list_day_files dataset files) (e.0.1, e.1)
            (top_of_files-le (list_day_files dataset files) 0 top h).1
            (Among-sort_by (λ f. f.0) (e.0.1, e.1) _
              (Among-map (λ f. (f.0.1, f.1)) _ e
                (Among-keep (λ f. text_eq f.0.0 dataset) files e among
                  ((text_eq_iff e.0.0 dataset).1 same)))))
        (All-Among files)

  pub last_seq_of-Below :
      (dataset : Text) (files : Files) (o : Option ℕ) (top : ℕ)
      → ((n : ℕ) → o ≡ some n → Below n dataset files)
      → last_seq_of seq_of dataset files o ≡ ok top
      → Below top dataset files
  unfolding last_seq_of
  last_seq_of-Below dataset files none top w h = resume_seq-Below dataset files top h
  last_seq_of-Below dataset files (some n) top w h = w top (ap some (ok_inj h))
