-- ===== src/Journal/Open.antt =====
-- hub/journal.py: the pool of open files of a `JournalWriter`.
use qkt_data_hub.Prelude.{
  ◌≤◌, ◌<◌, ◌≡◌, refl, true, not, List, [], ◌∷◌, ◌++◌, drop, length, length-append, length-drop,
  length-keep, leb, arith, inl, inr, Bool-cases,
}
use qkt_data_hub.Prelude.Text.{Text}
use qkt_data_hub.Prelude.Dict.{pair_eq, text_key}
use qkt_data_hub.Journal.Writer.{max_open_journal_fds, without, is_open, fd_for}

length-without :
    (path : Text × Text) (fds : List (Text × Text))
    → is_open path fds ≡ true
    → length (without path fds) < length fds
length-without path [] h = cc
length-without path (f ∷ fds) h = elim (Bool-cases (pair_eq f path)) [
  | inl e ↦ rw e (let l = length-keep (λ g. not (pair_eq g path)) fds in omega arith)
  | inr e ↦ rw e (let l = length-without path fds (rw e at h) in omega arith)
]

-- The file that is asked for is the most recently used one, and no more than 128 stay open.
pub fd_for-bounded :
    (path : Text × Text) (fds : List (Text × Text))
    → length fds ≤ max_open_journal_fds
    → ((older : List (Text × Text)) × (fd_for path fds ≡ older ++ path ∷ []))
      × (length (fd_for path fds) ≤ max_open_journal_fds)
unfolding fd_for
fd_for-bounded path fds h = elim (Bool-cases (is_open path fds)) [
  | inl hit ↦ rw hit (
    (without path fds, refl),
    (let l = length-without path fds hit in rw length-append (omega arith)),
  )
  | inr miss ↦ elim (Bool-cases (leb max_open_journal_fds (length fds))) [
    | inl full ↦
        rw (miss, full)
          ((drop 1 fds, refl), rw length-append (let l = length-drop 1 fds in omega arith))
    | inr space ↦ rw (miss, space) ((fds, refl), rw length-append (ground arith))
  ]
]
