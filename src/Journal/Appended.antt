-- ===== src/Journal/Appended.antt =====
-- hub/journal.py: `append` numbers a record above every record on disk of its dataset.
use mathlib.Core.List.{append_assoc}
use mathlib.Core.Path.{subst}
use qkt_data_hub.Prelude.{
  ℕ, suc, ◌≤◌, ◌≡◌, refl, sym, ap, ◌∙◌, true, false, not, Option, some, [], ◌∷◌, ◌++◌, ok, require,
  store_error, All, All-append, All-imp, arith, inl, inr, Bool-cases, Option-cases, >>=-eq-ok,
  ok_inj,
}
use qkt_data_hub.Prelude.Text.{Text, text_eq, text_eq_iff}
use qkt_data_hub.Prelude.Dict.{lookup, lookup-insert, text_key, pair_key, All-insert, All-lookup}
use qkt_data_hub.Calendar.{day_str}
use qkt_data_hub.Record.{Record}
use qkt_data_hub.Record.Stamp.{create, with_id, create-eq_ok}
use qkt_data_hub.Record.Line.{to_json, to_json-cons, to_json-IsOneLine}
use qkt_data_hub.Record.Json.OneLine.{IsOneLine}
use qkt_data_hub.Snapshot.Utf8.{Bytes, encode_text}
use qkt_data_hub.Journal.Encoded.{encode_text-IsOneLine, encode_text-ascii, encode_text-newline}
use qkt_data_hub.Journal.{Files, newline, lines, split_lines}
use qkt_data_hub.Journal.Repaired.{repair_files-IsWhole}
use qkt_data_hub.Journal.Lines.{IsWhole, lines-add}
use qkt_data_hub.Journal.Writer.{
  Writer, Disk, content, open_writer, repair_torn_tails, write, store, last_seq_of, next_seq,
  append, line_of,
}
use qkt_data_hub.Journal.Numbered.{AtMost, Below, last_seq_of-Below}

abbrev pub AllWhole : Files → Type 0
AllWhole files = All (λ e. IsWhole e.1) files

content-IsWhole :
    (path : Text × Text) (files : Files) → AllWhole files → IsWhole (content (lookup path files))
content-IsWhole path files w = elim (Option-cases (lookup path files)) [
  | inl e ↦ rw e (inl refl)
  | inr (bytes, e) ↦ rw e (All-lookup (λ e. IsWhole e.1) path files w e)
]

module _ (seq_of : Text → Option ℕ) (sha256 : Text → Text) where
  -- Every cached number is at or above all on disk of its dataset.
  abbrev pub Numbered : Writer → Files → Type 0
  Numbered w files = (d : Text) (n : ℕ) → lookup d w.seq ≡ some n → Below seq_of n d files

  content-AtMost :
      (n : ℕ) (dataset day : Text) (files : Files)
      → Below seq_of n dataset files
      → AtMost seq_of n (content (lookup (dataset, day) files))
  unfolding lines split_lines text_eq
  content-AtMost n dataset day files b = elim (Option-cases (lookup (dataset, day) files)) [
    | inl e ↦ rw e tt
    | inr (bytes, e) ↦
        rw e (All-lookup (λ f. f.0.0 ≡ dataset → AtMost seq_of n f.1) (dataset, day) files b e refl)
  ]

  write-Below :
      (n : ℕ) (dataset day : Text) (c : ℕ) (line : Bytes) (k : ℕ) (files : Files)
      → IsOneLine (c ∷ line)
      → seq_of (c ∷ line) ≡ some k
      → k ≤ n
      → AllWhole files
      → Below seq_of n dataset files
      → Below seq_of n dataset (write (dataset, day) ((c ∷ line) ++ newline ∷ []) files)
  unfolding write
  write-Below n dataset day c line k files one law le w b =
      let old = content (lookup (dataset, day) files) in
      All-insert (λ f. f.0.0 ≡ dataset → AtMost seq_of n f.1) (dataset, day) _ files
        (λ same. rw (lines-add old c line (content-IsWhole _ files w) one) (
          All-append (λ line. (k : ℕ) → seq_of line ≡ some k → k ≤ n) (lines old) _
            (content-AtMost n dataset day files b)
            ((λ j e. let same : k ≡ j = cc in omega arith), tt)))
        b

  write-Below_other :
      (n : ℕ) (dataset other day : Text) (line : Bytes) (files : Files)
      → text_eq other dataset ≡ false
      → Below seq_of n dataset files
      → Below seq_of n dataset (write (other, day) line files)
  unfolding write
  write-Below_other n dataset other day line files ne b =
      All-insert (λ f. f.0.0 ≡ dataset → AtMost seq_of n f.1) (other, day) _ files
        (λ same. let yes : text_eq other dataset ≡ true = (text_eq_iff other dataset).1 same in cc)
        b

  -- what `append` promises: the stamped record has the next number after `seq`, which no record on
  -- disk of its dataset exceeds, and the new state can be appended to again
  pub record Appends (r : Record) (w : Writer) (disk : Disk) (out : Record × (Writer × Disk))
      : Type 0 where
    pub seq : ℕ
    pub above : Below seq_of seq r.dataset disk.files
    pub next : out.0 ≡ with_id sha256 (record r { seq = suc seq })
    pub numbered : Numbered out.1.0 out.1.1.files
    pub whole : AllWhole out.1.1.files

  Below-le :
      (n k : ℕ) (dataset : Text) (files : Files)
      → n ≤ k
      → Below seq_of n dataset files
      → Below seq_of k dataset files
  Below-le n k dataset files le = All-imp _ _ files λ e bound same.
      All-imp _ _ (lines e.1) (λ line b m p. let l = b m p in omega arith) (bound same)

  abbrev stamp : Record → ℕ → Record
  stamp r n = with_id sha256 (record r { seq = suc n })

  append-eq_ok :
      (r : Record) (w : Writer) (disk : Disk) (out : Record × (Writer × Disk))
      → append seq_of sha256 r w disk ≡ ok out
      → (n : ℕ) × (line : Bytes) × (last_seq_of seq_of r.dataset disk.files (lookup r.dataset w.seq)
          ≡ ok n)
        × (encode_text (to_json sha256 (stamp r n)) ≡ ok line)
        × (out ≡ store seq_of sha256 w disk (suc n) (stamp r n) (line ++ newline ∷ []))
  unfolding append next_seq
  append-eq_ok r w disk out h =
      let (u, is_open, h1) = >>=-eq-ok (require (not w.closed) store_error) _ h in
      let (seq, numbered, h2) = >>=-eq-ok (next_seq seq_of w disk.files r.dataset) _ h1 in
      let (n, found, is_next) =
        >>=-eq-ok (last_seq_of seq_of r.dataset disk.files (lookup r.dataset w.seq)) _ numbered in
      let (stamped, made, h3) = >>=-eq-ok (create sha256 (record r { seq = seq })) _ h2 in
      let (whole, encoded, h4) = >>=-eq-ok (encode_text (line_of seq_of sha256 stamped)) _ h3 in
      let (line, one, ends) = encode_text-newline (to_json sha256 stamped) encoded in
      let is_stamp : stamped ≡ stamp r n =
        create-eq_ok sha256 (record r { seq = seq }) made
        ∙ ap (λ k. with_id sha256 (record r { seq = k })) (sym (ok_inj is_next)) in
      (
        n,
        line,
        found,
        ap (λ x. encode_text (to_json sha256 x)) (sym is_stamp) ∙ one,
        sym (ok_inj h4)
            ∙ ap (store seq_of sha256 w disk seq stamped) ends
            ∙ ap (λ k. store seq_of sha256 w disk k stamped (line ++ newline ∷ []))
                (sym (ok_inj is_next))
            ∙ ap (λ x. store seq_of sha256 w disk (suc n) x (line ++ newline ∷ [])) is_stamp,
      )

  -- the bytes of a record's line begin with a brace, and hold no newline
  line-IsOneLine :
      (r : Record) (line : Bytes)
      → encode_text (to_json sha256 r) ≡ ok line
      → (rest : Bytes) × (line ≡ b'{' ∷ rest) × IsOneLine (b'{' ∷ rest)
  line-IsOneLine r line e =
      let one = encode_text-IsOneLine (to_json sha256 r) (to_json-IsOneLine sha256 r) e in
      let (after, starts) = to_json-cons sha256 r in
      let (rest, is_rest) =
        encode_text-ascii b'{' after (omega arith) (ap encode_text (sym starts) ∙ e) in
      (rest, is_rest, subst IsOneLine is_rest one)

  store-Numbered :
      (stamped : Record) (c : ℕ) (line : Bytes) (w : Writer) (disk : Disk) (n : ℕ)
      → IsOneLine (c ∷ line)
      → seq_of (c ∷ line) ≡ some (suc n)
      → Numbered w disk.files
      → AllWhole disk.files
      → Below seq_of n stamped.dataset disk.files
      → let out = store seq_of sha256 w disk (suc n) stamped ((c ∷ line) ++ newline ∷ []) in
        Numbered out.1.0 out.1.1.files
  unfolding store
  store-Numbered r c line w disk n one law numbered whole b d k e =
      let bytes = (c ∷ line) ++ newline ∷ [] in
      elim (Bool-cases (text_eq r.dataset d)) [
        | inl same ↦
            let at_end : some (suc n) ≡ some k =
              rw (lookup-insert r.dataset d (suc n) w.seq, same) at e in
            let is_k : suc n ≡ k = cc in
            subst (λ x. Below seq_of k x (write (r.dataset, day_str r.known_at) bytes disk.files))
              ((text_eq_iff r.dataset d).0 same)
              (write-Below k r.dataset (day_str r.known_at) c line (suc n) disk.files one law
                (omega arith) whole (Below-le n k r.dataset disk.files (omega arith) b))
        | inr other ↦
            let cached : lookup d w.seq ≡ some k =
              rw (lookup-insert r.dataset d (suc n) w.seq, other) at e in
            write-Below_other k d r.dataset (day_str r.known_at) bytes disk.files other
              (numbered d k cached)
      ]

  store-AllWhole :
      (stamped : Record) (line : Bytes) (w : Writer) (disk : Disk) (n : ℕ)
      → AllWhole disk.files
      → AllWhole (store seq_of sha256 w disk n stamped (line ++ newline ∷ [])).1.1.files
  unfolding store write
  store-AllWhole r line w disk n whole =
      let path : Text × Text = (r.dataset, day_str r.known_at) in
      let old = content (lookup path disk.files) in
      All-insert (λ f. IsWhole f.1) path _ disk.files
        (inr (old ++ line, sym (append_assoc old line (newline ∷ [])))) whole

  -- On a writer whose cached numbers are right and files of whole lines, and where `json.loads` reads
  -- back the number of the record from the bytes that are written, `append` numbers the record above all
  -- on disk of its dataset, and leaves such a writer and such files.
  pub append-Appends :
      (r : Record) (w : Writer) (disk : Disk) (out : Record × (Writer × Disk))
      → ((line : Bytes)
          → encode_text (to_json sha256 out.0) ≡ ok line
          → seq_of line ≡ some out.0.seq)
      → Numbered w disk.files
      → AllWhole disk.files
      → append seq_of sha256 r w disk ≡ ok out
      → Appends r w disk out
  unfolding store with_id
  append-Appends r w disk out law numbered whole h =
      let (n, line, found, encoded, e) = append-eq_ok r w disk out h in
      let above =
        last_seq_of-Below seq_of r.dataset disk.files (lookup r.dataset w.seq) n
          (numbered r.dataset) found in
      let is_out : out.0 ≡ stamp r n = ap (λ o. o.0) e in
      let read : seq_of line ≡ some (suc n) =
        law line (ap (λ x. encode_text (to_json sha256 x)) is_out ∙ encoded)
        ∙ ap (λ x. some x.seq) is_out in
      let (rest, is_line, one) = line-IsOneLine (stamp r n) line encoded in
      let e_line =
        e ∙ ap (λ l. store seq_of sha256 w disk (suc n) (stamp r n) (l ++ newline ∷ [])) is_line in
      rw e_line (record {
        seq = n;
        above = above;
        next = refl;
        numbered =
            store-Numbered (stamp r n) b'{' rest w disk n one (ap seq_of (sym is_line) ∙ read)
              numbered whole above;
        whole = store-AllWhole (stamp r n) (b'{' ∷ rest) w disk (suc n) whole;
      })

  -- A writer that was just opened has such numbers and such files, whatever was on disk.
  pub open_writer-AllWhole :
      (disk : Disk)
      → Numbered (open_writer disk).0 (open_writer disk).1.files
        × AllWhole (open_writer disk).1.files
  unfolding open_writer repair_torn_tails lookup
  open_writer-AllWhole disk = ((λ d n e. cc), repair_files-IsWhole disk.files)
