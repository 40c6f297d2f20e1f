-- ===== src/Snapshot/Restores.antt =====
-- A write of hub/snapshot.py and a read of hubread/snapshot.py that fit together, and how such pairs
-- compose along a snapshot.
pub mod Words
pub mod Header
pub mod Columns
pub mod Rows
pub mod Records
use qkt_data_hub.Prelude.{
  ℕ, zero, suc, ◌+◌, ◌-◌, ◌*◌, ◌≤◌, ◌≡◌, refl, sym, ap, ◌∙◌, Bool, true, false, List, [], ◌∷◌, ◌++◌,
  Result, ok, err, >>=-eq-ok, ok_inj, length, take, drop, ltb, ◌==◌, length-append, arith,
}
use qkt_data_hub.Prelude.Int.{ℤ, pos, pos_part}
use qkt_data_hub.Prelude.Text.{Text}
use mathlib.Core.List.{append_assoc, append-nil}
use mathlib.Core.Path.{subst}
use qkt_data_hub.Schema.{or_raise}
use qkt_data_hub.Snapshot.Utf8.{Bytes, encode_text, decode_text, decode_text-encode_text}
use qkt_data_hub.Snapshot.Words.{Format, int32, size, pack, unpack, length-pack, unpack-pack}
use qkt_data_hub.Snapshot.Cursor.{
  Cursor, Reading, given, checked, ◌>>=◌, take_bytes, value, string, column, unpack_all,
}
use qkt_data_hub.Snapshot.Encode.{◌<+>◌, pack_str, pack_column}

-- The read takes these bytes from the front as `a`, and it leaves what follows.
abbrev pub Reads : {A : Type 0} → Reading A → Bytes → A → Type 0
Reads read bytes a =
    (rest : Bytes) (o : ℕ)
    → read (record { unread = bytes ++ rest; offset = o })
      ≡ ok (a, record { unread = rest; offset = o + length bytes })

-- Whatever the write puts down, the read takes as an `a` with `P a`.
abbrev pub Restores : {A : Type 0} → Result Bytes → Reading A → (A → Type 0) → Type 0
Restores {A} write read P =
    (bytes : Bytes) → write ≡ ok bytes → (a : A) × (P a) × (Reads read bytes a)

-- The read gives `a` back.
abbrev pub Returns : {A : Type 0} → Result Bytes → Reading A → A → Type 0
Returns write read a = Restores write read (λ b. b ≡ a)

Reads-bind :
    {A B : Type 0} (read : Reading A) (next : A → Reading B) (front back : Bytes) (a : A) (b : B)
    → Reads read front a
    → Reads (next a) back b
    → Reads (read >>= next) (front ++ back) b
unfolding ◌>>=◌
Reads-bind read next front back a b h k rest o =
    rw (append_assoc front back rest, h (back ++ rest) o)
      (k rest (o + length front)
        ∙ ap (λ n. ok (b, record { unread = rest; offset = n }))
            (omega (arith, length-append front back)))

pub Reads-given : {A : Type 0} (a : A) → Reads (given a) [] a
Reads-given a rest o = ap (λ n. ok (a, record { unread = rest; offset = n })) (omega arith)

module _ {A B : Type 0} {P : A → Type 0} (Q : B → Type 0) where
  pub Restores-bind :
      (write then : Result Bytes) (read : Reading A) (next : A → Reading B)
      → Restores write read P
      → ((a : A) → P a → Restores then (next a) Q)
      → Restores (write <+> then) (read >>= next) Q
  unfolding ◌<+>◌
  Restores-bind write then read next h k bytes e =
      let (front, p, q) = >>=-eq-ok write _ e in
      let (back, r, s) = >>=-eq-ok then _ q in
      let (a, pa, reads) = h front p in
      let (b, qb, reads_on) = k a pa back r in
      (
        b,
        qb,
        subst (λ bs. Reads (read >>= next) bs b) (ok_inj s)
            (Reads-bind read next front back a b reads reads_on),
      )

  -- the last write of a sequence, and what is made of it
  pub Restores-map :
      (write : Result Bytes) (read : Reading A) (make : A → B)
      → Restores write read P
      → ((a : A) → P a → Q (make a))
      → Restores write (read >>= λ a. given (make a)) Q
  Restores-map write read make h k bytes e =
      let (a, pa, reads) = h bytes e in
      (
        make a,
        k a pa,
        subst (λ bs. Reads (read >>= λ a. given (make a)) bs (make a)) (append-nil bytes)
            (Reads-bind read (λ a. given (make a)) bytes [] a (make a) reads
              (Reads-given (make a))),
      )

module _ {A B : Type 0} (Q : B → Type 0) where
  -- a write whose value is known
  pub Restores-next :
      (write then : Result Bytes) (read : Reading A) (next : A → Reading B) (a : A)
      → Returns write read a
      → Restores then (next a) Q
      → Restores (write <+> then) (read >>= next) Q
  Restores-next write then read next a h k =
      Restores-bind Q write then read next h
        (λ b e. subst (λ x. Restores then (next x) Q) (sym e) k)

  pub Restores-checked :
      (then : Result Bytes) (check : Result A) (next : A → Reading B) (a : A)
      → check ≡ ok a
      → Restores then (next a) Q
      → Restores then (checked check >>= next) Q
  Restores-checked then check next a c k bytes e =
      let (b, qb, reads) = k bytes e in
      (
        b,
        qb,
        Reads-bind (checked check) next [] bytes a b
            (subst (λ x. Reads (checked x) [] a) (sym c) (Reads-given a)) reads,
      )

pub Restores-given : {A : Type 0} (P : A → Type 0) (a : A) → P a → Restores (ok []) (given a) P
Restores-given P a p bytes e = (a, p, subst (λ bs. Reads (given a) bs a) (ok_inj e) (Reads-given a))

-- the last write of a sequence, and a check of what it holds
pub Returns-checked :
    {A B : Type 0} (write : Result Bytes) (read : Reading A) (check : A → Result B) (a : A) (b : B)
    → Returns write read a
    → check a ≡ ok b
    → Returns write (read >>= λ x. checked (check x)) b
Returns-checked write read check a b h c bytes e =
    let (x, same, reads) = h bytes e in
    let taken = subst (λ y. Reads read bytes y) same reads in
    let made = subst (λ y. Reads (checked y) [] b) (sym c) (Reads-given b) in
    (
      b,
      refl,
      subst (λ bs. Reads (read >>= λ x. checked (check x)) bs b) (append-nil bytes)
          (Reads-bind read (λ x. checked (check x)) bytes [] a b taken made),
    )
