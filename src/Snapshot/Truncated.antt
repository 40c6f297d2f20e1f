-- ===== src/Snapshot/Truncated.antt =====
-- A snapshot file that lost its end is refused by `decode` of hubread/snapshot.py.
use qkt_data_hub.Prelude.{
  ℕ, zero, suc, ◌≡◌, refl, ap, Bool, true, false, not, [], ◌∷◌, ◌++◌, Option, none, some, Result,
  ok, err, require, store_error, length, take, drop, take-append_short, ◌≤◌, ltb, length-append,
  Bool-cases, inl, inr, arith,
}
use qkt_data_hub.Prelude.Int.{pos_part}
use qkt_data_hub.Schema.{or_raise}
use qkt_data_hub.Snapshot.Utf8.{Bytes, decode_text}
use qkt_data_hub.Snapshot.Words.{Format, byte, int32, size, unpack}
use qkt_data_hub.Snapshot.Cursor.{
  Cursor, Reading, given, checked, after_read, ◌>>=◌, take_bytes, value, string, is_negative,
}
use qkt_data_hub.Snapshot.Encode.{version}
use qkt_data_hub.Snapshot.Decode.{
  same_int, strings, read_dictionary, read_fields, read_header, type_of_code,
}

-- the error, if any, is `StoreError`
abbrev pub Refuses : {A : Type 0} → Result A → Type 0
Refuses (err e) = e ≡ store_error
Refuses (ok a) = Unit

-- the same place in a buffer that goes on
abbrev longer : Bytes → Cursor → Cursor
longer more at = record { unread = at.unread ++ more; offset = at.offset }

abbrev grown : {A : Type 0} → Bytes → Result (A × Cursor) → Result (A × Cursor)
grown more (err e) = err e
grown more (ok (a, at)) = ok (a, longer more at)

-- A read that succeeds does so whatever follows, and one that fails raises `StoreError`.
pub record IsSteady {A : Type 0} (read : Reading A) : Type 0 where
  pub extends :
      (at : Cursor) (more : Bytes) {x : A × Cursor}
      → read at ≡ ok x
      → read (longer more at) ≡ ok (x.0, longer more x.1)
  pub refuses : (at : Cursor) → Refuses (read at)

after_read-eq_ok :
    {A B : Type 0} (next : A → Reading B) (r : Result (A × Cursor)) {x : B × Cursor}
    → after_read next r ≡ ok x
    → (a : A) × (p : Cursor) × (r ≡ ok (a, p)) × (next a p ≡ ok x)
after_read-eq_ok next (err e) h = cc
after_read-eq_ok next (ok (a, p)) h = (a, p, refl, h)

after_read-Refuses :
    {A B : Type 0} (next : A → Reading B) (r : Result (A × Cursor))
    → Refuses r
    → ((a : A) (p : Cursor) → Refuses (next a p))
    → Refuses (after_read next r)
after_read-Refuses next (err e) h k = h
after_read-Refuses next (ok (a, p)) h k = k a p

given-IsSteady : {A : Type 0} (a : A) → IsSteady (given a)
given-IsSteady a = record { extends = λ at more h. ap (grown more) h; refuses = λ at. tt }

checked-IsSteady : {A : Type 0} (r : Result A) → Refuses r → IsSteady (checked r)
checked-IsSteady (err e) h = record { extends = λ at more p. cc; refuses = λ at. h }
checked-IsSteady (ok a) h = given-IsSteady a

bind-IsSteady :
    {A B : Type 0} {read : Reading A} {next : A → Reading B}
    → IsSteady read
    → ((a : A) → IsSteady (next a))
    → IsSteady (read >>= next)
unfolding ◌>>=◌
bind-IsSteady {read} {next} h k = record {
  extends = λ at more e.
      let (a, p, r, s) = after_read-eq_ok next (read at) e in
      rw (h.extends at more r) ((k a).extends p more s);
  refuses = λ at. after_read-Refuses next (read at) (h.refuses at) (λ a p. (k a).refuses p);
}

take-longer : (n : ℕ) (xs ys : Bytes) → n ≤ length xs → take n (xs ++ ys) ≡ take n xs
take-longer n xs ys h = take-append_short n xs ys h

drop-longer : (n : ℕ) (xs ys : Bytes) → n ≤ length xs → drop n (xs ++ ys) ≡ drop n xs ++ ys
drop-longer zero xs ys h = refl
drop-longer (suc n) [] ys h = absurd (omega arith)
drop-longer (suc n) (x ∷ xs) ys h = drop-longer n xs ys (omega arith)

take_bytes-IsSteady : (n : ℕ) → IsSteady (take_bytes n)
unfolding take_bytes
take_bytes-IsSteady n = record {
  extends = λ at more h. elim (Bool-cases (ltb (length at.unread) n)) [
    | inl short ↦ cc (rw short at h)
    | inr enough ↦
        let le : n ≤ length at.unread = ground arith in
        let still : ltb (length (at.unread ++ more)) n ≡ false =
          ground (arith, length-append at.unread more) in
        rw (still, take-longer n at.unread more le, drop-longer n at.unread more le)
          (ap (grown more) (rw enough at h))
  ];
  refuses = λ at. elim (Bool-cases (ltb (length at.unread) n)) [
    | inl short ↦ rw short refl
    | inr enough ↦ rw enough tt
  ];
}

value-IsSteady : (f : Format) → IsSteady (value f)
unfolding value
value-IsSteady f =
    bind-IsSteady (take_bytes-IsSteady (size f)) (λ bytes. given-IsSteady (unpack f bytes))

require-Refuses : (b : Bool) → Refuses (require b store_error)
require-Refuses true = tt
require-Refuses false = refl

or_raise-Refuses : {A : Type 0} (o : Option A) → Refuses (or_raise store_error o)
unfolding or_raise
or_raise-Refuses none = refl
or_raise-Refuses (some a) = tt

string-IsSteady : IsSteady string
unfolding string
string-IsSteady = bind-IsSteady (value-IsSteady int32) λ n.
    bind-IsSteady (checked-IsSteady _ (require-Refuses (not (is_negative n)))) λ u.
      bind-IsSteady (take_bytes-IsSteady (pos_part n))
        λ bytes. checked-IsSteady _ (or_raise-Refuses (decode_text bytes))

strings-IsSteady : (n : ℕ) → IsSteady (strings n)
unfolding strings
strings-IsSteady zero = given-IsSteady []
strings-IsSteady (suc n) =
    bind-IsSteady string-IsSteady
      λ s. bind-IsSteady (strings-IsSteady n) λ l. given-IsSteady (s ∷ l)

read_dictionary-IsSteady : IsSteady read_dictionary
unfolding read_dictionary
read_dictionary-IsSteady = bind-IsSteady (value-IsSteady int32) λ n. strings-IsSteady (pos_part n)

read_fields-IsSteady : (n : ℕ) → IsSteady (read_fields n)
unfolding read_fields
read_fields-IsSteady zero = given-IsSteady []
read_fields-IsSteady (suc n) = bind-IsSteady string-IsSteady λ name.
    bind-IsSteady (value-IsSteady byte) λ code.
      bind-IsSteady (checked-IsSteady _ (or_raise-Refuses (type_of_code code))) λ type.
        bind-IsSteady string-IsSteady
          λ unit. bind-IsSteady (read_fields-IsSteady n) λ fields. given-IsSteady _

pub read_header-IsSteady : IsSteady read_header
unfolding read_header
read_header-IsSteady = bind-IsSteady (take_bytes-IsSteady 4) λ start.
    bind-IsSteady (value-IsSteady int32) λ found.
      bind-IsSteady (checked-IsSteady _ (require-Refuses (same_int found version))) λ u1.
        bind-IsSteady (take_bytes-IsSteady 32) λ schema_hash.
          bind-IsSteady string-IsSteady λ dataset. bind-IsSteady (value-IsSteady int32) λ count.
            bind-IsSteady (value-IsSteady int32) λ field_count.
              bind-IsSteady (value-IsSteady int32) λ scale.
                bind-IsSteady (checked-IsSteady _ (require-Refuses _)) λ u2.
                  bind-IsSteady (read_fields-IsSteady (pos_part field_count)) λ fields.
                    bind-IsSteady read_dictionary-IsSteady λ d1.
                      bind-IsSteady read_dictionary-IsSteady λ d2.
                        bind-IsSteady read_dictionary-IsSteady λ d3.
                          bind-IsSteady read_dictionary-IsSteady λ d4.
                            bind-IsSteady read_dictionary-IsSteady
                              λ d5. bind-IsSteady read_dictionary-IsSteady λ d6. given-IsSteady _
