-- ===== src/Snapshot/Cursor.antt =====
-- `_Cursor` of hubread/snapshot.py: reads of a buffer that are checked against its end, and what it
-- means that a read gives back what a write put there.
use qkt_data_hub.Prelude.{
  ℕ, zero, suc, ◌+◌, ◌*◌, Bool, true, false, not, List, [], ◌∷◌, Result, ok, err, require,
  store_error, length, take, drop, ltb, if◌then◌else◌,
}
use qkt_data_hub.Prelude.Int.{ℤ, pos, negsuc, pos_part}
use qkt_data_hub.Prelude.Text.{Text}
use qkt_data_hub.Schema.{or_raise}
use qkt_data_hub.Snapshot.Utf8.{Bytes, decode_text}
use qkt_data_hub.Snapshot.Words.{Format, int32, size, unpack}

-- `unread` is data[offset:]
pub record Cursor : Type 0 where
  pub unread : Bytes
  pub offset : ℕ

abbrev pub Reading : Type 0 → Type 0
Reading A = Cursor → Result (A × Cursor)

abbrev pub given : {A : Type 0} → A → Reading A
given a at = ok (a, at)

-- a step that reads nothing but may raise
abbrev pub checked : {A : Type 0} → Result A → Reading A
checked (err e) at = err e
checked (ok a) at = ok (a, at)

abbrev pub after_read : {A B : Type 0} → (A → Reading B) → Result (A × Cursor) → Result (B × Cursor)
after_read next (err e) = err e
after_read next (ok (a, at)) = next a at

infixl 5 ◌>>=◌ ◌>>◌
unfoldable pub ◌>>=◌ : {A B : Type 0} → Reading A → (A → Reading B) → Reading B
(read >>= next) at = after_read next (read at)

abbrev pub ◌>>◌ : {B : Type 0} → Reading (Unit {0}) → Reading B → Reading B
check >> rest = check >>= λ u. rest

unfoldable pub take_bytes : ℕ → Reading Bytes
take_bytes n at =
    if ltb (length at.unread) n
    then err store_error
    else ok (take n at.unread, record { unread = drop n at.unread; offset = at.offset + n })

-- one value of a format: `i32` and `u8`
unfoldable pub value : Format → Reading ℤ
unfolding unpack
value f = do bytes ← take_bytes (size f); given (unpack f bytes)

abbrev pub is_negative : ℤ → Bool
is_negative (pos n) = false
is_negative (negsuc n) = true

-- `string`
unfoldable pub string : Reading Text
unfolding or_raise
string = do
  n ← value int32
  checked (require (not (is_negative n)) store_error)
  bytes ← take_bytes (pos_part n)
  checked (or_raise store_error (decode_text bytes))

unfoldable pub unpack_all : Format → ℕ → Bytes → List ℤ
unfolding unpack
unpack_all f zero bytes = []
unpack_all f (suc n) bytes = unpack f (take (size f) bytes) ∷ unpack_all f n (drop (size f) bytes)

-- `column`
unfoldable pub column : Format → ℕ → Reading (List ℤ)
unfolding unpack_all take_bytes
column f zero = given []
column f (suc n) = take_bytes (size f * suc n) >>= λ bytes. given (unpack_all f (suc n) bytes)
