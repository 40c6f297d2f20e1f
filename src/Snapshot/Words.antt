-- ===== src/Snapshot/Words.antt =====
-- Python's `struct` formats `<B`, `<i` and `<q`: little-endian, in two's complement where signed.
use qkt_data_hub.Prelude.{
  ℕ, zero, suc, ◌+◌, ◌-◌, ◌*◌, ◌/◌, ◌%◌, ◌<◌, ◌≡◌, refl, ap, ◌∙◌, Bool, true, false, [], ◌∷◌,
  Result, ok, ◌>>◌, require, struct_error, >>=-eq-ok, require-eq_ok, ok_inj, length, ltb,
  if◌then◌else◌, arith,
}
use qkt_data_hub.Prelude.Int.{ℤ, pos, negsuc}
use qkt_data_hub.Snapshot.Utf8.{Bytes}

pub data Format : Type 0 where
  byte int32 int64 : Format

-- struct.calcsize
abbrev pub size : Format → ℕ
size byte = 1
size int32 = 4
size int64 = 8

-- the bytes of `n`, lowest first
abbrev le_bytes : ℕ → ℕ → Bytes
le_bytes zero n = []
le_bytes (suc w) n = n % 256 ∷ le_bytes w (n / 256)

abbrev from_le : Bytes → ℕ
from_le [] = 0
from_le (b ∷ bytes) = b + 256 * from_le bytes

-- 256 to the power of a number of bytes
abbrev span : ℕ → ℕ
span zero = 1
span (suc w) = 256 * span w

unfoldable pub fits : Format → ℤ → Bool
fits byte (pos n) = ltb n 256
fits byte (negsuc n) = false
fits int32 (pos n) = ltb n 2_147_483_648
fits int32 (negsuc n) = ltb n 2_147_483_648
fits int64 (pos n) = ltb n 9_223_372_036_854_775_808
fits int64 (negsuc n) = ltb n 9_223_372_036_854_775_808

bit_pattern : Format → ℤ → ℕ
bit_pattern f (pos n) = n
bit_pattern f (negsuc n) = span (size f) - suc n

-- struct.pack of one value
unfoldable pub pack : Format → ℤ → Result Bytes
unfolding fits bit_pattern
pack f v = require (fits f v) struct_error >> ok (le_bytes (size f) (bit_pattern f v))

-- the value that a bit pattern stands for
signed : Format → ℕ → ℤ
signed byte w = pos w
signed int32 w = if ltb w 2_147_483_648 then pos w else negsuc (4_294_967_295 - w)
signed int64 w =
    if ltb w 9_223_372_036_854_775_808 then pos w else negsuc (18_446_744_073_709_551_615 - w)

-- struct.unpack of one value
unfoldable pub unpack : Format → Bytes → ℤ
unfolding signed
unpack f bytes = signed f (from_le bytes)

from_le-le_bytes : (w n : ℕ) → n < span w → from_le (le_bytes w n) ≡ n
from_le-le_bytes zero n h = omega arith
from_le-le_bytes (suc w) n h =
    ap (λ m. n % 256 + 256 * m) (from_le-le_bytes w (n / 256) (omega arith)) ∙ omega arith

bit_pattern-lt : (f : Format) (v : ℤ) → fits f v ≡ true → bit_pattern f v < span (size f)
unfolding fits bit_pattern
bit_pattern-lt byte (pos n) h = ground arith
bit_pattern-lt int32 (pos n) h = ground arith
bit_pattern-lt int64 (pos n) h = ground arith
bit_pattern-lt byte (negsuc n) h = ground arith
bit_pattern-lt int32 (negsuc n) h = ground arith
bit_pattern-lt int64 (negsuc n) h = ground arith

signed-bit_pattern : (f : Format) (v : ℤ) → fits f v ≡ true → signed f (bit_pattern f v) ≡ v
unfolding fits bit_pattern signed
signed-bit_pattern byte (pos n) h = refl
signed-bit_pattern int32 (pos n) h = ground arith
signed-bit_pattern int64 (pos n) h = ground arith
signed-bit_pattern byte (negsuc n) h = cc
signed-bit_pattern int32 (negsuc n) h = ground arith
signed-bit_pattern int64 (negsuc n) h = ground arith

length-le_bytes : (w n : ℕ) → length (le_bytes w n) ≡ w
length-le_bytes zero n = refl
length-le_bytes (suc w) n = ap suc (length-le_bytes w (n / 256))

pub length-pack : (f : Format) (v : ℤ) {bytes : Bytes} → pack f v ≡ ok bytes → length bytes ≡ size f
unfolding pack
length-pack f v e =
    let (u, p, q) = >>=-eq-ok (require (fits f v) struct_error) _ e in
    rw (← ok_inj q) (length-le_bytes (size f) (bit_pattern f v))

-- What a format writes it reads back.
pub unpack-pack : (f : Format) (v : ℤ) {bytes : Bytes} → pack f v ≡ ok bytes → unpack f bytes ≡ v
unfolding pack unpack
unpack-pack f v e =
    let (u, p, q) = >>=-eq-ok (require (fits f v) struct_error) _ e in
    let fit = require-eq_ok (fits f v) struct_error p in
    rw (← ok_inj q) (
      ap (signed f) (from_le-le_bytes (size f) (bit_pattern f v) (bit_pattern-lt f v fit))
      ∙ signed-bit_pattern f v fit)
