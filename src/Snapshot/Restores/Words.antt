-- ===== src/Snapshot/Restores/Words.antt =====
-- The parts of a snapshot: bytes, numbers, texts and columns are read back.
use qkt_data_hub.Prelude.{
  ℕ, ◌*◌, ◌≡◌, refl, sym, ap, ◌∙◌, false, List, [], ◌∷◌, ◌++◌, ok, >>=-eq-ok, ok_inj, length, take,
  drop, ltb, store_error, length-append, arith,
}
use qkt_data_hub.Prelude.Int.{ℤ, pos}
use qkt_data_hub.Prelude.Text.{Text}
use mathlib.Core.Path.{subst}
use qkt_data_hub.Schema.{or_raise}
use qkt_data_hub.Snapshot.Utf8.{Bytes, encode_text, decode_text, decode_text-encode_text}
use qkt_data_hub.Snapshot.Words.{Format, int32, size, pack, unpack, length-pack, unpack-pack}
use qkt_data_hub.Snapshot.Cursor.{take_bytes, value, string, column, unpack_all}
use qkt_data_hub.Snapshot.Encode.{◌<+>◌, pack_str, pack_strs, pack_column, pack_dictionary}
use qkt_data_hub.Snapshot.Decode.{strings, read_dictionary}
use qkt_data_hub.Snapshot.Restores.{
  Reads, Returns, Restores-next, Restores-map, Restores-checked, Restores-given, Returns-checked,
}

pub take-append : (xs ys : Bytes) → take (length xs) (xs ++ ys) ≡ xs
take-append [] ys = refl
take-append (x ∷ xs) ys = ap (λ l. x ∷ l) (take-append xs ys)

pub drop-append : (xs ys : Bytes) → drop (length xs) (xs ++ ys) ≡ ys
drop-append [] ys = refl
drop-append (x ∷ xs) ys = drop-append xs ys

take_bytes-Reads : (bytes : Bytes) → Reads (take_bytes (length bytes)) bytes bytes
unfolding take_bytes
take_bytes-Reads bytes rest o =
    let enough : ltb (length (bytes ++ rest)) (length bytes) ≡ false =
      ground (arith, length-append bytes rest) in
    rw (enough, take-append bytes rest, drop-append bytes rest) refl

take_bytes-Reads_of : (bytes : Bytes) (n : ℕ) → length bytes ≡ n → Reads (take_bytes n) bytes bytes
take_bytes-Reads_of bytes n l =
    subst (λ k. Reads (take_bytes k) bytes bytes) l (take_bytes-Reads bytes)

pub take_bytes-Returns :
    (bytes : Bytes) (n : ℕ) → length bytes ≡ n → Returns (ok bytes) (take_bytes n) bytes
take_bytes-Returns bytes n l found e = (
  bytes,
  refl,
  subst (λ bs. Reads (take_bytes n) bs bytes) (ok_inj e) (take_bytes-Reads_of bytes n l),
)

-- a value that is written in a format is read in that format
pub value-Returns : (f : Format) (v : ℤ) → Returns (pack f v) (value f) v
unfolding value
value-Returns f v =
    Restores-map {P = λ bytes. unpack f bytes ≡ v} (λ b. b ≡ v) (pack f v) (take_bytes (size f))
      (unpack f)
      (λ bytes e.
        (bytes, unpack-pack f v e, take_bytes-Reads_of bytes (size f) (length-pack f v e)))
      (λ a p. p)

pub string-Returns : (s : Text) → Returns (pack_str s) string s
unfolding pack_str string or_raise
string-Returns s bytes e =
    let (body, p, q) = >>=-eq-ok (encode_text s) _ e in
    Restores-next (λ t. t ≡ s) (pack int32 (pos (length body))) (ok body) (value int32) _
      (pos (length body)) (value-Returns int32 (pos (length body)))
      (Restores-checked (λ t. t ≡ s) (ok body) (ok tt) _ tt refl
        (Returns-checked (ok body) (take_bytes (length body))
          (λ bs. or_raise store_error (decode_text bs)) body s
          (take_bytes-Returns body (length body) refl)
          (ap (or_raise store_error) (decode_text-encode_text s p))))
      bytes q

pub strings-Returns : (l : List Text) → Returns (pack_strs l) (strings (length l)) l
unfolding pack_strs strings
strings-Returns [] = Restores-given (λ m. m ≡ []) [] refl
strings-Returns (s ∷ l) =
    Restores-next (λ m. m ≡ s ∷ l) (pack_str s) (pack_strs l) string _ s (string-Returns s)
      (Restores-map (λ m. m ≡ s ∷ l) (pack_strs l) (strings (length l)) (λ m. s ∷ m)
        (strings-Returns l) (λ m e. ap (λ t. s ∷ t) e))

pub read_dictionary-Returns : (l : List Text) → Returns (pack_dictionary l) read_dictionary l
unfolding pack_dictionary read_dictionary
read_dictionary-Returns l =
    Restores-next (λ m. m ≡ l) (pack int32 (pos (length l))) (pack_strs l) (value int32) _
      (pos (length l)) (value-Returns int32 (pos (length l))) (strings-Returns l)

-- the values of a column, one after another, are the ones that it is read as
pub unpack_all-pack_column :
    (f : Format) (vs : List ℤ) (bytes : Bytes)
    → pack_column f vs ≡ ok bytes
    → (length bytes ≡ size f * length vs) × (unpack_all f (length vs) bytes ≡ vs)
unfolding pack_column ◌<+>◌ unpack_all
unpack_all-pack_column f [] bytes e = (ap length (sym (ok_inj e)) ∙ omega arith, refl)
unpack_all-pack_column f (v ∷ vs) bytes e =
    let (front, p, q) = >>=-eq-ok (pack f v) _ e in
    let (back, r, s) = >>=-eq-ok (pack_column f vs) _ q in
    let (l, u) = unpack_all-pack_column f vs back r in
    let short = length-pack f v p in
    let took = subst (λ k. take k (front ++ back) ≡ front) short (take-append front back) in
    let left = subst (λ k. drop k (front ++ back) ≡ back) short (drop-append front back) in
    rw (← ok_inj s) (
      length-append front back ∙ grind arith,
      rw (took, left, u) (ap (λ x. x ∷ vs) (unpack-pack f v p)),
    )

pub column-Returns :
    (f : Format) (vs : List ℤ) → Returns (pack_column f vs) (column f (length vs)) vs
unfolding column pack_column
column-Returns f [] = Restores-given (λ m. m ≡ []) [] refl
column-Returns f (v ∷ vs) =
    Restores-map {P = λ bytes. unpack_all f (length (v ∷ vs)) bytes ≡ v ∷ vs} (λ m. m ≡ v ∷ vs)
      (pack_column f (v ∷ vs)) (take_bytes (size f * length (v ∷ vs)))
      (unpack_all f (length (v ∷ vs)))
      (λ bytes e.
        let (l, u) = unpack_all-pack_column f (v ∷ vs) bytes e in
        (bytes, u, take_bytes-Reads_of bytes (size f * length (v ∷ vs)) l))
      (λ a p. p)
