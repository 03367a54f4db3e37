-- ===== src/Buffer.antt =====
-- src/utils/buffer.ts: integers and output values as bytes. A `Buffer` is the list of its bytes.
-- Node's `Buffer` and JavaScript's `DataView` are modelled for the calls that the file makes.
pub mod Ints
pub mod Values
use hathor_wallet_lib.Prelude.{
  ℕ, zero, suc, ◌+◌, ◌-◌, ◌*◌, ◌/◌, ◌%◌, ◌^◌, ◌<◌, Bool, true, false, ◌||◌, List, [], ◌∷◌, ◌++◌,
  ltb, leb, ◌==◌, if◌then◌else◌, length, take, drop,
}
use hathor_wallet_lib.Prelude.Int.{ℤ, pos, negsuc, ltb_ℤ, ◌*ℤ◌, neg}
use hathor_wallet_lib.Result.{
  Result, ok, err, ◌>>=◌, ◌>>◌, throw_if, not_enough_bytes, invalid_size, value_too_large,
  value_not_positive, value_above_maximum,
}

abbrev pub Bytes : Type 0
Bytes = List ℕ

abbrev pub IsByte : ℕ → Type 0
IsByte b = b < 256

-- `setUint8`, `setUint16` and `setUint32` in big endian: the value modulo 256 ^ n, in n bytes.
unfoldable pub write_uint : ℕ → ℕ → Bytes
write_uint zero v = []
write_uint (suc n) v = write_uint n (v / 256) ++ v % 256 ∷ []

read_uint_from : ℕ → Bytes → ℕ
read_uint_from acc [] = acc
read_uint_from acc (b ∷ bs) = read_uint_from (acc * 256 + b) bs

-- `readUInt8`, `readUInt16BE`, `readUInt32BE`, `readBigUInt64BE` on the whole slice.
unfoldable pub read_uint : Bytes → ℕ
unfolding read_uint_from
read_uint bs = read_uint_from 0 bs

-- Two's complement in n bytes: the pattern of an integer, and the integer of a pattern.
abbrev pub pattern_of : ℕ → ℤ → ℕ
pattern_of n (pos v) = v % 256 ^ n
pattern_of n (negsuc v) = 256 ^ n - 1 - v % 256 ^ n

abbrev pub integer_of : ℕ → ℕ → ℤ
integer_of n u = if ltb (u * 2) (256 ^ n) then pos u else negsuc (256 ^ n - 1 - u)

abbrev pub zeros : ℕ → Bytes
zeros zero = []
zeros (suc n) = 0 ∷ zeros n

-- `setUint8` and its kin write the value modulo 256 ^ n, so a negative one in two's complement. A
-- size that is none of 1, 2 and 4 leaves the array as it was allocated, all zero.
unfoldable pub int_to_bytes : ℤ → ℕ → Bytes
int_to_bytes value bytes =
    if bytes == 1
    then write_uint 1 (pattern_of 1 value)
    else if bytes == 2
    then write_uint 2 (pattern_of 2 value)
    else if bytes == 4
    then write_uint 4 (pattern_of 4 value)
    else zeros bytes

unfoldable pub signed_int_to_bytes : ℤ → ℕ → Bytes
signed_int_to_bytes value bytes =
    if bytes == 1
    then write_uint 1 (pattern_of 1 value)
    else if bytes == 2
    then write_uint 2 (pattern_of 2 value)
    else if bytes == 4
    then write_uint 4 (pattern_of 4 value)
    else zeros bytes

-- `value < -(2 ^ k) || 2 ^ k - 1 < value`
abbrev out_of_range : ℕ → ℤ → Bool
out_of_range k value = ltb_ℤ value (negsuc (2 ^ k - 1)) || ltb_ℤ (pos (2 ^ k - 1)) value

unfoldable pub big_int_to_bytes : ℤ → ℕ → Result Bytes
big_int_to_bytes value bytes =
    if bytes == 4
    then throw_if (out_of_range 31 value) value_too_large >> ok (write_uint 4 (pattern_of 4 value))
    else if bytes == 8
    then throw_if (out_of_range 63 value) value_too_large >> ok (write_uint 8 (pattern_of 8 value))
    else err invalid_size

validate_len_to_unpack : ℕ → Bytes → Result (Unit {0})
validate_len_to_unpack n buff = throw_if (ltb (length buff) n) not_enough_bytes

unfoldable pub unpack_len : ℕ → Bytes → Result (Bytes × Bytes)
unfolding validate_len_to_unpack
unpack_len n buff = validate_len_to_unpack n buff >> ok (take n buff, drop n buff)

abbrev read_sized : ℕ → Bool → Bytes → ℤ
read_sized n signed slice = if signed then integer_of n (read_uint slice) else pos (read_uint slice)

unfoldable pub unpack_to_int : ℕ → Bool → Bytes → Result (ℤ × Bytes)
unfolding validate_len_to_unpack
unpack_to_int n signed buff = do
  validate_len_to_unpack n buff
  let sliced = take n buff
  if n == 1 || n == 2 || n == 4
      then ok (read_sized n signed sliced, drop n buff)
      else err invalid_size

unfoldable pub unpack_to_big_int : ℕ → Bool → Bytes → Result (ℤ × Bytes)
unfolding validate_len_to_unpack
unpack_to_big_int n signed buff = do
  validate_len_to_unpack n buff
  if n == 8 then ok (read_sized 8 signed (take n buff), drop n buff) else err invalid_size

-- The sign of the first byte tells 8 bytes, which hold the opposite of the value, from 4.
unfoldable pub bytes_to_output_value : Bytes → Result (ℤ × Bytes)
bytes_to_output_value src_buf = do
  (high_byte, _) ← unpack_to_int 1 true src_buf
  if ltb_ℤ high_byte (pos 0)
      then (do (value, buff) ← unpack_to_big_int 8 true src_buf; ok (value *ℤ negsuc 0, buff))
      else (do (value, buff) ← unpack_to_int 4 true src_buf; ok (value *ℤ pos 1, buff))

abbrev pub max_output_value : ℕ
max_output_value = 2 ^ 63

abbrev pub max_output_value_32 : ℕ
max_output_value_32 = 2 ^ 31 - 1

-- `value <= 0`
abbrev leb_zero : ℤ → Bool
leb_zero (pos n) = n == 0
leb_zero (negsuc n) = true

unfoldable pub output_value_to_bytes : ℤ → Result Bytes
output_value_to_bytes value =
    if leb_zero value
    then err value_not_positive
    else if ltb_ℤ (pos max_output_value) value
    then err value_above_maximum
    else if ltb_ℤ (pos max_output_value_32) value
    then big_int_to_bytes (neg value) 8
    else big_int_to_bytes value 4
