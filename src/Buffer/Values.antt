-- ===== src/Buffer/Values.antt =====
-- The output value of src/utils/buffer.ts: 4 bytes, or 8 bytes that hold the opposite value.
use hathor_wallet_lib.Prelude.{
  ℕ, zero, suc, ◌-◌, ◌/◌, ◌%◌, ◌^◌, ◌≤◌, ◌<◌, ◌≡◌, refl, arith, true, ◌++◌, ◌∷◌, ltb, length,
  if◌then◌else◌,
}
use hathor_wallet_lib.Prelude.Int.{ℤ, pos, negsuc, *ℤ-one, *ℤ-minus_one}
use hathor_wallet_lib.Result.{ok}
use hathor_wallet_lib.Buffer.{
  Bytes, write_uint, read_uint, integer_of, big_int_to_bytes, unpack_to_int, bytes_to_output_value,
  output_value_to_bytes, max_output_value, max_output_value_32,
}
use hathor_wallet_lib.Buffer.Ints.{
  length-write_uint, unpack_to_big_int-append, unpack_to_int-signed_append, read_uint-write_uint,
}

-- The values that an output can hold.
abbrev pub IsOutputValue : ℕ → Type 0
IsOutputValue v = (0 < v) × (v ≤ max_output_value)

-- The bytes of an output value.
pub value_bytes : ℕ → Bytes
value_bytes v = if ltb max_output_value_32 v then write_uint 8 (2 ^ 64 - v) else write_uint 4 v

-- Every value of an output is encoded.
pub output_value_to_bytes-eq :
    (v : ℕ) → IsOutputValue v → output_value_to_bytes (pos v) ≡ ok (value_bytes v)
unfolding output_value_to_bytes big_int_to_bytes value_bytes
output_value_to_bytes-eq zero h = absurd (omega arith)
output_value_to_bytes-eq (suc n) h = ground arith

eight_bytes :
    (v : ℕ) → write_uint 8 v ≡ v / 256 / 256 / 256 / 256 / 256 / 256 / 256 % 256 ∷ write_uint 7 v
unfolding write_uint
eight_bytes v = refl

four_bytes : (v : ℕ) → write_uint 4 v ≡ v / 256 / 256 / 256 % 256 ∷ write_uint 3 v
unfolding write_uint
four_bytes v = refl

first_byte : (b : ℕ) (bs : Bytes) → unpack_to_int 1 true (b ∷ bs) ≡ ok (integer_of 1 b, bs)
unfolding unpack_to_int read_uint
first_byte b bs = ground arith

decode_large :
    (u : ℕ) (rest : Bytes)
    → 2 ^ 63 ≤ u
    → u < 2 ^ 64
    → bytes_to_output_value (write_uint 8 u ++ rest) ≡ ok (pos (2 ^ 64 - u), rest)
unfolding bytes_to_output_value
decode_large u rest lo hi = ground (
  arith,
  first_byte (u / 256 / 256 / 256 / 256 / 256 / 256 / 256 % 256) (write_uint 7 u ++ rest),
  eight_bytes u,
  unpack_to_big_int-append (write_uint 8 u) rest (length-write_uint 8 u),
  read_uint-write_uint 8 u,
  *ℤ-minus_one (integer_of 8 u),
)

decode_small :
    (u : ℕ) (rest : Bytes)
    → u < 2 ^ 31
    → bytes_to_output_value (write_uint 4 u ++ rest) ≡ ok (pos u, rest)
unfolding bytes_to_output_value
decode_small u rest hi = ground (
  arith,
  first_byte (u / 256 / 256 / 256 % 256) (write_uint 3 u ++ rest),
  four_bytes u,
  unpack_to_int-signed_append 4 (write_uint 4 u) rest (length-write_uint 4 u),
  read_uint-write_uint 4 u,
  *ℤ-one (integer_of 4 u),
)

-- An output value is read back from the front of a buffer.
pub bytes_to_output_value-value_bytes :
    (v : ℕ) (rest : Bytes)
    → IsOutputValue v
    → bytes_to_output_value (value_bytes v ++ rest) ≡ ok (pos v, rest)
unfolding value_bytes
bytes_to_output_value-value_bytes v rest h =
    ground (arith, decode_large (2 ^ 64 - v) rest, decode_small v rest)

length-value_bytes : (v : ℕ) → length (value_bytes v) ≡ (if ltb v (2 ^ 31) then 4 else 8)
unfolding value_bytes
length-value_bytes v = ground (arith, length-write_uint 8 (2 ^ 64 - v), length-write_uint 4 v)

-- outputValueToBytes encodes each number from 1 to 2 ^ 63, in 4 bytes below 2 ^ 31 and in 8 bytes from
-- there on, and bytesToOutputValue reads the number back from the front of any buffer.
pub output_value_round_trip :
    (v : ℕ)
    → IsOutputValue v
    → (bytes : Bytes) × (output_value_to_bytes (pos v) ≡ ok bytes)
      × (length bytes ≡ (if ltb v (2 ^ 31) then 4 else 8))
      × ((rest : Bytes) → bytes_to_output_value (bytes ++ rest) ≡ ok (pos v, rest))
output_value_round_trip v h = (
  value_bytes v,
  output_value_to_bytes-eq v h,
  length-value_bytes v,
  λ rest. bytes_to_output_value-value_bytes v rest h,
)

-- outputValueToBytes refuses every other integer: what it encodes is a number from 1 to 2 ^ 63.
pub output_value_to_bytes-IsOutputValue :
    (v : ℤ) (bytes : Bytes)
    → output_value_to_bytes v ≡ ok bytes
    → (n : ℕ) × (v ≡ pos n) × IsOutputValue n
unfolding output_value_to_bytes
output_value_to_bytes-IsOutputValue (pos n) bytes h = (n, refl, ground arith)
output_value_to_bytes-IsOutputValue (negsuc n) bytes h = absurd (ground arith)
