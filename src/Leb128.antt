-- ===== src/Leb128.antt =====
-- src/utils/leb128.ts. A bigint is an integer; `&` with the mask of the low seven bits and `>>= 7`
-- are the remainder and the floored quotient by 128, also below zero, where a bigint stands for
-- its two's complement with endless ones.
pub mod Digits
pub mod Encode
pub mod Decode
pub mod RoundTrip
use hathor_wallet_lib.Prelude.{
  ℕ, zero, suc, ◌+◌, ◌-◌, ◌*◌, ◌/◌, ◌%◌, ◌^◌, Bool, true, false, not, ◌&&◌, ◌||◌, Option, none,
  some, List, [], ◌∷◌, ◌++◌, ltb, ◌==◌, if◌then◌else◌, length, bit_and, bit_or,
}
use hathor_wallet_lib.Prelude.Int.{ℤ, pos, negsuc, sub_ℕ}
use hathor_wallet_lib.Result.{
  Result, ok, err, out_of_fuel, unsigned_negative, encode_limit, decode_limit, empty_buffer,
  shift_assertion,
}
use hathor_wallet_lib.Buffer.{Bytes}

-- `val & 0b0111_1111n`
abbrev pub low_seven : ℤ → ℕ
low_seven (pos n) = n % 128
low_seven (negsuc n) = 127 - n % 128

-- `val >> 7n`
abbrev pub shift_right : ℤ → ℤ
shift_right (pos n) = pos (n / 128)
shift_right (negsuc n) = negsuc (n / 128)

abbrev is_zero : ℤ → Bool
is_zero (pos n) = n == 0
is_zero (negsuc n) = false

abbrev is_minus_one : ℤ → Bool
is_minus_one (pos n) = false
is_minus_one (negsuc n) = n == 0

-- `isLastByte`, with the value after the shift
pub is_last_byte : Bool → ℕ → ℤ → Bool
is_last_byte signed byte val =
    if signed
    then (is_zero val && bit_and byte 0x40 == 0)
      || (is_minus_one val && not (bit_and byte 0x40 == 0))
    else (is_zero val && bit_and byte 0x80 == 0)

-- `maxBytes !== null && count > maxBytes`
abbrev pub exceeds : Option ℕ → ℕ → Bool
exceeds none count = false
exceeds (some limit) count = ltb limit count

-- The `while (true)` of encodeLeb128, on fuel.
pub encode_loop : Bool → Option ℕ → ℕ → Bytes → ℤ → Result Bytes
encode_loop signed max zero result val = err out_of_fuel
encode_loop signed max (suc fuel) result val =
    let byte = low_seven val in
    let val' = shift_right val in
    let done = result ++ byte ∷ [] in
    let next = result ++ bit_or byte 0x80 ∷ [] in
    let rest = encode_loop signed max fuel next val' in
    if is_last_byte signed byte val'
    then (if exceeds max (length done) then err encode_limit else ok done)
    else (if exceeds max (length next) then err encode_limit else rest)

-- Rounds that the loop needs at most.
abbrev pub rounds : ℤ → ℕ
rounds (pos n) = suc n
rounds (negsuc n) = suc n

abbrev pub is_negative : ℤ → Bool
is_negative (pos n) = false
is_negative (negsuc n) = true

unfoldable pub encode_leb128 : ℤ → Bool → Option ℕ → Result Bytes
unfolding encode_loop is_last_byte
encode_leb128 value signed max =
    if not signed && is_negative value
    then err unsigned_negative
    else encode_loop signed max (rounds value) [] value

pub record Decoded : Type 0 where
  pub value : ℤ
  pub rest : Bytes
  pub bytes_read : ℕ

-- `result | -(1n << shift)` for a result that is not negative
abbrev or_minus_power : ℕ → ℕ → ℤ
or_minus_power result shift = sub_ℕ (result % 2 ^ shift) (2 ^ shift)

-- The `while (true)` of decodeLeb128: `byte_list` falls by one byte a round.
pub decode_loop : Bool → Option ℕ → Bytes → ℕ → ℕ → ℕ → Result Decoded
decode_loop signed max [] result shift bytes_read = err empty_buffer
decode_loop signed max (byte ∷ byte_list) result shift bytes_read =
    let result' = bit_or result (bit_and byte 0x7f * 2 ^ shift) in
    let shift' = shift + 7 in
    let bytes_read' = bytes_read + 1 in
    let more = decode_loop signed max byte_list result' shift' bytes_read' in
    if not (shift' % 7 == 0)
    then err shift_assertion
    else if exceeds max (shift' / 7)
    then err decode_limit
    else if bit_and byte 0x80 == 0
    then (if signed && not (bit_and byte 0x40 == 0)
        then ok (record {
          value = or_minus_power result' shift';
          rest = byte_list;
          bytes_read = bytes_read';
        })
        else ok (record { value = pos result'; rest = byte_list; bytes_read = bytes_read' }))
    else more

unfoldable pub decode_leb128 : Bytes → Bool → Option ℕ → Result Decoded
unfolding decode_loop
decode_leb128 buf signed max = decode_loop signed max buf 0 0 0

unfoldable pub encode_signed : ℤ → Option ℕ → Result Bytes
unfolding encode_leb128
encode_signed value max = encode_leb128 value true max

unfoldable pub decode_signed : Bytes → Option ℕ → Result Decoded
unfolding decode_leb128
decode_signed buf max = decode_leb128 buf true max

unfoldable pub encode_unsigned : ℤ → Option ℕ → Result Bytes
unfolding encode_leb128
encode_unsigned value max = encode_leb128 value false max

unfoldable pub decode_unsigned : Bytes → Option ℕ → Result Decoded
unfolding decode_leb128
decode_unsigned buf max = decode_leb128 buf false max
