-- ===== src/Tests/Bytes.antt =====
-- Runs for src/utils/leb128.ts, src/utils/buffer.ts and src/headers.
use hathor_wallet_lib.Prelude.{
  ℕ, ◌^◌, ◌≤◌, ◌<◌, ◌≡◌, refl, arith, true, false, none, some, [], ◌∷◌, ◌++◌, length, drop,
}
use hathor_wallet_lib.Prelude.Int.{pos, negsuc}
use hathor_wallet_lib.Result.{ok, err, unsigned_negative}
use hathor_wallet_lib.Buffer.{
  Bytes, output_value_to_bytes, bytes_to_output_value, big_int_to_bytes, write_uint,
}
use hathor_wallet_lib.Buffer.Values.{
  IsOutputValue, output_value_round_trip, output_value_to_bytes-IsOutputValue,
}
use hathor_wallet_lib.Leb128.{encode_leb128, decode_leb128, exceeds}
use hathor_wallet_lib.Leb128.Encode.{encoding, encode_leb128-limited, encode_leb128_fits}
use hathor_wallet_lib.Leb128.RoundTrip.{decode_leb128-encode_leb128, decode_leb128_takes}

-- -200 takes two bytes.
minus_200 : encode_leb128 (negsuc 199) true none ≡ ok (184 ∷ 126 ∷ [])
unfolding encode_leb128
minus_200 = refl

decode_leb128-encode_leb128_example :
    decode_leb128 ((184 ∷ 126 ∷ []) ++ 7 ∷ []) true none
    ≡ ok (record { value = negsuc 199; rest = 7 ∷ []; bytes_read = 2 })
decode_leb128-encode_leb128_example =
    decode_leb128-encode_leb128 (negsuc 199) true none (184 ∷ 126 ∷ []) (7 ∷ []) minus_200

encode_leb128-limited_example : encode_leb128 (negsuc 199) false (some 2) ≡ err unsigned_negative
encode_leb128-limited_example = encode_leb128-limited (negsuc 199) false (some 2)

encode_leb128_fits_example : encode_leb128 (pos 300) false (some 2) ≡ ok (encoding false (pos 300))
encode_leb128_fits_example = encode_leb128_fits (pos 300) false 1 tt (omega arith)

three_bytes_read :
    decode_leb128 (128 ∷ 128 ∷ 1 ∷ 9 ∷ []) false none
    ≡ ok (record { value = pos 16384; rest = 9 ∷ []; bytes_read = 3 })
unfolding decode_leb128
three_bytes_read = refl

decode_leb128_takes_example :
    (0 < 3)
    × (3 ≤ 4)
    × (◌≡◌ {A = Bytes} (9 ∷ []) (drop 3 (128 ∷ 128 ∷ 1 ∷ 9 ∷ [])))
    × (exceeds none 3 ≡ false)
decode_leb128_takes_example =
    decode_leb128_takes (128 ∷ 128 ∷ 1 ∷ 9 ∷ []) false none
      (record { value = pos 16384; rest = 9 ∷ []; bytes_read = 3 }) three_bytes_read

output_value_round_trip_example :
    (bytes : Bytes) × (output_value_to_bytes (pos (2 ^ 31)) ≡ ok bytes)
    × (length bytes ≡ 8)
    × ((rest : Bytes) → bytes_to_output_value (bytes ++ rest) ≡ ok (pos (2 ^ 31), rest))
output_value_round_trip_example = output_value_round_trip (2 ^ 31) (omega arith, omega arith)

seven_encoded : output_value_to_bytes (pos 7) ≡ ok (0 ∷ 0 ∷ 0 ∷ 7 ∷ [])
unfolding output_value_to_bytes big_int_to_bytes write_uint
seven_encoded = refl

output_value_to_bytes-IsOutputValue_example : (n : ℕ) × (pos 7 ≡ pos n) × IsOutputValue n
output_value_to_bytes-IsOutputValue_example =
    output_value_to_bytes-IsOutputValue (pos 7) (0 ∷ 0 ∷ 0 ∷ 7 ∷ []) seven_encoded
