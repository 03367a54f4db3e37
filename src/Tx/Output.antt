-- ===== src/Tx/Output.antt =====
-- src/models/output.ts: an output of a transaction, as bytes, and its token data. `decodedScript`, which
-- parseScript sets from the script, is no field: it is read where it is used.
use hathor_wallet_lib.Prelude.{
  ℕ, ◌%◌, ◌^◌, ◌<◌, ◌≡◌, refl, arith, Bool, false, Option, ◌&&◌, ◌++◌, append_assoc, length, leb,
  ltb, bit_and,
}
use hathor_wallet_lib.Prelude.Int.{ℤ, pos, pos_part, eq_ℤ, sub_ℕ}
use hathor_wallet_lib.Prelude.Bits.{byte-top_bit, byte-low_seven}
use hathor_wallet_lib.Result.{Result, ok, ◌>>=◌, ◌>>◌, throw_if, value_not_positive}
use hathor_wallet_lib.Buffer.{
  Bytes, int_to_bytes, unpack_to_int, unpack_len, output_value_to_bytes, bytes_to_output_value,
}
use hathor_wallet_lib.Buffer.Ints.{unpack_to_int-int_to_bytes, unpack_len-append}
use hathor_wallet_lib.Buffer.Values.{
  IsOutputValue, value_bytes, output_value_to_bytes-eq, bytes_to_output_value-value_bytes,
}
use hathor_wallet_lib.Tx.Items.{IsReadBack}
use hathor_wallet_lib.Tx.Script.{DecodedScript, parse_script}

abbrev pub maximum_script_length : ℕ
maximum_script_length = 256

pub record Output : Type 0 where
  pub value : ℤ
  pub token_data : ℕ
  pub script : Bytes

-- The constructor; a script is always given.
unfoldable pub new_output : ℤ → Bytes → ℕ → Result Output
new_output value script token_data =
    throw_if (eq_ℤ value (pos 0)) value_not_positive
    >> ok (record { value = value; token_data = token_data; script = script })

abbrev pub value_to_bytes : Output → Result Bytes
value_to_bytes output = output_value_to_bytes output.value

unfoldable pub serialize : Output → Result Bytes
serialize output = do
  value ← value_to_bytes output
  ok (
      value
      ++ (int_to_bytes (pos output.token_data) 1
          ++ (int_to_bytes (pos (length output.script)) 2 ++ output.script)))

unfoldable pub create_from_bytes : Bytes → Result (Output × Bytes)
unfolding new_output
create_from_bytes buf = do
  (value, buf1) ← bytes_to_output_value buf
  (token_data, buf2) ← unpack_to_int 1 false buf1
  (script_len, buf3) ← unpack_to_int 2 false buf2
  (script, buf4) ← unpack_len (pos_part script_len) buf3
  output ← new_output value script (pos_part token_data)
  decoded ← parse_script script
  ok (output, buf4)

unfoldable pub has_valid_length : Output → Bool
has_valid_length output = leb (length output.script) maximum_script_length

-- `TOKEN_AUTHORITY_MASK`, `TOKEN_INDEX_MASK`, `TOKEN_MINT_MASK` and `TOKEN_MELT_MASK`. A value is
-- positive where these are asked for.
unfoldable pub is_authority : Output → Bool
is_authority output = ltb 0 (bit_and output.token_data 0x80)

unfoldable pub is_mint : Output → Bool
unfolding is_authority
is_mint output = is_authority output && ltb 0 (bit_and (pos_part output.value) 1)

unfoldable pub is_melt : Output → Bool
unfolding is_authority
is_melt output = is_authority output && ltb 0 (bit_and (pos_part output.value) 2)

unfoldable pub get_token_index : Output → ℤ
get_token_index output = sub_ℕ (bit_and output.token_data 0x7f) 1

unfoldable pub is_token_htr : Output → Bool
unfolding get_token_index
is_token_htr output = eq_ℤ (get_token_index output) (sub_ℕ 0 1)

-- A value that an output can hold, token data of one byte, a script of at most two bytes' length that
-- parseScript does not throw on.
pub data IsOutput : Output → Type 0 where
  output :
      (v token_data : ℕ) (script : Bytes)
      → IsOutputValue v
      → token_data < 256
      → length script < 2 ^ 16
      → (decoded : Option DecodedScript) → parse_script script ≡ ok decoded
      → IsOutput (record { value = pos v; token_data = token_data; script = script })

-- An output that serialize writes, createFromBytes reads back from the front of any buffer.
pub output_round_trip : (o : Output) → IsOutput o → IsReadBack serialize create_from_bytes o
unfolding serialize create_from_bytes new_output
output_round_trip _ (output v token script hv ht hs decoded hd) = (
  value_bytes v ++ (int_to_bytes (pos token) 1 ++ (int_to_bytes (pos (length script)) 2 ++ script)),
  rw (output_value_to_bytes-eq v hv),
  λ rest.
      let sized = int_to_bytes (pos (length script)) 2 ++ (script ++ rest) in
      simp append_assoc (
        rw
          (
            bytes_to_output_value-value_bytes v (int_to_bytes (pos token) 1 ++ sized) hv,
            unpack_to_int-int_to_bytes 1 token sized (omega arith) ht,
            unpack_to_int-int_to_bytes 2 (length script) (script ++ rest) (omega arith) hs,
            unpack_len-append (length script) script rest refl,
            hd,
          )
          (ground arith)),
)

-- Token data of one byte: its top bit says whether the output is an authority, and the index of the
-- token is one less than the number that its low seven bits hold.
is_authority-token_data :
    (o : Output)
    → o.token_data < 256
    → (is_authority o ≡ leb 128 o.token_data) × (get_token_index o ≡ sub_ℕ (o.token_data % 128) 1)
unfolding is_authority get_token_index
is_authority-token_data o h =
    (ground (arith, byte-top_bit o.token_data h), rw (byte-low_seven o.token_data h))
