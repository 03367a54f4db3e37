-- ===== src/Tx/Input.antt =====
-- src/models/input.ts: an input of a transaction, as bytes.
use hathor_wallet_lib.Prelude.{
  ℕ, ◌^◌, ◌<◌, ◌≡◌, refl, arith, Bool, true, false, ◌==◌, Option, none, some, ◌++◌, append_assoc,
  length, All, if◌then◌else◌,
}
use hathor_wallet_lib.Prelude.Int.{ℤ, pos, pos_part}
use hathor_wallet_lib.Result.{Result, ok, ◌>>=◌, ◌>>◌, throw_if, missing_value}
use hathor_wallet_lib.Buffer.{Bytes, IsByte, int_to_bytes, unpack_to_int, unpack_len}
use hathor_wallet_lib.Buffer.Ints.{unpack_to_int-int_to_bytes, unpack_len-append}
use hathor_wallet_lib.Hex.{
  Text, to_hex, length-to_hex, hex_to_buffer, unpack_to_hex, length-to_hex, hex_to_buffer-to_hex,
  unpack_to_hex-append,
}
use hathor_wallet_lib.Tx.Items.{IsReadBack}

abbrev pub tx_hash_size_bytes : ℕ
tx_hash_size_bytes = 32

pub record Input : Type 0 where
  pub hash : Text
  pub index : ℤ
  pub input_data : Option Bytes

-- The constructor; an `index` that is not a number has no place in the model.
unfoldable pub new_input : Text → ℤ → Option Bytes → Result Input
new_input hash index input_data =
    throw_if (length hash == 0) missing_value
    >> ok (record { hash = hash; index = index; input_data = input_data })

-- `this.data && addData`, and what is then written
abbrev pub data_bytes : Option Bytes → Bool → Bytes
data_bytes (some bytes) true = int_to_bytes (pos (length bytes)) 2 ++ bytes
data_bytes _ _ = int_to_bytes (pos 0) 2

unfoldable pub serialize : Bool → Input → Result Bytes
serialize add_data input = do
  hash ← hex_to_buffer input.hash
  ok (hash ++ (int_to_bytes input.index 1 ++ data_bytes input.input_data add_data))

unfoldable pub create_from_bytes : Bytes → Result (Input × Bytes)
unfolding new_input
create_from_bytes buf = do
  (hash, buf1) ← unpack_to_hex tx_hash_size_bytes buf
  (index, buf2) ← unpack_to_int 1 false buf1
  (data_len, buf3) ← unpack_to_int 2 false buf2
  if pos_part data_len == 0 then (do input ← new_input hash index none; ok (input, buf3)) else (do
    (bytes, buf4) ← unpack_len (pos_part data_len) buf3
    input ← new_input hash index (some bytes)
    ok (input, buf4))

-- Data of at least one byte, and of at most two bytes' length; or no data.
pub data IsData : Option Bytes → Type 0 where
  no_data : IsData none
  with_data : (bytes : Bytes) → 0 < length bytes → length bytes < 2 ^ 16 → IsData (some bytes)

-- A hash of 32 bytes in lower-case hex, an index of one byte, and such data.
pub data IsInput : Input → Type 0 where
  input :
      (hash : Bytes) (index : ℕ) (input_data : Option Bytes)
      → length hash ≡ tx_hash_size_bytes
      → All IsByte hash
      → index < 256
      → IsData input_data
      → IsInput (record { hash = to_hex hash; index = pos index; input_data = input_data })

data_read :
    (hash : Bytes) (index : ℕ) (d : Option Bytes) (rest : Bytes)
    → length hash ≡ tx_hash_size_bytes
    → index < 256
    → IsData d
    → create_from_bytes (hash ++ (int_to_bytes (pos index) 1 ++ (data_bytes d true ++ rest)))
      ≡ ok (record { hash = to_hex hash; index = pos index; input_data = d }, rest)
unfolding create_from_bytes new_input
data_read hash index _ rest size small no_data =
    rw
      (
        unpack_to_hex-append 32 hash
            (int_to_bytes (pos index) 1 ++ (int_to_bytes (pos 0) 2 ++ rest)) size,
        unpack_to_int-int_to_bytes 1 index (int_to_bytes (pos 0) 2 ++ rest) (omega arith) small,
        unpack_to_int-int_to_bytes 2 0 rest (omega arith) (omega arith),
        length-to_hex hash,
        size,
      )
      (ground arith)
data_read hash index _ rest size small (with_data bytes some_bytes few) =
    let tail = bytes ++ rest in
    let sized = int_to_bytes (pos (length bytes)) 2 ++ tail in
    simp append_assoc (
      rw
        (
          unpack_to_hex-append 32 hash (int_to_bytes (pos index) 1 ++ sized) size,
          unpack_to_int-int_to_bytes 1 index sized (omega arith) small,
          unpack_to_int-int_to_bytes 2 (length bytes) tail (omega arith) few,
          unpack_len-append (length bytes) bytes rest refl,
          length-to_hex hash,
          size,
        )
        (ground arith))

-- An input that serialize writes with its data, createFromBytes reads back from the front of any buffer.
pub input_round_trip : (i : Input) → IsInput i → IsReadBack (serialize true) create_from_bytes i
unfolding serialize
input_round_trip _ (input hash index d size bytes small has) = (
  hash ++ (int_to_bytes (pos index) 1 ++ data_bytes d true),
  rw (hex_to_buffer-to_hex hash bytes),
  λ rest. simp append_assoc (data_read hash index d rest size small has),
)
