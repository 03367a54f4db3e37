-- ===== src/Nano/Encoding.antt =====
-- src/nano_contracts/fields/encoding: the codecs that the fields share. A decoder returns the value
-- and the number of bytes read, and its caller goes on with the slice after those.
pub mod Laws
use hathor_wallet_lib.Prelude.{
  ℕ, zero, suc, ◌+◌, ◌^◌, Bool, true, false, Option, none, some, List, [], ◌∷◌, ◌++◌, ltb, ◌==◌,
  if◌then◌else◌, length, take, drop, get_elem?,
}
use hathor_wallet_lib.Prelude.Int.{ℤ, pos, pos_part, ltb_ℤ}
use hathor_wallet_lib.Result.{
  Result, ok, err, ◌>>=◌, ◌>>◌, throw_if, invalid_tag, length_above_maximum, not_enough_bytes,
}
use hathor_wallet_lib.Buffer.{Bytes}
use hathor_wallet_lib.Hex.{Text}
use hathor_wallet_lib.Leb128.{encode_unsigned, decode_unsigned, encode_signed, decode_signed}

-- `BufferROExtract<T>`
pub record Extract {ℓ} (A : Type ℓ) : Type ℓ where
  pub value : A
  pub bytes_read : ℕ

unfoldable pub unsigned_decode : Bytes → Option ℕ → Result (Extract ℤ)
unsigned_decode value max = do
  d ← decode_unsigned value max
  ok (record { value = d.value; bytes_read = d.bytes_read })

pub signed_decode : Bytes → Option ℕ → Result (Extract ℤ)
signed_decode value max = do
  d ← decode_signed value max
  ok (record { value = d.value; bytes_read = d.bytes_read })

abbrev pub nc_args_max_bytes_length : ℕ
nc_args_max_bytes_length = 2 ^ 16

unfoldable pub bool_encode : Bool → Bytes
bool_encode value = (if value then 1 else 0) ∷ []

bool_of_tag : Option ℕ → Result (Extract Bool)
bool_of_tag none = err invalid_tag
bool_of_tag (some tag) =
    if tag == 0
    then ok (record { value = false; bytes_read = 1 })
    else if tag == 1
    then ok (record { value = true; bytes_read = 1 })
    else err invalid_tag

unfoldable pub bool_decode : Bytes → Result (Extract Bool)
unfolding bool_of_tag
bool_decode buf = bool_of_tag (get_elem? buf 0)

unfoldable pub bytes_encode : Bytes → Result Bytes
bytes_encode buf = do prefix ← encode_unsigned (pos (length buf)) none; ok (prefix ++ buf)

unfoldable pub bytes_decode : Bytes → Result (Extract Bytes)
unfolding unsigned_decode
bytes_decode buf = do
  read ← unsigned_decode buf (some 3)
  let rest = drop read.bytes_read buf
  throw_if (ltb_ℤ (pos nc_args_max_bytes_length) read.value) length_above_maximum
  let size = pos_part read.value
  throw_if (ltb (length rest) size) not_enough_bytes
  ok (record { value = take size rest; bytes_read = size + read.bytes_read })

unfoldable pub sized_encode : ℕ → Bytes → Bytes
sized_encode len buf = take len buf

unfoldable pub sized_decode : ℕ → Bytes → Result (Extract Bytes)
sized_decode len buf = do
  throw_if (ltb (length buf) len) not_enough_bytes
  ok (record { value = take len buf; bytes_read = len })

-- `Buffer.from(text, 'utf-8')` and `buf.toString('utf-8')`, which are Node's.
pub record Utf8 : Type 0 where
  pub encode : Text → Bytes
  pub decode : Bytes → Text

module _ (utf8 : Utf8) where
  unfoldable pub utf8_encode : Text → Result Bytes
  utf8_encode value = bytes_encode (utf8.encode value)

  unfoldable pub utf8_decode : Bytes → Result (Extract Text)
  utf8_decode buf = do
    read ← bytes_decode buf
    ok (record { value = utf8.decode read.value; bytes_read = read.bytes_read })
