-- ===== src/Nano/Fields/Simple.antt =====
-- The fields of simple types: str, int, bool, address, callerId, timestamp, amount, token, bytes and
-- bytes32 of src/nano_contracts/fields.
use hathor_wallet_lib.Prelude.{
  ℕ, ◌+◌, Bool, true, false, not, ◌&&◌, ◌||◌, Option, none, some, [], ◌∷◌, ltb, ◌==◌, if◌then◌else◌,
  length, take, drop, get_elem?,
}
use hathor_wallet_lib.Prelude.Int.{ℤ}
use hathor_wallet_lib.Result.{
  Result, ok, err, ◌>>=◌, ◌>>◌, throw_if, invalid_tag, invalid_uid, missing_value, not_enough_bytes,
  wrong_network, wrong_checksum,
}
use hathor_wallet_lib.Buffer.{Bytes, signed_int_to_bytes, unpack_to_int}
use hathor_wallet_lib.Hex.{Text, from_hex, to_hex, is_hexa}
use hathor_wallet_lib.Leb128.{encode_signed, encode_unsigned}
use hathor_wallet_lib.Address.{Network, Hash, equals, validate_address, encode_address}
use hathor_wallet_lib.Nano.Encoding.{
  Extract, unsigned_decode, signed_decode, bool_encode, bool_decode, bytes_encode, bytes_decode,
  sized_encode, sized_decode, Utf8, utf8_encode, utf8_decode,
}
use hathor_wallet_lib.Nano.Fields.Types.{
  SimpleType, CallerId, caller_address, caller_contract, Basic, text_value, int_value, bool_value,
  address_value, caller_value, timestamp_value, amount_value, uid_value, bytes_value, bytes32_value,
}

-- What the fields take from outside: the text codec, the hash, and the network of the wallet.
pub record Platform : Type 0 where
  pub utf8 : Utf8
  pub hash : Hash
  pub network : Network

-- The result of a decoder, held as a value.
abbrev pub hold : {A B : Type 0} → (A → B) → Extract A → Result (Extract B)
hold f e = ok (record { value = f e.value; bytes_read = e.bytes_read })

-- BoolField.fromBuffer
unfoldable pub bool_from_buffer : Bytes → Result (Extract Bool)
bool_from_buffer buf = throw_if (length buf == 0) not_enough_bytes >> bool_decode buf

-- TimestampField.fromBuffer
unfoldable pub timestamp_from_buffer : Bytes → Result (Extract ℤ)
timestamp_from_buffer buf = do
  (value, _) ← unpack_to_int 4 true buf
  ok (record { value = value; bytes_read = 4 })

abbrev pub native_token_uid : Text
native_token_uid = 48 ∷ 48 ∷ []

-- `TokenUidSchema`
unfoldable pub is_token_uid : Text → Bool
is_token_uid uid = equals uid native_token_uid || (length uid == 64 && is_hexa uid)

-- TokenUidField.fromBuffer
uid_of_tag : Option ℕ → Bytes → Result (Extract Text)
uid_of_tag none buf = err invalid_tag
uid_of_tag (some tag) buf =
    if tag == 0
    then ok (record { value = native_token_uid; bytes_read = 1 })
    else if tag == 1
    then (do
      parsed ← sized_decode 32 (drop 1 buf)
      ok (record { value = to_hex parsed.value; bytes_read = 33 }))
    else err invalid_tag

unfoldable pub uid_from_buffer : Bytes → Result (Extract Text)
unfolding uid_of_tag
uid_from_buffer buf = uid_of_tag (get_elem? buf 0) buf

-- TokenUidField.toBuffer
unfoldable pub uid_to_buffer : Text → Result Bytes
uid_to_buffer uid = do
  throw_if (not (is_token_uid uid)) invalid_uid
  if equals uid native_token_uid then ok (0 ∷ []) else ok (1 ∷ from_hex uid)

-- A first byte, which a failed read answers with no byte at all.
abbrev first_is : Option ℕ → Option ℕ → Bool
first_is (some a) (some b) = a == b
first_is _ _ = false

module _ (p : Platform) where
  -- AddressField.fromBuffer: it rebuilds the address from its hash and compares.
  unfoldable pub address_from_buffer : Bytes → Result (Extract Bytes)
  address_from_buffer buf = do
    throw_if (ltb (length buf) 25) not_enough_bytes
    let hash_bytes = drop 1 (take 21 buf)
    decoded ← encode_address p.hash hash_bytes p.network
    validate_address p.hash p.network false decoded
    throw_if (not (first_is (get_elem? decoded 0) (get_elem? buf 0))) wrong_network
    throw_if (not (equals (drop 21 (take 25 decoded)) (drop 21 (take 25 buf)))) wrong_checksum
    ok (record { value = decoded; bytes_read = 25 })

  -- AddressField.toBuffer
  unfoldable pub address_to_buffer : Option Bytes → Result Bytes
  address_to_buffer none = err missing_value
  address_to_buffer (some address) = do validate_address p.hash p.network false address; ok address

  -- CallerIdField.fromBuffer
  unfoldable pub caller_of_tag : Option ℕ → Bytes → Result (Extract CallerId)
  unfolding address_from_buffer
  caller_of_tag none rest = err not_enough_bytes
  caller_of_tag (some tag) rest =
      if tag == 0
      then (do
        parsed ← address_from_buffer rest
        ok (record { value = caller_address parsed.value; bytes_read = 1 + parsed.bytes_read }))
      else if tag == 1
      then (do
        parsed ← sized_decode 32 rest
        ok (record { value = caller_contract parsed.value; bytes_read = 1 + parsed.bytes_read }))
      else err invalid_tag

  -- CallerIdField.toBuffer
  unfoldable pub caller_to_buffer : Option CallerId → Result Bytes
  unfolding address_to_buffer
  caller_to_buffer none = err missing_value
  caller_to_buffer (some (caller_address a)) = do bytes ← address_to_buffer (some a); ok (0 ∷ bytes)
  caller_to_buffer (some (caller_contract c)) = ok (1 ∷ sized_encode 32 c)

  unfoldable pub simple_from_buffer : SimpleType → Bytes → Result (Extract Basic)
  unfolding bool_from_buffer timestamp_from_buffer uid_from_buffer address_from_buffer caller_of_tag
  simple_from_buffer SimpleType.str buf = utf8_decode p.utf8 buf >>= hold text_value
  simple_from_buffer SimpleType.int buf = signed_decode buf none >>= hold int_value
  simple_from_buffer SimpleType.bool buf = bool_from_buffer buf >>= hold bool_value
  simple_from_buffer SimpleType.address buf =
      address_from_buffer buf >>= hold (λ a. address_value (some a))
  simple_from_buffer SimpleType.caller_id buf =
      caller_of_tag (get_elem? buf 0) (drop 1 buf) >>= hold (λ c. caller_value (some c))
  simple_from_buffer SimpleType.timestamp buf = timestamp_from_buffer buf >>= hold timestamp_value
  simple_from_buffer SimpleType.amount buf = unsigned_decode buf none >>= hold amount_value
  simple_from_buffer SimpleType.token_uid buf = uid_from_buffer buf >>= hold uid_value
  simple_from_buffer SimpleType.bytes buf = bytes_decode buf >>= hold bytes_value
  simple_from_buffer SimpleType.tx_output_script buf = bytes_decode buf >>= hold bytes_value
  simple_from_buffer _ buf = sized_decode 32 buf >>= hold bytes32_value

  unfoldable pub simple_to_buffer : Basic → Result Bytes
  unfolding uid_to_buffer address_to_buffer caller_to_buffer
  simple_to_buffer (text_value t) = utf8_encode p.utf8 t
  simple_to_buffer (int_value v) = encode_signed v none
  simple_to_buffer (bool_value b) = ok (bool_encode b)
  simple_to_buffer (address_value a) = address_to_buffer a
  simple_to_buffer (caller_value c) = caller_to_buffer c
  simple_to_buffer (timestamp_value t) = ok (signed_int_to_bytes t 4)
  simple_to_buffer (amount_value v) = encode_unsigned v none
  simple_to_buffer (uid_value u) = uid_to_buffer u
  simple_to_buffer (bytes_value b) = bytes_encode b
  simple_to_buffer (bytes32_value b) = ok (sized_encode 32 b)
