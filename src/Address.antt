-- ===== src/Address.antt =====
-- src/models/address.ts and the address functions of src/utils/helpers.ts and src/models/network.ts.
-- An `Address` is modelled by the bytes that its base58 text decodes to; base58 itself and the double
-- SHA-256 are bitcore's, the latter a parameter.
pub mod Laws
use hathor_wallet_lib.Prelude.{
  ℕ, ◌-◌, ◌+◌, ◌≡◌, Bool, true, false, not, ◌&&◌, ◌||◌, Option, none, some, List, [], ◌∷◌, ◌++◌,
  ◌==◌, if◌then◌else◌, length, take, drop, get_elem?,
}
use hathor_wallet_lib.Result.{
  Result, ok, err, ◌>>=◌, ◌>>◌, throw_if, invalid_length, invalid_address, wrong_checksum,
  wrong_network,
}
use hathor_wallet_lib.Buffer.{Bytes}

-- The version bytes of a network.
pub record Network : Type 0 where
  pub p2pkh : ℕ
  pub p2sh : ℕ
  pub shielded : ℕ

-- What the program takes from bitcore: `crypto.Hash.sha256sha256`, of 32 bytes.
pub record Hash : Type 0 where
  pub sha256sha256 : Bytes → Bytes
  pub size : (bytes : Bytes) → length (sha256sha256 bytes) ≡ 32

abbrev pub legacy_address_size_bytes : ℕ
legacy_address_size_bytes = 25

abbrev pub shielded_address_size_bytes : ℕ
shielded_address_size_bytes = 71

-- `a.equals(b)` of two buffers
unfoldable pub equals : Bytes → Bytes → Bool
equals [] [] = true
equals (a ∷ as') (b ∷ bs) = a == b && equals as' bs
equals _ _ = false

unfoldable pub is_version_byte_valid : Network → ℕ → Bool
is_version_byte_valid network version =
    version == network.p2pkh || version == network.p2sh || version == network.shielded

-- `buf.subarray(-4)` and `buf.subarray(0, -4)`
abbrev pub last_four : Bytes → Bytes
last_four bytes = drop (length bytes - 4) bytes

abbrev pub but_last_four : Bytes → Bytes
but_last_four bytes = take (length bytes - 4) bytes

module _ (hash : Hash) where
  unfoldable pub get_checksum : Bytes → Bytes
  get_checksum bytes = take 4 (hash.sha256sha256 bytes)

  -- The size that the network's table gives to a version byte: a later key of the same number wins.
  expected_length : Network → ℕ → Option ℕ
  expected_length network version =
      if version == network.shielded
      then some shielded_address_size_bytes
      else if version == network.p2sh || version == network.p2pkh
      then some legacy_address_size_bytes
      else none

  check_version_byte : Network → Bytes → Option ℕ → Result (Unit {0})
  unfolding expected_length is_version_byte_valid
  check_version_byte network bytes none = err invalid_address
  check_version_byte network bytes (some version) = do
    throw_if (not (is_version_byte_valid network version)) wrong_network
    elim (expected_length network version) [
      | none ↦ err invalid_length
      | some expected ↦ throw_if (not (length bytes == expected)) invalid_length
    ]

  unfoldable pub validate_address : Network → Bool → Bytes → Result (Unit {0})
  unfolding check_version_byte
  validate_address network skip_network bytes = do
    throw_if
        (not (length bytes == legacy_address_size_bytes)
          && not (length bytes == shielded_address_size_bytes))
        invalid_length
    throw_if (not (equals (last_four bytes) (get_checksum (but_last_four bytes)))) wrong_checksum
    if skip_network then ok tt else check_version_byte network bytes (get_elem? bytes 0)

  -- helpers.encodeAddress, which always takes the P2PKH version byte
  unfoldable pub encode_address : Bytes → Network → Result Bytes
  encode_address address_hash network = do
    throw_if (not (length address_hash == 20)) invalid_length
    let sliced_address = network.p2pkh ∷ address_hash
    ok (sliced_address ++ get_checksum sliced_address)
