-- ===== src/Address/Laws.antt =====
-- Addresses that the library builds are addresses that it accepts.
use hathor_wallet_lib.Prelude.{
  ℕ, ◌≡◌, ◌≢◌, refl, arith, Bool, true, false, [], ◌∷◌, ◌++◌, ◌⊎◌, length, length-append,
  length-take, take-append, drop-append,
}
use hathor_wallet_lib.Result.{ok}
use hathor_wallet_lib.Buffer.{Bytes}
use hathor_wallet_lib.Address.{
  Network, Hash, equals, get_checksum, validate_address, encode_address, last_four, but_last_four,
}

pub equals_refl : (xs : Bytes) → equals xs xs ≡ true
unfolding equals
equals_refl [] = refl
equals_refl (x ∷ xs) = ground (arith, equals_refl xs)

pub equals→eq : (xs ys : Bytes) → equals xs ys ≡ true → xs ≡ ys
unfolding equals
equals→eq [] [] h = refl
equals→eq (x ∷ xs) (y ∷ ys) h = ground (arith, equals→eq xs ys)
equals→eq [] (y ∷ ys) h = cc
equals→eq (x ∷ xs) [] h = cc

pub last_four-append : (xs c : Bytes) → length c ≡ 4 → last_four (xs ++ c) ≡ c
last_four-append xs c e = drop-append _ xs c (omega (arith, length-append xs c))

pub but_last_four-append : (xs c : Bytes) → length c ≡ 4 → but_last_four (xs ++ c) ≡ xs
but_last_four-append xs c e = take-append _ xs c (omega (arith, length-append xs c))

module _ (hash : Hash) where
  pub length-get_checksum : (bytes : Bytes) → length (get_checksum hash bytes) ≡ 4
  unfolding get_checksum
  length-get_checksum bytes =
      omega (arith, length-take 4 (hash.sha256sha256 bytes), hash.size bytes)

  -- The address of a public key hash.
  abbrev pub p2pkh_address : Network → Bytes → Bytes
  p2pkh_address network h = (network.p2pkh ∷ h) ++ get_checksum hash (network.p2pkh ∷ h)

  pub encode_address-p2pkh :
      (network : Network) (h : Bytes)
      → length h ≡ 20
      → encode_address hash h network ≡ ok (p2pkh_address network h)
  unfolding encode_address
  encode_address-p2pkh network h e = ground arith

  -- A legacy address of the network: a version byte, a hash of 20 bytes and the checksum.
  abbrev pub legacy_address : ℕ → Bytes → Bytes
  legacy_address version h = (version ∷ h) ++ get_checksum hash (version ∷ h)

  pub length-legacy_address :
      (version : ℕ) (h : Bytes) → length h ≡ 20 → length (legacy_address version h) ≡ 25
  length-legacy_address version h e = omega (
    arith,
    length-append (version ∷ h) (get_checksum hash (version ∷ h)),
    length-get_checksum (version ∷ h),
  )

  -- A well-formed P2PKH or P2SH address passes validateAddress, where the shielded version byte is
  -- another one.
  pub validate_address-legacy :
      (network : Network) (version : ℕ) (h : Bytes)
      → length h ≡ 20
      → (version ≡ network.p2pkh) ⊎ (version ≡ network.p2sh)
      → network.shielded ≢ version
      → validate_address hash network false (legacy_address version h) ≡ ok tt
  unfolding validate_address
  validate_address-legacy network version h e kind ne =
      let front = version ∷ h in
      let sum = get_checksum hash front in
      let size = length-get_checksum front in
      ground (
        arith,
        length-append front sum,
        size,
        last_four-append front sum size,
        but_last_four-append front sum size,
        equals_refl sum,
      )

  -- validateAddress accepts no bytes whose last four are not the checksum of the others, whatever the
  -- network, and whether or not the network is checked.
  pub validate_address-checksum :
      (network : Network) (skip : Bool) (bytes : Bytes)
      → validate_address hash network skip bytes ≡ ok tt
      → (last_four bytes ≡ get_checksum hash (but_last_four bytes))
        × ((length bytes ≡ 25) ⊎ (length bytes ≡ 71))
  unfolding validate_address
  validate_address-checksum network skip bytes h =
      ground (arith, equals→eq (last_four bytes) (get_checksum hash (but_last_four bytes)))
