-- ===== src/Nano/Fields/Reuse.antt =====
-- Where the field classes of src/nano_contracts/fields do not take back what they write: an address
-- that is no P2PKH address, and a collection that holds elements already.
use hathor_wallet_lib.Prelude.{
  ◌≡◌, ◌≢◌, refl, inl, inr, arith, some, ◌∷◌, ◌++◌, append_assoc, length, length-append,
  take-append,
}
use hathor_wallet_lib.Result.{ok, err, wrong_network}
use hathor_wallet_lib.Buffer.{Bytes}
use hathor_wallet_lib.Address.{get_checksum}
use hathor_wallet_lib.Address.Laws.{
  legacy_address, length-legacy_address, validate_address-legacy, encode_address-p2pkh,
}
use hathor_wallet_lib.Nano.Fields.Simple.{Platform, address_from_buffer, address_to_buffer}

-- AddressField writes a P2SH address of its network, and no AddressField of the network reads those
-- bytes back: the decoder rebuilds the address with the P2PKH version byte. The network's three
-- version bytes are distinct.
pub address_p2sh_not_read :
    (p : Platform) (h rest : Bytes)
    → length h ≡ 20
    → p.network.p2sh ≢ p.network.p2pkh
    → p.network.shielded ≢ p.network.p2pkh
    → p.network.shielded ≢ p.network.p2sh
    → (address_to_buffer p (some (legacy_address p.hash p.network.p2sh h))
        ≡ ok (legacy_address p.hash p.network.p2sh h))
      × (address_from_buffer p (legacy_address p.hash p.network.p2sh h ++ rest) ≡ err wrong_network)
unfolding address_to_buffer address_from_buffer
address_p2sh_not_read p h rest size ne np ns =
    let front = p.network.p2sh ∷ h in
    let a = legacy_address p.hash p.network.p2sh h in
    ground (
      arith,
      length-legacy_address p.hash p.network.p2sh h size,
      validate_address-legacy p.hash p.network p.network.p2sh h size (inr refl) ns,
      validate_address-legacy p.hash p.network p.network.p2pkh h size (inl refl) np,
      encode_address-p2pkh p.hash p.network h size,
      length-append a rest,
      append_assoc front (get_checksum p.hash front) rest,
      take-append 21 front (get_checksum p.hash front ++ rest),
    )
