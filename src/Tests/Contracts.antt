-- ===== src/Tests/Contracts.antt =====
-- Runs for src/models/address.ts and src/nano_contracts/fields, on a platform whose hash is constant.
use hathor_wallet_lib.Prelude.{◌≡◌, ◌⊎◌, inr, refl, arith, false, some, [], ◌∷◌, ◌++◌, length}
use hathor_wallet_lib.Prelude.Int.{pos, negsuc}
use hathor_wallet_lib.Result.{ok, err, wrong_network}
use hathor_wallet_lib.Buffer.{Bytes, zeros}
use hathor_wallet_lib.Address.{
  Network, Hash, validate_address, get_checksum, last_four, but_last_four,
}
use hathor_wallet_lib.Address.Laws.{
  legacy_address, validate_address-legacy, validate_address-checksum,
}
use hathor_wallet_lib.Nano.Fields.Types.{
  SimpleType, TypeNode, Value, simple, optional, list, tuple, node, no_nodes, absent, present,
  items, each, basic, no_values, value, int_value, bytes_value,
}
use hathor_wallet_lib.Nano.Fields.Simple.{Platform, address_from_buffer, address_to_buffer}
use hathor_wallet_lib.Nano.Fields.{Reader}
use hathor_wallet_lib.Nano.Fields.Reuse.{address_p2sh_not_read}

abbrev test_network : Network
test_network = record { p2pkh = 40; p2sh = 100; shielded = 60 }

length-zeros : (bytes : Bytes) → length (zeros 32) ≡ 32
length-zeros bytes = refl

abbrev zero_hash : Hash
zero_hash = record { sha256sha256 = λ bytes. zeros 32; size = length-zeros }

abbrev test_platform : Platform
test_platform = record {
  utf8 = record { encode = λ t. t; decode = λ b. b };
  hash = zero_hash;
  network = test_network;
}

abbrev key_hash : Bytes
key_hash = zeros 20

validate_address-legacy_example :
    validate_address zero_hash test_network false (legacy_address zero_hash 100 key_hash) ≡ ok tt
validate_address-legacy_example =
    validate_address-legacy zero_hash test_network 100 key_hash refl (inr refl) (omega arith)

validate_address-checksum_example :
    (last_four (legacy_address zero_hash 100 key_hash)
      ≡ get_checksum zero_hash (but_last_four (legacy_address zero_hash 100 key_hash)))
    × ((length (legacy_address zero_hash 100 key_hash) ≡ 25)
        ⊎ (length (legacy_address zero_hash 100 key_hash) ≡ 71))
validate_address-checksum_example =
    validate_address-checksum zero_hash test_network false (legacy_address zero_hash 100 key_hash)
      validate_address-legacy_example

address_p2sh_not_read_example :
    (address_to_buffer test_platform (some (legacy_address zero_hash 100 key_hash))
      ≡ ok (legacy_address zero_hash 100 key_hash))
    × (address_from_buffer test_platform (legacy_address zero_hash 100 key_hash ++ [])
        ≡ err wrong_network)
address_p2sh_not_read_example =
    address_p2sh_not_read test_platform key_hash [] refl (omega arith) (omega arith) (omega arith)

-- A tuple of an optional list of integers and of bytes.
abbrev test_type : TypeNode
test_type =
    tuple (node (optional (list (simple SimpleType.int))) (node (simple SimpleType.bytes) no_nodes))

abbrev test_value : Value
test_value = each (
    value
      (present (
        items
          (value (basic (int_value (negsuc 199))) (value (basic (int_value (pos 5))) no_values))))
      (value (basic (bytes_value (1 ∷ 2 ∷ []))) no_values))

-- A reader of one byte.
abbrev byte_reader : Reader Value
byte_reader buf = ok (record { value = absent; bytes_read = 1 })
