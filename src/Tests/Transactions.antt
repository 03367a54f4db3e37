-- ===== src/Tests/Transactions.antt =====
-- Runs for src/models, on a platform whose floats are numbers of eight bytes that are all zero.
use hathor_wallet_lib.Prelude.{◌++◌, ℕ, List, ◌^◌, ◌≡◌, refl, arith, some, [], ◌∷◌, All}
use hathor_wallet_lib.Prelude.Int.{pos}
use hathor_wallet_lib.Buffer.{Bytes, zeros, IsByte}
use hathor_wallet_lib.Hex.{to_hex}
use hathor_wallet_lib.Result.{ok, err, invalid_header_id, no_data}
use hathor_wallet_lib.Headers.Ids.{VertexHeaderId}
use hathor_wallet_lib.Headers.Fee.{FeeEntry, seen_has}
use hathor_wallet_lib.Headers.Fee.RoundTrip.{encodable}
use hathor_wallet_lib.Headers.MintMelt.{MintMeltEntry, validate_mint_melt_entries}
use hathor_wallet_lib.Tx.Headers.{
  HeaderClass, Header, IsHeader, serialize_headers, get_headers_from_bytes,
  get_headers_from_bytes-serialize_headers,
}
use hathor_wallet_lib.Tx.Supported.{get_header, fee_header-IsHeader, mint_melt_header-IsHeader}
use hathor_wallet_lib.Tx.Whole.{
  to_bytes, create_from_bytes, create_from_bytes-to_bytes, create_from_bytes_trailing,
}
use hathor_wallet_lib.Tx.Input.{Input, input, with_data, IsInput}
use hathor_wallet_lib.Tx.Script.{
  parse_script, is_p2pkh, is_p2sh, parse_script_data, new_script_data, get_push_data, caught,
  script_data,
}
use hathor_wallet_lib.Tx.Output.{Output, output, IsOutput}
use hathor_wallet_lib.Tx.Transaction.{Double, IsExact, Transaction}
use hathor_wallet_lib.Tx.RoundTrip.{IsTransaction, transaction, hash}

abbrev unit_double : Double
unit_double = record {
  Float = Unit;
  float_zero = tt;
  set_float64 = λ w. zeros 8;
  read_double = λ b. tt;
}

unit_double-IsExact : IsExact unit_double
unit_double-IsExact = record { length_double = λ w. refl; read_set = λ w. refl }

zeros-IsByte : All IsByte (zeros 32)
zeros-IsByte = ground arith

abbrev test_input : Input
test_input = record { hash = to_hex (zeros 32); index = pos 3; input_data = some (7 ∷ []) }

test_input-IsInput : IsInput test_input
test_input-IsInput =
    input (zeros 32) 3 (some (7 ∷ [])) refl zeros-IsByte (omega arith)
      (with_data (7 ∷ []) (omega arith) (omega arith))

abbrev test_output : Output
test_output = record { value = pos (2 ^ 31); token_data = 129; script = 1 ∷ 2 ∷ 0xac ∷ [] }

test_script : parse_script (1 ∷ 2 ∷ 0xac ∷ []) ≡ ok (some (script_data (2 ∷ [])))
unfolding parse_script is_p2pkh is_p2sh parse_script_data new_script_data get_push_data caught
test_script = refl

-- createFromBytes throws on a script that pushes no data.
empty_push : parse_script (0 ∷ 0xac ∷ []) ≡ err no_data
unfolding parse_script is_p2pkh is_p2sh parse_script_data new_script_data get_push_data caught
empty_push = refl

test_output-IsOutput : IsOutput test_output
test_output-IsOutput =
    output (2 ^ 31) 129 (1 ∷ 2 ∷ 0xac ∷ []) (omega arith, omega arith) (omega arith) (omega arith)
      (some (script_data (2 ∷ []))) test_script

abbrev test_tx : Transaction unit_double
test_tx = record {
  signal_bits = pos 0;
  version = pos 1;
  tokens = to_hex (zeros 32) ∷ [];
  inputs = test_input ∷ [];
  outputs = test_output ∷ [];
  weight = tt;
  timestamp = some (pos 1700000000);
  parents = [];
  nonce = pos 12;
}

test_tx-IsTransaction : IsTransaction unit_double unit_double-IsExact test_tx
test_tx-IsTransaction =
    transaction 0 1 1700000000 12 (to_hex (zeros 32) ∷ []) [] (test_input ∷ []) (test_output ∷ [])
      tt (omega arith) (omega arith) (omega arith) (omega arith) (omega arith) (omega arith)
      (omega arith) (omega arith) (hash (zeros 32) refl zeros-IsByte, tt) (test_input-IsInput, tt)
      (test_output-IsOutput, tt) tt

-- A class in the place of those that are not modelled: its fields are a byte and it refuses to read.
abbrev closed_class : HeaderClass
closed_class = record {
  Fields = ℕ;
  serialize = λ b. ok (b ∷ []);
  deserialize = λ buf. err invalid_header_id;
}

abbrev one_fee : List FeeEntry
one_fee = record { token_index = pos 0; amount = pos 5 } ∷ []

abbrev one_mint : List MintMeltEntry
one_mint = record { token_index = pos 1; amount = pos 9 } ∷ []

one_mint-valid : validate_mint_melt_entries one_mint ≡ ok tt
unfolding validate_mint_melt_entries seen_has
one_mint-valid = refl

abbrev test_headers : List (Header (get_header closed_class closed_class))
test_headers = (VertexHeaderId.fee_header, one_fee) ∷ (VertexHeaderId.melt_header, one_mint) ∷ []

test_headers-IsHeader : All (IsHeader (get_header closed_class closed_class)) test_headers
test_headers-IsHeader = (
  fee_header-IsHeader closed_class closed_class one_fee (omega arith)
      (encodable 0 5 (omega arith) (omega arith, omega arith), tt),
  ((mint_melt_header-IsHeader closed_class closed_class one_mint one_mint-valid).1, tt),
)

get_headers_from_bytes-serialize_headers_example :
    (bytes : Bytes) × (serialize_headers (get_header closed_class closed_class) test_headers
      ≡ ok bytes)
    × (get_headers_from_bytes (get_header closed_class closed_class) bytes ≡ ok test_headers)
get_headers_from_bytes-serialize_headers_example =
    get_headers_from_bytes-serialize_headers (get_header closed_class closed_class) test_headers
      test_headers-IsHeader

mint_melt_header-IsHeader_example :
    IsHeader (get_header closed_class closed_class) (VertexHeaderId.mint_header, one_mint)
    × IsHeader (get_header closed_class closed_class) (VertexHeaderId.melt_header, one_mint)
mint_melt_header-IsHeader_example =
    mint_melt_header-IsHeader closed_class closed_class one_mint one_mint-valid

create_from_bytes-to_bytes_example :
    (bytes : Bytes) × (to_bytes unit_double
        (get_header closed_class closed_class)
        test_tx
        test_headers
      ≡ ok bytes)
    × (create_from_bytes unit_double (get_header closed_class closed_class) bytes
        ≡ ok (test_tx, test_headers))
create_from_bytes-to_bytes_example =
    create_from_bytes-to_bytes unit_double (get_header closed_class closed_class)
      unit_double-IsExact test_tx test_headers test_tx-IsTransaction test_headers-IsHeader

create_from_bytes_trailing_example :
    (bytes : Bytes) × (to_bytes unit_double (get_header closed_class closed_class) test_tx []
      ≡ ok bytes)
    × (create_from_bytes unit_double (get_header closed_class closed_class) (bytes ++ 7 ∷ [])
        ≡ ok (test_tx, []))
create_from_bytes_trailing_example =
    create_from_bytes_trailing unit_double (get_header closed_class closed_class)
      unit_double-IsExact test_tx 7 test_tx-IsTransaction
