-- ===== src/Nano/Fields/Types.antt =====
-- The type nodes of src/nano_contracts/ncTypes/parser.ts, and the values that fields hold.
use hathor_wallet_lib.Prelude.{ℕ, zero, suc, Bool, true, false, Option, none}
use hathor_wallet_lib.Prelude.Int.{ℤ}
use hathor_wallet_lib.Buffer.{Bytes}
use hathor_wallet_lib.Hex.{Text}

-- `simpleTypes`
pub data SimpleType : Type 0 where
  str int bool address caller_id timestamp amount token_uid bytes tx_output_script : SimpleType
  blueprint_id contract_id vertex_id : SimpleType

mutual
  pub data TypeNode : Type 0 where
    simple : SimpleType → TypeNode
    optional : TypeNode → TypeNode
    raw_signed_data signed_data : TypeNode → Text → TypeNode
    dict : TypeNode → TypeNode → TypeNode
    tuple : TypeNodes → TypeNode
    list set deque frozenset : TypeNode → TypeNode

  pub data TypeNodes : Type 0 where
    no_nodes : TypeNodes
    node : TypeNode → TypeNodes → TypeNodes

-- CallerIdInner
pub data CallerId : Type 0 where
  caller_address caller_contract : Bytes → CallerId

-- What a field of a simple type holds. An address is the bytes of its base58 text, and `none` is the
-- `null` of a field that nothing was read into.
pub data Basic : Type 0 where
  text_value : Text → Basic
  int_value : ℤ → Basic
  bool_value : Bool → Basic
  address_value : Option Bytes → Basic
  caller_value : Option CallerId → Basic
  timestamp_value : ℤ → Basic
  amount_value : ℤ → Basic
  uid_value : Text → Basic
  bytes_value : Bytes → Basic
  bytes32_value : Bytes → Basic

-- What a field holds: the inner fields of a container, in order. The container's own `value` is a
-- copy of theirs.
mutual
  pub data Value : Type 0 where
    basic : Basic → Value
    absent : Value
    present : Value → Value
    items : Values → Value
    each : Values → Value
    pairs : Entries → Value
    signed : Value → Text → Bytes → Value

  pub data Values : Type 0 where
    no_values : Values
    value : Value → Values → Values

  pub data Entries : Type 0 where
    no_entries : Entries
    entry : Value → Value → Entries → Entries

abbrev pub length_values : Values → ℕ
length_values no_values = zero
length_values (value v vs) = suc (length_values vs)

abbrev pub length_entries : Entries → ℕ
length_entries no_entries = zero
length_entries (entry k v es) = suc (length_entries es)

-- Whether the `value` of a field is `null`: an OptionalField's is that of the field inside.
abbrev pub is_null : Value → Bool
is_null (basic (address_value none)) = true
is_null (basic (caller_value none)) = true
is_null absent = true
is_null (present v) = is_null v
is_null _ = false

abbrev pub append_values : Values → Values → Values
append_values no_values ws = ws
append_values (value v vs) ws = value v (append_values vs ws)
