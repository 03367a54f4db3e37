-- ===== src/Nano/Fields/Typing.antt =====
-- The values that a field of a type can hold and write.
use hathor_wallet_lib.Prelude.{ℕ, ◌≤◌, ◌≡◌, ◌⊎◌, some, length, All, Bool, false}
use hathor_wallet_lib.Prelude.Int.{ℤ, pos}
use hathor_wallet_lib.Buffer.{Bytes, IsByte}
use hathor_wallet_lib.Buffer.Ints.{InRange}
use hathor_wallet_lib.Hex.{Text, to_hex}
use hathor_wallet_lib.Address.Laws.{p2pkh_address}
use hathor_wallet_lib.Nano.Encoding.{nc_args_max_bytes_length}
use hathor_wallet_lib.Nano.Fields.Types.{
  SimpleType, TypeNode, TypeNodes, Value, Values, Entries, simple, optional, raw_signed_data,
  signed_data, dict, tuple, list, set, deque, frozenset, no_nodes, node, absent, present, items,
  each, pairs, signed, basic, no_values, value, no_entries, entry, CallerId, caller_address,
  caller_contract, Basic, text_value, int_value, bool_value, address_value, caller_value,
  timestamp_value, amount_value, uid_value, bytes_value, bytes32_value, is_null,
}
use hathor_wallet_lib.Nano.Fields.Simple.{Platform, native_token_uid}

abbrev pub IsShort : Bytes → Type 0
IsShort buf = length buf ≤ nc_args_max_bytes_length

-- HTR's uid, or 32 bytes in the lower-case hex that the decoder writes.
abbrev pub IsUid : Text → Type 0
IsUid uid =
    (uid ≡ native_token_uid) ⊎ ((bs : Bytes) × (uid ≡ to_hex bs) × (length bs ≡ 32) × All IsByte bs)

module _ (p : Platform) where
  -- A P2PKH address of the platform's network.
  abbrev pub IsP2pkh : Bytes → Type 0
  IsP2pkh address = (h : Bytes) × (address ≡ p2pkh_address p.hash p.network h) × (length h ≡ 20)

  abbrev pub IsCaller : CallerId → Type 0
  IsCaller (caller_address a) = IsP2pkh a
  IsCaller (caller_contract c) = length c ≡ 32

  -- A text has to survive UTF-8, and fit the limit of 64 KiB in that form.
  pub data BasicHasType : SimpleType → Basic → Type 0 where
    str_has :
        (t : Text)
        → p.utf8.decode (p.utf8.encode t) ≡ t
        → IsShort (p.utf8.encode t)
        → BasicHasType SimpleType.str (text_value t)
    int_has : (v : ℤ) → BasicHasType SimpleType.int (int_value v)
    bool_has : (b : Bool) → BasicHasType SimpleType.bool (bool_value b)
    address_has : (a : Bytes) → IsP2pkh a → BasicHasType SimpleType.address (address_value (some a))
    caller_has :
        (c : CallerId) → IsCaller c → BasicHasType SimpleType.caller_id (caller_value (some c))
    timestamp_has : (t : ℤ) → InRange 4 t → BasicHasType SimpleType.timestamp (timestamp_value t)
    amount_has : (n : ℕ) → BasicHasType SimpleType.amount (amount_value (pos n))
    uid_has : (u : Text) → IsUid u → BasicHasType SimpleType.token_uid (uid_value u)
    bytes_has : (b : Bytes) → IsShort b → BasicHasType SimpleType.bytes (bytes_value b)
    script_has : (b : Bytes) → IsShort b → BasicHasType SimpleType.tx_output_script (bytes_value b)
    blueprint_has :
        (b : Bytes) → length b ≡ 32 → BasicHasType SimpleType.blueprint_id (bytes32_value b)
    contract_has :
        (b : Bytes) → length b ≡ 32 → BasicHasType SimpleType.contract_id (bytes32_value b)
    vertex_has : (b : Bytes) → length b ≡ 32 → BasicHasType SimpleType.vertex_id (bytes32_value b)

  mutual
    pub data HasType : TypeNode → Value → Type 0 where
      simple_has : {s : SimpleType} {b : Basic} → BasicHasType s b → HasType (simple s) (basic b)
      absent_has : (t : TypeNode) → HasType (optional t) absent
      present_has :
          {t : TypeNode} {v : Value}
          → HasType t v
          → is_null v ≡ false
          → HasType (optional t) (present v)
      raw_signed_has :
          {t : TypeNode} {v : Value} (subtype : Text) (signature : Bytes)
          → HasType t v
          → IsShort signature
          → HasType (raw_signed_data t subtype) (signed v subtype signature)
      signed_has :
          {t : TypeNode} {v : Value} (subtype : Text) (signature : Bytes)
          → HasType t v
          → IsShort signature
          → HasType (signed_data t subtype) (signed v subtype signature)
      dict_has :
          {k v : TypeNode} {es : Entries} → EntriesHaveType k v es → HasType (dict k v) (pairs es)
      tuple_has : {ts : TypeNodes} {vs : Values} → EachHasType ts vs → HasType (tuple ts) (each vs)
      list_has : {t : TypeNode} {vs : Values} → AllHaveType t vs → HasType (list t) (items vs)
      set_has : {t : TypeNode} {vs : Values} → AllHaveType t vs → HasType (set t) (items vs)
      deque_has : {t : TypeNode} {vs : Values} → AllHaveType t vs → HasType (deque t) (items vs)
      frozenset_has :
          {t : TypeNode} {vs : Values} → AllHaveType t vs → HasType (frozenset t) (items vs)

    -- The elements of a tuple, each of its own type.
    pub data EachHasType : TypeNodes → Values → Type 0 where
      each_nil : EachHasType no_nodes no_values
      each_cons :
          {t : TypeNode} {ts : TypeNodes} {v : Value} {vs : Values}
          → HasType t v
          → EachHasType ts vs
          → EachHasType (node t ts) (value v vs)

    -- The elements of a collection, of one type.
    pub data AllHaveType : TypeNode → Values → Type 0 where
      all_nil : (t : TypeNode) → AllHaveType t no_values
      all_cons :
          {t : TypeNode} {v : Value} {vs : Values}
          → HasType t v
          → AllHaveType t vs
          → AllHaveType t (value v vs)

    pub data EntriesHaveType : TypeNode → TypeNode → Entries → Type 0 where
      entries_nil : (k v : TypeNode) → EntriesHaveType k v no_entries
      entries_cons :
          {k v : TypeNode} {a b : Value} {es : Entries}
          → HasType k a
          → HasType v b
          → EntriesHaveType k v es
          → EntriesHaveType k v (entry a b es)
