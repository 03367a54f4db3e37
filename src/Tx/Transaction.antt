-- ===== src/Tx/Transaction.antt =====
-- src/models/transaction.ts: the funds and graph fields of a transaction, as bytes. A weight is a 64-bit
-- float of the platform, `Double`. The hash, the cache of the data to sign and the headers are left out.
use hathor_wallet_lib.Prelude.{
  ◌≡◌, Bool, true, false, Option, none, some, List, [], ◌∷◌, ◌++◌, length, ltb, if◌then◌else◌, take,
  drop,
}
use hathor_wallet_lib.Prelude.Int.{ℤ, pos, pos_part, ◌+ℤ◌}
use hathor_wallet_lib.Result.{Result, ok, ◌>>=◌, ◌>>◌, throw_if, not_enough_bytes}
use hathor_wallet_lib.Buffer.{Bytes, int_to_bytes, unpack_to_int}
use hathor_wallet_lib.Hex.{Text, hex_to_buffer, unpack_to_hex}
use hathor_wallet_lib.Tx.Items.{write_all, read_all}
use hathor_wallet_lib.Tx.Input.{Input, IsInput, tx_hash_size_bytes}
use hathor_wallet_lib.Tx.Output.{Output, IsOutput}
use hathor_wallet_lib.Tx.Input
use hathor_wallet_lib.Tx.Output

-- `setFloat64` and `readDoubleBE`, in big endian.
pub record Double : Type 1 where
  pub Float : Type 0
  pub float_zero : Float
  pub set_float64 : Float → Bytes
  pub read_double : Bytes → Float

-- Eight bytes, which stand for the float that they were made of.
pub record IsExact (double : Double) : Type 0 where
  pub length_double : (w : double.Float) → length (double.set_float64 w) ≡ 8
  pub read_set : (w : double.Float) → double.read_double (double.set_float64 w) ≡ w

module _ (double : Double) where
  pub record Transaction : Type 0 where
    pub signal_bits : ℤ
    pub version : ℤ
    pub tokens : List Text
    pub inputs : List Input
    pub outputs : List Output
    pub weight : double.Float
    pub timestamp : Option ℤ
    pub parents : List Text
    pub nonce : ℤ

  -- `new Transaction([], [])`
  abbrev pub new_transaction : Transaction
  new_transaction = record {
    signal_bits = pos 0;
    version = pos 1;
    tokens = [];
    inputs = [];
    outputs = [];
    weight = double.float_zero;
    timestamp = none;
    parents = [];
    nonce = pos 0;
  }

  -- floatToBytes at its one size, and unpackToFloat
  abbrev pub float_to_bytes : double.Float → Bytes
  float_to_bytes value = double.set_float64 value

  unfoldable pub unpack_to_float : Bytes → Result (double.Float × Bytes)
  unpack_to_float buff =
      throw_if (ltb (length buff) 8) not_enough_bytes
      >> ok (double.read_double (take 8 buff), drop 8 buff)

  abbrev pub serialize_tokens_array : Transaction → Result Bytes
  serialize_tokens_array tx = write_all hex_to_buffer tx.tokens

  abbrev pub serialize_funds_fields_len : Transaction → Bytes
  serialize_funds_fields_len tx =
      int_to_bytes (pos (length tx.inputs)) 1 ++ int_to_bytes (pos (length tx.outputs)) 1

  unfoldable pub serialize_inputs_outputs : Bool → Transaction → Result Bytes
  serialize_inputs_outputs add_input_data tx = do
    inputs ← write_all (Input.serialize add_input_data) tx.inputs
    outputs ← write_all Output.serialize tx.outputs
    ok (inputs ++ outputs)

  unfoldable pub serialize_funds_fields : Bool → Transaction → Result Bytes
  unfolding serialize_inputs_outputs
  serialize_funds_fields add_input_data tx = do
    tokens ← serialize_tokens_array tx
    items ← serialize_inputs_outputs add_input_data tx
    ok (
        int_to_bytes tx.signal_bits 1
        ++ (int_to_bytes tx.version 1
            ++ (int_to_bytes (pos (length tx.tokens)) 1
                ++ (serialize_funds_fields_len tx ++ (tokens ++ items)))))

  -- A null timestamp is written as 0 by `setUint32`.
  abbrev pub timestamp_or_zero : Option ℤ → ℤ
  timestamp_or_zero none = pos 0
  timestamp_or_zero (some t) = t

  unfoldable pub serialize_graph_fields : Transaction → Result Bytes
  serialize_graph_fields tx = do
    parents ← write_all hex_to_buffer tx.parents
    ok (
        float_to_bytes tx.weight
        ++ (int_to_bytes (timestamp_or_zero tx.timestamp) 4
            ++ (int_to_bytes (pos (length tx.parents)) 1 ++ parents)))

  abbrev pub serialize_nonce : Transaction → Bytes
  serialize_nonce tx = int_to_bytes tx.nonce 4

  -- toBytes, up to the headers.
  unfoldable pub fields_to_bytes : Transaction → Result Bytes
  unfolding serialize_funds_fields serialize_graph_fields
  fields_to_bytes tx = do
    funds ← serialize_funds_fields true tx
    graph ← serialize_graph_fields tx
    ok (funds ++ (graph ++ serialize_nonce tx))

  -- The fields are pushed onto `this`, whose arrays are passed in.
  unfoldable pub get_funds_fields_from_bytes : Transaction → Bytes → Result (Transaction × Bytes)
  get_funds_fields_from_bytes this src_buf = do
    (signal_bits, buf1) ← unpack_to_int 1 false src_buf
    (version, buf2) ← unpack_to_int 1 false buf1
    (len_tokens, buf3) ← unpack_to_int 1 false buf2
    (len_inputs, buf4) ← unpack_to_int 1 false buf3
    (len_outputs, buf5) ← unpack_to_int 1 false buf4
    (tokens, buf6) ← read_all (unpack_to_hex tx_hash_size_bytes) (pos_part len_tokens) buf5
    (inputs, buf7) ← read_all Input.create_from_bytes (pos_part len_inputs) buf6
    (outputs, buf8) ← read_all Output.create_from_bytes (pos_part len_outputs) buf7
    ok (
      record {
        signal_bits = signal_bits;
        version = version;
        tokens = this.tokens ++ tokens;
        inputs = this.inputs ++ inputs;
        outputs = this.outputs ++ outputs;
        weight = this.weight;
        timestamp = this.timestamp;
        parents = this.parents;
        nonce = this.nonce;
      },
      buf8,
    )

  unfoldable pub get_graph_fields_from_bytes : Transaction → Bytes → Result (Transaction × Bytes)
  unfolding unpack_to_float
  get_graph_fields_from_bytes this src_buf = do
    (weight, buf1) ← unpack_to_float src_buf
    (timestamp, buf2) ← unpack_to_int 4 false buf1
    (parents_len, buf3) ← unpack_to_int 1 false buf2
    (parents, buf4) ← read_all (unpack_to_hex tx_hash_size_bytes) (pos_part parents_len) buf3
    (nonce, buf5) ← unpack_to_int 4 false buf4
    ok (
      record {
        signal_bits = this.signal_bits;
        version = this.version;
        tokens = this.tokens;
        inputs = this.inputs;
        outputs = this.outputs;
        weight = weight;
        timestamp = some timestamp;
        parents = this.parents ++ parents;
        nonce = nonce;
      },
      buf5,
    )

  -- createFromBytes, up to the headers; the rest of the buffer is theirs.
  unfoldable pub fields_from_bytes : Bytes → Result (Transaction × Bytes)
  unfolding get_funds_fields_from_bytes get_graph_fields_from_bytes
  fields_from_bytes buf = do
    (tx, buf1) ← get_funds_fields_from_bytes new_transaction buf
    get_graph_fields_from_bytes tx buf1

  -- getOutputsSum, of the outputs that are no authorities
  pub get_outputs_sum : List Output → ℤ
  get_outputs_sum [] = pos 0
  get_outputs_sum (output ∷ outputs) =
      if Output.is_authority output
      then get_outputs_sum outputs
      else output.value +ℤ get_outputs_sum outputs
