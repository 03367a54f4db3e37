-- ===== src/Tx/RoundTrip.antt =====
-- The fields of a transaction survive toBytes and createFromBytes.
use hathor_wallet_lib.Prelude.{
  ℕ, ◌^◌, ◌<◌, ◌≡◌, refl, arith, true, none, some, List, [], ◌++◌, append_assoc, append-nil, length,
  All, length-append, take-append, drop-append, inl, inr,
}
use hathor_wallet_lib.Prelude.Int.{pos}
use hathor_wallet_lib.Result.{ok}
use hathor_wallet_lib.Buffer.{Bytes, IsByte, int_to_bytes}
use hathor_wallet_lib.Buffer.Ints.{unpack_to_int-int_to_bytes}
use hathor_wallet_lib.Hex.{
  Text, to_hex, hex_to_buffer, unpack_to_hex, hex_to_buffer-to_hex, unpack_to_hex-append,
}
use hathor_wallet_lib.Tx.Items.{write_all, read_all, IsReadBack, read_all-write_all}
use hathor_wallet_lib.Tx.Input.{Input, IsInput, tx_hash_size_bytes}
use hathor_wallet_lib.Tx.Output.{Output, IsOutput}
use hathor_wallet_lib.Tx.Input
use hathor_wallet_lib.Tx.Output
use hathor_wallet_lib.Tx.Transaction.{
  Double, IsExact, Transaction, new_transaction, timestamp_or_zero, unpack_to_float,
  serialize_inputs_outputs, serialize_funds_fields, serialize_graph_fields, fields_to_bytes,
  get_funds_fields_from_bytes, get_graph_fields_from_bytes, fields_from_bytes,
}

-- 32 bytes in lower-case hex.
pub data IsHash : Text → Type 0 where
  hash : (bs : Bytes) → length bs ≡ tx_hash_size_bytes → All IsByte bs → IsHash (to_hex bs)

hash_read : (t : Text) → IsHash t → IsReadBack hex_to_buffer (unpack_to_hex tx_hash_size_bytes) t
hash_read _ (hash bs size bytes) = (
  bs,
  hex_to_buffer-to_hex bs bytes,
  λ rest. unpack_to_hex-append tx_hash_size_bytes bs rest size,
)

module _ (double : Double) (exact : IsExact double) where
  -- Fields of the widths that they are written in, at most 255 of each list, and items that are read back.
  pub data IsTransaction : Transaction double → Type 1 where
    transaction :
        (s v time n : ℕ) (tokens parents : List Text) (inputs : List Input) (outputs : List Output)
        (w : double.Float)
        → s < 256
        → v < 256
        → time < 256 ^ 4
        → n < 256 ^ 4
        → length tokens < 256
        → length inputs < 256
        → length outputs < 256
        → length parents < 256
        → All IsHash tokens
        → All IsInput inputs
        → All IsOutput outputs
        → All IsHash parents
        → IsTransaction (record {
          signal_bits = pos s;
          version = pos v;
          tokens = tokens;
          inputs = inputs;
          outputs = outputs;
          weight = w;
          timestamp = some (pos time);
          parents = parents;
          nonce = pos n;
        })

  float_read :
      (w : double.Float) (rest : Bytes)
      → unpack_to_float double (double.set_float64 w ++ rest) ≡ ok (w, rest)
  unfolding unpack_to_float
  float_read w rest =
      rw
        (
          take-append 8 (double.set_float64 w) rest (exact.length_double w),
          drop-append 8 (double.set_float64 w) rest (exact.length_double w),
          exact.read_set w,
        )
        (ground (arith, length-append (double.set_float64 w) rest, exact.length_double w))

  module _ (s v : ℕ) (tokens : List Text) (inputs : List Input) (outputs : List Output)
      (hs : s < 256) (hv : v < 256) (ht : length tokens < 256) (hi : length inputs < 256)
      (ho : length outputs < 256) where
    funds_read :
        (this : Transaction double) (bt bi bo rest : Bytes)
        → ((more : Bytes)
            → read_all (unpack_to_hex tx_hash_size_bytes) (length tokens) (bt ++ more)
              ≡ ok (tokens, more))
        → ((more : Bytes)
            → read_all Input.create_from_bytes (length inputs) (bi ++ more) ≡ ok (inputs, more))
        → ((more : Bytes)
            → read_all Output.create_from_bytes (length outputs) (bo ++ more) ≡ ok (outputs, more))
        → get_funds_fields_from_bytes double this (
            int_to_bytes (pos s) 1
            ++ (int_to_bytes (pos v) 1
                ++ (int_to_bytes (pos (length tokens)) 1
                    ++ (int_to_bytes (pos (length inputs)) 1
                        ++ (int_to_bytes (pos (length outputs)) 1
                            ++ (bt ++ (bi ++ (bo ++ rest))))))))
          ≡ ok (
            record {
              signal_bits = pos s;
              version = pos v;
              tokens = this.tokens ++ tokens;
              inputs = this.inputs ++ inputs;
              outputs = this.outputs ++ outputs;
              weight = this.weight;
              timestamp = this.timestamp;
              parents = this.parents;
              nonce = this.nonce;
            },
            rest,
          )
    unfolding get_funds_fields_from_bytes
    funds_read this bt bi bo rest rt ri ro =
        let body = bt ++ (bi ++ (bo ++ rest)) in
        let b5 = int_to_bytes (pos (length outputs)) 1 ++ body in
        let b4 = int_to_bytes (pos (length inputs)) 1 ++ b5 in
        let b3 = int_to_bytes (pos (length tokens)) 1 ++ b4 in
        rw (
          unpack_to_int-int_to_bytes 1 s (int_to_bytes (pos v) 1 ++ b3) (inl refl) hs,
          unpack_to_int-int_to_bytes 1 v b3 (inl refl) hv,
          unpack_to_int-int_to_bytes 1 (length tokens) b4 (inl refl) ht,
          unpack_to_int-int_to_bytes 1 (length inputs) b5 (inl refl) hi,
          unpack_to_int-int_to_bytes 1 (length outputs) body (inl refl) ho,
          rt (bi ++ (bo ++ rest)),
          ri (bo ++ rest),
          ro rest,
        )

  module _ (w : double.Float) (time n : ℕ) (parents : List Text) (ht : time < 256 ^ 4)
      (hn : n < 256 ^ 4) (hp : length parents < 256) where
    graph_read :
        (this : Transaction double) (bp rest : Bytes)
        → ((more : Bytes)
            → read_all (unpack_to_hex tx_hash_size_bytes) (length parents) (bp ++ more)
              ≡ ok (parents, more))
        → get_graph_fields_from_bytes double this (
            double.set_float64 w
            ++ (int_to_bytes (pos time) 4
                ++ (int_to_bytes (pos (length parents)) 1
                    ++ (bp ++ (int_to_bytes (pos n) 4 ++ rest)))))
          ≡ ok (
            record {
              signal_bits = this.signal_bits;
              version = this.version;
              tokens = this.tokens;
              inputs = this.inputs;
              outputs = this.outputs;
              weight = w;
              timestamp = some (pos time);
              parents = this.parents ++ parents;
              nonce = pos n;
            },
            rest,
          )
    unfolding get_graph_fields_from_bytes
    graph_read this bp rest rp =
        let b4 = int_to_bytes (pos n) 4 ++ rest in
        let b3 = int_to_bytes (pos (length parents)) 1 ++ (bp ++ b4) in
        rw (
          float_read w (int_to_bytes (pos time) 4 ++ b3),
          unpack_to_int-int_to_bytes 4 time b3 (inr (inr refl)) ht,
          unpack_to_int-int_to_bytes 1 (length parents) (bp ++ b4) (inl refl) hp,
          rp b4,
          unpack_to_int-int_to_bytes 4 n rest (inr (inr refl)) hn,
        )

  -- The bytes of a transaction, from those of its lists.
  module _ (tx : Transaction double) (bt bi bo bp : Bytes) where
    abbrev funds_bytes : Bytes → Bytes
    funds_bytes rest =
        int_to_bytes tx.signal_bits 1
        ++ (int_to_bytes tx.version 1
            ++ (int_to_bytes (pos (length tx.tokens)) 1
                ++ (int_to_bytes (pos (length tx.inputs)) 1
                    ++ (int_to_bytes (pos (length tx.outputs)) 1 ++ (bt ++ (bi ++ (bo ++ rest)))))))

    abbrev graph_bytes : Bytes → Bytes
    graph_bytes rest =
        double.set_float64 tx.weight
        ++ (int_to_bytes (timestamp_or_zero double tx.timestamp) 4
            ++ (int_to_bytes (pos (length tx.parents)) 1
                ++ (bp ++ (int_to_bytes tx.nonce 4 ++ rest))))

    written :
        write_all hex_to_buffer tx.tokens ≡ ok bt
        → write_all (Input.serialize true) tx.inputs ≡ ok bi
        → write_all Output.serialize tx.outputs ≡ ok bo
        → write_all hex_to_buffer tx.parents ≡ ok bp
        → ((rest : Bytes)
            → fields_from_bytes double (funds_bytes (graph_bytes rest)) ≡ ok (tx, rest))
        → IsReadBack (fields_to_bytes double) (fields_from_bytes double) tx
    unfolding fields_to_bytes serialize_funds_fields serialize_graph_fields serialize_inputs_outputs
    written wt wi wo wp read = (
      funds_bytes (graph_bytes []),
      rw (wt, wi, wo, wp) (simp (append_assoc, append-nil) refl),
      λ rest. simp (append_assoc, append-nil) (read rest),
    )

  -- With the floats of the platform kept by their eight bytes: a transaction that has a timestamp, at
  -- most 255 tokens, inputs, outputs and parents, 32-byte hashes, fields of the widths that they are
  -- written in, inputs and outputs that are read back, and output scripts on which parseScript does not
  -- throw, is written by the part of toBytes before the headers, and the part of createFromBytes before
  -- the headers reads the same fields from the front of any buffer.
  pub fields_from_bytes-fields_to_bytes :
      (tx : Transaction double)
      → IsTransaction tx
      → IsReadBack (fields_to_bytes double) (fields_from_bytes double) tx
  unfolding fields_from_bytes
  fields_from_bytes-fields_to_bytes _
        (transaction s v time n tokens parents inputs outputs w hs hv ht hn lt li lo lp tok inp out
          par) =
      let (bt, wt, rt) =
        read_all-write_all hex_to_buffer (unpack_to_hex tx_hash_size_bytes) IsHash hash_read tokens
          tok in
      let (bi, wi, ri) =
        read_all-write_all (Input.serialize true) Input.create_from_bytes IsInput
          Input.input_round_trip inputs inp in
      let (bo, wo, ro) =
        read_all-write_all Output.serialize Output.create_from_bytes IsOutput
          Output.output_round_trip outputs out in
      let (bp, wp, rp) =
        read_all-write_all hex_to_buffer (unpack_to_hex tx_hash_size_bytes) IsHash hash_read parents
          par in
      let tx : Transaction double = record {
        signal_bits = pos s;
        version = pos v;
        tokens = tokens;
        inputs = inputs;
        outputs = outputs;
        weight = w;
        timestamp = some (pos time);
        parents = parents;
        nonce = pos n;
      } in
      let funds : Transaction double = record {
        signal_bits = pos s;
        version = pos v;
        tokens = tokens;
        inputs = inputs;
        outputs = outputs;
        weight = double.float_zero;
        timestamp = none;
        parents = [];
        nonce = pos 0;
      } in
      written tx bt bi bo bp wt wi wo wp (λ rest.
        let graph =
          double.set_float64 w
          ++ (int_to_bytes (pos time) 4
              ++ (int_to_bytes (pos (length parents)) 1
                  ++ (bp ++ (int_to_bytes (pos n) 4 ++ rest)))) in
        rw
          (funds_read s v tokens inputs outputs hs hv lt li lo (new_transaction double) bt bi bo
            graph rt ri ro)
          (graph_read w time n parents ht hn lp funds bp rest rp))
