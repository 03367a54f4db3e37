-- ===== src/Headers/Fee/RoundTrip.antt =====
-- FeeHeader.deserialize undoes FeeHeader.serialize.
use hathor_wallet_lib.Prelude.{
  ℕ, ◌<◌, ◌≡◌, refl, arith, List, [], ◌∷◌, ◌++◌, append_assoc, length, All,
}
use hathor_wallet_lib.Prelude.Int.{pos}
use hathor_wallet_lib.Result.{ok}
use hathor_wallet_lib.Buffer.{Bytes, int_to_bytes}
use hathor_wallet_lib.Buffer.Ints.{unpack_to_int-int_to_bytes}
use hathor_wallet_lib.Buffer.Values.{
  IsOutputValue, value_bytes, output_value_to_bytes-eq, bytes_to_output_value-value_bytes,
}
use hathor_wallet_lib.Headers.Ids.{fee_header, header_id_round_trip, get_vertex_header_id_buffer}
use hathor_wallet_lib.Headers.Fee.{
  FeeEntry, serialize_entries, serialize_fields, deserialize_entries, deserialize,
}

-- A token index of one byte, and an amount that an output can hold.
pub data IsEncodable : FeeEntry → Type 0 where
  encodable :
      (i v : ℕ)
      → i < 256
      → IsOutputValue v
      → IsEncodable (record { token_index = pos i; amount = pos v })

-- The bytes of entries are `bytes`, and are read back.
abbrev EntriesRead : List FeeEntry → Bytes → Type 0
EntriesRead es bytes =
    (serialize_entries es ≡ ok bytes)
    × ((rest : Bytes) → deserialize_entries (length es) (bytes ++ rest) ≡ ok (es, rest))

entry_read :
    (e : FeeEntry) (es : List FeeEntry) (bytes : Bytes)
    → IsEncodable e
    → EntriesRead es bytes
    → (more : Bytes) × EntriesRead (e ∷ es) more
unfolding serialize_entries deserialize_entries
entry_read _ es bytes (encodable i v hi hv) (w, r) = (
  int_to_bytes (pos i) 1 ++ value_bytes v ++ bytes,
  (
    rw (output_value_to_bytes-eq v hv, w),
    λ rest. simp append_assoc (
        rw (
          unpack_to_int-int_to_bytes 1 i (value_bytes v ++ (bytes ++ rest)) (omega arith) hi,
          bytes_to_output_value-value_bytes v (bytes ++ rest) hv,
          r rest,
        )),
  ),
)

entries_read : (es : List FeeEntry) → All IsEncodable es → (bytes : Bytes) × EntriesRead es bytes
unfolding serialize_entries deserialize_entries
entries_read [] h = ([], (refl, λ rest. refl))
entries_read (e ∷ es) (he, h) = let (bytes, r) = entries_read es h in entry_read e es bytes he r

-- A fee header of fewer than 256 entries, each with a token index of one byte and an amount that an
-- output can hold, is serialized, and deserialize reads the same entries back from the front of any
-- buffer.
pub fee_header_round_trip :
    (entries : List FeeEntry)
    → length entries < 256
    → All IsEncodable entries
    → (bytes : Bytes) × (serialize_fields entries ≡ ok bytes)
      × ((rest : Bytes) → deserialize (bytes ++ rest) ≡ ok (entries, rest))
unfolding serialize_fields deserialize
fee_header_round_trip entries size h =
    let (bytes, both) = entries_read entries h in
    let (w, r) = both in
    let count = int_to_bytes (pos (length entries)) 1 in
    (
      get_vertex_header_id_buffer fee_header ++ count ++ bytes,
      rw w,
      λ rest. simp append_assoc (
          rw (header_id_round_trip fee_header (count ++ (bytes ++ rest))) (
            unfold get_vertex_header_id_buffer in
            rw (
              unpack_to_int-int_to_bytes 1 (length entries) (bytes ++ rest) (omega arith) size,
              r rest,
            ))),
    )
