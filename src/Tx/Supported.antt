-- ===== src/Tx/Supported.antt =====
-- The table of header classes of src/headers/parser.ts, with the classes that are not modelled, those
-- of nano contracts and shielded outputs, as arguments; and that the others serve a transaction.
use hathor_wallet_lib.Prelude.{
  ◌≤◌, ◌<◌, ◌≡◌, refl, arith, ◌⊎◌, inl, inr, List, ◌++◌, append_assoc, length, length-append, All,
}
use hathor_wallet_lib.Prelude.Int.{pos}
use hathor_wallet_lib.Result.{Error, Result, ok, err, ◌>>=◌}
use hathor_wallet_lib.Buffer.{Bytes, int_to_bytes, write_uint}
use hathor_wallet_lib.Buffer.Ints.{length-int_to_bytes}
use hathor_wallet_lib.Headers.Ids.{
  VertexHeaderId, get_vertex_header_id_buffer, header_id_round_trip,
}
use hathor_wallet_lib.Headers.Fee.{FeeEntry, serialize_entries, serialize_fields}
use hathor_wallet_lib.Headers.Fee as FeeHeader
use hathor_wallet_lib.Headers.Fee.RoundTrip.{fee_header_round_trip, IsEncodable}
use hathor_wallet_lib.Headers.MintMelt.{
  MintMeltEntry, write_uint8, serialize_mint_melt_entries, validate_mint_melt_entries,
}
use hathor_wallet_lib.Headers.MintMelt as MintMeltHeader
use hathor_wallet_lib.Headers.MintMelt.RoundTrip.{mint_melt_header_round_trip}
use hathor_wallet_lib.Headers.Unshield as UnshieldHeader
use hathor_wallet_lib.Headers.Unshield.{
  serialize_all, unshield_balance_header, unshield_header_round_trip,
}
use hathor_wallet_lib.Tx.Headers.{HeaderClass, IsHeader}

abbrev pub get_header : HeaderClass → HeaderClass → VertexHeaderId → HeaderClass
get_header nano shielded VertexHeaderId.nano_header = nano
get_header nano shielded VertexHeaderId.fee_header = record {
  Fields = List FeeEntry;
  serialize = FeeHeader.serialize;
  deserialize = FeeHeader.deserialize;
}
get_header nano shielded VertexHeaderId.shielded_outputs_header = shielded
get_header nano shielded VertexHeaderId.unshield_balance_header = record {
  Fields = Bytes;
  serialize = λ excess. ok (UnshieldHeader.serialize_all excess);
  deserialize = UnshieldHeader.deserialize;
}
get_header nano shielded VertexHeaderId.mint_header = record {
  Fields = List MintMeltEntry;
  serialize = MintMeltHeader.serialize VertexHeaderId.mint_header;
  deserialize = MintMeltHeader.deserialize VertexHeaderId.mint_header;
}
get_header nano shielded VertexHeaderId.melt_header = record {
  Fields = List MintMeltEntry;
  serialize = MintMeltHeader.serialize VertexHeaderId.melt_header;
  deserialize = MintMeltHeader.deserialize VertexHeaderId.melt_header;
}

Result-cases : (m : Result Bytes) → ((b : Bytes) × (m ≡ ok b)) ⊎ ((e : Error) × (m ≡ err e))
Result-cases (ok b) = inl (b, refl)
Result-cases (err e) = inr (e, refl)

-- What a header's body is written behind, and the least that it is long.
front_of :
    (m : Result Bytes) (front : Bytes) (f : Bytes → Bytes) (bytes : Bytes)
    → ((b : Bytes) → 1 ≤ length (f b))
    → (m >>= λ b. ok (front ++ f b)) ≡ ok bytes
    → (more : Bytes) × (bytes ≡ front ++ more) × (1 ≤ length more)
front_of (ok b) front f bytes l h = (f b, cc, l b)
front_of (err e) front f bytes l h = cc

fee_front :
    (es : List FeeEntry) (bytes : Bytes)
    → serialize_fields es ≡ ok bytes
    → (more : Bytes) × (bytes ≡ get_vertex_header_id_buffer VertexHeaderId.fee_header ++ more)
      × (1 ≤ length more)
unfolding serialize_fields get_vertex_header_id_buffer int_to_bytes
fee_front es bytes h =
    let count = int_to_bytes (pos (length es)) 1 in
    front_of (serialize_entries es) (get_vertex_header_id_buffer VertexHeaderId.fee_header)
      (λ b. count ++ b) bytes
      (λ b.
        omega (arith, length-append count b, length-int_to_bytes 1 (pos (length es)) (inl refl)))
      h

body_long :
    (es : List MintMeltEntry) (b : Bytes) → serialize_mint_melt_entries es ≡ ok b → 1 ≤ length b
unfolding serialize_mint_melt_entries write_uint8 write_uint
body_long es b h = ground (arith)

mint_melt_front :
    (id : VertexHeaderId) (es : List MintMeltEntry) (bytes : Bytes)
    → validate_mint_melt_entries es ≡ ok tt
    → MintMeltHeader.serialize id es ≡ ok bytes
    → (more : Bytes) × (bytes ≡ get_vertex_header_id_buffer id ++ more) × (1 ≤ length more)
unfolding MintMeltHeader.serialize get_vertex_header_id_buffer
mint_melt_front id es bytes v h = elim (Result-cases (serialize_mint_melt_entries es)) [
  | inl (b, e) ↦ (b, ground (arith, v), body_long es b e)
  | inr (x, e) ↦ absurd (ground (arith, v))
]

module _ (nano shielded : HeaderClass) where
  -- From the bytes that a header class writes and reads back, with the id in front.
  read-IsHeader :
      (id : VertexHeaderId) (fields : (get_header nano shielded id).Fields) (bytes more : Bytes)
      → (get_header nano shielded id).serialize fields ≡ ok bytes
      → ((rest : Bytes)
          → (get_header nano shielded id).deserialize (bytes ++ rest) ≡ ok (fields, rest))
      → bytes ≡ get_vertex_header_id_buffer id ++ more
      → 1 ≤ length more
      → IsHeader (get_header nano shielded) (id, fields)
  read-IsHeader id fields bytes more w r e l = (
    bytes,
    w,
    rw e (unfold get_vertex_header_id_buffer in omega arith),
    λ rest. rw (e, append_assoc) (header_id_round_trip id (more ++ rest)),
    r,
  )

  -- A fee header of fewer than 256 entries that fit their fields serves a transaction.
  pub fee_header-IsHeader :
      (es : List FeeEntry)
      → length es < 256
      → All IsEncodable es
      → IsHeader (get_header nano shielded) (VertexHeaderId.fee_header, es)
  fee_header-IsHeader es size h =
      let (bytes, w, r) = fee_header_round_trip es size h in
      let (more, e, l) = fee_front es bytes w in
      read-IsHeader VertexHeaderId.fee_header es bytes more w r e l

  -- So does the header of a full unshield.
  pub unshield-IsHeader :
      (excess : Bytes)
      → unshield_balance_header excess ≡ ok excess
      → IsHeader (get_header nano shielded) (VertexHeaderId.unshield_balance_header, excess)
  unfolding UnshieldHeader.serialize_all UnshieldHeader.unshield_balance_header
  unshield-IsHeader excess h =
      read-IsHeader VertexHeaderId.unshield_balance_header excess (serialize_all excess) excess refl
        (λ rest. unshield_header_round_trip excess rest h) refl (ground arith)

  -- And valid entries of a mint or a melt header.
  pub mint_melt_header-IsHeader :
      (es : List MintMeltEntry)
      → validate_mint_melt_entries es ≡ ok tt
      → IsHeader (get_header nano shielded) (VertexHeaderId.mint_header, es)
        × IsHeader (get_header nano shielded) (VertexHeaderId.melt_header, es)
  mint_melt_header-IsHeader es v =
      let (bytes, w, r) = mint_melt_header_round_trip VertexHeaderId.mint_header es v in
      let (more, e, l) = mint_melt_front VertexHeaderId.mint_header es bytes v w in
      let (bytes', w', r') = mint_melt_header_round_trip VertexHeaderId.melt_header es v in
      let (more', e', l') = mint_melt_front VertexHeaderId.melt_header es bytes' v w' in
      (
        read-IsHeader VertexHeaderId.mint_header es bytes more w r e l,
        read-IsHeader VertexHeaderId.melt_header es bytes' more' w' r' e' l',
      )
