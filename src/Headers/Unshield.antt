-- ===== src/Headers/Unshield.antt =====
-- src/headers/unshield_balance.ts: the header of a full-unshield transaction. The header's one field is
-- its excess blinding factor, so a header is modelled by those bytes; what the constructor refuses is
-- `unshield_balance_header`.
use hathor_wallet_lib.Prelude.{
  ℕ, ◌≡◌, arith, not, ◌++◌, length, length-append, take, drop, take-append, drop-append, ltb, ◌==◌,
}
use hathor_wallet_lib.Result.{
  Result, ok, ◌>>=◌, ◌>>◌, throw_if, invalid_length, wrong_header_id, not_enough_bytes,
}
use hathor_wallet_lib.Buffer.{Bytes}
use hathor_wallet_lib.Headers.Ids.{
  VertexHeaderId, same_id, get_vertex_header_id_buffer, get_vertex_header_id_from_buffer,
}

abbrev pub excess_blinding_factor_size : ℕ
excess_blinding_factor_size = 32

-- The constructor.
unfoldable pub unshield_balance_header : Bytes → Result Bytes
unshield_balance_header excess =
    throw_if (not (length excess == excess_blinding_factor_size)) invalid_length >> ok excess

-- serializeAll, which serialize, serializeFields and serializeSighash call
unfoldable pub serialize_all : Bytes → Bytes
serialize_all excess = get_vertex_header_id_buffer VertexHeaderId.unshield_balance_header ++ excess

unfoldable pub deserialize : Bytes → Result (Bytes × Bytes)
unfolding unshield_balance_header
deserialize src_buf = do
  id ← get_vertex_header_id_from_buffer src_buf
  throw_if (not (same_id id VertexHeaderId.unshield_balance_header)) wrong_header_id
  let buf = drop 1 src_buf
  throw_if (ltb (length buf) excess_blinding_factor_size) not_enough_bytes
  header ← unshield_balance_header (take excess_blinding_factor_size buf)
  ok (header, drop excess_blinding_factor_size buf)

-- A header that the constructor accepts is read back from the front of any buffer.
pub unshield_header_round_trip :
    (excess rest : Bytes)
    → unshield_balance_header excess ≡ ok excess
    → deserialize (serialize_all excess ++ rest) ≡ ok (excess, rest)
unfolding deserialize serialize_all unshield_balance_header get_vertex_header_id_buffer
    get_vertex_header_id_from_buffer
unshield_header_round_trip excess rest h =
    let size : length excess ≡ 32 = ground arith in
    ground (
      arith,
      length-append excess rest,
      take-append 32 excess rest size,
      drop-append 32 excess rest size,
    )
