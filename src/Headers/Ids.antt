-- ===== src/Headers/Ids.antt =====
-- src/headers/types.ts: the byte that a header begins with.
use hathor_wallet_lib.Prelude.{ℕ, ◌≡◌, refl, Bool, [], ◌∷◌, ◌++◌, ◌==◌, if◌then◌else◌}
use hathor_wallet_lib.Result.{Result, ok, err, invalid_header_id, not_enough_bytes}
use hathor_wallet_lib.Buffer.{Bytes}

pub data VertexHeaderId : Type 0 where
  nano_header fee_header shielded_outputs_header : VertexHeaderId
  unshield_balance_header mint_header melt_header : VertexHeaderId

-- The enum's value, as the number that its two hex digits stand for.
abbrev pub id_byte : VertexHeaderId → ℕ
id_byte VertexHeaderId.nano_header = 0x10
id_byte VertexHeaderId.fee_header = 0x11
id_byte VertexHeaderId.shielded_outputs_header = 0x12
id_byte VertexHeaderId.unshield_balance_header = 0x13
id_byte VertexHeaderId.mint_header = 0x14
id_byte VertexHeaderId.melt_header = 0x15

unfoldable pub get_vertex_header_id_buffer : VertexHeaderId → Bytes
get_vertex_header_id_buffer id = id_byte id ∷ []

unfoldable pub get_vertex_header_id_from_buffer : Bytes → Result VertexHeaderId
get_vertex_header_id_from_buffer [] = err not_enough_bytes
get_vertex_header_id_from_buffer (b ∷ bs) =
    if b == 0x10
    then ok VertexHeaderId.nano_header
    else if b == 0x11
    then ok VertexHeaderId.fee_header
    else if b == 0x12
    then ok VertexHeaderId.shielded_outputs_header
    else if b == 0x13
    then ok VertexHeaderId.unshield_balance_header
    else if b == 0x14
    then ok VertexHeaderId.mint_header
    else if b == 0x15
    then ok VertexHeaderId.melt_header
    else err invalid_header_id

-- `id === other`
abbrev pub same_id : VertexHeaderId → VertexHeaderId → Bool
same_id a b = id_byte a == id_byte b

-- Every id is read back.
pub header_id_round_trip :
    (id : VertexHeaderId) (rest : Bytes)
    → get_vertex_header_id_from_buffer (get_vertex_header_id_buffer id ++ rest) ≡ ok id
unfolding get_vertex_header_id_from_buffer get_vertex_header_id_buffer
header_id_round_trip VertexHeaderId.nano_header rest = refl
header_id_round_trip VertexHeaderId.fee_header rest = refl
header_id_round_trip VertexHeaderId.shielded_outputs_header rest = refl
header_id_round_trip VertexHeaderId.unshield_balance_header rest = refl
header_id_round_trip VertexHeaderId.mint_header rest = refl
header_id_round_trip VertexHeaderId.melt_header rest = refl
