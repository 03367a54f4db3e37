-- ===== src/Headers/MintMelt.antt =====
-- src/headers/mint_melt_entry.ts and mint_melt_header_base.ts: the mint and melt headers, which differ
-- in their id and name only.
pub mod RoundTrip
pub mod Validity
use hathor_wallet_lib.Prelude.{
  ℕ, zero, suc, ◌+◌, ◌*◌, ◌^◌, Bool, true, false, not, ◌||◌, Option, none, some, List, [], ◌∷◌,
  ◌++◌, ltb, ◌==◌, if◌then◌else◌, length, take, drop,
}
use hathor_wallet_lib.Prelude.Int.{ℤ, pos, ltb_ℤ}
use hathor_wallet_lib.Result.{
  Result, ok, err, ◌>>=◌, ◌>>◌, throw_if, wrong_header_id, too_many_entries, no_entries,
  duplicate_index, invalid_index, invalid_amount, not_enough_bytes, value_too_large,
}
use hathor_wallet_lib.Buffer.{Bytes, write_uint, read_uint, pattern_of}
use hathor_wallet_lib.Headers.Ids.{
  VertexHeaderId, same_id, get_vertex_header_id_buffer, get_vertex_header_id_from_buffer,
}
use hathor_wallet_lib.Headers.Fee.{seen_has}

-- IMintMeltEntry. `Number.isInteger` holds of an integer, the type of the index here.
pub record MintMeltEntry : Type 0 where
  pub token_index : ℤ
  pub amount : ℤ

abbrev pub max_mint_melt_entries : ℕ
max_mint_melt_entries = 16

abbrev pub entry_size : ℕ
entry_size = 1 + 8

-- `a < low || a > high`
abbrev outside : ℤ → ℤ → ℤ → Bool
outside a low high = ltb_ℤ a low || ltb_ℤ high a

unfoldable pub validate_mint_melt_entry : MintMeltEntry → Result (Unit {0})
validate_mint_melt_entry entry = do
  throw_if (outside entry.token_index (pos 1) (pos max_mint_melt_entries)) invalid_index
  throw_if (ltb_ℤ entry.amount (pos 1) || not (ltb_ℤ entry.amount (pos (2 ^ 64)))) invalid_amount

pub validate_loop : List ℤ → List MintMeltEntry → Result (Unit {0})
unfolding validate_mint_melt_entry
validate_loop seen [] = ok tt
validate_loop seen (entry ∷ entries) = do
  validate_mint_melt_entry entry
  throw_if (seen_has seen entry.token_index) duplicate_index
  validate_loop (entry.token_index ∷ seen) entries

unfoldable pub validate_mint_melt_entries : List MintMeltEntry → Result (Unit {0})
unfolding validate_loop
validate_mint_melt_entries entries = do
  throw_if (length entries == 0) no_entries
  throw_if (ltb max_mint_melt_entries (length entries)) too_many_entries
  validate_loop [] entries

-- `writeUInt8`, which throws out of range
unfoldable pub write_uint8 : ℤ → Result Bytes
write_uint8 v =
    throw_if (outside v (pos 0) (pos 255)) value_too_large >> ok (write_uint 1 (pattern_of 1 v))

pub serialize_loop : List MintMeltEntry → Result Bytes
unfolding write_uint8
serialize_loop [] = ok []
serialize_loop (entry ∷ entries) = do
  index ← write_uint8 entry.token_index
  rest ← serialize_loop entries
  ok (index ++ (write_uint 8 (pattern_of 8 entry.amount) ++ rest))

unfoldable pub serialize_mint_melt_entries : List MintMeltEntry → Result Bytes
unfolding serialize_loop
serialize_mint_melt_entries entries = do
  count ← write_uint8 (pos (length entries))
  body ← serialize_loop entries
  ok (count ++ body)

-- The `for` of deserializeMintMeltEntries; the buffer is the part from `offset` on.
pub deserialize_loop : List ℤ → ℕ → Bytes → Result (List MintMeltEntry)
deserialize_loop seen zero buf = ok []
deserialize_loop seen (suc n) buf = do
  let token_index = read_uint (take 1 buf)
  let amount = read_uint (take 8 (drop 1 buf))
  throw_if (ltb token_index 1) invalid_index
  throw_if (ltb max_mint_melt_entries token_index) invalid_index
  throw_if (ltb amount 1) invalid_amount
  throw_if (seen_has seen (pos token_index)) duplicate_index
  entries ← deserialize_loop (pos token_index ∷ seen) n (drop 8 (drop 1 buf))
  ok (record { token_index = pos token_index; amount = pos amount } ∷ entries)

unfoldable pub deserialize_mint_melt_entries : Bytes → Result (List MintMeltEntry × Bytes)
unfolding deserialize_loop
deserialize_mint_melt_entries buf = do
  throw_if (ltb (length buf) 1) not_enough_bytes
  let num_entries = read_uint (take 1 buf)
  throw_if (ltb num_entries 1) no_entries
  throw_if (ltb max_mint_melt_entries num_entries) too_many_entries
  let needed = 1 + num_entries * entry_size
  throw_if (ltb (length buf) needed) not_enough_bytes
  entries ← deserialize_loop [] num_entries (drop 1 buf)
  ok (entries, drop needed buf)

-- MintMeltHeaderBase.serialize; serializeFields and serializeSighash are calls of it.
unfoldable pub serialize : VertexHeaderId → List MintMeltEntry → Result Bytes
unfolding validate_mint_melt_entries serialize_mint_melt_entries
serialize id entries = do
  validate_mint_melt_entries entries
  body ← serialize_mint_melt_entries entries
  ok (get_vertex_header_id_buffer id ++ body)

unfoldable pub deserialize : VertexHeaderId → Bytes → Result (List MintMeltEntry × Bytes)
unfolding deserialize_mint_melt_entries
deserialize id src_buf = do
  found ← get_vertex_header_id_from_buffer src_buf
  throw_if (not (same_id found id)) wrong_header_id
  deserialize_mint_melt_entries (drop 1 src_buf)
