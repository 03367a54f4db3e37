-- ===== src/Headers/Fee.antt =====
-- src/headers/fee.ts: the header that says which tokens pay the fee.
pub mod Validity
pub mod RoundTrip
use hathor_wallet_lib.Prelude.{
  ℕ, zero, suc, ◌+◌, Bool, true, false, not, ◌||◌, Option, none, some, List, [], ◌∷◌, ◌++◌, map,
  ltb, if◌then◌else◌, length, drop,
}
use hathor_wallet_lib.Prelude.Int.{ℤ, pos, pos_part, ltb_ℤ, eq_ℤ}
use hathor_wallet_lib.Result.{
  Result, ok, err, ◌>>=◌, ◌>>◌, throw_if, wrong_header_id, too_many_entries, duplicate_index,
  invalid_index, invalid_amount,
}
use hathor_wallet_lib.Buffer.{
  Bytes, int_to_bytes, unpack_to_int, output_value_to_bytes, bytes_to_output_value,
}
use hathor_wallet_lib.Headers.Ids.{
  VertexHeaderId, fee_header, same_id, get_vertex_header_id_buffer,
  get_vertex_header_id_from_buffer,
}

-- IFeeEntry
pub record FeeEntry : Type 0 where
  pub token_index : ℤ
  pub amount : ℤ

abbrev pub max_fee_header_entries : ℕ
max_fee_header_entries = 16

-- The `for` of serializeFields.
pub serialize_entries : List FeeEntry → Result Bytes
serialize_entries [] = ok []
serialize_entries (entry ∷ entries) = do
  amount ← output_value_to_bytes entry.amount
  rest ← serialize_entries entries
  ok (int_to_bytes entry.token_index 1 ++ amount ++ rest)

unfoldable pub serialize_fields : List FeeEntry → Result Bytes
unfolding serialize_entries
serialize_fields entries = do
  body ← serialize_entries entries
  ok (get_vertex_header_id_buffer fee_header ++ int_to_bytes (pos (length entries)) 1 ++ body)

-- serializeSighash and serialize are calls of serializeFields.
abbrev pub serialize_sighash : List FeeEntry → Result Bytes
serialize_sighash entries = serialize_fields entries

abbrev pub serialize : List FeeEntry → Result Bytes
serialize entries = serialize_fields entries

-- The `for` of deserialize.
pub deserialize_entries : ℕ → Bytes → Result (List FeeEntry × Bytes)
deserialize_entries zero buf = ok ([], buf)
deserialize_entries (suc n) buf = do
  (token_index, buf') ← unpack_to_int 1 false buf
  (amount, buf'') ← bytes_to_output_value buf'
  (entries, rest) ← deserialize_entries n buf''
  ok (record { token_index = token_index; amount = amount } ∷ entries, rest)

unfoldable pub deserialize : Bytes → Result (List FeeEntry × Bytes)
unfolding deserialize_entries
deserialize src_buf = do
  id ← get_vertex_header_id_from_buffer src_buf
  throw_if (not (same_id id fee_header)) wrong_header_id
  (num_entries, buf) ← unpack_to_int 1 false (drop 1 src_buf)
  deserialize_entries (pos_part num_entries) buf

pub get_fee_for_token_index : List FeeEntry → ℤ → Option ℤ
get_fee_for_token_index [] token_index = none
get_fee_for_token_index (e ∷ entries) token_index =
    if eq_ℤ e.token_index token_index
    then some e.amount
    else get_fee_for_token_index entries token_index

pub has_token_index : List FeeEntry → ℤ → Bool
has_token_index [] token_index = false
has_token_index (e ∷ entries) token_index =
    eq_ℤ e.token_index token_index || has_token_index entries token_index

abbrev pub get_token_indexes : List FeeEntry → List ℤ
get_token_indexes entries = map (λ e. e.token_index) entries

-- `seenIndexes.has(i)`
unfoldable pub seen_has : List ℤ → ℤ → Bool
seen_has [] i = false
seen_has (s ∷ seen) i = eq_ℤ s i || seen_has seen i

validate_entries : List ℤ → List FeeEntry → Result (Unit {0})
validate_entries seen [] = ok tt
validate_entries seen (entry ∷ entries) = do
  throw_if (seen_has seen entry.token_index) duplicate_index
  throw_if (ltb_ℤ entry.token_index (pos 0)) invalid_index
  throw_if (not (ltb_ℤ (pos 0) entry.amount)) invalid_amount
  validate_entries (entry.token_index ∷ seen) entries

unfoldable pub validate : List FeeEntry → Result (Unit {0})
unfolding validate_entries seen_has
validate entries =
    throw_if (ltb max_fee_header_entries (length entries)) too_many_entries
    >> validate_entries [] entries
