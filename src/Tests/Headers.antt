-- ===== src/Tests/Headers.antt =====
-- Runs for src/headers.
use hathor_wallet_lib.Prelude.{◌^◌, ◌≤◌, ◌≡◌, refl, arith, ◌↔◌, List, [], ◌∷◌, ◌++◌, All}
use hathor_wallet_lib.Prelude.Int.{pos}
use hathor_wallet_lib.Result.{ok}
use hathor_wallet_lib.Buffer.{Bytes, IsByte, read_uint}
use hathor_wallet_lib.Headers.Ids.{VertexHeaderId}
use hathor_wallet_lib.Headers.Fee.{FeeEntry, serialize_fields, validate, seen_has}
use hathor_wallet_lib.Headers.Fee as FeeHeader
use hathor_wallet_lib.Headers.Fee.RoundTrip.{fee_header_round_trip, encodable}
use hathor_wallet_lib.Headers.Fee.Validity.{AreValid, validate_iff}
use hathor_wallet_lib.Headers.MintMelt.{
  MintMeltEntry, validate_mint_melt_entries, deserialize_mint_melt_entries,
}
use hathor_wallet_lib.Headers.MintMelt as MintMeltHeader
use hathor_wallet_lib.Headers.MintMelt.RoundTrip.{mint_melt_header_round_trip}
use hathor_wallet_lib.Headers.MintMelt.Validity.{deserialize_mint_melt_entries-valid}
use hathor_wallet_lib.Headers.Unshield.{
  serialize_all, unshield_balance_header, unshield_header_round_trip,
}
use hathor_wallet_lib.Headers.Unshield as UnshieldHeader

abbrev two_fees : List FeeEntry
two_fees =
    record { token_index = pos 0; amount = pos 5 }
    ∷ record { token_index = pos 2; amount = pos (2 ^ 31) }
    ∷ []

fee_header_round_trip_example :
    (bytes : Bytes) × (serialize_fields two_fees ≡ ok bytes)
    × ((rest : Bytes) → FeeHeader.deserialize (bytes ++ rest) ≡ ok (two_fees, rest))
fee_header_round_trip_example = fee_header_round_trip two_fees (omega arith) (
  encodable 0 5 (omega arith) (omega arith, omega arith),
  (encodable 2 (2 ^ 31) (omega arith) (omega arith, omega arith), tt),
)

validate_iff_example : (validate two_fees ≡ ok tt) ↔ ((2 ≤ 16) × AreValid [] two_fees)
validate_iff_example = validate_iff two_fees

abbrev one_mint : List MintMeltEntry
one_mint = record { token_index = pos 1; amount = pos 9 } ∷ []

one_mint_valid : validate_mint_melt_entries one_mint ≡ ok tt
unfolding validate_mint_melt_entries seen_has
one_mint_valid = refl

mint_melt_header_round_trip_example :
    (bytes : Bytes) × (MintMeltHeader.serialize VertexHeaderId.melt_header one_mint ≡ ok bytes)
    × ((rest : Bytes)
        → MintMeltHeader.deserialize VertexHeaderId.melt_header (bytes ++ rest)
          ≡ ok (one_mint, rest))
mint_melt_header_round_trip_example =
    mint_melt_header_round_trip VertexHeaderId.melt_header one_mint one_mint_valid

abbrev mint_bytes : Bytes
mint_bytes = 1 ∷ 1 ∷ 0 ∷ 0 ∷ 0 ∷ 0 ∷ 0 ∷ 0 ∷ 0 ∷ 9 ∷ 77 ∷ []

mint_bytes_read : deserialize_mint_melt_entries mint_bytes ≡ ok (one_mint, 77 ∷ [])
unfolding deserialize_mint_melt_entries read_uint seen_has
mint_bytes_read = refl

mint_bytes-IsByte : All IsByte mint_bytes
mint_bytes-IsByte = ground arith

deserialize_mint_melt_entries-valid_example : validate_mint_melt_entries one_mint ≡ ok tt
deserialize_mint_melt_entries-valid_example =
    deserialize_mint_melt_entries-valid mint_bytes (77 ∷ []) one_mint mint_bytes-IsByte
      mint_bytes_read

abbrev excess : Bytes
excess =
    1 ∷ 2 ∷ 3 ∷ 4 ∷ 5 ∷ 6 ∷ 7 ∷ 8 ∷ 1 ∷ 2 ∷ 3 ∷ 4 ∷ 5 ∷ 6 ∷ 7 ∷ 8 ∷ 1 ∷ 2 ∷ 3 ∷ 4 ∷ 5 ∷ 6 ∷ 7 ∷ 8
    ∷ 1 ∷ 2 ∷ 3 ∷ 4 ∷ 5 ∷ 6 ∷ 7 ∷ 8 ∷ []

excess_accepted : unshield_balance_header excess ≡ ok excess
unfolding unshield_balance_header
excess_accepted = refl

unshield_header_round_trip_example :
    UnshieldHeader.deserialize (serialize_all excess ++ 5 ∷ []) ≡ ok (excess, 5 ∷ [])
unshield_header_round_trip_example = unshield_header_round_trip excess (5 ∷ []) excess_accepted
