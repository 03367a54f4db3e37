-- ===== src/Headers/MintMelt/RoundTrip.antt =====
-- What a mint or melt header serializes, it deserializes; and what it deserializes is valid.
use native.Mathlib.Nat.{mod-eq_of_lt}
use mathlib.Core.Path.{subst}
use hathor_wallet_lib.Prelude.{
  ℕ, ◌*◌, ◌^◌, ◌≤◌, ◌<◌, ◌≡◌, refl, sym, arith, false, List, [], ◌∷◌, ◌++◌, append_assoc, length,
  length-append, take-append, drop-append, drop-add,
}
use hathor_wallet_lib.Prelude.Int.{ℤ, pos, pos_part}
use hathor_wallet_lib.Result.{ok}
use hathor_wallet_lib.Buffer.{Bytes, write_uint}
use hathor_wallet_lib.Buffer.Ints.{length-write_uint, read_uint-write_uint}
use hathor_wallet_lib.Headers.Ids.{
  VertexHeaderId, get_vertex_header_id_buffer, header_id_round_trip,
}
use hathor_wallet_lib.Headers.Fee.{seen_has}
use hathor_wallet_lib.Headers.MintMelt.{
  MintMeltEntry, entry_size, validate_mint_melt_entry, validate_loop, validate_mint_melt_entries,
  write_uint8, serialize_loop, serialize_mint_melt_entries, deserialize_loop,
  deserialize_mint_melt_entries, serialize, deserialize,
}

validated :
    (e : MintMeltEntry)
    → validate_mint_melt_entry e ≡ ok tt
    → (i a : ℕ) × (e ≡ record { token_index = pos i; amount = pos a })
      × (1 ≤ i)
      × (i ≤ 16)
      × (1 ≤ a)
      × (a < 2 ^ 64)
unfolding validate_mint_melt_entry
validated e h = (
  pos_part e.token_index,
  pos_part e.amount,
  ground arith,
  ground arith,
  ground arith,
  ground arith,
  ground arith,
)

-- The bytes of validated entries, from a state of the loops.
abbrev Reads : List ℤ → List MintMeltEntry → Bytes → Type 0
Reads seen es bytes =
    (serialize_loop es ≡ ok bytes)
    × (length bytes ≡ length es * entry_size)
    × ((rest : Bytes) → deserialize_loop seen (length es) (bytes ++ rest) ≡ ok es)

write_uint8-small : (i : ℕ) → i < 256 → write_uint8 (pos i) ≡ ok (write_uint 1 i)
unfolding write_uint8
write_uint8-small i h = ground arith

entry-Reads :
    (seen : List ℤ) (i a : ℕ) (es : List MintMeltEntry) (bytes : Bytes)
    → 1 ≤ i
    → i ≤ 16
    → 1 ≤ a
    → a < 2 ^ 64
    → seen_has seen (pos i) ≡ false
    → Reads (pos i ∷ seen) es bytes
    → Reads seen
        (record { token_index = pos i; amount = pos a } ∷ es)
        (write_uint 1 i ++ (write_uint 8 a ++ bytes))
unfolding serialize_loop deserialize_loop
entry-Reads seen i a es bytes lo hi la ha s (w, n, r) = (
  rw (write_uint8-small i (omega arith), w, mod-eq_of_lt {n = a} {m = 2 ^ 64} ha),
  omega (
    arith,
    length-append (write_uint 1 i) (write_uint 8 a ++ bytes),
    length-append (write_uint 8 a) bytes,
    length-write_uint 1 i,
    length-write_uint 8 a,
    n,
  ),
  λ rest. simp append_assoc (
      rw
        (
          take-append 1 (write_uint 1 i) (write_uint 8 a ++ (bytes ++ rest))
              (length-write_uint 1 i),
          drop-append 1 (write_uint 1 i) (write_uint 8 a ++ (bytes ++ rest))
              (length-write_uint 1 i),
          take-append 8 (write_uint 8 a) (bytes ++ rest) (length-write_uint 8 a),
          drop-append 8 (write_uint 8 a) (bytes ++ rest) (length-write_uint 8 a),
          read_uint-write_uint 1 i (omega arith),
          read_uint-write_uint 8 a ha,
          r rest,
        )
        (ground arith)),
)

entries_read :
    (seen : List ℤ) (es : List MintMeltEntry)
    → validate_loop seen es ≡ ok tt
    → (bytes : Bytes) × Reads seen es bytes
unfolding validate_loop serialize_loop deserialize_loop
entries_read seen [] h = ([], (refl, refl, λ rest. refl))
entries_read seen (e ∷ es) h =
    let (i, a, same, lo, hi, la, ha) = validated e (ground arith) in
    subst (λ x. validate_loop seen (x ∷ es) ≡ ok tt → (bytes : Bytes) × Reads seen (x ∷ es) bytes)
      (sym same)
      (λ h'.
        let (bytes, reads) = entries_read (pos i ∷ seen) es (ground arith) in
        (
          write_uint 1 i ++ (write_uint 8 a ++ bytes),
          entry-Reads seen i a es bytes lo hi la ha (ground arith) reads,
        ))
      h

entries_valid :
    (es : List MintMeltEntry)
    → validate_mint_melt_entries es ≡ ok tt
    → (validate_loop [] es ≡ ok tt) × (1 ≤ length es) × (length es ≤ 16)
unfolding validate_mint_melt_entries
entries_valid es h = (ground arith, ground arith, ground arith)

module _ (es : List MintMeltEntry) (lo : 1 ≤ length es) (hi : length es ≤ 16) where
  all_written :
      (bytes : Bytes)
      → serialize_loop es ≡ ok bytes
      → serialize_mint_melt_entries es ≡ ok (write_uint 1 (length es) ++ bytes)
  unfolding serialize_mint_melt_entries
  all_written bytes w = rw (write_uint8-small (length es) (omega arith), w)

  all_read :
      (bytes rest : Bytes)
      → length bytes ≡ length es * entry_size
      → deserialize_loop [] (length es) (bytes ++ rest) ≡ ok es
      → deserialize_mint_melt_entries (write_uint 1 (length es) ++ (bytes ++ rest)) ≡ ok (es, rest)
  unfolding deserialize_mint_melt_entries
  all_read bytes rest n r =
      let count = write_uint 1 (length es) in
      rw
        (
          take-append 1 count (bytes ++ rest) (length-write_uint 1 (length es)),
          drop-append 1 count (bytes ++ rest) (length-write_uint 1 (length es)),
          read_uint-write_uint 1 (length es) (omega arith),
          r,
          drop-add 1 (length es * entry_size) (count ++ (bytes ++ rest)),
          drop-append 1 count (bytes ++ rest) (length-write_uint 1 (length es)),
          drop-append (length es * entry_size) bytes rest n,
        )
        (ground (
          arith,
          n,
          length-append count (bytes ++ rest),
          length-append bytes rest,
          length-write_uint 1 (length es),
        ))

-- What a mint or melt header of either id serializes, its entries being valid, deserialize reads back
-- from the front of any buffer.
pub mint_melt_header_round_trip :
    (id : VertexHeaderId) (entries : List MintMeltEntry)
    → validate_mint_melt_entries entries ≡ ok tt
    → (bytes : Bytes) × (serialize id entries ≡ ok bytes)
      × ((rest : Bytes) → deserialize id (bytes ++ rest) ≡ ok (entries, rest))
unfolding serialize deserialize
mint_melt_header_round_trip id entries h =
    let (valid, lo, hi) = entries_valid entries h in
    let (bytes, both) = entries_read [] entries valid in
    let (w, n, r) = both in
    let written = write_uint 1 (length entries) ++ bytes in
    (
      get_vertex_header_id_buffer id ++ written,
      rw (h, all_written entries lo hi bytes w),
      λ rest. simp append_assoc (
          rw (header_id_round_trip id (write_uint 1 (length entries) ++ (bytes ++ rest))) (
            unfold get_vertex_header_id_buffer in
            rw (all_read entries lo hi bytes rest n (r rest)) (ground arith))),
    )
