-- ===== src/Headers/MintMelt/Validity.antt =====
-- What a mint or melt header deserializes is valid.
use native.Mathlib.Nat.{pow-le-pow_right}
use hathor_wallet_lib.Prelude.{
  ℕ, zero, suc, ◌^◌, ◌≤◌, ◌<◌, ◌≡◌, refl, arith, false, List, [], ◌∷◌, length, length-take, take,
  drop, All,
}
use hathor_wallet_lib.Prelude.Int.{ℤ, pos}
use hathor_wallet_lib.Result.{ok}
use hathor_wallet_lib.Buffer.{Bytes, IsByte, read_uint}
use hathor_wallet_lib.Buffer.Ints.{read_uint-lt}
use hathor_wallet_lib.Headers.Fee.{seen_has}
use hathor_wallet_lib.Headers.MintMelt.{
  MintMeltEntry, validate_mint_melt_entry, validate_loop, validate_mint_melt_entries,
  deserialize_loop, deserialize_mint_melt_entries,
}

All-take : (n : ℕ) (bs : Bytes) → All IsByte bs → All IsByte (take n bs)
All-take zero bs h = tt
All-take (suc n) [] h = tt
All-take (suc n) (b ∷ bs) (hb, h) = (hb, All-take n bs h)

All-drop : (n : ℕ) (bs : Bytes) → All IsByte bs → All IsByte (drop n bs)
All-drop zero bs h = h
All-drop (suc n) [] h = tt
All-drop (suc n) (b ∷ bs) (hb, h) = All-drop n bs h

amount_small : (bs : Bytes) → All IsByte bs → read_uint (take 8 bs) < 2 ^ 64
amount_small bs h =
    let more : 256 ^ length (take 8 bs) ≤ 256 ^ 8 =
      pow-le-pow_right {n = 256} (omega arith) {i = length (take 8 bs)} {j = 8}
        (omega (arith, length-take 8 bs)) in
    omega (arith, read_uint-lt (take 8 bs) (All-take 8 bs h), more)

-- What one round of the loop has read.
round :
    (seen : List ℤ) (n : ℕ) (buf : Bytes) (e : MintMeltEntry) (es : List MintMeltEntry)
    → deserialize_loop seen (suc n) buf ≡ ok (e ∷ es)
    → All IsByte buf
    → (e ≡ record {
      token_index = pos (read_uint (take 1 buf));
      amount = pos (read_uint (take 8 (drop 1 buf)));
    })
      × (validate_mint_melt_entry e ≡ ok tt)
      × (seen_has seen e.token_index ≡ false)
      × (deserialize_loop (e.token_index ∷ seen) n (drop 8 (drop 1 buf)) ≡ ok es)
unfolding deserialize_loop validate_mint_melt_entry
round seen n buf e es h hb =
    let small : read_uint (take 8 (drop 1 buf)) < 2 ^ 64 =
      amount_small (drop 1 buf) (All-drop 1 buf hb) in
    (ground arith, ground arith, ground arith, ground arith)

loop_valid :
    (seen : List ℤ) (n : ℕ) (buf : Bytes) (es : List MintMeltEntry)
    → All IsByte buf
    → deserialize_loop seen n buf ≡ ok es
    → (validate_loop seen es ≡ ok tt) × (length es ≡ n)
unfolding deserialize_loop validate_loop validate_mint_melt_entry
loop_valid seen zero buf [] hb h = (refl, refl)
loop_valid seen zero buf (e ∷ es) hb h = ground arith
loop_valid seen (suc n) buf [] hb h = ground arith
loop_valid seen (suc n) buf (e ∷ es) hb h =
    let (_, valid, new, more) = round seen n buf e es h hb in
    let (rest, count) =
      loop_valid (e.token_index ∷ seen) n (drop 8 (drop 1 buf)) es
        (All-drop 8 (drop 1 buf) (All-drop 1 buf hb)) more in
    (rw (valid, new, rest), omega (arith, count))

-- What deserializeMintMeltEntries accepts from a buffer of bytes validates, so it can be serialized again.
pub deserialize_mint_melt_entries-valid :
    (buf rest : Bytes) (entries : List MintMeltEntry)
    → All IsByte buf
    → deserialize_mint_melt_entries buf ≡ ok (entries, rest)
    → validate_mint_melt_entries entries ≡ ok tt
unfolding deserialize_mint_melt_entries validate_mint_melt_entries
deserialize_mint_melt_entries-valid buf rest entries hb h =
    let n = read_uint (take 1 buf) in
    let lo : 1 ≤ n = ground arith in
    let hi : n ≤ 16 = ground arith in
    let read : deserialize_loop [] n (drop 1 buf) ≡ ok entries = ground arith in
    let (valid, count) = loop_valid [] n (drop 1 buf) entries (All-drop 1 buf hb) read in
    ground (arith, valid, count, lo, hi)
