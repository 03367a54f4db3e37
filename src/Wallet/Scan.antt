-- ===== src/Wallet/Scan.antt =====
-- The addresses of the memory store (src/storage/memory_store.ts) and the loading of more of them in
-- src/utils/storage.ts. The derivation of an address from a key is a parameter, as are shielded keys; the
-- list of addresses to subscribe to, which loadAddresses returns in addition, is left out.
use hathor_wallet_lib.Prelude.{
  ℕ, zero, suc, ◌+◌, Bool, true, false, ◌&&◌, ◌||◌, Option, none, some, ltb, if◌then◌else◌,
}
use hathor_wallet_lib.Prelude.Int.{max_ℤ, ℤ, pos, negsuc, pos_part, ◌+ℤ◌, ◌-ℤ◌, ltb_ℤ, eq_ℤ}
use hathor_wallet_lib.Result.{Result, ok, err, address_known, ◌>>=◌}
use hathor_wallet_lib.Wallet.Maps.{Name, MapOf, get, has, set}
use hathor_wallet_lib.Wallet.Types.{AddressInfo, AddressType, p2pkh, p2sh, shielded, shielded_spend}

-- The indexes of one chain in IWalletData, and the chain's map of indexes.
pub record Chain : Type 0 where
  pub current : ℤ
  pub last_loaded : ℕ
  pub last_used : ℤ
  pub indexes : MapOf Name

pub record Book : Type 0 where
  pub addresses : MapOf AddressInfo
  pub legacy : Chain
  pub shielded_chain : Chain
  pub single_address : Bool

-- setCurrentAddressIndex: with one address only, no other index becomes current.
abbrev pub set_current : Bool → ℤ → Chain → Chain
set_current single_address index c =
    if single_address && ltb_ℤ (pos 0) index then c else record c { current = index }

-- The end of saveAddress for the chain of the address.
unfoldable pub note_loaded : Bool → ℕ → Name → Chain → Chain
note_loaded single_address index base58 c =
    let saved = record c { indexes = set index base58 c.indexes } in
    let with_current =
      if eq_ℤ saved.current (negsuc 0)
      then set_current single_address (pos index) saved
      else saved in
    if ltb with_current.last_loaded index
    then record with_current { last_loaded = index }
    else with_current

unfoldable pub save_in_chain : Option AddressType → ℕ → Name → Book → Book
save_in_chain (some shielded) index base58 b = record b {
  shielded_chain = note_loaded b.single_address index base58 b.shielded_chain;
}
save_in_chain (some shielded_spend) index base58 b = b
save_in_chain (some p2pkh) index base58 b = record b {
  legacy = note_loaded b.single_address index base58 b.legacy;
}
save_in_chain (some p2sh) index base58 b = record b {
  legacy = note_loaded b.single_address index base58 b.legacy;
}
save_in_chain none index base58 b = record b {
  legacy = note_loaded b.single_address index base58 b.legacy;
}

unfoldable pub save_address : Name → AddressInfo → Book → Result Book
save_address base58 info b =
    if has base58 b.addresses
    then err address_known
    else ok (
        save_in_chain info.kind info.index base58
          (record b { addresses = set base58 info b.addresses }))

-- getAddressAtIndex of a chain
abbrev pub address_at : ℕ → Chain → Book → Option AddressInfo
address_at index c b = elim (get index c.indexes) [
  | none ↦ none
  | some base58 ↦ get base58 b.addresses
]

-- A shielded address whose pair is known needs no derivation.
abbrev is_pair : Option AddressType → Option Name → Bool
is_pair (some shielded) (some _) = true
is_pair _ _ = false

abbrev is_paired : Option AddressInfo → Bool
is_paired none = false
is_paired (some info) = is_pair info.kind info.ct_mapping_address

-- One address if it is not the wallet's yet.
abbrev save_new : Name → AddressInfo → Book → Result Book
save_new base58 info b = if has base58 b.addresses then ok b else save_address base58 info b

-- The shielded address of an index, and the address that its outputs carry on chain.
pub record Pair : Type 0 where
  pub shielded_address : Name
  pub spend_address : Name

-- `derive` gives the legacy address of an index, `pairs` the shielded pairs if the wallet has the keys.
module _ (derive : ℕ → Name) (pairs : Option (ℕ → Pair)) where
  unfoldable pub load_legacy : ℕ → Book → Result Book
  load_legacy i b =
      if has i b.legacy.indexes
      then ok b
      else save_address (derive i) (record { index = i; kind = none; ct_mapping_address = none }) b

  save_pair : ℕ → Pair → Book → Result Book
  save_pair i p b = if is_paired (address_at i b.shielded_chain b) then ok b else do
    with_address ←
        save_new p.shielded_address
          (record { index = i; kind = some shielded; ct_mapping_address = some p.spend_address }) b
    save_new p.spend_address
        (record {
          index = i;
          kind = some shielded_spend;
          ct_mapping_address = some p.shielded_address;
        })
        with_address

  unfoldable pub load_pair : Option (ℕ → Pair) → ℕ → Book → Result Book
  unfolding save_pair
  load_pair none i b = ok b
  load_pair (some pair_of) i b = save_pair i (pair_of i) b

  -- loadAddresses, from a start index for a count of them.
  unfoldable pub load_addresses : ℕ → ℕ → Book → Result Book
  load_addresses start zero b = ok b
  load_addresses start (suc count) b = load_legacy start b >>= λ b'.
      load_pair pairs start b' >>= λ b''. load_addresses (suc start) count b''

-- IScanPolicyLoadAddresses
pub record Window : Type 0 where
  pub next_index : ℕ
  pub count : ℕ

-- `lastUsed + gapLimit > lastLoaded`
abbrev pub needs_more : ℕ → Chain → Bool
needs_more gap_limit c = ltb_ℤ (pos c.last_loaded) (c.last_used +ℤ pos gap_limit)

abbrev pub chain_target : ℕ → Chain → ℤ
chain_target gap_limit c =
    if needs_more gap_limit c then c.last_used +ℤ pos gap_limit else pos c.last_loaded

-- checkGapLimit, of a wallet whose policy is the gap limit.
unfoldable pub check_gap_limit : ℕ → Bool → Book → Option Window
check_gap_limit gap_limit has_shielded_keys b =
    if needs_more gap_limit b.legacy || (has_shielded_keys && needs_more gap_limit b.shielded_chain)
    then (let max_target = max_ℤ (chain_target gap_limit b.legacy) (
          if has_shielded_keys
          then chain_target gap_limit b.shielded_chain
          else chain_target gap_limit b.legacy) in
        let min_loaded =
          if has_shielded_keys && ltb b.shielded_chain.last_loaded b.legacy.last_loaded
          then b.shielded_chain.last_loaded
          else b.legacy.last_loaded in
        some (record {
          next_index = min_loaded + 1;
          count = pos_part (max_ℤ (max_target -ℤ pos min_loaded) (pos 1));
        }))
    else none
