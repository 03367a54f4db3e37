-- ===== src/Wallet/Cursor.antt =====
-- The current address of a chain: how src/utils/storage.ts and src/storage/memory_store.ts move it when
-- transactions are found, when an address is handed out and when one is saved.
pub mod Within
use hathor_wallet_lib.Prelude.{
  ℕ, arith, Bool, true, false, ◌&&◌, not, Option, none, some, List, [], ◌∷◌, ltb, if◌then◌else◌,
  if_cases, ltb→lt, ◌⊎◌, inl, inr,
}
use hathor_wallet_lib.Prelude.Int.{ℤ, pos, negsuc, ◌+ℤ◌, ◌≤ℤ◌, ltb_ℤ, eq_ℤ}
use hathor_wallet_lib.Result.{Result, ok, err, index_missing, address_known}
use hathor_wallet_lib.Wallet.Maps.{Name, MapOf, get, set, has}
use hathor_wallet_lib.Wallet.Process.{Processed}
use hathor_wallet_lib.Wallet.Types.{AddressInfo, AddressType, p2pkh, p2sh, shielded, shielded_spend}
use hathor_wallet_lib.Wallet.Scan.{
  Chain, Book, set_current, note_loaded, save_in_chain, save_address, address_at,
}

abbrev min_ℤ : ℤ → ℤ → ℤ
min_ℤ a b = if ltb_ℤ b a then b else a

-- The address after the given one, if it is loaded.
abbrev move_current : Bool → ℤ → Chain → Chain
move_current single_address index c =
    set_current single_address (min_ℤ (index +ℤ pos 1) (pos c.last_loaded)) c

-- updateWalletMetadataFromProcessedTxData, for one chain; -1 stands for no transaction.
unfoldable pub update_chain : Bool → ℤ → Chain → Chain
update_chain single_address max_used c =
    if ltb_ℤ (negsuc 0) max_used && not (ltb_ℤ max_used c.last_used)
    then (let moved =
          if ltb_ℤ max_used c.current then c else move_current single_address max_used c in
        record moved { last_used = max_used })
    else c

unfoldable pub update_indexes : Processed → Book → Book
update_indexes processed b = record b {
  legacy = update_chain b.single_address processed.legacy_max_address_index b.legacy;
  shielded_chain =
      update_chain b.single_address processed.shielded_max_address_index b.shielded_chain;
}

-- The end of saveTx for one chain, where `max_index` is the highest index used so far.
unfoldable pub note_used : Bool → ℤ → Chain → Chain
note_used single_address max_index c =
    let moved = if ltb_ℤ c.current max_index then move_current single_address max_index c else c in
    record moved { last_used = max_index }

address_of : ℤ → Chain → Book → Option Name
address_of (pos i) c b = elim (address_at i c b) [ none ↦ none | some info ↦ get i c.indexes ]
address_of (negsuc i) c b = none

after_lookup : Bool → Bool → Chain → Option Name → Result Name × Chain
after_lookup single mark_as_used c none = (err index_missing, c)
after_lookup single mark_as_used c (some a) =
    (ok a, if mark_as_used then move_current single c.current c else c)

-- getCurrentAddress of a chain, whose address is the one of getAddressAtIndex.
unfoldable pub get_current_address : Bool → Chain → Book → Result Name × Chain
unfolding address_of after_lookup
get_current_address mark_as_used c b =
    after_lookup b.single_address mark_as_used c (address_of c.current c b)

hand_out : Bool → Bool → Book → Book
hand_out true mark_as_used b = record b { legacy = (get_current_address mark_as_used b.legacy b).1 }
hand_out false mark_as_used b = record b {
  shielded_chain = (get_current_address mark_as_used b.shielded_chain b).1;
}

-- An input or an output of a transaction, as saveTx looks at it.
pub record Element : Type 0 where
  pub address : Option Name
  pub has_value : Bool

raise_above : ℕ → ℤ → ℤ
raise_above index m = if ltb_ℤ m (pos index) then pos index else m

-- The highest indexes found in the legacy chain and in the other one.
see_address : Bool → ℕ → Option AddressType → ℤ × ℤ → ℤ × ℤ
unfolding raise_above
see_address has_value index (some shielded_spend) (l, s) =
    (l, if has_value then raise_above index s else s)
see_address has_value index (some shielded) (l, s) = (l, s)
see_address has_value index (some p2pkh) (l, s) = (raise_above index l, s)
see_address has_value index (some p2sh) (l, s) = (raise_above index l, s)
see_address has_value index none (l, s) = (raise_above index l, s)

see_known : Bool → Option AddressInfo → ℤ × ℤ → ℤ × ℤ
unfolding see_address
see_known has_value none m = m
see_known has_value (some info) m = see_address has_value info.index info.kind m

see_element : MapOf AddressInfo → Element → ℤ × ℤ → ℤ × ℤ
unfolding see_known
see_element addresses e m = elim e.address [
  | none ↦ m
  | some base58 ↦ see_known e.has_value (get base58 addresses) m
]

see_elements : MapOf AddressInfo → List Element → ℤ × ℤ → ℤ × ℤ
unfolding see_element
see_elements addresses [] m = m
see_elements addresses (e ∷ es) m = see_elements addresses es (see_element addresses e m)

-- What saveTx does to the chains.
note_tx : List Element → Book → Book
unfolding see_elements
note_tx elements b =
    let maxima =
      see_elements b.addresses elements (b.legacy.last_used, b.shielded_chain.last_used) in
    record b {
      legacy = note_used b.single_address (maxima.0) b.legacy;
      shielded_chain = note_used b.single_address (maxima.1) b.shielded_chain;
    }

-- An address is saved, processed transactions are noted, a transaction with the given elements
-- is saved, or the current address of the legacy chain (`true`) or the other one is asked for.
pub data Event : Type 0 where
  saves : Name → AddressInfo → Event
  updates : Processed → Event
  notes : List Element → Event
  hands_out : Bool → Bool → Event

unfoldable pub happen : Event → Book → Book
unfolding note_tx hand_out
happen (saves base58 info) b = elim (save_address base58 info b) [ err e ↦ b | ok b' ↦ b' ]
happen (updates processed) b = update_indexes processed b
happen (notes elements) b = note_tx elements b
happen (hands_out legacy mark_as_used) b = hand_out legacy mark_as_used b

unfoldable pub happen_all : List Event → Book → Book
happen_all [] b = b
happen_all (e ∷ es) b = happen_all es (happen e b)
