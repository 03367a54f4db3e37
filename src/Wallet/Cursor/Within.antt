-- ===== src/Wallet/Cursor/Within.antt =====
-- The current address of a chain stays within the addresses that are loaded.
use hathor_wallet_lib.Prelude.{
  ℕ, arith, Bool, true, false, ◌&&◌, not, Option, none, some, List, [], ◌∷◌, ltb, if◌then◌else◌,
  if_cases, ltb→lt, ◌⊎◌, inl, inr,
}
use hathor_wallet_lib.Prelude.Int.{ℤ, pos, negsuc, ◌+ℤ◌, ◌≤ℤ◌, ltb_ℤ, eq_ℤ}
use hathor_wallet_lib.Result.{ok, err, address_known}
use hathor_wallet_lib.Wallet.Maps.{Name, set, has}
use hathor_wallet_lib.Wallet.Types.{AddressType, p2pkh, p2sh, shielded, shielded_spend}
use hathor_wallet_lib.Wallet.Scan.{
  Chain, Book, set_current, note_loaded, save_in_chain, save_address,
}
use hathor_wallet_lib.Wallet.Cursor.{
  min_ℤ, move_current, update_chain, update_indexes, note_used, address_of, after_lookup,
  get_current_address, hand_out, note_tx, Event, happen, happen_all, saves, updates, notes,
  hands_out,
}

-- The current address of each chain is none, or at most the last one loaded.
unfoldable pub IsWithin : Chain → Type 0
IsWithin c = c.current ≤ℤ pos c.last_loaded

unfoldable pub AreWithin : Book → Type 0
AreWithin b = IsWithin b.legacy × IsWithin b.shielded_chain

min_ℤ-right : (a b : ℤ) → min_ℤ a b ≤ℤ b
min_ℤ-right a b = ground arith

saved : ℕ → Name → Chain → Chain
saved index base58 c = record c { indexes = set index base58 c.indexes }

module _ (single : Bool) where
  move_current-IsWithin :
      (index : ℤ) (c : Chain) → IsWithin c → IsWithin (move_current single index c)
  unfolding IsWithin
  move_current-IsWithin index c h =
      if_cases IsWithin (single && ltb_ℤ (pos 0) (min_ℤ (index +ℤ pos 1) (pos c.last_loaded))) c
        (record c { current = min_ℤ (index +ℤ pos 1) (pos c.last_loaded) }) (λ _. h)
        (λ _. min_ℤ-right (index +ℤ pos 1) (pos c.last_loaded))

  -- `c`, or `c` with its current address moved.
  moved_if-IsWithin :
      (b : Bool) (index : ℤ) (c : Chain)
      → IsWithin c
      → IsWithin (if b then move_current single index c else c)
  moved_if-IsWithin b index c h =
      if_cases IsWithin b (move_current single index c) c (λ _. move_current-IsWithin index c h)
        (λ _. h)

  kept_if-IsWithin :
      (b : Bool) (index : ℤ) (c : Chain)
      → IsWithin c
      → IsWithin (if b then c else move_current single index c)
  kept_if-IsWithin b index c h =
      if_cases IsWithin b c (move_current single index c) (λ _. h)
        (λ _. move_current-IsWithin index c h)

  update_chain-IsWithin :
      (max_used : ℤ) (c : Chain) → IsWithin c → IsWithin (update_chain single max_used c)
  unfolding update_chain IsWithin
  update_chain-IsWithin max_used c h =
      if_cases IsWithin (ltb_ℤ (negsuc 0) max_used && not (ltb_ℤ max_used c.last_used)) _ c
        (λ _. kept_if-IsWithin (ltb_ℤ max_used c.current) max_used c h) (λ _. h)

  note_used-IsWithin :
      (max_index : ℤ) (c : Chain) → IsWithin c → IsWithin (note_used single max_index c)
  unfolding note_used IsWithin
  note_used-IsWithin max_index c h = moved_if-IsWithin (ltb_ℤ c.current max_index) max_index c h

  raised : ℕ → Chain → Chain
  raised index c = if ltb c.last_loaded index then record c { last_loaded = index } else c

  raised-IsWithin :
      (index : ℕ) (c : Chain)
      → c.current ≤ℤ pos c.last_loaded ⊎ c.current ≤ℤ pos index
      → IsWithin (raised index c)
  unfolding IsWithin raised
  raised-IsWithin index c (inl h) =
      if_cases IsWithin (ltb c.last_loaded index) (record c { last_loaded = index }) c
        (λ below. omega (arith, h, ltb→lt _ _ below)) (λ _. h)
  raised-IsWithin index c (inr h) =
      if_cases IsWithin (ltb c.last_loaded index) (record c { last_loaded = index }) c (λ _. h)
        (λ above. ground (arith, h, above))

  note_loaded-IsWithin :
      (index : ℕ) (base58 : Name) (c : Chain)
      → IsWithin c
      → IsWithin (note_loaded single index base58 c)
  unfolding note_loaded IsWithin raised saved
  note_loaded-IsWithin index base58 c h =
      if_cases (λ d. IsWithin (raised index d)) (eq_ℤ c.current (negsuc 0))
        (set_current single (pos index) (saved index base58 c)) (saved index base58 c)
        (λ _.
          if_cases (λ d. IsWithin (raised index d)) (single && ltb_ℤ (pos 0) (pos index))
            (saved index base58 c) (record (saved index base58 c) { current = pos index })
            (λ _. raised-IsWithin index (saved index base58 c) (inl h))
            (λ _.
              raised-IsWithin index (record (saved index base58 c) { current = pos index })
                (inr (omega arith))))
        (λ _. raised-IsWithin index (saved index base58 c) (inl h))

save_in_chain-AreWithin :
    (kind : Option AddressType) (index : ℕ) (base58 : Name) (b : Book)
    → AreWithin b
    → AreWithin (save_in_chain kind index base58 b)
unfolding AreWithin save_in_chain
save_in_chain-AreWithin none index base58 b (h, k) =
    (note_loaded-IsWithin b.single_address index base58 b.legacy h, k)
save_in_chain-AreWithin (some p2pkh) index base58 b (h, k) =
    (note_loaded-IsWithin b.single_address index base58 b.legacy h, k)
save_in_chain-AreWithin (some p2sh) index base58 b (h, k) =
    (note_loaded-IsWithin b.single_address index base58 b.legacy h, k)
save_in_chain-AreWithin (some shielded) index base58 b (h, k) =
    (h, note_loaded-IsWithin b.single_address index base58 b.shielded_chain k)
save_in_chain-AreWithin (some shielded_spend) index base58 b h = h

after_lookup-IsWithin :
    (single mark_as_used : Bool) (c : Chain) (x : Option Name)
    → IsWithin c
    → IsWithin ((after_lookup single mark_as_used c x).1)
unfolding after_lookup
after_lookup-IsWithin single mark_as_used c none h = h
after_lookup-IsWithin single mark_as_used c (some a) h =
    moved_if-IsWithin single mark_as_used c.current c h

happen-AreWithin : (e : Event) (b : Book) → AreWithin b → AreWithin (happen e b)
unfolding happen AreWithin save_address update_indexes note_tx hand_out get_current_address
happen-AreWithin (saves base58 info) b h =
    if_cases (λ r. AreWithin (elim r [ err e ↦ b | ok b' ↦ b' ])) (has base58 b.addresses)
      (err address_known)
      (ok (
        save_in_chain info.kind info.index base58
          (record b { addresses = set base58 info b.addresses })))
      (λ _. h)
      (λ _.
        save_in_chain-AreWithin info.kind info.index base58
          (record b { addresses = set base58 info b.addresses }) h)
happen-AreWithin (updates processed) b (h, k) = (
  update_chain-IsWithin b.single_address processed.legacy_max_address_index b.legacy h,
  update_chain-IsWithin b.single_address processed.shielded_max_address_index b.shielded_chain k,
)
happen-AreWithin (notes elements) b (h, k) = (
  note_used-IsWithin b.single_address _ b.legacy h,
  note_used-IsWithin b.single_address _ b.shielded_chain k,
)
happen-AreWithin (hands_out true mark_as_used) b (h, k) = (
  after_lookup-IsWithin b.single_address mark_as_used b.legacy
      (address_of b.legacy.current b.legacy b) h,
  k,
)
happen-AreWithin (hands_out false mark_as_used) b (h, k) = (
  h,
  after_lookup-IsWithin b.single_address mark_as_used b.shielded_chain
      (address_of b.shielded_chain.current b.shielded_chain b) k,
)

-- Whatever sequence of saveAddress, updateWalletMetadataFromProcessedTxData, saveTx and
-- getCurrentAddress a wallet goes through, from a state in which the current address of either chain is
-- none or at most the last one loaded, with any arguments: it stays none or at most the last one loaded.
pub happen_all-AreWithin : (es : List Event) (b : Book) → AreWithin b → AreWithin (happen_all es b)
unfolding happen_all
happen_all-AreWithin [] b h = h
happen_all-AreWithin (e ∷ es) b h = happen_all-AreWithin es (happen e b) (happen-AreWithin e b h)
