-- ===== src/Wallet/Accounts.antt =====
-- processNewTx (src/utils/storage.ts) keeps the accounts of the wallet, and agrees with getTxBalance
-- (src/utils/transaction.ts) on what a transaction adds to them.
use hathor_wallet_lib.Prelude.{
  ℕ, ◌≡◌, refl, sym, ap, arith, Bool, true, false, Option, none, some, [], ◌∷◌, length,
  if◌then◌else◌, if_cases,
}
use hathor_wallet_lib.Prelude.Int.{ℤ, pos, negsuc, ltb_ℤ, ◌+ℤ◌}
use hathor_wallet_lib.Result.{Result, ok, err}
use hathor_wallet_lib.Wallet.Maps.{Name, MapOf, add_name, get_or, has}
use hathor_wallet_lib.Wallet.Types.{AddressMeta, HistoryTx, Balance}
use hathor_wallet_lib.Wallet.Rules.{Clock}
use hathor_wallet_lib.Wallet.Balances.{Part, part-empty}
use hathor_wallet_lib.Wallet.Store.{
  Store, is_address_mine, edit_seqnum_meta, default_address_meta, edit_address_meta,
}
use hathor_wallet_lib.Wallet.Ledger.{token_part, IsBalanced}
use hathor_wallet_lib.Wallet.Process.{Progress, start}
use hathor_wallet_lib.Wallet.Caller.{
  raise_seqnum, new_address_meta, caller_seqnum, note_caller, caller_of, finish, finish_with,
  executed_seqnum, keep_seqnum, move_funds, process_new_tx, process_voided, process_valid,
}
use hathor_wallet_lib.Wallet.TxBalance.{accrue_outputs, accrue_shielded, get_tx_balance}
use hathor_wallet_lib.Wallet.Moves.{
  Moves, no_gain, Moves-refl, Moves-still, Moves-rest, Moves-gain, Moves-IsBalanced,
}
use hathor_wallet_lib.Wallet.Credits.{entry, credit_outputs-Moves, credit_shielded-Moves}
use hathor_wallet_lib.Wallet.Debits.{
  accrue_enriched, debit_inputs-Moves, AreFull, accrue_inputs-enriched,
}
use hathor_wallet_lib.Wallet.Counts.{Moves-edit_address, count_tokens-Moves, count_addresses-Moves}

voided_seqnum-Moves :
    (nc_id first_block : Option Name) (nc_seqnum : Option ℕ) (nc_address : Option Name) (s : Store)
    → Moves no_gain s (executed_seqnum nc_id first_block nc_seqnum nc_address s).1
unfolding executed_seqnum
voided_seqnum-Moves none b n a s = Moves-refl s
voided_seqnum-Moves (some _) none n a s = Moves-refl s
voided_seqnum-Moves (some _) (some _) none a s = Moves-refl s
voided_seqnum-Moves (some _) (some _) (some n) none s = Moves-refl s
voided_seqnum-Moves (some _) (some _) (some n) (some a) s =
    if_cases (Moves no_gain s) (is_address_mine s a) (keep_seqnum a n s) s
      (λ _. Moves-rest s (keep_seqnum a n s) refl refl refl refl (λ d. d)) (λ _. Moves-refl s)

raise_seqnum-Moves : (a : Name) (n : ℕ) (s : Store) → Moves no_gain s (raise_seqnum a n s)
unfolding raise_seqnum
raise_seqnum-Moves a n s =
    if_cases (Moves no_gain s) (ltb_ℤ (get_or (negsuc 0) a s.seqnum_metadata) (pos n))
      (edit_seqnum_meta a (pos n) s) s
      (λ _. Moves-rest s (edit_seqnum_meta a (pos n) s) refl refl refl refl (λ d. d))
      (λ _. Moves-refl s)

caller_seqnum-Moves :
    (nc_id : Option Name) (n : Option ℕ) (a : Name) (s : Store)
    → Moves no_gain s (caller_seqnum nc_id n a s)
unfolding caller_seqnum
caller_seqnum-Moves none n a s = Moves-refl s
caller_seqnum-Moves (some _) none a s = Moves-refl s
caller_seqnum-Moves (some _) (some n) a s = raise_seqnum-Moves a n s

absent_default :
    (a : Name) (m : MapOf AddressMeta)
    → has a m ≡ false
    → (get_or default_address_meta a m).balances ≡ []
absent_default a [] h = refl
absent_default a (e ∷ m) h = ground (arith, absent_default a m)

new_address_meta-Moves : (caller : Name) (s : Store) → Moves no_gain s (new_address_meta caller s)
unfolding new_address_meta
new_address_meta-Moves caller s =
    if_cases (Moves no_gain s) (has caller s.addresses_metadata) s
      (edit_address_meta caller default_address_meta s) (λ _. Moves-refl s)
      (λ absent.
        Moves-edit_address caller default_address_meta s
          (sym (absent_default caller s.addresses_metadata absent)))

module _ (gain : Name → Part → ℤ) (s : Store) where
  finish-Moves : (p : Progress) → Moves gain s p.store → Moves gain s (finish p).1
  unfolding finish
  finish-Moves p h =
      count_addresses-Moves gain s p.tx_addresses _
        (count_tokens-Moves gain s p.tx_tokens p.store h)

  note_caller-Moves :
      (tx : HistoryTx) (a : Name) (p : Progress)
      → Moves gain s p.store
      → Moves gain s (note_caller tx a p).store
  unfolding note_caller
  note_caller-Moves tx a p h =
      let made = new_address_meta a p.store in
      if_cases (λ q. Moves gain s q.store) (is_address_mine p.store a)
        (record p {
          store = caller_seqnum tx.nc_id tx.nc_seqnum a made;
          tx_addresses = add_name a p.tx_addresses;
        })
        p
        (λ _.
          Moves-still gain s made _
            (Moves-still gain s p.store made h (new_address_meta-Moves a p.store))
            (caller_seqnum-Moves tx.nc_id tx.nc_seqnum a made))
        (λ _. h)

  finish_with-Moves :
      (tx : HistoryTx) (caller : Option (Result Name)) (p : Progress)
      → Moves gain s p.store
      → Moves gain s (finish_with tx caller p).1
  unfolding finish_with
  finish_with-Moves tx none p h = finish-Moves p h
  finish_with-Moves tx (some (err e)) p h = h
  finish_with-Moves tx (some (ok a)) p h = finish-Moves _ (note_caller-Moves tx a p h)

-- What a transaction adds, by getTxBalance.
unfoldable pub tx_gain : Clock → HistoryTx → Store → Name → Part → ℤ
tx_gain clock tx s t p = if tx.is_voided then pos 0 else entry (get_tx_balance clock tx s) t p

-- The balance of a transaction, its inputs read as processNewTx reads them.
abbrev own_balance : Clock → HistoryTx → Store → MapOf Balance
own_balance clock tx s = accrue_enriched s tx.inputs (
    accrue_shielded clock s.addresses tx tx.shielded_outputs
      (accrue_outputs clock s.addresses tx tx.outputs []))

module _ (clock : Clock) (tx : HistoryTx) (s : Store) where
  start-Moves : Moves (entry []) s s
  unfolding entry
  start-Moves = Moves-gain _ _ s s (λ t p. sym (part-empty p)) (Moves-refl s)

  move_funds-Moves : Moves (entry (own_balance clock tx s)) s (move_funds clock tx s).store
  unfolding move_funds
  move_funds-Moves = debit_inputs-Moves tx.inputs s _ _ (
      credit_shielded-Moves clock tx (length tx.outputs) tx.shielded_outputs s _ _
        (credit_outputs-Moves clock tx 0 tx.outputs s [] (start s) start-Moves))

module _ (address_of_pubkey : Name → Result Name) (clock : Clock) (tx : HistoryTx) (s : Store) where
  process_valid-Moves :
      Moves (entry (own_balance clock tx s)) s (process_valid address_of_pubkey clock tx s).1
  process_valid-Moves =
      finish_with-Moves _ s tx (caller_of address_of_pubkey tx) (move_funds clock tx s)
        (move_funds-Moves clock tx s)

  branch-Moves :
      AreFull tx.inputs
      → (voided : Bool)
      → Moves
          (λ t p. if voided then pos 0 else entry (get_tx_balance clock tx s) t p)
          s
          (if voided then process_voided tx s else process_valid address_of_pubkey clock tx s).1
  unfolding get_tx_balance
  branch-Moves full true = voided_seqnum-Moves tx.nc_id tx.first_block tx.nc_seqnum tx.nc_address s
  branch-Moves full false =
      Moves-gain _ _ s _
        (λ t p. ap (λ m. entry m t p) (sym (accrue_inputs-enriched s tx.inputs _ full)))
        process_valid-Moves

  pub process_new_tx-Moves :
      AreFull tx.inputs
      → Moves (tx_gain clock tx s) s (process_new_tx address_of_pubkey clock tx s).1
  unfolding process_new_tx tx_gain
  process_new_tx-Moves full = branch-Moves full tx.is_voided

  pub process_new_tx-some_Moves :
      (gain : Name → Part → ℤ) × Moves gain s (process_new_tx address_of_pubkey clock tx s).1
  unfolding process_new_tx
  process_new_tx-some_Moves =
      if_cases (λ r. (gain : Name → Part → ℤ) × Moves gain s r.1) tx.is_voided (process_voided tx s)
        (process_valid address_of_pubkey clock tx s)
        (λ _. (no_gain, voided_seqnum-Moves tx.nc_id tx.first_block tx.nc_seqnum tx.nc_address s))
        (λ _. (entry (own_balance clock tx s), process_valid-Moves))

  -- Processing any transaction, voided or not, whether it throws or returns, keeps every counter of every
  -- token equal to the sum of that counter over the wallet's addresses.
  pub process_new_tx-IsBalanced :
      IsBalanced s → IsBalanced (process_new_tx address_of_pubkey clock tx s).1
  process_new_tx-IsBalanced h =
      let (gain, m) = process_new_tx-some_Moves in Moves-IsBalanced gain s _ m h

  -- Processing a transaction adds to each counter of each token what getTxBalance says of the transaction
  -- in the same store and at the same time and height, and nothing if the transaction is voided. This holds
  -- of transactions whose inputs each have an address or are bare inputs that spend shielded outputs.
  pub process_new_tx-get_tx_balance :
      AreFull tx.inputs
      → (t : Name) (p : Part)
      → token_part (process_new_tx address_of_pubkey clock tx s).1 t p
        ≡ token_part s t p
          +ℤ (if tx.is_voided then pos 0 else entry (get_tx_balance clock tx s) t p)
  unfolding tx_gain
  process_new_tx-get_tx_balance full = (process_new_tx-Moves full).token_gain
