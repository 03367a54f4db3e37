-- ===== src/Tests/Wallets.antt =====
-- Runs for src/utils/storage.ts and getTxBalance: a wallet with a legacy and a shielded address, and a
-- transaction that spends a decrypted shielded output of an earlier one.
use hathor_wallet_lib.Prelude.{arith, ℕ, ◌≡◌, refl, true, false, Option, none, some, List, [], ◌∷◌}
use hathor_wallet_lib.Prelude.Int.{pos, ◌+ℤ◌, ◌-ℤ◌}
use hathor_wallet_lib.Result.{Result, ok}
use hathor_wallet_lib.Wallet.Maps.{Name}
use hathor_wallet_lib.Wallet.Types.{
  HistoryOutput, HistoryInput, HistoryTx, Utxo, p2pkh, shielded_spend,
}
use hathor_wallet_lib.Wallet.Rules.{
  is_output_locked, is_authority_output, is_height_locked, is_melt, is_mint, resolve_spent_output,
  Clock,
}
use hathor_wallet_lib.Wallet.Balances.{credit_balance, debit_balance, tokens_unlocked}
use hathor_wallet_lib.Wallet.Store.{clean_metadata, Store, get_utxo}
use hathor_wallet_lib.Wallet.Utxos.{IsDistinct}
use hathor_wallet_lib.Wallet.Ledger.{change_balance, token_part, IsBalanced}
use hathor_wallet_lib.Wallet.Process.{
  debit_inputs, credit_shielded, debit_fields, credit_at, fill_in, credit_to, own_fields,
  credit_outputs, spent_shielded, keep_utxo, track, count_address, count_addresses, count_token,
  count_tokens, debit_at, debit_from, Processed,
}
use hathor_wallet_lib.Wallet.Caller.{
  finish_with, caller_of, finish, move_funds, executed_seqnum, process_new_tx,
}
use hathor_wallet_lib.Wallet.TxBalance.{get_tx_balance}
use hathor_wallet_lib.Wallet.Credits.{entry}
use hathor_wallet_lib.Wallet.Debits.{AreFull, IsFull}
use hathor_wallet_lib.Wallet.Accounts.{process_new_tx-IsBalanced, process_new_tx-get_tx_balance}
use hathor_wallet_lib.Wallet.Unlock.{
  process_locked_utxos, process_locked_utxos-total, total, amounts,
}
use hathor_wallet_lib.Wallet.History.{
  walk_history, process_history, process_history-IsBalanced, process_history-history_gain,
  history_gain, AllFull,
}
use hathor_wallet_lib.Utxo.{Selection}
use hathor_wallet_lib.Utxo.Outcome.{IsOutcome}
use hathor_wallet_lib.Wallet.Select.{Order, descending}
use hathor_wallet_lib.Wallet.Payment.{
  spendable, best_from_storage, fast_from_storage, best_from_storage-IsOutcome,
  fast_from_storage-IsOutcome,
}
use hathor_wallet_lib.Wallet.Single.{
  delete_spent, delete_round, delete_resolved, delete_found, process_single_tx,
  process_single_tx-get_utxo, spent_id,
}

abbrev address_of_key : Name → Result Name
address_of_key key = ok key

abbrev now : Clock
now = record { now_ts = some 100; date_now = 100; current_height = some 10; reward_lock = some 3 }

abbrev output : ℕ → ℕ → Name → Option ℕ → Option Name → HistoryOutput
output value token_data address timelock spent_by = record {
  value = value;
  token = 0;
  token_data = token_data;
  address = some address;
  timelock = timelock;
  spent_by = spent_by;
  blinding_factor = none;
  asset_blinding_factor = none;
}

abbrev tx_of :
    Name → List HistoryInput → List HistoryOutput → List (Option HistoryOutput) → HistoryTx
tx_of tx_id inputs outputs shielded_outputs = record {
  tx_id = tx_id;
  version = 1;
  timestamp = 50;
  is_voided = false;
  height = none;
  first_block = none;
  inputs = inputs;
  outputs = outputs;
  shielded_outputs = shielded_outputs;
  nc_id = none;
  nc_seqnum = none;
  nc_address = none;
  nc_pubkey = none;
}

-- Receives 30, locked until 200, and 7 in a shielded output; the shielded 5 are somebody else's.
abbrev receive : HistoryTx
receive =
    tx_of 21 [] (output 30 0 1 (some 200) none ∷ []) (none ∷ some (output 7 0 2 none none) ∷ [])

abbrev bare_input : HistoryInput
bare_input = record { tx_id = 21; index = 2; is_shielded = true; spent = none }

-- Spends the shielded 7 and keeps 4.
abbrev spend : HistoryTx
spend = tx_of 22 (bare_input ∷ []) (output 4 0 1 none none ∷ output 3 0 9 none none ∷ []) []

abbrev wallet : Store
wallet = record {
  addresses =
      (1, record { index = 0; kind = some p2pkh; ct_mapping_address = none })
      ∷ (2, record { index = 5; kind = some shielded_spend; ct_mapping_address = none })
      ∷ [];
  addresses_metadata = [];
  tokens_metadata = [];
  seqnum_metadata = [];
  history = (21, receive) ∷ (22, spend) ∷ [];
  utxos = [];
  locked_utxos = [];
  utxos_selected_as_input = [];
}

abbrev history : List HistoryTx
history = receive ∷ spend ∷ []

history-AllFull : AllFull history
unfolding AllFull AreFull IsFull
history-AllFull = (tt, ((refl, tt), tt))

found : Processed
found = record {
  legacy_max_address_index = pos 0;
  shielded_max_address_index = pos 5;
  tokens = 0 ∷ [];
}

abbrev loaded : Store
loaded = (process_history address_of_key now history wallet).1

wallet_loads : (process_history address_of_key now history wallet).0 ≡ ok found
unfolding found process_history walk_history process_new_tx finish_with caller_of finish move_funds
    debit_inputs credit_shielded debit_fields credit_at fill_in credit_to own_fields credit_outputs
    spent_shielded clean_metadata change_balance keep_utxo is_output_locked track ◌+ℤ◌ ◌-ℤ◌
    credit_balance debit_balance count_address count_addresses count_token count_tokens debit_at
    debit_from is_authority_output is_height_locked is_melt is_mint resolve_spent_output
    executed_seqnum
wallet_loads = refl

process_history-history_gain_example :
    token_part loaded 0 tokens_unlocked ≡ history_gain now history wallet 0 tokens_unlocked
process_history-history_gain_example =
    process_history-history_gain address_of_key now history wallet found wallet_loads
      history-AllFull 0 tokens_unlocked

process_history-IsBalanced_example : IsBalanced loaded
process_history-IsBalanced_example = process_history-IsBalanced address_of_key now history wallet

-- The store between the two transactions.
abbrev received : Store
received = (process_history address_of_key now (receive ∷ []) wallet).1

process_new_tx-IsBalanced_example : IsBalanced (process_new_tx address_of_key now spend received).1
process_new_tx-IsBalanced_example =
    process_new_tx-IsBalanced address_of_key now spend received
      (process_history-IsBalanced address_of_key now (receive ∷ []) wallet)

spend-AreFull : AreFull spend.inputs
unfolding AreFull IsFull
spend-AreFull = (refl, tt)

process_new_tx-get_tx_balance_example :
    token_part (process_new_tx address_of_key now spend received).1 0 tokens_unlocked
    ≡ token_part received 0 tokens_unlocked
      +ℤ entry (get_tx_balance now spend received) 0 tokens_unlocked
process_new_tx-get_tx_balance_example =
    process_new_tx-get_tx_balance address_of_key now spend received spend-AreFull 0 tokens_unlocked

-- After the time lock of the 30.
abbrev later : Clock
later = record { now_ts = some 300; date_now = 300; current_height = some 10; reward_lock = some 3 }

process_locked_utxos-total_example :
    total (process_locked_utxos later loaded) 0 amounts ≡ total loaded 0 amounts
process_locked_utxos-total_example = process_locked_utxos-total later loaded 0 amounts

abbrev shielded_utxo : Utxo
shielded_utxo = record {
  id = spent_id bare_input;
  version = 1;
  authorities = 0;
  address = 2;
  token = 0;
  value = 7;
  timelock = none;
  height = none;
  shielded = true;
  blinding_factor = none;
  asset_blinding_factor = none;
}

abbrev holding : Store
holding = record wallet { utxos = shielded_utxo ∷ [] }

holding-IsDistinct : IsDistinct holding.utxos
unfolding IsDistinct
holding-IsDistinct = (refl, tt)

single_returns : (process_single_tx address_of_key now spend holding).0 ≡ ok found
unfolding process_single_tx delete_spent delete_round delete_resolved delete_found found
    process_new_tx finish_with caller_of finish move_funds debit_inputs credit_shielded debit_fields
    credit_at fill_in credit_to own_fields credit_outputs spent_shielded clean_metadata
    change_balance keep_utxo is_output_locked track ◌+ℤ◌ ◌-ℤ◌ credit_balance debit_balance
    count_address count_addresses count_token count_tokens debit_at debit_from is_authority_output
    is_height_locked is_melt is_mint resolve_spent_output executed_seqnum
single_returns = refl

process_single_tx-get_utxo_example :
    get_utxo (process_single_tx address_of_key now spend holding).1 (spent_id bare_input) ≡ none
process_single_tx-get_utxo_example =
    process_single_tx-get_utxo address_of_key now spend holding 0 bare_input found refl refl refl
      holding-IsDistinct single_returns

-- One of the ways in which `orderBy` may order.
abbrev as_stored : Order → List Utxo → List Utxo
as_stored order us = us

best_from_storage-IsOutcome_example :
    (r : Selection Utxo) × (best_from_storage as_stored now none holding 0 5 ≡ ok r)
    × IsOutcome
        (λ u. u.value)
        5
        (spendable now none holding 0 (as_stored descending holding.utxos))
        r
best_from_storage-IsOutcome_example = best_from_storage-IsOutcome as_stored now none holding 0 5

fast_from_storage-IsOutcome_example :
    (r : Selection Utxo) × (fast_from_storage as_stored now none holding 0 8 ≡ ok r)
    × IsOutcome
        (λ u. u.value)
        8
        (spendable now none holding 0 (as_stored descending holding.utxos))
        r
fast_from_storage-IsOutcome_example =
    fast_from_storage-IsOutcome as_stored now none holding 0 8 (omega arith)
