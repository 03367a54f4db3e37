-- ===== src/Tests/Mints.antt =====
-- Runs for src/utils/tokens.ts: a wallet that mints and melts a token.
use hathor_wallet_lib.Prelude.{
  ℕ, ◌+◌, ◌≤◌, ◌≡◌, refl, arith, true, false, Option, none, some, List, [], ◌∷◌,
}
use hathor_wallet_lib.Prelude.Int.{pos, ◌+ℤ◌}
use hathor_wallet_lib.Result.{Result, ok}
use hathor_wallet_lib.Utxo.{best_utxo_selection}
use hathor_wallet_lib.Wallet.Maps.{Name}
use hathor_wallet_lib.Wallet.Types.{Utxo, AddressInfo}
use hathor_wallet_lib.Wallet.Rules.{Clock, is_block, is_height_locked}
use hathor_wallet_lib.Wallet.Store.{Store, is_utxo_selected_as_input}
use hathor_wallet_lib.Wallet.Scan.{Book}
use hathor_wallet_lib.Wallet.Cursor.{get_current_address}
use hathor_wallet_lib.Wallet.Select.{
  Order, native_token, is_utxo_time_locked, storage_select_utxos, select_utxos, in_order,
  select_loop, passes, is_enough, next_sum, is_utxo_locked, is_utxo_height_locked,
  effective_address, is_authority_match,
}
use hathor_wallet_lib.Wallet.Payment.{best_from_storage}
use hathor_wallet_lib.Tokens.Data.{
  TokenVersion, deposit, DataInput, DataTx, total_in, total_out, get_data_input_from_utxo,
}
use hathor_wallet_lib.Tokens.Amounts.{
  Fraction, get_deposit_amount, ceil_div, get_withdraw_amount, withdraw_all, total_amount,
  withdraw_all-get_deposit_amount,
}
use hathor_wallet_lib.Tokens.Pay.{
  Select, current_address, get_change_address, pay, pay_required, add_data,
}
use hathor_wallet_lib.Tokens.Fee.{
  calculate, add_keys, drop_name, fee_loop, group_element, group_elements, input_element,
  output_element, note_actions, token_fee,
}
use hathor_wallet_lib.Tokens.Storage.{best_from_storage-IsSelection}
use hathor_wallet_lib.Tokens.Mint.{
  Wallet, MintOptions, prepare_mint_tx_data, version_of, list_of, get_token, mint_outputs, owed_for,
  or_current,
}
use hathor_wallet_lib.Tokens.Mint.Balance.{deposit_of, headers_fee, prepare_mint_tx_data-total}
use hathor_wallet_lib.Tokens.Melt.{
  MeltOptions, withdrawal_of, pay_for_data, another_melt, prepare_melt_tx_data,
}
use hathor_wallet_lib.Tokens.Melt.Balance.{withdraw_of, prepare_melt_tx_data-total}

abbrev one_percent : Fraction
one_percent = record { numerator = 10000000; denominator = 1000000000 }

deposit_of_250 : get_deposit_amount (pos 250) one_percent ≡ ok 3
unfolding get_deposit_amount ceil_div
deposit_of_250 = refl

withdrawn_twice : withdraw_all (140 ∷ 110 ∷ []) one_percent ≡ ok 2
unfolding withdraw_all get_withdraw_amount
withdrawn_twice = refl

within_250 : total_amount (140 ∷ 110 ∷ []) ≤ 250
unfolding total_amount
within_250 = omega arith

withdraw_all-get_deposit_amount_example : 2 ≤ 3
withdraw_all-get_deposit_amount_example =
    withdraw_all-get_deposit_amount 250 (140 ∷ 110 ∷ []) one_percent 3 2 deposit_of_250
      withdrawn_twice within_250

abbrev funds : ℕ → Name → ℕ → ℕ → Utxo
funds tx_id token value authorities = record {
  id = record { tx_id = tx_id; index = 0 };
  version = 1;
  authorities = authorities;
  address = 100;
  token = token;
  value = value;
  timelock = none;
  height = none;
  shielded = false;
  blinding_factor = none;
  asset_blinding_factor = none;
}

abbrev store : Store
store = record {
  addresses = [];
  addresses_metadata = [];
  tokens_metadata = [];
  seqnum_metadata = [];
  history = [];
  utxos = funds 11 native_token 9 0 ∷ funds 12 7 300 0 ∷ [];
  locked_utxos = [];
  utxos_selected_as_input = [];
}

abbrev at_now : Clock
at_now = record { now_ts = none; date_now = 100; current_height = none; reward_lock = none }

abbrev unordered : Order → List Utxo → List Utxo
unordered order us = us

abbrev own_address : AddressInfo
own_address = record { index = 0; kind = none; ct_mapping_address = none }

abbrev own_book : Book
own_book = record {
  addresses = (100, own_address) ∷ [];
  legacy = record { current = pos 0; last_loaded = 0; last_used = pos 0; indexes = (0, 100) ∷ [] };
  shielded_chain = record { current = pos 0; last_loaded = 0; last_used = pos 0; indexes = [] };
  single_address = false;
}

abbrev own_wallet : Wallet
own_wallet = record {
  tokens = (7, some deposit) ∷ [];
  book = own_book;
  deposit_fraction = one_percent;
}

abbrev authority : ℕ → DataInput
authority n = record {
  id = record { tx_id = 13; index = n };
  value = n;
  authorities = n;
  token = 7;
  address = 100;
}

abbrev mint_options : MintOptions
mint_options = record {
  token = some 7;
  mint_input = some (authority 1);
  create_another_mint = true;
  change_address = none;
  unshift_data = false;
  data_strings = some (55 ∷ []);
  mint_authority_address = none;
  skip_deposit_fee = false;
  skip_fee_calculation = false;
  token_version = deposit;
}

abbrev melt_options : MeltOptions
melt_options = record {
  create_another_melt = false;
  melt_authority_address = none;
  change_address = none;
  unshift_data = true;
  data_strings = some (55 ∷ []);
}

abbrev best : Select
best = best_from_storage unordered at_now none store

abbrev returned {ℓ} : {A : Type ℓ} → A → Result A → A
returned d (ok a) = a
returned d _ = d

abbrev no_tx : DataTx
no_tx = record { inputs = []; outputs = []; tokens = []; token_version = none; headers = [] }

abbrev minted : DataTx
minted = returned no_tx (prepare_mint_tx_data own_wallet best 100 250 mint_options)

mint_returns : prepare_mint_tx_data own_wallet best 100 250 mint_options ≡ ok minted
unfolding prepare_mint_tx_data mint_outputs owed_for get_deposit_amount ceil_div version_of
    best_from_storage storage_select_utxos select_utxos in_order select_loop passes is_enough
    next_sum is_utxo_locked is_utxo_time_locked is_utxo_height_locked is_block is_height_locked
    effective_address is_authority_match is_utxo_selected_as_input best_utxo_selection
    get_current_address current_address get_change_address pay pay_required add_data
    get_data_input_from_utxo or_current ◌+ℤ◌
mint_returns = refl

mint_input_free : total_in native_token (list_of mint_options.mint_input) ≡ 0
unfolding total_in
mint_input_free = refl

prepare_mint_tx_data-total_example :
    (version : Option TokenVersion) × (d : ℕ) × (version_of own_wallet mint_options ≡ ok version)
    × (deposit_of own_wallet version 250 ≡ ok d)
    × (total_in native_token minted.inputs
        ≡ total_out native_token minted.outputs + d + headers_fee minted.headers)
prepare_mint_tx_data-total_example =
    prepare_mint_tx_data-total own_wallet mint_options 250 best
      (best_from_storage-IsSelection unordered at_now none store) 100 minted refl refl
      mint_input_free mint_returns

abbrev melted : DataTx
melted = returned no_tx (prepare_melt_tx_data own_wallet best 7 (authority 2) 100 250 melt_options)

melt_returns : prepare_melt_tx_data own_wallet best 7 (authority 2) 100 250 melt_options ≡ ok melted
unfolding prepare_melt_tx_data withdrawal_of pay_for_data get_withdraw_amount another_melt calculate
    add_keys drop_name fee_loop group_element group_elements input_element output_element
    note_actions token_fee best_from_storage storage_select_utxos select_utxos in_order select_loop
    passes is_enough next_sum is_utxo_locked is_utxo_time_locked is_utxo_height_locked is_block
    is_height_locked effective_address is_authority_match is_utxo_selected_as_input
    best_utxo_selection get_current_address current_address get_change_address pay pay_required
    add_data get_data_input_from_utxo or_current ◌+ℤ◌
melt_returns = refl

prepare_melt_tx_data-total_example :
    (version : Option TokenVersion) × (r : ℕ) × (get_token own_wallet.tokens 7 ≡ ok version)
    × (withdraw_of own_wallet version 250 ≡ ok r)
    × (total_in 7 melted.inputs ≡ total_out 7 melted.outputs + 250)
    × (total_in native_token melted.inputs + r
        ≡ total_out native_token melted.outputs + headers_fee melted.headers)
prepare_melt_tx_data-total_example =
    prepare_melt_tx_data-total own_wallet best 7 (authority 2) melt_options 250 (omega arith)
      (best_from_storage-IsSelection unordered at_now none store) 100 melted melt_returns
