-- ===== src/Wallet/Process.antt =====
-- src/utils/storage.ts, processNewTx: a transaction of the history changes the wallet's metadata. The
-- caller passes no PIN or the storage has no crypto provider, so no shielded output is decrypted on the
-- way; those that were decrypted before carry their value. The fields that the loop over the inputs fills
-- in are used in that round and not kept in the transaction.
use hathor_wallet_lib.Prelude.{
  ℕ, suc, ◌+◌, Bool, true, false, ◌||◌, Option, none, some, List, [], ◌∷◌, if◌then◌else◌,
}
use hathor_wallet_lib.Prelude.Int.{ℤ, pos, negsuc, ltb_ℤ}
use hathor_wallet_lib.Wallet.Maps.{Name, MapOf, get, has, add_name}
use hathor_wallet_lib.Wallet.Types.{
  TokenMeta, AddressMeta, HistoryOutput, HistoryInput, SpentFields, HistoryTx, AddressInfo,
  AddressType, shielded_spend, Utxo, UtxoId,
}
use hathor_wallet_lib.Wallet.Rules.{
  Clock, is_authority_output, is_output_locked, is_height_locked, or_null, resolve_spent_output,
  shielded_slot,
}
use hathor_wallet_lib.Wallet.Store.{
  Store, edit_token_meta, edit_address_meta, save_utxo, save_locked_utxo, is_utxo_selected_as_input,
  unselect_utxo,
}
use hathor_wallet_lib.Wallet.Balances.{credit_balance, debit_balance}
use hathor_wallet_lib.Wallet.Ledger.{change_balance}

-- What the function returns.
pub record Processed : Type 0 where
  pub legacy_max_address_index : ℤ
  pub shielded_max_address_index : ℤ
  pub tokens : List Name

-- The local variables of the function, beside the state of the store.
pub record Progress : Type 0 where
  pub store : Store
  pub legacy_max : ℤ
  pub shielded_max : ℤ
  pub tx_tokens : List Name
  pub tx_addresses : List Name

abbrev pub start : Store → Progress
start s = record {
  store = s;
  legacy_max = negsuc 0;
  shielded_max = negsuc 0;
  tx_tokens = [];
  tx_addresses = [];
}

abbrev raise : ℕ → ℤ → ℤ
raise index max = if ltb_ℤ max (pos index) then pos index else max

is_shielded_spend : Option AddressType → Bool
is_shielded_spend (some shielded_spend) = true
is_shielded_spend _ = false

-- The counters of a round over an output or an input of the wallet.
unfoldable pub track : AddressInfo → Name → Name → Progress → Progress
unfolding is_shielded_spend
track info token address p = record {
  store = p.store;
  legacy_max = if is_shielded_spend info.kind then p.legacy_max else raise info.index p.legacy_max;
  shielded_max =
      if is_shielded_spend info.kind then raise info.index p.shielded_max else p.shielded_max;
  tx_tokens = add_name token p.tx_tokens;
  tx_addresses = add_name address p.tx_addresses;
}

abbrev utxo_of : HistoryTx → HistoryOutput → Name → ℕ → Bool → Utxo
utxo_of tx output address index shielded = record {
  id = record { tx_id = tx.tx_id; index = index };
  version = tx.version;
  authorities = if is_authority_output output.token_data then output.value else 0;
  address = address;
  token = output.token;
  value = output.value;
  timelock = or_null output.timelock;
  height = or_null tx.height;
  shielded = shielded;
  blinding_factor = if shielded then output.blinding_factor else none;
  asset_blinding_factor = if shielded then output.asset_blinding_factor else none;
}

-- An unspent output is saved, with the locked ones if it is locked; a spent one is no longer selected.
unfoldable pub keep_utxo :
    Option Name → HistoryTx → HistoryOutput → Name → ℕ → Bool → Bool → Store → Store
keep_utxo none tx output address index shielded is_locked s =
    let saved = save_utxo (utxo_of tx output address index shielded) s in
    if is_locked then save_locked_utxo (record { tx = tx; index = index }) saved else saved
keep_utxo (some _) tx output address index shielded is_locked s =
    let id : UtxoId = record { tx_id = tx.tx_id; index = index } in
    if is_utxo_selected_as_input s id then unselect_utxo id s else s

-- creditOutput: `found` is what the wallet knows of the address, which it ignores if that is nothing.
unfoldable pub credit_to :
    Clock → HistoryTx → HistoryOutput → ℕ → Bool → Name → Option AddressInfo → Progress → Progress
credit_to clock tx output index shielded address none p = p
credit_to clock tx output index shielded address (some info) p =
    let is_locked = is_output_locked clock output.timelock || is_height_locked tx.height clock in
    let kept = keep_utxo output.spent_by tx output address index shielded is_locked p.store in
    let credit = credit_balance is_locked output.value output.token_data in
    record (track info output.token address p) {
      store = change_balance credit output.token address kept;
    }

unfoldable pub credit_at :
    Clock → HistoryTx → HistoryOutput → ℕ → Bool → Option Name → Progress → Progress
credit_at clock tx output index shielded none p = p
credit_at clock tx output index shielded (some address) p =
    credit_to clock tx output index shielded address (get address p.store.addresses) p

abbrev pub credit_output : Clock → HistoryTx → HistoryOutput → ℕ → Bool → Progress → Progress
credit_output clock tx output index shielded p =
    credit_at clock tx output index shielded output.address p

unfoldable pub credit_outputs : Clock → HistoryTx → ℕ → List HistoryOutput → Progress → Progress
credit_outputs clock tx index [] p = p
credit_outputs clock tx index (o ∷ os) p =
    credit_outputs clock tx (suc index) os (credit_output clock tx o index false p)

unfoldable pub credit_shielded :
    Clock → HistoryTx → ℕ → List (Option HistoryOutput) → Progress → Progress
credit_shielded clock tx index [] p = p
credit_shielded clock tx index (none ∷ os) p = credit_shielded clock tx (suc index) os p
credit_shielded clock tx index (some o ∷ os) p =
    credit_shielded clock tx (suc index) os (credit_output clock tx o index true p)

-- The decrypted shielded output that an input spends, if the parent is known.
unfoldable pub spent_shielded : MapOf HistoryTx → HistoryInput → Option SpentFields
spent_shielded history input = elim (get input.tx_id history) [
  | none ↦ none
  | some parent ↦ elim (resolve_spent_output parent input.index) [
    | some (shielded_slot _ (some o)) ↦ some (record {
      value = o.value;
      token = o.token;
      token_data = o.token_data;
      address = o.address;
    })
    | _ ↦ none
  ]
]

-- What is found is filled in if its address is the wallet's.
unfoldable pub own_fields : MapOf AddressInfo → Option SpentFields → Option SpentFields
own_fields addresses none = none
own_fields addresses (some fields) = elim fields.address [
  | none ↦ none
  | some a ↦ if has a addresses then some fields else none
]

unfoldable pub fill_in :
    MapOf HistoryTx → MapOf AddressInfo → HistoryInput → Option SpentFields → Option SpentFields
fill_in history addresses input (some fields) = some fields
fill_in history addresses input none =
    if input.is_shielded then own_fields addresses (spent_shielded history input) else none

-- The fields of an input, a bare shielded one's taken from the parent's output.
abbrev pub enriched : Store → HistoryInput → Option SpentFields
enriched s input = fill_in s.history s.addresses input input.spent

unfoldable pub debit_from : SpentFields → Name → Option AddressInfo → Progress → Progress
debit_from fields address none p = p
debit_from fields address (some info) p =
    let debit = debit_balance fields.value fields.token_data in
    record (track info fields.token address p) {
      store = change_balance debit fields.token address p.store;
    }

unfoldable pub debit_at : SpentFields → Option Name → Progress → Progress
debit_at fields none p = p
debit_at fields (some address) p = debit_from fields address (get address p.store.addresses) p

-- An input that is still bare is skipped.
unfoldable pub debit_fields : Option SpentFields → Progress → Progress
debit_fields none p = p
debit_fields (some fields) p = debit_at fields fields.address p

-- A round of the loop over the inputs.
abbrev pub debit_input : HistoryInput → Progress → Progress
debit_input input p = debit_fields (enriched p.store input) p

unfoldable pub debit_inputs : List HistoryInput → Progress → Progress
debit_inputs [] p = p
debit_inputs (i ∷ is) p = debit_inputs is (debit_input i p)

-- The number of transactions of each token and address that a round has counted.
unfoldable pub count_token : Name → Option TokenMeta → Store → Store
count_token token none s = s
count_token token (some meta) s =
    edit_token_meta token
      (record { num_transactions = meta.num_transactions + 1; balance = meta.balance }) s

unfoldable pub count_address : Name → Option AddressMeta → Store → Store
count_address address none s = s
count_address address (some meta) s =
    edit_address_meta address
      (record { num_transactions = meta.num_transactions + 1; balances = meta.balances }) s

unfoldable pub count_tokens : List Name → Store → Store
count_tokens [] s = s
count_tokens (t ∷ ts) s = count_tokens ts (count_token t (get t s.tokens_metadata) s)

unfoldable pub count_addresses : List Name → Store → Store
count_addresses [] s = s
count_addresses (a ∷ rest) s = count_addresses rest (count_address a (get a s.addresses_metadata) s)
