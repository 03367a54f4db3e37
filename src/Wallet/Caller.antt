-- ===== src/Wallet/Caller.antt =====
-- src/utils/storage.ts, processNewTx: the address that signs a nano contract or a blueprint, the counts of
-- transactions, and the whole function. A throw leaves what has been written in the store, so a call
-- returns its result together with the store. getAddressFromPubkey goes through the key library: it is a
-- parameter.
use hathor_wallet_lib.Prelude.{ℕ, Option, none, some, [], length, if◌then◌else◌, ◌==◌}
use hathor_wallet_lib.Prelude.Int.{pos, negsuc, ltb_ℤ}
use hathor_wallet_lib.Result.{Result, ok, err, missing_value, ◌>>◌}
use hathor_wallet_lib.Wallet.Maps.{is_found, Name, add_name, get_or, has}
use hathor_wallet_lib.Wallet.Types.{HistoryTx}
use hathor_wallet_lib.Wallet.Rules.{Clock}
use hathor_wallet_lib.Wallet.Store.{
  Store, is_address_mine, edit_address_meta, edit_seqnum_meta, default_address_meta,
}
use hathor_wallet_lib.Wallet.Process.{
  Progress, Processed, start, credit_outputs, credit_shielded, debit_inputs, count_tokens,
  count_addresses,
}

-- Sequence numbers that are not known yet are below every other.
unfoldable pub raise_seqnum : Name → ℕ → Store → Store
raise_seqnum address seqnum s =
    if ltb_ℤ (get_or (negsuc 0) address s.seqnum_metadata) (pos seqnum)
    then edit_seqnum_meta address (pos seqnum) s
    else s

abbrev pub keep_seqnum : Name → ℕ → Store → Store
keep_seqnum caller seqnum s =
    let known = get_or (negsuc 0) caller s.seqnum_metadata in
    edit_seqnum_meta caller (if ltb_ℤ known (pos seqnum) then pos seqnum else known) s

unfoldable pub executed_seqnum :
    Option Name → Option Name → Option ℕ → Option Name → Store → Result (Unit {0}) × Store
executed_seqnum (some _) (some _) (some seqnum) none s = (err missing_value, s)
executed_seqnum (some _) (some _) (some seqnum) (some caller) s =
    (ok tt, if is_address_mine s caller then keep_seqnum caller seqnum s else s)
executed_seqnum _ _ _ _ s = (ok tt, s)

-- A voided nano transaction that a block has executed still uses up a number of its caller.
abbrev pub voided_seqnum : HistoryTx → Store → Result (Unit {0}) × Store
voided_seqnum tx s = executed_seqnum tx.nc_id tx.first_block tx.nc_seqnum tx.nc_address s

-- `none`: the transaction has no caller.
unfoldable pub caller_of : (Name → Result Name) → HistoryTx → Option (Result Name)
caller_of address_of_pubkey tx =
    if tx.version == 6
    then some (elim tx.nc_pubkey [ none ↦ err missing_value | some key ↦ address_of_pubkey key ])
    else if is_found tx.nc_id
    then some (elim tx.nc_address [ none ↦ err missing_value | some address ↦ ok address ])
    else none

unfoldable pub new_address_meta : Name → Store → Store
new_address_meta caller s =
    if has caller s.addresses_metadata then s else edit_address_meta caller default_address_meta s

unfoldable pub caller_seqnum : Option Name → Option ℕ → Name → Store → Store
caller_seqnum (some _) (some seqnum) caller s = raise_seqnum caller seqnum s
caller_seqnum _ _ caller s = s

unfoldable pub note_caller : HistoryTx → Name → Progress → Progress
note_caller tx caller p =
    if is_address_mine p.store caller
    then record p {
      store = caller_seqnum tx.nc_id tx.nc_seqnum caller (new_address_meta caller p.store);
      tx_addresses = add_name caller p.tx_addresses;
    }
    else p

-- The end of the function, once the caller is noted.
unfoldable pub finish : Progress → Result Processed × Store
finish p = (
  ok (record {
    legacy_max_address_index = p.legacy_max;
    shielded_max_address_index = p.shielded_max;
    tokens = p.tx_tokens;
  }),
  count_addresses p.tx_addresses (count_tokens p.tx_tokens p.store),
)

-- What follows the loops over the outputs and the inputs.
unfoldable pub finish_with : HistoryTx → Option (Result Name) → Progress → Result Processed × Store
finish_with tx none p = finish p
finish_with tx (some (err e)) p = (err e, p.store)
finish_with tx (some (ok caller)) p = finish (note_caller tx caller p)

unfoldable pub move_funds : Clock → HistoryTx → Store → Progress
move_funds clock tx s = debit_inputs tx.inputs (
    credit_shielded clock tx (length tx.outputs) tx.shielded_outputs
      (credit_outputs clock tx 0 tx.outputs (start s)))

abbrev pub nothing_processed : Processed
nothing_processed = record {
  legacy_max_address_index = negsuc 0;
  shielded_max_address_index = negsuc 0;
  tokens = [];
}

abbrev pub process_voided : HistoryTx → Store → Result Processed × Store
process_voided tx s = let (noted, s') = voided_seqnum tx s in (noted >> ok nothing_processed, s')

abbrev pub process_valid :
    (Name → Result Name) → Clock → HistoryTx → Store → Result Processed × Store
process_valid address_of_pubkey clock tx s =
    finish_with tx (caller_of address_of_pubkey tx) (move_funds clock tx s)

unfoldable pub process_new_tx :
    (Name → Result Name) → Clock → HistoryTx → Store → Result Processed × Store
process_new_tx address_of_pubkey clock tx s =
    if tx.is_voided then process_voided tx s else process_valid address_of_pubkey clock tx s
