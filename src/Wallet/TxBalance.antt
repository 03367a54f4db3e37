-- ===== src/Wallet/TxBalance.antt =====
-- src/utils/transaction.ts, getTxBalance: what a transaction adds to each balance of the wallet.
use hathor_wallet_lib.Prelude.{
  ℕ, Bool, false, ◌||◌, Option, none, some, List, [], ◌∷◌, if◌then◌else◌,
}
use hathor_wallet_lib.Prelude.Int.{ℤ, pos, negsuc}
use hathor_wallet_lib.Wallet.Maps.{Name, MapOf, has, get_or, set}
use hathor_wallet_lib.Wallet.Types.{
  AddressInfo, HistoryOutput, HistoryInput, SpentFields, HistoryTx, Balance, empty_balance,
}
use hathor_wallet_lib.Wallet.Rules.{Clock, is_output_locked, is_height_locked}
use hathor_wallet_lib.Wallet.Store.{Store}
use hathor_wallet_lib.Wallet.Balances.{accrue_balance}
use hathor_wallet_lib.Wallet.Process.{spent_shielded}

unfoldable pub accrue : Name → ℕ → ℕ → Bool → ℤ → MapOf Balance → MapOf Balance
accrue token value token_data is_locked sign m =
    set token (accrue_balance value token_data is_locked sign (get_or empty_balance token m)) m

unfoldable pub accrue_at :
    Clock
    → MapOf AddressInfo
    → HistoryTx
    → HistoryOutput
    → Option Name
    → MapOf Balance
    → MapOf Balance
accrue_at clock addresses tx o none m = m
accrue_at clock addresses tx o (some address) m =
    let is_locked = is_output_locked clock o.timelock || is_height_locked tx.height clock in
    if has address addresses then accrue o.token o.value o.token_data is_locked (pos 1) m else m

abbrev pub accrue_output :
    Clock → MapOf AddressInfo → HistoryTx → HistoryOutput → MapOf Balance → MapOf Balance
accrue_output clock addresses tx o m = accrue_at clock addresses tx o o.address m

unfoldable pub accrue_outputs :
    Clock → MapOf AddressInfo → HistoryTx → List HistoryOutput → MapOf Balance → MapOf Balance
accrue_outputs clock addresses tx [] m = m
accrue_outputs clock addresses tx (o ∷ os) m =
    accrue_outputs clock addresses tx os (accrue_output clock addresses tx o m)

unfoldable pub accrue_shielded :
    Clock
    → MapOf AddressInfo
    → HistoryTx
    → List (Option HistoryOutput)
    → MapOf Balance
    → MapOf Balance
accrue_shielded clock addresses tx [] m = m
accrue_shielded clock addresses tx (none ∷ os) m = accrue_shielded clock addresses tx os m
accrue_shielded clock addresses tx (some o ∷ os) m =
    accrue_shielded clock addresses tx os (accrue_output clock addresses tx o m)

-- The fields of the spent output: inline, unless the address or all of them are missing.
unfoldable pub inline_or : Option SpentFields → Option SpentFields → Option SpentFields
inline_or none found = found
inline_or (some fields) found = elim fields.address [ none ↦ found | some _ ↦ some fields ]

abbrev pub spent_fields : MapOf HistoryTx → HistoryInput → Option SpentFields
spent_fields history input = inline_or input.spent (spent_shielded history input)

unfoldable pub accrue_from :
    MapOf AddressInfo → SpentFields → Option Name → MapOf Balance → MapOf Balance
accrue_from addresses fields none m = m
accrue_from addresses fields (some address) m =
    if has address addresses
    then accrue fields.token fields.value fields.token_data false (negsuc 0) m
    else m

unfoldable pub accrue_fields :
    MapOf AddressInfo → Option SpentFields → MapOf Balance → MapOf Balance
accrue_fields addresses none m = m
accrue_fields addresses (some fields) m = accrue_from addresses fields fields.address m

unfoldable pub accrue_inputs :
    MapOf HistoryTx → MapOf AddressInfo → List HistoryInput → MapOf Balance → MapOf Balance
accrue_inputs history addresses [] m = m
accrue_inputs history addresses (i ∷ is) m =
    accrue_inputs history addresses is (accrue_fields addresses (spent_fields history i) m)

unfoldable pub get_tx_balance : Clock → HistoryTx → Store → MapOf Balance
get_tx_balance clock tx s = accrue_inputs s.history s.addresses tx.inputs (
    accrue_shielded clock s.addresses tx tx.shielded_outputs
      (accrue_outputs clock s.addresses tx tx.outputs []))
