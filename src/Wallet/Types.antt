-- ===== src/Wallet/Types.antt =====
-- The records of src/types.ts that the wallet's data is made of. A count and an amount on chain are not
-- negative; a balance can be, so it holds integers. `undefined` and `null` are `none`.
use hathor_wallet_lib.Prelude.{ℕ, Bool, Option, List}
use hathor_wallet_lib.Prelude.Int.{ℤ, pos}
use hathor_wallet_lib.Wallet.Maps.{Name, MapOf}

-- ITransparentOutput, and a shielded output that the wallet has decrypted; `address` and `timelock` are
-- those of `decoded`.
pub record HistoryOutput : Type 0 where
  pub value : ℕ
  pub token : Name
  pub token_data : ℕ
  pub address : Option Name
  pub timelock : Option ℕ
  pub spent_by : Option Name
  pub blinding_factor : Option Name
  pub asset_blinding_factor : Option Name

-- What an input repeats of the output that it spends.
pub record SpentFields : Type 0 where
  pub value : ℕ
  pub token : Name
  pub token_data : ℕ
  pub address : Option Name

-- An input carries all of these fields, or none when it spends a shielded output.
pub record HistoryInput : Type 0 where
  pub tx_id : Name
  pub index : ℕ
  pub is_shielded : Bool
  pub spent : Option SpentFields

-- IHistoryTx. A shielded output is `none` while its `value` is undefined, that is, unless the wallet
-- owns it and has decrypted it.
pub record HistoryTx : Type 0 where
  pub tx_id : Name
  pub version : ℕ
  pub timestamp : ℕ
  pub is_voided : Bool
  pub height : Option ℕ
  pub first_block : Option Name
  pub inputs : List HistoryInput
  pub outputs : List HistoryOutput
  pub shielded_outputs : List (Option HistoryOutput)
  pub nc_id : Option Name
  pub nc_seqnum : Option ℕ
  pub nc_address : Option Name
  pub nc_pubkey : Option Name

-- IBalance
pub record Amounts : Type 0 where
  pub unlocked : ℤ
  pub locked : ℤ

pub record Balance : Type 0 where
  pub tokens : Amounts
  pub mint : Amounts
  pub melt : Amounts

abbrev no_amounts : Amounts
no_amounts = record { unlocked = pos 0; locked = pos 0 }

-- getEmptyBalance
abbrev pub empty_balance : Balance
empty_balance = record { tokens = no_amounts; mint = no_amounts; melt = no_amounts }

-- `addressType` is undefined in the wallets of before shielded addresses.
pub data AddressType : Type 0 where
  p2pkh p2sh shielded shielded_spend : AddressType

pub record AddressInfo : Type 0 where
  pub index : ℕ
  pub kind : Option AddressType
  pub ct_mapping_address : Option Name

-- ITokenMetadata and IAddressMetadata
pub record TokenMeta : Type 0 where
  pub num_transactions : ℕ
  pub balance : Balance

pub record AddressMeta : Type 0 where
  pub num_transactions : ℕ
  pub balances : MapOf Balance

-- IUtxoId and IUtxo
pub record UtxoId : Type 0 where
  pub tx_id : Name
  pub index : ℕ

pub record Utxo : Type 0 where
  pub id : UtxoId
  pub version : ℕ
  pub authorities : ℕ
  pub address : Name
  pub token : Name
  pub value : ℕ
  pub timelock : Option ℕ
  pub height : Option ℕ
  pub shielded : Bool
  pub blinding_factor : Option Name
  pub asset_blinding_factor : Option Name

-- ILockedUtxo
pub record LockedUtxo : Type 0 where
  pub tx : HistoryTx
  pub index : ℕ
