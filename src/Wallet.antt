-- ===== src/Wallet.antt =====
-- The wallet's own data: src/utils/storage.ts, src/utils/transaction.ts and the memory store. Addresses,
-- token uids and transaction ids are only compared, so they are names, which are numbers.
pub mod Maps
pub mod Types
pub mod Rules
pub mod Store
pub mod Utxos
pub mod Balances
pub mod Ledger
pub mod Process
pub mod Caller
pub mod TxBalance
pub mod Moves
pub mod Credits
pub mod Debits
pub mod Counts
pub mod Accounts
pub mod Unlock
pub mod History
pub mod Single
pub mod Select
pub mod Target
pub mod Payment
pub mod Scan
pub mod Notes
pub mod Gap
pub mod Cursor
