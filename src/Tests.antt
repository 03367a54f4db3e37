-- ===== src/Tests.antt =====
-- Runs of the theorems at concrete inputs.
mod Bytes
mod Headers
mod Contracts
mod Selections
mod Transactions
mod Wallets
mod Queues
mod Scans
mod Mints
mod Templates
mod Ledgers
