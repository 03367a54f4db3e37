-- ===== src/Tokens.antt =====
-- Fees, deposits and the transactions that mint and melt tokens: src/utils/fee.ts and src/utils/tokens.ts.
-- The addresses of outputs are transparent ones, which their scripts are made of; their `type`, which
-- getAddressType reads off the address, is left out.
pub mod Data
pub mod Fee
pub mod Amounts
pub mod Pay
pub mod Mint
pub mod Melt
pub mod Storage
