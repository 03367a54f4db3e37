-- ===== src/Tx.antt =====
-- The models of src/models: inputs, outputs and transactions, as bytes.
pub mod Items
pub mod Input
pub mod Script
pub mod Output
pub mod Transaction
pub mod Headers
pub mod Supported
pub mod RoundTrip
pub mod Whole
