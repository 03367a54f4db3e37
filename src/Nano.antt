-- ===== src/Nano.antt =====
-- Nano contract arguments: src/nano_contracts/fields and the type nodes of src/nano_contracts/ncTypes.
pub mod Encoding
pub mod Fields
