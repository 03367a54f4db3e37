-- ===== src/Template.antt =====
-- Transaction templates: src/template/transaction. The references to variables in an instruction are
-- resolved, logs are left out, and a script is kept as what it is made from.
pub mod Balance
pub mod Context
pub mod Inputs
pub mod Outputs
pub mod Nano
pub mod Amounts
pub mod Complete
pub mod Ledger
pub mod Run
