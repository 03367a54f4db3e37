-- ===== src/Headers.antt =====
-- The transaction headers of src/headers: their ids, and the codecs of three of them.
pub mod Ids
pub mod Fee
pub mod MintMelt
pub mod Unshield
