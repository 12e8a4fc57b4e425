-- ===== src/Signature.antt =====
-- crates/catalog-core/src/signature.rs: signed envelopes, the keyring, and what verification returns.
pub mod Errors
pub mod Scan
pub mod Examples
pub mod Verify
pub mod Keyring
pub mod Base64url
