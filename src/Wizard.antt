-- ===== src/Wizard.antt =====
-- crates/catalog-wizard: the release wizard's durable state and its sequence numbers.
pub mod State
pub mod Sequence
pub mod Rotation
pub mod Drive
pub mod Examples
