-- ===== src/Assembly.antt =====
-- crates/catalog-core: how the current release format is put together from its evidence.
pub mod Externals
pub mod Evidence
pub mod Intent
pub mod Source
pub mod Assets
mod Examples
