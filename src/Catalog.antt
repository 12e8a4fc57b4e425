-- ===== src/Catalog.antt =====
-- crates/catalog-core: the validated catalog records and their admission from wire JSON.
pub mod Examples
pub mod Scalars
pub mod Integrity
pub mod Require
pub mod Wire
pub mod Records
pub mod Externals
pub mod Parse
pub mod Admission
pub mod Installer
pub mod Duplicates
pub mod Release
pub mod Source
pub mod Qualification
pub mod Initial
pub mod BundleRecords
pub mod Bundle
