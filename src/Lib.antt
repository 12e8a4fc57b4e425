-- ===== src/Lib.antt =====
-- A verification library for the runtime catalog: crates/catalog-core, which admits a catalog from
-- JSON, and crates/catalog-wizard, which drives a release of one.
--
-- How the parts interact. A catalog payload arrives as bytes. `payload_from_json` bounds it, rejects
-- JSON whose objects repeat a key, decodes it into wire records and turns each into a validated
-- record; a provider extension of a release is admitted against the components of the release. A
-- signed envelope carries such a payload: the scanner finds its five fields, the keyring that the
-- build embeds gives the key, and the payload is read from the very bytes that were signed. A release
-- is put together from a source record and the evidence that qualifies it, and is transferred as a bundle, an inventory of files and a signed manifest, which are checked against
-- each other. The wizard keeps one state file per release, moves it through the phases of `drive_release`, and takes
-- the sequence number of the next catalog from the names of the local source files.
--
-- Which file models which part:
-- - Base: shared notation, Boolean tests, results, lists, classes; no source. Strings: Rust's `str`
--   operations on UTF-8 bytes, `u64::to_string` and `str::parse::<u64>`.
-- - Catalog/Wire, Catalog/Records: the wire structs and the validated records of
--   crates/catalog-core/src/wire.rs and pi_installer_lock.rs. A newtype over a string is its text.
-- - Catalog/Scalars, Catalog/Parse, Catalog/Integrity: the scalar validators and parsers of wire.rs.
--   `decode_sha512_base64` and `encode_sha512_base64` count the 21 groups of three bytes that 64 bytes
--   hold before the last one.
-- - Catalog/Require: `require_unique`, `require_strictly_sorted_by` and the loop of
--   `require_coherent_package_identities`; a HashSet is the list of its elements, a HashMap an
--   association list in which the newest entry of a key comes first.
-- - Catalog/Admission, Catalog/Release: the `try_from_wire` functions of wire.rs, named `admit_*`.
-- - Catalog/Installer: pi_installer_lock.rs (`admit_profile` is PiReleaseProfileV1::from_wire,
--   `validate_profile` is PiReleaseProfileV1::validate). The loop of `validate_locator` has one round
--   for each byte of the locator and one more: every round but the last removes at least the prefix.
--   Catalog/Installer/Documents: its readers from bytes, and the qualification record.
-- - Catalog/Duplicates: `reject_duplicate_json` and DuplicateVisitor.
-- - Catalog/Source: the scalar values, tags and build binding of crates/catalog-core/src/source.rs.
--   Catalog/Initial: the release intents of the first format, of the same file; the JSON value that
--   `try_from_wire` builds is the record InitialDraft of its fields.
--   Catalog/Qualification: the records of the first format of crates/catalog-core/src/qualification.rs.
-- - Catalog/BundleRecords, Catalog/Bundle: crates/catalog-core/src/bundle.rs. An entry is found by its
--   path (`find_entry`); the binary search of the source finds the same one, since the entries that it
--   searches are in strict order.
-- - Signature/Scan: the scanner of crates/catalog-core/src/signature.rs. A position is the rest of the
--   bytes, a span the bytes that it covers. A compound is scanned on fuel, the length of its input,
--   since each step consumes a byte; the fields on fuel 6, since each round fills one of five slots.
-- - Signature/Base64url, Signature/Verify: the rest of signature.rs, and canonical.rs.
--   Signature/Keyring: the keyring of signature.rs and the checks of crates/catalog-core/build.rs.
-- - Assembly: source_v2.rs, the installer part of qualification.rs, `pi_release_subject_sha256` of
--   pi_installer_lock.rs and `verify_pi_release_bundle_assets` of bundle.rs. A JSON value is a type
--   that is a parameter; the value that `payload` builds is the record CatalogDraft of its fields.
-- - Wizard/State: crates/catalog-wizard/src/state.rs, with the disk as a value and the answer of each
--   system call as an argument. Paths are compared by their components, as PathBuf does, and a
--   replacement that cannot be opened says whether `exists` finds it. Wizard/Sequence: sequence.rs.
--   Wizard/Drive: `drive_release` of release.rs on fuel, one unit for each round; twelve are enough since each round that does not
--   return moves to the next phase. Wizard/Rotation: the proposed keyring of `rotate_key`,
--   `parse_inspection_output` from its test of the key on, and `bind_active_signing_identity`, of
--   key_rotation.rs.
-- - Catalog/Examples, Catalog/Installer/Examples, Catalog/Installer/Reading, Catalog/Bundle/Examples,
--   Catalog/Qualification/Examples, Catalog/Initial/Examples,
--   Signature/Examples, Assembly/Examples, Wizard/Examples and Wizard/Rotation/Examples: the
--   definitions and the theorems at concrete data.
--
-- Parameters, since they are not in this repository: the URL parser, semver requirements, RFC 3339
-- dates, the JSON decoder and canonicalizer (Catalog/Externals, and `Codec` in Wizard/State), SHA-256
-- and Ed25519 (`Crypto` in Signature/Verify, AssemblyExternals), the
-- operating system's answers (`Calls`), and the production machine of the driver (`Machine`). What a
-- theorem needs of them is a hypothesis there: a save needs the decoder to read back what the
-- canonicalizer wrote for that state, in at most MAX_STATE_BYTES, and the file that was written to be
-- stable while it is read.
--
-- Not modelled: the making of the wizard's private directory beyond its answer, the fixture identity of signature.rs, the record digests
-- of bundle.rs and source_v2.rs, the canonical spelling of the keyring file and the generated source
-- of build.rs, the source records and digests of the first format in source.rs, the binding of a first-format qualification to them, and the crates that do
-- input and output: catalog-acquire, catalog-installer-verify, catalog-latest-transport, catalog-publish,
-- catalog-sign and the other commands of catalog-wizard.
pub mod Base
pub mod Strings
pub mod Catalog
pub mod Signature
pub mod Assembly
pub mod Wizard
