-- ===== src/Catalog/Examples.antt =====
-- crates/catalog-core/src/wire.rs: a small catalog, and single values, on concrete data.
use mathlib.Core.List.{flat_map}
use fluxsemble_runtime_catal.Base.{
  Option, ◌≤◌, ◌<◌, ◌≡◌, ◌↔◌, refl, true, none, some, List, [], ◌∷◌, ◌++◌, Text, codes, ok, All,
  length, ◌>>=◌, ensure,
}
use fluxsemble_runtime_catal.Strings.{split, text_eq, split_once, strip_prefix, chars}
use fluxsemble_runtime_catal.Strings.Split.{text_class}
use fluxsemble_runtime_catal.Strings.Decimal.{u64_limit, to_string, parse_u64}
use fluxsemble_runtime_catal.Catalog.Externals.{
  Externals, Url, Json, integer, null, map, close, field,
}
use fluxsemble_runtime_catal.Catalog.Wire.{
  ArtifactDescriptorWire, ProviderExtensionWire, CatalogReleaseWire, CatalogPayloadWire,
}
use fluxsemble_runtime_catal.Catalog.Records.{linux_x86_64, CatalogPayload, ProviderExtension}
use fluxsemble_runtime_catal.Catalog.Integrity.{is_canonical_sha512_integrity, encode_sha512_base64}
use fluxsemble_runtime_catal.Catalog.Integrity.RoundTrip.{IsByte, integrity_iff}
use fluxsemble_runtime_catal.Catalog.Scalars.Versions.{Version, print}
use fluxsemble_runtime_catal.Catalog.Scalars.Versions.Grammar.{IsVersion, exact_version_iff}
use fluxsemble_runtime_catal.Catalog.Scalars.{
  valid_sha256_digest, valid_id_segment, valid_catalog_id, valid_numeric_component, valid_core,
  valid_without_build, valid_exact_version, valid_plain_text, valid_inventory_path, valid_url_input,
}
use fluxsemble_runtime_catal.Catalog.Scalars.Paths.{
  IsPathByte, IsName, walk, descend, inventory_path_inside, inventory_path_iff,
}
use fluxsemble_runtime_catal.Catalog.Require.{all_inserted}
use fluxsemble_runtime_catal.Catalog.Parse.{
  parse_sha256_digest, parse_release_title, parse_release_notes, parse_inventory_path,
  parse_exact_version, parse_catalog_id, parse_harness_id, parse_byte_size, parse_nonzero_decimal,
  parse_target, parse_https_url, parse_artifact_url, url_origin, parse_allowed_origin,
  origin_allowed, parse_compatibility_range, parse_ranges, parse_timestamp,
}
use fluxsemble_runtime_catal.Catalog.Parse.Decimals.{nonzero_decimal_iff}
use fluxsemble_runtime_catal.Catalog.Admission.{
  admit_metadata, admit_entry, admit_artifact, admit_component,
}
use fluxsemble_runtime_catal.Catalog.Duplicates.{reject_duplicate_json, visit}
use fluxsemble_runtime_catal.Catalog.Duplicates.Exact.{Clean, reject_duplicate_json_iff}
use fluxsemble_runtime_catal.Catalog.Release.{
  payload_from_json, admit_payload, admit_provider, admit_release, admit_extension,
}
use fluxsemble_runtime_catal.Catalog.Release.WellFormed.{IsPayload, payload_from_json-IsPayload}
use fluxsemble_runtime_catal.Catalog.Source.{max_catalog_payload_bytes}

abbrev only_url : Url
only_url = record {
  scheme = codes "https";
  host_str = some (codes "example.org");
  username = [];
  password = none;
  query = none;
  fragment = none;
  path = codes "/";
  origin = codes "https://example.org";
}

abbrev repeated : Json
repeated = map (field (codes "a") (integer 1) (field (codes "a") (integer 2) close))

abbrev pub zeros : Text
zeros = codes "0000000000000000000000000000000000000000000000000000000000000000"

abbrev pub artifact_wire : ArtifactDescriptorWire
artifact_wire = record {
  artifact_id = codes "artifact:cli";
  url = codes "https://example.org/cli.tgz";
  size_bytes = codes "7";
  sha256 = zeros;
  inventory =
      record { path = codes "bin/cli"; size_bytes = codes "5"; sha256 = zeros }
      ∷ record { path = codes "LICENSE"; size_bytes = codes "0"; sha256 = zeros }
      ∷ [];
}

abbrev release_wire : CatalogReleaseWire
release_wire = record {
  version = codes "1.2.3";
  target = codes "linux_x86_64";
  compatibility_ranges = codes "^1" ∷ [];
  release_metadata = record { title = codes "One"; notes = codes "First." };
  components =
      record {
        component_id = codes "component:cli";
        version = codes "1.2.3";
        artifacts = artifact_wire ∷ [];
      }
      ∷ [];
  provider_extension = ProviderExtensionWire.none;
}

abbrev pub payload_wire : CatalogPayloadWire
payload_wire = record {
  schema_version = 1;
  sequence = codes "3";
  generated_at = codes "2026-01-01T00:00:00Z";
  expires_at = codes "2026-02-01T00:00:00Z";
  compatibility_ranges = codes "^1" ∷ [];
  providers =
      record {
        provider_id = codes "builtin:other";
        allowed_origins = codes "https://example.org" ∷ [];
        releases = release_wire ∷ [];
      }
      ∷ [];
}

abbrev tree_of : Text → Option Json
tree_of [] = some repeated
tree_of (_ ∷ _) = some null

-- every URL is at one origin, every date is in UTC, the empty text repeats a key, and another is `null`
abbrev pub outside : Externals
outside = record {
  parse_url = λ value. some only_url;
  version_req = λ value. true;
  parse_rfc3339 = λ value. some (record { is_utc = true; utc_text = value });
  json_tree = tree_of;
  payload_from_slice = λ bytes. some payload_wire;
  payload_to_vec = λ payload. some (codes "{}");
  profile_to_vec = λ profile. some (codes "{}");
}

abbrev pub small_payload : CatalogPayload
small_payload = record {
  schema_version = 1;
  sequence = 3;
  generated_at = codes "2026-01-01T00:00:00Z";
  expires_at = codes "2026-02-01T00:00:00Z";
  compatibility_ranges = codes "^1" ∷ [];
  providers =
      record {
        provider_id = codes "builtin:other";
        allowed_origins = codes "https://example.org" ∷ [];
        releases =
            record {
              version = codes "1.2.3";
              target = linux_x86_64;
              compatibility_ranges = codes "^1" ∷ [];
              release_metadata = record { title = codes "One"; notes = codes "First." };
              components =
                  record {
                    component_id = codes "component:cli";
                    version = codes "1.2.3";
                    artifacts =
                        record {
                          artifact_id = codes "artifact:cli";
                          url = codes "https://example.org/cli.tgz";
                          size_bytes = 7;
                          sha256 = zeros;
                          inventory =
                              record { path = codes "bin/cli"; size_bytes = 5; sha256 = zeros }
                              ∷ record { path = codes "LICENSE"; size_bytes = 0; sha256 = zeros }
                              ∷ [];
                        }
                        ∷ [];
                  }
                  ∷ [];
              provider_extension = ProviderExtension.none;
            }
            ∷ [];
      }
      ∷ [];
}

small_admitted : admit_payload outside payload_wire ≡ ok small_payload
unfolding ◌>>=◌ ensure to_string parse_u64 all_inserted parse_sha256_digest parse_release_title
    parse_release_notes parse_inventory_path parse_exact_version parse_catalog_id parse_harness_id
    parse_byte_size parse_nonzero_decimal parse_target parse_https_url parse_artifact_url url_origin
    parse_allowed_origin origin_allowed parse_compatibility_range parse_ranges parse_timestamp
    valid_sha256_digest valid_id_segment valid_catalog_id valid_numeric_component valid_core
    valid_without_build valid_exact_version valid_plain_text valid_inventory_path valid_url_input
    admit_metadata admit_entry admit_artifact admit_component admit_payload admit_provider
    admit_release admit_extension split text_eq split_once strip_prefix chars flat_map
small_admitted = refl

pub small_read : payload_from_json outside (codes "{}") ≡ ok small_payload
unfolding payload_from_json reject_duplicate_json visit ◌>>=◌ ensure
small_read = small_admitted

payload_from_json-IsPayload_example :
    (length (codes "{}") ≤ max_catalog_payload_bytes)
    × ((j : Json) × (outside.json_tree (codes "{}") ≡ some j) × Clean j)
    × IsPayload outside small_payload
payload_from_json-IsPayload_example =
    payload_from_json-IsPayload outside (codes "{}") small_payload small_read

reject_duplicate_json_iff_example :
    (reject_duplicate_json outside [] ≡ ok tt)
    ↔ ((j : Json) × (outside.json_tree [] ≡ some j) × Clean j)
reject_duplicate_json_iff_example = reject_duplicate_json_iff outside []

abbrev sample_integrity : Text
sample_integrity = codes "sha512-AAAA"

integrity_iff_example : (is_canonical_sha512_integrity sample_integrity ≡ true) ↔ (
    (bytes : Text) × (length bytes ≡ 64)
    × All IsByte bytes
    × (sample_integrity ≡ codes "sha512-" ++ encode_sha512_base64 bytes))
integrity_iff_example = integrity_iff sample_integrity

abbrev sample_version : Text
sample_version = codes "1.2.3-rc.1+build.7"

exact_version_iff_example :
    (valid_exact_version sample_version ≡ true)
    ↔ ((length sample_version ≤ 256) × ((v : Version) × IsVersion v × (sample_version ≡ print v)))
exact_version_iff_example = exact_version_iff sample_version

inventory_path_inside_example :
    walk (codes "root" ∷ []) (split b'/' (codes "bin/cli"))
    ≡ some (descend (codes "root" ∷ []) (split b'/' (codes "bin/cli")))
unfolding valid_inventory_path split text_eq
inventory_path_inside_example = inventory_path_inside (codes "bin/cli") (codes "root" ∷ []) refl

abbrev names : List Text
names = codes "b" ∷ codes "a" ∷ codes "b" ∷ []

inventory_path_iff_example : (valid_inventory_path (codes "bin/../cli") ≡ true) ↔ (
    (length (codes "bin/../cli") ≤ 512)
    × All IsPathByte (codes "bin/../cli")
    × All IsName (split b'/' (codes "bin/../cli")))
inventory_path_iff_example = inventory_path_iff (codes "bin/../cli")

nonzero_decimal_iff_example :
    (parse_nonzero_decimal (codes "7") ≡ ok 7)
    ↔ ((0 < 7) × (7 < u64_limit) × (codes "7" ≡ to_string 7))
nonzero_decimal_iff_example = nonzero_decimal_iff (codes "7") 7
