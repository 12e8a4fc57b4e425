-- ===== src/Catalog/Initial/Examples.antt =====
-- crates/catalog-core/src/source.rs: one intent of the first format, on concrete data.
use mathlib.Core.List.{flat_map}
use fluxsemble_runtime_catal.Base.{◌≡◌, refl, some, [], ◌∷◌, codes, ok, ◌>>=◌, ensure}
use fluxsemble_runtime_catal.Strings.{split, text_eq, split_once, strip_prefix, chars}
use fluxsemble_runtime_catal.Strings.Split.{text_class}
use fluxsemble_runtime_catal.Strings.Decimal.{to_string, parse_u64}
use fluxsemble_runtime_catal.Catalog.Externals.{Externals}
use fluxsemble_runtime_catal.Catalog.Wire.{ProviderExtensionWire, CatalogPayloadWire}
use fluxsemble_runtime_catal.Catalog.Records.{linux_x86_64, ProviderExtension}
use fluxsemble_runtime_catal.Catalog.Scalars.{
  valid_sha256_digest, valid_id_segment, valid_catalog_id, valid_numeric_component, valid_core,
  valid_without_build, valid_exact_version, valid_plain_text, valid_inventory_path, valid_url_input,
}
use fluxsemble_runtime_catal.Catalog.Require.{all_inserted}
use fluxsemble_runtime_catal.Catalog.Parse.{
  parse_sha256_digest, parse_release_title, parse_release_notes, parse_inventory_path,
  parse_exact_version, parse_catalog_id, parse_harness_id, parse_byte_size, parse_nonzero_decimal,
  parse_target, parse_https_url, parse_artifact_url, url_origin, parse_allowed_origin,
  origin_allowed, parse_compatibility_range, parse_ranges, parse_timestamp,
}
use fluxsemble_runtime_catal.Catalog.Admission.{
  admit_metadata, admit_entry, admit_artifact, admit_component,
}
use fluxsemble_runtime_catal.Catalog.Duplicates.{reject_duplicate_json, visit}
use fluxsemble_runtime_catal.Catalog.Release.{
  payload_from_json, admit_payload, admit_provider, admit_release, admit_extension,
}
use fluxsemble_runtime_catal.Strings.{text_lt}
use fluxsemble_runtime_catal.Catalog.Examples.{outside, zeros}
use fluxsemble_runtime_catal.Catalog.Source.{
  exact_fluxsemble_requirement, parse_tag, parse_version_requirement, require_bounded_json,
}
use fluxsemble_runtime_catal.Catalog.Initial.{
  ReleaseIntentWire, InitialIntent, find_component, check_release, admit_semantics,
  admit_initial_intent, initial_intent_from_json,
}
use fluxsemble_runtime_catal.Catalog.Initial.Admitted.{
  IsInitialIntent, initial_intent_from_json-IsInitialIntent,
}

abbrev decoded : CatalogPayloadWire
decoded = record {
  schema_version = 1;
  sequence = codes "1";
  generated_at = codes "2026-01-01T00:00:00Z";
  expires_at = codes "2026-02-01T00:00:00Z";
  compatibility_ranges = exact_fluxsemble_requirement ∷ [];
  providers =
      record {
        provider_id = codes "builtin:other";
        allowed_origins = codes "https://example.org" ∷ [];
        releases =
            record {
              version = codes "1.2.3";
              target = codes "linux_x86_64";
              compatibility_ranges = exact_fluxsemble_requirement ∷ [];
              release_metadata = record { title = codes "One"; notes = codes "First." };
              components =
                  record {
                    component_id = codes "component:node";
                    version = codes "22.19.0";
                    artifacts =
                        record {
                          artifact_id = codes "artifact:node";
                          url = codes "https://example.org/cli.tgz";
                          size_bytes = codes "7";
                          sha256 = zeros;
                          inventory =
                              record {
                                path = codes "bin/cli";
                                size_bytes = codes "5";
                                sha256 = zeros;
                              }
                              ∷ [];
                        }
                        ∷ [];
                  }
                  ∷ record {
                    component_id = codes "component:pi";
                    version = codes "1.2.3";
                    artifacts =
                        record {
                          artifact_id = codes "artifact:pi";
                          url = codes "https://example.org/cli.tgz";
                          size_bytes = codes "7";
                          sha256 = zeros;
                          inventory =
                              record {
                                path = codes "bin/cli";
                                size_bytes = codes "5";
                                sha256 = zeros;
                              }
                              ∷ [];
                        }
                        ∷ [];
                  }
                  ∷ [];
              provider_extension = ProviderExtensionWire.none;
            }
            ∷ [];
      }
      ∷ [];
}

-- the catalog that the decoder returns has two components
abbrev around : Externals
around = record outside { payload_from_slice = λ bytes. some decoded }

abbrev wire : ReleaseIntentWire (Unit {0})
wire = record {
  sequence = codes "1";
  tag = codes "catalog-v1-sequence-1";
  generated_at = codes "2026-01-01T00:00:00Z";
  expires_at = codes "2026-02-01T00:00:00Z";
  fluxsemble_requirement = exact_fluxsemble_requirement;
  release = record {
    provider = codes "builtin:pi";
    allowed_origins = codes "https://example.org" ∷ [];
    release = tt;
  };
}

abbrev intent : InitialIntent
intent = record {
  sequence = 1;
  tag = codes "catalog-v1-sequence-1";
  generated_at = codes "2026-01-01T00:00:00Z";
  expires_at = codes "2026-02-01T00:00:00Z";
  fluxsemble_requirement = exact_fluxsemble_requirement;
  release = record {
    schema_version = 1;
    sequence = 1;
    generated_at = codes "2026-01-01T00:00:00Z";
    expires_at = codes "2026-02-01T00:00:00Z";
    compatibility_ranges = exact_fluxsemble_requirement ∷ [];
    providers =
        record {
          provider_id = codes "builtin:other";
          allowed_origins = codes "https://example.org" ∷ [];
          releases =
              record {
                version = codes "1.2.3";
                target = linux_x86_64;
                compatibility_ranges = exact_fluxsemble_requirement ∷ [];
                release_metadata = record { title = codes "One"; notes = codes "First." };
                components =
                    record {
                      component_id = codes "component:node";
                      version = codes "22.19.0";
                      artifacts =
                          record {
                            artifact_id = codes "artifact:node";
                            url = codes "https://example.org/cli.tgz";
                            size_bytes = 7;
                            sha256 = zeros;
                            inventory =
                                record { path = codes "bin/cli"; size_bytes = 5; sha256 = zeros }
                                ∷ [];
                          }
                          ∷ [];
                    }
                    ∷ record {
                      component_id = codes "component:pi";
                      version = codes "1.2.3";
                      artifacts =
                          record {
                            artifact_id = codes "artifact:pi";
                            url = codes "https://example.org/cli.tgz";
                            size_bytes = 7;
                            sha256 = zeros;
                            inventory =
                                record { path = codes "bin/cli"; size_bytes = 5; sha256 = zeros }
                                ∷ [];
                          }
                          ∷ [];
                    }
                    ∷ [];
                provider_extension = ProviderExtension.none;
              }
              ∷ [];
        }
        ∷ [];
  };
}

intent_read :
    initial_intent_from_json around
      (Unit {0})
      (λ draft. some (codes "{}"))
      (λ bytes. some wire)
      (codes "{}")
    ≡ ok intent
unfolding initial_intent_from_json admit_initial_intent admit_semantics check_release find_component
    require_bounded_json parse_tag parse_version_requirement payload_from_json reject_duplicate_json
    visit ◌>>=◌ ensure to_string parse_u64 all_inserted parse_sha256_digest parse_release_title
    parse_release_notes parse_inventory_path parse_exact_version parse_catalog_id parse_harness_id
    parse_byte_size parse_nonzero_decimal parse_target parse_https_url parse_artifact_url url_origin
    parse_allowed_origin origin_allowed parse_compatibility_range parse_ranges parse_timestamp
    valid_sha256_digest valid_id_segment valid_catalog_id valid_numeric_component valid_core
    valid_without_build valid_exact_version valid_plain_text valid_inventory_path valid_url_input
    admit_metadata admit_entry admit_artifact admit_component admit_payload admit_provider
    admit_release admit_extension split text_eq text_lt split_once strip_prefix chars flat_map
intent_read = refl

initial_intent_from_json-IsInitialIntent_example : IsInitialIntent around intent
initial_intent_from_json-IsInitialIntent_example =
    (initial_intent_from_json-IsInitialIntent around (Unit {0}) (λ draft. some (codes "{}"))
        (λ bytes. some wire) (codes "{}")).at
      intent intent_read
