-- ===== src/Catalog/Externals.antt =====
-- What the catalog code calls and does not implement: the URL parser, `semver`, `chrono`, and the
-- JSON decoder and canonicalizer. Each is a parameter of the definitions that use it.
use fluxsemble_runtime_catal.Base.{ℕ, Bool, Option, Text}
use fluxsemble_runtime_catal.Catalog.Wire.{CatalogPayloadWire}
use fluxsemble_runtime_catal.Catalog.Records.{CatalogPayload, PiReleaseProfile}

-- what the accessors of a parsed `url::Url` return
pub record Url : Type 0 where
  pub scheme : Text
  pub host_str : Option Text
  pub username : Text
  pub password : Option Text
  pub query : Option Text
  pub fragment : Option Text
  pub path : Text
  -- origin().ascii_serialization()
  pub origin : Text

-- a parsed RFC 3339 date and time
pub record DateTime : Type 0 where
  -- offset().local_minus_utc() == 0
  pub is_utc : Bool
  -- with_timezone(&Utc).to_rfc3339_opts(SecondsFormat::Secs, true)
  pub utc_text : Text

-- a JSON text as the decoder presents it to a visitor, keys in order and with repetitions
mutual
  pub data Json : Type 0 where
    null : Json
    bool : Bool → Json
    integer : ℕ → Json
    negative : ℕ → Json
    float : (finite : Bool) → Json
    string : Text → Json
    seq : JsonItems → Json
    map : JsonFields → Json

  pub data JsonItems : Type 0 where
    end : JsonItems
    item : Json → JsonItems → JsonItems

  pub data JsonFields : Type 0 where
    close : JsonFields
    field : Text → Json → JsonFields → JsonFields

pub record Externals : Type 0 where
  -- Url::parse
  pub parse_url : Text → Option Url
  -- semver::VersionReq::parse(value).is_ok()
  pub version_req : Text → Bool
  -- DateTime::parse_from_rfc3339
  pub parse_rfc3339 : Text → Option DateTime
  -- serde_json::Deserializer, run to the end of the input
  pub json_tree : Text → Option Json
  -- serde_json::from_slice
  pub payload_from_slice : Text → Option CatalogPayloadWire
  -- serde_jcs::to_vec
  pub payload_to_vec : CatalogPayload → Option Text
  pub profile_to_vec : PiReleaseProfile → Option Text
