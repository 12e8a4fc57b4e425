-- ===== src/Catalog/Admission/Artifacts.antt =====
-- crates/catalog-core/src/wire.rs: what holds of each admitted file, artifact and component.
use mathlib.Core.Path.{subst, ◌∙◌}
use fluxsemble_runtime_catal.Base.{
  ℕ, ◌≡◌, ◌≢◌, refl, sym, true, ◌&&◌, not, none, some, List, [], map, Text, codes, ok, err, ok_or,
  ◌==◌, traverse-All, All, Pairs, Distinct, Among, any-Among, Ensures, Ensures-bind, Ensures-ok,
  Ensures-ensure, bind-eq-ok, ensure-eq-ok, ok_or-eq-ok, arith, ok-injective,
}
use fluxsemble_runtime_catal.Strings.{text_eq, text_lt, is_empty}
use fluxsemble_runtime_catal.Strings.Split.{text_class, text_eq_sound}
use fluxsemble_runtime_catal.Strings.Order.{text_lt_trans, Pairs-of_all_window}
use fluxsemble_runtime_catal.Catalog.Records.{
  AllowedOrigin, HttpsArtifactUrl, ArtifactInventoryEntry, ArtifactDescriptor,
  CatalogComponentRecord, ImmutableFileDescriptor,
}
use fluxsemble_runtime_catal.Catalog.Wire.{
  ArtifactDescriptorWire, CatalogComponentWire, ImmutableFileDescriptorWire,
}
use fluxsemble_runtime_catal.Catalog.Require.{Core, invalid_catalog}
use fluxsemble_runtime_catal.Catalog.Require.Exact.{all_inserted_iff}
use fluxsemble_runtime_catal.Catalog.Externals.{Externals, Url}
use fluxsemble_runtime_catal.Catalog.Parse.{
  parse_https_url, url_origin, origin_listed, origin_allowed, is_some,
}
use fluxsemble_runtime_catal.Catalog.Admission.{admit_artifact, admit_component, admit_file}

-- the URL is an https URL without credentials, query or fragment, at an allowed origin
abbrev pub IsAllowedUrl : Externals → List AllowedOrigin → HttpsArtifactUrl → Type 0
IsAllowedUrl x origins url =
    (u : Url) × (x.parse_url url ≡ some u)
    × (u.scheme ≡ codes "https")
    × (u.username ≡ [])
    × (u.password ≡ none)
    × (u.query ≡ none)
    × (u.fragment ≡ none)
    × Among u.origin origins

pub record IsArtifact (x : Externals) (origins : List AllowedOrigin) (a : ArtifactDescriptor)
    : Type 0 where
  pub url_allowed : IsAllowedUrl x origins a.url
  pub has_bytes : a.size_bytes ≢ 0
  pub paths_distinct : Distinct (map (λ (e : ArtifactInventoryEntry). e.path) a.inventory)

abbrev pub ArtifactBefore : ArtifactDescriptor → ArtifactDescriptor → Type 0
ArtifactBefore a b = text_lt a.artifact_id b.artifact_id ≡ true

pub record IsComponent (x : Externals) (origins : List AllowedOrigin) (c : CatalogComponentRecord)
    : Type 0 where
  pub artifacts_admitted : All (IsArtifact x origins) c.artifacts
  pub artifacts_sorted : Pairs ArtifactBefore c.artifacts

abbrev pub ComponentBefore : CatalogComponentRecord → CatalogComponentRecord → Type 0
ComponentBefore a b = text_lt a.component_id b.component_id ≡ true

pub record IsFile (x : Externals) (origins : List AllowedOrigin) (f : ImmutableFileDescriptor)
    : Type 0 where
  pub url_allowed : IsAllowedUrl x origins f.url
  pub has_bytes : f.size_bytes ≢ 0

is_https :
    (u : Url)
    → (text_eq u.scheme (codes "https")
        && is_some u.host_str
        && is_empty u.username
        && not (is_some u.password)
        && not (is_some u.query)
        && not (is_some u.fragment))
      ≡ true
    → (u.scheme ≡ codes "https")
      × (u.username ≡ [])
      × (u.password ≡ none)
      × (u.query ≡ none)
      × (u.fragment ≡ none)
is_https u h = (
  text_eq_sound u.scheme (codes "https") (ground arith),
  ground arith,
  ground arith,
  ground arith,
  ground arith,
)

https_parts :
    (x : Externals) (value : Text) (u : Url)
    → parse_https_url x value ≡ ok u
    → (x.parse_url value ≡ some u)
      × (u.scheme ≡ codes "https")
      × (u.username ≡ [])
      × (u.password ≡ none)
      × (u.query ≡ none)
      × (u.fragment ≡ none)
unfolding parse_https_url
https_parts x value u h =
    let (v, parsed, h₁) = bind-eq-ok (ok_or invalid_catalog (x.parse_url value)) _ h in
    let (checked, h₂) = ensure-eq-ok invalid_catalog _ (ok v) h₁ in
    let (s, n, p, q, f) = is_https v checked in
    subst
      (λ (w : Url).
        (x.parse_url value ≡ some w)
        × (w.scheme ≡ codes "https")
        × (w.username ≡ [])
        × (w.password ≡ none)
        × (w.query ≡ none)
        × (w.fragment ≡ none))
      (ok-injective h₂) (ok_or-eq-ok invalid_catalog (x.parse_url value) parsed, s, n, p, q, f)

nonzero : (n : ℕ) → not (n == 0) ≡ true → n ≢ 0
nonzero n h = ground arith

module _ (x : Externals) (origins : List AllowedOrigin) where
  IsAllowedUrl-of :
      (url : HttpsArtifactUrl) (r : Core Text)
      → url_origin x url ≡ r
      → origin_listed x r origins ≡ true
      → IsAllowedUrl x origins url
  unfolding url_origin
  IsAllowedUrl-of url (err e) h k = ground arith
  IsAllowedUrl-of url (ok origin) h k =
      let (u, parsed, h₁) = bind-eq-ok (parse_https_url x url) _ h in
      let (found, is_https, no_user, no_password, no_query, no_fragment) =
        https_parts x url u parsed in
      let (a, listed, same) = any-Among (λ a. text_eq a origin) origins k in
      let e : a ≡ u.origin = text_eq_sound a origin same ∙ sym (ok-injective h₁) in
      (
        u,
        found,
        is_https,
        no_user,
        no_password,
        no_query,
        no_fragment,
        subst (λ o. Among o origins) e listed,
      )

  pub allowed_url :
      (url : HttpsArtifactUrl) → origin_allowed x url origins ≡ true → IsAllowedUrl x origins url
  unfolding origin_allowed
  allowed_url url h = IsAllowedUrl-of url (url_origin x url) refl h

  pub admit_artifact-IsArtifact :
      (w : ArtifactDescriptorWire) → Ensures (IsArtifact x origins) (admit_artifact x origins w)
  unfolding admit_artifact
  admit_artifact-IsArtifact w = Ensures-bind _ _ λ artifact_id _. Ensures-bind _ _ λ url _.
      Ensures-ensure _ _ _ λ allowed. Ensures-bind _ _ λ size _. Ensures-ensure _ _ _ λ filled.
        Ensures-bind _ _ λ sha256 _. Ensures-ensure _ _ _ λ bounded. Ensures-bind _ _ λ inventory _.
          Ensures-ensure _ _ _ λ unique. Ensures-ok _ (record {
            url_allowed = allowed_url url allowed;
            has_bytes = nonzero size filled;
            paths_distinct =
                (all_inserted_iff (map (λ (e : ArtifactInventoryEntry). e.path) inventory)).0
                  unique;
          })

  pub admit_component-IsComponent :
      (w : CatalogComponentWire) → Ensures (IsComponent x origins) (admit_component x origins w)
  unfolding admit_component
  admit_component-IsComponent w = Ensures-bind _ _ λ component_id _. Ensures-bind _ _ λ version _.
      Ensures-ensure _ _ _ λ bounded. Ensures-bind _ _ λ artifacts admitted.
        Ensures-ensure _ _ _ λ sorted. Ensures-ok _ (record {
          artifacts_admitted =
              traverse-All (admit_artifact x origins) (λ a b. (admit_artifact-IsArtifact a).at b)
                w.artifacts admitted;
          artifacts_sorted =
              Pairs-of_all_window (λ a b. text_lt a.artifact_id b.artifact_id)
                (λ a b c. text_lt_trans a.artifact_id b.artifact_id c.artifact_id) artifacts sorted;
        })

  pub admit_file-IsFile :
      (w : ImmutableFileDescriptorWire) → Ensures (IsFile x origins) (admit_file x origins w)
  unfolding admit_file
  admit_file-IsFile w = Ensures-bind _ _ λ url _. Ensures-ensure _ _ _ λ allowed.
      Ensures-bind _ _ λ size _. Ensures-ensure _ _ _ λ filled. Ensures-bind _ _ λ sha256 _.
        Ensures-ok _
          (record { url_allowed = allowed_url url allowed; has_bytes = nonzero size filled })
