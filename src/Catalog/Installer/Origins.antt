-- ===== src/Catalog/Installer/Origins.antt =====
-- crates/catalog-core/src/pi_installer_lock.rs: the origins that a profile names.
use fluxsemble_runtime_catal.Base.{
  ◌≤◌, ◌≡◌, ◌≢◌, refl, ap, ◌∙◌, true, some, List, [], ◌∷◌, ◌++◌, Text, ok, length, contains,
  contains-Lacks, All, All-append, Distinct, Among, Ensures, Ensures-bind, Ensures-ok,
  Ensures-ensure, bind-eq-ok, ensure-eq-ok, ok_or-eq-ok, ok-injective, arith, Bool-cases, inl, inr,
  if◌then◌else◌,
}
use fluxsemble_runtime_catal.Strings.{text_eq}
use fluxsemble_runtime_catal.Strings.Split.{text_class, text_eq_sound}
use fluxsemble_runtime_catal.Catalog.Externals.{Externals, Url}
use fluxsemble_runtime_catal.Catalog.Records.{AllowedOrigin}
use fluxsemble_runtime_catal.Catalog.Require.{invalid_catalog}
use fluxsemble_runtime_catal.Catalog.Parse.{
  parse_https_url, parse_artifact_url, parse_allowed_origin,
}
use fluxsemble_runtime_catal.Catalog.Installer.{
  add_origin, add_origins, profile_urls, profile_origins,
}
use fluxsemble_runtime_catal.Catalog.Wire.{PiReleaseProfileWire}

-- `origin` is that of the URL
abbrev pub IsOriginOf : Externals → Text → AllowedOrigin → Type 0
IsOriginOf x url origin =
    (u : Url) × (x.parse_url url ≡ some u) × (parse_allowed_origin x u.origin ≡ ok origin)

Among-append : (o : Text) (xs ys : List Text) → Among o xs → Among o (xs ++ ys)
Among-append o [] ys h = absurd h
Among-append o (x ∷ xs) ys (inl e) = inl e
Among-append o (x ∷ xs) ys (inr h) = inr (Among-append o xs ys h)

Among-last : (o : Text) (xs : List Text) → Among o (xs ++ o ∷ [])
Among-last o [] = inl refl
Among-last o (x ∷ xs) = inr (Among-last o xs)

Distinct-append :
    (o : Text) (xs : List Text) → Distinct xs → All (λ x. x ≢ o) xs → Distinct (xs ++ o ∷ [])
Distinct-append o [] d h = (tt, tt)
Distinct-append o (x ∷ xs) d h =
    (All-append (λ y. x ≢ y) xs (o ∷ []) d.0 (h.0, tt), Distinct-append o xs d.1 h.1)

contains-Among : (xs : List Text) (o : Text) → contains xs o ≡ true → Among o xs
contains-Among [] o h = ground arith
contains-Among (x ∷ xs) o h = elim (Bool-cases (text_eq x o)) [
  | inl e ↦ inl (text_eq_sound x o e)
  | inr e ↦ inr (contains-Among xs o (ground (arith, h, e)))
]

-- What one more URL makes of a list of origins.
pub record IsGrown (x : Externals) (origins : List AllowedOrigin) (url : Text)
    (grown : List AllowedOrigin) : Type 0 where
  pub distinct : Distinct origins → Distinct grown
  pub bounded : length grown ≤ 16
  pub kept : (o : AllowedOrigin) → Among o origins → Among o grown
  pub origin : AllowedOrigin
  pub origin_of : IsOriginOf x url origin
  pub listed : Among origin grown

parse_artifact_url_lem :
    (x : Externals) (value url : Text) → parse_artifact_url x value ≡ ok url → value ≡ url
unfolding parse_artifact_url
parse_artifact_url_lem x value url h =
    let (_, h₁) = ensure-eq-ok invalid_catalog _ _ h in
    let (_, h₂) = ensure-eq-ok invalid_catalog _ _ h₁ in
    let (_, _, h₃) = bind-eq-ok (parse_https_url x value) _ h₂ in ok-injective h₃

-- the list after a URL whose origin is `o`
abbrev grow : List AllowedOrigin → AllowedOrigin → List AllowedOrigin
grow origins o = if contains origins o then origins else origins ++ o ∷ []

grow-IsGrown :
    (x : Externals) (origins : List AllowedOrigin) (value : Text) (o : AllowedOrigin)
    → IsOriginOf x value o
    → length (grow origins o) ≤ 16
    → IsGrown x origins value (grow origins o)
grow-IsGrown x origins value o h small = elim (Bool-cases (contains origins o)) [
  | inl e ↦
      let small' : length origins ≤ 16 = rw e at small in
      rw e (record {
        distinct = λ d. d;
        bounded = small';
        kept = λ p q. q;
        origin = o;
        origin_of = h;
        listed = contains-Among origins o e;
      })
  | inr e ↦
      let small' : length (origins ++ o ∷ []) ≤ 16 = rw e at small in
      rw e (record {
        distinct = λ d. Distinct-append o origins d (contains-Lacks origins o e);
        bounded = small';
        kept = λ p q. Among-append p origins (o ∷ []) q;
        origin = o;
        origin_of = h;
        listed = Among-last o origins;
      })
]

add_origin-IsGrown :
    (x : Externals) (origins : List AllowedOrigin) (value : Text)
    → Ensures (IsGrown x origins value) (add_origin x origins value)
unfolding add_origin
add_origin-IsGrown x origins value = Ensures-bind _ _ λ url admitted. Ensures-bind _ _ λ u parsed.
    Ensures-bind _ _ λ o found. Ensures-ensure _ _ _ λ small.
      let same : value ≡ url = parse_artifact_url_lem x value url admitted in
      let url_parsed : x.parse_url value ≡ some u =
        ap (λ v. x.parse_url v) same ∙ ok_or-eq-ok invalid_catalog (x.parse_url url) parsed in
      Ensures-ok _ (grow-IsGrown x origins value o (u, url_parsed, found) (ground (arith, small)))

-- What the URLs make of a list of origins.
pub record IsCollected (x : Externals) (origins : List AllowedOrigin) (urls : List Text)
    (r : List AllowedOrigin) : Type 0 where
  pub distinct : Distinct origins → Distinct r
  pub bounded : length origins ≤ 16 → length r ≤ 16
  pub kept : (o : AllowedOrigin) → Among o origins → Among o r
  pub listed : All (λ url. (o : AllowedOrigin) × IsOriginOf x url o × Among o r) urls

add_origins-IsCollected :
    (x : Externals) (origins : List AllowedOrigin) (urls : List Text)
    → Ensures (IsCollected x origins urls) (add_origins x origins urls)
add_origins-IsCollected x origins [] =
    Ensures-ok _ (record { distinct = λ d. d; bounded = λ b. b; kept = λ o h. h; listed = tt })
add_origins-IsCollected x origins (url ∷ urls) = Ensures-bind _ _ λ grown added.
    let g = (add_origin-IsGrown x origins url).at grown added in
    record {
      at = λ r h.
          let c = (add_origins-IsCollected x grown urls).at r h in
          record {
            distinct = λ d. c.distinct (g.distinct d);
            bounded = λ b. c.bounded g.bounded;
            kept = λ o k. c.kept o (g.kept o k);
            listed = ((g.origin, g.origin_of, c.kept g.origin g.listed), c.listed);
          };
    }

pub profile_origins_complete :
    (x : Externals) (w : PiReleaseProfileWire) (r : List AllowedOrigin)
    → profile_origins x w ≡ ok r
    → Distinct r
      × (length r ≤ 16)
      × All (λ url. (o : AllowedOrigin) × IsOriginOf x url o × Among o r) (profile_urls w)
unfolding profile_origins
profile_origins_complete x w r h =
    let c = (add_origins-IsCollected x [] (profile_urls w)).at r h in
    (c.distinct tt, c.bounded (ground arith), c.listed)
