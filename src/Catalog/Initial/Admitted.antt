-- ===== src/Catalog/Initial/Admitted.antt =====
-- crates/catalog-core/src/source.rs: what holds of an admitted intent of the first format.
use fluxsemble_runtime_catal.Base.{
  ℕ, ◌≡◌, ◌<◌, ◌==◌, sym, ap, ◌∙◌, true, Option, some, List, [], ◌∷◌, ◌++◌, Text, ok_or-eq-ok,
  length, and_parts, ==_iff, find-Among, Among, Ensures, Ensures-bind, Ensures-ensure, Ensures-ok,
  Ensures-last, arith,
}
use fluxsemble_runtime_catal.Strings.{text_eq, text_lt}
use fluxsemble_runtime_catal.Strings.Split.{text_eq_sound}
use fluxsemble_runtime_catal.Strings.Decimal.{to_string, u64_limit}
use fluxsemble_runtime_catal.Catalog.Externals.{Externals}
use fluxsemble_runtime_catal.Catalog.Require.{invalid_catalog}
use fluxsemble_runtime_catal.Catalog.Records.{
  CatalogComponentRecord, CatalogReleaseRecord, CatalogProviderRecord, CatalogPayload,
}
use fluxsemble_runtime_catal.Catalog.Parse.Decimals.{nonzero_decimal_iff}
use fluxsemble_runtime_catal.Catalog.Release.WellFormed.{IsPayload, payload_from_json-IsPayload}
use fluxsemble_runtime_catal.Catalog.Source.{exact_fluxsemble_requirement, tag_prefix}
use fluxsemble_runtime_catal.Catalog.Source.Scalars.{parse_tag_lem}
use fluxsemble_runtime_catal.Catalog.Initial.{
  version_of, node_of_providers, node_of_first, node_component, pi_component, ReleaseSemanticsWire,
  ReleaseIntentWire, InitialDraft, InitialIntent, first, is_exact_range, find_component,
  node_version, check_release, admit_semantics, admit_initial_intent, initial_intent_from_json,
}

-- the release of the first format: a Node component and a Pi component of the release's version
pub record IsInitialRelease (r : CatalogReleaseRecord) : Type 0 where
  pub range_exact : r.compatibility_ranges ≡ exact_fluxsemble_requirement ∷ []
  pub two_components : length r.components ≡ 2
  pub node_found :
      (node : CatalogComponentRecord) × (find_component node_component r.components ≡ some node)
      × Among node r.components
      × (node.component_id ≡ node_component)
  pub pi_found :
      (pi : CatalogComponentRecord) × Among pi r.components
      × (pi.component_id ≡ pi_component)
      × (pi.version ≡ r.version)

-- the catalog has one provider with one release
abbrev pub HoldsOne : CatalogPayload → Type 0
HoldsOne catalog =
    (provider : CatalogProviderRecord) × (release : CatalogReleaseRecord) × (catalog.providers
      ≡ provider ∷ [])
    × (provider.releases ≡ release ∷ [])
    × IsInitialRelease release

pub record IsInitialIntent (x : Externals) (i : InitialIntent) : Type 0 where
  pub sequence_positive : 0 < i.sequence
  pub sequence_bounded : i.sequence < u64_limit
  pub tag_derived : i.tag ≡ tag_prefix ++ to_string i.sequence
  pub dates_ordered : text_lt i.generated_at i.expires_at ≡ true
  pub release_valid : IsPayload x i.release
  pub release_one : HoldsOne i.release
  pub node_total : (version : Text) × (node_version i.release ≡ some version)

exact_range_lem :
    (ranges : List Text) → is_exact_range ranges ≡ true → ranges ≡ exact_fluxsemble_requirement ∷ []
exact_range_lem [] h = ground arith
exact_range_lem (r ∷ []) h = ap (λ t. t ∷ []) (text_eq_sound r exact_fluxsemble_requirement h)
exact_range_lem (r ∷ s ∷ ranges) h = ground arith

first_only : {A : Type 0} (xs : List A) (a : A) → first xs ≡ some a → length xs ≡ 1 → xs ≡ a ∷ []
first_only [] a h n = ground arith
first_only (b ∷ []) a h n = ground (arith, h)
first_only (b ∷ c ∷ xs) a h n = absurd (omega (arith, n))

found_lem :
    (id : Text) (ks : List CatalogComponentRecord) (k : CatalogComponentRecord)
    → find_component id ks ≡ some k
    → Among k ks × (k.component_id ≡ id)
unfolding find_component
found_lem id ks k h =
    let (m, same) = find-Among (λ (k : CatalogComponentRecord). text_eq k.component_id id) ks k h in
    (m, text_eq_sound _ _ same)

check_release_lem : (r : CatalogReleaseRecord) → Ensures (λ _. IsInitialRelease r) (check_release r)
unfolding check_release
check_release_lem r = Ensures-ensure _ _ _ λ linux. Ensures-ensure _ _ _ λ range.
    Ensures-ensure _ _ _ λ two. Ensures-bind _ _ λ node hn. Ensures-bind _ _ λ pi hp.
      Ensures-ensure _ _ _ λ same. Ensures-last _ _ λ _.
        let node_at = ok_or-eq-ok invalid_catalog (find_component node_component r.components) hn in
        let (in_node, node_id) = found_lem node_component r.components node node_at in
        let (in_pi, pi_id) =
          found_lem pi_component r.components pi
            (ok_or-eq-ok invalid_catalog (find_component pi_component r.components) hp) in
        record {
          range_exact = exact_range_lem r.compatibility_ranges range;
          two_components = (==_iff _ _).0 two;
          node_found = (node, node_at, in_node, node_id);
          pi_found = (pi, in_pi, pi_id, text_eq_sound _ _ same);
        }

node_version_total :
    (catalog : CatalogPayload)
    → HoldsOne catalog
    → (version : Text) × (node_version catalog ≡ some version)
unfolding node_version
node_version_total catalog (provider, release, one, only, good) =
    let (node, at, _, _) = good.node_found in
    (node.version, ap node_of_providers one ∙ ap node_of_first only ∙ ap version_of at)

module _ (x : Externals) (Value : Type 0) (draft_to_vec : InitialDraft Value → Option Text) where
  semantics_lem :
      (w : ReleaseSemanticsWire Value) (n : ℕ) (g e : Text)
      → Ensures
          (λ catalog. IsPayload x catalog × HoldsOne catalog)
          (admit_semantics x Value draft_to_vec w n g e)
  unfolding admit_semantics
  semantics_lem w n g e = Ensures-ensure _ _ _ λ _. Ensures-bind _ _ λ bytes _.
      Ensures-bind _ _ λ catalog read. Ensures-bind _ _ λ provider hp. Ensures-ensure _ _ _ λ one.
        Ensures-bind _ _ λ release hr. Ensures-bind _ _ λ _ checked.
          let (_, _, payload) = payload_from_json-IsPayload x bytes catalog read in
          let (one_provider, one_release) =
            and_parts (length catalog.providers == 1) (length provider.releases == 1) one in
          Ensures-ok _ (
            payload,
            (
              provider,
              release,
              first_only catalog.providers provider
                  (ok_or-eq-ok invalid_catalog (first catalog.providers) hp)
                  ((==_iff _ _).0 one_provider),
              first_only provider.releases release
                  (ok_or-eq-ok invalid_catalog (first provider.releases) hr)
                  ((==_iff _ _).0 one_release),
              (check_release_lem release).at _ checked,
            ),
          )

  admit_initial_intent_lem :
      (w : ReleaseIntentWire Value)
      → Ensures (IsInitialIntent x) (admit_initial_intent x Value draft_to_vec w)
  unfolding admit_initial_intent
  admit_initial_intent_lem w = Ensures-bind _ _ λ n hn. Ensures-bind _ _ λ tag ht.
      Ensures-bind _ _ λ g _. Ensures-bind _ _ λ e _. Ensures-ensure _ _ _ λ ordered.
        Ensures-bind _ _ λ requirement _. Ensures-bind _ _ λ release hr.
          let (positive, bounded, _) = (nonzero_decimal_iff w.sequence n).0 hn in
          let (spelled, same) = parse_tag_lem w.tag tag n ht in
          let (payload, one) =
            (semantics_lem w.release n w.generated_at w.expires_at).at release hr in
          Ensures-ok _ (record {
            sequence_positive = positive;
            sequence_bounded = bounded;
            tag_derived = sym same ∙ spelled;
            dates_ordered = ordered;
            release_valid = payload;
            release_one = one;
            node_total = node_version_total release one;
          })

  -- An intent of the first format that is admitted has a positive sequence below 2 ^ 64, the tag of that
  -- sequence, and dates in order; its release is a well-formed catalog of one provider with one release,
  -- for the exact requirement, of two components, a Node component and a Pi component of the
  -- release's version; and `node_version` does not panic on it.
  pub initial_intent_from_json-IsInitialIntent :
      (from_slice : Text → Option (ReleaseIntentWire Value)) (bytes : Text)
      → Ensures (IsInitialIntent x) (initial_intent_from_json x Value draft_to_vec from_slice bytes)
  unfolding initial_intent_from_json
  initial_intent_from_json-IsInitialIntent from_slice bytes =
      Ensures-bind _ _ λ _ _. Ensures-bind _ _ λ w _. admit_initial_intent_lem w
