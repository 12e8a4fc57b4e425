-- ===== src/Signature/Verify/Verified.antt =====
-- crates/catalog-core/src/signature.rs: what verification guarantees.
use mathlib.Core.Path.{subst}
use fluxsemble_runtime_catal.Base.{
  Bool, codes, ◌≡◌, ◌≢◌, sym, true, ◌&&◌, some, List, Text, ok, ok_or, ok_or-eq-ok, map_err-eq-ok,
  ◌==◌, leb, length, ◌>>=◌, Among, Ensures, Ensures-bind, Ensures-ok, Ensures-ensure, Ensures-last,
  bind-eq-ok, ok-injective, arith,
}
use fluxsemble_runtime_catal.Strings.{text_eq}
use fluxsemble_runtime_catal.Strings.Split.{text_eq_sound}
use fluxsemble_runtime_catal.Catalog.Externals.{Externals, Json}
use fluxsemble_runtime_catal.Catalog.Records.{CatalogPayload}
use fluxsemble_runtime_catal.Catalog.Require.{invalid_catalog}
use fluxsemble_runtime_catal.Catalog.Duplicates.Exact.{Clean, reject_duplicate_json_iff}
use fluxsemble_runtime_catal.Catalog.Release.WellFormed.{IsPayload, payload_from_json-IsPayload}
use fluxsemble_runtime_catal.Signature.Errors.{invalid_signed_catalog}
use fluxsemble_runtime_catal.Signature.Scan.{
  scan_signed_envelope, max_key_id_bytes, ed25519_signature_text_bytes,
}
use fluxsemble_runtime_catal.Signature.Scan.Suffixes.{Infix}
use fluxsemble_runtime_catal.Signature.Scan.Spans.{scan_signed_envelope-IsEnvelope}
use fluxsemble_runtime_catal.Signature.Base64url.{encode_base64url_no_pad}
use fluxsemble_runtime_catal.Signature.Base64url.RoundTrip.{base64url_iff}
use fluxsemble_runtime_catal.Signature.Keyring.{
  ProductionKeyIdentity, retired, verification_identity,
}
use fluxsemble_runtime_catal.Signature.Keyring.Valid.{IsKeyring, verification_identity_iff}
use fluxsemble_runtime_catal.Signature.Verify.{
  Crypto, VerificationIdentity, identity_of, VerifiedCatalog, canonical_catalog_payload,
  catalog_payload_sha256, verify_signature, verify_signed_catalog_with_identity,
  verify_signed_catalog,
}

module _ (x : Externals) (c : Crypto) where
  -- the key accepts the text as the encoding of a signature of 64 bytes over the message
  abbrev pub SignedBy : Text → Text → Text → Type 0
  SignedBy public_key message text =
      (signature : Text) × (key : Text) × (length signature ≡ 64)
      × (text ≡ encode_base64url_no_pad signature)
      × (c.verifying_key public_key ≡ some key)
      × (c.verify_strict key message signature ≡ true)

  verify_signature_lem :
      (public_key message text : Text)
      → Ensures
          (λ _. SignedBy public_key message text)
          (verify_signature x c public_key message text)
  unfolding verify_signature
  verify_signature_lem public_key message text = Ensures-bind _ _ λ signature decoded.
      Ensures-bind _ _ λ key found. Ensures-last _ _ λ accepted.
        let (long, (_, spelled)) = (base64url_iff 64 text signature).0 decoded in
        (
          signature,
          key,
          long,
          spelled,
          ok_or-eq-ok invalid_catalog (c.verifying_key public_key) found,
          accepted,
        )

  -- what a verified catalog is, for the envelope's bytes and a key
  pub record IsVerified (bytes public_key : Text) (v : VerifiedCatalog) : Type 0 where
    pub payload_admitted : IsPayload x v.payload
    pub payload_canonical : x.payload_to_vec v.payload ≡ some v.canonical_payload
    pub payload_embedded : Infix bytes v.canonical_payload
    pub payload_digest : v.payload_sha256 ≡ c.sha256 v.canonical_payload
    pub keys_unique : (j : Json) × (x.json_tree bytes ≡ some j) × Clean j
    pub payload_signed : (text : Text) × SignedBy public_key v.canonical_payload text

  canonical_eq :
      (payload : CatalogPayload) (canonical : Text)
      → canonical_catalog_payload x payload ≡ ok canonical
      → ok_or invalid_catalog (x.payload_to_vec payload) ≡ ok canonical
  unfolding canonical_catalog_payload
  canonical_eq payload canonical h = h

  digest_eq :
      (payload : CatalogPayload) (canonical digest : Text)
      → x.payload_to_vec payload ≡ some canonical
      → catalog_payload_sha256 x c payload ≡ ok digest
      → digest ≡ c.sha256 canonical
  unfolding catalog_payload_sha256 canonical_catalog_payload ◌>>=◌
  digest_eq payload canonical digest e h = sym (
      ok-injective
        (subst (λ o. (ok_or invalid_catalog o >>= λ z. ok (c.sha256 z)) ≡ ok digest) e h))

  named : (a b : Text) (p q r s : Bool) → (p && q && text_eq a b && r && s) ≡ true → a ≡ b
  named a b p q r s h = text_eq_sound a b (ground (arith, h))

  with_identity_lem :
      (bytes : Text) (i : VerificationIdentity)
      → Ensures
          (λ (v : VerifiedCatalog). IsVerified bytes i.public_key v × (v.key_id ≡ i.key_id))
          (verify_signed_catalog_with_identity x c bytes i)
  unfolding verify_signed_catalog_with_identity
  with_identity_lem bytes i = Ensures-bind _ _ λ spans scanned. Ensures-bind _ _ λ u unique.
      Ensures-bind _ _ λ version _. Ensures-bind _ _ λ algorithm _. Ensures-bind _ _ λ key_id _.
        Ensures-bind _ _ λ text _. Ensures-ensure _ _ _ λ header.
          Ensures-bind _ _ λ payload decoded. Ensures-bind _ _ λ canonical serialized.
            Ensures-ensure _ _ _ λ same. Ensures-bind _ _ λ u accepted.
              Ensures-bind _ _ λ digest hashed.
                let spelled : canonical ≡ spans.payload =
                  text_eq_sound canonical spans.payload same in
                let written =
                  ok_or-eq-ok invalid_catalog (x.payload_to_vec payload)
                    (canonical_eq payload canonical (map_err-eq-ok _ _ serialized)) in
                Ensures-ok _ (
                  record {
                    payload_admitted =
                        (payload_from_json-IsPayload x spans.payload payload
                          (map_err-eq-ok _ _ decoded)).2;
                    payload_canonical = written;
                    payload_embedded =
                        subst (Infix bytes) (sym spelled)
                          ((scan_signed_envelope-IsEnvelope bytes).at spans
                            scanned).payload_found.0;
                    payload_digest =
                        digest_eq payload canonical digest written (map_err-eq-ok _ _ hashed);
                    keys_unique = (reject_duplicate_json_iff x bytes).0 (map_err-eq-ok _ _ unique);
                    payload_signed = (
                      text,
                      (verify_signature_lem i.public_key canonical text).at u
                          (map_err-eq-ok _ _ accepted),
                    );
                  },
                  named key_id i.key_id (version == 1) (text_eq algorithm (codes "ed25519"))
                      (leb (length key_id) max_key_id_bytes)
                      (length text == ed25519_signature_text_bytes) header,
                )

  -- A catalog that verifies under the keyring is well formed; its canonical bytes are the serialization of
  -- the payload, stand in the envelope as they are, and have the digest that is returned; the envelope
  -- repeats no key of an object; and the signature over these bytes is accepted by a key of the keyring
  -- that is not retired and has the returned id.
  pub verify_signed_catalog_lem :
      (keys : List ProductionKeyIdentity) (bytes : Text) (v : VerifiedCatalog)
      → IsKeyring c.sha256 keys
      → verify_signed_catalog x c keys bytes ≡ ok v
      → (k : ProductionKeyIdentity) × Among k keys
        × (k.status ≢ retired)
        × (k.key_id ≡ v.key_id)
        × IsVerified bytes k.public_key v
  unfolding verify_signed_catalog
  verify_signed_catalog_lem keys bytes v good h =
      let (spans, scanned, h₁) = bind-eq-ok (scan_signed_envelope bytes) _ h in
      let (id, read, h₂) =
        bind-eq-ok (ok_or invalid_signed_catalog (c.string_from_slice spans.key_id)) _ h₁ in
      let (k, found, h₃) =
        bind-eq-ok (ok_or invalid_signed_catalog (verification_identity keys id)) _ h₂ in
      let (member, named, alive) =
        (verification_identity_iff c.sha256 keys good id k).0
          (ok_or-eq-ok invalid_signed_catalog _ found) in
      let (verified, same) = (with_identity_lem bytes (identity_of k)).at v h₃ in
      (k, member, alive, sym same, verified)
