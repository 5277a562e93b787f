-- ===== src/Deployment/Bindings.antt =====
-- A deployment that was loaded has bindings that the protocol accepts.
use onshape_export.Base.{
  ℕ, ◌≡◌, ap, ◌∙◌, Text, bytes, len, true, not, ◌&&◌, List, [], ◌∷◌, ◌==◌, leb, starts_with,
  is_empty, length, all, arith, is_ascii_graphic, All, All-map, Result, ok, ensure, ensure-eq-ok,
  for_each, for_each-ok_iff, >>-eq-ok, >>=-eq-ok, >>-ok,
}
use onshape_export.Protocol.{
  validate_identity, too_many_entries, unsorted_capabilities, invalid_identity,
}
use onshape_export.Protocol.Documents.{is_ascending, validate_bindings}
use onshape_export.Deployment.{
  DeployedGeneratorError, DeployedGeneratorDocument, DeployedGenerator, ImmutableIdentityPayload,
  IoError, FileMetadata, OpenFile, ensure_identity, ensure_sha256, identities_of, validate_document,
  validate_executable, from_document, identity_bindings, immutable_payload, config_invalid,
}

-- The two modules check an identity in the same way.
ensure_identity-validate_identity :
    (value : Text) → ensure_identity value ≡ ok tt → validate_identity value ≡ ok tt
unfolding ensure_identity validate_identity
ensure_identity-validate_identity value h =
    ap (λ b. ensure b invalid_identity)
      (ensure-eq-ok
        (not (is_empty value) && (leb (len value) 256 && all is_ascii_graphic (bytes value)))
        config_invalid h)

-- What the checks on a document say.
pub record IsDocument (d : DeployedGeneratorDocument) : Type 0 where
  pub identities : All (λ value. ensure_identity value ≡ ok tt) (identities_of d)
  pub few : leb (length d.capability_identities) 256 ≡ true
  pub capabilities : All (λ value. ensure_identity value ≡ ok tt) d.capability_identities
  pub ascending : is_ascending d.capability_identities ≡ true

validate_document-IsDocument :
    (d : DeployedGeneratorDocument) → validate_document d ≡ ok tt → IsDocument d
unfolding validate_document
validate_document-IsDocument d h =
    let (_, h1) =
      >>-eq-ok (ensure (starts_with d.executable_path (b'/' ∷ [])) config_invalid) _ h in
    let (_, h2) = >>-eq-ok (ensure (d.protocol_version == 1) config_invalid) _ h1 in
    let (names, h3) = >>-eq-ok (for_each ensure_identity (identities_of d)) _ h2 in
    let (_, h4) = >>-eq-ok (ensure_sha256 d.package_sha256) _ h3 in
    let (_, h5) = >>-eq-ok (ensure_sha256 d.binary_sha256) _ h4 in
    let (few, h6) =
      >>-eq-ok (ensure (leb (length d.capability_identities) 256) config_invalid) _ h5 in
    let (capabilities, ascending) =
      >>-eq-ok (for_each ensure_identity d.capability_identities) _ h6 in
    record {
      identities = (for_each-ok_iff ensure_identity (identities_of d)).0 names;
      few = ensure-eq-ok _ config_invalid few;
      capabilities = (for_each-ok_iff ensure_identity d.capability_identities).0 capabilities;
      ascending = ensure-eq-ok _ config_invalid ascending;
    }

module _ (sha256_hex : List ℕ → Text)
    (hash_payload : ImmutableIdentityPayload → Result DeployedGeneratorError Text)
    (metadata : Text → Result IoError FileMetadata)
    (open_file : Text → Result IoError OpenFile) where
  from_document-eq-ok :
      (d : DeployedGeneratorDocument) (g : DeployedGenerator)
      → from_document sha256_hex hash_payload metadata open_file d ≡ ok g
      → (validate_document d ≡ ok tt) × (g.document ≡ d)
  unfolding from_document
  from_document-eq-ok d g h =
      let (valid, h1) = >>-eq-ok (validate_document d) _ h in
      let (_, h2) =
        >>-eq-ok (validate_executable sha256_hex hash_payload metadata open_file d) _ h1 in
      let (identity, _, h3) = >>=-eq-ok (hash_payload (immutable_payload d)) _ h2 in
      (valid, ground (arith, h3))

  -- When a deployment is loaded from a document, whatever the file system and the hashes are, the
  -- bindings that it gives to a request, for settings with a valid identity, pass the protocol's
  -- check of identity bindings.
  pub validate_bindings-identity_bindings :
      (d : DeployedGeneratorDocument) (g : DeployedGenerator) (settings : Text)
      → from_document sha256_hex hash_payload metadata open_file d ≡ ok g
      → validate_identity settings ≡ ok tt
      → validate_bindings (identity_bindings g settings) ≡ ok tt
  unfolding validate_bindings
  validate_bindings-identity_bindings d g settings loaded named =
      let (valid, same) = from_document-eq-ok d g loaded in
      let is = validate_document-IsDocument d valid in
      let (
        pack,
        (
          build,
          (
            binary,
            (
              dialect,
              (kind, (schema, (settings_schema, (provenance, (normalization, (validation, _)))))),
            ),
          ),
        ),
      ) =
        All-map (λ value. ensure_identity value ≡ ok tt) (λ value. validate_identity value ≡ ok tt)
          (identities_of d) ensure_identity-validate_identity is.identities in
      let checked : validate_bindings (identity_bindings (record g { document = d }) settings)
          ≡ ok tt =
        (>>-ok pack (
          >>-ok build (
            >>-ok binary (
              >>-ok dialect (
                >>-ok kind (
                  >>-ok schema (
                    >>-ok named (
                      >>-ok settings_schema (
                        >>-ok provenance (
                          >>-ok normalization (
                            >>-ok validation (
                              >>-ok (ap (λ b. ensure b too_many_entries) is.few) (
                                >>-ok
                                  ((for_each-ok_iff validate_identity d.capability_identities).1 (
                                    All-map _ (λ value. validate_identity value ≡ ok tt) _
                                      ensure_identity-validate_identity is.capabilities))
                                  (ap (λ b. ensure b unsorted_capabilities)
                                    is.ascending)))))))))))))) in
      ap (λ x. validate_bindings (identity_bindings (record g { document = x }) settings)) same
      ∙ checked
