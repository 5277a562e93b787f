-- ===== src/Protocol/Manifest/Staging.antt =====
-- What a request that is validated with its manifest stages: one file for each path.
use onshape_export.Base.{
  optional_text_eq, ◌≡◌, refl, Text, text_eq, text_eq_iff, Bool, true, false, not, ◌||◌, some, List,
  [], ◌∷◌, map, arith, any, all, All, All-map, Distinct, all_new, all_new_iff, HasUniqueKeys,
  Result, ok, ensure, ensure-eq-ok, >>-eq-ok,
}
use onshape_export.Protocol.{
  ProtocolError, validate_version, validate_sha256, validate_relative_path, no_raw_geometry,
  kind_mismatch, schema_mismatch, validate_identity, is_under_directory, duplicate_object,
  duplicate_path, outside_inputs, unproven_object, same_path, unavailable_manifest,
  manifest_mismatch, input_set_mismatch,
}
use onshape_export.Protocol.Documents.{
  GeneratorRequest, InvocationIdentityPayload, validate_request, validate_bindings,
  validate_content, inputs_directory,
}
use onshape_export.Protocol.Manifest.{
  InputObject, InputManifest, InputSetIdentityPayload, ManifestIdentityPayload, is_available,
  is_raw, is_proven, check_heading, check_decision, check_details, check_objects, check_parents,
  validate_mapping, validate_manifest, validate_with_manifest,
}
use onshape_export.Protocol.Manifest.Parents.{IsRooted, check_parents_iff}

abbrev identity_of : InputObject → Text
identity_of o = o.object_identity

abbrev pub path_of : InputObject → Text
path_of o = o.retained_content.path

-- What the loop over the objects makes sure of.
record Checked (needs_proof : Bool) (identities paths : List Text) (objects : List InputObject)
    : Type 0 where
  pub new_identities : all_new text_eq identities (map identity_of objects) ≡ true
  pub new_paths : all_new text_eq paths (map path_of objects) ≡ true
  pub inside : All (λ o. is_under_directory (path_of o) inputs_directory ≡ true) objects
  pub proven :
      All (λ (o : InputObject). (not needs_proof || is_proven o.mapping.status) ≡ true) objects

check_objects-Checked :
    (needs_proof : Bool) (identities paths : List Text) (objects : List InputObject)
    → check_objects needs_proof identities paths objects ≡ ok tt
    → Checked needs_proof identities paths objects
unfolding check_objects check_details all_new
check_objects-Checked needs_proof identities paths [] h = record {
  new_identities = refl;
  new_paths = refl;
  inside = tt;
  proven = tt;
}
check_objects-Checked needs_proof identities paths (o ∷ objects) h =
    let (_, h1) = >>-eq-ok (validate_identity o.object_identity) _ h in
    let (fresh, h2) =
      >>-eq-ok (ensure (not (any (λ i. text_eq i o.object_identity) identities)) duplicate_object) _
        h1 in
    let (_, h3) = >>-eq-ok (validate_content o.retained_content) _ h2 in
    let (under, h4) =
      >>-eq-ok (ensure (is_under_directory o.retained_content.path inputs_directory) outside_inputs)
        _ h3 in
    let (apart, h5) =
      >>-eq-ok (ensure (not (any (λ p. text_eq p o.retained_content.path) paths)) duplicate_path) _
        h4 in
    let (details, later) = >>-eq-ok (check_details needs_proof o) _ h5 in
    let (_, d1) = >>-eq-ok (validate_mapping o.mapping) _ details in
    let (proof, _) =
      >>-eq-ok (ensure (not needs_proof || is_proven o.mapping.status) unproven_object) _ d1 in
    let rest =
      check_objects-Checked needs_proof (o.object_identity ∷ identities)
        (o.retained_content.path ∷ paths) objects later in
    record {
      new_identities = ground (
        arith,
        rest.new_identities,
        ensure-eq-ok (not (any (λ i. text_eq i o.object_identity) identities)) duplicate_object
            fresh,
      );
      new_paths = ground (
        arith,
        rest.new_paths,
        ensure-eq-ok (not (any (λ p. text_eq p o.retained_content.path) paths)) duplicate_path
            apart,
      );
      inside = (
        ensure-eq-ok (is_under_directory o.retained_content.path inputs_directory) outside_inputs
            under,
        rest.inside,
      );
      proven = (
        ensure-eq-ok (not needs_proof || is_proven o.mapping.status) unproven_object proof,
        rest.proven,
      );
    }

apart_from :
    (k : Text) (f : InputObject → Text) (objects : List InputObject)
    → All (λ y. text_eq k y ≡ false) (map f objects)
    → All (λ o. text_eq k (f o) ≡ false) objects
apart_from k f [] h = tt
apart_from k f (o ∷ objects) h = (h.0, apart_from k f objects h.1)

Distinct-map :
    (f : InputObject → Text) (objects : List InputObject)
    → Distinct text_eq (map f objects)
    → HasUniqueKeys f objects
Distinct-map f [] h = tt
Distinct-map f (o ∷ objects) h = (apart_from (f o) f objects h.0, Distinct-map f objects h.1)

All-of_map :
    (objects : List InputObject)
    → All (λ o. is_under_directory (path_of o) inputs_directory ≡ true) objects
    → All (λ path. is_under_directory path inputs_directory ≡ true) (map path_of objects)
All-of_map [] h = tt
All-of_map (o ∷ objects) h = (h.0, All-of_map objects h.1)

differs-apart :
    (path : Text) (objects : List InputObject)
    → all (λ (o : InputObject). not (text_eq o.retained_content.path path)) objects ≡ true
    → All (λ y. text_eq path y ≡ false) (map path_of objects)
differs-apart path [] h = tt
differs-apart path (o ∷ objects) h = (
  ground (
    arith,
    text_eq_iff o.retained_content.path path,
    text_eq_iff path o.retained_content.path,
    h,
  ),
  differs-apart path objects (ground (arith, h)),
)

module _ (hash_invocation : InvocationIdentityPayload → Result ProtocolError Text)
    (hash_input_set : InputSetIdentityPayload → Result ProtocolError Text)
    (hash_manifest : ManifestIdentityPayload → Result ProtocolError Text) where
  -- The two files that the request itself names.
  record RequestFiles (q : GeneratorRequest) : Type 0 where
    pub manifest_inside : is_under_directory q.input_manifest.path inputs_directory ≡ true
    pub settings_inside : is_under_directory q.settings.content.path inputs_directory ≡ true
    pub apart : text_eq q.settings.content.path q.input_manifest.path ≡ false

  request_files :
      (q : GeneratorRequest) → validate_request hash_invocation q ≡ ok tt → RequestFiles q
  unfolding validate_request
  request_files q h =
      let (_, h) = >>-eq-ok (validate_version q.protocol_version) _ h in
      let (_, h) = >>-eq-ok (validate_sha256 q.invocation_identity) _ h in
      let (_, h) = >>-eq-ok (validate_bindings q.expected_identities) _ h in
      let (_, h) = >>-eq-ok (validate_relative_path q.input_manifest.path) _ h in
      let (manifest, h) =
        >>-eq-ok (ensure (is_under_directory q.input_manifest.path inputs_directory) outside_inputs)
          _ h in
      let (_, h) = >>-eq-ok (validate_sha256 q.input_manifest.manifest_identity) _ h in
      let (_, h) = >>-eq-ok (validate_sha256 q.input_manifest.input_set_identity) _ h in
      let (_, h) = >>-eq-ok (validate_identity q.settings.settings_identity) _ h in
      let (_, h) = >>-eq-ok (validate_identity q.settings.schema_identity) _ h in
      let (_, h) = >>-eq-ok (validate_content q.settings.content) _ h in
      let (settings, h) =
        >>-eq-ok
          (ensure (is_under_directory q.settings.content.path inputs_directory) outside_inputs) _
          h in
      let (other, _) =
        >>-eq-ok (ensure (not (text_eq q.settings.content.path q.input_manifest.path)) same_path) _
          h in
      record {
        manifest_inside = ensure-eq-ok _ outside_inputs manifest;
        settings_inside = ensure-eq-ok _ outside_inputs settings;
        apart = ground (
          arith,
          ensure-eq-ok (not (text_eq q.settings.content.path q.input_manifest.path)) same_path
              other,
        );
      }

  manifest_objects :
      (m : InputManifest)
      → validate_manifest hash_invocation hash_input_set hash_manifest m ≡ ok tt
      → Checked (is_available m.decision.status) [] [] m.objects × (check_parents m.objects ≡ ok tt)
  unfolding validate_manifest
  manifest_objects m h =
      let (_, h) = >>-eq-ok (check_heading m) _ h in
      let (_, h) = >>-eq-ok (check_decision m) _ h in
      let (objects, h) =
        >>-eq-ok (check_objects (is_available m.decision.status) [] [] m.objects) _ h in
      let (_, h) =
        >>-eq-ok
          (ensure
            (not (is_available m.decision.status)
              || any (λ (o : InputObject). is_raw o.role) m.objects)
            no_raw_geometry)
          _ h in
      let (parents, _) = >>-eq-ok (check_parents m.objects) _ h in
      (check_objects-Checked (is_available m.decision.status) [] [] m.objects objects, parents)

  -- The paths of all files that an invocation stages.
  abbrev pub staged_paths : GeneratorRequest → InputManifest → List Text
  staged_paths q m = q.input_manifest.path ∷ q.settings.content.path ∷ map path_of m.objects

  pub record IsStageable (q : GeneratorRequest) (m : InputManifest) : Type 0 where
    pub apart : Distinct text_eq (staged_paths q m)
    pub inside : All (λ path. is_under_directory path inputs_directory ≡ true) (staged_paths q m)
    pub proven : All (λ (o : InputObject). is_proven o.mapping.status ≡ true) m.objects
    pub forest : All (λ (o : InputObject). IsRooted m.objects o.object_identity) m.objects

  -- When a request is valid with its manifest: no two of the files to stage (the manifest, the
  -- settings, and each object's content) share a path, all lie beneath `inputs/`, every object is
  -- proven, and every object leads from parent to parent to one without a parent.
  pub validate_with_manifest-IsStageable :
      (q : GeneratorRequest) (m : InputManifest)
      → validate_with_manifest hash_invocation hash_input_set hash_manifest q m ≡ ok tt
      → IsStageable q m
  unfolding validate_with_manifest
  validate_with_manifest-IsStageable q m h =
      let (request, h) = >>-eq-ok (validate_request hash_invocation q) _ h in
      let (manifest, h) =
        >>-eq-ok (validate_manifest hash_invocation hash_input_set hash_manifest m) _ h in
      let (status, h) =
        >>-eq-ok (ensure (is_available m.decision.status) unavailable_manifest) _ h in
      let (_, h) =
        >>-eq-ok
          (ensure (text_eq q.input_manifest.manifest_identity m.manifest_identity)
            manifest_mismatch)
          _ h in
      let (from_manifest, h) =
        >>-eq-ok
          (ensure
            (all (λ (o : InputObject). not (text_eq o.retained_content.path q.input_manifest.path))
              m.objects)
            same_path)
          _ h in
      let (_, h) =
        >>-eq-ok
          (ensure (optional_text_eq m.input_set_identity (some q.input_manifest.input_set_identity))
            input_set_mismatch)
          _ h in
      let (_, h) =
        >>-eq-ok
          (ensure (text_eq q.expected_identities.input_kind_identity m.export.kind_identity)
            kind_mismatch)
          _ h in
      let (_, from_settings) =
        >>-eq-ok
          (ensure (text_eq q.expected_identities.input_schema_identity m.export.schema_identity)
            schema_mismatch)
          _ h in
      let files = request_files q request in
      let (checked, parents) = manifest_objects m manifest in
      let available : is_available m.decision.status ≡ true =
        ensure-eq-ok _ unavailable_manifest status in
      record {
        apart = (
          (
            ground (
              arith,
              files.apart,
              text_eq_iff q.input_manifest.path q.settings.content.path,
              text_eq_iff q.settings.content.path q.input_manifest.path,
            ),
            differs-apart q.input_manifest.path m.objects (ensure-eq-ok _ same_path from_manifest),
          ),
          (
            differs-apart q.settings.content.path m.objects
                (ensure-eq-ok _ same_path from_settings),
            ((all_new_iff text_eq [] (map path_of m.objects)).0 checked.new_paths).1,
          ),
        );
        inside =
            (files.manifest_inside, (files.settings_inside, All-of_map m.objects checked.inside));
        proven = All-map _ _ m.objects (λ o k. ground (arith, k, available)) checked.proven;
        forest =
            (check_parents_iff m.objects (
                Distinct-map identity_of m.objects
                  ((all_new_iff text_eq [] (map identity_of m.objects)).0
                    checked.new_identities).1)).0
              parents;
      }
