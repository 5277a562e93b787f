-- ===== src/Protocol/Manifest.antt =====
-- The manifest of a generator's inputs: `InputManifest::validate` and
-- `GeneratorRequest::validate_with_manifest`.
pub mod Walks
pub mod Parents
pub mod Staging
mod Tests
use onshape_export.Base.{
  ℕ, suc, zero, ◌+◌, Text, text_eq, optional_text_eq, Bool, true, false, not, ◌&&◌, ◌||◌, Option,
  none, some, List, [], ◌∷◌, ◌==◌, leb, any, all, length, is_empty, is_none, find_by, if◌then◌else◌,
  Result, ok, err, ensure, for_some, for_each, ◌>>=◌, ◌>>◌,
}
use onshape_export.Protocol.{
  ProtocolError, Check, validate_version, validate_identity, validate_sha256,
  validate_relative_path, validate_text, is_under_directory, unsupported_version, missing_evidence,
  unexpected_evidence, missing_reason, unexpected_reason, too_many_entries, no_objects,
  unproven_export, missing_input_set, unexpected_input_set, duplicate_object, duplicate_path,
  outside_inputs, unproven_object, empty_occurrence_path, no_raw_geometry, missing_parent,
  parent_cycle, walk_unfinished, input_set_mismatch, manifest_mismatch, unavailable_manifest,
  same_path, kind_mismatch, schema_mismatch,
}
use onshape_export.Protocol.Documents.{
  FileContent, GeneratorRequest, InvocationIdentityPayload, validate_content, validate_request,
  inputs_directory,
}

pub data ManifestStatus : Type 0 where
  available unavailable : ManifestStatus

pub data GroupingPolicy : Type 0 where
  grouped individual : GroupingPolicy

pub data MappingStatus : Type 0 where
  proven unproven missing duplicate ambiguous : MappingStatus

pub data InputRole : Type 0 where
  raw_geometry auxiliary_geometry : InputRole

pub record MappingEvidence : Type 0 where
  pub classification : Text
  pub evidence_identity : Text

pub record ObjectMapping : Type 0 where
  pub status : MappingStatus
  pub evidence : Option MappingEvidence
  pub reason : Option Text

pub record InputObject : Type 0 where
  pub object_identity : Text
  pub role : InputRole
  pub retained_content : FileContent
  pub mapping : ObjectMapping
  pub source_object_identity : Option Text
  pub occurrence_path : Option (List Text)
  pub producer_result_identity : Option Text
  pub source_filename : Option Text
  pub display_name : Option Text
  pub parent_object_identity : Option Text

pub record ExportInput : Type 0 where
  pub kind_identity : Text
  pub schema_identity : Text
  pub grouping_policy : GroupingPolicy
  pub observation_status : MappingStatus
  pub observation_evidence_identity : Option Text

pub record ManifestDecision : Type 0 where
  pub status : ManifestStatus
  pub reason : Option Text

pub record InputManifest : Type 0 where
  pub protocol_version : ℕ
  pub manifest_version : ℕ
  pub manifest_identity : Text
  pub input_set_identity : Option Text
  pub requirements_identity : Text
  pub source_identity : Text
  pub configuration_identity : Text
  pub export : ExportInput
  pub decision : ManifestDecision
  pub objects : List InputObject

pub record InputSetIdentityPayload : Type 0 where
  pub protocol_version : ℕ
  pub manifest_version : ℕ
  pub objects : List InputObject

pub record ManifestIdentityPayload : Type 0 where
  pub protocol_version : ℕ
  pub manifest_version : ℕ
  pub input_set_identity : Option Text
  pub requirements_identity : Text
  pub source_identity : Text
  pub configuration_identity : Text
  pub export : ExportInput
  pub decision : ManifestDecision
  pub objects : List InputObject

abbrev pub is_proven : MappingStatus → Bool
is_proven proven = true
is_proven _ = false

abbrev pub is_available : ManifestStatus → Bool
is_available available = true
is_available unavailable = false

abbrev pub is_raw : InputRole → Bool
is_raw raw_geometry = true
is_raw auxiliary_geometry = false

unfoldable pub validate_evidence : MappingEvidence → Check
validate_evidence e = do validate_identity e.classification; validate_identity e.evidence_identity

-- ObjectMapping::validate
unfoldable pub validate_mapping : ObjectMapping → Check
unfolding validate_evidence
validate_mapping m = do
  if is_proven m.status
      then (do
        ensure (not (is_none m.evidence)) missing_evidence
        ensure (is_none m.reason) unexpected_reason)
      else ensure (not (is_none m.reason)) missing_reason
  for_some m.evidence validate_evidence
  for_some m.reason (λ reason. validate_text reason 2048)

-- The checks before the decision.
unfoldable pub check_heading : InputManifest → Check
check_heading m = do
  validate_version m.protocol_version
  ensure (m.manifest_version == 1) unsupported_version
  validate_sha256 m.manifest_identity
  validate_identity m.requirements_identity
  validate_identity m.source_identity
  validate_identity m.configuration_identity
  validate_identity m.export.kind_identity
  validate_identity m.export.schema_identity
  if is_proven m.export.observation_status
      then ensure (not (is_none m.export.observation_evidence_identity)) missing_evidence
      else ensure (is_none m.export.observation_evidence_identity) unexpected_evidence
  for_some m.export.observation_evidence_identity validate_identity
  ensure (leb (length m.objects) 256) too_many_entries

unfoldable pub check_decision : InputManifest → Check
check_decision m = do
  if is_available m.decision.status
      then (do
        ensure (is_none m.decision.reason) unexpected_reason
        ensure (not (is_empty m.objects)) no_objects
        ensure (is_proven m.export.observation_status) unproven_export
        ensure (not (is_none m.input_set_identity)) missing_input_set)
      else (do
        ensure (not (is_none m.decision.reason)) missing_reason
        ensure (is_none m.input_set_identity) unexpected_input_set)
  for_some m.decision.reason (λ reason. validate_text reason 2048)

unfoldable pub check_occurrence_path : List Text → Check
check_occurrence_path path = do
  ensure (not (is_empty path) && leb (length path) 64) empty_occurrence_path
  for_each validate_identity path

-- The rest of an object, after its identity and its path.
unfoldable pub check_details : Bool → InputObject → Check
unfolding validate_mapping check_occurrence_path
check_details needs_proof o = do
  validate_mapping o.mapping
  ensure (not needs_proof || is_proven o.mapping.status) unproven_object
  for_some o.source_object_identity validate_identity
  for_some o.producer_result_identity validate_identity
  for_some o.parent_object_identity validate_identity
  for_some o.source_filename (λ name. validate_text name 1024)
  for_some o.display_name (λ name. validate_text name 1024)
  for_some o.occurrence_path check_occurrence_path

-- The loop over the objects, with the sets `identities` and `paths`.
unfoldable pub check_objects : Bool → List Text → List Text → List InputObject → Check
unfolding check_details
check_objects needs_proof identities paths [] = ok tt
check_objects needs_proof identities paths (o ∷ objects) = do
  validate_identity o.object_identity
  ensure (not (any (λ i. text_eq i o.object_identity) identities)) duplicate_object
  validate_content o.retained_content
  ensure (is_under_directory o.retained_content.path inputs_directory) outside_inputs
  ensure (not (any (λ p. text_eq p o.retained_content.path) paths)) duplicate_path
  check_details needs_proof o
  check_objects needs_proof (o.object_identity ∷ identities) (o.retained_content.path ∷ paths)
      objects

-- `by_identity.get(identity)`: the identities are unique, so the map holds each object.
abbrev pub object_of : Text → List InputObject → Option InputObject
object_of identity objects = find_by (λ (o : InputObject). o.object_identity) identity objects

abbrev pub parent_of : Option InputObject → Option Text
parent_of none = none
parent_of (some o) = o.parent_object_identity

-- The `while let` loop over the parents, with the set `visited`.
unfoldable pub walk : ℕ → List InputObject → List Text → Option Text → Check
walk zero objects visited current = err walk_unfinished
walk (suc fuel) objects visited none = ok tt
walk (suc fuel) objects visited (some identity) = do
  ensure (not (any (λ v. text_eq v identity) visited)) parent_cycle
  walk fuel objects (identity ∷ visited) (parent_of (object_of identity objects))

-- A walk visits each object at most once, and then perhaps one identity that no object has.
abbrev pub walk_fuel : List InputObject → ℕ
walk_fuel objects = length objects + 2

unfoldable pub check_parent : List InputObject → InputObject → Check
unfolding walk
check_parent objects o = do
  for_some o.parent_object_identity
      (λ parent. ensure (not (is_none (object_of parent objects))) missing_parent)
  walk (walk_fuel objects) objects [] (some o.object_identity)

unfoldable pub check_parents : List InputObject → Check
unfolding check_parent
check_parents objects = for_each (check_parent objects) objects

module _
    -- The canonical JSON and SHA-256 behind the three identities.
    (hash_invocation : InvocationIdentityPayload → Result ProtocolError Text)
    (hash_input_set : InputSetIdentityPayload → Result ProtocolError Text)
    (hash_manifest : ManifestIdentityPayload → Result ProtocolError Text) where
  abbrev pub some_identity : Result ProtocolError Text → Result ProtocolError (Option Text)
  some_identity (ok identity) = ok (some identity)
  some_identity (err e) = err e

  unfoldable pub computed_input_set_identity : InputManifest → Result ProtocolError (Option Text)
  computed_input_set_identity m =
      if is_available m.decision.status
      then some_identity (
          hash_input_set (record {
            protocol_version = m.protocol_version;
            manifest_version = m.manifest_version;
            objects = m.objects;
          }))
      else ok none

  unfoldable pub computed_manifest_identity : InputManifest → Result ProtocolError Text
  computed_manifest_identity m = hash_manifest (record {
    protocol_version = m.protocol_version;
    manifest_version = m.manifest_version;
    input_set_identity = m.input_set_identity;
    requirements_identity = m.requirements_identity;
    source_identity = m.source_identity;
    configuration_identity = m.configuration_identity;
    export = m.export;
    decision = m.decision;
    objects = m.objects;
  })

  unfoldable pub check_computed : InputManifest → Check
  unfolding computed_input_set_identity computed_manifest_identity
  check_computed m = do
    input_set ← computed_input_set_identity m
    ensure (optional_text_eq m.input_set_identity input_set) input_set_mismatch
    manifest ← computed_manifest_identity m
    ensure (text_eq m.manifest_identity manifest) manifest_mismatch

  -- InputManifest::validate
  unfoldable pub validate_manifest : InputManifest → Check
  unfolding check_heading check_decision check_objects check_parents check_computed
  validate_manifest m = do
    check_heading m
    check_decision m
    check_objects (is_available m.decision.status) [] [] m.objects
    ensure
        (not (is_available m.decision.status) || any (λ (o : InputObject). is_raw o.role) m.objects)
        no_raw_geometry
    check_parents m.objects
    check_computed m

  -- `all(|object| object.retained_content.path != path)`
  abbrev pub differs_from_all : Text → List InputObject → Bool
  differs_from_all path objects =
      all (λ (o : InputObject). not (text_eq o.retained_content.path path)) objects

  unfoldable pub validate_with_manifest : GeneratorRequest → InputManifest → Check
  unfolding validate_manifest
  validate_with_manifest q m = do
    validate_request hash_invocation q
    validate_manifest m
    ensure (is_available m.decision.status) unavailable_manifest
    ensure (text_eq q.input_manifest.manifest_identity m.manifest_identity) manifest_mismatch
    ensure (differs_from_all q.input_manifest.path m.objects) same_path
    ensure (optional_text_eq m.input_set_identity (some q.input_manifest.input_set_identity))
        input_set_mismatch
    ensure (text_eq q.expected_identities.input_kind_identity m.export.kind_identity) kind_mismatch
    ensure (text_eq q.expected_identities.input_schema_identity m.export.schema_identity)
        schema_mismatch
    ensure (differs_from_all q.settings.content.path m.objects) same_path
