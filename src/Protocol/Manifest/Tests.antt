-- ===== src/Protocol/Manifest/Tests.antt =====
-- Manifests by example: a plate with a lid that hangs below it, and a cycle.
use onshape_export.Base.{
  optional_text_eq, ◌≡◌, ◌≢◌, ◌↔◌, refl, Text, text, text_eq, bytes, utf8, split, split_first,
  starts_with, Option, none, some, [], ◌∷◌, All, HasUniqueKeys, find_by, for_each, Result, ok, err,
}
use onshape_export.Protocol.{
  ProtocolError, parent_cycle, walk_unfinished, validate_version, validate_sha256,
  validate_identity, validate_relative_path, validate_media_type, validate_byte_length,
  is_under_directory, strip_prefix,
}
use onshape_export.Protocol.Documents.{
  validate_request, validate_content, validate_bindings, is_ascending, text_lt,
  computed_invocation_identity,
}
use onshape_export.Protocol.Manifest.{
  InputObject, InputManifest, InputSetIdentityPayload, ManifestIdentityPayload, proven,
  raw_geometry, grouped, available, walk, check_parent, check_parents, validate_manifest,
  validate_with_manifest, check_heading, check_decision, check_objects, check_details,
  validate_mapping, validate_evidence, check_computed, computed_input_set_identity,
  computed_manifest_identity,
}
use onshape_export.Protocol.Manifest.Parents.{IsRooted, check_parents_ends, check_parents_iff}
use onshape_export.Protocol.Manifest.Staging.{IsStageable, validate_with_manifest-IsStageable}
use onshape_export.Protocol.Samples.{digest, hash_json, request}

abbrev hash_objects : InputSetIdentityPayload → Result ProtocolError Text
hash_objects payload = ok digest

abbrev hash_document : ManifestIdentityPayload → Result ProtocolError Text
hash_document payload = ok digest

abbrev object_named : Text → Text → Option Text → InputObject
object_named name path parent = record {
  object_identity = name;
  role = raw_geometry;
  retained_content = record {
    content_identity = name;
    path = path;
    sha256 = digest;
    byte_length = 100;
    media_type = text "model/3mf";
    detected_kind_identity = text "3mf";
  };
  mapping = record {
    status = proven;
    evidence = some (record { classification = text "exact"; evidence_identity = text "evidence" });
    reason = none;
  };
  source_object_identity = none;
  occurrence_path = none;
  producer_result_identity = none;
  source_filename = none;
  display_name = none;
  parent_object_identity = parent;
}

abbrev plate : InputObject
plate = object_named (text "plate") (text "inputs/a.3mf") none

abbrev lid : InputObject
lid = object_named (text "lid") (text "inputs/b.3mf") (some (text "plate"))

abbrev looped : InputObject
looped = object_named (text "loop") (text "inputs/c.3mf") (some (text "loop"))

abbrev manifest : InputManifest
manifest = record {
  protocol_version = 1;
  manifest_version = 1;
  manifest_identity = digest;
  input_set_identity = some digest;
  requirements_identity = text "requirements";
  source_identity = text "source";
  configuration_identity = text "configuration";
  export = record {
    kind_identity = text "kind";
    schema_identity = text "schema";
    grouping_policy = grouped;
    observation_status = proven;
    observation_evidence_identity = some (text "seen");
  };
  decision = record { status = available; reason = none };
  objects = lid ∷ plate ∷ [];
}

cycle_fails : check_parents (looped ∷ []) ≡ err parent_cycle
unfolding check_parents check_parent for_each walk find_by text text_eq
cycle_fails = refl

objects_unique : HasUniqueKeys (λ (o : InputObject). o.object_identity) (lid ∷ plate ∷ [])
unfolding text text_eq
objects_unique = ((refl, tt), (tt, tt))

manifest_passes :
    validate_with_manifest hash_json hash_objects hash_document request manifest ≡ ok tt
unfolding validate_with_manifest validate_manifest check_heading check_decision check_objects
    check_details validate_mapping validate_evidence check_computed computed_input_set_identity
    computed_manifest_identity optional_text_eq check_parents check_parent for_each walk find_by
    text text_eq bytes utf8 split split_first starts_with validate_version validate_sha256
    validate_identity validate_relative_path validate_media_type validate_byte_length
    is_under_directory strip_prefix validate_request validate_content validate_bindings is_ascending
    text_lt computed_invocation_identity
manifest_passes = refl

check_parents_ends_example : check_parents (looped ∷ []) ≢ err walk_unfinished
check_parents_ends_example = check_parents_ends (looped ∷ [])

check_parents_iff_example :
    (check_parents (lid ∷ plate ∷ []) ≡ ok tt)
    ↔ All (λ (o : InputObject). IsRooted (lid ∷ plate ∷ []) o.object_identity) (lid ∷ plate ∷ [])
check_parents_iff_example = check_parents_iff (lid ∷ plate ∷ []) objects_unique

validate_with_manifest-IsStageable_example :
    IsStageable hash_json hash_objects hash_document request manifest
validate_with_manifest-IsStageable_example =
    validate_with_manifest-IsStageable hash_json hash_objects hash_document request manifest
      manifest_passes
