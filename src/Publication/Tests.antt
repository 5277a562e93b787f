-- ===== src/Publication/Tests.antt =====
-- Publications of one output over tables that hold nothing yet, and a reconciliation of it once staged.
use onshape_export.Base.{
  ◌≡◌, refl, ap, arith, starts_with, Text, text, text_eq, optional_text_eq, bytes, utf8, find_by,
  split, split_first, Option, some, ◌∷◌, ◌++◌, Result, ok, err, for_each, affected, update_where,
}
use onshape_export.Protocol.{
  validate_identity, validate_sha256, validate_relative_path, validate_media_type,
  validate_byte_length, validate_version, strip_prefix, is_under_directory,
}
use onshape_export.Protocol.Documents.{
  GeneratedOutput, text_lt, is_ascending, texts_eq, bindings_eq, validate_content,
  validate_bindings, validate_request, validate_result, validate_against_request,
  computed_invocation_identity, validate_output,
}
use onshape_export.Storage.{
  request_failed, verify_exact_object, head_object, verify_object_metadata, verify_object_body,
  verify_chunks, counted,
}
use onshape_export.Artifacts.{ArtifactSetRecord, ArtifactFileInsert, Artifacts}
use onshape_export.Artifacts.Generated.{
  load_generator_artifact, load_set, complete_loaded, make_ready, complete_generator_artifact,
  valid_generator_sha256, valid_generator_logical_path,
}
use onshape_export.Artifacts.Staging.{insert_files}
use onshape_export.Artifacts.Resuming.{
  insert_generator_set, resume_loaded, stage_hashed, stage_or_resume_generator_artifact,
}
use onshape_export.Deployment.{ensure_compatible}
use onshape_export.Publication.{
  prepared_of, PublicationError, upload, is_presentable, validate_target, validate_deployment,
  generator_publication_object_key, write, copy, retain_candidate,
}
use onshape_export.Publication.Steps.{
  World, publish_operation, conclude, publish_generator_output, check_stored, conclude_stored,
  reconcile_loaded, reconcile_generator_artifact,
}
use onshape_export.Publication.Published.{
  IsReady, publish, stage, operate, publish_generator_output-IsReady,
}
use onshape_export.Publication.Reconciled.{load, reconcile, reconcile_generator_artifact-IsReady}
use onshape_export.Publication.Withdrawn.{IsWithdrawn, publish_generator_output-IsWithdrawn}
use onshape_export.Publication.Samples.{
  set_hash_of, sha256_hex, calls, output, accepted, deployed, processing, target, world,
  failing_world, empty_tables, object_key, candidate, staged_tables, staged_state,
  same_presentation, parse_result,
}

abbrev run : World → Artifacts × Result PublicationError Text
run w = publish calls w deployed processing target accepted empty_tables

publishes : (run world).1 ≡ ok object_key
unfolding publish_generator_output publish_operation conclude validate_deployment validate_target
    retain_candidate copy write generator_publication_object_key is_presentable ensure_compatible
    stage_or_resume_generator_artifact stage_hashed insert_generator_set insert_files resume_loaded
    load_generator_artifact load_set valid_generator_sha256 valid_generator_logical_path
    complete_generator_artifact complete_loaded make_ready verify_exact_object head_object
    verify_object_metadata verify_object_body verify_chunks counted validate_against_request
    validate_request validate_result validate_content validate_bindings validate_output
    computed_invocation_identity is_ascending text_lt texts_eq bindings_eq validate_identity
    validate_sha256 validate_relative_path validate_media_type validate_byte_length validate_version
    is_under_directory split split_first for_each find_by affected update_where text text_eq
    optional_text_eq bytes utf8 strip_prefix starts_with
publishes = refl

published_by_run : run world ≡ ((run world).0, ok object_key)
published_by_run = ap (λ r. ((run world).0, r)) publishes

publish_generator_output-IsReady_example :
    (o : GeneratedOutput) × (hash : Text) × (some output ≡ some o)
    × (set_hash_of (prepared_of processing) target.output_kind target.format ≡ ok hash)
    × (object_key ≡ text "artifacts/v2/" ++ (hash ++ b'/' ∷ target.logical_path))
    × IsReady sha256_hex world object_key o.media_type o.byte_length o.sha256 hash (run world).0
publish_generator_output-IsReady_example =
    publish_generator_output-IsReady calls world deployed processing target accepted empty_tables
      (run world).0 object_key published_by_run

stages :
    stage calls failing_world deployed processing target accepted empty_tables
    ≡ ok (object_key, candidate, staged_tables, staged_state)
unfolding validate_deployment validate_target retain_candidate copy write
    generator_publication_object_key is_presentable ensure_compatible
    stage_or_resume_generator_artifact stage_hashed insert_generator_set insert_files resume_loaded
    load_generator_artifact load_set valid_generator_sha256 valid_generator_logical_path
    validate_against_request validate_request validate_result validate_content validate_bindings
    validate_output computed_invocation_identity is_ascending text_lt texts_eq bindings_eq
    validate_identity validate_sha256 validate_relative_path validate_media_type
    validate_byte_length validate_version is_under_directory split split_first for_each find_by text
    text_eq optional_text_eq bytes utf8 strip_prefix starts_with
stages = refl

fails :
    operate calls failing_world deployed processing target object_key candidate staged_state
    ≡ err (upload request_failed)
unfolding publish_operation
fails = refl

publish_generator_output-IsWithdrawn_example :
    (s' : Artifacts) × (hash : Text) × (set_hash_of
        (prepared_of processing)
        target.output_kind
        target.format
      ≡ ok hash)
    × (run failing_world ≡ (s', err (upload request_failed)))
    × IsWithdrawn hash staged_tables s'
publish_generator_output-IsWithdrawn_example =
    publish_generator_output-IsWithdrawn calls failing_world deployed processing target accepted
      empty_tables staged_tables object_key candidate staged_state (upload request_failed) stages
      fails refl refl

abbrev reconciled : Artifacts × Result PublicationError (Option Text)
reconciled =
    reconcile calls world deployed processing target same_presentation parse_result staged_tables

reconciles : reconciled.1 ≡ ok (some object_key)
unfolding reconcile_generator_artifact reconcile_loaded check_stored conclude_stored
    validate_deployment validate_target generator_publication_object_key is_presentable
    ensure_compatible load_generator_artifact load_set valid_generator_sha256
    valid_generator_logical_path complete_generator_artifact complete_loaded make_ready
    verify_exact_object head_object verify_object_metadata verify_object_body verify_chunks counted
    validate_against_request validate_request validate_result validate_content validate_bindings
    validate_output computed_invocation_identity is_ascending text_lt texts_eq bindings_eq
    validate_identity validate_sha256 validate_relative_path validate_media_type
    validate_byte_length validate_version is_under_directory split split_first for_each find_by
    affected update_where text text_eq optional_text_eq bytes utf8 strip_prefix starts_with
reconciles = refl

reconciled_by_run : reconciled ≡ (reconciled.0, ok (some object_key))
reconciled_by_run = ap (λ r. (reconciled.0, r)) reconciles

reconcile_generator_artifact-IsReady_example :
    (r : ArtifactSetRecord) × (file : ArtifactFileInsert) × (hash : Text) × (load calls world
        deployed processing target same_presentation parse_result staged_tables
      ≡ ok (some (r, file)))
    × (set_hash_of (prepared_of processing) target.output_kind target.format ≡ ok hash)
    × (object_key ≡ text "artifacts/v2/" ++ (hash ++ b'/' ∷ target.logical_path))
    × IsReady sha256_hex world object_key file.content_type file.byte_len file.sha256 hash
        reconciled.0
reconcile_generator_artifact-IsReady_example =
    reconcile_generator_artifact-IsReady calls world deployed processing target same_presentation
      parse_result staged_tables reconciled.0 object_key (omega arith) reconciled_by_run
