-- ===== src/Publication/Steps.antt =====
-- `publish_generator_output` and `reconcile_generator_artifact`: the steps over the artifact tables and
-- the object store. What others do to the tables between two steps is a function, as is each answer of
-- the object store.
use onshape_export.Base.{
  ℕ, Text, text, text_eq, Bool, true, false, ◌&&◌, Option, none, some, [], ◌∷◌, ◌==◌, is_none,
  Result, ok, err, ensure, ◌>>=◌, ◌>>◌, if◌then◌else◌,
}
use onshape_export.Protocol.{ProtocolError}
use onshape_export.Protocol.Documents.{GeneratorResult, GeneratedOutput, validate_against_request}
use onshape_export.Storage.{StorageError, HeadObjectOutput, GetObjectOutput, verify_exact_object}
use onshape_export.Artifacts.{
  ArtifactStatus, ready, ArtifactSetRecord, ArtifactFileInsert, Artifacts, ArtifactMetadata,
  DatabaseError, has_status,
}
use onshape_export.Artifacts.Generated.{
  Loaded, load_generator_artifact, fail_generator_artifact, fail_ready_generator_verification,
  complete_generator_artifact,
}
use onshape_export.Artifacts.Resuming.{
  GeneratorArtifactStage, GeneratorArtifactFileInsert, GeneratorArtifactState,
  stage_or_resume_generator_artifact,
}
use onshape_export.Deployment.{DeployedGenerator}
use onshape_export.Publication.{
  prepared_of, Calls, GeneratorPublicationTarget, PreparedGeneratorProcessing,
  VerifiedGeneratorOutput, MeasuredCandidate, PublicationError, Checked, upload,
  storage_verification, stored_verification, cleanup_failed, cleanup_task_failed, superseded_before,
  database, invalid_metadata, presentation_mismatch, declarations_mismatch, or_database,
  or_invalid_result, output_of, is_success, validate_deployment, generator_publication_object_key,
  retain_candidate,
}

-- What becomes of the private copy: `candidate.file.close()` in a task of its own.
pub data Cleanup : Type 0 where
  closed close_failed task_failed : Cleanup

-- One run: its times, the others, and the answers of the object store and of the file system.
pub record World : Type 0 where
  pub staged_at : ℕ
  pub finished_at : ℕ
  pub meanwhile : Artifacts → Artifacts
  pub put : Text → Result StorageError (Unit {0})
  pub head : Text → Result StorageError HeadObjectOutput
  pub get : Text → Result StorageError GetObjectOutput
  pub retention : Checked
  pub cleanup : Cleanup

-- `(status == "ready").then_some(updated_at)`
abbrev pub ready_revision : ArtifactStatus → ℕ → Option ℕ
ready_revision status updated_at = if has_status ready status then some updated_at else none

unfoldable pub record_verification_failure : ℕ → Text → Option ℕ → Artifacts → Artifacts
record_verification_failure now hash none s = (fail_generator_artifact now hash s).0
record_verification_failure now hash (some revision) s =
    (fail_ready_generator_verification now hash revision s).0

abbrev pub or_upload : Result StorageError (Unit {0}) → Checked
or_upload (ok _) = ok tt
or_upload (err e) = err (upload e)

abbrev pub or_storage_verification : Result StorageError (Unit {0}) → Checked
or_storage_verification (ok _) = ok tt
or_storage_verification (err e) = err (storage_verification e)

-- A reconciliation returns the error with a context only, outside `GeneratorPublicationFailure`.
abbrev pub or_stored_verification : Result StorageError (Unit {0}) → Checked
or_stored_verification (ok _) = ok tt
or_stored_verification (err e) = err (stored_verification e)

-- `put_file_with_headers`, unless the set is ready.
abbrev pub uploaded : World → ArtifactStatus → Text → Checked
uploaded w status key = if has_status ready status then ok tt else or_upload (w.put key)

abbrev pub completed_with :
    {A : Type 0}
    → A
    → Artifacts
    → Result DatabaseError (Artifacts × Bool)
    → Artifacts × Result PublicationError A
completed_with a s (err e) = (s, err (database e))
completed_with a s (ok (s', true)) = (s', ok a)
completed_with a s (ok (s', false)) = (s', err superseded_before)

abbrev pub rolled_back :
    {A B : Type 0}
    → Artifacts
    → Result PublicationError A
    → (A → Artifacts × Result PublicationError B)
    → Artifacts × Result PublicationError B
rolled_back s (err e) next = (s, err e)
rolled_back s (ok a) next = next a

module _ (calls : Calls) (w : World) (g : DeployedGenerator) (p : PreparedGeneratorProcessing)
    (target : GeneratorPublicationTarget) where
  open calls use {to_string, result_to_string, hash_invocation, sha256_hex, recipes}

  abbrev pub stage_of : Text → MeasuredCandidate → GeneratorArtifactStage
  stage_of key c = record {
    model_slug = target.model_slug;
    output_kind = target.output_kind;
    format = target.format;
    object_key = key;
    content_type = p.invocation.output.media_type;
    byte_len = c.byte_len;
    sha256 = c.sha256;
    producing_job_key = target.producing_job_key;
    parameter_schema_version = target.parameter_schema_version;
    config_values_json = target.config_values_json;
  }

  abbrev pub file_of : Text → MeasuredCandidate → GeneratorArtifactFileInsert
  file_of key c = record {
    role = text "generated_project";
    logical_path = target.logical_path;
    original_path = none;
    object_key = key;
    content_type = p.invocation.output.media_type;
    byte_len = c.byte_len;
    sha256 = c.sha256;
    metadata_json = result_to_string c.result;
  }

  abbrev pub completion :
      {A : Type 0} → A → Text → Artifacts → Artifacts × Result PublicationError A
  completion a key s = completed_with a s (
      complete_generator_artifact recipes w.finished_at (prepared_of p) target.output_kind
        target.format key s)

  -- The `operation` block.
  unfoldable pub publish_operation : Text → MeasuredCandidate → ArtifactStatus → Checked
  publish_operation key c status = do
    uploaded w status key
    or_storage_verification (
        verify_exact_object sha256_hex w.head w.get key p.invocation.output.media_type c.byte_len
          c.sha256)

  -- After the operation: its failure is recorded, else that of the cleanup, else the set is completed.
  unfoldable pub conclude :
      Text
      → GeneratorArtifactState
      → Checked
      → Cleanup
      → Artifacts
      → Artifacts × Result PublicationError Text
  unfolding record_verification_failure
  conclude key state done task_failed s = (s, err cleanup_task_failed)
  conclude key state (err e) _ s = (
    record_verification_failure w.finished_at state.artifact_set_hash
        (ready_revision state.status state.updated_at) s,
    err e,
  )
  conclude key state (ok _) close_failed s =
      ((fail_generator_artifact w.finished_at state.artifact_set_hash s).0, err cleanup_failed)
  conclude key state (ok _) closed s = completion key key s

  abbrev pub staging :
      VerifiedGeneratorOutput
      → Artifacts
      → Result PublicationError (Text × MeasuredCandidate × Artifacts × GeneratorArtifactState)
  staging output s = do
    validate_deployment calls g p target
    c ← retain_candidate calls w.retention output p
    key ← generator_publication_object_key calls p target
    made ← or_database (
        stage_or_resume_generator_artifact to_string recipes w.staged_at (prepared_of p)
          (stage_of key c) (file_of key c ∷ []) s)
    ok (key, c, made.0, made.1)

  unfoldable pub publish_generator_output :
      VerifiedGeneratorOutput → Artifacts → Artifacts × Result PublicationError Text
  unfolding publish_operation conclude
  publish_generator_output output s = rolled_back s (staging output s) (λ (key, c, s', state).
      conclude key state (publish_operation key c state.status) w.cleanup (w.meanwhile s'))

  module _ (same_presentation : Text → ArtifactMetadata → Option Bool)
      (parse_result : Text → Result ProtocolError GeneratorResult) where
    abbrev pub presentation_of : ArtifactMetadata
    presentation_of = record {
      model_slug = target.model_slug;
      producing_job_key = target.producing_job_key;
      parameter_schema_version = some target.parameter_schema_version;
      config_values_json = some target.config_values_json;
    }

    abbrev pub is_presentation : Option Bool → Checked
    is_presentation none = err invalid_metadata
    is_presentation (some same) = ensure same presentation_mismatch

    -- The declarations of the stored file, against those of its stored result.
    abbrev pub declares : Text → ArtifactFileInsert → GeneratorResult → GeneratedOutput → Bool
    declares key file result output =
        is_success result.status
        && (text_eq file.role (text "generated_project")
            && (text_eq file.logical_path target.logical_path
                && (is_none file.original_path
                    && (text_eq file.object_key key
                        && (text_eq file.content_type p.invocation.output.media_type
                            && (file.byte_len == output.byte_length
                                && text_eq file.sha256 output.sha256))))))

    unfoldable pub check_stored :
        ArtifactSetRecord → ArtifactFileInsert → Result PublicationError Text
    check_stored r file = do
      key ← generator_publication_object_key calls p target
      is_presentation (same_presentation r.metadata_json presentation_of)
      result ← or_invalid_result (parse_result file.metadata_json)
      or_invalid_result (validate_against_request hash_invocation result p.invocation)
      output ← output_of result.output
      ensure (declares key file result output) declarations_mismatch
      ok key

    unfoldable pub conclude_stored :
        ArtifactSetRecord
        → Text
        → Checked
        → Artifacts
        → Artifacts × Result PublicationError (Option Text)
    unfolding record_verification_failure
    conclude_stored r key (err e) s = (
      record_verification_failure w.finished_at r.artifact_set_hash
          (ready_revision r.status r.updated_at) s,
      err e,
    )
    conclude_stored r key (ok _) s = completion (some key) key s

    unfoldable pub reconcile_loaded :
        Artifacts → Loaded → Artifacts × Result PublicationError (Option Text)
    unfolding check_stored conclude_stored
    reconcile_loaded s none = (s, ok none)
    reconcile_loaded s (some (r, file)) = rolled_back s (check_stored r file) (λ key.
        conclude_stored r key
          (or_stored_verification (
            verify_exact_object sha256_hex w.head w.get key file.content_type file.byte_len
              file.sha256))
          (w.meanwhile s))

    unfoldable pub reconcile_generator_artifact :
        Artifacts → Artifacts × Result PublicationError (Option Text)
    unfolding reconcile_loaded
    reconcile_generator_artifact s =
        rolled_back s
          (validate_deployment calls g p target
            >> or_database (
                load_generator_artifact recipes (prepared_of p) target.output_kind target.format s))
          (reconcile_loaded s)
