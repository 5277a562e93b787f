-- ===== src/Publication.antt =====
-- The publication of an accepted generator output, src/generator_publication.rs: what is checked
-- before anything is stored, and the measured copy of the accepted bytes.
pub mod Steps
pub mod Retained
pub mod Published
pub mod Withdrawn
pub mod Reconciled
pub mod Samples
mod Tests
use onshape_export.Base.{
  ℕ, ◌+◌, ◌-◌, ◌^◌, Text, text, text_eq, bytes, len, is_ascii_alphanumeric, Bool, true, false, not,
  ◌&&◌, ◌||◌, Option, none, some, List, [], ◌∷◌, ◌++◌, ◌==◌, ltb, leb, length, all, is_empty,
  Result, ok, err, ensure, for_each, ◌>>=◌, ◌>>◌, if◌then◌else◌,
}
use onshape_export.Protocol.{ProtocolError}
use onshape_export.Protocol.Documents.{
  InvocationIdentityPayload, GeneratorRequest, GeneratorResult, GeneratedOutput, ResultStatus,
  success, failure, bindings_eq, validate_against_request,
}
use onshape_export.Storage.{StorageError}
use onshape_export.Artifacts.{ArtifactMetadata, DatabaseError}
use onshape_export.Artifacts.Generated.{Recipes, Prepared}
use onshape_export.Deployment.{
  DeployedGenerator, GeneratorCompatibilityRequest, DeployedGeneratorError, IoError,
  ensure_compatible, identity_bindings,
}

pub record GeneratorPublicationTarget : Type 0 where
  pub model_slug : Text
  pub output_kind : Text
  pub format : Text
  pub logical_path : Text
  pub producing_job_key : Option Text
  pub parameter_schema_version : ℕ
  pub config_values_json : Text

-- `PreparedGeneratorProcessing`: what the database and a publication read of it and of its recipe.
pub record PreparedGeneratorProcessing : Type 0 where
  pub processing_hash : Text
  pub is_supported : Bool
  pub source_identity : Text
  pub configuration_identity : Text
  pub deployed_generator_identity : Text
  pub compatibility : GeneratorCompatibilityRequest
  pub settings_identity : Text
  pub invocation : GeneratorRequest

-- What the database reads: the media type and the bound of the output are those of the invocation.
abbrev pub prepared_of : PreparedGeneratorProcessing → Prepared
prepared_of p = record {
  processing_hash = p.processing_hash;
  is_supported = p.is_supported;
  source_identity = p.source_identity;
  configuration_identity = p.configuration_identity;
  media_type = p.invocation.output.media_type;
  max_byte_length = p.invocation.output.max_byte_length;
}

-- The runner's sealed output: the reads of its bytes, each with its error.
pub record VerifiedGeneratorOutput : Type 0 where
  pub processing_hash : Text
  pub invocation_identity : Text
  pub result : GeneratorResult
  pub reads : List (Result IoError (List ℕ))

pub data PublicationError : Type 0 where
  wrong_output unsafe_presentation invalid_schema_version : PublicationError
  invalid_metadata metadata_not_object : PublicationError
  unsupported_deployment bindings_mismatch : PublicationError
  incompatible : DeployedGeneratorError → PublicationError
  different_invocation not_successful output_absent length_out_of_bounds : PublicationError
  invalid_result : ProtocolError → PublicationError
  retention_failed candidate_too_long candidate_unreadable candidate_mismatch : PublicationError
  upload storage_verification stored_verification : StorageError → PublicationError
  cleanup_failed cleanup_task_failed superseded_before : PublicationError
  presentation_mismatch declarations_mismatch : PublicationError
  database : DatabaseError → PublicationError

-- What the code calls outside itself: serde_json, SHA-256, and the hashes and the recipe's rows of the
-- database.
pub record Calls : Type 0 where
  pub to_string : ArtifactMetadata → Text
  pub result_to_string : GeneratorResult → Text
  pub json_is_object : Text → Option Bool
  pub recipes : Recipes
  pub hash_invocation : InvocationIdentityPayload → Result ProtocolError Text
  pub sha256_hex : List ℕ → Text

abbrev pub Checked : Type 0
Checked = Result PublicationError (Unit {0})

abbrev pub or_incompatible : Result DeployedGeneratorError (Unit {0}) → Checked
or_incompatible (ok _) = ok tt
or_incompatible (err e) = err (incompatible e)

abbrev pub or_invalid_result : {A : Type 0} → Result ProtocolError A → Result PublicationError A
or_invalid_result (ok a) = ok a
or_invalid_result (err e) = err (invalid_result e)

abbrev pub or_database : {A : Type 0} → Result DatabaseError A → Result PublicationError A
or_database (ok a) = ok a
or_database (err e) = err (database e)

-- A segment that names neither a directory nor a path.
unfoldable pub is_presentable : Text → Bool
is_presentable value =
    not (is_empty value)
    && (leb (len value) 255
        && (not (text_eq value (text "."))
            && (not (text_eq value (text ".."))
                && all (λ b. is_ascii_alphanumeric b || (b == b'-' || (b == b'_' || b == b'.')))
                    (bytes value))))

abbrev pub is_object_metadata : Option Bool → Checked
is_object_metadata none = err invalid_metadata
is_object_metadata (some is_object) = ensure is_object metadata_not_object

-- `i64::try_from`
abbrev pub fits_i64 : ℕ → Bool
fits_i64 n = ltb n (2 ^ 63)

pub record MeasuringWriter : Type 0 where
  pub count : ℕ
  pub hashed : List ℕ

pub record MeasuredCandidate : Type 0 where
  pub result : GeneratorResult
  pub byte_len : ℕ
  pub sha256 : Text

-- `write_all` of a block through the writer, whose limit is the declared length.
unfoldable pub write : ℕ → MeasuringWriter → List ℕ → Result PublicationError MeasuringWriter
write limit w block = do
  ensure (leb (length block) (limit - w.count)) candidate_too_long
  ok (record { count = w.count + length block; hashed = w.hashed ++ block })

-- `std::io::copy` of the sealed bytes.
unfoldable pub copy :
    ℕ → MeasuringWriter → List (Result IoError (List ℕ)) → Result PublicationError MeasuringWriter
unfolding write
copy limit w [] = ok w
copy limit w (err e ∷ reads) = err candidate_unreadable
copy limit w (ok block ∷ reads) = do w' ← write limit w block; copy limit w' reads

abbrev pub output_of : Option GeneratedOutput → Result PublicationError GeneratedOutput
output_of none = err output_absent
output_of (some o) = ok o

abbrev pub is_success : ResultStatus → Bool
is_success success = true
is_success failure = false

module _ (calls : Calls) where
  open calls use {json_is_object, hash_invocation, sha256_hex, recipes}

  unfoldable pub validate_target :
      PreparedGeneratorProcessing → GeneratorPublicationTarget → Checked
  unfolding is_presentable
  validate_target p target = do
    ensure
        (text_eq target.output_kind (text "slicer_project:" ++ p.compatibility.dialect_identity)
          && text_eq target.format (text "project_3mf"))
        wrong_output
    for_each (λ value. ensure (is_presentable value) unsafe_presentation)
        (target.logical_path ∷ target.model_slug ∷ [])
    ensure (ltb 0 target.parameter_schema_version) invalid_schema_version
    is_object_metadata (json_is_object target.config_values_json)

  unfoldable pub validate_deployment :
      DeployedGenerator → PreparedGeneratorProcessing → GeneratorPublicationTarget → Checked
  unfolding validate_target
  validate_deployment g p target = do
    validate_target p target
    ensure (text_eq p.deployed_generator_identity g.static_identity && p.is_supported)
        unsupported_deployment
    or_incompatible (ensure_compatible g p.compatibility)
    ensure (bindings_eq p.invocation.expected_identities (identity_bindings g p.settings_identity))
        bindings_mismatch

  unfoldable pub generator_publication_object_key :
      PreparedGeneratorProcessing → GeneratorPublicationTarget → Result PublicationError Text
  unfolding validate_target
  generator_publication_object_key p target = do
    validate_target p target
    hash ←
        or_database
          (recipes.generator_artifact_set_hash (prepared_of p) target.output_kind target.format)
    ok (text "artifacts/v2/" ++ (hash ++ b'/' ∷ target.logical_path))

  -- `retention` is what becomes of the private file: its directory, its creation, flush, and sync.
  unfoldable pub retain_candidate :
      Checked
      → VerifiedGeneratorOutput
      → PreparedGeneratorProcessing
      → Result PublicationError MeasuredCandidate
  unfolding copy
  retain_candidate retention output p = do
    ensure
        (text_eq output.processing_hash p.processing_hash
          && text_eq output.invocation_identity p.invocation.invocation_identity)
        different_invocation
    ensure (is_success output.result.status) not_successful
    or_invalid_result (validate_against_request hash_invocation output.result p.invocation)
    declaration ← output_of output.result.output
    ensure (fits_i64 declaration.byte_length) length_out_of_bounds
    retention
    w ← copy declaration.byte_length (record { count = 0; hashed = [] }) output.reads
    ensure (w.count == declaration.byte_length && text_eq (sha256_hex w.hashed) declaration.sha256)
        candidate_mismatch
    ok (record {
      result = output.result;
      byte_len = declaration.byte_length;
      sha256 = sha256_hex w.hashed;
    })
