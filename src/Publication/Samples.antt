-- ===== src/Publication/Samples.antt =====
-- Sample values of a publication: the calls, the worlds, and the tables.
use onshape_export.Base.{
  ℕ, Text, text, text_eq, Bool, true, Option, none, some, List, [], ◌∷◌, Result, ok, err,
}
use onshape_export.Protocol.{ProtocolError}
use onshape_export.Protocol.Samples.{digest, hash_json, request, answer}
use onshape_export.Protocol.Documents.{GeneratorResult, GeneratedOutput, generated_project}
use onshape_export.Storage.{StorageError, pos, request_failed, HeadObjectOutput, GetObjectOutput}
use onshape_export.Artifacts.{ArtifactMetadata, Artifacts, DatabaseError, staged}
use onshape_export.Artifacts.Generated.{Prepared}
use onshape_export.Artifacts.Resuming.{GeneratorArtifactState}
use onshape_export.Deployment.{DeployedGenerator}
use onshape_export.Publication.{
  Calls, GeneratorPublicationTarget, PreparedGeneratorProcessing, VerifiedGeneratorOutput,
  MeasuredCandidate,
}
use onshape_export.Publication.Steps.{World, closed}

abbrev pub to_string : ArtifactMetadata → Text
to_string m = m.model_slug

abbrev pub result_to_string : GeneratorResult → Text
result_to_string r = text "{}"

abbrev pub is_object : Text → Option Bool
is_object json = some true

abbrev pub options_hash_of : Prepared → Text → Result DatabaseError Text
options_hash_of p format = ok (text "options")

abbrev pub set_hash_of : Prepared → Text → Text → Result DatabaseError Text
set_hash_of p kind format = ok (text "set")

abbrev pub recipe_is_there : Prepared → Result DatabaseError (Unit {0})
recipe_is_there p = ok tt

-- Stands for SHA-256.
abbrev pub sha256_hex : List ℕ → Text
sha256_hex content = digest

abbrev pub calls : Calls
calls = record {
  to_string = to_string;
  result_to_string = result_to_string;
  json_is_object = is_object;
  recipes = record {
    generator_options_hash = options_hash_of;
    generator_artifact_set_hash = set_hash_of;
    verify_persisted_generator_recipe = recipe_is_there;
    insert_generator_processing_recipe = recipe_is_there;
  };
  hash_invocation = hash_json;
  sha256_hex = sha256_hex;
}

abbrev pub output : GeneratedOutput
output = record {
  output_identity = text "project";
  role = generated_project;
  path = text "outputs/project.3mf";
  media_type = text "model/3mf";
  byte_length = 3;
  sha256 = digest;
}

abbrev pub accepted : VerifiedGeneratorOutput
accepted = record {
  processing_hash = text "recipe";
  invocation_identity = digest;
  result = record answer { output = some output };
  reads = ok (text "a") ∷ ok (text "bc") ∷ [];
}

abbrev pub deployed : DeployedGenerator
deployed = record {
  document = record {
    executable_path = text "/opt/generator";
    package_identity = text "package";
    package_sha256 = digest;
    build_identity = text "build";
    binary_identity = text "binary";
    binary_sha256 = digest;
    protocol_version = 1;
    dialect_identity = text "dialect";
    capability_identities = text "a" ∷ text "b" ∷ [];
    input_kind_identity = text "kind";
    input_schema_identity = text "schema";
    settings_schema_identity = text "settings-schema";
    provenance_set_identity = text "provenance";
    normalization_identity = text "normalization";
    validation_identity = text "validation";
  };
  static_identity = digest;
}

abbrev pub processing : PreparedGeneratorProcessing
processing = record {
  processing_hash = text "recipe";
  is_supported = true;
  source_identity = text "source";
  configuration_identity = text "config";
  deployed_generator_identity = digest;
  compatibility = record {
    protocol_version = 1;
    dialect_identity = text "dialect";
    capability_identities = text "a" ∷ text "b" ∷ [];
    input_kind_identity = text "kind";
    input_schema_identity = text "schema";
    settings_schema_identity = text "settings-schema";
  };
  settings_identity = text "settings";
  invocation = request;
}

abbrev pub target : GeneratorPublicationTarget
target = record {
  model_slug = text "box";
  output_kind = text "slicer_project:dialect";
  format = text "project_3mf";
  logical_path = text "box.3mf";
  producing_job_key = none;
  parameter_schema_version = 1;
  config_values_json = text "{}";
}

abbrev pub heads : Text → Result StorageError HeadObjectOutput
heads key = ok (record { content_length = some (pos 3); content_type = some (text "model/3mf") })

abbrev pub gets : Text → Result StorageError GetObjectOutput
gets key = ok (record {
  content_length = some (pos 3);
  content_type = some (text "model/3mf");
  body = ok (text "abc") ∷ [];
})

abbrev pub world : World
world = record {
  staged_at = 1000;
  finished_at = 2000;
  meanwhile = λ s. s;
  put = λ key. ok tt;
  head = heads;
  get = gets;
  retention = ok tt;
  cleanup = closed;
}

abbrev pub failing_world : World
failing_world = record world { put = λ key. err request_failed }

abbrev pub empty_tables : Artifacts
empty_tables = record { sets = []; files = [] }

abbrev pub object_key : Text
object_key = text "artifacts/v2/set/box.3mf"

abbrev pub candidate : MeasuredCandidate
candidate = record { result = accepted.result; byte_len = 3; sha256 = digest }

abbrev pub staged_tables : Artifacts
staged_tables = record {
  sets =
      record {
        artifact_set_hash = text "set";
        source_hash = text "source";
        config_hash = text "config";
        options_hash = text "options";
        request_hash = none;
        raw_payload_hash = none;
        postprocess_hash = some (text "recipe");
        generator_processing_hash = some (text "recipe");
        output_kind = text "slicer_project:dialect";
        format = text "project_3mf";
        status = staged;
        primary_object_key = some object_key;
        metadata_json = text "box";
        created_at = 1000;
        updated_at = 1000;
        superseded_at = none;
        superseded_by = none;
        supersession_reason = none;
      }
      ∷ [];
  files =
      record {
        artifact_set_hash = text "set";
        role = text "generated_project";
        logical_path = text "box.3mf";
        original_path = none;
        object_key = object_key;
        content_type = text "model/3mf";
        byte_len = 3;
        sha256 = digest;
        metadata_json = text "{}";
      }
      ∷ [];
}

abbrev pub staged_state : GeneratorArtifactState
staged_state = record { artifact_set_hash = text "set"; status = staged; updated_at = 1000 }

abbrev pub same_presentation : Text → ArtifactMetadata → Option Bool
same_presentation json presentation = some (text_eq json (to_string presentation))

abbrev pub parse_result : Text → Result ProtocolError GeneratorResult
parse_result json = ok accepted.result
