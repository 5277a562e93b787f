-- ===== src/Artifacts/Samples.antt =====
-- Sample values: the calls, the recipe, sets and files.
use onshape_export.Base.{ℕ, Text, text, true, none, some, List, [], ◌∷◌, Result, ok}
use onshape_export.Artifacts.{
  staged, ready, upload_failed, ArtifactSetRecord, ArtifactFileInsert, ArtifactUpsert,
  ArtifactMetadata, Artifacts, DatabaseError,
}
use onshape_export.Artifacts.Staging.{staged_set}
use onshape_export.Artifacts.Generated.{Recipes, Prepared}
use onshape_export.Artifacts.Resuming.{
  GeneratorArtifactStage, GeneratorArtifactFileInsert, GeneratorArtifactState, generator_set,
}
use onshape_export.Artifacts.Operations.{Operation, stage, mark_ready, complete}

abbrev pub to_string : ArtifactMetadata → Text
to_string m = m.model_slug

abbrev pub options_hash_of : Prepared → Text → Result DatabaseError Text
options_hash_of p format = ok (text "options")

abbrev pub set_hash_of : Prepared → Text → Text → Result DatabaseError Text
set_hash_of p kind format = ok (text "set")

abbrev pub verify : Prepared → Result DatabaseError (Unit {0})
verify p = ok tt

abbrev pub record_recipe : Prepared → Result DatabaseError (Unit {0})
record_recipe p = ok tt

abbrev pub recipes : Recipes
recipes = record {
  generator_options_hash = options_hash_of;
  generator_artifact_set_hash = set_hash_of;
  verify_persisted_generator_recipe = verify;
  insert_generator_processing_recipe = record_recipe;
}

abbrev pub digest : Text
digest = text "00112233445566778899aabbccddeeff00112233445566778899aabbccddeeff"

abbrev pub recipe : Prepared
recipe = record {
  processing_hash = text "recipe";
  is_supported = true;
  source_identity = text "source";
  configuration_identity = text "config";
  media_type = text "model/3mf";
  max_byte_length = 100;
}

abbrev pub pending : ArtifactSetRecord
pending = record {
  artifact_set_hash = text "set";
  source_hash = text "source";
  config_hash = text "config";
  options_hash = text "options";
  request_hash = none;
  raw_payload_hash = none;
  postprocess_hash = some (text "recipe");
  generator_processing_hash = some (text "recipe");
  output_kind = text "project";
  format = text "3mf";
  status = upload_failed;
  primary_object_key = some (text "objects/a");
  metadata_json = text "{}";
  created_at = 1000;
  updated_at = 2000;
  superseded_at = none;
  superseded_by = none;
  supersession_reason = none;
}

abbrev pub older : ArtifactSetRecord
older = record pending {
  artifact_set_hash = text "older";
  generator_processing_hash = none;
  status = ready;
}

abbrev pub project_file : ArtifactFileInsert
project_file = record {
  artifact_set_hash = text "set";
  role = text "generated_project";
  logical_path = text "a.3mf";
  original_path = none;
  object_key = text "objects/a";
  content_type = text "model/3mf";
  byte_len = 10;
  sha256 = digest;
  metadata_json = text "{}";
}

abbrev pub tables : Artifacts
tables = record { sets = older ∷ pending ∷ []; files = project_file ∷ [] }

abbrev pub restaging : ArtifactUpsert
restaging = record {
  artifact_key = text "set";
  model_slug = text "box";
  config_hash = text "config";
  output_kind = text "preview";
  format = text "glb";
  object_key = text "objects/b";
  content_type = text "model/gltf-binary";
  byte_len = 5;
  sha256 = digest;
  producing_job_key = none;
  source_hash = text "source";
  options_hash = text "options";
  request_hash = none;
  raw_payload_hash = none;
  postprocess_hash = none;
  generator_processing_hash = none;
  parameter_schema_version = 1;
  config_values_json = text "{}";
}

abbrev pub events : List (ℕ × Operation)
events =
    (3000, stage restaging [])
    ∷ (4000, complete recipe (text "project") (text "3mf") (text "objects/a"))
    ∷ (5000, mark_ready (text "set") (text "objects/c"))
    ∷ []

abbrev pub replacing : ArtifactUpsert
replacing = record restaging { artifact_key = text "older" }

abbrev pub preview_file : ArtifactFileInsert
preview_file = record project_file {
  artifact_set_hash = text "older";
  role = text "preview";
  object_key = text "objects/b";
}

abbrev pub replaced_tables : Artifacts
replaced_tables = record {
  sets = staged_set to_string 3000 replacing ∷ pending ∷ [];
  files = project_file ∷ preview_file ∷ [];
}

abbrev pub offer : GeneratorArtifactStage
offer = record {
  model_slug = text "box";
  output_kind = text "project";
  format = text "3mf";
  object_key = text "objects/a";
  content_type = text "model/3mf";
  byte_len = 10;
  sha256 = digest;
  producing_job_key = none;
  parameter_schema_version = 1;
  config_values_json = text "{}";
}

abbrev pub offered_file : GeneratorArtifactFileInsert
offered_file = record {
  role = text "generated_project";
  logical_path = text "a.3mf";
  original_path = none;
  object_key = text "objects/a";
  content_type = text "model/3mf";
  byte_len = 10;
  sha256 = digest;
  metadata_json = text "{}";
}

abbrev pub empty_tables : Artifacts
empty_tables = record { sets = older ∷ []; files = [] }

abbrev pub offered_tables : Artifacts
offered_tables = record {
  sets = older ∷ generator_set 3000 recipe offer (text "options") (text "set") (text "box") ∷ [];
  files = project_file ∷ [];
}

abbrev pub offered_state : GeneratorArtifactState
offered_state = record { artifact_set_hash = text "set"; status = staged; updated_at = 3000 }
