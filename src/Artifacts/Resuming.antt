-- ===== src/Artifacts/Resuming.antt =====
-- `stage_or_resume_generator_artifact`: a generator's set is staged once; an equal retry finds it and
-- changes nothing. The recipe's own tables are written by `insert_generator_processing_recipe`, a parameter.
use onshape_export.Base.{
  ℕ, Text, text, text_eq, optional_text_eq, Bool, ◌&&◌, Option, none, some, List, [], ◌∷◌, ◌++◌,
  ◌==◌, ltb, leb, any, is_none, Result, ok, err, ensure, ◌>>=◌, ◌>>◌, if◌then◌else◌,
}
use onshape_export.Artifacts.{
  ArtifactStatus, staged, ArtifactSetRecord, ArtifactFileInsert, ArtifactMetadata, Artifacts,
  DatabaseError, generator_artifact_conflict, has_hash,
}
use onshape_export.Artifacts.Staging.{insert_files}
use onshape_export.Artifacts.Generated.{
  Recipes, Prepared, Loaded, valid_generator_sha256, valid_generator_logical_path, is_text,
  load_generator_artifact,
}

pub record GeneratorArtifactStage : Type 0 where
  pub model_slug : Text
  pub output_kind : Text
  pub format : Text
  pub object_key : Text
  pub content_type : Text
  pub byte_len : ℕ
  pub sha256 : Text
  pub producing_job_key : Option Text
  pub parameter_schema_version : ℕ
  pub config_values_json : Text

pub record GeneratorArtifactFileInsert : Type 0 where
  pub role : Text
  pub logical_path : Text
  pub original_path : Option Text
  pub object_key : Text
  pub content_type : Text
  pub byte_len : ℕ
  pub sha256 : Text
  pub metadata_json : Text

pub record GeneratorArtifactState : Type 0 where
  pub artifact_set_hash : Text
  pub status : ArtifactStatus
  pub updated_at : ℕ

abbrev pub one_file :
    List GeneratorArtifactFileInsert → Result DatabaseError GeneratorArtifactFileInsert
one_file (f ∷ []) = ok f
one_file _ = err generator_artifact_conflict

-- The conditions on the one file, negated.
abbrev pub fits_stage : Prepared → GeneratorArtifactStage → GeneratorArtifactFileInsert → Bool
fits_stage prepared a f =
    text_eq f.object_key a.object_key
    && (text_eq f.content_type a.content_type
        && (f.byte_len == a.byte_len
            && (text_eq f.sha256 a.sha256
                && (text_eq f.role (text "generated_project")
                    && (is_none f.original_path
                        && (valid_generator_logical_path f.logical_path
                            && (text_eq f.content_type prepared.media_type
                                && (ltb 0 f.byte_len
                                    && (valid_generator_sha256 f.sha256
                                        && leb f.byte_len prepared.max_byte_length)))))))))

abbrev pub stage_metadata : GeneratorArtifactStage → ArtifactMetadata
stage_metadata a = record {
  model_slug = a.model_slug;
  producing_job_key = a.producing_job_key;
  parameter_schema_version = some a.parameter_schema_version;
  config_values_json = some a.config_values_json;
}

-- The row of the file under the set's hash.
abbrev pub stored_file : Text → GeneratorArtifactFileInsert → ArtifactFileInsert
stored_file hash f = record {
  artifact_set_hash = hash;
  role = f.role;
  logical_path = f.logical_path;
  original_path = f.original_path;
  object_key = f.object_key;
  content_type = f.content_type;
  byte_len = f.byte_len;
  sha256 = f.sha256;
  metadata_json = f.metadata_json;
}

-- `stored != GeneratorArtifactStoredFile { .. }`, negated.
abbrev pub same_file : ArtifactFileInsert → GeneratorArtifactFileInsert → Bool
same_file stored f =
    text_eq stored.role f.role
    && (text_eq stored.logical_path f.logical_path
        && (optional_text_eq stored.original_path f.original_path
            && (text_eq stored.object_key f.object_key
                && (text_eq stored.content_type f.content_type
                    && (stored.byte_len == f.byte_len
                        && (text_eq stored.sha256 f.sha256
                            && text_eq stored.metadata_json f.metadata_json))))))

-- The row that INSERT makes.
abbrev pub generator_set :
    ℕ → Prepared → GeneratorArtifactStage → Text → Text → Text → ArtifactSetRecord
generator_set now prepared a options hash metadata = record {
  artifact_set_hash = hash;
  source_hash = prepared.source_identity;
  config_hash = prepared.configuration_identity;
  options_hash = options;
  request_hash = none;
  raw_payload_hash = none;
  postprocess_hash = some prepared.processing_hash;
  generator_processing_hash = some prepared.processing_hash;
  output_kind = a.output_kind;
  format = a.format;
  status = staged;
  primary_object_key = some a.object_key;
  metadata_json = metadata;
  created_at = now;
  updated_at = now;
  superseded_at = none;
  superseded_by = none;
  supersession_reason = none;
}

-- INSERT ... ON CONFLICT DO NOTHING, and the file when the row was inserted.
unfoldable pub insert_generator_set :
    ArtifactSetRecord → ArtifactFileInsert → Artifacts → Result DatabaseError Artifacts
insert_generator_set row file s =
    if any (has_hash row.artifact_set_hash) s.sets
    then ok s
    else insert_files (file ∷ []) s.files >>= λ files.
        ok (record { sets = s.sets ++ row ∷ []; files = files })

-- The comparison of the row and the file that were read with those that were offered.
unfoldable pub resume_loaded :
    GeneratorArtifactStage
    → GeneratorArtifactFileInsert
    → Text
    → Text
    → Artifacts
    → Loaded
    → Result DatabaseError (Artifacts × GeneratorArtifactState)
resume_loaded a f hash metadata s none = err generator_artifact_conflict
resume_loaded a f hash metadata s (some (r, stored)) = do
  ensure
      (is_text a.object_key r.primary_object_key
        && (text_eq r.metadata_json metadata && same_file stored f))
      generator_artifact_conflict
  ok (s, record { artifact_set_hash = hash; status = r.status; updated_at = r.updated_at })

module _ (to_string : ArtifactMetadata → Text) (recipes : Recipes) where
  open recipes use {
    generator_options_hash, generator_artifact_set_hash, insert_generator_processing_recipe,
  }

  -- The transaction, once the hashes are known.
  unfoldable pub stage_hashed :
      ℕ
      → Prepared
      → GeneratorArtifactStage
      → GeneratorArtifactFileInsert
      → Text
      → Text
      → Artifacts
      → Result DatabaseError (Artifacts × GeneratorArtifactState)
  unfolding insert_generator_set load_generator_artifact resume_loaded
  stage_hashed now prepared a f options hash s = do
    let metadata = to_string (stage_metadata a)
    s' ←
        insert_generator_set (generator_set now prepared a options hash metadata)
          (stored_file hash f) s
    loaded ← load_generator_artifact recipes prepared a.output_kind a.format s'
    resume_loaded a f hash metadata s' loaded

  unfoldable pub stage_or_resume_generator_artifact :
      ℕ
      → Prepared
      → GeneratorArtifactStage
      → List GeneratorArtifactFileInsert
      → Artifacts
      → Result DatabaseError (Artifacts × GeneratorArtifactState)
  unfolding stage_hashed
  stage_or_resume_generator_artifact now prepared a files s = do
    ensure prepared.is_supported generator_artifact_conflict
    f ← one_file files
    ensure (fits_stage prepared a f) generator_artifact_conflict
    insert_generator_processing_recipe prepared
    options ← generator_options_hash prepared a.format
    hash ← generator_artifact_set_hash prepared a.output_kind a.format
    stage_hashed now prepared a f options hash s
