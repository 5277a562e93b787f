-- ===== src/Artifacts/Staging.antt =====
-- `stage_artifact_inner` and `stage_artifact`: a set is written anew together with its files. The JSON
-- serializer of the metadata is third-party code, so it is a parameter.
use onshape_export.Base.{
  ℕ, Text, text_eq, Bool, not, ◌&&◌, ◌||◌, none, some, List, [], ◌∷◌, ◌++◌, ◌==◌, any, filter_by,
  is_none, affected, update_where, Result, ok, ensure, ◌>>=◌, ◌>>◌, if◌then◌else◌,
}
use onshape_export.Artifacts.{
  staged, ArtifactSetRecord, ArtifactFileInsert, ArtifactUpsert, ArtifactMetadata, Artifacts,
  DatabaseError, unprepared_generator_artifact, immutable_artifact, unique_violation, has_hash,
}

abbrev pub metadata_of : ArtifactUpsert → ArtifactMetadata
metadata_of a = record {
  model_slug = a.model_slug;
  producing_job_key = a.producing_job_key;
  parameter_schema_version = some a.parameter_schema_version;
  config_values_json = some a.config_values_json;
}

-- ON CONFLICT(artifact_set_hash) DO UPDATE ... WHERE: neither row is a generator's.
abbrev pub may_restage : ArtifactUpsert → ArtifactSetRecord → Bool
may_restage a r = is_none r.generator_processing_hash && is_none a.generator_processing_hash

abbrev pub of_set : Text → ArtifactFileInsert → Bool
of_set hash f = text_eq f.artifact_set_hash hash

-- UNIQUE (object_key), and the primary key of `artifact_files`.
abbrev pub clashes : ArtifactFileInsert → ArtifactFileInsert → Bool
clashes f g =
    text_eq f.object_key g.object_key
    || text_eq f.artifact_set_hash g.artifact_set_hash
      && (text_eq f.role g.role && text_eq f.logical_path g.logical_path)

unfoldable pub insert_files :
    List ArtifactFileInsert
    → List ArtifactFileInsert
    → Result DatabaseError (List ArtifactFileInsert)
insert_files [] stored = ok stored
insert_files (f ∷ files) stored = do
  ensure (not (any (λ g. clashes g f) stored)) unique_violation
  insert_files files (stored ++ f ∷ [])

module _ (to_string : ArtifactMetadata → Text) where
  -- The set after INSERT or the SET clause: they leave the same row behind.
  abbrev pub staged_set : ℕ → ArtifactUpsert → ArtifactSetRecord
  staged_set now a = record {
    artifact_set_hash = a.artifact_key;
    source_hash = a.source_hash;
    config_hash = a.config_hash;
    options_hash = a.options_hash;
    request_hash = a.request_hash;
    raw_payload_hash = a.raw_payload_hash;
    postprocess_hash = a.postprocess_hash;
    generator_processing_hash = a.generator_processing_hash;
    output_kind = a.output_kind;
    format = a.format;
    status = staged;
    primary_object_key = some a.object_key;
    metadata_json = to_string (metadata_of a);
    created_at = now;
    updated_at = now;
    superseded_at = none;
    superseded_by = none;
    supersession_reason = none;
  }

  abbrev pub restaged_set : ℕ → ArtifactUpsert → ArtifactSetRecord → ArtifactSetRecord
  restaged_set now a r = record (staged_set now a) { artifact_set_hash = r.artifact_set_hash }

  unfoldable pub upsert_set :
      ℕ → ArtifactUpsert → List ArtifactSetRecord → Result DatabaseError (List ArtifactSetRecord)
  upsert_set now a sets =
      if any (has_hash a.artifact_key) sets
      then ensure (not (affected (λ r. has_hash a.artifact_key r && may_restage a r) sets == 0))
          (immutable_artifact a.artifact_key)
        >> ok (
            update_where (λ r. has_hash a.artifact_key r && may_restage a r) (restaged_set now a)
              sets)
      else ok (sets ++ staged_set now a ∷ [])

  unfoldable pub stage_artifact_inner :
      ℕ → ArtifactUpsert → List ArtifactFileInsert → Artifacts → Result DatabaseError Artifacts
  unfolding upsert_set insert_files
  stage_artifact_inner now a files s = do
    sets ← upsert_set now a s.sets
    stored ← insert_files files (filter_by (λ f. not (of_set a.artifact_key f)) s.files)
    ok (record { sets = sets; files = stored })

  unfoldable pub stage_artifact :
      ℕ → ArtifactUpsert → List ArtifactFileInsert → Artifacts → Result DatabaseError Artifacts
  unfolding stage_artifact_inner
  stage_artifact now a files s = do
    ensure (is_none a.generator_processing_hash) unprepared_generator_artifact
    stage_artifact_inner now a files s
