-- ===== src/Artifacts/Operations.antt =====
-- The statements and transactions on artifact sets as one type, and a history of them. A transaction
-- that fails is rolled back: the tables stay.
use onshape_export.Base.{ℕ, Text, Option, List, [], ◌∷◌, Result, ok, err, Distinct, HasUniqueKeys}
use onshape_export.Artifacts.{
  ArtifactStatus, ArtifactSetRecord, ArtifactFileInsert, ArtifactUpsert, ArtifactMetadata,
  Artifacts, DatabaseError, mark_artifact_set_ready, transition_artifact_set_status,
  supersede_artifact_set, supersede_ready_artifacts_for_output,
}
use onshape_export.Artifacts.Staging.{stage_artifact_inner, stage_artifact, clashes}
use onshape_export.Artifacts.Resuming.{
  GeneratorArtifactStage, GeneratorArtifactFileInsert, stage_or_resume_generator_artifact,
}
use onshape_export.Artifacts.Generated.{
  Recipes, Prepared, fail_generator_artifact, fail_ready_generator_verification,
  complete_generator_artifact,
}

pub data Operation : Type 0 where
  stage stage_any : ArtifactUpsert → List ArtifactFileInsert → Operation
  mark_ready : Text → Text → Operation
  transition : Text → ArtifactStatus → Operation
  supersede : Text → Option Text → Option Text → Operation
  supersede_output : Text → Text → Text → Text → Text → Option Text → Operation
  fail_pending : Text → Operation
  fail_ready : Text → ℕ → Operation
  complete : Prepared → Text → Text → Text → Operation
  resume : Prepared → GeneratorArtifactStage → List GeneratorArtifactFileInsert → Operation

-- The primary key of `artifact_sets`, and the two unique indexes of `artifact_files`.
pub record IsValid (s : Artifacts) : Type 0 where
  pub sets : HasUniqueKeys (λ (r : ArtifactSetRecord). r.artifact_set_hash) s.sets
  pub files : Distinct clashes s.files

abbrev pub or_rolled_back : Artifacts → Result DatabaseError Artifacts → Artifacts
or_rolled_back s (ok s') = s'
or_rolled_back s (err e) = s

abbrev pub completed_or_rolled_back :
    {A : Type 0} → Artifacts → Result DatabaseError (Artifacts × A) → Artifacts
completed_or_rolled_back s (ok (s', _)) = s'
completed_or_rolled_back s (err e) = s

module _ (to_string : ArtifactMetadata → Text) (recipes : Recipes) where
  unfoldable pub run : ℕ → Operation → Artifacts → Artifacts
  unfolding mark_artifact_set_ready transition_artifact_set_status supersede_artifact_set
      supersede_ready_artifacts_for_output stage_artifact stage_artifact_inner
      fail_generator_artifact fail_ready_generator_verification complete_generator_artifact
      stage_or_resume_generator_artifact
  run now (stage a files) s = or_rolled_back s (stage_artifact to_string now a files s)
  run now (stage_any a files) s = or_rolled_back s (stage_artifact_inner to_string now a files s)
  run now (mark_ready hash key) s = (mark_artifact_set_ready now hash key s).0
  run now (transition hash status) s = (transition_artifact_set_status now hash status s).0
  run now (supersede hash by reason) s = (supersede_artifact_set now hash by reason s).0
  run now (supersede_output source config options kind retained reason) s =
      (supersede_ready_artifacts_for_output now source config options kind retained reason s).0
  run now (fail_pending hash) s = (fail_generator_artifact now hash s).0
  run now (fail_ready hash expected) s = (fail_ready_generator_verification now hash expected s).0
  run now (complete prepared kind format key) s =
      completed_or_rolled_back s
        (complete_generator_artifact recipes now prepared kind format key s)
  run now (resume prepared a files) s =
      completed_or_rolled_back s
        (stage_or_resume_generator_artifact to_string recipes now prepared a files s)

  unfoldable pub history : List (ℕ × Operation) → Artifacts → Artifacts
  unfolding run
  history [] s = s
  history ((now, o) ∷ rest) s = history rest (run now o s)
