-- ===== src/Artifacts/Immutable.antt =====
-- Over any history, a set that a generator made keeps its identity and its files.
use onshape_export.Base.{ℕ, ◌≡◌, refl, Text, false, is_none, List, [], ◌∷◌, All}
use onshape_export.Artifacts.{
  ArtifactSetRecord, ArtifactFileInsert, ArtifactMetadata, Artifacts, mark_artifact_set_ready,
  transition_artifact_set_status, supersede_artifact_set, supersede_ready_artifacts_for_output,
}
use onshape_export.Artifacts.Staging.{stage_artifact}
use onshape_export.Artifacts.Generated.{
  Recipes, fail_generator_artifact, fail_ready_generator_verification, make_ready,
}
use onshape_export.Artifacts.Operations.{
  Operation, IsValid, run, history, stage, stage_any, mark_ready, transition, supersede,
  supersede_output, fail_pending, fail_ready, complete, resume,
}
use onshape_export.Artifacts.Frozen.{Keeps, OwnFiles, update-Keeps, staged-Keeps}
use onshape_export.Artifacts.Inserted.{resumed_cases, IsInserted-Keeps}
use onshape_export.Artifacts.Uniqueness.{guarded, completed_cases, run-IsValid}

-- Files that are staged with a set name that set.
abbrev pub StagesOwn : Operation → Type 0
StagesOwn (stage a files) = OwnFiles a files
StagesOwn (stage_any a files) = OwnFiles a files
StagesOwn _ = Unit

module _ (to_string : ArtifactMetadata → Text) (recipes : Recipes) (hash : Text)
    (r : ArtifactSetRecord) (files : List ArtifactFileInsert)
    (made : is_none r.generator_processing_hash ≡ false) where
  make_ready-Keeps :
      (now : ℕ) (h kind : Text) (x : ArtifactSetRecord) (s : Artifacts)
      → Keeps hash r files s
      → Keeps hash r files (make_ready now h kind x s)
  unfolding make_ready
  make_ready-Keeps now h kind x s k =
      update-Keeps hash r files _ _ (λ y. refl) _ (update-Keeps hash r files _ _ (λ y. refl) s k)

  run-Keeps :
      (now : ℕ) (o : Operation) (s : Artifacts)
      → StagesOwn o
      → IsValid s
      → Keeps hash r files s
      → Keeps hash r files (run to_string recipes now o s)
  unfolding run mark_artifact_set_ready transition_artifact_set_status supersede_artifact_set
      supersede_ready_artifacts_for_output fail_generator_artifact fail_ready_generator_verification
  run-Keeps now (stage a new) s own v k =
      unfold stage_artifact in
      guarded (Keeps hash r files) (is_none a.generator_processing_hash) _ s _ k
        (staged-Keeps hash r files made to_string now a new s own v k _ refl)
  run-Keeps now (stage_any a new) s own v k =
      staged-Keeps hash r files made to_string now a new s own v k _ refl
  run-Keeps now (mark_ready h key) s own v k = update-Keeps hash r files _ _ (λ x. refl) s k
  run-Keeps now (transition h status) s own v k = update-Keeps hash r files _ _ (λ x. refl) s k
  run-Keeps now (supersede h by reason) s own v k = update-Keeps hash r files _ _ (λ x. refl) s k
  run-Keeps now (supersede_output source config options kind retained reason) s own v k =
      update-Keeps hash r files _ _ (λ x. refl) s k
  run-Keeps now (fail_pending h) s own v k = update-Keeps hash r files _ _ (λ x. refl) s k
  run-Keeps now (fail_ready h expected) s own v k = update-Keeps hash r files _ _ (λ x. refl) s k
  run-Keeps now (complete prepared kind format key) s own v k =
      completed_cases to_string recipes (Keeps hash r files) now prepared kind format key s _ refl k
        (λ h x. make_ready-Keeps now h kind x s k)
  run-Keeps now (resume prepared a new) s own v k =
      resumed_cases to_string recipes (Keeps hash r files) now prepared a new s _ refl k
        (λ row file s' added. IsInserted-Keeps hash r files row file s s' added k)

  -- From tables with unique keys, in which a set made by a generator stands under a hash with some
  -- files, any sequence of operations ends with unique keys and with that set still under its hash,
  -- its identity columns, metadata, creation time, and files unchanged; only its status, object
  -- key, update time, and supersession may differ. The files that a staging brings are those of its own set.
  pub history-Keeps :
      (operations : List (ℕ × Operation)) (s : Artifacts)
      → All (λ (e : ℕ × Operation). StagesOwn e.1) operations
      → IsValid s
      → Keeps hash r files s
      → IsValid (history to_string recipes operations s)
        × Keeps hash r files (history to_string recipes operations s)
  unfolding history
  history-Keeps [] s own v k = (v, k)
  history-Keeps ((now, o) ∷ rest) s own v k =
      history-Keeps rest _ own.1 (run-IsValid to_string recipes now o s v)
        (run-Keeps now o s own.0 v k)
