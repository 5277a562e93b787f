-- ===== src/Artifacts/Tests.antt =====
-- Artifact sets of concrete tables.
use onshape_export.Base.{
  ◌≡◌, refl, Text, text, text_eq, optional_text_eq, bytes, utf8, true, false, some, [], ◌∷◌, arith,
  find_by, affected, update_where, ok, err,
}
use onshape_export.Artifacts.{Artifacts, immutable_artifact}
use onshape_export.Artifacts.Staging.{stage_artifact_inner, upsert_set, insert_files, staged_set}
use onshape_export.Artifacts.Generated.{
  load_generator_artifact, load_set, valid_generator_sha256, valid_generator_logical_path,
  complete_generator_artifact, fail_ready_generator_verification,
}
use onshape_export.Artifacts.Resuming.{
  GeneratorArtifactFileInsert, one_file, fits_stage, stored_file, generator_set,
  insert_generator_set, resume_loaded, stage_hashed, stage_or_resume_generator_artifact,
}
use onshape_export.Artifacts.Insertion.{IsInserted}
use onshape_export.Artifacts.Resumed.{
  IsResumed, stage_or_resume, stage_or_resume_generator_artifact-again,
  stage_or_resume_generator_artifact-IsResumed,
}
use onshape_export.Artifacts.Operations.{IsValid, history}
use onshape_export.Artifacts.Frozen.{Keeps}
use onshape_export.Artifacts.Restaged.{IsStaged, stage_artifact_inner-IsStaged}
use onshape_export.Artifacts.Immutable.{history-Keeps}
use onshape_export.Artifacts.Completion.{
  IsOnlyReady, complete_generator_artifact-IsOnlyReady, complete_generator_artifact-fences,
}
use onshape_export.Artifacts.Samples.{
  to_string, options_hash_of, set_hash_of, recipes, recipe, pending, project_file, tables,
  restaging, events, replacing, preview_file, replaced_tables, offer, offered_file, empty_tables,
  offered_tables, offered_state,
}

tables-IsValid : IsValid tables
unfolding text text_eq
tables-IsValid = record { sets = ((refl, tt), (tt, tt)); files = (tt, tt) }

tables-Keeps : Keeps (text "set") pending (project_file ∷ []) tables
unfolding text text_eq find_by
tables-Keeps = record { row = pending; here = refl; same = refl; stored = refl }

loads :
    load_generator_artifact recipes recipe (text "project") (text "3mf") tables
    ≡ ok (some (pending, project_file))
unfolding load_generator_artifact load_set text text_eq find_by bytes utf8 valid_generator_sha256
    valid_generator_logical_path
loads = refl

-- The generator's row refuses to be staged.
restaging_fails :
    stage_artifact_inner to_string 3000 restaging [] tables ≡ err (immutable_artifact (text "set"))
unfolding stage_artifact_inner upsert_set text text_eq affected
restaging_fails = refl

history-Keeps_example :
    IsValid (history to_string recipes events tables)
    × Keeps (text "set") pending (project_file ∷ []) (history to_string recipes events tables)
history-Keeps_example =
    history-Keeps to_string recipes (text "set") pending (project_file ∷ []) refl events tables
      (tt, (tt, (tt, tt))) tables-IsValid tables-Keeps

complete_generator_artifact-IsOnlyReady_example :
    (s' : Artifacts) × (complete_generator_artifact recipes 4000 recipe
        (text "project")
        (text "3mf")
        (text "objects/a")
        tables
      ≡ ok (s', true))
    × IsOnlyReady 4000 (text "set") (text "project") pending s'
complete_generator_artifact-IsOnlyReady_example =
    complete_generator_artifact-IsOnlyReady recipes recipe (text "project") (text "3mf")
      (text "set") refl 4000 tables pending project_file loads refl

complete_generator_artifact-fences_example :
    (s' : Artifacts) × (complete_generator_artifact recipes 2000 recipe
        (text "project")
        (text "3mf")
        (text "objects/a")
        tables
      ≡ ok (s', true))
    × (fail_ready_generator_verification 6000 (text "set") 2000 s' ≡ (s', false))
complete_generator_artifact-fences_example =
    complete_generator_artifact-fences recipes recipe (text "project") (text "3mf") (text "set")
      refl 2000 6000 2000 tables pending project_file tables-IsValid loads refl (omega arith)

replacing_succeeds :
    stage_artifact_inner to_string 3000 replacing (preview_file ∷ []) tables ≡ ok replaced_tables
unfolding stage_artifact_inner upsert_set insert_files text text_eq affected update_where
replacing_succeeds = refl

stage_artifact_inner-IsStaged_example :
    IsStaged (staged_set to_string 3000 replacing) (preview_file ∷ []) tables replaced_tables
stage_artifact_inner-IsStaged_example =
    stage_artifact_inner-IsStaged to_string 3000 replacing (preview_file ∷ []) tables
      replaced_tables tables-IsValid (refl, tt) replacing_succeeds

offer_succeeds :
    stage_or_resume to_string recipes 3000 recipe offer (offered_file ∷ []) empty_tables
    ≡ ok (offered_tables, offered_state)
unfolding stage_or_resume_generator_artifact stage_hashed insert_generator_set insert_files
    resume_loaded load_generator_artifact load_set text text_eq optional_text_eq find_by bytes utf8
    valid_generator_sha256 valid_generator_logical_path
offer_succeeds = refl

stage_or_resume_generator_artifact-again_example :
    stage_or_resume to_string recipes 9000 recipe offer (offered_file ∷ []) offered_tables
    ≡ ok (offered_tables, offered_state)
stage_or_resume_generator_artifact-again_example =
    stage_or_resume_generator_artifact-again to_string recipes 3000 9000 recipe offer
      (offered_file ∷ []) empty_tables offered_tables offered_state offer_succeeds

stage_or_resume_generator_artifact-IsResumed_example :
    (f : GeneratorArtifactFileInsert) × (options : Text) × (hash : Text) × (one_file
        (offered_file ∷ [])
      ≡ ok f)
    × (fits_stage recipe offer f ≡ true)
    × (options_hash_of recipe (text "3mf") ≡ ok options)
    × (set_hash_of recipe (text "project") (text "3mf") ≡ ok hash)
    × IsInserted
        (generator_set 3000 recipe offer options hash (text "box"))
        (stored_file hash f)
        empty_tables
        offered_tables
    × IsResumed recipe offer f options hash (text "box") offered_tables offered_state
stage_or_resume_generator_artifact-IsResumed_example =
    stage_or_resume_generator_artifact-IsResumed to_string recipes 3000 recipe offer
      (offered_file ∷ []) empty_tables offered_tables offered_state offer_succeeds
