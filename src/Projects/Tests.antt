-- ===== src/Projects/Tests.antt =====
-- Requests for projects, by example.
use onshape_export.Base.{
  ℕ, ◌≡◌, refl, Text, text, text_eq, bytes, utf8, find_by, update_where, true, none, some, List, [],
  ◌∷◌, Result, ok, err, inl, inr,
}
use onshape_export.Failure.{is_sha256, unavailable_source_state}
use onshape_export.Jobs.{empty}
use onshape_export.Jobs.View.{find_job, job}
use onshape_export.Artifacts.{DatabaseError}
use onshape_export.Artifacts.Generated.{Prepared, valid_generator_sha256}
use onshape_export.Projects.{
  BambuProjectRequest, Requests, find_request, recipe_association_conflict,
  bind_bambu_project_output,
}
use onshape_export.Projects.Kept.{Operation, request, bind_output, record_failure, IsValid, Keeps}
use onshape_export.Projects.Bound.{history, history-Keeps_request}
use onshape_export.Projects.Failures.{ProjectFailure, api_failure, invalid_output_association}
use onshape_export.Projects.Status.{failed_with, execute_job, ProjectStatus}
use onshape_export.Projects.Answers.{
  ProjectJob, StatusCalls, status, status_of, work_key, selectors_eq,
}
use onshape_export.Projects.Current.{IsCurrent}
use onshape_export.Deployment.{DeployedGenerator}
use onshape_export.Publication.Samples.{deployed}
use onshape_export.Selection.{part, selector_eq}
use onshape_export.Projects.Shown.{is_settled, ShowsFailure, execute_job-ShowsFailure}

abbrev recipe_is_there : Prepared → Result DatabaseError (Unit {0})
recipe_is_there p = ok tt

abbrev digest : Text
digest = text "00112233445566778899aabbccddeeff00112233445566778899aabbccddeeff"

abbrev recipe : Prepared
recipe = record {
  processing_hash = text "recipe";
  is_supported = true;
  source_identity = text "source";
  configuration_identity = text "config";
  media_type = text "model/3mf";
  max_byte_length = 100;
}

abbrev other_recipe : Prepared
other_recipe = record recipe { processing_hash = text "other" }

abbrev bound : BambuProjectRequest
bound = record {
  request_identity = text "a";
  request_json = text "{}";
  processing_hash = some (text "recipe");
  output_snapshot_identity = some digest;
  failure_category = none;
  failure_code = none;
  created_at = 1000;
  updated_at = 2000;
}

abbrev requests : Requests
requests = bound ∷ []

-- Another recipe is refused, and the same one is taken again.
refuses_other_recipe :
    bind_bambu_project_output recipe_is_there 3000
      (text "a")
      (text "{}")
      other_recipe
      digest
      requests
    ≡ err recipe_association_conflict
unfolding bind_bambu_project_output valid_generator_sha256 text text_eq bytes utf8 find_by
refuses_other_recipe = refl

takes_recipe_again :
    bind_bambu_project_output recipe_is_there 3000 (text "a") (text "{}") recipe digest requests
    ≡ ok (record bound { updated_at = 3000 } ∷ [])
unfolding bind_bambu_project_output valid_generator_sha256 text text_eq bytes utf8 find_by
    update_where
takes_recipe_again = refl

abbrev events : List (ℕ × Operation)
events =
    (3000, request (text "b") (text "[]"))
    ∷ (4000, bind_output (text "a") (text "{}") other_recipe digest)
    ∷ (5000, record_failure (text "a") (some (text "stale_request")) none)
    ∷ []

requests-IsValid : IsValid requests
requests-IsValid = record { unique = (tt, tt); paired = (refl, tt) }

found : find_by (λ (r : BambuProjectRequest). r.request_identity) (text "a") requests ≡ some bound
unfolding find_by text text_eq
found = refl

history-Keeps_request_example :
    IsValid (history recipe_is_there events requests)
    × Keeps (text "a") bound (history recipe_is_there events requests)
history-Keeps_request_example =
    history-Keeps_request recipe_is_there events (text "a") bound requests requests-IsValid
      (record { row = bound; found = found; json = refl; recipe = inr (refl, refl) })

abbrev outage : ProjectFailure
outage = api_failure unavailable_source_state

abbrev asked : ProjectJob
asked = record {
  model_slug = text "box";
  source_hash = text "source";
  values = [];
  selectors = part (text "lid") ∷ [];
  generator_static_identity = digest;
  policy_identity = text "policy";
  catalog_identity = text "entry";
  request_identity = digest;
}

abbrev asked_row : BambuProjectRequest
asked_row = record bound {
  request_identity = digest;
  processing_hash = none;
  output_snapshot_identity = none;
}

-- A model that still has what was asked for, while nothing has been made yet.
abbrev unchanged_calls : DeployedGenerator → StatusCalls
unchanged_calls g = record {
  slug = text "box";
  project_selectors = some (part (text "lid") ∷ []);
  public_base = none;
  from_record = λ json. some asked;
  catalog_identity = ok (text "entry");
  resolve_source_hash = ok (text "source");
  configured = some g;
  validate_profile = λ request generator. true;
  reopen_generator_processing = λ generator hash. none;
  validate_prepared = λ request generator prepared. ok tt;
  config_values_json = λ values. ok (text "{}");
  latest_ready_artifact_for_generator_recipe = λ lookup. ok none;
}

asked_row-IsCurrent : IsCurrent (unchanged_calls deployed) digest asked_row
unfolding invalid_output_association selectors_eq selector_eq text text_eq
asked_row-IsCurrent = record {
  request = asked;
  decoded = refl;
  own = refl;
  of_model = refl;
  associated = refl;
  selected = refl;
  same_catalog = refl;
  same_source = refl;
  generator = deployed;
  configured = refl;
  profile = refl;
  unfinished = tt;
}

asked_row_found : find_request digest (asked_row ∷ []) ≡ some asked_row
unfolding find_by text text_eq
asked_row_found = refl

digest_is_sha256 : is_sha256 digest ≡ true
unfolding is_sha256 bytes utf8 text
digest_is_sha256 = refl

no_job : is_settled (status_of (job (work_key digest) empty)) ≡ true
unfolding job find_job
no_job = refl

execute_job-ShowsFailure_example :
    (shown : ProjectStatus) × (status
        (unchanged_calls deployed)
        digest
        (execute_job 3000 digest (failed_with outage) (asked_row ∷ [])).0
        empty
      ≡ ok shown)
    × ShowsFailure outage (execute_job 3000 digest (failed_with outage) (asked_row ∷ [])).1 shown
execute_job-ShowsFailure_example =
    execute_job-ShowsFailure (unchanged_calls deployed) 3000 digest outage (asked_row ∷ [])
      asked_row empty (inl (unavailable_source_state, refl)) digest_is_sha256 asked_row_found
      asked_row-IsCurrent no_job
