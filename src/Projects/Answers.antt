-- ===== src/Projects/Answers.antt =====
-- `status` of src/bambu_project.rs, with its early answers: what is shown of a request for a project.
use onshape_export.Base.{
  ℕ, Text, text, text_eq, Bool, true, false, not, ◌&&◌, ◌++◌, Option, none, some, List, [], ◌∷◌,
  Result, ok, err, ◌>>=◌, if◌then◌else◌,
}
use onshape_export.Failure.{is_sha256}
use onshape_export.Selection.{SelectionSelector, selector_eq}
use onshape_export.Jobs.{Job, JobStatus, Queue}
use onshape_export.Jobs.View.{job}
use onshape_export.Storage.{public_url}
use onshape_export.Deployment.{DeployedGenerator}
use onshape_export.Publication.{PreparedGeneratorProcessing, GeneratorPublicationTarget}
use onshape_export.Projects.{BambuProjectRequest, Requests, find_request}
use onshape_export.Projects.Failures.{ProjectFailure, invalid_output_association}
use onshape_export.Projects.Status.{ProjectStatus, missing_status, unready_status}

-- A stored request, without `config_hash`, which `status` does not read.
pub record ProjectJob : Type 0 where
  pub model_slug : Text
  pub source_hash : Text
  pub values : List (Text × Text)
  pub selectors : List SelectionSelector
  pub generator_static_identity : Text
  pub policy_identity : Text
  pub catalog_identity : Text
  pub request_identity : Text

pub record GeneratorArtifactLookup : Type 0 where
  pub prepared : PreparedGeneratorProcessing
  pub output_kind : Text
  pub format : Text
  pub primary_role : Text
  pub primary_logical_path : Text
  pub primary_content_type : Text

-- What a status shows of an artifact.
pub record ArtifactRecord : Type 0 where
  pub object_key : Text
  pub sha256 : Option Text
  pub byte_len : Option ℕ
  pub content_type : Text

-- An error that is a project's failure, or some other error.
pub data StatusError : Type 0 where
  safe : ProjectFailure → StatusError
  other_error : StatusError

-- The model, the settings, and what `status` calls: the decoding of a record, the identity of the
-- catalog's entry, Onshape's source, the deployment, and the generator's tables.
pub record StatusCalls : Type 0 where
  pub slug : Text
  pub project_selectors : Option (List SelectionSelector)
  pub public_base : Option Text
  pub from_record : Text → Option ProjectJob
  pub catalog_identity : Result StatusError Text
  pub resolve_source_hash : Result StatusError Text
  pub configured : Option DeployedGenerator
  pub validate_profile : ProjectJob → DeployedGenerator → Bool
  pub reopen_generator_processing : DeployedGenerator → Text → Option PreparedGeneratorProcessing
  pub validate_prepared :
      ProjectJob → DeployedGenerator → PreparedGeneratorProcessing → Result StatusError (Unit {0})
  pub config_values_json : List (Text × Text) → Result StatusError Text
  pub latest_ready_artifact_for_generator_recipe :
      GeneratorArtifactLookup → Result StatusError (Option ArtifactRecord)

abbrev pub Answer : Type 0
Answer = Result StatusError ProjectStatus

abbrev pub operational_error : Text → StatusError
operational_error code = safe (record { category = text "operational_failure"; code = code })

abbrev pub work_key : Text → Text
work_key identity = text "bambu-project-v1:" ++ identity

abbrev pub status_of : Option Job → Option JobStatus
status_of none = none
status_of (some j) = some j.status

unfoldable pub selectors_eq : List SelectionSelector → List SelectionSelector → Bool
selectors_eq [] [] = true
selectors_eq (a ∷ s) (b ∷ t) = selector_eq a b && selectors_eq s t
selectors_eq _ _ = false

abbrev pub selects : Option (List SelectionSelector) → List SelectionSelector → Bool
selects none selectors = false
selects (some project) selectors = selectors_eq project selectors

abbrev pub association_status : ProjectStatus → ProjectStatus
association_status base = record base {
  status = text "failed";
  message = text "Bambu project recovery evidence could not be verified.";
  failure_category = some (text "operational_failure");
  failure_code = some (text "stored_output_association");
}

abbrev pub superseded_status : Text → ProjectStatus → ProjectStatus
superseded_status message base = record base { status = text "superseded"; message = message }

abbrev pub unavailable_status : ProjectStatus → ProjectStatus
unavailable_status base = record base {
  status = text "unavailable";
  message = text "The approved Bambu project generator is unavailable.";
  failure_category = some (text "deployment_unavailable");
  failure_code = some (text "approved_generator_unavailable");
}

abbrev pub limits_status : ProjectFailure → ProjectStatus → ProjectStatus
limits_status f base = record base {
  status = text "unavailable";
  message = text "The selected request exceeds the approved Bambu input limits.";
  failure_category = some f.category;
  failure_code = some f.code;
}

abbrev pub ready_status : Option Text → ArtifactRecord → ProjectStatus → ProjectStatus
ready_status public_base a base = record base {
  status = text "ready";
  message = text "Bambu project 3MF is ready.";
  public_url = public_url public_base a.object_key;
  object_key = some a.object_key;
  sha256 = a.sha256;
  byte_length = a.byte_len;
  media_type = some a.content_type;
}

-- `recipe_failure`
abbrev pub recipe_failure : StatusError → Text → StatusError
recipe_failure (safe f) code = safe f
recipe_failure other_error code = operational_error code

-- The match on an error of `validate_prepared`.
abbrev pub refused_recipe : StatusError → ProjectStatus → Answer
refused_recipe (safe f) base =
    if text_eq f.category (text "unsupported_request")
    then ok (limits_status f base)
    else err (recipe_failure (safe f) (text "stored_recipe_policy"))
refused_recipe other_error base = err (recipe_failure other_error (text "stored_recipe_policy"))

module _ (c : StatusCalls) where
  unfoldable pub target :
      ProjectJob → DeployedGenerator → Option Text → Result StatusError GeneratorPublicationTarget
  target request generator producing_job_key = do
    json ← c.config_values_json request.values
    ok (record {
      model_slug = request.model_slug;
      output_kind = text "slicer_project:" ++ generator.document.dialect_identity;
      format = text "project_3mf";
      logical_path = request.model_slug ++ text "-bambu-project.3mf";
      producing_job_key = producing_job_key;
      parameter_schema_version = 4;
      config_values_json = json;
    })

  abbrev pub lookup_of :
      PreparedGeneratorProcessing → GeneratorPublicationTarget → GeneratorArtifactLookup
  lookup_of prepared presentation = record {
    prepared = prepared;
    output_kind = presentation.output_kind;
    format = presentation.format;
    primary_role = text "generated_project";
    primary_logical_path = presentation.logical_path;
    primary_content_type = prepared.invocation.output.media_type;
  }

  -- The condition of the first "superseded", in its order.
  unfoldable pub selection_changed : ProjectJob → Result StatusError Bool
  unfolding selectors_eq
  selection_changed request =
      if selects c.project_selectors request.selectors
      then (c.catalog_identity >>= λ identity.
          if text_eq request.catalog_identity identity
          then (c.resolve_source_hash >>= λ hash. ok (not (text_eq hash request.source_hash)))
          else ok true)
      else ok true

  module _ (base : ProjectStatus) (standing : Option JobStatus) (stored : BambuProjectRequest)
      (request : ProjectJob) where
    abbrev found_artifact : Option ArtifactRecord → Answer
    found_artifact (some a) = ok (ready_status c.public_base a base)
    found_artifact none = ok (unready_status base standing stored)

    abbrev validated :
        DeployedGenerator → PreparedGeneratorProcessing → Result StatusError (Unit {0}) → Answer
    validated g prepared (err e) = refused_recipe e base
    validated g prepared (ok _) = do
      presentation ← target request g none
      artifact ← c.latest_ready_artifact_for_generator_recipe (lookup_of prepared presentation)
      found_artifact artifact

    abbrev reopened : DeployedGenerator → Option PreparedGeneratorProcessing → Answer
    reopened g none = err (operational_error (text "stored_recipe_integrity"))
    reopened g (some prepared) = validated g prepared (c.validate_prepared request g prepared)

    abbrev pub processed : DeployedGenerator → Option Text → Answer
    processed g none = ok (unready_status base standing stored)
    processed g (some hash) = reopened g (c.reopen_generator_processing g hash)

    abbrev generated : Option DeployedGenerator → Answer
    generated none = ok (unavailable_status base)
    generated (some g) =
        if c.validate_profile request g
        then processed g stored.processing_hash
        else ok (
            superseded_status
              (text "The Bambu project request requires the current generator deployment.") base)

    abbrev selected_status : Bool → Answer
    selected_status true = ok (
        superseded_status (text "The catalog project selection has changed or is unavailable.")
          base)
    selected_status false = generated c.configured

    unfoldable pub request_status : Answer
    unfolding selection_changed target
    request_status =
        if text_eq request.request_identity base.request_identity
          && text_eq request.model_slug c.slug
        then (if invalid_output_association stored
            then ok (association_status base)
            else (selection_changed request >>= λ changed. selected_status changed))
        else ok base

  abbrev decoded_status :
      ProjectStatus → Option JobStatus → BambuProjectRequest → Option ProjectJob → Answer
  decoded_status base standing stored none =
      err (operational_error (text "request_record_integrity"))
  decoded_status base standing stored (some request) = request_status base standing stored request

  abbrev stored_status : ProjectStatus → Option JobStatus → Option BambuProjectRequest → Answer
  stored_status base standing none = ok base
  stored_status base standing (some stored) =
      decoded_status base standing stored (c.from_record stored.request_json)

  unfoldable pub status : Text → Requests → Queue → Answer
  unfolding request_status
  status identity rows q =
      if is_sha256 identity
      then stored_status (missing_status identity) (status_of (job (work_key identity) q))
          (find_request identity rows)
      else ok (missing_status identity)
