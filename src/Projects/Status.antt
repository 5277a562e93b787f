-- ===== src/Projects/Status.antt =====
-- The execution of a request's job, and what a status shows of it, src/bambu_project.rs.
use onshape_export.Base.{
  ℕ, Text, text, text_eq, Bool, ◌||◌, Option, none, some, Result, ok, err, if◌then◌else◌,
}
use onshape_export.Jobs.{JobStatus, queued, running, ready, failed, superseded}
use onshape_export.Projects.{BambuProjectRequest, Requests, record_bambu_project_failure}
use onshape_export.Projects.Failures.{ProjectFailure, safe_category, safe_code}

-- What `execute_inner` returns: an error is a project's failure, or some other error.
pub data Execution : Type 0 where
  executed failed_otherwise : Execution
  failed_with : ProjectFailure → Execution

-- `downcast_ref`, with the category and the code of any other error.
abbrev pub failure_of : Execution → Option ProjectFailure
failure_of executed = none
failure_of failed_otherwise =
    some (record { category = text "operational_failure"; code = text "project_operation_failed" })
failure_of (failed_with f) = some f

abbrev pub is_unavailable : Text → Bool
is_unavailable category =
    text_eq category (text "unavailable_source_state")
    || text_eq category (text "unsupported_request")

abbrev pub outcome_of : ProjectFailure → Result ProjectFailure (Unit {0})
outcome_of f = if is_unavailable f.category then ok tt else err f

unfoldable pub conclude_job :
    ℕ → Text → Option ProjectFailure → Requests → Requests × Result ProjectFailure (Unit {0})
conclude_job now identity none rows =
    (record_bambu_project_failure now identity none none rows, ok tt)
conclude_job now identity (some f) rows =
    (record_bambu_project_failure now identity (some f.category) (some f.code) rows, outcome_of f)

unfoldable pub execute_job :
    ℕ → Text → Execution → Requests → Requests × Result ProjectFailure (Unit {0})
unfolding conclude_job
execute_job now identity result rows = conclude_job now identity (failure_of result) rows

pub record ProjectStatus : Type 0 where
  pub request_identity : Text
  pub status : Text
  pub message : Text
  pub public_url : Option Text
  pub object_key : Option Text
  pub sha256 : Option Text
  pub byte_length : Option ℕ
  pub media_type : Option Text
  pub failure_category : Option Text
  pub failure_code : Option Text

-- The status at the beginning of `status`.
abbrev pub missing_status : Text → ProjectStatus
missing_status identity = record {
  request_identity = identity;
  status = text "missing";
  message = text "No Bambu project request is available.";
  public_url = none;
  object_key = none;
  sha256 = none;
  byte_length = none;
  media_type = none;
  failure_category = none;
  failure_code = none;
}

abbrev pub failure_status : ProjectStatus → Text → Option Text → ProjectStatus
failure_status base category code = record base {
  status = if is_unavailable category then text "unavailable" else text "failed";
  message =
      if is_unavailable category
      then text "This request is unavailable for Bambu project generation."
      else text "Bambu project generation failed.";
  failure_category = some (safe_category category);
  failure_code = some (safe_code code);
}

abbrev pub job_text : JobStatus → Text
job_text queued = text "queued"
job_text running = text "running"
job_text ready = text "pending"
job_text failed = text "failed"
job_text superseded = text "superseded"

-- A job that is not queued or running.
abbrev pub settled_status : ProjectStatus → Option JobStatus → BambuProjectRequest → ProjectStatus
settled_status base job stored = elim stored.failure_category [
  | some category ↦ failure_status base category stored.failure_code
  | none ↦ elim job [
    | none ↦ base
    | some s ↦ record base { status = job_text s; message = text "Bambu project is not ready." }
  ]
]

unfoldable pub unready_status :
    ProjectStatus → Option JobStatus → BambuProjectRequest → ProjectStatus
unready_status base (some queued) stored = record base {
  status = text "queued";
  message = text "Bambu project generation is queued.";
}
unready_status base (some running) stored = record base {
  status = text "running";
  message = text "Bambu project generation is running.";
}
unready_status base job stored = settled_status base job stored
