-- ===== src/Projects/Mapped.antt =====
-- Every failure that a job can end with is shown with its own category and code.
use mathlib.Core.Path.{subst}
use onshape_export.Base.{◌≡◌, ◌⊎◌, refl, sym, text, text_eq, some, Bool-cases, inl, inr}
use onshape_export.Failure.{
  FailureKind, invalid_selection, operational_api_contract_failure, unavailable_source_state,
  authentication_failure, transport_failure, operational_timeout_failure,
  operational_translation_failure, operational_http_failure,
}
use onshape_export.Publication.{
  PublicationError, wrong_output, unsafe_presentation, invalid_schema_version, invalid_metadata,
  metadata_not_object, unsupported_deployment, bindings_mismatch, incompatible,
  different_invocation, not_successful, output_absent, length_out_of_bounds, invalid_result,
  retention_failed, candidate_too_long, candidate_unreadable, candidate_mismatch, upload,
  storage_verification, stored_verification, cleanup_failed, cleanup_task_failed, superseded_before,
  presentation_mismatch, declarations_mismatch, database,
}
use onshape_export.Projects.Failures.{
  ProjectFailure, GeneratorRunnerError, is_all_unsupported, invalid_invocation,
  unsupported_combination, spawn, timeout, missing_result, deployment_integrity, crash,
  unexpected_exit, malformed_result, result_identity_mismatch, output_declaration_mismatch,
  unexpected_files, candidate_missing, candidate_mismatch, staging_failure, io_failure,
  process_cleanup, cancelled, supervisor, cleanup_alone, cleanup_after, structured_failure,
  api_failure, runner_failure, publication_failure, safe_category, safe_code,
}

-- A failure of the Onshape API, of the generator's runner, or of the publication.
abbrev pub IsMapped : ProjectFailure → Type 0
IsMapped f =
    ((kind : FailureKind) × (f ≡ api_failure kind))
    ⊎ ((e : GeneratorRunnerError) × (f ≡ runner_failure e))
    ⊎ ((e : PublicationError) × (f ≡ publication_failure e))

-- The lists have its category and its code.
abbrev IsShown : ProjectFailure → Type 0
IsShown f = (safe_category f.category ≡ f.category) × (safe_code (some f.code) ≡ f.code)

api_failure-IsShown : (kind : FailureKind) → IsShown (api_failure kind)
unfolding api_failure safe_category safe_code text text_eq
api_failure-IsShown invalid_selection = (refl, refl)
api_failure-IsShown operational_api_contract_failure = (refl, refl)
api_failure-IsShown unavailable_source_state = (refl, refl)
api_failure-IsShown authentication_failure = (refl, refl)
api_failure-IsShown transport_failure = (refl, refl)
api_failure-IsShown operational_timeout_failure = (refl, refl)
api_failure-IsShown operational_translation_failure = (refl, refl)
api_failure-IsShown operational_http_failure = (refl, refl)

runner_failure-IsShown : (e : GeneratorRunnerError) → IsShown (runner_failure e)
unfolding runner_failure safe_category safe_code text text_eq
runner_failure-IsShown unsupported_combination = (refl, refl)
runner_failure-IsShown (structured_failure result) =
    elim (Bool-cases (is_all_unsupported result.errors)) [
      | inl every ↦ rw every (refl, refl)
      | inr some_other ↦ rw some_other (refl, refl)
    ]
runner_failure-IsShown invalid_invocation = (refl, refl)
runner_failure-IsShown (deployment_integrity e) = (refl, refl)
runner_failure-IsShown spawn = (refl, refl)
runner_failure-IsShown (crash signal) = (refl, refl)
runner_failure-IsShown (unexpected_exit code) = (refl, refl)
runner_failure-IsShown timeout = (refl, refl)
runner_failure-IsShown missing_result = (refl, refl)
runner_failure-IsShown malformed_result = (refl, refl)
runner_failure-IsShown result_identity_mismatch = (refl, refl)
runner_failure-IsShown output_declaration_mismatch = (refl, refl)
runner_failure-IsShown unexpected_files = (refl, refl)
runner_failure-IsShown candidate_missing = (refl, refl)
runner_failure-IsShown candidate_mismatch = (refl, refl)
runner_failure-IsShown cancelled = (refl, refl)
runner_failure-IsShown staging_failure = (refl, refl)
runner_failure-IsShown io_failure = (refl, refl)
runner_failure-IsShown process_cleanup = (refl, refl)
runner_failure-IsShown cleanup_alone = (refl, refl)
runner_failure-IsShown (cleanup_after prior) = (refl, refl)
runner_failure-IsShown supervisor = (refl, refl)

publication_failure-IsShown : (e : PublicationError) → IsShown (publication_failure e)
unfolding publication_failure safe_category safe_code text text_eq
publication_failure-IsShown wrong_output = (refl, refl)
publication_failure-IsShown unsafe_presentation = (refl, refl)
publication_failure-IsShown invalid_schema_version = (refl, refl)
publication_failure-IsShown invalid_metadata = (refl, refl)
publication_failure-IsShown metadata_not_object = (refl, refl)
publication_failure-IsShown unsupported_deployment = (refl, refl)
publication_failure-IsShown bindings_mismatch = (refl, refl)
publication_failure-IsShown (incompatible e) = (refl, refl)
publication_failure-IsShown different_invocation = (refl, refl)
publication_failure-IsShown not_successful = (refl, refl)
publication_failure-IsShown output_absent = (refl, refl)
publication_failure-IsShown length_out_of_bounds = (refl, refl)
publication_failure-IsShown (invalid_result e) = (refl, refl)
publication_failure-IsShown retention_failed = (refl, refl)
publication_failure-IsShown candidate_too_long = (refl, refl)
publication_failure-IsShown candidate_unreadable = (refl, refl)
publication_failure-IsShown candidate_mismatch = (refl, refl)
publication_failure-IsShown (upload e) = (refl, refl)
publication_failure-IsShown (storage_verification e) = (refl, refl)
publication_failure-IsShown (stored_verification e) = (refl, refl)
publication_failure-IsShown cleanup_failed = (refl, refl)
publication_failure-IsShown cleanup_task_failed = (refl, refl)
publication_failure-IsShown superseded_before = (refl, refl)
publication_failure-IsShown presentation_mismatch = (refl, refl)
publication_failure-IsShown declarations_mismatch = (refl, refl)
publication_failure-IsShown (database e) = (refl, refl)

pub mapped-IsShown : (f : ProjectFailure) → IsMapped f → IsShown f
mapped-IsShown f (inl (kind, e)) = subst IsShown (sym e) (api_failure-IsShown kind)
mapped-IsShown f (inr (inl (error, e))) = subst IsShown (sym e) (runner_failure-IsShown error)
mapped-IsShown f (inr (inr (error, e))) = subst IsShown (sym e) (publication_failure-IsShown error)
