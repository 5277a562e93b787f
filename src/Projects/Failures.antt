-- ===== src/Projects/Failures.antt =====
-- How the failures of a project become a category and a code (src/bambu_project.rs), and the lists of those
-- that are shown.
use onshape_export.Base.{
  ℕ, Text, text, text_eq, Bool, true, false, not, ◌&&◌, ◌||◌, Option, none, some, List, [], ◌∷◌,
  any, all, is_empty, is_none, if◌then◌else◌,
}
use onshape_export.Failure.{
  FailureKind, invalid_selection, operational_api_contract_failure, unavailable_source_state,
  authentication_failure, transport_failure, operational_timeout_failure,
  operational_translation_failure, operational_http_failure, is_sha256,
}
use onshape_export.Protocol.Documents.{
  GeneratorResult, StructuredError, ErrorCategory, unsupported_request, malformed_request,
  invalid_input, generation_failed, internal_error,
}
use onshape_export.Deployment.{DeployedGeneratorError}
use onshape_export.Publication.{PublicationError, upload, storage_verification}
use onshape_export.Projects.{BambuProjectRequest}

pub record ProjectFailure : Type 0 where
  pub category : Text
  pub code : Text

abbrev pub operational : Text → ProjectFailure
operational code = record { category = text "operational_failure"; code = code }

unfoldable pub api_failure : FailureKind → ProjectFailure
api_failure invalid_selection = record {
  category = text "invalid_selection";
  code = text "selection_invalid";
}
api_failure unavailable_source_state = record {
  category = text "unavailable_source_state";
  code = text "selected_source_unavailable";
}
api_failure authentication_failure = operational (text "onshape_authentication")
api_failure transport_failure = operational (text "onshape_transport")
api_failure operational_timeout_failure = operational (text "acquisition_timeout")
api_failure operational_translation_failure = operational (text "translation_failed")
api_failure operational_http_failure = operational (text "onshape_http")
api_failure operational_api_contract_failure = operational (text "onshape_contract")

-- `Cleanup` holds the error before it, if there was one.
pub data GeneratorRunnerError : Type 0 where
  invalid_invocation unsupported_combination spawn timeout missing_result : GeneratorRunnerError
  deployment_integrity : DeployedGeneratorError → GeneratorRunnerError
  crash unexpected_exit : ℕ → GeneratorRunnerError
  malformed_result result_identity_mismatch output_declaration_mismatch : GeneratorRunnerError
  unexpected_files candidate_missing candidate_mismatch staging_failure io_failure :
      GeneratorRunnerError
  process_cleanup cancelled supervisor cleanup_alone : GeneratorRunnerError
  cleanup_after : GeneratorRunnerError → GeneratorRunnerError
  structured_failure : GeneratorResult → GeneratorRunnerError

abbrev pub is_unsupported_request : ErrorCategory → Bool
is_unsupported_request unsupported_request = true
is_unsupported_request malformed_request = false
is_unsupported_request invalid_input = false
is_unsupported_request generation_failed = false
is_unsupported_request internal_error = false

-- Every error that the generator reports is that it does not support the request.
abbrev pub is_all_unsupported : List StructuredError → Bool
is_all_unsupported errors =
    not (is_empty errors) && all (λ (e : StructuredError). is_unsupported_request e.category) errors

abbrev pub unsupported : Text → ProjectFailure
unsupported code = record { category = text "unsupported_request"; code = code }

unfoldable pub runner_failure : GeneratorRunnerError → ProjectFailure
runner_failure unsupported_combination = unsupported (text "generator_unsupported")
runner_failure (structured_failure result) =
    if is_all_unsupported result.errors
    then unsupported (text "generator_unsupported_request")
    else operational (text "generator_reported_failure")
runner_failure invalid_invocation = operational (text "generator_invocation_invalid")
runner_failure (deployment_integrity e) = operational (text "deployment_integrity")
runner_failure spawn = operational (text "generator_start_failed")
runner_failure (crash signal) = operational (text "generator_crashed")
runner_failure (unexpected_exit code) = operational (text "generator_unexpected_exit")
runner_failure timeout = operational (text "generator_timeout")
runner_failure missing_result = operational (text "generator_result_missing")
runner_failure malformed_result = operational (text "generator_protocol_invalid")
runner_failure result_identity_mismatch = operational (text "generator_identity_mismatch")
runner_failure output_declaration_mismatch =
    operational (text "generator_output_declaration_mismatch")
runner_failure unexpected_files = operational (text "generator_file_declaration_mismatch")
runner_failure candidate_missing = operational (text "generator_candidate_missing")
runner_failure candidate_mismatch = operational (text "generator_candidate_integrity")
runner_failure cancelled = operational (text "generator_cancelled")
runner_failure staging_failure = operational (text "generator_input_staging_failed")
runner_failure io_failure = operational (text "generator_retention_failed")
runner_failure process_cleanup = operational (text "generator_cleanup_failed")
runner_failure cleanup_alone = operational (text "generator_cleanup_failed")
runner_failure (cleanup_after prior) = operational (text "generator_cleanup_failed")
runner_failure supervisor = operational (text "generator_supervisor_failed")

unfoldable pub publication_failure : PublicationError → ProjectFailure
publication_failure (upload e) = operational (text "project_upload_failed")
publication_failure (storage_verification e) =
    operational (text "project_storage_verification_failed")
publication_failure _ = operational (text "project_publication_failed")

abbrev pub safe_categories : List Text
safe_categories =
    text "invalid_selection"
    ∷ text "unavailable_source_state"
    ∷ text "deployment_unavailable"
    ∷ text "unsupported_request"
    ∷ text "stale_request"
    ∷ []

unfoldable pub safe_category : Text → Text
safe_category category =
    if any (text_eq category) safe_categories then category else text "operational_failure"

abbrev pub safe_codes : List Text
safe_codes =
    text "selection_invalid"
    ∷ text "selected_source_unavailable"
    ∷ text "onshape_authentication"
    ∷ text "onshape_transport"
    ∷ text "acquisition_timeout"
    ∷ text "translation_failed"
    ∷ text "onshape_http"
    ∷ text "onshape_contract"
    ∷ text "generator_unsupported"
    ∷ text "deployment_integrity"
    ∷ text "generator_timeout"
    ∷ text "generator_reported_failure"
    ∷ text "generator_cancelled"
    ∷ text "generator_execution_failed"
    ∷ text "generator_invocation_invalid"
    ∷ text "generator_start_failed"
    ∷ text "generator_crashed"
    ∷ text "generator_unexpected_exit"
    ∷ text "generator_result_missing"
    ∷ text "generator_protocol_invalid"
    ∷ text "generator_identity_mismatch"
    ∷ text "generator_output_declaration_mismatch"
    ∷ text "generator_file_declaration_mismatch"
    ∷ text "generator_candidate_missing"
    ∷ text "generator_candidate_integrity"
    ∷ text "generator_input_staging_failed"
    ∷ text "generator_retention_failed"
    ∷ text "generator_cleanup_failed"
    ∷ text "generator_supervisor_failed"
    ∷ text "generator_unsupported_request"
    ∷ text "input_limit_exceeded"
    ∷ text "project_upload_failed"
    ∷ text "project_storage_verification_failed"
    ∷ text "approved_generator_unavailable"
    ∷ text "project_timeout"
    ∷ text "project_input_recovery_required"
    ∷ text "project_reconciliation_failed"
    ∷ text "project_publication_failed"
    ∷ text "catalog_policy_changed"
    ∷ text "project_not_enabled"
    ∷ text "linked_source_unsupported"
    ∷ text "output_retention_unavailable"
    ∷ text "output_snapshot_integrity"
    ∷ text "output_snapshot_persistence"
    ∷ text "stored_output_association"
    ∷ []

unfoldable pub safe_code : Option Text → Text
safe_code none = text "project_operation_failed"
safe_code (some code) =
    if any (text_eq code) safe_codes then code else text "project_operation_failed"

abbrev pub is_hash_or_none : Option Text → Bool
is_hash_or_none none = true
is_hash_or_none (some hash) = is_sha256 hash

unfoldable pub invalid_output_association : BambuProjectRequest → Bool
invalid_output_association stored =
    is_none stored.processing_hash && not (is_none stored.output_snapshot_identity)
    || (not (is_hash_or_none stored.processing_hash)
        || not (is_hash_or_none stored.output_snapshot_identity))
