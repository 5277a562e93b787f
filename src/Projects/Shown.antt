-- ===== src/Projects/Shown.antt =====
-- A job that fails with a failure of its own: its status shows the category and the code.
use onshape_export.Base.{
  ℕ, ◌≡◌, ◌⊎◌, refl, ap, ◌∙◌, Text, text, text_eq_refl, Bool, true, false, Option, none, some,
  arith, find_by-key, find_by-update_where, changed, Result, ok, err, if◌then◌else◌, Bool-cases,
  inl, inr,
}
use onshape_export.Failure.{is_sha256}
use onshape_export.Jobs.View.{job}
use onshape_export.Projects.Answers.{StatusCalls, status, status_of, work_key}
use onshape_export.Projects.Current.{IsCurrent, current_status}
use onshape_export.Jobs.{Queue, JobStatus, queued, running, ready, failed, superseded}
use onshape_export.Projects.{
  BambuProjectRequest, Requests, find_request, has_identity, failed_request,
  record_bambu_project_failure,
}
use onshape_export.Projects.Failures.{ProjectFailure, invalid_output_association}
use onshape_export.Projects.Status.{
  missing_status, outcome_of, failed_with, is_unavailable, conclude_job, execute_job, ProjectStatus,
  settled_status, unready_status,
}
use onshape_export.Projects.Mapped.{IsMapped, mapped-IsShown}

abbrev identity_of : BambuProjectRequest → Text
identity_of r = r.request_identity

-- The job is neither queued nor running.
abbrev pub is_settled : Option JobStatus → Bool
is_settled (some queued) = false
is_settled (some running) = false
is_settled _ = true

settled_unready_status :
    (base : ProjectStatus) (job : Option JobStatus) (stored : BambuProjectRequest)
    → is_settled job ≡ true
    → unready_status base job stored ≡ settled_status base job stored
unfolding unready_status
settled_unready_status base none stored h = refl
settled_unready_status base (some queued) stored h = absurd (cc h)
settled_unready_status base (some running) stored h = absurd (cc h)
settled_unready_status base (some ready) stored h = refl
settled_unready_status base (some failed) stored h = refl
settled_unready_status base (some superseded) stored h = refl

recorded_row :
    (now : ℕ) (identity : Text) (category code : Option Text) (rows : Requests)
    (row : BambuProjectRequest)
    → find_request identity rows ≡ some row
    → find_request identity (record_bambu_project_failure now identity category code rows)
      ≡ some (failed_request now category code row)
unfolding record_bambu_project_failure
recorded_row now identity category code rows row found =
    find_by-update_where identity_of (has_identity identity) (failed_request now category code)
      (λ x. refl) identity rows
    ∙ ap (changed identity_of (has_identity identity) (failed_request now category code)) found
    ∙ ground (arith, find_by-key identity_of identity rows {x = row} found, text_eq_refl identity)

-- The status of a failure: its category and its code, and whether a retry may help.
pub record ShowsFailure (f : ProjectFailure) (outcome : Result ProjectFailure (Unit {0}))
    (s : ProjectStatus) : Type 0 where
  pub category : s.failure_category ≡ some f.category
  pub code : s.failure_code ≡ some f.code
  pub kind :
      (outcome ≡ ok tt) × (s.status ≡ text "unavailable")
      ⊎ (outcome ≡ err f) × (s.status ≡ text "failed")

unready_status-ShowsFailure :
    (now : ℕ) (f : ProjectFailure) (row : BambuProjectRequest) (base : ProjectStatus)
    (standing : Option JobStatus)
    → IsMapped f
    → is_settled standing ≡ true
    → ShowsFailure f
        (outcome_of f)
        (unready_status base standing (failed_request now (some f.category) (some f.code) row))
unready_status-ShowsFailure now f row base standing mapped settled =
    let (categories, codes) = mapped-IsShown f mapped in
    let shown =
      settled_unready_status base standing (failed_request now (some f.category) (some f.code) row)
        settled in
    record {
      category = ap (λ (s : ProjectStatus). s.failure_category) shown ∙ ap some categories;
      code = ap (λ (s : ProjectStatus). s.failure_code) shown ∙ ap some codes;
      kind = elim (Bool-cases (is_unavailable f.category)) [
        | inl unavailable ↦ inl (
          ap (λ b. if b then ok tt else err f) unavailable,
          ap (λ (s : ProjectStatus). s.status) shown
              ∙ ap (λ b. if b then text "unavailable" else text "failed") unavailable,
        )
        | inr retryable ↦ inr (
          ap (λ b. if b then ok tt else err f) retryable,
          ap (λ (s : ProjectStatus). s.status) shown
              ∙ ap (λ b. if b then text "unavailable" else text "failed") retryable,
        )
      ];
    }

failed_request-IsCurrent :
    (c : StatusCalls) (identity : Text) (now : ℕ) (category code : Option Text)
    (row : BambuProjectRequest)
    → IsCurrent c identity row
    → IsCurrent c identity (failed_request now category code row)
unfolding invalid_output_association
failed_request-IsCurrent c identity now category code row u = record {
  request = u.request;
  decoded = u.decoded;
  own = u.own;
  of_model = u.of_model;
  associated = u.associated;
  selected = u.selected;
  same_catalog = u.same_catalog;
  same_source = u.same_source;
  generator = u.generator;
  configured = u.configured;
  profile = u.profile;
  unfinished = u.unfinished;
}

-- Let a request be stored under a SHA-256 and current: its record decodes to a request of this identity
-- and model with sound associations, the model's project still has its selectors, catalog entry and
-- source, the generator is deployed with its profile, and either no recipe is bound, or the bound one
-- opens, is valid and has no ready artifact. When its job ends with a failure of the Onshape API, of
-- the generator's runner, or of the publication, then `status`, with a job that is then neither queued
-- nor running, succeeds and shows the very category and code of the failure; it says "unavailable" when
-- the job itself counts as done, and "failed" when the job returns the failure.
pub execute_job-ShowsFailure :
    (c : StatusCalls) (now : ℕ) (identity : Text) (f : ProjectFailure) (rows : Requests)
    (row : BambuProjectRequest) (q : Queue)
    → IsMapped f
    → is_sha256 identity ≡ true
    → find_request identity rows ≡ some row
    → IsCurrent c identity row
    → is_settled (status_of (job (work_key identity) q)) ≡ true
    → (shown : ProjectStatus) × (status c identity
          (execute_job now identity (failed_with f) rows).0
          q
        ≡ ok shown)
      × ShowsFailure f (execute_job now identity (failed_with f) rows).1 shown
unfolding execute_job conclude_job
execute_job-ShowsFailure c now identity f rows row q mapped sha found current settled =
    let stored = failed_request now (some f.category) (some f.code) row in
    (
      unready_status (missing_status identity) (status_of (job (work_key identity) q)) stored,
      current_status c identity stored
          (record_bambu_project_failure now identity (some f.category) (some f.code) rows) q sha
          (recorded_row now identity (some f.category) (some f.code) rows row found)
          (failed_request-IsCurrent c identity now (some f.category) (some f.code) row current),
      unready_status-ShowsFailure now f row (missing_status identity)
          (status_of (job (work_key identity) q)) mapped settled,
    )
