-- ===== src/Projects/Current.antt =====
-- The requests for which `status` comes to its last part: none of its early answers holds.
use onshape_export.Base.{
  ◌≡◌, refl, Text, text_eq_iff, text_eq_refl, true, false, Option, none, some, ok,
}
use onshape_export.Failure.{is_sha256}
use onshape_export.Jobs.{JobStatus, Queue}
use onshape_export.Jobs.View.{job}
use onshape_export.Deployment.{DeployedGenerator}
use onshape_export.Publication.{PreparedGeneratorProcessing, GeneratorPublicationTarget}
use onshape_export.Projects.{BambuProjectRequest, Requests, find_request}
use onshape_export.Projects.Failures.{invalid_output_association}
use onshape_export.Projects.Status.{missing_status, unready_status}
use onshape_export.Projects.Answers.{
  ProjectJob, StatusCalls, selects, target, lookup_of, processed, selection_changed, request_status,
  status, status_of, work_key,
}

-- Either no recipe is bound, or the bound one can be opened, is still valid, and has no ready artifact.
abbrev pub IsUnfinished : StatusCalls → ProjectJob → DeployedGenerator → Option Text → Type 0
IsUnfinished c request g none = Unit
IsUnfinished c request g (some hash) =
    (prepared : PreparedGeneratorProcessing) × (presentation : GeneratorPublicationTarget)
    × (c.reopen_generator_processing g hash ≡ some prepared)
    × (c.validate_prepared request g prepared ≡ ok tt)
    × (target c request g none ≡ ok presentation)
    × (c.latest_ready_artifact_for_generator_recipe (lookup_of c prepared presentation) ≡ ok none)

-- The stored request is intact, the model still makes what it asks for, the generator is deployed with
-- its profile, and the project is not ready.
pub record IsCurrent (c : StatusCalls) (identity : Text) (stored : BambuProjectRequest)
    : Type 0 where
  pub request : ProjectJob
  pub decoded : c.from_record stored.request_json ≡ some request
  pub own : request.request_identity ≡ identity
  pub of_model : request.model_slug ≡ c.slug
  pub associated : invalid_output_association stored ≡ false
  pub selected : selects c.project_selectors request.selectors ≡ true
  pub same_catalog : c.catalog_identity ≡ ok request.catalog_identity
  pub same_source : c.resolve_source_hash ≡ ok request.source_hash
  pub generator : DeployedGenerator
  pub configured : c.configured ≡ some generator
  pub profile : c.validate_profile request generator ≡ true
  pub unfinished : IsUnfinished c request generator stored.processing_hash

module _ (c : StatusCalls) (identity : Text) (stored : BambuProjectRequest)
    (standing : Option JobStatus) where
  processed_unready :
      (request : ProjectJob) (g : DeployedGenerator) (hash : Option Text)
      → IsUnfinished c request g hash
      → processed c (missing_status identity) standing stored request g hash
        ≡ ok (unready_status (missing_status identity) standing stored)
  processed_unready request g none u = refl
  processed_unready request g (some hash) (prepared, presentation, opened, valid, aimed, missing) =
      rw opened (rw valid (rw aimed (rw missing refl)))

  unchanged :
      (request : ProjectJob)
      → selects c.project_selectors request.selectors ≡ true
      → c.catalog_identity ≡ ok request.catalog_identity
      → c.resolve_source_hash ≡ ok request.source_hash
      → selection_changed c request ≡ ok false
  unfolding selection_changed
  unchanged request selected same_catalog same_source = rw selected (
      rw same_catalog (
        rw (text_eq_refl request.catalog_identity)
          (rw same_source (rw (text_eq_refl request.source_hash) refl))))

  current_request_status :
      (u : IsCurrent c identity stored)
      → request_status c (missing_status identity) standing stored u.request
        ≡ ok (unready_status (missing_status identity) standing stored)
  unfolding request_status
  current_request_status u = rw ((text_eq_iff u.request.request_identity identity).1 u.own) (
      rw ((text_eq_iff u.request.model_slug c.slug).1 u.of_model) (
        rw u.associated (
          rw (unchanged u.request u.selected u.same_catalog u.same_source) (
            rw u.configured (
              rw u.profile
                (processed_unready u.request u.generator stored.processing_hash u.unfinished))))))

pub current_status :
    (c : StatusCalls) (identity : Text) (stored : BambuProjectRequest) (rows : Requests) (q : Queue)
    → is_sha256 identity ≡ true
    → find_request identity rows ≡ some stored
    → IsCurrent c identity stored
    → status c identity rows q
      ≡ ok (unready_status (missing_status identity) (status_of (job (work_key identity) q)) stored)
unfolding status
current_status c identity stored rows q sha found u = rw sha (
    rw found (
      rw u.decoded
        (current_request_status c identity stored (status_of (job (work_key identity) q)) u)))
