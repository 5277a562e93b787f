-- ===== src/Projects.antt =====
-- The requests for Bambu projects: the table `bambu_project_requests` of src/db.rs with the statements
-- that write it.
pub mod Failures
pub mod Kept
pub mod Bound
pub mod Status
pub mod Answers
pub mod Current
pub mod Mapped
pub mod Shown
mod Tests
use onshape_export.Base.{
  ℕ, Text, text_eq, optional_text_eq, Bool, true, false, not, ◌&&◌, ◌||◌, Option, none, some, List,
  [], ◌∷◌, ◌++◌, ◌==◌, any, is_none, find_by, update_where, Result, ok, err, ensure, ◌>>=◌, ◌>>◌,
  if◌then◌else◌,
}
use onshape_export.Artifacts.{DatabaseError}
use onshape_export.Artifacts.Generated.{Prepared, valid_generator_sha256}

pub record BambuProjectRequest : Type 0 where
  pub request_identity : Text
  pub request_json : Text
  pub processing_hash : Option Text
  pub output_snapshot_identity : Option Text
  pub failure_category : Option Text
  pub failure_code : Option Text
  pub created_at : ℕ
  pub updated_at : ℕ

abbrev pub Requests : Type 0
Requests = List BambuProjectRequest

pub data RequestError : Type 0 where
  immutable_project_request_conflict invalid_project_output_snapshot row_not_found : RequestError
  recipe_association_conflict : RequestError
  recipe_not_inserted : DatabaseError → RequestError

abbrev pub or_recipe : Result DatabaseError (Unit {0}) → Result RequestError (Unit {0})
or_recipe (ok _) = ok tt
or_recipe (err e) = err (recipe_not_inserted e)

abbrev pub has_identity : Text → BambuProjectRequest → Bool
has_identity identity r = text_eq r.request_identity identity

-- SELECT ... WHERE request_identity = ?
abbrev pub find_request : Text → Requests → Option BambuProjectRequest
find_request identity rows = find_by (λ (r : BambuProjectRequest). r.request_identity) identity rows

abbrev pub fetch_one : Option BambuProjectRequest → Result RequestError BambuProjectRequest
fetch_one none = err row_not_found
fetch_one (some r) = ok r

abbrev pub new_request : ℕ → Text → Text → BambuProjectRequest
new_request now identity json = record {
  request_identity = identity;
  request_json = json;
  processing_hash = none;
  output_snapshot_identity = none;
  failure_category = none;
  failure_code = none;
  created_at = now;
  updated_at = now;
}

-- INSERT ... ON CONFLICT DO NOTHING
unfoldable pub insert_request : ℕ → Text → Text → Requests → Requests
insert_request now identity json rows =
    if any (has_identity identity) rows then rows else rows ++ new_request now identity json ∷ []

unfoldable pub insert_bambu_project_request :
    ℕ → Text → Text → Requests → Result RequestError Requests
unfolding insert_request
insert_bambu_project_request now identity json rows = do
  let inserted = insert_request now identity json rows
  stored ← fetch_one (find_request identity inserted)
  ensure (text_eq stored.request_json json) immutable_project_request_conflict
  ok inserted

-- `is_some_and(|value| value != expected)`, negated
abbrev pub may_be : Text → Option Text → Bool
may_be expected none = true
may_be expected (some value) = text_eq value expected

-- The condition of the conflict, negated.
abbrev pub may_bind : Text → Text → Text → BambuProjectRequest → Bool
may_bind json hash snapshot r =
    text_eq r.request_json json
    && (may_be hash r.processing_hash
        && (may_be snapshot r.output_snapshot_identity
            && (if is_none r.processing_hash
                then is_none r.output_snapshot_identity
                else not (is_none r.output_snapshot_identity))))

abbrev pub bound_request : ℕ → Text → Text → BambuProjectRequest → BambuProjectRequest
bound_request now hash snapshot r = record r {
  processing_hash = some hash;
  output_snapshot_identity = some snapshot;
  failure_category = none;
  failure_code = none;
  updated_at = now;
}

abbrev pub failed_request :
    ℕ → Option Text → Option Text → BambuProjectRequest → BambuProjectRequest
failed_request now category code r = record r {
  failure_category = category;
  failure_code = code;
  updated_at = now;
}

unfoldable pub record_bambu_project_failure :
    ℕ → Text → Option Text → Option Text → Requests → Requests
record_bambu_project_failure now identity category code rows =
    update_where (has_identity identity) (failed_request now category code) rows

module _ (insert_generator_processing_recipe : Prepared → Result DatabaseError (Unit {0})) where
  unfoldable pub bind_bambu_project_output :
      ℕ → Text → Text → Prepared → Text → Requests → Result RequestError Requests
  bind_bambu_project_output now identity json prepared snapshot rows = do
    ensure (valid_generator_sha256 snapshot) invalid_project_output_snapshot
    or_recipe (insert_generator_processing_recipe prepared)
    r ← fetch_one (find_request identity rows)
    ensure (may_bind json prepared.processing_hash snapshot r) recipe_association_conflict
    ok (
        update_where (has_identity identity) (bound_request now prepared.processing_hash snapshot)
          rows)
