-- ===== src/Artifacts.antt =====
-- The artifact sets of src/db.rs: the tables `artifact_sets` and `artifact_files`, and the statements
-- and transactions that write them. A transaction that fails is rolled back, so an error carries no
-- tables. A timestamp is a number of milliseconds.
pub mod Staging
pub mod Generated
pub mod Resuming
pub mod Operations
pub mod Frozen
pub mod Uniqueness
pub mod Immutable
pub mod Completion
pub mod Restaged
pub mod Insertion
pub mod Resumed
pub mod Inserted
mod Samples
mod Tests
use onshape_export.Base.{
  ℕ, ◌+◌, max, Text, text_eq, Bool, true, false, not, ◌&&◌, ◌||◌, Option, none, some, List, [], ◌∷◌,
  ◌++◌, ◌==◌, any, filter_by, is_none, affected, update_where, find_by, Result, ok, err, ensure,
  ◌>>=◌, ◌>>◌, if◌then◌else◌,
}

-- The statuses that the program writes.
pub data ArtifactStatus : Type 0 where
  staged ready upload_failed superseded : ArtifactStatus

pub record ArtifactSetRecord : Type 0 where
  pub artifact_set_hash : Text
  pub source_hash : Text
  pub config_hash : Text
  pub options_hash : Text
  pub request_hash : Option Text
  pub raw_payload_hash : Option Text
  pub postprocess_hash : Option Text
  pub generator_processing_hash : Option Text
  pub output_kind : Text
  pub format : Text
  pub status : ArtifactStatus
  pub primary_object_key : Option Text
  pub metadata_json : Text
  pub created_at : ℕ
  pub updated_at : ℕ
  pub superseded_at : Option ℕ
  pub superseded_by : Option Text
  pub supersession_reason : Option Text

-- A row of `artifact_files`, without the time at which it was made.
pub record ArtifactFileInsert : Type 0 where
  pub artifact_set_hash : Text
  pub role : Text
  pub logical_path : Text
  pub original_path : Option Text
  pub object_key : Text
  pub content_type : Text
  pub byte_len : ℕ
  pub sha256 : Text
  pub metadata_json : Text

pub record Artifacts : Type 0 where
  pub sets : List ArtifactSetRecord
  pub files : List ArtifactFileInsert

pub record ArtifactUpsert : Type 0 where
  pub artifact_key : Text
  pub model_slug : Text
  pub config_hash : Text
  pub output_kind : Text
  pub format : Text
  pub object_key : Text
  pub content_type : Text
  pub byte_len : ℕ
  pub sha256 : Text
  pub producing_job_key : Option Text
  pub source_hash : Text
  pub options_hash : Text
  pub request_hash : Option Text
  pub raw_payload_hash : Option Text
  pub postprocess_hash : Option Text
  pub generator_processing_hash : Option Text
  pub parameter_schema_version : ℕ
  pub config_values_json : Text

pub record ArtifactMetadata : Type 0 where
  pub model_slug : Text
  pub producing_job_key : Option Text
  pub parameter_schema_version : Option ℕ
  pub config_values_json : Option Text

pub data DatabaseError : Type 0 where
  unprepared_generator_artifact : DatabaseError
  immutable_artifact : Text → DatabaseError
  generator_artifact_conflict : DatabaseError
  generator_identity_error : DatabaseError
  unique_violation : DatabaseError

abbrev pub has_status : ArtifactStatus → ArtifactStatus → Bool
has_status staged staged = true
has_status ready ready = true
has_status upload_failed upload_failed = true
has_status superseded superseded = true
has_status _ _ = false

abbrev pub has_hash : Text → ArtifactSetRecord → Bool
has_hash hash r = text_eq r.artifact_set_hash hash

-- SELECT * FROM artifact_sets WHERE artifact_set_hash = ?
abbrev pub find_set : Text → List ArtifactSetRecord → Option ArtifactSetRecord
find_set hash sets = find_by (λ (r : ArtifactSetRecord). r.artifact_set_hash) hash sets

abbrev pub updating :
    (ArtifactSetRecord → Bool)
    → (ArtifactSetRecord → ArtifactSetRecord)
    → Artifacts
    → Artifacts × Bool
updating p f s = (record s { sets = update_where p f s.sets }, affected p s.sets == 1)

unfoldable pub mark_artifact_set_ready : ℕ → Text → Text → Artifacts → Artifacts × Bool
mark_artifact_set_ready now hash object_key s =
    updating (has_hash hash)
      (λ r. record r { status = ready; primary_object_key = some object_key; updated_at = now }) s

unfoldable pub transition_artifact_set_status :
    ℕ → Text → ArtifactStatus → Artifacts → Artifacts × Bool
transition_artifact_set_status now hash status s =
    updating (has_hash hash) (λ r. record r { status = status; updated_at = now }) s

abbrev pub superseded_set : ℕ → Option Text → Option Text → ArtifactSetRecord → ArtifactSetRecord
superseded_set now by reason r = record r {
  status = superseded;
  superseded_at = some now;
  superseded_by = by;
  supersession_reason = reason;
  updated_at = now;
}

unfoldable pub supersede_artifact_set :
    ℕ → Text → Option Text → Option Text → Artifacts → Artifacts × Bool
supersede_artifact_set now hash by reason s =
    updating (λ r. has_hash hash r && not (has_status superseded r.status))
      (superseded_set now by reason) s

unfoldable pub supersede_artifact : ℕ → Text → Artifacts → Artifacts × Bool
unfolding supersede_artifact_set
supersede_artifact now key s = supersede_artifact_set now key none none s

-- The columns that name an output.
abbrev pub is_output : Text → Text → Text → Text → ArtifactSetRecord → Bool
is_output source config options kind r =
    text_eq r.source_hash source
    && (text_eq r.config_hash config
        && (text_eq r.options_hash options && text_eq r.output_kind kind))

-- The WHERE clause of `supersede_ready_artifacts_for_output`.
abbrev pub is_replaced : Text → Text → Text → Text → Text → ArtifactSetRecord → Bool
is_replaced source config options kind retained r =
    is_output source config options kind r
    && (has_status ready r.status && not (has_hash retained r))

unfoldable pub supersede_ready_artifacts_for_output :
    ℕ → Text → Text → Text → Text → Text → Option Text → Artifacts → Artifacts × ℕ
supersede_ready_artifacts_for_output now source config options kind retained reason s = (
  record s {
    sets =
        update_where (is_replaced source config options kind retained)
          (superseded_set now (some retained) reason) s.sets;
  },
  affected (is_replaced source config options kind retained) s.sets,
)
