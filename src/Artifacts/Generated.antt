-- ===== src/Artifacts/Generated.antt =====
-- The sets that a generator made: rows that are never staged again, only moved between statuses, and
-- read back with every column checked.
use onshape_export.Base.{
  ℕ, ◌+◌, max, Text, text, text_eq, bytes, len, Bool, true, false, not, ◌&&◌, ◌||◌, Option, none,
  some, List, [], ◌∷◌, ◌==◌, ltb, leb, any, all, is_empty, filter_by, is_none, is_control,
  is_ascii_digit, update_where, Result, ok, err, ensure, ◌>>=◌, ◌>>◌, if◌then◌else◌,
}
use onshape_export.Artifacts.{
  ArtifactStatus, staged, ready, upload_failed, ArtifactSetRecord, ArtifactFileInsert, Artifacts,
  DatabaseError, generator_artifact_conflict, has_status, has_hash, find_set, updating,
  superseded_set, is_replaced,
}
use onshape_export.Artifacts.Staging.{of_set}

-- What the transactions read of a `PreparedGeneratorProcessing`.
pub record Prepared : Type 0 where
  pub processing_hash : Text
  pub is_supported : Bool
  pub source_identity : Text
  pub configuration_identity : Text
  pub media_type : Text
  pub max_byte_length : ℕ

unfoldable pub valid_generator_sha256 : Text → Bool
valid_generator_sha256 hash =
    len hash == 64 && all (λ b. is_ascii_digit b || leb b'a' b && leb b b'f') (bytes hash)

unfoldable pub valid_generator_logical_path : Text → Bool
valid_generator_logical_path path =
    not (is_empty path)
    && (not (text_eq path (text ".") || text_eq path (text ".."))
        && (not (any (λ c. c == b'/' || c == 0x5C) path) && not (any is_control path)))

abbrev pub is_text : Text → Option Text → Bool
is_text s none = false
is_text s (some t) = text_eq t s

-- Pending or ready, and never superseded.
abbrev pub is_live : ArtifactSetRecord → Bool
is_live r = is_none r.superseded_at && (is_none r.superseded_by && is_none r.supersession_reason)

abbrev pub is_pending : ArtifactSetRecord → Bool
is_pending r = has_status staged r.status || has_status upload_failed r.status

-- The columns of the row, against the identity.
abbrev pub matches : Prepared → Text → Text → Text → ArtifactSetRecord → Bool
matches prepared options kind format r =
    prepared.is_supported
    && (text_eq r.source_hash prepared.source_identity
        && (text_eq r.config_hash prepared.configuration_identity
            && (text_eq r.options_hash options
                && (text_eq r.output_kind kind
                    && (text_eq r.format format
                        && (is_none r.request_hash
                            && (is_none r.raw_payload_hash
                                && (is_text prepared.processing_hash r.postprocess_hash
                                    && (is_text prepared.processing_hash r.generator_processing_hash
                                        && ((is_pending r || has_status ready r.status)
                                            && is_live r))))))))))

abbrev pub file_matches : Prepared → ArtifactSetRecord → ArtifactFileInsert → Bool
file_matches prepared r f =
    text_eq f.role (text "generated_project")
    && (is_none f.original_path
        && (valid_generator_logical_path f.logical_path
            && (text_eq f.content_type prepared.media_type
                && (is_text f.object_key r.primary_object_key
                    && (not (is_empty f.object_key)
                        && (ltb 0 f.byte_len
                            && (valid_generator_sha256 f.sha256
                                && leb f.byte_len prepared.max_byte_length)))))))

abbrev pub only_file : List ArtifactFileInsert → Result DatabaseError ArtifactFileInsert
only_file (f ∷ []) = ok f
only_file _ = err generator_artifact_conflict

abbrev pub Loaded : Type 0
Loaded = Option (ArtifactSetRecord × ArtifactFileInsert)

-- Each transition of a generator's row moves its time on by a millisecond at least.
abbrev pub advanced : ℕ → ArtifactStatus → ArtifactSetRecord → ArtifactSetRecord
advanced now status r = record r { status = status; updated_at = max now (r.updated_at + 1) }

abbrev pub is_failing : Text → ArtifactSetRecord → Bool
is_failing hash r =
    has_hash hash r && (not (is_none r.generator_processing_hash) && (is_pending r && is_live r))

unfoldable pub fail_generator_artifact : ℕ → Text → Artifacts → Artifacts × Bool
fail_generator_artifact now hash s = updating (is_failing hash) (advanced now upload_failed) s

abbrev pub is_observed : ℕ → ArtifactSetRecord → Bool
is_observed expected r =
    not (is_none r.generator_processing_hash)
    && (has_status ready r.status && (r.updated_at == expected && is_live r))

unfoldable pub fail_ready_generator_verification : ℕ → Text → ℕ → Artifacts → Artifacts × Bool
fail_ready_generator_verification now hash expected s =
    updating (λ r. has_hash hash r && is_observed expected r) (advanced now upload_failed) s

abbrev pub replaced_reason : Text
replaced_reason = text "replaced"

-- The two statements of `complete_generator_artifact` that write.
unfoldable pub make_ready : ℕ → Text → Text → ArtifactSetRecord → Artifacts → Artifacts
make_ready now hash kind r s = record s {
  sets =
      update_where (is_replaced r.source_hash r.config_hash r.options_hash kind hash)
        (superseded_set now (some hash) (some replaced_reason))
        (update_where (λ x. has_hash hash x && (is_pending x && is_live x)) (advanced now ready)
          s.sets);
}

unfoldable pub complete_loaded :
    ℕ → Text → Text → Text → Artifacts → Loaded → Result DatabaseError (Artifacts × Bool)
unfolding make_ready
complete_loaded now hash kind object_key s none = ok (s, false)
complete_loaded now hash kind object_key s (some (r, file)) = do
  ensure (text_eq file.object_key object_key) generator_artifact_conflict
  ok (if has_status ready r.status then s else make_ready now hash kind r s, true)

-- The canonical JSON and SHA-256 behind the two hashes, and the rows of the recipe's own tables.
pub record Recipes : Type 0 where
  pub generator_options_hash : Prepared → Text → Result DatabaseError Text
  pub generator_artifact_set_hash : Prepared → Text → Text → Result DatabaseError Text
  pub verify_persisted_generator_recipe : Prepared → Result DatabaseError (Unit {0})
  pub insert_generator_processing_recipe : Prepared → Result DatabaseError (Unit {0})

module _ (recipes : Recipes) where
  open recipes use {
    generator_options_hash, generator_artifact_set_hash, verify_persisted_generator_recipe,
  }

  unfoldable pub load_set :
      Prepared
      → Text
      → Text
      → Text
      → Text
      → Artifacts
      → Option ArtifactSetRecord
      → Result DatabaseError Loaded
  load_set prepared options hash kind format s none = ok none
  load_set prepared options hash kind format s (some r) = do
    ensure (matches prepared options kind format r) generator_artifact_conflict
    verify_persisted_generator_recipe prepared
    file ← only_file (filter_by (of_set hash) s.files)
    ensure (file_matches prepared r file) generator_artifact_conflict
    ok (some (r, file))

  unfoldable pub load_generator_artifact :
      Prepared → Text → Text → Artifacts → Result DatabaseError Loaded
  unfolding load_set
  load_generator_artifact prepared kind format s = do
    options ← generator_options_hash prepared format
    hash ← generator_artifact_set_hash prepared kind format
    load_set prepared options hash kind format s (find_set hash s.sets)

  unfoldable pub complete_generator_artifact :
      ℕ → Prepared → Text → Text → Text → Artifacts → Result DatabaseError (Artifacts × Bool)
  unfolding load_generator_artifact complete_loaded
  complete_generator_artifact now prepared kind format object_key s = do
    hash ← generator_artifact_set_hash prepared kind format
    loaded ← load_generator_artifact prepared kind format s
    complete_loaded now hash kind object_key s loaded
