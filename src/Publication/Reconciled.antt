-- ===== src/Publication/Reconciled.antt =====
-- A reconciliation that succeeds: the object store holds the bytes of the stored file, and the set is
-- ready.
use mathlib.Core.Path.{subst}
use onshape_export.Base.{
  ◌^◌, ◌<◌, ◌≡◌, refl, sym, ◌∙◌, Text, text, Bool, true, Option, none, some, ◌∷◌, ◌++◌, arith,
  filter_by, Result, ok, err, ensure, ensure-eq-ok, >>-eq-ok, >>=-eq-ok,
}
use onshape_export.Protocol.{ProtocolError}
use onshape_export.Protocol.Documents.{GeneratorResult, GeneratedOutput, validate_against_request}
use onshape_export.Storage.{StorageError, verify_exact_object}
use onshape_export.Storage.Bodies.{IsStored, verify_exact_object_iff}
use onshape_export.Artifacts.{
  ArtifactSetRecord, ArtifactFileInsert, Artifacts, ArtifactMetadata, DatabaseError, find_set,
}
use onshape_export.Artifacts.Staging.{of_set}
use onshape_export.Artifacts.Generated.{
  Loaded, load_set, load_generator_artifact, matches, file_matches, only_file,
  complete_generator_artifact,
}
use onshape_export.Artifacts.Completion.{complete_generator_artifact-ready}
use onshape_export.Deployment.{DeployedGenerator}
use onshape_export.Publication.{
  prepared_of, Calls, GeneratorPublicationTarget, PreparedGeneratorProcessing, PublicationError,
  Checked, or_invalid_result, output_of, declarations_mismatch, generator_publication_object_key,
  validate_deployment,
}
use onshape_export.Publication.Steps.{
  World, or_stored_verification, is_presentation, presentation_of, declares, check_stored,
  conclude_stored, reconcile_loaded, reconcile_generator_artifact,
}
use onshape_export.Publication.Retained.{
  rolled_back-ok, completed_with-ok, or_stored_verification-ok, or_database-ok,
  generator_publication_object_key-ok,
}
use onshape_export.Publication.Published.{IsReady}

module _ (calls : Calls) (w : World) (g : DeployedGenerator) (p : PreparedGeneratorProcessing)
    (target : GeneratorPublicationTarget)
    (same_presentation : Text → ArtifactMetadata → Option Bool)
    (parse_result : Text → Result ProtocolError GeneratorResult) where
  open calls use {hash_invocation, sha256_hex, recipes}

  abbrev pub load : Artifacts → Result DatabaseError Loaded
  load s = load_generator_artifact recipes (prepared_of p) target.output_kind target.format s

  abbrev pub reconcile : Artifacts → Artifacts × Result PublicationError (Option Text)
  reconcile s = reconcile_generator_artifact calls w g p target same_presentation parse_result s

  set_file :
      (options hash : Text) (s : Artifacts) (o : Option ArtifactSetRecord) (r : ArtifactSetRecord)
      (file : ArtifactFileInsert)
      → load_set recipes (prepared_of p) options hash target.output_kind target.format s o
        ≡ ok (some (r, file))
      → file_matches (prepared_of p) r file ≡ true
  unfolding load_set
  set_file options hash s none r file e = absurd (cc e)
  set_file options hash s (some x) r file e =
      let (_, fits, e1) =
        >>=-eq-ok (ensure (matches (prepared_of p) options target.output_kind target.format x) _) _
          e in
      let (_, _, e2) = >>=-eq-ok (recipes.verify_persisted_generator_recipe (prepared_of p)) _ e1 in
      let (found, _, e3) = >>=-eq-ok (only_file (filter_by (of_set hash) s.files)) _ e2 in
      let (_, same, e4) = >>=-eq-ok (ensure (file_matches (prepared_of p) x found) _) _ e3 in
      let row : x ≡ r = ground (arith, e4) in
      let here : found ≡ file = ground (arith, e4) in
      subst (λ y. file_matches (prepared_of p) y file ≡ true) row
        (subst (λ y. file_matches (prepared_of p) x y ≡ true) here
          (ensure-eq-ok (file_matches (prepared_of p) x found) _ same))

  loaded_file :
      (s : Artifacts) (r : ArtifactSetRecord) (file : ArtifactFileInsert)
      → load s ≡ ok (some (r, file))
      → file_matches (prepared_of p) r file ≡ true
  unfolding load_generator_artifact
  loaded_file s r file e =
      let (options, _, e1) =
        >>=-eq-ok (recipes.generator_options_hash (prepared_of p) target.format) _ e in
      let (hash, _, e2) =
        >>=-eq-ok
          (recipes.generator_artifact_set_hash (prepared_of p) target.output_kind target.format) _
          e1 in
      set_file options hash s (find_set hash s.sets) r file e2

  bounded :
      (r : ArtifactSetRecord) (file : ArtifactFileInsert)
      → p.invocation.output.max_byte_length < 2 ^ 64
      → file_matches (prepared_of p) r file ≡ true
      → file.byte_len < 2 ^ 64
  bounded r file bound same = grind arith

  abbrev stored_object : Text → ArtifactFileInsert → Result StorageError (Unit {0})
  stored_object key file =
      verify_exact_object sha256_hex w.head w.get key file.content_type file.byte_len file.sha256

  abbrev presented : ArtifactSetRecord → Checked
  presented r = is_presentation calls w g p target same_presentation parse_result (
      same_presentation r.metadata_json
        (presentation_of calls w g p target same_presentation parse_result))

  abbrev declared : Text → ArtifactFileInsert → GeneratorResult → GeneratedOutput → Bool
  declared key file result output =
      declares calls w g p target same_presentation parse_result key file result output

  -- What is checked of the stored set before its object is read gives the key of the publication.
  check_stored-key :
      (r : ArtifactSetRecord) (file : ArtifactFileInsert) (key : Text)
      → check_stored calls w g p target same_presentation parse_result r file ≡ ok key
      → generator_publication_object_key calls p target ≡ ok key
  unfolding check_stored
  check_stored-key r file key h =
      let (made, keyed, h1) = >>=-eq-ok (generator_publication_object_key calls p target) _ h in
      let (_, h2) = >>-eq-ok (presented r) _ h1 in
      let (result, _, h3) = >>=-eq-ok (or_invalid_result (parse_result file.metadata_json)) _ h2 in
      let (_, h4) =
        >>-eq-ok (or_invalid_result (validate_against_request hash_invocation result p.invocation))
          _ h3 in
      let (output, _, h5) = >>=-eq-ok (output_of result.output) _ h4 in
      let (_, h6) =
        >>-eq-ok (ensure (declared made file result output) declarations_mismatch) _ h5 in
      keyed ∙ h6

  -- A conclusion that succeeds has verified the object and completed the set.
  conclude_stored-ok :
      (r : ArtifactSetRecord) (key key' : Text) (done : Checked) (s s' : Artifacts)
      → conclude_stored calls w g p target same_presentation parse_result r key done s
        ≡ (s', ok (some key'))
      → (done ≡ ok tt)
        × (complete_generator_artifact recipes w.finished_at
              (prepared_of p)
              target.output_kind
              target.format
              key
              s
            ≡ ok (s', true))
        × (some key ≡ some key')
  unfolding conclude_stored
  conclude_stored-ok r key key' (err e) s s' h = absurd (ground (arith, h))
  conclude_stored-ok r key key' (ok tt) s s' h =
      let (made, same) = completed_with-ok (some key) (some key') s s' _ h in (refl, made, same)

  reconcile_loaded-IsReady :
      (s s' : Artifacts) (key : Text)
      → p.invocation.output.max_byte_length < 2 ^ 64
      → (l : Loaded) → load s ≡ ok l
      → reconcile_loaded calls w g p target same_presentation parse_result s l ≡ (s', ok (some key))
      → (r : ArtifactSetRecord) × (file : ArtifactFileInsert) × (hash : Text) × (load s
          ≡ ok (some (r, file)))
        × (recipes.generator_artifact_set_hash (prepared_of p) target.output_kind target.format
            ≡ ok hash)
        × (key ≡ text "artifacts/v2/" ++ (hash ++ b'/' ∷ target.logical_path))
        × IsReady sha256_hex w key file.content_type file.byte_len file.sha256 hash s'
  unfolding reconcile_loaded
  reconcile_loaded-IsReady s s' key bound none read h = absurd (ground (arith, h))
  reconcile_loaded-IsReady s s' key bound (some (r, file)) read h =
      let (key', checked, rest) = rolled_back-ok s s' _ _ (some key) h in
      let (done, made, same_key) =
        conclude_stored-ok r key' key (or_stored_verification (stored_object key' file))
          (w.meanwhile s) s' rest in
      let same : key' ≡ key = ground (arith, same_key) in
      let (hash, hashed, made_of) =
        generator_publication_object_key-ok calls p target key'
          (check_stored-key r file key' checked) in
      let (content, stored, measured, digested) =
        (verify_exact_object_iff sha256_hex w.head w.get key' file.content_type file.byte_len
            file.sha256 (bounded r file bound (loaded_file s r file read))).0
          (or_stored_verification-ok (stored_object key' file) done) in
      let (row, found, is_ready) =
        complete_generator_artifact-ready recipes (prepared_of p) target.output_kind target.format
          hash hashed w.finished_at key' (w.meanwhile s) s' made in
      (
        r,
        file,
        hash,
        read,
        hashed,
        sym same ∙ made_of,
        record {
          content = content;
          stored = subst (λ k. IsStored w.head w.get k file.content_type content) same stored;
          measured = measured;
          digest = digested;
          row = row;
          found = found;
          is_ready = is_ready;
        },
      )

  -- When a reconciliation returns an object key, and the declared bound on a length is a 64-bit number,
  -- then the load from the tables gave a row and a file, the key is made of the hash of the set and the
  -- logical path, the object store holds under that key, by HEAD and by GET, bytes of the length, the
  -- SHA-256 and the media type of that file, and the set under the hash is ready, whatever others did
  -- to the tables between the load and the completion.
  pub reconcile_generator_artifact-IsReady :
      (s s' : Artifacts) (key : Text)
      → p.invocation.output.max_byte_length < 2 ^ 64
      → reconcile s ≡ (s', ok (some key))
      → (r : ArtifactSetRecord) × (file : ArtifactFileInsert) × (hash : Text) × (load s
          ≡ ok (some (r, file)))
        × (recipes.generator_artifact_set_hash (prepared_of p) target.output_kind target.format
            ≡ ok hash)
        × (key ≡ text "artifacts/v2/" ++ (hash ++ b'/' ∷ target.logical_path))
        × IsReady sha256_hex w key file.content_type file.byte_len file.sha256 hash s'
  unfolding reconcile_generator_artifact
  reconcile_generator_artifact-IsReady s s' key bound h =
      let (l, checked, rest) = rolled_back-ok s s' _ _ (some key) h in
      let (_, read) = >>-eq-ok (validate_deployment calls g p target) _ checked in
      reconcile_loaded-IsReady s s' key bound l (or_database-ok (load s) l read) rest
