-- ===== src/Publication/Published.antt =====
-- A publication that succeeds: the object store holds the accepted bytes, and the set is ready.
use mathlib.Core.Path.{subst}
use onshape_export.Base.{
  ℕ, ◌≡◌, refl, sym, ◌∙◌, Text, text, Bool, true, some, List, [], ◌∷◌, ◌++◌, arith, length, Result,
  ok, err, >>-eq-ok, >>=-eq-ok,
}
use onshape_export.Protocol.Documents.{GeneratedOutput}
use onshape_export.Storage.{verify_exact_object}
use onshape_export.Storage.Bodies.{IsStored, verify_exact_object_iff}
use onshape_export.Artifacts.{
  ready, ArtifactSetRecord, Artifacts, DatabaseError, has_status, find_set,
}
use onshape_export.Artifacts.Generated.{complete_generator_artifact}
use onshape_export.Artifacts.Completion.{complete_generator_artifact-ready}
use onshape_export.Artifacts.Resuming.{GeneratorArtifactState, stage_or_resume_generator_artifact}
use onshape_export.Deployment.{DeployedGenerator}
use onshape_export.Publication.{
  prepared_of, Calls, GeneratorPublicationTarget, PreparedGeneratorProcessing,
  VerifiedGeneratorOutput, MeasuredCandidate, PublicationError, Checked, or_database,
  validate_deployment, generator_publication_object_key, retain_candidate,
}
use onshape_export.Publication.Steps.{
  Cleanup, closed, close_failed, task_failed, World, uploaded, stage_of, file_of, publish_operation,
  conclude, staging, publish_generator_output,
}
use onshape_export.Publication.Retained.{
  rolled_back-ok, completed_with-ok, ok_injective, or_database-ok, or_storage_verification-ok,
  retain_candidate-declared, retain_candidate-media_type, generator_publication_object_key-ok,
}

-- The object is stored with this length and digest, and the set of this hash is ready.
pub record IsReady (sha256_hex : List ℕ → Text) (w : World) (key media_type : Text) (byte_len : ℕ)
    (sha256 hash : Text) (s' : Artifacts) : Type 0 where
  pub content : List ℕ
  pub stored : IsStored w.head w.get key media_type content
  pub measured : length content ≡ byte_len
  pub digest : sha256_hex content ≡ sha256
  pub row : ArtifactSetRecord
  pub found : find_set hash s'.sets ≡ some row
  pub is_ready : has_status ready row.status ≡ true

module _ (calls : Calls) (w : World) (g : DeployedGenerator) (p : PreparedGeneratorProcessing)
    (target : GeneratorPublicationTarget) where
  open calls use {to_string, sha256_hex, recipes}

  abbrev pub publish :
      VerifiedGeneratorOutput → Artifacts → Artifacts × Result PublicationError Text
  publish output s = publish_generator_output calls w g p target output s

  abbrev pub operate : Text → MeasuredCandidate → GeneratorArtifactState → Checked
  operate key c state = publish_operation calls w g p target key c state.status

  abbrev pub stage :
      VerifiedGeneratorOutput
      → Artifacts
      → Result PublicationError (Text × MeasuredCandidate × Artifacts × GeneratorArtifactState)
  stage output s = staging calls w g p target output s

  abbrev pub conclusion :
      Text
      → GeneratorArtifactState
      → Checked
      → Cleanup
      → Artifacts
      → Artifacts × Result PublicationError Text
  conclusion key state done cleanup s = conclude calls w g p target key state done cleanup s

  abbrev complete : Text → Artifacts → Result DatabaseError (Artifacts × Bool)
  complete key s =
      complete_generator_artifact recipes w.finished_at (prepared_of p) target.output_kind
        target.format key s

  -- Only an operation that succeeded, and whose copy was closed, is completed.
  conclude-ok :
      (key published : Text) (state : GeneratorArtifactState) (done : Checked) (cleanup : Cleanup)
      (s s' : Artifacts)
      → conclusion key state done cleanup s ≡ (s', ok published)
      → (done ≡ ok tt) × (complete key s ≡ ok (s', true)) × (key ≡ published)
  unfolding conclude
  conclude-ok key published state (ok tt) closed s s' h =
      let (made, same) = completed_with-ok key published s s' (complete key s) h in
      (refl, made, same)
  conclude-ok key published state (ok tt) close_failed s s' h = absurd (ground (arith, h))
  conclude-ok key published state (ok tt) task_failed s s' h = absurd (ground (arith, h))
  conclude-ok key published state (err e) closed s s' h = absurd (ground (arith, h))
  conclude-ok key published state (err e) close_failed s s' h = absurd (ground (arith, h))
  conclude-ok key published state (err e) task_failed s s' h = absurd (ground (arith, h))

  publish_operation-verifies :
      (key : Text) (c : MeasuredCandidate) (state : GeneratorArtifactState)
      → operate key c state ≡ ok tt
      → verify_exact_object sha256_hex w.head w.get key p.invocation.output.media_type c.byte_len
          c.sha256
        ≡ ok tt
  unfolding publish_operation
  publish_operation-verifies key c state h =
      let (_, verified) = >>-eq-ok (uploaded w state.status key) _ h in
      or_storage_verification-ok _ verified

  -- The parts of a staging that succeeds.
  abbrev pub HasParts :
      VerifiedGeneratorOutput
      → Artifacts
      → Text × MeasuredCandidate × Artifacts × GeneratorArtifactState
      → Type 0
  HasParts output s (key, c, s1, state) =
      (retain_candidate calls w.retention output p ≡ ok c)
      × (generator_publication_object_key calls p target ≡ ok key)
      × (stage_or_resume_generator_artifact to_string recipes w.staged_at (prepared_of p)
            (stage_of calls w g p target key c) (file_of calls w g p target key c ∷ []) s
          ≡ ok (s1, state))

  pub staging-HasParts :
      (output : VerifiedGeneratorOutput) (s : Artifacts)
      (x : Text × MeasuredCandidate × Artifacts × GeneratorArtifactState)
      → stage output s ≡ ok x
      → HasParts output s x
  staging-HasParts output s x h =
      let (_, h1) = >>-eq-ok (validate_deployment calls g p target) _ h in
      let (c, retained, h2) = >>=-eq-ok (retain_candidate calls w.retention output p) _ h1 in
      let (key, keyed, h3) = >>=-eq-ok (generator_publication_object_key calls p target) _ h2 in
      let ((s1, state), made, h4) =
        >>=-eq-ok
          (or_database (
            stage_or_resume_generator_artifact to_string recipes w.staged_at (prepared_of p)
              (stage_of calls w g p target key c) (file_of calls w g p target key c ∷ []) s))
          _ h3 in
      subst (HasParts output s) (ok_injective _ x _ refl h4)
        (retained, keyed, or_database-ok _ (s1, state) made)

  -- When a publication returns an object key, whatever others did to the tables between its steps, then
  -- the key is made of the hash of the set and the logical path, the object store holds under that
  -- key, by HEAD and by GET, bytes of the length and SHA-256 that the accepted output declares, with
  -- its media type, and the set under the hash is ready.
  pub publish_generator_output-IsReady :
      (output : VerifiedGeneratorOutput) (s s' : Artifacts) (key : Text)
      → publish output s ≡ (s', ok key)
      → (o : GeneratedOutput) × (hash : Text) × (output.result.output ≡ some o)
        × (recipes.generator_artifact_set_hash (prepared_of p) target.output_kind target.format
            ≡ ok hash)
        × (key ≡ text "artifacts/v2/" ++ (hash ++ b'/' ∷ target.logical_path))
        × IsReady sha256_hex w key o.media_type o.byte_length o.sha256 hash s'
  unfolding publish_generator_output
  publish_generator_output-IsReady output s s' key h =
      let ((key', c, s1, state), staged, rest) = rolled_back-ok s s' (stage output s) _ key h in
      let (done, made, same) =
        conclude-ok key' key state (operate key' c state) w.cleanup (w.meanwhile s1) s' rest in
      let (retained, keyed, _) = staging-HasParts output s (key', c, s1, state) staged in
      let (o, declared, long, digest, bound) =
        retain_candidate-declared calls w.retention output p c retained in
      let (hash, hashed, made_of) = generator_publication_object_key-ok calls p target key' keyed in
      let (content, stored, measured, digested) =
        (verify_exact_object_iff sha256_hex w.head w.get key' p.invocation.output.media_type
            c.byte_len c.sha256 bound).0
          (publish_operation-verifies key' c state done) in
      let (row, found, is_ready) =
        complete_generator_artifact-ready recipes (prepared_of p) target.output_kind target.format
          hash hashed w.finished_at key' (w.meanwhile s1) s' made in
      (
        o,
        hash,
        declared,
        hashed,
        sym same ∙ made_of,
        record {
          content = content;
          stored =
              subst (λ m. IsStored w.head w.get key m content)
                (retain_candidate-media_type calls w.retention output p c o retained declared)
                (subst (λ k. IsStored w.head w.get k p.invocation.output.media_type content) same
                  stored);
          measured = measured ∙ long;
          digest = digested ∙ digest;
          row = row;
          found = found;
          is_ready = is_ready;
        },
      )
