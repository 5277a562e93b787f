-- ===== src/Publication/Withdrawn.antt =====
-- A publication whose upload or verification fails: the set is marked as failed.
use onshape_export.Base.{
  ℕ, ◌≡◌, refl, ap, ◌∙◌, Text, text_eq, text_eq_iff, text_eq_refl, Bool, true, false, not, ◌&&◌,
  ◌||◌, Option, none, some, arith, is_none, find_by-key, find_by-update_where, changed, ok, err,
  Bool-cases, inl, inr,
}
use onshape_export.Artifacts.{
  ready, upload_failed, ArtifactSetRecord, Artifacts, has_hash, has_status, find_set,
}
use onshape_export.Artifacts.Generated.{
  Prepared, is_text, is_live, is_pending, matches, advanced, is_failing, is_observed,
  fail_generator_artifact, fail_ready_generator_verification,
}
use onshape_export.Artifacts.Resuming.{GeneratorArtifactState}
use onshape_export.Artifacts.Resumed.{stage_or_resume_generator_artifact-IsResumed}
use onshape_export.Deployment.{DeployedGenerator}
use onshape_export.Publication.{
  prepared_of, Calls, GeneratorPublicationTarget, PreparedGeneratorProcessing,
  VerifiedGeneratorOutput, MeasuredCandidate, PublicationError,
}
use onshape_export.Publication.Steps.{
  Cleanup, closed, close_failed, task_failed, World, ready_revision, record_verification_failure,
  rolled_back, conclude, publish_generator_output,
}
use onshape_export.Publication.Published.{publish, operate, conclusion, stage, staging-HasParts}

abbrev hash_of : ArtifactSetRecord → Text
hash_of r = r.artifact_set_hash

-- An UPDATE of rows with the hash leaves the other entries of the map alone.
apart_changed :
    (p : ArtifactSetRecord → Bool) (f : ArtifactSetRecord → ArtifactSetRecord) (hash h : Text)
    (s : Artifacts) (o : Option ArtifactSetRecord)
    → text_eq hash h ≡ false
    → find_set h s.sets ≡ o
    → changed hash_of (λ x. has_hash hash x && p x) f o ≡ o
apart_changed p f hash h s none apart e = refl
apart_changed p f hash h s (some x) apart e = ground (
  arith,
  find_by-key hash_of h s.sets {x = x} e,
  text_eq_iff x.artifact_set_hash hash,
  text_eq_iff hash h,
)

pub record_verification_failure-apart :
    (now : ℕ) (hash h : Text) (revision : Option ℕ) (s : Artifacts)
    → text_eq hash h ≡ false
    → find_set h (record_verification_failure now hash revision s).sets ≡ find_set h s.sets
unfolding record_verification_failure fail_generator_artifact fail_ready_generator_verification
record_verification_failure-apart now hash h none s apart =
    find_by-update_where hash_of (is_failing hash) (advanced now upload_failed) (λ x. refl) h s.sets
    ∙ apart_changed (λ x. not (is_none x.generator_processing_hash) && (is_pending x && is_live x))
        (advanced now upload_failed) hash h s _ apart refl
record_verification_failure-apart now hash h (some revision) s apart =
    find_by-update_where hash_of (λ x. has_hash hash x && is_observed revision x)
      (advanced now upload_failed) (λ x. refl) h s.sets
    ∙ apart_changed (is_observed revision) (advanced now upload_failed) hash h s _ apart refl

is_text_some : (s : Text) (o : Option Text) → is_text s o ≡ true → is_none o ≡ false
is_text_some s none h = absurd (cc h)
is_text_some s (some t) h = refl

-- The version that was observed is still there, so it is withdrawn.
pub record_verification_failure-found :
    (now : ℕ) (hash : Text) (s : Artifacts) (row : ArtifactSetRecord)
    → find_set hash s.sets ≡ some row
    → is_none row.generator_processing_hash ≡ false
    → (is_pending row || has_status ready row.status) && is_live row ≡ true
    → find_set hash
        (record_verification_failure now hash (ready_revision row.status row.updated_at) s).sets
      ≡ some (advanced now upload_failed row)
unfolding record_verification_failure fail_generator_artifact fail_ready_generator_verification
record_verification_failure-found now hash s row found made live =
    let keyed = find_by-key hash_of hash s.sets {x = row} found in
    elim (Bool-cases (has_status ready row.status)) [
      | inl is_ready ↦ rw is_ready (
          find_by-update_where hash_of (λ x. has_hash hash x && is_observed row.updated_at x)
            (advanced now upload_failed) (λ x. refl) hash s.sets
          ∙ ap
              (changed hash_of (λ x. has_hash hash x && is_observed row.updated_at x)
                (advanced now upload_failed))
              found
          ∙ ground (arith, keyed, text_eq_refl hash, made, live, is_ready))
      | inr pending ↦ rw pending (
          find_by-update_where hash_of (is_failing hash) (advanced now upload_failed) (λ x. refl)
            hash s.sets
          ∙ ap (changed hash_of (is_failing hash) (advanced now upload_failed)) found
          ∙ ground (arith, keyed, text_eq_refl hash, made, live, pending))
    ]

-- The cleanup ran to its end.
abbrev pub ended : Cleanup → Bool
ended closed = true
ended close_failed = true
ended task_failed = false

-- The set under the hash is marked as failed, and every other set is as it was.
pub record IsWithdrawn (hash : Text) (s s' : Artifacts) : Type 0 where
  pub row : ArtifactSetRecord
  pub found : find_set hash s'.sets ≡ some row
  pub is_failed : has_status upload_failed row.status ≡ true
  pub others : (h : Text) → text_eq hash h ≡ false → find_set h s'.sets ≡ find_set h s.sets

record_verification_failure-IsWithdrawn :
    (prepared : Prepared) (now : ℕ) (options kind format hash : Text) (s : Artifacts)
    (row : ArtifactSetRecord)
    → find_set hash s.sets ≡ some row
    → matches prepared options kind format row ≡ true
    → IsWithdrawn hash s
        (record_verification_failure now hash (ready_revision row.status row.updated_at) s)
record_verification_failure-IsWithdrawn prepared now options kind format hash s row found fits =
    record {
      row = advanced now upload_failed row;
      found =
          record_verification_failure-found now hash s row found
            (is_text_some prepared.processing_hash row.generator_processing_hash
              (ground (arith, fits)))
            (ground (arith, fits));
      is_failed = refl;
      others = λ h apart.
          record_verification_failure-apart now hash h (ready_revision row.status row.updated_at) s
            apart;
    }

module _ (calls : Calls) (w : World) (g : DeployedGenerator) (p : PreparedGeneratorProcessing)
    (target : GeneratorPublicationTarget) where
  open calls use {to_string, recipes}

  conclude_failed :
      (key : Text) (state : GeneratorArtifactState) (e : PublicationError) (cleanup : Cleanup)
      (s : Artifacts)
      → ended cleanup ≡ true
      → conclusion calls w g p target key state (err e) cleanup s ≡ (
        record_verification_failure w.finished_at state.artifact_set_hash
            (ready_revision state.status state.updated_at)
            s,
        err e,
      )
  unfolding conclude
  conclude_failed key state e closed s h = refl
  conclude_failed key state e close_failed s h = refl
  conclude_failed key state e task_failed s h = absurd (cc h)

  -- When a publication has staged or resumed its set, and then the upload or the verification of the
  -- object fails, the cleanup runs to its end, and nobody else writes the tables meanwhile, then the
  -- publication returns that failure, the set under its hash is marked as failed, whether it was
  -- pending or ready, and every other set is as the staging left it.
  pub publish_generator_output-IsWithdrawn :
      (output : VerifiedGeneratorOutput) (s s1 : Artifacts) (key : Text) (c : MeasuredCandidate)
      (state : GeneratorArtifactState) (e : PublicationError)
      → stage calls w g p target output s ≡ ok (key, c, s1, state)
      → operate calls w g p target key c state ≡ err e
      → ended w.cleanup ≡ true
      → w.meanwhile s1 ≡ s1
      → (s' : Artifacts) × (hash : Text) × (recipes.generator_artifact_set_hash
            (prepared_of p)
            target.output_kind
            target.format
          ≡ ok hash)
        × (publish calls w g p target output s ≡ (s', err e))
        × IsWithdrawn hash s1 s'
  unfolding publish_generator_output conclude
  publish_generator_output-IsWithdrawn output s s1 key c state e before failing cleaned alone =
      let (_, _, made) = staging-HasParts calls w g p target output s (key, c, s1, state) before in
      let (f, options, hash, _, _, _, hashed, _, is) =
        stage_or_resume_generator_artifact-IsResumed to_string recipes w.staged_at (prepared_of p) _
          _ s s1 state made in
      (
        record_verification_failure w.finished_at hash
            (ready_revision is.row.status is.row.updated_at) s1,
        hash,
        hashed,
        ap
              (λ o. rolled_back s o (λ (k, x, t, st).
                conclusion calls w g p target k st (operate calls w g p target k x st) w.cleanup
                  (w.meanwhile t)))
              before
            ∙ ap (λ o. conclusion calls w g p target key state o w.cleanup (w.meanwhile s1)) failing
            ∙ ap (conclusion calls w g p target key state (err e) w.cleanup) alone
            ∙ conclude_failed key state e w.cleanup s1 cleaned
            ∙ ap
                (λ (st : GeneratorArtifactState). (
                  record_verification_failure w.finished_at st.artifact_set_hash
                      (ready_revision st.status st.updated_at) s1,
                  err e,
                ))
                is.told,
        record_verification_failure-IsWithdrawn (prepared_of p) w.finished_at options
            target.output_kind target.format hash s1 is.row is.found is.fits,
      )
