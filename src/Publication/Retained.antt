-- ===== src/Publication/Retained.antt =====
-- What the parts of a publication give when they succeed: the private copy and the object key.
use mathlib.Core.Path.{subst}
use onshape_export.Protocol.{ProtocolError}
use onshape_export.Protocol.Answers.{IsSomeOf, IsDeclared, IsAnswer, validate_against_request_iff}
use onshape_export.Base.{
  ◌^◌, ◌<◌, ◌≡◌, refl, sym, ap, ◌∙◌, Text, text, text_eq, text_eq_iff, Bool, true, false, ◌&&◌,
  Option, none, some, [], ◌∷◌, ◌++◌, ◌==◌, arith, Result, ok, err, ensure, ensure-eq-ok, >>-eq-ok,
  >>=-eq-ok,
}
use onshape_export.Protocol.Documents.{
  ResultStatus, success, failure, GeneratedOutput, validate_against_request,
}
use onshape_export.Storage.{StorageError}
use onshape_export.Artifacts.{Artifacts, DatabaseError}
use onshape_export.Publication.{
  prepared_of, Calls, GeneratorPublicationTarget, PreparedGeneratorProcessing,
  VerifiedGeneratorOutput, MeasuredCandidate, PublicationError, Checked, different_invocation,
  not_successful, length_out_of_bounds, candidate_mismatch, or_database, or_invalid_result,
  output_of, is_success, fits_i64, copy, validate_target, generator_publication_object_key,
  retain_candidate,
}
use onshape_export.Publication.Steps.{
  or_storage_verification, or_stored_verification, completed_with, rolled_back,
}

pub rolled_back-ok :
    {A B : Type 0} (s s' : Artifacts) (o : Result PublicationError A)
    (next : A → Artifacts × Result PublicationError B) (b : B)
    → rolled_back s o next ≡ (s', ok b)
    → (a : A) × (o ≡ ok a) × (next a ≡ (s', ok b))
rolled_back-ok s s' (err e) next b h = absurd (ground (arith, h))
rolled_back-ok s s' (ok a) next b h = (a, refl, h)

pub completed_with-ok :
    {A : Type 0} (a b : A) (s s' : Artifacts) (o : Result DatabaseError (Artifacts × Bool))
    → completed_with a s o ≡ (s', ok b)
    → (o ≡ ok (s', true)) × (a ≡ b)
completed_with-ok a b s s' (err e) h = absurd (ground (arith, h))
completed_with-ok a b s s' (ok (t, false)) h = absurd (ground (arith, h))
completed_with-ok a b s s' (ok (t, true)) h = (ground (arith, h), ground (arith, h))

abbrev value_or : {A : Type 0} → A → Result PublicationError A → A
value_or a (ok x) = x
value_or a (err e) = a

pub ok_injective :
    {A : Type 0} (x y : A) (o : Result PublicationError A) → o ≡ ok x → o ≡ ok y → x ≡ y
ok_injective x y o h k = ap (value_or x) (sym h ∙ k)

pub or_database-ok :
    {A : Type 0} (o : Result DatabaseError A) (a : A) → or_database o ≡ ok a → o ≡ ok a
or_database-ok (ok x) a h = ground (arith, h)
or_database-ok (err e) a h = absurd (cc h)

pub output_of-ok :
    (o : Option GeneratedOutput) (x : GeneratedOutput) → output_of o ≡ ok x → o ≡ some x
output_of-ok none x h = absurd (cc h)
output_of-ok (some y) x h = ground (arith, h)

pub or_storage_verification-ok :
    (o : Result StorageError (Unit {0})) → or_storage_verification o ≡ ok tt → o ≡ ok tt
or_storage_verification-ok (ok tt) h = refl
or_storage_verification-ok (err e) h = absurd (cc h)

pub or_stored_verification-ok :
    (o : Result StorageError (Unit {0})) → or_stored_verification o ≡ ok tt → o ≡ ok tt
or_stored_verification-ok (ok tt) h = refl
or_stored_verification-ok (err e) h = absurd (cc h)

or_invalid_result-ok :
    {A : Type 0} (o : Result ProtocolError A) {a : A} → or_invalid_result o ≡ ok a → o ≡ ok a
or_invalid_result-ok (ok x) {a} h = ground (arith, h)
or_invalid_result-ok (err e) {a} h = absurd (cc h)

module _ (calls : Calls) where
  open calls use {hash_invocation, sha256_hex, recipes}

  -- An accepted output has the media type that the invocation asks for.
  pub retain_candidate-media_type :
      (retention : Checked) (output : VerifiedGeneratorOutput) (p : PreparedGeneratorProcessing)
      (c : MeasuredCandidate) (o : GeneratedOutput)
      → retain_candidate calls retention output p ≡ ok c
      → output.result.output ≡ some o
      → p.invocation.output.media_type ≡ o.media_type
  unfolding retain_candidate
  retain_candidate-media_type retention output p c o h there =
      let (_, h1) =
        >>-eq-ok
          (ensure
            (text_eq output.processing_hash p.processing_hash
              && text_eq output.invocation_identity p.invocation.invocation_identity)
            different_invocation)
          _ h in
      let (succeeded, h2) =
        >>-eq-ok (ensure (is_success output.result.status) not_successful) _ h1 in
      let (valid, _) =
        >>-eq-ok
          (or_invalid_result (validate_against_request hash_invocation output.result p.invocation))
          _ h2 in
      let (_, _, answers) =
        (validate_against_request_iff hash_invocation output.result p.invocation).0
          (or_invalid_result-ok _ valid) in
      let fine = ensure-eq-ok (is_success output.result.status) not_successful succeeded in
      declared_media output.result.status fine answers
    where
      declared_media :
          (status : ResultStatus)
          → is_success status ≡ true
          → IsAnswer p.invocation status output.result
          → p.invocation.output.media_type ≡ o.media_type
      declared_media failure fine answers = absurd (cc fine)
      declared_media success fine answers =
          let declared : IsSomeOf (IsDeclared p.invocation.output) (some o) =
            subst (IsSomeOf (IsDeclared p.invocation.output)) there answers.0 in
          sym declared.2

  -- The candidate is what the accepted output declares.
  pub retain_candidate-declared :
      (retention : Checked) (output : VerifiedGeneratorOutput) (p : PreparedGeneratorProcessing)
      (c : MeasuredCandidate)
      → retain_candidate calls retention output p ≡ ok c
      → (o : GeneratedOutput) × (output.result.output ≡ some o)
        × (c.byte_len ≡ o.byte_length)
        × (c.sha256 ≡ o.sha256)
        × (c.byte_len < 2 ^ 64)
  unfolding retain_candidate
  retain_candidate-declared retention output p c h =
      let (_, h1) =
        >>-eq-ok
          (ensure
            (text_eq output.processing_hash p.processing_hash
              && text_eq output.invocation_identity p.invocation.invocation_identity)
            different_invocation)
          _ h in
      let (_, h2) = >>-eq-ok (ensure (is_success output.result.status) not_successful) _ h1 in
      let (_, h3) =
        >>-eq-ok
          (or_invalid_result (validate_against_request hash_invocation output.result p.invocation))
          _ h2 in
      let (o, declared, h4) = >>=-eq-ok (output_of output.result.output) _ h3 in
      let (small, h5) = >>-eq-ok (ensure (fits_i64 o.byte_length) length_out_of_bounds) _ h4 in
      let (_, h6) = >>-eq-ok retention _ h5 in
      let (m, _, h7) =
        >>=-eq-ok (copy o.byte_length (record { count = 0; hashed = [] }) output.reads) _ h6 in
      let (same, made) =
        >>-eq-ok
          (ensure (m.count == o.byte_length && text_eq (sha256_hex m.hashed) o.sha256)
            candidate_mismatch)
          _ h7 in
      let bound = ensure-eq-ok (fits_i64 o.byte_length) length_out_of_bounds small in
      let equal = ensure-eq-ok _ candidate_mismatch same in
      let long : c.byte_len ≡ o.byte_length = ground (arith, made) in
      (
        o,
        output_of-ok output.result.output o declared,
        long,
        ground (arith, made, text_eq_iff (sha256_hex m.hashed) o.sha256, equal),
        ground (arith, long, bound),
      )

  pub generator_publication_object_key-ok :
      (p : PreparedGeneratorProcessing) (target : GeneratorPublicationTarget) (key : Text)
      → generator_publication_object_key calls p target ≡ ok key
      → (hash : Text) × (recipes.generator_artifact_set_hash
            (prepared_of p)
            target.output_kind
            target.format
          ≡ ok hash)
        × (key ≡ text "artifacts/v2/" ++ (hash ++ b'/' ∷ target.logical_path))
  unfolding generator_publication_object_key
  generator_publication_object_key-ok p target key h =
      let (_, h1) = >>-eq-ok (validate_target calls p target) _ h in
      let (hash, hashed, h2) =
        >>=-eq-ok
          (or_database
            (recipes.generator_artifact_set_hash (prepared_of p) target.output_kind target.format))
          _ h1 in
      (hash, or_database-ok _ hash hashed, ground (arith, h2))
