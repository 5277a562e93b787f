-- ===== src/Protocol/Answers.antt =====
-- Which results answer a request.
use onshape_export.Base.{
  ◌≡◌, ◌≤◌, ◌↔◌, refl, Text, text_eq, text_eq_iff, true, false, Option, none, some, arith, is_empty,
  is_none, Result, ok, ensure, ensure-eq-ok, for_some, >>-eq-ok,
}
use onshape_export.Protocol.{ProtocolError, invocation_mismatch, identities_mismatch}
use onshape_export.Protocol.Documents.{
  ResultStatus, success, failure, GeneratorRequest, GeneratorResult, GeneratedOutput,
  OutputDeclaration, InvocationIdentityPayload, IdentityBindings, bindings_eq, check_contents,
  check_status, check_output, check_answer, validate_result, validate_request,
  validate_against_request,
}

abbrev pub OrNone {ℓ} : {A : Type ℓ} → (A → Type 0) → Option A → Type 0
OrNone P none = Unit
OrNone P (some a) = P a

abbrev pub IsSomeOf {ℓ} : {A : Type ℓ} → (A → Type 0) → Option A → Type 0
IsSomeOf P none = ⊥
IsSomeOf P (some a) = P a

-- The output is the declared one, and not too large.
abbrev pub IsDeclared : OutputDeclaration → GeneratedOutput → Type 0
IsDeclared declared o =
    (o.output_identity ≡ declared.output_identity)
    × (o.path ≡ declared.path)
    × (o.media_type ≡ declared.media_type)
    × (o.byte_length ≤ declared.max_byte_length)

-- A success answers with the declared output and with the identities that were asked for, and has
-- no errors; a failure has errors and no output, and where it states identities they are those asked for.
abbrev pub IsAnswer : GeneratorRequest → ResultStatus → GeneratorResult → Type 0
IsAnswer q success r =
    IsSomeOf (IsDeclared q.output) r.output
    × IsSomeOf (λ identity. identity ≡ q.invocation_identity) r.invocation_identity
    × IsSomeOf (λ i. bindings_eq i q.expected_identities ≡ true) r.reported_identities
    × (is_empty r.errors ≡ true)
IsAnswer q failure r =
    (is_none r.output ≡ true)
    × OrNone (λ identity. identity ≡ q.invocation_identity) r.invocation_identity
    × OrNone (λ i. bindings_eq i q.expected_identities ≡ true) r.reported_identities
    × (is_empty r.errors ≡ false)

module _ {ℓ} {A : Type ℓ} (P : A → Type 0) where
  IsSomeOf-iff : (o : Option A) → IsSomeOf P o ↔ ((is_none o ≡ false) × OrNone P o)
  IsSomeOf-iff none = (λ h. absurd h, λ h. absurd (cc (h.0)))
  IsSomeOf-iff (some a) = (λ h. (refl, h), λ h. h.1)

same_identity :
    (asked : Text) (o : Option Text) (e : ProtocolError)
    → (for_some o (λ identity. ensure (text_eq identity asked) e) ≡ ok tt)
      ↔ OrNone (λ identity. identity ≡ asked) o
same_identity asked none e = (λ h. tt, λ h. refl)
same_identity asked (some identity) e = (
  λ h. (text_eq_iff identity asked).0 (ensure-eq-ok (text_eq identity asked) e h),
  λ h. rw ((text_eq_iff identity asked).1 h) refl,
)

same_bindings :
    (asked : IdentityBindings) (o : Option IdentityBindings) (e : ProtocolError)
    → (for_some o (λ i. ensure (bindings_eq i asked) e) ≡ ok tt)
      ↔ OrNone (λ i. bindings_eq i asked ≡ true) o
same_bindings asked none e = (λ h. tt, λ h. refl)
same_bindings asked (some i) e = (λ h. ensure-eq-ok (bindings_eq i asked) e h, λ h. rw h refl)

check_output_lem :
    (declared : OutputDeclaration) (o : Option GeneratedOutput)
    → (check_output declared o ≡ ok tt) ↔ IsSomeOf (IsDeclared declared) o
check_output_lem declared none = (λ h. absurd (cc h), λ h. absurd h)
check_output_lem declared (some o) = (
  λ h. (
    (text_eq_iff o.output_identity declared.output_identity).0 (ground arith),
    (text_eq_iff o.path declared.path).0 (ground arith),
    (text_eq_iff o.media_type declared.media_type).0 (ground arith),
    ground arith,
  ),
  λ h. ground (
    arith,
    (text_eq_iff o.output_identity declared.output_identity).1 h.0,
    (text_eq_iff o.path declared.path).1 h.1,
    (text_eq_iff o.media_type declared.media_type).1 h.2,
    h.3,
  ),
)

-- What the request's checks and the result's own status say together.
abbrev Checks : GeneratorRequest → ResultStatus → GeneratorResult → Type 0
Checks q st r =
    (check_status st r ≡ ok tt)
    × (for_some r.invocation_identity
          (λ i. ensure (text_eq i q.invocation_identity) invocation_mismatch)
        ≡ ok tt)
    × (for_some r.reported_identities
          (λ i. ensure (bindings_eq i q.expected_identities) identities_mismatch)
        ≡ ok tt)
    × (check_answer st q.output r.output ≡ ok tt)

answers :
    (q : GeneratorRequest) (st : ResultStatus) (r : GeneratorResult)
    → Checks q st r ↔ IsAnswer q st r
answers q success r =
    let i = same_identity q.invocation_identity r.invocation_identity invocation_mismatch in
    let b = same_bindings q.expected_identities r.reported_identities identities_mismatch in
    let some_i =
      IsSomeOf-iff (λ identity. identity ≡ q.invocation_identity) r.invocation_identity in
    let some_b =
      IsSomeOf-iff (λ x. bindings_eq x q.expected_identities ≡ true) r.reported_identities in
    let declared = check_output_lem q.output r.output in
    (
      λ (status, asked, bound, out). (
        declared.0 out,
        some_i.1 (ground (arith, status), i.0 asked),
        some_b.1 (ground (arith, status), b.0 bound),
        ground (arith, status),
      ),
      λ (out, asked, bound, clean). (
        ground (
          arith,
          (some_i.0 asked).0,
          (some_b.0 bound).0,
          ((IsSomeOf-iff (IsDeclared q.output) r.output).0 out).0,
          clean,
        ),
        i.1 (some_i.0 asked).1,
        b.1 (some_b.0 bound).1,
        declared.1 out,
      ),
    )
answers q failure r =
    let i = same_identity q.invocation_identity r.invocation_identity invocation_mismatch in
    let b = same_bindings q.expected_identities r.reported_identities identities_mismatch in
    (
      λ (status, asked, bound, _).
          (ground (arith, status), i.0 asked, b.0 bound, ground (arith, status)),
      λ (none_out, asked, bound, bad). (ground (arith, none_out, bad), i.1 asked, b.1 bound, refl),
    )

module _ (hash_json : InvocationIdentityPayload → Result ProtocolError Text) where
  -- A result is accepted against a request exactly when the request is valid, the result is valid, and
  -- the result answers the request: a success brings the declared output, within the byte limit, with
  -- the request's invocation identity and bindings, and no errors; a failure brings errors and no
  -- output, and any identities that it states are the request's.
  pub validate_against_request_iff :
      (r : GeneratorResult) (q : GeneratorRequest)
      → (validate_against_request hash_json r q ≡ ok tt) ↔ (
          (validate_request hash_json q ≡ ok tt)
          × (validate_result r ≡ ok tt)
          × IsAnswer q r.status r)
  unfolding validate_against_request
  validate_against_request_iff r q = (
    λ h.
        let (valid_q, h1) = >>-eq-ok (validate_request hash_json q) _ h in
        let (valid_r, h2) = >>-eq-ok (validate_result r) _ h1 in
        let (asked, h3) =
          >>-eq-ok
            (for_some r.invocation_identity
              (λ i. ensure (text_eq i q.invocation_identity) invocation_mismatch))
            _ h2 in
        let (bound, out) =
          >>-eq-ok
            (for_some r.reported_identities
              (λ i. ensure (bindings_eq i q.expected_identities) identities_mismatch))
            _ h3 in
        (valid_q, valid_r, (answers q r.status r).0 (last_check r valid_r, asked, bound, out)),
    λ (valid_q, valid_r, answer).
        let (_, asked, bound, out) = (answers q r.status r).1 answer in
        rw valid_q (rw valid_r (rw asked (rw bound out))),
  )
    where
      last_check :
          (r : GeneratorResult) → validate_result r ≡ ok tt → check_status r.status r ≡ ok tt
      last_check r h =
          unfold validate_result in (>>-eq-ok (check_contents r) (check_status r.status r) h).1
