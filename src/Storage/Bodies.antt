-- ===== src/Storage/Bodies.antt =====
-- A body is accepted for its bytes, however its stream cuts them into chunks.
use onshape_export.Base.{
  ℕ, ◌+◌, ◌^◌, ◌<◌, ◌≤◌, ◌≡◌, ◌↔◌, refl, sym, ap, ◌∙◌, Text, text_eq_iff, text_eq_refl,
  optional_text_eq_iff, true, Option, none, some, List, [], ◌∷◌, ◌++◌, map, arith, ◌==◌, ltb,
  length, length-append, Result, ok, err, ensure, ensure-eq-ok, >>=-ok, >>-ok, >>=-eq-ok, >>-eq-ok,
  Bool-cases, inl, inr,
}
use onshape_export.Storage.{
  ℤ, pos, negsuc, StorageError, HeadObjectOutput, GetObjectOutput, Chunks, is_length, counted,
  verify_chunks, ObjectMetadata, wrong_length, wrong_type, verify_object_body,
  verify_object_metadata, head_object, with_length, verify_exact_object, too_short, wrong_digest,
}

abbrev pub concat : List (List ℕ) → List ℕ
concat [] = []
concat (chunk ∷ chunks) = chunk ++ concat chunks

-- The stream ends without an error, after these bytes.
pub record Yields (body : Chunks) (content : List ℕ) : Type 0 where
  pub chunks : List (List ℕ)
  pub streamed : body ≡ map ok chunks
  pub content_eq : content ≡ concat chunks

counted_below :
    (expected count more : ℕ)
    → count + more ≤ expected
    → expected < 2 ^ 64
    → counted expected count more ≡ ok (count + more)
unfolding counted
counted_below expected count more fits bound = ground (arith, fits, bound)

counted-eq-ok :
    (expected count more total : ℕ) → counted expected count more ≡ ok total → total ≡ count + more
unfolding counted
counted-eq-ok expected count more total e = elim (Bool-cases (ltb (count + more) (2 ^ 64))) [
  | inl fits ↦ ground (arith, e, fits)
  | inr over ↦ ground (arith, e, over)
]

module _ (sha256_hex : List ℕ → Text) (expected_len : ℕ) (expected_sha256 : Text) where
  -- What is left of a stream, after `count` bytes that the hasher has seen.
  abbrev IsRest : ℕ → List ℕ → Chunks → Type 0
  IsRest count hashed body =
      (chunks : List (List ℕ)) × (body ≡ map ok chunks)
      × (count + length (concat chunks) ≡ expected_len)
      × (sha256_hex (hashed ++ concat chunks) ≡ expected_sha256)

  append_nil : (xs : List ℕ) → xs ++ [] ≡ xs
  append_nil [] = refl
  append_nil (x ∷ xs) = ap (λ ys. x ∷ ys) (append_nil xs)

  append_assoc : (xs ys zs : List ℕ) → (xs ++ ys) ++ zs ≡ xs ++ (ys ++ zs)
  append_assoc [] ys zs = refl
  append_assoc (x ∷ xs) ys zs = ap (λ t. x ∷ t) (append_assoc xs ys zs)

  verify_chunks-IsRest :
      (count : ℕ) (hashed : List ℕ) (body : Chunks)
      → verify_chunks sha256_hex expected_len expected_sha256 count hashed body ≡ ok tt
      → IsRest count hashed body
  unfolding verify_chunks
  verify_chunks-IsRest count hashed [] h =
      let (counts, digests) = >>-eq-ok (ensure (count == expected_len) too_short) _ h in
      (
        [],
        refl,
        ground (arith, ensure-eq-ok (count == expected_len) too_short counts),
        ap sha256_hex (append_nil hashed)
            ∙ (text_eq_iff (sha256_hex hashed) expected_sha256).0
                (ensure-eq-ok _ wrong_digest digests),
      )
  verify_chunks-IsRest count hashed (err e ∷ body) h = absurd (cc h)
  verify_chunks-IsRest count hashed (ok chunk ∷ body) h =
      let (total, counts, h1) = >>=-eq-ok (counted expected_len count (length chunk)) _ h in
      let (chunks, streamed, fits, digests) =
        verify_chunks-IsRest total (hashed ++ chunk) body h1 in
      (
        chunk ∷ chunks,
        ap (λ rest. ok chunk ∷ rest) streamed,
        omega (
          arith,
          fits,
          counted-eq-ok expected_len count (length chunk) total counts,
          length-append chunk (concat chunks),
        ),
        ap sha256_hex (sym (append_assoc hashed chunk (concat chunks))) ∙ digests,
      )

  IsRest-verify_chunks :
      expected_len < 2 ^ 64
      → (count : ℕ) (hashed : List ℕ) (chunks : List (List ℕ))
      → count + length (concat chunks) ≡ expected_len
      → sha256_hex (hashed ++ concat chunks) ≡ expected_sha256
      → verify_chunks sha256_hex expected_len expected_sha256 count hashed (map ok chunks) ≡ ok tt
  unfolding verify_chunks
  IsRest-verify_chunks bound count hashed [] fits digests =
      ground (arith, fits, ap sha256_hex (append_nil hashed), digests, text_eq_refl expected_sha256)
  IsRest-verify_chunks bound count hashed (chunk ∷ chunks) fits digests =
      let both = length-append chunk (concat chunks) in
      >>=-ok _ (counted_below expected_len count (length chunk) (omega (arith, fits, both)) bound) (
        IsRest-verify_chunks bound (count + length chunk) (hashed ++ chunk) chunks
          (omega (arith, fits, both))
          (ap sha256_hex (append_assoc hashed chunk (concat chunks)) ∙ digests))

  -- For an expected length that a `u64` holds, a body is accepted exactly when its stream ends
  -- without an error and all its bytes together, however they are cut into chunks, have the
  -- expected length and SHA-256.
  pub verify_object_body_iff :
      (body : Chunks)
      → expected_len < 2 ^ 64
      → (verify_object_body sha256_hex body expected_len expected_sha256 ≡ ok tt) ↔ (
          (content : List ℕ) × Yields body content
          × (length content ≡ expected_len)
          × (sha256_hex content ≡ expected_sha256))
  unfolding verify_object_body
  verify_object_body_iff body bound = (
    λ h.
        let (chunks, streamed, fits, digests) = verify_chunks-IsRest 0 [] body h in
        (
          concat chunks,
          record { chunks = chunks; streamed = streamed; content_eq = refl },
          omega (arith, fits),
          digests,
        ),
    λ (content, y, fits, digests).
        ap (verify_chunks sha256_hex expected_len expected_sha256 0 []) y.streamed
        ∙ IsRest-verify_chunks bound 0 [] y.chunks (omega (arith, ap length y.content_eq, fits))
            (ap sha256_hex (sym y.content_eq) ∙ digests),
  )

-- What HEAD and GET say of an object, and that its body yields these bytes.
pub record IsStored (head : Text → Result StorageError HeadObjectOutput)
    (get : Text → Result StorageError GetObjectOutput) (key expected_type : Text) (content : List ℕ)
    : Type 0 where
  pub headed : HeadObjectOutput
  pub head_eq : head key ≡ ok headed
  pub head_length : headed.content_length ≡ some (pos (length content))
  pub head_type : headed.content_type ≡ some expected_type
  pub got : GetObjectOutput
  pub get_eq : get key ≡ ok got
  pub get_length : got.content_length ≡ some (pos (length content))
  pub get_type : got.content_type ≡ some expected_type
  pub yields : Yields got.body content

is_length_sound :
    (n : Option ℤ) (expected : ℕ) → is_length n expected ≡ true → n ≡ some (pos expected)
is_length_sound (some (pos n)) expected h = ground (arith, h)
is_length_sound (some (negsuc n)) expected h = absurd (cc h)
is_length_sound none expected h = absurd (cc h)

verify_object_metadata_iff :
    (content_length : Option ℤ) (content_type : Option Text) (expected_type : Text)
    (expected_len : ℕ)
    → (verify_object_metadata content_length content_type expected_type expected_len ≡ ok tt)
      ↔ ((content_length ≡ some (pos expected_len)) × (content_type ≡ some expected_type))
unfolding verify_object_metadata
verify_object_metadata_iff content_length content_type expected_type expected_len = (
  λ h.
      let (lengths, types) = >>-eq-ok (ensure (is_length content_length expected_len) _) _ h in
      (
        is_length_sound content_length expected_len (ensure-eq-ok _ wrong_length lengths),
        (optional_text_eq_iff content_type (some expected_type)).0
            (ensure-eq-ok _ wrong_type types),
      ),
  λ (lengths, types).
      rw (lengths, types)
        (ground (arith, (optional_text_eq_iff (some expected_type) (some expected_type)).1 refl)),
)

with_length-eq-ok :
    (n : Option ℤ) (t : Option Text) (m : ObjectMetadata)
    → with_length n t ≡ ok m
    → (n ≡ some m.content_length) × (t ≡ m.content_type)
with_length-eq-ok none t m e = absurd (cc e)
with_length-eq-ok (some n) t m e = (ground (arith, e), ground (arith, e))

module _ (sha256_hex : List ℕ → Text) (head : Text → Result StorageError HeadObjectOutput)
    (get : Text → Result StorageError GetObjectOutput) (key expected_type : Text) (expected_len : ℕ)
    (expected_sha256 : Text) where
  -- For an expected length that a `u64` holds, an object is verified exactly when HEAD and GET both
  -- answer with the length and content type that are expected, the stream of the body ends without an
  -- error, and its bytes have the expected length and SHA-256.
  pub verify_exact_object_iff :
      expected_len < 2 ^ 64
      → (verify_exact_object sha256_hex head get key expected_type expected_len expected_sha256
          ≡ ok tt)
        ↔ ((content : List ℕ) × IsStored head get key expected_type content
            × (length content ≡ expected_len)
            × (sha256_hex content ≡ expected_sha256))
  unfolding verify_exact_object head_object
  verify_exact_object_iff bound = (
    λ h.
        let (found, headed, h1) = >>=-eq-ok (head_object sha256_hex head get key) _ h in
        let (o, answered, measured) = >>=-eq-ok (head key) _ headed in
        let (known, typed) = with_length-eq-ok o.content_length o.content_type found measured in
        let (first, h2) =
          >>-eq-ok
            (verify_object_metadata (some found.content_length) found.content_type expected_type
              expected_len)
            _ h1 in
        let (got, gets, h3) = >>=-eq-ok (get key) _ h2 in
        let (second, h4) =
          >>-eq-ok
            (verify_object_metadata got.content_length got.content_type expected_type expected_len)
            _ h3 in
        let (content, y, fits, digests) =
          (verify_object_body_iff sha256_hex expected_len expected_sha256 got.body bound).0 h4 in
        let (l1, t1) =
          (verify_object_metadata_iff (some found.content_length) found.content_type expected_type
              expected_len).0
            first in
        let (l2, t2) =
          (verify_object_metadata_iff got.content_length got.content_type expected_type
              expected_len).0
            second in
        let long = ap (λ n. some (pos n)) (sym fits) in
        (
          content,
          record {
            headed = o;
            head_eq = answered;
            head_length = known ∙ l1 ∙ long;
            head_type = typed ∙ t1;
            got = got;
            get_eq = gets;
            get_length = l2 ∙ long;
            get_type = t2;
            yields = y;
          },
          fits,
          digests,
        ),
    λ (content, is, fits, digests).
        let long = ap (λ n. some (pos n)) fits in
        let measured : head_object sha256_hex head get key
            ≡ ok (record {
              content_length = pos (length content);
              content_type = some expected_type;
            }) =
          >>=-ok _ is.head_eq (rw (is.head_length, is.head_type) refl) in
        >>=-ok _ measured (
          >>-ok ((verify_object_metadata_iff _ _ expected_type expected_len).1 (long, refl)) (
            >>=-ok _ is.get_eq (
              >>-ok
                ((verify_object_metadata_iff is.got.content_length is.got.content_type expected_type
                    expected_len).1
                  (is.get_length ∙ long, is.get_type))
                ((verify_object_body_iff sha256_hex expected_len expected_sha256 is.got.body
                    bound).1
                  (content, is.yields, fits, digests))))),
  )
