-- ===== src/Inputs/Allocation.antt =====
-- When paths are allocated, and that the allocated paths pass their own check.
use onshape_export.Base.{
  ℕ, suc, ◌+◌, ◌≤◌, ◌<◌, ◌≡◌, ◌↔◌, refl, ap, ◌∙◌, Text, text, text_eq, bytes, utf8, len, split,
  split-piece, split-lacks, lacks, starts_with, Bool, true, false, not, ◌&&◌, ◌||◌, List, [], ◌∷◌,
  ◌++◌, arith, leb, ◌==◌, any, all, all-append, all-bytes, len-ascii, length, length-append,
  is_ascii, is_ascii_digit, is_empty, All, Distinct, all_new, all_new_iff, ok, ensure, ensure-eq-ok,
  for_each, >>-eq-ok,
}
use onshape_export.Failure.{is_sha256}
use onshape_export.Protocol.{validate_relative_path, is_segment, is_path_byte, invalid_segment}
use onshape_export.Inputs.{
  repeated_identity, wrong_object_count, check_identities, file_name, retained_path, retained_paths,
  validate_allocated_paths, allocate_retained_paths,
}

abbrev is_hex : ℕ → Bool
is_hex b = is_ascii_digit b || leb b'a' b && leb b b'f'

high_is_no_hex : (b : ℕ) → 0x80 ≤ b → is_hex b ≡ false
high_is_no_hex b h = ground arith

hex_is_plain :
    (s : Text)
    → all is_hex s ≡ true
    → (all is_path_byte s ≡ true) × (all is_ascii s ≡ true) × (lacks b'/' s ≡ true)
hex_is_plain [] h = (refl, refl, refl)
hex_is_plain (c ∷ s) h =
    let (plain, ascii, flat) = hex_is_plain s (ground arith) in
    (ground (arith, plain), ground (arith, ascii), ground (arith, flat))

-- A digest has 64 hexadecimal characters.
digest_chars : (s : Text) → is_sha256 s ≡ true → (all is_hex s ≡ true) × (length s ≡ 64)
unfolding is_sha256
digest_chars s h =
    let hex : all is_hex s ≡ true = ground (arith, all-bytes is_hex s high_is_no_hex) in
    (hex, ground (arith, len-ascii s (hex_is_plain s hex).1))

module _ (p : ℕ) (identity : Text) (small : p < 1000) (digest : is_sha256 identity ≡ true) where
  -- `NNN-<digest>.3mf` is a plain file name of 72 characters.
  file_plain :
      (all is_path_byte (file_name p identity) ≡ true)
      × (all is_ascii (file_name p identity) ≡ true)
      × (lacks b'/' (file_name p identity) ≡ true)
      × (length (file_name p identity) ≡ 72)
  unfolding text
  file_plain =
      let (hex, size) = digest_chars identity digest in
      let (plain, ascii, flat) = hex_is_plain identity hex in
      (
        ground (arith, plain, all-append is_path_byte identity (text ".3mf")),
        ground (arith, ascii, all-append is_ascii identity (text ".3mf")),
        ground (arith, flat, all-append (λ c. not (c == b'/')) identity (text ".3mf")),
        omega (arith, size, length-append identity (text ".3mf")),
      )

  path_pieces :
      split b'/' (retained_path p identity)
      ≡ text "inputs" ∷ text "geometry-v1" ∷ file_name p identity ∷ []
  unfolding text retained_path
  path_pieces =
      split-piece b'/' (text "inputs") (text "geometry-v1/" ++ file_name p identity) refl
      ∙ ap (λ rest. text "inputs" ∷ rest)
          (split-piece b'/' (text "geometry-v1") (file_name p identity) refl
            ∙ ap (λ rest. text "geometry-v1" ∷ rest)
                (split-lacks b'/' (file_name p identity) file_plain.2))

  file_is_segment : is_segment (file_name p identity) ≡ true
  unfolding bytes utf8
  file_is_segment =
      let (plain, ascii, flat, size) = file_plain in
      ground (
        arith,
        len-ascii (file_name p identity) ascii,
        all-bytes is_path_byte (file_name p identity) (λ b h. ground arith),
      )

  path_fits :
      (not (is_empty (retained_path p identity))
        && (leb (len (retained_path p identity)) 1024 && all is_ascii (retained_path p identity)))
      ≡ true
  unfolding retained_path text
  path_fits =
      let (_, ascii, _, size) = file_plain in
      ground (arith, ascii, size, len-ascii (retained_path p identity))

  pieces_pass :
      for_each
        (λ segment. ensure (is_segment segment) invalid_segment)
        (text "inputs" ∷ text "geometry-v1" ∷ file_name p identity ∷ [])
      ≡ ok tt
  unfolding for_each text bytes utf8
  pieces_pass = rw file_is_segment refl

  path_passes : validate_relative_path (retained_path p identity) ≡ ok tt
  unfolding validate_relative_path
  path_passes = rw path_fits (rw path_pieces pieces_pass)

  path_starts : starts_with (retained_path p identity) (text "inputs/") ≡ true
  unfolding retained_path text starts_with
  path_starts = refl

-- Texts of one length that are equal before a common end are equal.
text_eq-end :
    (a b e : Text) → length a ≡ length b → text_eq (a ++ e) (b ++ e) ≡ true → text_eq a b ≡ true
unfolding text_eq
text_eq-end [] [] e size h = refl
text_eq-end [] (b ∷ t) e size h = absurd (omega (arith, size))
text_eq-end (a ∷ s) [] e size h = absurd (omega (arith, size))
text_eq-end (a ∷ s) (b ∷ t) e size h = ground (arith, text_eq-end s t e)

paths_apart :
    (p q : ℕ) (a b : Text)
    → is_sha256 a ≡ true
    → is_sha256 b ≡ true
    → text_eq a b ≡ false
    → text_eq (retained_path p a) (retained_path q b) ≡ false
unfolding retained_path text text_eq
paths_apart p q a b da db apart =
    ground (arith, text_eq-end a b (text ".3mf"), (digest_chars a da).1, (digest_chars b db).1)

-- Each path that was seen is that of an identity that was seen.
abbrev Covers : List Text → List Text → Type 0
Covers seen paths =
    (p : ℕ) (identity : Text)
    → is_sha256 identity ≡ true
    → any (λ y. text_eq y identity) seen ≡ false
    → any (λ y. text_eq y (retained_path p identity)) paths ≡ false

Covers-cons :
    (q : ℕ) (b : Text) (seen paths : List Text)
    → is_sha256 b ≡ true
    → Covers seen paths
    → Covers (b ∷ seen) (retained_path q b ∷ paths)
Covers-cons q b seen paths db covers p identity d h =
    ground (arith, paths_apart q p b identity db d, covers p identity d, h)

allocated_pass :
    (p : ℕ) (identities seen paths : List Text)
    → p + length identities ≤ 1000
    → Covers seen paths
    → check_identities seen identities ≡ ok tt
    → validate_allocated_paths paths (retained_paths p identities) ≡ ok tt
unfolding check_identities validate_allocated_paths retained_paths
allocated_pass p [] seen paths small covers h = refl
allocated_pass p (a ∷ rest) seen paths small covers h =
    let (first, later) =
      >>-eq-ok (ensure (is_sha256 a && not (any (λ y. text_eq y a) seen)) repeated_identity) _ h in
    let fresh =
      ensure-eq-ok (is_sha256 a && not (any (λ y. text_eq y a) seen)) repeated_identity first in
    let d : is_sha256 a ≡ true = ground (arith, fresh) in
    let new : any (λ y. text_eq y a) seen ≡ false = ground (arith, fresh) in
    rw (path_passes p a (omega (arith, small)) d) (
      rw (path_starts p a (omega (arith, small)) d) (
        rw (covers p a d new) (
          allocated_pass (suc p) rest (a ∷ seen) (retained_path p a ∷ paths) (omega (arith, small))
            (Covers-cons p a seen paths d covers) later)))

check_identities_iff :
    (seen identities : List Text)
    → (check_identities seen identities ≡ ok tt)
      ↔ (All (λ i. is_sha256 i ≡ true) identities × (all_new text_eq seen identities ≡ true))
unfolding check_identities all_new
check_identities_iff seen [] = (λ h. (tt, refl), λ h. refl)
check_identities_iff seen (a ∷ rest) =
    let ih = check_identities_iff (a ∷ seen) rest in
    (
      λ h.
          let (first, later) =
            >>-eq-ok (ensure (is_sha256 a && not (any (λ y. text_eq y a) seen)) repeated_identity) _
              h in
          let fresh =
            ensure-eq-ok (is_sha256 a && not (any (λ y. text_eq y a) seen)) repeated_identity
              first in
          let (digests, new) = ih.0 later in
          ((ground (arith, fresh), digests), ground (arith, fresh, new)),
      λ (digests, new). ground (arith, digests.0, ih.1 (digests.1, ground (arith, new))),
    )

new_to_none : (xs : List Text) → All (λ x. any (λ y. text_eq y x) [] ≡ false) xs
new_to_none [] = tt
new_to_none (x ∷ xs) = (refl, new_to_none xs)

-- 1 to 256 different digests.
pub record IsAllocatable (identities : List Text) : Type 0 where
  pub some_object : 1 ≤ length identities
  pub not_many : length identities ≤ 256
  pub digests : All (λ i. is_sha256 i ≡ true) identities
  pub different : Distinct text_eq identities

-- Paths are allocated exactly for 1 to 256 different lowercase SHA-256 identities; then the result is
-- the numbered path of each identity, in order, and the paths always pass the check that follows
-- (valid relative paths below `inputs/`, no two equal).
pub allocate_retained_paths_iff :
    (identities paths : List Text)
    → (allocate_retained_paths identities ≡ ok paths)
      ↔ (IsAllocatable identities × (retained_paths 0 identities ≡ paths))
unfolding allocate_retained_paths
allocate_retained_paths_iff identities paths = (
  λ h.
      let (count, h1) =
        >>-eq-ok
          (ensure (leb 1 (length identities) && leb (length identities) 256) wrong_object_count) _
          h in
      let (checked, h2) = >>-eq-ok (check_identities [] identities) _ h1 in
      let (_, made) = >>-eq-ok (validate_allocated_paths [] (retained_paths 0 identities)) _ h2 in
      let counted =
        ensure-eq-ok (leb 1 (length identities) && leb (length identities) 256) wrong_object_count
          count in
      let (digests, new) = (check_identities_iff [] identities).0 checked in
      (
        record {
          some_object = ground (arith, counted);
          not_many = ground (arith, counted);
          digests = digests;
          different = ((all_new_iff text_eq [] identities).0 new).1;
        },
        ground (arith, made),
      ),
  λ (fits, made).
      let new = (all_new_iff text_eq [] identities).1 (new_to_none identities, fits.different) in
      let checked = (check_identities_iff [] identities).1 (fits.digests, new) in
      let passed =
        allocated_pass 0 identities [] [] (omega (arith, fits.not_many)) (λ p i d h. refl)
          checked in
      let counted : leb 1 (length identities) && leb (length identities) 256 ≡ true =
        ground (arith, fits.some_object, fits.not_many) in
      rw counted (rw checked (rw passed (ap ok made))),
)
