-- ===== src/Storage.antt =====
-- The object store's client, src/storage.rs: what it checks of a stored object, and its public URLs. The
-- answers of the S3 client and SHA-256 are parameters; a body is the list of what its stream yields.
pub mod Bodies
pub mod Urls
mod Tests
use onshape_export.Base.{
  ℕ, ◌+◌, ◌-◌, ◌/◌, ◌%◌, ◌^◌, Text, text, text_eq, optional_text_eq, bytes, split, join,
  is_ascii_digit, is_ascii_alphabetic, Bool, true, false, ◌&&◌, ◌||◌, Option, none, some, List, [],
  ◌∷◌, ◌++◌, map, reverse, ◌==◌, ltb, leb, length, Result, ok, err, ensure, ◌>>=◌, ◌>>◌,
  if◌then◌else◌,
}

-- An `i64`.
pub data ℤ : Type 0 where
  pos negsuc : ℕ → ℤ

pub data StorageError : Type 0 where
  request_failed missing_content_length wrong_length wrong_type stream_failed count_overflow :
      StorageError
  too_long too_short wrong_digest : StorageError

pub record HeadObjectOutput : Type 0 where
  pub content_length : Option ℤ
  pub content_type : Option Text

pub record ObjectMetadata : Type 0 where
  pub content_length : ℤ
  pub content_type : Option Text

abbrev pub Chunks : Type 0
Chunks = List (Result StorageError (List ℕ))

pub record GetObjectOutput : Type 0 where
  pub content_length : Option ℤ
  pub content_type : Option Text
  pub body : Chunks

-- `content_length.and_then(|length| u64::try_from(length).ok()) == Some(expected)`
abbrev pub is_length : Option ℤ → ℕ → Bool
is_length (some (pos n)) expected = n == expected
is_length (some (negsuc n)) expected = false
is_length none expected = false

unfoldable pub verify_object_metadata :
    Option ℤ → Option Text → Text → ℕ → Result StorageError (Unit {0})
verify_object_metadata content_length content_type expected_type expected_len = do
  ensure (is_length content_length expected_len) wrong_length
  ensure (optional_text_eq content_type (some expected_type)) wrong_type

-- `checked_add` on `u64`
abbrev pub checked_add : ℕ → ℕ → Option ℕ
checked_add a b = if ltb (a + b) (2 ^ 64) then some (a + b) else none

unfoldable pub counted : ℕ → ℕ → ℕ → Result StorageError ℕ
counted expected length more = elim (checked_add length more) [
  | none ↦ err count_overflow
  | some total ↦ if ltb expected total then err too_long else ok total
]

-- `content_length.ok_or_else(..)?`
abbrev pub with_length : Option ℤ → Option Text → Result StorageError ObjectMetadata
with_length none content_type = err missing_content_length
with_length (some n) content_type = ok (record { content_length = n; content_type = content_type })

module _ (sha256_hex : List ℕ → Text) where
  -- The loop over the chunks, with the count and the bytes that the hasher has seen, and the checks
  -- after it.
  unfoldable pub verify_chunks : ℕ → Text → ℕ → List ℕ → Chunks → Result StorageError (Unit {0})
  unfolding counted
  verify_chunks expected_len expected_sha256 count hashed [] = do
    ensure (count == expected_len) too_short
    ensure (text_eq (sha256_hex hashed) expected_sha256) wrong_digest
  verify_chunks expected_len expected_sha256 count hashed (err e ∷ body) = err e
  verify_chunks expected_len expected_sha256 count hashed (ok chunk ∷ body) = do
    total ← counted expected_len count (length chunk)
    verify_chunks expected_len expected_sha256 total (hashed ++ chunk) body

  unfoldable pub verify_object_body : Chunks → ℕ → Text → Result StorageError (Unit {0})
  unfolding verify_chunks
  verify_object_body body expected_len expected_sha256 =
      verify_chunks expected_len expected_sha256 0 [] body

  module _ (head : Text → Result StorageError HeadObjectOutput)
      (get : Text → Result StorageError GetObjectOutput) where
    unfoldable pub head_object : Text → Result StorageError ObjectMetadata
    head_object key = do output ← head key; with_length output.content_length output.content_type

    unfoldable pub verify_exact_object : Text → Text → ℕ → Text → Result StorageError (Unit {0})
    unfolding head_object verify_object_metadata verify_object_body
    verify_exact_object key expected_type expected_len expected_sha256 = do
      found ← head_object key
      verify_object_metadata (some found.content_length) found.content_type expected_type
          expected_len
      output ← get key
      verify_object_metadata output.content_length output.content_type expected_type expected_len
      verify_object_body output.body expected_len expected_sha256

abbrev pub is_unreserved : ℕ → Bool
is_unreserved b =
    is_ascii_alphabetic b || is_ascii_digit b || b == b'-' || b == b'_' || b == b'.' || b == b'~'

-- A digit of `{:02X}`.
abbrev pub upper_hex_digit : ℕ → ℕ
upper_hex_digit d = if ltb d 10 then b'0' + d else b'A' + (d - 10)

abbrev pub encoded_byte : ℕ → Text
encoded_byte b =
    if is_unreserved b
    then b ∷ []
    else b'%' ∷ upper_hex_digit (b / 16) ∷ upper_hex_digit (b % 16) ∷ []

-- `flat_map` over the bytes
unfoldable pub encoded_bytes : List ℕ → Text
encoded_bytes [] = []
encoded_bytes (b ∷ bs) = encoded_byte b ++ encoded_bytes bs

unfoldable pub url_path_segment : Text → Text
unfolding encoded_bytes
url_path_segment value = encoded_bytes (bytes value)

-- `trim_end_matches('/')`, on the reversed text
abbrev pub drop_slashes : Text → Text
drop_slashes [] = []
drop_slashes (c ∷ s) = let rest = drop_slashes s in if c == b'/' then rest else c ∷ s

unfoldable pub trim_end_matches : Text → Text
trim_end_matches s = reverse (drop_slashes (reverse s))

unfoldable pub public_url : Option Text → Text → Option Text
unfolding trim_end_matches url_path_segment
public_url none key = none
public_url (some base) key =
    some (trim_end_matches base ++ b'/' ∷ join b'/' (map url_path_segment (split b'/' key)))
