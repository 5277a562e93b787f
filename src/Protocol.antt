-- ===== src/Protocol.antt =====
-- The checks on single values in src/generator_protocol.rs. An error says which rule was broken: the
-- field that its message names, and the limits it prints, are left out.
pub mod Documents
pub mod Manifest
pub mod Paths
pub mod Answers
pub mod Samples
mod Tests
use onshape_export.Base.{
  ℕ, ◌+◌, Text, text, text_eq, bytes, len, split, starts_with, Bool, true, false, not, ◌&&◌, ◌||◌,
  Option, none, some, List, [], ◌∷◌, ◌==◌, ltb, leb, all, any, length, is_empty, is_control,
  is_ascii_digit, is_ascii_lowercase, is_ascii_alphanumeric, is_ascii_graphic, is_ascii, Result, ok,
  err, ensure, for_some, for_each, ◌>>=◌, ◌>>◌,
}

-- `ProtocolError::Invalid` by the rule that its message states, and `ProtocolError::Identity`.
pub data ProtocolError : Type 0 where
  unsupported_version invalid_identity invalid_sha256 invalid_byte_length : ProtocolError
  invalid_media_type invalid_path too_many_segments invalid_segment : ProtocolError
  invalid_text invalid_code invalid_pointer pointer_control pointer_escape : ProtocolError
  too_many_entries duplicate_key : ProtocolError
  outside_inputs outside_outputs same_path unsorted_capabilities : ProtocolError
  settings_mismatch schema_mismatch invocation_mismatch : ProtocolError
  missing_invocation missing_identities missing_output unexpected_errors : ProtocolError
  unexpected_output missing_errors identities_mismatch output_mismatch output_too_large :
      ProtocolError
  identity_failure no_validated_output : ProtocolError
  missing_evidence unexpected_evidence missing_reason unexpected_reason : ProtocolError
  no_objects unproven_export missing_input_set unexpected_input_set : ProtocolError
  duplicate_object duplicate_path unproven_object empty_occurrence_path : ProtocolError
  no_raw_geometry missing_parent parent_cycle walk_unfinished : ProtocolError
  input_set_mismatch manifest_mismatch unavailable_manifest kind_mismatch : ProtocolError

abbrev pub Check : Type 0
Check = Result ProtocolError (Unit {0})

unfoldable pub validate_version : ℕ → Check
validate_version version = ensure (version == 1) unsupported_version

unfoldable pub validate_identity_with_limit : Text → ℕ → Check
validate_identity_with_limit value limit =
    ensure (not (is_empty value) && (leb (len value) limit && all is_ascii_graphic (bytes value)))
      invalid_identity

unfoldable pub validate_identity : Text → Check
validate_identity value =
    ensure (not (is_empty value) && (leb (len value) 256 && all is_ascii_graphic (bytes value)))
      invalid_identity

unfoldable pub validate_sha256 : Text → Check
validate_sha256 value =
    ensure
      (len value == 64 && all (λ b. is_ascii_digit b || leb b'a' b && leb b b'f') (bytes value))
      invalid_sha256

unfoldable pub validate_byte_length : ℕ → Check
validate_byte_length value = ensure (ltb 0 value && leb value 9007199254740991) invalid_byte_length

abbrev pub is_media_type_character : ℕ → Bool
is_media_type_character b =
    is_ascii_alphanumeric b
    || (b == b'!'
        || b == b'#'
        || b == b'$'
        || b == b'&'
        || b == b'^'
        || b == b'_'
        || b == b'.'
        || b == b'+'
        || b == b'-')

abbrev pub is_media_type : List Text → Bool
is_media_type (type_name ∷ subtype ∷ []) =
    not (is_empty type_name)
    && (not (is_empty subtype)
        && (all is_media_type_character (bytes type_name)
            && all is_media_type_character (bytes subtype)))
is_media_type _ = false

unfoldable pub validate_media_type : Text → Check
validate_media_type value = ensure (is_media_type (split b'/' value)) invalid_media_type

abbrev pub is_path_byte : ℕ → Bool
is_path_byte b = is_ascii_alphanumeric b || (b == b'.' || b == b'_' || b == b'-')

abbrev pub starts_alphanumeric : List ℕ → Bool
starts_alphanumeric [] = false
starts_alphanumeric (b ∷ bs) = is_ascii_alphanumeric b

abbrev pub is_segment : Text → Bool
is_segment segment =
    not (is_empty segment)
    && (leb (len segment) 255
        && (starts_alphanumeric (bytes segment) && all is_path_byte (bytes segment)))

unfoldable pub validate_relative_path : Text → Check
validate_relative_path value = do
  ensure (not (is_empty value) && (leb (len value) 1024 && all is_ascii value)) invalid_path
  ensure (leb (length (split b'/' value)) 64) too_many_segments
  for_each (λ segment. ensure (is_segment segment) invalid_segment) (split b'/' value)

-- `str::strip_prefix`
unfoldable pub strip_prefix : Text → Text → Option Text
strip_prefix s [] = some s
strip_prefix [] (p ∷ prefix) = none
strip_prefix (c ∷ s) (p ∷ prefix) =
    let rest = strip_prefix s prefix in elim (c == p) [ true ↦ rest | false ↦ none ]

abbrev pub is_child : Option Text → Bool
is_child none = false
is_child (some suffix) = starts_with suffix (text "/") && ltb 1 (len suffix)

unfoldable pub is_under_directory : Text → Text → Bool
is_under_directory path directory = is_child (strip_prefix path directory)

unfoldable pub validate_text : Text → ℕ → Check
validate_text value limit =
    ensure
      (not (is_empty value) && (leb (length value) limit && all (λ c. not (is_control c)) value))
      invalid_text

abbrev pub is_ascii_control : ℕ → Bool
is_ascii_control b = ltb b 0x20 || b == 0x7F

-- The loop over the bytes; the flag says that the byte before was a tilde, which the next one ends.
unfoldable pub check_escapes : Bool → List ℕ → Check
check_escapes false [] = ok tt
check_escapes true [] = err pointer_escape
check_escapes false (b ∷ bs) = do
  ensure (not (is_ascii_control b)) pointer_control
  check_escapes (b == b'~') bs
check_escapes true (b ∷ bs) = do
  ensure (b == b'0' || b == b'1') pointer_escape
  check_escapes false bs

unfoldable pub validate_json_pointer : Text → Check
validate_json_pointer value = do
  ensure (leb (len value) 1024 && (is_empty value || starts_with value (text "/"))) invalid_pointer
  check_escapes false (bytes value)

pub record DiagnosticContext : Type 0 where
  pub key : Text
  pub value : Text

-- The loop over the context, with the set of keys that it has seen.
unfoldable pub check_context : List Text → List DiagnosticContext → Check
check_context seen [] = ok tt
check_context seen (item ∷ context) = do
  validate_identity_with_limit item.key 64
  validate_text item.value 512
  ensure (not (any (λ k. text_eq k item.key) seen)) duplicate_key
  check_context (item.key ∷ seen) context

abbrev pub is_code_byte : ℕ → Bool
is_code_byte b = is_ascii_lowercase b || is_ascii_digit b || (b == b'_' || b == b'-')

unfoldable pub validate_report_entry : Text → Text → Option Text → List DiagnosticContext → Check
validate_report_entry code message instance_path context = do
  ensure (not (is_empty code) && (leb (len code) 128 && all is_code_byte (bytes code))) invalid_code
  validate_text message 2048
  for_some instance_path validate_json_pointer
  ensure (leb (length context) 16) too_many_entries
  check_context [] context
