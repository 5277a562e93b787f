-- ===== src/Failure.antt =====
-- `ApiFailure` of src/onshape_api.rs: failures whose diagnostics hold no upstream text, and the two
-- tests on identifiers that the other parts share.
pub mod Safe
use onshape_export.Base.{
  ℕ, Text, text, bytes, len, Bool, true, false, not, ◌&&◌, ◌||◌, Option, none, some, List, [], ◌∷◌,
  ◌++◌, map, ◌==◌, leb, if◌then◌else◌, all, is_empty, length, take, filter_by, is_ascii_digit,
  is_ascii_lowercase, is_ascii_graphic,
}

pub data FailureKind : Type 0 where
  invalid_selection operational_api_contract_failure unavailable_source_state : FailureKind
  authentication_failure transport_failure operational_timeout_failure : FailureKind
  operational_translation_failure operational_http_failure : FailureKind

pub record SafeDiagnostic : Type 0 where
  pub code : Text
  pub message : Text
  pub operation : Option Text
  pub selector_position : Option ℕ

pub record ApiFailure : Type 0 where
  pub kind : FailureKind
  pub diagnostics : List SafeDiagnostic

abbrev pub is_code_byte : ℕ → Bool
is_code_byte b = is_ascii_lowercase b || is_ascii_digit b || (b == b'_' || b == b'.' || b == b'-')

pub message_of : FailureKind → Text
message_of invalid_selection = text "The selection request is invalid."
message_of operational_api_contract_failure = text "The Onshape API contract could not be verified."
message_of unavailable_source_state = text "The selected source state is unavailable."
message_of authentication_failure = text "Onshape authentication failed."
message_of transport_failure = text "The Onshape operation did not complete."
message_of operational_timeout_failure = text "The geometry acquisition deadline expired."
message_of operational_translation_failure = text "The geometry translation failed."
message_of operational_http_failure = text "The geometry HTTP operation failed."

-- A byte that passes the filter is ASCII, so it is the character of the same number.
abbrev pub safe_code_text : Text → Text
safe_code_text code = take 128 (filter_by is_code_byte (bytes code))

unfoldable pub failure_text : Text
failure_text = text "failure"

unfoldable pub new : FailureKind → Text → ApiFailure
unfolding message_of
new kind code = record {
  kind = kind;
  diagnostics =
      record {
        code = if is_empty (safe_code_text code) then failure_text else safe_code_text code;
        message = message_of kind;
        operation = none;
        selector_position = none;
      }
      ∷ [];
}

abbrev pub safe_operation : Text → Text
safe_operation operation = take 128 (filter_by is_ascii_graphic (bytes operation))

unfoldable pub operation : Text → ApiFailure → ApiFailure
operation name f = record f {
  diagnostics =
      map (λ (d : SafeDiagnostic). record d { operation = some (safe_operation name) })
        f.diagnostics;
}

unfoldable pub position : ℕ → ApiFailure → ApiFailure
position at f = record f {
  diagnostics =
      map (λ (d : SafeDiagnostic). record d { selector_position = some at }) f.diagnostics;
}

unfoldable pub bounded_visible_ascii : Text → Bool
bounded_visible_ascii value =
    not (is_empty value) && leb (len value) 4096 && all is_ascii_graphic (bytes value)

unfoldable pub is_sha256 : Text → Bool
is_sha256 value =
    len value == 64 && all (λ b. is_ascii_digit b || leb b'a' b && leb b b'f') (bytes value)
