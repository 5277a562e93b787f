-- ===== src/Protocol/Documents.antt =====
-- The request to a generator and its result: `GeneratorRequest::validate`, `GeneratorResult::validate`
-- and `validate_against_request`. A document type has one value, so the documents leave it out.
use onshape_export.Base.{
  ℕ, Text, text, text_eq, Bool, true, false, not, ◌&&◌, ◌||◌, Option, none, some, List, [], ◌∷◌,
  ◌==◌, ltb, leb, length, is_empty, is_none, Result, ok, err, ensure, for_some, for_each, ◌>>=◌,
  ◌>>◌,
}
use onshape_export.Protocol.{
  ProtocolError, Check, validate_version, validate_identity, validate_sha256, validate_byte_length,
  validate_media_type, validate_relative_path, is_under_directory, DiagnosticContext,
  validate_report_entry, unsorted_capabilities, too_many_entries, outside_inputs, outside_outputs,
  same_path, settings_mismatch, schema_mismatch, invocation_mismatch, missing_invocation,
  missing_identities, missing_output, unexpected_errors, unexpected_output, missing_errors,
  identities_mismatch, output_mismatch, output_too_large, no_validated_output,
}

pub data OutputRole : Type 0 where
  generated_project : OutputRole

pub data ResultStatus : Type 0 where
  success failure : ResultStatus

pub data DiagnosticSeverity : Type 0 where
  info warning : DiagnosticSeverity

pub data ErrorCategory : Type 0 where
  malformed_request unsupported_request invalid_input generation_failed internal_error :
      ErrorCategory

pub record FileContent : Type 0 where
  pub content_identity : Text
  pub path : Text
  pub sha256 : Text
  pub byte_length : ℕ
  pub media_type : Text
  pub detected_kind_identity : Text

pub record IdentityBindings : Type 0 where
  pub package_identity : Text
  pub build_identity : Text
  pub binary_identity : Text
  pub dialect_identity : Text
  pub capability_identities : List Text
  pub input_kind_identity : Text
  pub input_schema_identity : Text
  pub settings_identity : Text
  pub settings_schema_identity : Text
  pub provenance_set_identity : Text
  pub normalization_identity : Text
  pub validation_identity : Text

pub record ManifestReference : Type 0 where
  pub path : Text
  pub manifest_identity : Text
  pub input_set_identity : Text

pub record SettingsInput : Type 0 where
  pub settings_identity : Text
  pub schema_identity : Text
  pub content : FileContent

pub record OutputDeclaration : Type 0 where
  pub output_identity : Text
  pub role : OutputRole
  pub path : Text
  pub media_type : Text
  pub max_byte_length : ℕ

-- What the invocation identity is computed from.
pub record InvocationIdentityPayload : Type 0 where
  pub protocol_version : ℕ
  pub expected_identities : IdentityBindings
  pub input_manifest : ManifestReference
  pub settings : SettingsInput
  pub output : OutputDeclaration

pub record GeneratorRequest : Type 0 where
  pub protocol_version : ℕ
  pub invocation_identity : Text
  pub expected_identities : IdentityBindings
  pub input_manifest : ManifestReference
  pub settings : SettingsInput
  pub output : OutputDeclaration

pub record Diagnostic : Type 0 where
  pub severity : DiagnosticSeverity
  pub code : Text
  pub message : Text
  pub instance_path : Option Text
  pub context : List DiagnosticContext

pub record StructuredError : Type 0 where
  pub category : ErrorCategory
  pub code : Text
  pub message : Text
  pub instance_path : Option Text
  pub context : List DiagnosticContext

pub record GeneratedOutput : Type 0 where
  pub output_identity : Text
  pub role : OutputRole
  pub path : Text
  pub media_type : Text
  pub byte_length : ℕ
  pub sha256 : Text

pub record GeneratorResult : Type 0 where
  pub protocol_version : ℕ
  pub status : ResultStatus
  pub invocation_identity : Option Text
  pub reported_identities : Option IdentityBindings
  pub output : Option GeneratedOutput
  pub diagnostics : List Diagnostic
  pub errors : List StructuredError

unfoldable pub validate_content : FileContent → Check
validate_content c = do
  validate_identity c.content_identity
  validate_relative_path c.path
  validate_sha256 c.sha256
  validate_byte_length c.byte_length
  validate_media_type c.media_type
  validate_identity c.detected_kind_identity

-- `str`'s order: that of the bytes, which is that of the scalar values.
unfoldable pub text_lt : Text → Text → Bool
text_lt [] [] = false
text_lt [] (b ∷ t) = true
text_lt (a ∷ s) [] = false
text_lt (a ∷ s) (b ∷ t) = ltb a b || a == b && text_lt s t

-- `windows(2).all(|pair| pair[0] < pair[1])`
unfoldable pub is_ascending : List Text → Bool
unfolding text_lt
is_ascending (a ∷ b ∷ rest) = text_lt a b && is_ascending (b ∷ rest)
is_ascending _ = true

unfoldable pub validate_bindings : IdentityBindings → Check
validate_bindings i = do
  validate_identity i.package_identity
  validate_identity i.build_identity
  validate_identity i.binary_identity
  validate_identity i.dialect_identity
  validate_identity i.input_kind_identity
  validate_identity i.input_schema_identity
  validate_identity i.settings_identity
  validate_identity i.settings_schema_identity
  validate_identity i.provenance_set_identity
  validate_identity i.normalization_identity
  validate_identity i.validation_identity
  ensure (leb (length i.capability_identities) 256) too_many_entries
  for_each validate_identity i.capability_identities
  ensure (is_ascending i.capability_identities) unsorted_capabilities

unfoldable pub texts_eq : List Text → List Text → Bool
texts_eq [] [] = true
texts_eq (a ∷ s) (b ∷ t) = text_eq a b && texts_eq s t
texts_eq _ _ = false

-- The derived `==`.
unfoldable pub bindings_eq : IdentityBindings → IdentityBindings → Bool
bindings_eq a b =
    text_eq a.package_identity b.package_identity
    && (text_eq a.build_identity b.build_identity
        && (text_eq a.binary_identity b.binary_identity
            && (text_eq a.dialect_identity b.dialect_identity
                && (texts_eq a.capability_identities b.capability_identities
                    && (text_eq a.input_kind_identity b.input_kind_identity
                        && (text_eq a.input_schema_identity b.input_schema_identity
                            && (text_eq a.settings_identity b.settings_identity
                                && (text_eq a.settings_schema_identity b.settings_schema_identity
                                    && (text_eq a.provenance_set_identity b.provenance_set_identity
                                        && (text_eq a.normalization_identity
                                              b.normalization_identity
                                            && text_eq a.validation_identity
                                                b.validation_identity))))))))))

abbrev pub inputs_directory : Text
inputs_directory = text "inputs"

abbrev pub outputs_directory : Text
outputs_directory = text "outputs"

unfoldable pub validate_output : GeneratedOutput → Check
validate_output o = do
  validate_identity o.output_identity
  validate_relative_path o.path
  ensure (is_under_directory o.path outputs_directory) outside_outputs
  validate_media_type o.media_type
  validate_byte_length o.byte_length
  validate_sha256 o.sha256

abbrev pub check_status : ResultStatus → GeneratorResult → Check
check_status success r = do
  ensure (not (is_none r.invocation_identity)) missing_invocation
  ensure (not (is_none r.reported_identities)) missing_identities
  ensure (not (is_none r.output)) missing_output
  ensure (is_empty r.errors) unexpected_errors
check_status failure r = do
  ensure (is_none r.output) unexpected_output
  ensure (not (is_empty r.errors)) missing_errors

-- The checks of `GeneratorResult::validate` before its `match` on the status.
unfoldable pub check_contents : GeneratorResult → Check
check_contents r = do
  validate_version r.protocol_version
  for_some r.invocation_identity validate_sha256
  for_some r.reported_identities validate_bindings
  ensure (leb (length r.diagnostics) 64) too_many_entries
  ensure (leb (length r.errors) 64) too_many_entries
  for_each (λ (d : Diagnostic). validate_report_entry d.code d.message d.instance_path d.context)
      r.diagnostics
  for_each
      (λ (e : StructuredError). validate_report_entry e.code e.message e.instance_path e.context)
      r.errors
  for_some r.output validate_output

-- GeneratorResult::validate
unfoldable pub validate_result : GeneratorResult → Check
unfolding check_contents
validate_result r = do check_contents r; check_status r.status r

-- On success: the output against the declaration; without one `expect` would panic. The roles have
-- one value, so their comparison is left out.
abbrev pub check_output : OutputDeclaration → Option GeneratedOutput → Check
check_output declared none = err no_validated_output
check_output declared (some o) = do
  ensure
      (text_eq o.output_identity declared.output_identity
        && (text_eq o.path declared.path && text_eq o.media_type declared.media_type))
      output_mismatch
  ensure (leb o.byte_length declared.max_byte_length) output_too_large

abbrev pub check_answer : ResultStatus → OutputDeclaration → Option GeneratedOutput → Check
check_answer success declared o = check_output declared o
check_answer failure declared o = ok tt

module _ (hash_json : InvocationIdentityPayload → Result ProtocolError Text) where
  unfoldable pub computed_invocation_identity : GeneratorRequest → Result ProtocolError Text
  computed_invocation_identity q = hash_json (record {
    protocol_version = q.protocol_version;
    expected_identities = q.expected_identities;
    input_manifest = q.input_manifest;
    settings = q.settings;
    output = q.output;
  })

  -- GeneratorRequest::validate
  unfoldable pub validate_request : GeneratorRequest → Check
  unfolding computed_invocation_identity
  validate_request q = do
    validate_version q.protocol_version
    validate_sha256 q.invocation_identity
    validate_bindings q.expected_identities
    validate_relative_path q.input_manifest.path
    ensure (is_under_directory q.input_manifest.path inputs_directory) outside_inputs
    validate_sha256 q.input_manifest.manifest_identity
    validate_sha256 q.input_manifest.input_set_identity
    validate_identity q.settings.settings_identity
    validate_identity q.settings.schema_identity
    validate_content q.settings.content
    ensure (is_under_directory q.settings.content.path inputs_directory) outside_inputs
    ensure (not (text_eq q.settings.content.path q.input_manifest.path)) same_path
    validate_identity q.output.output_identity
    validate_relative_path q.output.path
    ensure (is_under_directory q.output.path outputs_directory) outside_outputs
    validate_media_type q.output.media_type
    validate_byte_length q.output.max_byte_length
    ensure (text_eq q.expected_identities.settings_identity q.settings.settings_identity)
        settings_mismatch
    ensure (text_eq q.expected_identities.settings_schema_identity q.settings.schema_identity)
        schema_mismatch
    computed ← computed_invocation_identity q
    ensure (text_eq q.invocation_identity computed) invocation_mismatch

  unfoldable pub validate_against_request : GeneratorResult → GeneratorRequest → Check
  validate_against_request r q = do
    validate_request q
    validate_result r
    for_some r.invocation_identity
        (λ identity. ensure (text_eq identity q.invocation_identity) invocation_mismatch)
    for_some r.reported_identities
        (λ identities. ensure (bindings_eq identities q.expected_identities) identities_mismatch)
    check_answer r.status q.output r.output
