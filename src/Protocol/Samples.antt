-- ===== src/Protocol/Samples.antt =====
-- A request and its answer, for the tests.
use onshape_export.Base.{Text, text, some, [], ◌∷◌, Result, ok}
use onshape_export.Protocol.{ProtocolError}
use onshape_export.Protocol.Documents.{
  success, generated_project, GeneratorRequest, GeneratorResult, IdentityBindings,
  InvocationIdentityPayload,
}

abbrev pub digest : Text
digest = text "00112233445566778899aabbccddeeff00112233445566778899aabbccddeeff"

abbrev pub hash_json : InvocationIdentityPayload → Result ProtocolError Text
hash_json payload = ok digest

abbrev pub bindings : IdentityBindings
bindings = record {
  package_identity = text "package";
  build_identity = text "build";
  binary_identity = text "binary";
  dialect_identity = text "dialect";
  capability_identities = text "a" ∷ text "b" ∷ [];
  input_kind_identity = text "kind";
  input_schema_identity = text "schema";
  settings_identity = text "settings";
  settings_schema_identity = text "settings-schema";
  provenance_set_identity = text "provenance";
  normalization_identity = text "normalization";
  validation_identity = text "validation";
}

abbrev pub request : GeneratorRequest
request = record {
  protocol_version = 1;
  invocation_identity = digest;
  expected_identities = bindings;
  input_manifest = record {
    path = text "inputs/manifest.json";
    manifest_identity = digest;
    input_set_identity = digest;
  };
  settings = record {
    settings_identity = text "settings";
    schema_identity = text "settings-schema";
    content = record {
      content_identity = text "content";
      path = text "inputs/settings.json";
      sha256 = digest;
      byte_length = 12;
      media_type = text "application/json";
      detected_kind_identity = text "json";
    };
  };
  output = record {
    output_identity = text "project";
    role = generated_project;
    path = text "outputs/project.3mf";
    media_type = text "model/3mf";
    max_byte_length = 1000;
  };
}

abbrev pub answer : GeneratorResult
answer = record {
  protocol_version = 1;
  status = success;
  invocation_identity = some digest;
  reported_identities = some bindings;
  output = some (record {
    output_identity = text "project";
    role = generated_project;
    path = text "outputs/project.3mf";
    media_type = text "model/3mf";
    byte_length = 900;
    sha256 = digest;
  });
  diagnostics = [];
  errors = [];
}
