-- ===== src/Deployment/Tests.antt =====
-- A deployment loaded from a concrete document and a concrete executable.
use onshape_export.Base.{
  ℕ, ◌≡◌, refl, Text, text, text_eq, bytes, utf8, starts_with, true, List, [], ◌∷◌, Result, ok, err,
  for_each,
}
use onshape_export.Protocol.{validate_identity}
use onshape_export.Protocol.Documents.{is_ascending, text_lt, texts_eq, validate_bindings}
use onshape_export.Deployment.{
  DeployedGeneratorError, DeployedGeneratorDocument, DeployedGenerator, ImmutableIdentityPayload,
  IoError, not_found, FileMetadata, OpenFile, ensure_identity, ensure_sha256, validate_document,
  ensure_compatible, unsupported_combination, identity_bindings, read_all, validate_executable,
  executable_missing, executable_not_executable, from_document,
}
use onshape_export.Deployment.Bindings.{validate_bindings-identity_bindings}

abbrev digest : Text
digest = text "00112233445566778899aabbccddeeff00112233445566778899aabbccddeeff"

abbrev sha256_hex : List ℕ → Text
sha256_hex contents = digest

abbrev hash_payload : ImmutableIdentityPayload → Result DeployedGeneratorError Text
hash_payload p = ok p.package_sha256

abbrev executable_metadata : Text → Result IoError FileMetadata
executable_metadata path = ok (record { is_file = true; mode = 0o755 })

abbrev open_file : Text → Result IoError OpenFile
open_file path = ok (record {
  metadata = ok (record { is_file = true; mode = 0o755 });
  reads = ok (text "#!") ∷ ok [] ∷ [];
})

abbrev document : DeployedGeneratorDocument
document = record {
  executable_path = text "/opt/generator";
  package_identity = text "package";
  package_sha256 = digest;
  build_identity = text "build";
  binary_identity = text "binary";
  binary_sha256 = digest;
  protocol_version = 1;
  dialect_identity = text "bambu";
  capability_identities = text "a" ∷ text "b" ∷ [];
  input_kind_identity = text "kind";
  input_schema_identity = text "schema";
  settings_schema_identity = text "settings-schema";
  provenance_set_identity = text "provenance";
  normalization_identity = text "normalization";
  validation_identity = text "validation";
}

abbrev deployed : DeployedGenerator
deployed = record { document = document; static_identity = digest }

loads : from_document sha256_hex hash_payload executable_metadata open_file document ≡ ok deployed
unfolding from_document validate_document validate_executable read_all ensure_identity ensure_sha256
    for_each is_ascending text_lt text text_eq bytes utf8 starts_with
loads = refl

refuses_executables :
    (validate_executable sha256_hex hash_payload (λ path. err not_found) open_file document
      ≡ err executable_missing)
    × (validate_executable sha256_hex hash_payload executable_metadata
          (λ path.
            ok (record { metadata = ok (record { is_file = true; mode = 0o644 }); reads = [] }))
          document
        ≡ err executable_not_executable)
unfolding validate_executable
refuses_executables = (refl, refl)

refuses_dialect :
    ensure_compatible deployed (record {
      protocol_version = 1;
      dialect_identity = text "other";
      capability_identities = text "a" ∷ text "b" ∷ [];
      input_kind_identity = text "kind";
      input_schema_identity = text "schema";
      settings_schema_identity = text "settings-schema";
    })
    ≡ err unsupported_combination
unfolding ensure_compatible for_each texts_eq text text_eq
refuses_dialect = refl

names_settings : validate_identity (text "settings") ≡ ok tt
unfolding validate_identity text bytes utf8
names_settings = refl

validate_bindings-identity_bindings_example :
    validate_bindings (identity_bindings deployed (text "settings")) ≡ ok tt
validate_bindings-identity_bindings_example =
    validate_bindings-identity_bindings sha256_hex hash_payload executable_metadata open_file
      document deployed (text "settings") loads names_settings
