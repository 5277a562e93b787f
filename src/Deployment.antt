-- ===== src/Deployment.antt =====
-- The deployed generator of src/deployed_generator.rs: its document, the checks on the document and on
-- the executable, and its comparison with a request. JSON, SHA-256 and the file system are parameters.
pub mod Bindings
mod Tests
use onshape_export.Base.{
  ℕ, ◌+◌, ◌/◌, ◌%◌, Text, text_eq, bytes, len, Bool, true, false, not, ◌&&◌, ◌||◌, List, [], ◌∷◌,
  ◌++◌, ◌==◌, leb, length, all, is_empty, starts_with, is_ascii_digit, is_ascii_graphic, Result, ok,
  err, ensure, for_each, ◌>>=◌, ◌>>◌, if◌then◌else◌,
}
use onshape_export.Protocol.Documents.{IdentityBindings, is_ascending, texts_eq}

pub data DeployedGeneratorError : Type 0 where
  config_invalid identity_failure : DeployedGeneratorError
  executable_missing executable_not_regular_file executable_unreadable : DeployedGeneratorError
  executable_not_executable binary_digest_mismatch : DeployedGeneratorError
  unsupported_combination : DeployedGeneratorError

pub record DeployedGeneratorDocument : Type 0 where
  pub executable_path : Text
  pub package_identity : Text
  pub package_sha256 : Text
  pub build_identity : Text
  pub binary_identity : Text
  pub binary_sha256 : Text
  pub protocol_version : ℕ
  pub dialect_identity : Text
  pub capability_identities : List Text
  pub input_kind_identity : Text
  pub input_schema_identity : Text
  pub settings_schema_identity : Text
  pub provenance_set_identity : Text
  pub normalization_identity : Text
  pub validation_identity : Text

pub record DeployedGenerator : Type 0 where
  pub document : DeployedGeneratorDocument
  pub static_identity : Text

pub record GeneratorCompatibilityRequest : Type 0 where
  pub protocol_version : ℕ
  pub dialect_identity : Text
  pub capability_identities : List Text
  pub input_kind_identity : Text
  pub input_schema_identity : Text
  pub settings_schema_identity : Text

-- All of the document but the path of the executable.
pub record ImmutableIdentityPayload : Type 0 where
  pub package_identity : Text
  pub package_sha256 : Text
  pub build_identity : Text
  pub binary_identity : Text
  pub binary_sha256 : Text
  pub protocol_version : ℕ
  pub dialect_identity : Text
  pub capability_identities : List Text
  pub input_kind_identity : Text
  pub input_schema_identity : Text
  pub settings_schema_identity : Text
  pub provenance_set_identity : Text
  pub normalization_identity : Text
  pub validation_identity : Text

abbrev pub Checked : Type 0
Checked = Result DeployedGeneratorError (Unit {0})

unfoldable pub ensure_identity : Text → Checked
ensure_identity value =
    ensure (not (is_empty value) && (leb (len value) 256 && all is_ascii_graphic (bytes value)))
      config_invalid

unfoldable pub ensure_sha256 : Text → Checked
ensure_sha256 value =
    ensure
      (len value == 64 && all (λ b. is_ascii_digit b || leb b'a' b && leb b b'f') (bytes value))
      config_invalid

-- The fields that `validate` goes through.
abbrev pub identities_of : DeployedGeneratorDocument → List Text
identities_of d =
    d.package_identity ∷ d.build_identity ∷ d.binary_identity ∷ d.dialect_identity
    ∷ d.input_kind_identity ∷ d.input_schema_identity ∷ d.settings_schema_identity
    ∷ d.provenance_set_identity ∷ d.normalization_identity ∷ d.validation_identity ∷ []

-- DeployedGeneratorDocument::validate. `Path::is_absolute`, on Linux.
unfoldable pub validate_document : DeployedGeneratorDocument → Checked
unfolding ensure_identity ensure_sha256
validate_document d = do
  ensure (starts_with d.executable_path (b'/' ∷ [])) config_invalid
  ensure (d.protocol_version == 1) config_invalid
  for_each ensure_identity (identities_of d)
  ensure_sha256 d.package_sha256
  ensure_sha256 d.binary_sha256
  ensure (leb (length d.capability_identities) 256) config_invalid
  for_each ensure_identity d.capability_identities
  ensure (is_ascending d.capability_identities) config_invalid

abbrev pub immutable_payload : DeployedGeneratorDocument → ImmutableIdentityPayload
immutable_payload d = record {
  package_identity = d.package_identity;
  package_sha256 = d.package_sha256;
  build_identity = d.build_identity;
  binary_identity = d.binary_identity;
  binary_sha256 = d.binary_sha256;
  protocol_version = d.protocol_version;
  dialect_identity = d.dialect_identity;
  capability_identities = d.capability_identities;
  input_kind_identity = d.input_kind_identity;
  input_schema_identity = d.input_schema_identity;
  settings_schema_identity = d.settings_schema_identity;
  provenance_set_identity = d.provenance_set_identity;
  normalization_identity = d.normalization_identity;
  validation_identity = d.validation_identity;
}

-- The loop over the pairs: the first that does not match is the error.
unfoldable pub ensure_compatible : DeployedGenerator → GeneratorCompatibilityRequest → Checked
ensure_compatible g q =
    for_each (λ matches. ensure matches unsupported_combination)
      ((q.protocol_version == g.document.protocol_version)
        ∷ text_eq q.dialect_identity g.document.dialect_identity
        ∷ texts_eq q.capability_identities g.document.capability_identities
        ∷ text_eq q.input_kind_identity g.document.input_kind_identity
        ∷ text_eq q.input_schema_identity g.document.input_schema_identity
        ∷ text_eq q.settings_schema_identity g.document.settings_schema_identity
        ∷ [])

abbrev pub identity_bindings : DeployedGenerator → Text → IdentityBindings
identity_bindings g settings = record {
  package_identity = g.document.package_identity;
  build_identity = g.document.build_identity;
  binary_identity = g.document.binary_identity;
  dialect_identity = g.document.dialect_identity;
  capability_identities = g.document.capability_identities;
  input_kind_identity = g.document.input_kind_identity;
  input_schema_identity = g.document.input_schema_identity;
  settings_identity = settings;
  settings_schema_identity = g.document.settings_schema_identity;
  provenance_set_identity = g.document.provenance_set_identity;
  normalization_identity = g.document.normalization_identity;
  validation_identity = g.document.validation_identity;
}

pub data IoError : Type 0 where
  not_found other_failure : IoError

pub record FileMetadata : Type 0 where
  pub is_file : Bool
  pub mode : ℕ

-- An open file: its metadata, and what each read yields until one yields nothing.
pub record OpenFile : Type 0 where
  pub metadata : Result IoError FileMetadata
  pub reads : List (Result IoError (List ℕ))

abbrev pub missing_or_unreadable : {A : Type 0} → Result IoError A → Result DeployedGeneratorError A
missing_or_unreadable (ok a) = ok a
missing_or_unreadable (err not_found) = err executable_missing
missing_or_unreadable (err other_failure) = err executable_unreadable

abbrev pub or_unreadable : {A : Type 0} → Result IoError A → Result DeployedGeneratorError A
or_unreadable (ok a) = ok a
or_unreadable (err _) = err executable_unreadable

-- `mode & 0o111 != 0`: the bits 6, 3, and 0.
abbrev pub is_executable : ℕ → Bool
is_executable mode = not (mode / 64 % 2 + mode / 8 % 2 + mode % 2 == 0)

-- The loop that reads the file, with the bytes that the hasher has seen.
unfoldable pub read_all :
    List ℕ → List (Result IoError (List ℕ)) → Result DeployedGeneratorError (List ℕ)
read_all hashed [] = ok hashed
read_all hashed (chunk ∷ reads) = do
  block ← or_unreadable chunk
  if is_empty block then ok hashed else read_all (hashed ++ block) reads

module _ (sha256_hex : List ℕ → Text)
    (hash_payload : ImmutableIdentityPayload → Result DeployedGeneratorError Text)
    (metadata : Text → Result IoError FileMetadata)
    (open_file : Text → Result IoError OpenFile) where
  unfoldable pub validate_executable : DeployedGeneratorDocument → Checked
  unfolding read_all
  validate_executable d = do
    before ← missing_or_unreadable (metadata d.executable_path)
    ensure before.is_file executable_not_regular_file
    file ← missing_or_unreadable (open_file d.executable_path)
    found ← or_unreadable file.metadata
    ensure found.is_file executable_not_regular_file
    ensure (is_executable found.mode) executable_not_executable
    contents ← read_all [] file.reads
    ensure (text_eq (sha256_hex contents) d.binary_sha256) binary_digest_mismatch

  -- `from_bytes`, once the bytes are decoded.
  unfoldable pub from_document :
      DeployedGeneratorDocument → Result DeployedGeneratorError DeployedGenerator
  unfolding validate_document validate_executable
  from_document d = do
    validate_document d
    validate_executable d
    identity ← hash_payload (immutable_payload d)
    ok (record { document = d; static_identity = identity })
