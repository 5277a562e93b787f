-- ===== src/Catalog/Tests.antt =====
-- The theorems on catalogs, selections and failures at concrete inputs.
use onshape_export.Base.{
  ◌≡◌, ◌↔◌, refl, Text, text, text_eq, bytes, starts_with, ends_with, contains, split, true, false,
  none, some, [], ◌∷◌, ok, all, for_each,
}
use onshape_export.Catalog.{
  OnshapeSource, part_studio, Model, Catalog, step, stl, glb, onshape, binary, ap242,
  PreviewResolution, MeshResolution, identity_key, from_slug, slug,
}
use onshape_export.Catalog.Slugs.{is_path_slug, is_word, is_path_slug-eq-words}
use onshape_export.Catalog.Validate.{
  validate, check_header, check_names, check_source, check_exports, check_presets, check_override,
  ensure_unique, format_eq, owner_of,
}
use onshape_export.Catalog.Validity.{IsValidCatalog}
use onshape_export.Catalog.Decides.{validate_iff}
use onshape_export.Catalog.Sources.{HasPlainIds}
use onshape_export.Failure.{invalid_selection, new, operation, bounded_visible_ascii, is_sha256}
use onshape_export.Failure.Safe.{HasSafeDiagnostics, new-operation-HasSafeDiagnostics}
use onshape_export.Selection.{SelectionRequest, SelectionElementKind, preflight, occurrence}
use onshape_export.Selection.Preflight.{IsWellFormed, preflight_iff}

abbrev box_source : OnshapeSource
box_source = record {
  document_id = text "d1";
  version_id = text "v1";
  element_id = text "e1";
  element_kind = part_studio;
  link_document_id = none;
}

abbrev box_model : Model
box_model = record {
  catalog_schema_version = 1;
  entry_version = 1;
  slug = text "box-slide";
  name = text "Box";
  description = text "A box";
  published = true;
  tags = text "boxes" ∷ [];
  thumbnail = none;
  onshape = box_source;
  exports = record {
    downloads = step ∷ stl ∷ [];
    preview = glb;
    preview_options = record { resolution = PreviewResolution.coarse };
    download_options = record {
      step_version_string = ap242;
      stl = record { resolution = MeshResolution.fine; stl_mode = binary };
      three_mf = record { resolution = MeshResolution.fine };
    };
    bambu_project = none;
  };
  parameter_policy = record { source = onshape; allow_unknown = false; auto_refresh = true };
  parameter_presets = record { slug = text "wide"; name = text "Wide"; values = [] } ∷ [];
  parameter_overrides = [];
}

abbrev one_model : Catalog
one_model = record { catalog_schema_version = 1; models = box_model ∷ [] }

one_model_passes : validate one_model ≡ ok tt
unfolding validate check_header check_names check_source check_exports check_presets check_override
    ensure_unique format_eq owner_of is_path_slug text text_eq bytes starts_with ends_with contains
    for_each identity_key
one_model_passes = refl

validate_iff_example : (validate one_model ≡ ok tt) ↔ IsValidCatalog one_model
validate_iff_example = validate_iff one_model

is_path_slug-eq-words_example :
    is_path_slug (text "box-slide") ≡ all is_word (split b'-' (text "box-slide"))
is_path_slug-eq-words_example = is_path_slug-eq-words (text "box-slide")

double_hyphen_is_refused : is_path_slug (text "box--slide") ≡ false
unfolding is_path_slug text bytes starts_with ends_with contains
double_hyphen_is_refused = refl

box_source-HasPlainIds : HasPlainIds box_source
unfolding text
box_source-HasPlainIds = record { document = refl; version = refl; element = refl; link = tt }

from_slug-slug : (from_slug (slug step) ≡ some step) × (from_slug (text "obj") ≡ none)
unfolding from_slug slug text text_eq
from_slug-slug = (refl, refl)

new-operation-HasSafeDiagnostics_example :
    HasSafeDiagnostics (new invalid_selection (text "bad code"))
    × HasSafeDiagnostics (operation (text "getPartsWMVE") (new invalid_selection (text "bad code")))
new-operation-HasSafeDiagnostics_example =
    new-operation-HasSafeDiagnostics invalid_selection (text "bad code") (text "getPartsWMVE")

abbrev zeros : Text
zeros = text "0000000000000000000000000000000000000000000000000000000000000000"

abbrev two_occurrences : SelectionRequest
two_occurrences = record {
  document_id = text "d1";
  version_id = text "v1";
  element_id = text "e1";
  element_kind = SelectionElementKind.assembly;
  configuration_encoding = record {
    source_hash = zeros;
    config_hash = zeros;
    encoding_context_hash = zeros;
    encoded_id = text "default";
  };
  selectors = occurrence (text "o1" ∷ []) ∷ occurrence (text "o2" ∷ []) ∷ [];
}

two_occurrences_pass : preflight two_occurrences ≡ ok tt
unfolding preflight bounded_visible_ascii is_sha256 text text_eq bytes
two_occurrences_pass = refl

preflight_iff_example : (preflight two_occurrences ≡ ok tt) ↔ IsWellFormed two_occurrences
preflight_iff_example = preflight_iff two_occurrences
