-- ===== src/Catalog/Validate.antt =====
-- `Catalog::validate` of src/catalog.rs, check by check and in the order of the code.
use onshape_export.Base.{
  ℕ, Text, text, text_eq, starts_with, trim, Bool, true, false, not, ◌||◌, Option, none, some, List,
  [], ◌∷◌, ◌==◌, leb, ltb, if◌then◌else◌, any, is_empty, Result, ok, err, ensure, for_some,
  for_each, ◌>>◌,
}
use onshape_export.Catalog.{
  catalog_schema_version, ElementKind, ParameterOverride, ParameterPreset, DownloadFormat, step,
  stl, three_mf, BambuProjectConfig, Model, Catalog, identity_key, slug,
}
use onshape_export.Catalog.Slugs.{is_path_slug}
use onshape_export.Failure.{ApiFailure}
use onshape_export.Selection.{SelectionElementKind, SelectionRequest, preflight}

-- One constructor for each message, with what the message prints.
pub data CatalogError : Type 0 where
  unsupported_schema_version : ℕ → CatalogError
  unsupported_model_schema_version : Text → ℕ → CatalogError
  zero_entry_version : Text → CatalogError
  empty_slug : CatalogError
  invalid_slug duplicate_slug empty_name empty_description empty_thumbnail : Text → CatalogError
  invalid_tag : Text → Text → CatalogError
  empty_document_id empty_version_id empty_element_id empty_link_document_id : Text → CatalogError
  duplicate_source : Text → Text → Text → CatalogError
  no_downloads duplicate_download invalid_project_selection : Text → CatalogError
  empty_preset_slug default_preset dashed_preset : Text → CatalogError
  invalid_preset_slug duplicate_preset empty_preset_name : Text → Text → CatalogError
  empty_override_id : Text → CatalogError
  empty_override_label large_precision : Text → Text → CatalogError
  unsupported_widget : Text → Text → Text → CatalogError

abbrev pub Check : Type 0
Check = Result CatalogError (Unit {0})

unfoldable pub format_eq : DownloadFormat → DownloadFormat → Bool
format_eq step step = true
format_eq stl stl = true
format_eq three_mf three_mf = true
format_eq _ _ = false

-- `ensure_unique`, with the set `seen` as an argument.
unfoldable pub ensure_unique {ℓ} :
    {A : Type ℓ} → (A → A → Bool) → CatalogError → List A → List A → Check
ensure_unique eq message seen [] = ok tt
ensure_unique eq message seen (x ∷ xs) = do
  ensure (not (any (λ y. eq y x) seen)) message
  ensure_unique eq message (x ∷ seen) xs

unfoldable pub check_header : Model → Check
check_header m = do
  ensure (m.catalog_schema_version == catalog_schema_version)
      (unsupported_model_schema_version m.slug m.catalog_schema_version)
  ensure (ltb 0 m.entry_version) (zero_entry_version m.slug)
  ensure (not (is_empty m.slug)) empty_slug
  ensure (is_path_slug m.slug) (invalid_slug m.slug)

unfoldable pub check_names : Model → Check
check_names m = do
  ensure (not (is_empty m.name)) (empty_name m.slug)
  ensure (not (is_empty m.description)) (empty_description m.slug)
  for_each (λ tag. ensure (is_path_slug tag) (invalid_tag m.slug tag)) m.tags
  for_some m.thumbnail (λ t. ensure (not (is_empty (trim t))) (empty_thumbnail m.slug))

unfoldable pub check_source : Model → Check
check_source m = do
  ensure (not (is_empty m.onshape.document_id)) (empty_document_id m.slug)
  ensure (not (is_empty m.onshape.version_id)) (empty_version_id m.slug)
  ensure (not (is_empty m.onshape.element_id)) (empty_element_id m.slug)
  for_some m.onshape.link_document_id
      (λ link. ensure (not (is_empty link)) (empty_link_document_id m.slug))

abbrev selection_kind : ElementKind → SelectionElementKind
selection_kind ElementKind.part_studio = SelectionElementKind.part_studio
selection_kind ElementKind.assembly = SelectionElementKind.assembly

abbrev zero_hash : Text
zero_hash = text "0000000000000000000000000000000000000000000000000000000000000000"

-- The request that stands for the catalog's own selection.
unfoldable pub project_request : Model → BambuProjectConfig → SelectionRequest
project_request m project = record {
  document_id = m.onshape.document_id;
  version_id = m.onshape.version_id;
  element_id = m.onshape.element_id;
  element_kind = selection_kind m.onshape.element_kind;
  configuration_encoding = record {
    source_hash = zero_hash;
    config_hash = zero_hash;
    encoding_context_hash = zero_hash;
    encoded_id = text "catalog_preflight";
  };
  selectors = project.selectors;
}

abbrev pub or_invalid : Model → Result ApiFailure (Unit {0}) → Check
or_invalid m (ok _) = ok tt
or_invalid m (err _) = err (invalid_project_selection m.slug)

unfoldable pub check_exports : Model → Check
check_exports m = do
  ensure (not (is_empty m.exports.downloads)) (no_downloads m.slug)
  ensure_unique format_eq (duplicate_download m.slug) [] m.exports.downloads
  for_some m.exports.bambu_project (λ project. or_invalid m (preflight (project_request m project)))

-- The loop over the presets, with the set `preset_slugs`.
unfoldable pub check_presets : Text → List Text → List ParameterPreset → Check
check_presets m seen [] = ok tt
check_presets m seen (p ∷ presets) = do
  ensure (not (is_empty p.slug)) (empty_preset_slug m)
  ensure (is_path_slug p.slug) (invalid_preset_slug m p.slug)
  ensure (not (text_eq p.slug (text "default"))) (default_preset m)
  ensure (not (starts_with p.slug (text "--"))) (dashed_preset m)
  ensure (not (any (λ s. text_eq s p.slug) seen)) (duplicate_preset m p.slug)
  ensure (not (is_empty p.name)) (empty_preset_name m p.slug)
  check_presets m (p.slug ∷ seen) presets

abbrev pub is_widget : Text → Bool
is_widget w =
    text_eq w (text "number")
    || text_eq w (text "range")
    || text_eq w (text "text")
    || text_eq w (text "textarea")

unfoldable pub check_override : Text → Text × ParameterOverride → Check
check_override m (id, o) = do
  ensure (not (is_empty id)) (empty_override_id m)
  for_some o.label (λ label. ensure (not (is_empty label)) (empty_override_label m id))
  for_some o.precision (λ precision. ensure (leb precision 12) (large_precision m id))
  for_some o.widget (λ widget. ensure (is_widget widget) (unsupported_widget m id widget))

-- The slug under which a source identity was inserted into the map `sources`.
unfoldable pub owner_of : Text → List (Text × Text) → Option Text
owner_of identity [] = none
owner_of identity ((i, slug) ∷ sources) =
    let rest = owner_of identity sources in if text_eq i identity then some slug else rest

abbrev pub ensure_new_source : Text → Text → Option Text → Check
ensure_new_source slug identity none = ok tt
ensure_new_source slug identity (some existing) = err (duplicate_source existing slug identity)

-- The loop over the models, with the set `slugs` and the map `sources`.
unfoldable pub check_models : List Text → List (Text × Text) → List Model → Check
check_models slugs sources [] = ok tt
check_models slugs sources (m ∷ models) = do
  check_header m
  ensure (not (any (λ s. text_eq s m.slug) slugs)) (duplicate_slug m.slug)
  check_names m
  check_source m
  ensure_new_source m.slug (identity_key m.onshape) (owner_of (identity_key m.onshape) sources)
  check_exports m
  check_presets m.slug [] m.parameter_presets
  for_each (check_override m.slug) m.parameter_overrides
  check_models (m.slug ∷ slugs) ((identity_key m.onshape, m.slug) ∷ sources) models

unfoldable pub validate : Catalog → Check
unfolding check_models
validate c = do
  ensure (c.catalog_schema_version == catalog_schema_version)
      (unsupported_schema_version c.catalog_schema_version)
  check_models [] [] c.models

unfoldable pub from_models : List Model → Result CatalogError Catalog
unfolding validate
from_models models =
    let catalog : Catalog = record {
      catalog_schema_version = catalog_schema_version;
      models = models;
    } in
    do validate catalog; ok catalog
