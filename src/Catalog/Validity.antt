-- ===== src/Catalog/Validity.antt =====
-- What a valid catalog is, and that `validate` accepts exactly those.
use onshape_export.Base.{
  ◌≤◌, ◌<◌, ◌≡◌, Text, text, text_eq, trim, Bool, true, false, Option, none, some, is_empty, All,
  Distinct,
}
use onshape_export.Catalog.{
  catalog_schema_version, ParameterOverride, ParameterPreset, Model, Catalog, identity_key,
}
use onshape_export.Catalog.Slugs.{is_path_slug}
use onshape_export.Catalog.Validate.{format_eq, project_request, is_widget}
use onshape_export.Selection.Preflight.{IsWellFormed}

-- Of an optional part, if it is there.
abbrev pub Given {ℓ} : {A : Type ℓ} → (A → Type 0) → Option A → Type 0
Given P none = Unit
Given P (some a) = P a

pub record IsValidPreset (p : ParameterPreset) : Type 0 where
  pub slug : is_path_slug p.slug ≡ true
  pub not_default : text_eq p.slug (text "default") ≡ false
  pub named : is_empty p.name ≡ false

pub record IsValidOverride (e : Text × ParameterOverride) : Type 0 where
  pub id : is_empty e.0 ≡ false
  pub label : Given (λ l. is_empty l ≡ false) e.1.label
  pub precision : Given (λ n. n ≤ 12) e.1.precision
  pub widget : Given (λ w. is_widget w ≡ true) e.1.widget

pub record IsValidModel (m : Model) : Type 0 where
  pub version : m.catalog_schema_version ≡ catalog_schema_version
  pub entry : 0 < m.entry_version
  pub slug : is_path_slug m.slug ≡ true
  pub name : is_empty m.name ≡ false
  pub description : is_empty m.description ≡ false
  pub tags : All (λ t. is_path_slug t ≡ true) m.tags
  pub thumbnail : Given (λ t. is_empty (trim t) ≡ false) m.thumbnail
  pub document : is_empty m.onshape.document_id ≡ false
  pub document_version : is_empty m.onshape.version_id ≡ false
  pub element : is_empty m.onshape.element_id ≡ false
  pub link : Given (λ l. is_empty l ≡ false) m.onshape.link_document_id
  pub some_download : is_empty m.exports.downloads ≡ false
  pub downloads : Distinct format_eq m.exports.downloads
  pub project : Given (λ p. IsWellFormed (project_request m p)) m.exports.bambu_project
  pub presets : All IsValidPreset m.parameter_presets
  pub preset_slugs : Distinct (λ p r. text_eq p.slug r.slug) m.parameter_presets
  pub overrides : All IsValidOverride m.parameter_overrides

abbrev pub same_slug : Model → Model → Bool
same_slug m n = text_eq m.slug n.slug

abbrev pub same_source : Model → Model → Bool
same_source m n = text_eq (identity_key m.onshape) (identity_key n.onshape)

pub record IsValidCatalog (c : Catalog) : Type 0 where
  pub version : c.catalog_schema_version ≡ catalog_schema_version
  pub models : All IsValidModel c.models
  pub slugs : Distinct same_slug c.models
  pub sources : Distinct same_source c.models
