-- ===== src/Catalog.antt =====
-- The data model of src/catalog.rs: catalogs, models, their exports and their parameters' overrides.
-- A `HashMap` is the list of its entries, with distinct keys, in the order of its iteration.
pub mod Slugs
pub mod Validate
pub mod Validity
mod Accepts
pub mod Decides
pub mod Sources
mod Tests
use onshape_export.Base.{
  ℕ, Text, text, text_eq, Bool, true, false, Option, none, some, List, [], ◌∷◌, ◌++◌, if◌then◌else◌,
}
use onshape_export.Selection.{SelectionSelector}

abbrev pub catalog_schema_version : ℕ
catalog_schema_version = 1

pub data ElementKind : Type 0 where
  part_studio assembly : ElementKind

pub record OnshapeSource : Type 0 where
  pub document_id : Text
  pub version_id : Text
  pub element_id : Text
  pub element_kind : ElementKind
  pub link_document_id : Option Text

pub record ParameterOverride : Type 0 where
  pub label : Option Text
  pub description : Option Text
  pub hidden : Bool
  pub precision : Option ℕ
  pub widget : Option Text

pub record ParameterPreset : Type 0 where
  pub slug : Text
  pub name : Text
  pub values : List (Text × Text)

pub data PreviewResolution : Type 0 where
  coarse medium fine : PreviewResolution

pub data MeshResolution : Type 0 where
  coarse medium fine : MeshResolution

pub data StlMode : Type 0 where
  binary text_mode : StlMode

pub data StepVersionString : Type 0 where
  ap242 : StepVersionString

pub record PreviewOptions : Type 0 where
  pub resolution : PreviewResolution

pub record StlDownloadOptions : Type 0 where
  pub resolution : MeshResolution
  pub stl_mode : StlMode

pub record ThreeMfDownloadOptions : Type 0 where
  pub resolution : MeshResolution

pub record DownloadOptions : Type 0 where
  pub step_version_string : StepVersionString
  pub stl : StlDownloadOptions
  pub three_mf : ThreeMfDownloadOptions

pub data DownloadFormat : Type 0 where
  step stl three_mf : DownloadFormat

pub data PreviewFormat : Type 0 where
  glb : PreviewFormat

pub record BambuProjectConfig : Type 0 where
  pub selectors : List SelectionSelector

pub record ExportConfig : Type 0 where
  pub downloads : List DownloadFormat
  pub preview : PreviewFormat
  pub preview_options : PreviewOptions
  pub download_options : DownloadOptions
  pub bambu_project : Option BambuProjectConfig

pub data ParameterSource : Type 0 where
  onshape : ParameterSource

pub record ParameterPolicy : Type 0 where
  pub source : ParameterSource
  pub allow_unknown : Bool
  pub auto_refresh : Bool

pub record Model : Type 0 where
  pub catalog_schema_version : ℕ
  pub entry_version : ℕ
  pub slug : Text
  pub name : Text
  pub description : Text
  pub published : Bool
  pub tags : List Text
  pub thumbnail : Option Text
  pub onshape : OnshapeSource
  pub exports : ExportConfig
  pub parameter_policy : ParameterPolicy
  pub parameter_presets : List ParameterPreset
  pub parameter_overrides : List (Text × ParameterOverride)

pub record Catalog : Type 0 where
  pub catalog_schema_version : ℕ
  pub models : List Model

-- ElementKind::key
unfoldable pub key : ElementKind → Text
key part_studio = text "part_studio"
key assembly = text "assembly"

-- The five or four fields, joined by colons.
unfoldable pub identity_key : OnshapeSource → Text
unfolding key
identity_key s = elim s.link_document_id [
  | some link ↦
      key s.element_kind
      ++ (b':' ∷ s.document_id ++ (b':' ∷ s.version_id ++ (b':' ∷ s.element_id ++ b':' ∷ link)))
  | none ↦
      key s.element_kind ++ (b':' ∷ s.document_id ++ (b':' ∷ s.version_id ++ b':' ∷ s.element_id))
]

unfoldable pub from_slug : Text → Option DownloadFormat
from_slug value =
    if text_eq value (text "step")
    then some step
    else if text_eq value (text "stl")
    then some stl
    else if text_eq value (text "3mf")
    then some three_mf
    else none

unfoldable pub slug : DownloadFormat → Text
slug step = text "step"
slug stl = text "stl"
slug three_mf = text "3mf"

unfoldable pub find : Text → List Model → Option Model
find wanted [] = none
find wanted (m ∷ models) =
    let rest = find wanted models in if text_eq m.slug wanted then some m else rest
