-- ===== src/Selection.antt =====
-- Selection requests of src/onshape_selection.rs and the check that precedes every use of one.
pub mod Preflight
use onshape_export.Base.{
  ℕ, suc, ◌+◌, Text, text, text_eq, Bool, true, false, not, ◌&&◌, ◌||◌, Option, none, some, List,
  [], ◌∷◌, ◌==◌, leb, if◌then◌else◌, all, any, length, Result, ok, err,
}
use onshape_export.Failure
use onshape_export.Failure.{
  ApiFailure, FailureKind, invalid_selection, bounded_visible_ascii, is_sha256,
}

abbrev pub max_selectors : ℕ
max_selectors = 256

pub data SelectionElementKind : Type 0 where
  part_studio assembly : SelectionElementKind

pub data SelectionSelector : Type 0 where
  part : Text → SelectionSelector
  occurrence : List Text → SelectionSelector

pub record EncodingHandoff : Type 0 where
  pub source_hash : Text
  pub config_hash : Text
  pub encoding_context_hash : Text
  pub encoded_id : Text

pub record SelectionRequest : Type 0 where
  pub document_id : Text
  pub version_id : Text
  pub element_id : Text
  pub element_kind : SelectionElementKind
  pub configuration_encoding : EncodingHandoff
  pub selectors : List SelectionSelector

unfoldable pub texts_eq : List Text → List Text → Bool
texts_eq [] [] = true
texts_eq (a ∷ s) (b ∷ t) = text_eq a b && texts_eq s t
texts_eq _ _ = false

unfoldable pub selector_eq : SelectionSelector → SelectionSelector → Bool
unfolding texts_eq
selector_eq (part a) (part b) = text_eq a b
selector_eq (occurrence a) (occurrence b) = texts_eq a b
selector_eq _ _ = false

-- EncodingHandoff::validate_shape
unfoldable pub validate_shape : EncodingHandoff → Result ApiFailure (Unit {0})
validate_shape h =
    if not (is_sha256 h.source_hash)
      || not (is_sha256 h.config_hash)
      || not (is_sha256 h.encoding_context_hash)
      || not (bounded_visible_ascii h.encoded_id)
    then err (Failure.new invalid_selection (text "invalid_encoding_handoff"))
    else ok tt

unfoldable pub invalid : ApiFailure
invalid = Failure.new invalid_selection (text "invalid_selection")

-- The `match` on the element kind and the selector.
unfoldable pub fits : SelectionElementKind → SelectionSelector → Bool
fits part_studio (part part_id) = bounded_visible_ascii part_id
fits assembly (occurrence (step ∷ [])) = bounded_visible_ascii step
fits _ _ = false

-- The loop over `selectors.iter().enumerate()`, with the set `seen`.
unfoldable pub check_selectors :
    SelectionElementKind
    → ℕ
    → List SelectionSelector
    → List SelectionSelector
    → Result ApiFailure (Unit {0})
unfolding fits selector_eq
check_selectors kind at seen [] = ok tt
check_selectors kind at seen (s ∷ rest) =
    let later = check_selectors kind (at + 1) (s ∷ seen) rest in
    if not (fits kind s) || any (λ t. selector_eq t s) seen
    then err (Failure.position at invalid)
    else later

abbrev pub has_shape : SelectionRequest → Bool
has_shape r =
    (bounded_visible_ascii r.document_id
      && bounded_visible_ascii r.version_id
      && bounded_visible_ascii r.element_id
      && bounded_visible_ascii r.configuration_encoding.encoded_id)
    && (is_sha256 r.configuration_encoding.source_hash
        && is_sha256 r.configuration_encoding.config_hash
        && is_sha256 r.configuration_encoding.encoding_context_hash)
    && (leb 1 (length r.selectors) && leb (length r.selectors) max_selectors)

unfoldable pub preflight : SelectionRequest → Result ApiFailure (Unit {0})
unfolding check_selectors
preflight r =
    if not (has_shape r) then err invalid else check_selectors r.element_kind 0 [] r.selectors
