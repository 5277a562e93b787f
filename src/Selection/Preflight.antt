-- ===== src/Selection/Preflight.antt =====
-- Which requests `preflight` accepts.
use onshape_export.Base.{
  ℕ, ◌+◌, ◌≤◌, ◌≡◌, ◌↔◌, refl, Bool, true, List, [], ◌∷◌, arith, all, length, ok, All, Distinct,
  all_new, all_new_iff, NewTo,
}
use onshape_export.Failure.{bounded_visible_ascii, is_sha256}
use onshape_export.Selection.{
  SelectionRequest, SelectionSelector, SelectionElementKind, max_selectors, selector_eq, fits,
  has_shape, check_selectors, preflight,
}

check_selectors_lem :
    (kind : SelectionElementKind) (at : ℕ) (seen selectors : List SelectionSelector)
    → (check_selectors kind at seen selectors ≡ ok tt)
      ↔ ((all (fits kind) selectors ≡ true) × (all_new selector_eq seen selectors ≡ true))
unfolding check_selectors all_new
check_selectors_lem kind at seen [] = (λ h. (refl, refl), λ h. refl)
check_selectors_lem kind at seen (s ∷ rest) =
    let ih = check_selectors_lem kind (at + 1) (s ∷ seen) rest in ground (arith, ih)

-- The selectors are of the kind of the root element, well formed, and no two are equal.
pub record IsWellFormed (r : SelectionRequest) : Type 0 where
  pub names :
      All
        (λ s. bounded_visible_ascii s ≡ true)
        (r.document_id ∷ r.version_id ∷ r.element_id ∷ r.configuration_encoding.encoded_id ∷ [])
  pub hashes :
      All
        (λ s. is_sha256 s ≡ true)
        (r.configuration_encoding.source_hash ∷ r.configuration_encoding.config_hash
          ∷ r.configuration_encoding.encoding_context_hash ∷ [])
  pub some_selectors : 1 ≤ length r.selectors
  pub bounded : length r.selectors ≤ max_selectors
  pub fitting : All (λ s. fits r.element_kind s ≡ true) r.selectors
  pub distinct : Distinct selector_eq r.selectors

all→All :
    (p : SelectionSelector → Bool) (xs : List SelectionSelector)
    → (all p xs ≡ true) ↔ All (λ s. p s ≡ true) xs
all→All p [] = (λ h. tt, λ h. refl)
all→All p (x ∷ xs) =
    let ih = all→All p xs in
    (λ h. (ground arith, ih.0 (ground arith)), λ h. ground (arith, ih.1 h.1, h.0))

NewTo-nil : (xs : List SelectionSelector) → NewTo selector_eq [] xs
NewTo-nil [] = tt
NewTo-nil (x ∷ xs) = (refl, NewTo-nil xs)

preflight_sound : (r : SelectionRequest) → preflight r ≡ ok tt → IsWellFormed r
unfolding preflight
preflight_sound r h =
    let shape : has_shape r ≡ true = ground arith in
    let loop : check_selectors r.element_kind 0 [] r.selectors ≡ ok tt = ground arith in
    let parts = (check_selectors_lem r.element_kind 0 [] r.selectors).0 loop in
    record {
      names = ground arith;
      hashes = ground arith;
      some_selectors = ground arith;
      bounded = ground arith;
      fitting = (all→All (fits r.element_kind) r.selectors).0 parts.0;
      distinct = ((all_new_iff selector_eq [] r.selectors).0 parts.1).1;
    }

preflight_complete : (r : SelectionRequest) → IsWellFormed r → preflight r ≡ ok tt
unfolding preflight
preflight_complete r w =
    let fitting = (all→All (fits r.element_kind) r.selectors).1 w.fitting in
    let new = (all_new_iff selector_eq [] r.selectors).1 (NewTo-nil r.selectors, w.distinct) in
    let loop = (check_selectors_lem r.element_kind 0 [] r.selectors).1 (fitting, new) in
    let shape : has_shape r ≡ true =
      ground (arith, w.names, w.hashes, w.some_selectors, w.bounded) in
    rw shape loop

-- `preflight` accepts exactly the requests whose identifiers are bounded visible ASCII, whose hashes
-- are SHA-256 values, and which select 1 to 256 distinct objects of the root's kind.
pub preflight_iff : (r : SelectionRequest) → (preflight r ≡ ok tt) ↔ IsWellFormed r
preflight_iff r = (preflight_sound r, preflight_complete r)
