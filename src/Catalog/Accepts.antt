-- ===== src/Catalog/Accepts.antt =====
-- `validate` accepts exactly the valid catalogs, check by check.
use onshape_export.Base.{
  ◌≤◌, ◌<◌, ◌≡◌, ◌↔◌, refl, Text, text, text_eq, starts_with, trim, Bool, true, false, not, Option,
  none, some, List, [], ◌∷◌, map, arith, leb, any, is_empty, All, Distinct, all_new, all_new_iff,
  NewTo, Result, ok, err, ensure, for_some, for_each, for_each-ok_iff, >>-eq-ok,
}
use onshape_export.Catalog.{
  catalog_schema_version, ParameterOverride, ParameterPreset, BambuProjectConfig, Model,
}
use onshape_export.Catalog.Slugs.{is_path_slug}
use onshape_export.Catalog.Validate.{
  CatalogError, duplicate_download, no_downloads, empty_override_label, large_precision,
  unsupported_widget, empty_override_id, invalid_tag, empty_thumbnail, empty_link_document_id,
  Check, format_eq, ensure_unique, check_header, check_names, check_source, project_request,
  or_invalid, check_exports, check_presets, is_widget, check_override,
}
use onshape_export.Failure.{ApiFailure}
use onshape_export.Selection.{preflight}
use onshape_export.Selection.Preflight.{IsWellFormed, preflight_iff}
use onshape_export.Catalog.Validity.{Given, IsValidPreset, IsValidOverride}

ensure_unique_lem {ℓ} :
    {A : Type ℓ} (eq : A → A → Bool) (e : CatalogError) (seen xs : List A)
    → (ensure_unique eq e seen xs ≡ ok tt) ↔ (all_new eq seen xs ≡ true)
unfolding ensure_unique all_new
ensure_unique_lem eq e seen [] = (λ h. refl, λ h. refl)
ensure_unique_lem eq e seen (x ∷ xs) = ground (arith, ensure_unique_lem eq e (x ∷ seen) xs)

NewTo-nil {ℓ} : {A : Type ℓ} (eq : A → A → Bool) (xs : List A) → NewTo eq [] xs
NewTo-nil eq [] = tt
NewTo-nil eq (x ∷ xs) = (refl, NewTo-nil eq xs)

pub Distinct-iff {ℓ} :
    {A : Type ℓ} (eq : A → A → Bool) (xs : List A) → (all_new eq [] xs ≡ true) ↔ Distinct eq xs
Distinct-iff eq xs =
    let both = all_new_iff eq [] xs in (λ h. (both.0 h).1, λ d. both.1 (NewTo-nil eq xs, d))

Given-ok_iff {ℓ} :
    {A : Type ℓ} (P : A → Type 0) (check : A → Check) (o : Option A)
    → ((a : A) → (check a ≡ ok tt) ↔ P a)
    → (for_some o check ≡ ok tt) ↔ Given P o
Given-ok_iff P check none each = (λ h. tt, λ h. refl)
Given-ok_iff P check (some a) each = each a

All-ok_iff {ℓ} :
    {A : Type ℓ} (P : A → Type 0) (check : A → Check) (xs : List A)
    → ((a : A) → (check a ≡ ok tt) ↔ P a)
    → All (λ a. check a ≡ ok tt) xs ↔ All P xs
All-ok_iff P check [] each = (λ h. tt, λ h. tt)
All-ok_iff P check (x ∷ xs) each =
    let ih = All-ok_iff P check xs each in
    (λ h. ((each x).0 h.0, ih.0 h.1), λ h. ((each x).1 h.0, ih.1 h.1))

pub loop_iff {ℓ} :
    {A : Type ℓ} (P : A → Type 0) (check : A → Check) (xs : List A)
    → ((a : A) → (check a ≡ ok tt) ↔ P a)
    → (for_each check xs ≡ ok tt) ↔ All P xs
loop_iff P check xs each =
    let steps = for_each-ok_iff check xs in
    let items = All-ok_iff P check xs each in (λ h. items.0 (steps.0 h), λ h. steps.1 (items.1 h))

pub ensure-not_iff : (b : Bool) (e : CatalogError) → (ensure (not b) e ≡ ok tt) ↔ (b ≡ false)
ensure-not_iff b e = ground arith

ensure_iff : (b : Bool) (e : CatalogError) → (ensure b e ≡ ok tt) ↔ (b ≡ true)
ensure_iff b e = ground arith

slug_is_not_empty : (s : Text) → is_path_slug s ≡ true → is_empty s ≡ false
unfolding is_path_slug
slug_is_not_empty s h = ground arith

pub header_iff :
    (m : Model)
    → (check_header m ≡ ok tt) ↔ (
        (m.catalog_schema_version ≡ catalog_schema_version)
        × (0 < m.entry_version)
        × (is_path_slug m.slug ≡ true))
unfolding check_header
header_iff m = ground (arith, slug_is_not_empty m.slug)

pub names_iff :
    (m : Model)
    → (check_names m ≡ ok tt) ↔ (
        (is_empty m.name ≡ false)
        × (is_empty m.description ≡ false)
        × All (λ t. is_path_slug t ≡ true) m.tags
        × Given (λ t. is_empty (trim t) ≡ false) m.thumbnail)
unfolding check_names
names_iff m =
    let tags =
      loop_iff (λ t. is_path_slug t ≡ true) (λ t. ensure (is_path_slug t) (invalid_tag m.slug t))
        m.tags (λ t. ensure_iff _ _) in
    let thumb =
      Given-ok_iff (λ t. is_empty (trim t) ≡ false)
        (λ t. ensure (not (is_empty (trim t))) (empty_thumbnail m.slug)) m.thumbnail
        (λ t. ensure-not_iff _ _) in
    ground (arith, tags, thumb)

pub source_iff :
    (m : Model)
    → (check_source m ≡ ok tt) ↔ (
        (is_empty m.onshape.document_id ≡ false)
        × (is_empty m.onshape.version_id ≡ false)
        × (is_empty m.onshape.element_id ≡ false)
        × Given (λ l. is_empty l ≡ false) m.onshape.link_document_id)
unfolding check_source
source_iff m =
    let link =
      Given-ok_iff (λ l. is_empty l ≡ false)
        (λ l. ensure (not (is_empty l)) (empty_link_document_id m.slug)) m.onshape.link_document_id
        (λ l. ensure-not_iff _ _) in
    ground (arith, link)

or_invalid_iff :
    (m : Model) (r : Result ApiFailure (Unit {0})) → (or_invalid m r ≡ ok tt) ↔ (r ≡ ok tt)
or_invalid_iff m (ok tt) = (λ h. refl, λ h. refl)
or_invalid_iff m (err f) = ground arith

project_iff :
    (m : Model) (p : BambuProjectConfig)
    → (or_invalid m (preflight (project_request m p)) ≡ ok tt) ↔ IsWellFormed (project_request m p)
project_iff m p =
    let wrapped = or_invalid_iff m (preflight (project_request m p)) in
    let accepted = preflight_iff (project_request m p) in
    (λ h. accepted.0 (wrapped.0 h), λ w. wrapped.1 (accepted.1 w))

pub exports_iff :
    (m : Model)
    → (check_exports m ≡ ok tt) ↔ (
        (is_empty m.exports.downloads ≡ false)
        × Distinct format_eq m.exports.downloads
        × Given (λ p. IsWellFormed (project_request m p)) m.exports.bambu_project)
unfolding check_exports
exports_iff m =
    let unique = ensure_unique_lem format_eq (duplicate_download m.slug) [] m.exports.downloads in
    let distinct = Distinct-iff format_eq m.exports.downloads in
    let project =
      Given-ok_iff (λ p. IsWellFormed (project_request m p))
        (λ p. or_invalid m (preflight (project_request m p))) m.exports.bambu_project
        (project_iff m) in
    (
      λ h.
          let one = >>-eq-ok _ _ h in
          let two = >>-eq-ok _ _ one.1 in
          ((ensure-not_iff _ _).0 one.0, distinct.0 (unique.0 two.0), project.0 two.1),
      λ h.
          rw ((ensure-not_iff (is_empty m.exports.downloads) (no_downloads m.slug)).1 h.0)
            (rw (unique.1 (distinct.1 h.1)) (project.1 h.2)),
    )

abbrev pub preset_slug_eq : ParameterPreset → ParameterPreset → Bool
preset_slug_eq p r = text_eq p.slug r.slug

pub any-map {ℓ κ} :
    {A : Type ℓ} {B : Type κ} (p : B → Bool) (f : A → B) (xs : List A)
    → any p (map f xs) ≡ any (λ x. p (f x)) xs
any-map p f [] = refl
any-map p f (x ∷ xs) = ground (arith, any-map p f xs)

not_dashed : (s : Text) → is_path_slug s ≡ true → starts_with s (text "--") ≡ false
unfolding is_path_slug starts_with text
not_dashed [] h = refl
not_dashed (c ∷ s) h = ground arith

-- The loop's set holds the slugs of the presets that came before.
pub presets_iff :
    (slug : Text) (seen presets : List ParameterPreset)
    → (check_presets slug (map (λ (p : ParameterPreset). p.slug) seen) presets ≡ ok tt)
      ↔ (All IsValidPreset presets × (all_new preset_slug_eq seen presets ≡ true))
unfolding check_presets all_new
presets_iff slug seen [] = (λ h. (tt, refl), λ h. refl)
presets_iff slug seen (p ∷ presets) =
    let ih = presets_iff slug (p ∷ seen) presets in
    let set = any-map (λ s. text_eq s p.slug) (λ (q : ParameterPreset). q.slug) seen in
    (
      λ h.
          let rest : check_presets slug (p.slug ∷ map (λ (q : ParameterPreset). q.slug) seen)
                presets
              ≡ ok tt =
            ground arith in
          let later = ih.0 rest in
          (
            (
              record { slug = ground arith; not_default = ground arith; named = ground arith },
              later.0,
            ),
            ground (arith, set, later.1),
          ),
      λ h.
          let rest = ih.1 (h.0.1, ground (arith, h.1)) in
          ground (
            arith,
            set,
            rest,
            h.0.0.slug,
            h.0.0.not_default,
            h.0.0.named,
            slug_is_not_empty p.slug,
            not_dashed p.slug,
            h.1,
          ),
    )

pub override_iff :
    (slug : Text) (e : Text × ParameterOverride)
    → (check_override slug e ≡ ok tt) ↔ IsValidOverride e
unfolding check_override
override_iff slug (id, o) =
    let label =
      Given-ok_iff (λ l. is_empty l ≡ false)
        (λ l. ensure (not (is_empty l)) (empty_override_label slug id)) o.label
        (λ l. ensure-not_iff _ _) in
    let precision =
      Given-ok_iff (λ n. n ≤ 12) (λ n. ensure (leb n 12) (large_precision slug id)) o.precision
        (λ n. ground arith) in
    let widget =
      Given-ok_iff (λ w. is_widget w ≡ true)
        (λ w. ensure (is_widget w) (unsupported_widget slug id w)) o.widget (λ w. ensure_iff _ _) in
    (
      λ h.
          let one = >>-eq-ok _ _ h in
          let two = >>-eq-ok _ _ one.1 in
          let three = >>-eq-ok _ _ two.1 in
          record {
            id = (ensure-not_iff _ _).0 one.0;
            label = label.0 two.0;
            precision = precision.0 three.0;
            widget = widget.0 three.1;
          },
      λ v.
          rw ((ensure-not_iff (is_empty id) (empty_override_id slug)).1 v.id)
            (rw (label.1 v.label) (rw (precision.1 v.precision) (widget.1 v.widget))),
    )
