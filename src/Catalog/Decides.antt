-- ===== src/Catalog/Decides.antt =====
-- The loop of `validate` over the models, and what a valid catalog accepts.
use onshape_export.Base.{
  ◌≡◌, ◌↔◌, refl, Text, text_eq, true, false, not, Option, none, some, List, [], ◌∷◌, map, arith,
  ◌==◌, any, All, all_new, all_new-cons, ok, ensure, for_each, >>-eq-ok,
}
use onshape_export.Catalog.{catalog_schema_version, Model, Catalog, identity_key}
use onshape_export.Catalog.Validate.{
  unsupported_schema_version, duplicate_slug, check_header, check_names, check_source,
  check_exports, check_presets, check_override, owner_of, ensure_new_source, check_models, validate,
}
use onshape_export.Catalog.Validity.{
  IsValidOverride, IsValidModel, IsValidCatalog, same_slug, same_source,
}
use onshape_export.Catalog.Accepts.{
  header_iff, names_iff, source_iff, exports_iff, presets_iff, override_iff, any-map, loop_iff,
  Distinct-iff, preset_slug_eq,
}

owner_iff :
    (identity : Text) (seen : List Model)
    → (owner_of identity (map (λ (m : Model). (identity_key m.onshape, m.slug)) seen) ≡ none)
      ↔ (any (λ m. text_eq (identity_key m.onshape) identity) seen ≡ false)
unfolding owner_of
owner_iff identity [] = (λ h. refl, λ h. refl)
owner_iff identity (m ∷ seen) = ground (arith, owner_iff identity seen)

ensure_new_source_iff :
    (slug identity : Text) (o : Option Text)
    → (ensure_new_source slug identity o ≡ ok tt) ↔ (o ≡ none)
ensure_new_source_iff slug identity none = (λ h. refl, λ h. refl)
ensure_new_source_iff slug identity (some s) = ground arith

abbrev identities : List Model → List (Text × Text)
identities seen = map (λ (m : Model). (identity_key m.onshape, m.slug)) seen

abbrev slugs_of : List Model → List Text
slugs_of seen = map (λ (m : Model). m.slug) seen

new_slug_iff :
    (seen : List Model) (m : Model)
    → (ensure (not (any (λ s. text_eq s m.slug) (slugs_of seen))) (duplicate_slug m.slug) ≡ ok tt)
      ↔ (any (λ n. same_slug n m) seen ≡ false)
new_slug_iff seen m = ground (arith, any-map (λ s. text_eq s m.slug) (λ (n : Model). n.slug) seen)

new_source_iff :
    (seen : List Model) (m : Model)
    → (ensure_new_source m.slug
          (identity_key m.onshape)
          (owner_of (identity_key m.onshape) (identities seen))
        ≡ ok tt)
      ↔ (any (λ n. same_source n m) seen ≡ false)
new_source_iff seen m =
    let a =
      ensure_new_source_iff m.slug (identity_key m.onshape)
        (owner_of (identity_key m.onshape) (identities seen)) in
    let b = owner_iff (identity_key m.onshape) seen in (λ h. b.0 (a.0 h), λ h. a.1 (b.1 h))

-- The checks of one model that look at no other model.
abbrev ModelChecks : Model → Type 0
ModelChecks m =
    (check_header m ≡ ok tt)
    × (check_names m ≡ ok tt)
    × (check_source m ≡ ok tt)
    × (check_exports m ≡ ok tt)
    × (check_presets m.slug [] m.parameter_presets ≡ ok tt)
    × (for_each (check_override m.slug) m.parameter_overrides ≡ ok tt)

model_iff : (m : Model) → ModelChecks m ↔ IsValidModel m
model_iff m =
    let header = header_iff m in
    let names = names_iff m in
    let source = source_iff m in
    let exports = exports_iff m in
    let presets = presets_iff m.slug [] m.parameter_presets in
    let preset_slugs = Distinct-iff preset_slug_eq m.parameter_presets in
    let overrides =
      loop_iff IsValidOverride (check_override m.slug) m.parameter_overrides
        (override_iff m.slug) in
    (
      λ (a, b, c, d, e, f).
          let h = header.0 a in
          let n = names.0 b in
          let s = source.0 c in
          let x = exports.0 d in
          let p = presets.0 e in
          record {
            version = h.0;
            entry = h.1;
            slug = h.2;
            name = n.0;
            description = n.1;
            tags = n.2;
            thumbnail = n.3;
            document = s.0;
            document_version = s.1;
            element = s.2;
            link = s.3;
            some_download = x.0;
            downloads = x.1;
            project = x.2;
            presets = p.0;
            preset_slugs = preset_slugs.0 p.1;
            overrides = overrides.0 f;
          },
      λ v. (
        header.1 (v.version, v.entry, v.slug),
        names.1 (v.name, v.description, v.tags, v.thumbnail),
        source.1 (v.document, v.document_version, v.element, v.link),
        exports.1 (v.some_download, v.downloads, v.project),
        presets.1 (v.presets, preset_slugs.1 v.preset_slugs),
        overrides.1 v.overrides,
      ),
    )

models_iff :
    (seen models : List Model)
    → (check_models (slugs_of seen) (identities seen) models ≡ ok tt) ↔ (
        All IsValidModel models
        × (all_new same_slug seen models ≡ true)
        × (all_new same_source seen models ≡ true))
unfolding check_models
models_iff seen [] = unfold all_new in (λ h. (tt, refl, refl), λ h. refl)
models_iff seen (m ∷ models) =
    let ih = models_iff (m ∷ seen) models in
    let slugs = new_slug_iff seen m in
    let sources = new_source_iff seen m in
    let this = model_iff m in
    let slug_step = all_new-cons same_slug seen m models in
    let source_step = all_new-cons same_source seen m models in
    (
      λ h.
          let header = >>-eq-ok _ _ h in
          let slug = >>-eq-ok _ _ header.1 in
          let names = >>-eq-ok _ _ slug.1 in
          let source = >>-eq-ok _ _ names.1 in
          let owner = >>-eq-ok _ _ source.1 in
          let exports = >>-eq-ok _ _ owner.1 in
          let presets = >>-eq-ok _ _ exports.1 in
          let overrides = >>-eq-ok _ _ presets.1 in
          let later = ih.0 overrides.1 in
          (
            (this.0 (header.0, names.0, source.0, exports.0, presets.0, overrides.0), later.0),
            slug_step.1 (slugs.0 slug.0, later.1),
            source_step.1 (sources.0 owner.0, later.2),
          ),
      λ h.
          let (header, names, source, exports, presets, overrides) = this.1 h.0.0 in
          let (new_slug, later_slugs) = slug_step.0 h.1 in
          let (new_source, later_sources) = source_step.0 h.2 in
          let slug = slugs.1 new_slug in
          let owner = sources.1 new_source in
          let rest = ih.1 (h.0.1, later_slugs, later_sources) in
          rw (header, slug, names, source, owner, exports, presets, overrides) rest,
    )

-- `validate` accepts exactly the valid catalogs: the version is the supported one, every model is
-- valid by itself, and no two models share a slug or a source identity.
pub validate_iff : (c : Catalog) → (validate c ≡ ok tt) ↔ IsValidCatalog c
unfolding validate
validate_iff c =
    let loop = models_iff [] c.models in
    let slugs = Distinct-iff same_slug c.models in
    let sources = Distinct-iff same_source c.models in
    (
      λ h.
          let one =
            >>-eq-ok
              (ensure (c.catalog_schema_version == catalog_schema_version)
                (unsupported_schema_version c.catalog_schema_version))
              _ h in
          let (models, new_slugs, new_sources) = loop.0 one.1 in
          record {
            version = ground (arith, one.0);
            models = models;
            slugs = slugs.0 new_slugs;
            sources = sources.0 new_sources;
          },
      λ v.
          let rest = loop.1 (v.models, slugs.1 v.slugs, sources.1 v.sources) in
          ground (arith, v.version, rest),
    )
