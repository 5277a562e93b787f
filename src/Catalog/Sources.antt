-- ===== src/Catalog/Sources.antt =====
-- The identity key of a source, and the model that a slug finds.
use onshape_export.Base.{
  ◌≡◌, refl, sym, ap, ◌∙◌, Text, text, text_eq_iff, split, split-piece, split-lacks, lacks, true,
  false, Option, none, some, List, [], ◌∷◌, ◌++◌, arith, All, Distinct, ok,
}
use onshape_export.Catalog.{
  ElementKind, part_studio, assembly, OnshapeSource, Model, Catalog, key, identity_key, find,
}
use onshape_export.Catalog.Validate.{validate}
use onshape_export.Catalog.Validity.{Given, same_slug}
use onshape_export.Catalog.Decides.{validate_iff}

-- Onshape's ids hold no colon.
pub record HasPlainIds (s : OnshapeSource) : Type 0 where
  pub document : lacks b':' s.document_id ≡ true
  pub version : lacks b':' s.version_id ≡ true
  pub element : lacks b':' s.element_id ≡ true
  pub link : Given (λ l. lacks b':' l ≡ true) s.link_document_id

abbrev optional : Option Text → List Text
optional none = []
optional (some l) = l ∷ []

abbrev fields : OnshapeSource → List Text
fields s =
    key s.element_kind ∷ s.document_id ∷ s.version_id ∷ s.element_id ∷ optional s.link_document_id

key_is_plain : (k : ElementKind) → lacks b':' (key k) ≡ true
unfolding key text
key_is_plain part_studio = refl
key_is_plain assembly = refl

split_link :
    (e : Text) (link : Option Text)
    → lacks b':' e ≡ true
    → Given (λ l. lacks b':' l ≡ true) link
    → split b':' (elim link [ none ↦ e | some l ↦ e ++ b':' ∷ l ]) ≡ e ∷ optional link
split_link e none h k = split-lacks b':' e h
split_link e (some l) h k = rw (split-piece b':' e l h, split-lacks b':' l k)

identity_key_tail :
    (s : OnshapeSource)
    → identity_key s
      ≡ key s.element_kind
        ++ (b':' ∷ s.document_id
            ++ (b':' ∷ s.version_id
                ++ b':' ∷ (elim s.link_document_id [
                  | none ↦ s.element_id
                  | some l ↦ s.element_id ++ b':' ∷ l
                ])))
unfolding identity_key
identity_key_tail s = go s.link_document_id
  where
    go :
        (o : Option Text)
        → (elim o [
          | some link ↦
              key s.element_kind
              ++ (b':' ∷ s.document_id
                  ++ (b':' ∷ s.version_id ++ (b':' ∷ s.element_id ++ b':' ∷ link)))
          | none ↦
              key s.element_kind
              ++ (b':' ∷ s.document_id ++ (b':' ∷ s.version_id ++ b':' ∷ s.element_id))
        ])
          ≡ key s.element_kind
            ++ (b':' ∷ s.document_id
                ++ (b':' ∷ s.version_id
                    ++ b':' ∷ (elim o [ none ↦ s.element_id | some l ↦ s.element_id ++ b':' ∷ l ])))
    go none = refl
    go (some l) = refl

split-identity_key : (s : OnshapeSource) → HasPlainIds s → split b':' (identity_key s) ≡ fields s
split-identity_key s h = rw (
  identity_key_tail,
  split-piece b':' (key s.element_kind) _ (key_is_plain s.element_kind),
  split-piece b':' s.document_id _ h.document,
  split-piece b':' s.version_id _ h.version,
  split_link s.element_id s.link_document_id h.element h.link,
)

key_injective : (a b : ElementKind) → key a ≡ key b → a ≡ b
unfolding key text
key_injective part_studio part_studio e = refl
key_injective part_studio assembly e = cc
key_injective assembly part_studio e = cc
key_injective assembly assembly e = refl

optional_injective : (a b : Option Text) → optional a ≡ optional b → a ≡ b
optional_injective none none e = refl
optional_injective none (some b) e = cc
optional_injective (some a) none e = cc
optional_injective (some a) (some b) e = cc

-- Two sources without a colon in their ids have the same identity key only if they are the same
-- source: kind, document, version, element and link.
pub identity_key_injective :
    (a b : OnshapeSource) → HasPlainIds a → HasPlainIds b → identity_key a ≡ identity_key b → a ≡ b
identity_key_injective a b pa pb e =
    let same : fields a ≡ fields b =
      sym (split-identity_key a pa) ∙ ap (split b':') e ∙ split-identity_key b pb in
    let kind = key_injective a.element_kind b.element_kind (cc same) in
    let document : a.document_id ≡ b.document_id = cc same in
    let version : a.version_id ≡ b.version_id = cc same in
    let element : a.element_id ≡ b.element_id = cc same in
    let link = optional_injective a.link_document_id b.link_document_id (cc same) in
    λ i. record {
      document_id = document i;
      version_id = version i;
      element_id = element i;
      element_kind = kind i;
      link_document_id = link i;
    }

found_behind :
    (m : Model) (models others : List Model)
    → All (λ n. same_slug m n ≡ false) others
    → All (λ n. find n.slug models ≡ some n) others
    → All (λ n. find n.slug (m ∷ models) ≡ some n) others
unfolding find
found_behind m models [] apart h = tt
found_behind m models (n ∷ others) apart h =
    (ground (arith, apart.0, h.0), found_behind m models others apart.1 h.1)

found_if_Distinct :
    (models : List Model)
    → Distinct same_slug models
    → All (λ m. find m.slug models ≡ some m) models
found_if_Distinct [] d = tt
found_if_Distinct (m ∷ models) d = (
  unfold find in ground (arith, text_eq_iff m.slug m.slug),
  found_behind m models models d.0 (found_if_Distinct models d.1),
)

-- In a catalog that `validate` accepts, every model is the one that its slug finds.
pub find-validate :
    (c : Catalog) → validate c ≡ ok tt → All (λ m. find m.slug c.models ≡ some m) c.models
find-validate c h = found_if_Distinct c.models ((validate_iff c).0 h).slugs
