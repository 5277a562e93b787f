-- ===== src/Parameters/Fits.antt =====
-- The rule by which one submitted value is accepted, stated apart from the code: which value counts,
-- and what each kind makes of it.
use onshape_export.Base.{
  ◌≡◌, ◌≢◌, ◌⊎◌, ◌∙◌, inl, inr, refl, ap, Text, text, text_eq, text_eq_iff, true, false, Option,
  none, some, List, [], ◌∷◌, arith, find_by, Result, ok, Bool-cases,
}
use onshape_export.Parameters.{
  Parameter, ParameterOption, plain_text, number, boolean, enumeration, unsupported_kind,
  text_value, enum_value, boolean_value, Entry, nonempty, chosen, or_else,
}

-- The first value submitted under the id, or none.
pub data FirstIs (id : Text) : List (Text × Text) → Option Text → Type 0 where
  nowhere : FirstIs id [] none
  here :
      (name value : Text) (rest : List (Text × Text))
      → name ≡ id
      → FirstIs id ((name, value) ∷ rest) (some value)
  further :
      (name value : Text) (rest : List (Text × Text)) (o : Option Text)
      → name ≢ id
      → FirstIs id rest o
      → FirstIs id ((name, value) ∷ rest) o

-- The value that counts: the one submitted, unless it is empty or missing, and then the default.
pub data Supplies (submitted : List (Text × Text)) (p : Parameter) : Option Text → Type 0 where
  own :
      (value : Text)
      → FirstIs p.id submitted (some value)
      → value ≢ []
      → Supplies submitted p (some value)
  blank :
      (o : Option Text)
      → FirstIs p.id submitted (some [])
      → p.default_value ≡ o
      → Supplies submitted p o
  unsaid :
      (o : Option Text) → FirstIs p.id submitted none → p.default_value ≡ o → Supplies submitted p o

abbrev pub Offers : Text → List ParameterOption → Type 0
Offers value [] = ⊥
Offers value (o ∷ options) = (o.value ≡ value) ⊎ Offers value options

module _ (accept_number : Parameter → Text → Result Text Entry) (submitted : List (Text × Text))
    (p : Parameter) where
  -- The parameter is accepted, with this entry or, when nothing is supplied, without one.
  pub data Accepts : Option Entry → Type 0 where
    takes_nothing :
        p.kind ≢ unsupported_kind → p.required ≡ false → Supplies submitted p none → Accepts none
    takes_text :
        (value : Text)
        → p.kind ≡ plain_text
        → Supplies submitted p (some value)
        → Accepts (some (value, text_value value))
    takes_number :
        (value : Text) (entry : Entry)
        → p.kind ≡ number
        → Supplies submitted p (some value)
        → accept_number p value ≡ ok entry
        → Accepts (some entry)
    takes_true :
        (value : Text)
        → p.kind ≡ boolean
        → Supplies submitted p (some value)
        → (value ≡ text "true") ⊎ ((value ≡ text "on") ⊎ (value ≡ text "1"))
        → Accepts (some (text "true", boolean_value true))
    takes_false :
        (value : Text)
        → p.kind ≡ boolean
        → Supplies submitted p (some value)
        → (value ≡ text "false") ⊎ (value ≡ text "0")
        → Accepts (some (text "false", boolean_value false))
    takes_option :
        (value : Text)
        → p.kind ≡ enumeration
        → Supplies submitted p (some value)
        → Offers value p.options
        → Accepts (some (value, enum_value value))

abbrev own_value : Option (Text × Text) → Option Text
own_value none = none
own_value (some (name, value)) = some value

abbrev under : Text → List (Text × Text) → Option (Text × Text)
under id submitted = find_by (λ (e : Text × Text). e.0) id submitted

under-FirstIs :
    (id : Text) (submitted : List (Text × Text))
    → FirstIs id submitted (own_value (under id submitted))
unfolding find_by
under-FirstIs id [] = nowhere
under-FirstIs id ((name, value) ∷ rest) = elim (Bool-cases (text_eq name id)) [
  | inl same ↦ rw same (here name value rest ((text_eq_iff name id).0 same))
  | inr other ↦ rw other (
      further name value rest _ (λ e. ground (arith, other, (text_eq_iff name id).1 e))
        (under-FirstIs id rest))
]

FirstIs-under :
    (id : Text) {submitted : List (Text × Text)} {o : Option Text}
    → FirstIs id submitted o
    → own_value (under id submitted) ≡ o
unfolding find_by
FirstIs-under id nowhere = refl
FirstIs-under id (here name value rest e) = rw ((text_eq_iff name id).1 e) refl
FirstIs-under id (further name value rest o apart f) = elim (Bool-cases (text_eq name id)) [
  | inl same ↦ absurd (apart ((text_eq_iff name id).0 same))
  | inr other ↦ rw other (FirstIs-under id f)
]

abbrev kept : Option Text → Option Text → Option Text
kept none default = default
kept (some []) default = default
kept (some (b ∷ bs)) default = some (b ∷ bs)

kept_is_chosen :
    (o : Option (Text × Text)) (default : Option Text)
    → or_else (nonempty o) default ≡ kept (own_value o) default
kept_is_chosen none default = refl
kept_is_chosen (some (name, [])) default = refl
kept_is_chosen (some (name, b ∷ bs)) default = refl

kept-Supplies :
    (submitted : List (Text × Text)) (p : Parameter) (o : Option Text)
    → FirstIs p.id submitted o
    → Supplies submitted p (kept o p.default_value)
kept-Supplies submitted p none f = unsaid p.default_value f refl
kept-Supplies submitted p (some []) f = blank p.default_value f refl
kept-Supplies submitted p (some (b ∷ bs)) f = own (b ∷ bs) f (λ e. cc e)

pub chosen-Supplies :
    (submitted : List (Text × Text)) (p : Parameter) → Supplies submitted p (chosen submitted p)
chosen-Supplies submitted p =
    rw (kept_is_chosen (under p.id submitted) p.default_value)
      (kept-Supplies submitted p _ (under-FirstIs p.id submitted))

kept_own :
    (value : Text) (default : Option Text) → value ≢ [] → kept (some value) default ≡ some value
kept_own [] default h = absurd (h refl)
kept_own (b ∷ bs) default h = refl

pub Supplies-chosen :
    (submitted : List (Text × Text)) (p : Parameter) {o : Option Text}
    → Supplies submitted p o
    → chosen submitted p ≡ o
Supplies-chosen submitted p (own value f h) =
    kept_is_chosen (under p.id submitted) p.default_value
    ∙ ap (λ x. kept x p.default_value) (FirstIs-under p.id f)
    ∙ kept_own value p.default_value h
Supplies-chosen submitted p (blank o f default) =
    kept_is_chosen (under p.id submitted) p.default_value
    ∙ ap (λ x. kept x p.default_value) (FirstIs-under p.id f)
    ∙ default
Supplies-chosen submitted p (unsaid o f default) =
    kept_is_chosen (under p.id submitted) p.default_value
    ∙ ap (λ x. kept x p.default_value) (FirstIs-under p.id f)
    ∙ default
