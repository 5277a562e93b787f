-- ===== src/Parameters/Fitted.antt =====
-- The validation of all submitted values against the rules of their parameters.
use onshape_export.Base.{
  ◌≡◌, ◌⊎◌, ◌↔◌, ap, err, false, inl, inr, Text, text_eq, text_eq_iff, Bool, true, ◌||◌, Option,
  List, [], ◌∷◌, arith, refl, Bool-cases, all, Result, ok, HasUniqueKeys, All, All-map,
}
use onshape_export.Parameters.{
  Parameter, CanonicalParameterValue, ValidatedConfiguration, Entry, accept, is_known,
  validate_values,
}
use onshape_export.Parameters.Collected.{value_of, typed_of, is_ok, IsAccepted}
use onshape_export.Parameters.Accepted.{validate_values_iff}
use onshape_export.Parameters.Fits.{Accepts}
use onshape_export.Parameters.Kinds.{accept-Accepts, Accepts-accept}

-- The name is that of one of the parameters.
abbrev pub Names : Text → List Parameter → Type 0
Names name [] = ⊥
Names name (p ∷ parameters) = (p.id ≡ name) ⊎ Names name parameters

is_known-Names :
    (parameters : List Parameter) (name : Text)
    → is_known parameters name ≡ true
    → Names name parameters
is_known-Names [] name h = absurd (cc h)
is_known-Names (p ∷ parameters) name h = elim (Bool-cases (text_eq p.id name)) [
  | inl same ↦ inl ((text_eq_iff p.id name).0 same)
  | inr other ↦ inr (is_known-Names parameters name (ground (arith, h, other)))
]

Names-is_known :
    (parameters : List Parameter) (name : Text)
    → Names name parameters
    → is_known parameters name ≡ true
Names-is_known [] name h = absurd h
Names-is_known (p ∷ parameters) name (inl e) = ground (arith, (text_eq_iff p.id name).1 e)
Names-is_known (p ∷ parameters) name (inr h) = ground (arith, Names-is_known parameters name h)

every_named :
    (parameters : List Parameter) (submitted : List (Text × Text))
    → all (λ (e : Text × Text). is_known parameters e.0) submitted ≡ true
    → All (λ (e : Text × Text). Names e.0 parameters) submitted
every_named parameters [] h = tt
every_named parameters ((name, value) ∷ submitted) h = (
  is_known-Names parameters name (ground (arith, h)),
  every_named parameters submitted (ground (arith, h)),
)

every_known :
    (parameters : List Parameter) (submitted : List (Text × Text))
    → All (λ (e : Text × Text). Names e.0 parameters) submitted
    → all (λ (e : Text × Text). is_known parameters e.0) submitted ≡ true
every_known parameters [] h = refl
every_known parameters ((name, value) ∷ submitted) (h, more) =
    ground (arith, Names-is_known parameters name h, every_known parameters submitted more)

known_or_allowed :
    (parameters : List Parameter) (submitted : List (Text × Text)) (allow_unknown : Bool)
    → (allow_unknown || all (λ (e : Text × Text). is_known parameters e.0) submitted ≡ true)
      ↔ ((allow_unknown ≡ true) ⊎ All (λ (e : Text × Text). Names e.0 parameters) submitted)
known_or_allowed parameters submitted true = (λ h. inl refl, λ h. refl)
known_or_allowed parameters submitted false = (
  λ h. inr (every_named parameters submitted h),
  λ h. elim h [ inl bad ↦ absurd (cc bad) | inr names ↦ every_known parameters submitted names ],
)

module _ (accept_number : Parameter → Text → Result Text Entry)
    (submitted : List (Text × Text)) where
  -- Each parameter is accepted by its rule, and the names are known or may be unknown.
  abbrev pub SuitsAll : List Parameter → Bool → Type 0
  SuitsAll parameters allow_unknown =
      All (λ p. (e : Option Entry) × Accepts accept_number submitted p e) parameters
      × ((allow_unknown ≡ true) ⊎ All (λ (e : Text × Text). Names e.0 parameters) submitted)

  -- The configuration holds under the id of the parameter what its rule makes of the value.
  pub record IsHeld (values : Text → Option Text) (typed : Text → Option CanonicalParameterValue)
      (p : Parameter) : Type 0 where
    pub entry : Option Entry
    pub accepted : Accepts accept_number submitted p entry
    pub value : values p.id ≡ value_of entry
    pub typed_value : typed p.id ≡ typed_of entry

  is_ok-Accepts :
      (p : Parameter) (o : Result Text (Option Entry))
      → accept accept_number submitted p ≡ o
      → is_ok o ≡ true
      → (e : Option Entry) × Accepts accept_number submitted p e
  is_ok-Accepts p (ok e) made h = (e, accept-Accepts accept_number submitted p e made)
  is_ok-Accepts p (err message) made h = absurd (cc h)

  -- For parameters with different ids, whatever is done with numbers: submitted values are accepted exactly
  -- when each parameter is, and unknown names are allowed or every submitted name is that of a
  -- parameter. The value that counts for a parameter is the first submitted under its id if it is not
  -- empty, and otherwise its default. A parameter is accepted if none counts and none is required, or
  -- if the one that counts suits its kind: any text, a number that is accepted, one of the words true,
  -- on, 1, false, 0, or one of the options; one of an unsupported kind never is. Then the
  -- configuration holds under the id of each parameter what the rule says: nothing, the text
  -- itself, what is made of the number, `true` or `false`, or the option.
  pub validate_values-SuitsAll :
      (parameters : List Parameter) (allow_unknown : Bool)
      → HasUniqueKeys (λ (p : Parameter). p.id) parameters
      → (((c : ValidatedConfiguration) × (validate_values accept_number parameters submitted
                allow_unknown
              ≡ ok c))
          ↔ SuitsAll parameters allow_unknown)
        × ((c : ValidatedConfiguration)
            → validate_values accept_number parameters submitted allow_unknown ≡ ok c
            → All (IsHeld c.values c.typed_values) parameters)
  validate_values-SuitsAll parameters allow_unknown unique =
      let (accepted, held) =
        validate_values_iff accept_number submitted parameters allow_unknown unique in
      let names = known_or_allowed parameters submitted allow_unknown in
      (
        (
          λ x.
              let (oks, known) = accepted.0 x in
              (
                All-map (λ p. is_ok (accept accept_number submitted p) ≡ true)
                    (λ p. (e : Option Entry) × Accepts accept_number submitted p e) parameters
                    (λ p h. is_ok-Accepts p (accept accept_number submitted p) refl h) oks,
                names.0 known,
              ),
          λ (rules, known). accepted.1 (
            All-map (λ p. (e : Option Entry) × Accepts accept_number submitted p e)
                (λ p. is_ok (accept accept_number submitted p) ≡ true) parameters
                (λ p (e, h). ap is_ok (Accepts-accept accept_number submitted p h)) rules,
            names.1 known,
          ),
        ),
        λ c h.
            All-map (IsAccepted accept_number submitted c.values c.typed_values)
              (IsHeld c.values c.typed_values) parameters
              (λ p a. record {
                entry = a.entry;
                accepted = accept-Accepts accept_number submitted p a.entry a.accepted;
                value = a.value;
                typed_value = a.typed_value;
              })
              (held c h),
      )
