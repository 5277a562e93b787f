-- ===== src/Parameters/Accepted.antt =====
-- When submitted values are accepted, and what the accepted configuration holds.
use mathlib.Core.Path.{subst}
use onshape_export.Base.{
  ◌≡◌, ◌↔◌, refl, sym, ap, ◌∙◌, Text, text_eq_refl, Bool, true, false, ◌&&◌, ◌||◌, none, List, [],
  ◌∷◌, arith, all, is_empty, All, All-map, HasUniqueKeys, Result, ok, if◌then◌else◌,
}
use onshape_export.Parameters.{
  Parameter, ValidatedConfiguration, Entry, Validation, is_known, unknown_errors, take_unknown,
  accept, collect, validate_values,
}
use onshape_export.Parameters.Collected.{
  is_ok, IsFree, IsAccepted, made_of, unknown_errors-empty, take_unknown-errors, take_unknown-known,
  finished_fine, finished-ok, collect-errors, collect-IsAccepted,
}

module _ (accept_number : Parameter → Text → Result Text Entry)
    (submitted : List (Text × Text)) where
  known_self :
      (parameters : List Parameter)
      → All (λ (p : Parameter). is_known parameters p.id ≡ true) parameters
  known_self [] = tt
  known_self (p ∷ parameters) = (
    ground (arith, text_eq_refl p.id),
    All-map (λ (q : Parameter). is_known parameters q.id ≡ true)
        (λ (q : Parameter). is_known (p ∷ parameters) q.id ≡ true) parameters
        (λ q h. ground (arith, h)) (known_self parameters),
  )

  every_true :
      (f : Parameter → Bool) (parameters : List Parameter)
      → all f parameters ≡ true
      → All (λ p. f p ≡ true) parameters
  every_true f [] h = tt
  every_true f (p ∷ parameters) h = (ground (arith, h), every_true f parameters (ground (arith, h)))

  -- The loops, before the unknown values are taken.
  abbrev gathered : List Parameter → Bool → Validation
  gathered parameters allow_unknown = collect accept_number submitted parameters (record {
    errors = if allow_unknown then [] else unknown_errors parameters submitted;
    values = λ _. none;
    typed_values = λ _. none;
  })

  abbrev completed : List Parameter → Bool → Validation
  completed parameters allow_unknown =
      if allow_unknown
      then take_unknown parameters submitted (gathered parameters allow_unknown)
      else gathered parameters allow_unknown

  completed_errors :
      (parameters : List Parameter) (allow_unknown : Bool)
      → is_empty (completed parameters allow_unknown).errors ≡ (
          (allow_unknown || all (λ (e : Text × Text). is_known parameters e.0) submitted)
          && all (λ p. is_ok (accept accept_number submitted p)) parameters)
  completed_errors parameters true =
      ap is_empty (take_unknown-errors parameters submitted (gathered parameters true))
      ∙ collect-errors accept_number submitted parameters _
  completed_errors parameters false =
      collect-errors accept_number submitted parameters _
      ∙ ap (λ b. b && all (λ p. is_ok (accept accept_number submitted p)) parameters)
          (unknown_errors-empty parameters submitted)

  completed_known :
      (parameters : List Parameter) (allow_unknown : Bool) (key : Text)
      → is_known parameters key ≡ true
      → ((completed parameters allow_unknown).values key
          ≡ (gathered parameters allow_unknown).values key)
        × ((completed parameters allow_unknown).typed_values key
            ≡ (gathered parameters allow_unknown).typed_values key)
  completed_known parameters true key known =
      take_unknown-known parameters submitted (gathered parameters true) key known
  completed_known parameters false key known = (refl, refl)

  every-IsFree :
      (errors : List Text) (parameters : List Parameter)
      → All
          (IsFree accept_number submitted
            (record { errors = errors; values = λ _. none; typed_values = λ _. none }))
          parameters
  every-IsFree errors [] = tt
  every-IsFree errors (p ∷ parameters) = ((refl, refl), every-IsFree errors parameters)

  completed-IsAccepted :
      (parameters : List Parameter) (allow_unknown : Bool)
      → HasUniqueKeys (λ (p : Parameter). p.id) parameters
      → all (λ p. is_ok (accept accept_number submitted p)) parameters ≡ true
      → All
          (IsAccepted accept_number submitted
            (completed parameters allow_unknown).values
            (completed parameters allow_unknown).typed_values)
          parameters
  completed-IsAccepted parameters allow_unknown unique oks =
      go parameters
        (collect-IsAccepted accept_number submitted parameters _ unique
          (every_true _ parameters oks)
          (every-IsFree (if allow_unknown then [] else unknown_errors parameters submitted)
            parameters))
        (known_self parameters)
    where
      go :
          (ps : List Parameter)
          → All
              (IsAccepted accept_number submitted
                (gathered parameters allow_unknown).values
                (gathered parameters allow_unknown).typed_values)
              ps
          → All (λ (p : Parameter). is_known parameters p.id ≡ true) ps
          → All
              (IsAccepted accept_number submitted
                (completed parameters allow_unknown).values
                (completed parameters allow_unknown).typed_values)
              ps
      go [] a k = tt
      go (p ∷ ps) (a, more) (k, known) =
          let (values, typed) = completed_known parameters allow_unknown p.id k in
          (
            record {
              entry = a.entry;
              accepted = a.accepted;
              value = values ∙ a.value;
              typed_value = typed ∙ a.typed_value;
            },
            go ps more known,
          )

  abbrev pub FitsAll : List Parameter → Bool → Type 0
  FitsAll parameters allow_unknown =
      All (λ p. is_ok (accept accept_number submitted p) ≡ true) parameters
      × (allow_unknown || all (λ (e : Text × Text). is_known parameters e.0) submitted ≡ true)

  all_from :
      (f : Parameter → Bool) (parameters : List Parameter)
      → All (λ p. f p ≡ true) parameters
      → all f parameters ≡ true
  all_from f [] h = refl
  all_from f (p ∷ parameters) (h, more) = ground (arith, h, all_from f parameters more)

  -- For parameters with different ids, submitted values are accepted exactly when each parameter is by
  -- itself and the names are known or may be unknown, and then each is stored.
  pub validate_values_iff :
      (parameters : List Parameter) (allow_unknown : Bool)
      → HasUniqueKeys (λ (p : Parameter). p.id) parameters
      → (((c : ValidatedConfiguration) × (validate_values accept_number parameters submitted
                allow_unknown
              ≡ ok c))
          ↔ FitsAll parameters allow_unknown)
        × ((c : ValidatedConfiguration)
            → validate_values accept_number parameters submitted allow_unknown ≡ ok c
            → All (IsAccepted accept_number submitted c.values c.typed_values) parameters)
  unfolding validate_values
  validate_values_iff parameters allow_unknown unique =
      let errors = completed_errors parameters allow_unknown in
      let parts : (c : ValidatedConfiguration)
          → validate_values accept_number parameters submitted allow_unknown ≡ ok c
          → (all (λ p. is_ok (accept accept_number submitted p)) parameters ≡ true)
            × (allow_unknown || all (λ (e : Text × Text). is_known parameters e.0) submitted ≡ true)
            × (made_of (completed parameters allow_unknown) ≡ c) =
        λ c h.
          let (fine, made) = finished-ok (completed parameters allow_unknown) c h in
          let both = sym errors ∙ fine in (ground (arith, both), ground (arith, both), made) in
      (
        (
          λ (c, h).
              let (oks, names, _) = parts c h in
              (every_true (λ p. is_ok (accept accept_number submitted p)) parameters oks, names),
          λ (fits, names).
              let every =
                all_from (λ p. is_ok (accept accept_number submitted p)) parameters fits in
              let fine : is_empty (completed parameters allow_unknown).errors ≡ true =
                errors ∙ ground (arith, every, names) in
              (
                made_of (completed parameters allow_unknown),
                finished_fine (completed parameters allow_unknown) fine,
              ),
        ),
        λ c h.
            let (oks, _, made) = parts c h in
            subst
              (λ (x : ValidatedConfiguration).
                All (IsAccepted accept_number submitted x.values x.typed_values) parameters)
              made (completed-IsAccepted parameters allow_unknown unique oks),
      )
