-- ===== src/Parameters/Stored.antt =====
-- The numbers of an accepted configuration: the stored text and the stored value agree.
use onshape_export.Base.{
  ◌^◌, ◌<◌, ◌≡◌, ◌⊎◌, sym, ap, ◌∙◌, Text, Bool, true, Option, none, some, List, [], ◌∷◌, ◌++◌,
  arith, length, is_none, All, HasUniqueKeys, Result, ok, err, Bool-cases, inl, inr,
}
use onshape_export.Parameters.{
  Parameter, number, CanonicalParameterValue, ValidatedConfiguration, Entry, accept_value,
  accept_kind, accept_chosen, some_entry, chosen, accept, validate_values,
}
use onshape_export.Parameters.Collected.{value_of, typed_of}
use onshape_export.Parameters.Accepted.{validate_values_iff}
use onshape_export.Parameters.Numbers.{BigNumbers}
use onshape_export.Parameters.Quantities.{
  QuantityUnit, onshape_unit, canonicalize_number, or_panicked, accept_number,
}
use onshape_export.Parameters.Agreement.{IsNumberOf, IsQuantityOf, canonicalize_number-agrees}

All-middle :
    (P : Parameter → Type 0) (before after : List Parameter) (p : Parameter)
    → All P (before ++ p ∷ after)
    → P p
All-middle P [] after p h = h.0
All-middle P (q ∷ before) after p h = All-middle P before after p h.1

-- The entry of a number is what is made of some text.
module _ (number_entry : Parameter → Text → Result Text Entry) where
  some_entry-ok : (o : Result Text Entry) (e : Entry) → some_entry o ≡ ok (some e) → o ≡ ok e
  some_entry-ok (ok x) e h = ground (arith, h)
  some_entry-ok (err message) e h = absurd (cc h)

  chosen-number :
      (p : Parameter) (o : Option Text) (e : Entry)
      → p.kind ≡ number
      → accept_chosen number_entry p o ≡ ok (some e)
      → (value : Text) × (number_entry p value ≡ ok e)
  unfolding accept_value
  chosen-number p none e kind h = elim (Bool-cases p.required) [
    | inl needed ↦ absurd (ground (arith, h, needed))
    | inr free ↦ absurd (ground (arith, h, free))
  ]
  chosen-number p (some value) e kind h = (
    value,
    some_entry-ok (number_entry p value) e
        (sym (ap (λ k. some_entry (accept_value number_entry p k value)) kind) ∙ h),
  )

  accept-number :
      (p : Parameter) (submitted : List (Text × Text)) (e : Entry)
      → p.kind ≡ number
      → accept number_entry submitted p ≡ ok (some e)
      → (value : Text) × (number_entry p value ≡ ok e)
  accept-number p submitted e kind h =
      chosen-number p (chosen submitted p) e kind
        (sym (ap (λ k. accept_kind number_entry k p (chosen submitted p)) kind) ∙ h)

module _ (n : BigNumbers) where
  -- The text and the value are of one number, with a unit when the parameter has one.
  abbrev pub IsAgreed : Parameter → Text → CanonicalParameterValue → Type 0
  IsAgreed p normalized typed =
      (is_none p.units ≡ true) × IsNumberOf n normalized typed
      ⊎ (default_unit : QuantityUnit) × (onshape_unit p ≡ some default_unit)
        × IsQuantityOf n default_unit normalized typed

  or_panicked-ok :
      (o : Option (Result Text Entry)) (e : Entry) → or_panicked n o ≡ ok e → o ≡ some (ok e)
  or_panicked-ok none e h = absurd (cc h)
  or_panicked-ok (some r) e h = ap some h

  entry-agrees :
      (p : Parameter) (submitted : List (Text × Text)) (c : ValidatedConfiguration)
      (normalized : Text) (entry : Option Entry)
      → p.kind ≡ number
      → accept (accept_number n) submitted p ≡ ok entry
      → c.values p.id ≡ value_of entry
      → c.typed_values p.id ≡ typed_of entry
      → c.values p.id ≡ some normalized
      → length normalized < 2 ^ 32
      → (typed : CanonicalParameterValue) × (c.typed_values p.id ≡ some typed)
        × IsAgreed p normalized typed
  entry-agrees p submitted c normalized none kind accepted value typed_value stored short =
      absurd (cc (value, stored))
  entry-agrees p submitted c normalized (some (s, typed)) kind accepted value typed_value stored
        short =
      let same : s ≡ normalized = ground (arith, value, stored) in
      let (given, made) = accept-number (accept_number n) p submitted (s, typed) kind accepted in
      let canonical = or_panicked-ok (canonicalize_number n p given) (s, typed) made in
      (
        typed,
        typed_value,
        canonicalize_number-agrees n p given normalized typed
            (canonical ∙ ap (λ x. some (ok (x, typed))) same) short,
      )

  -- When submitted values are accepted, with parameters of different ids, and a text of fewer than 2^32
  -- characters is stored for a parameter that is a number, then a value is stored for it too, the
  -- numerator and denominator of some rational, and that text, submitted again, is read as a number of the
  -- same sign and value: without a unit when the parameter has none, and otherwise with the stored
  -- unit, which suits the parameter's.
  pub validate_values-agrees :
      (before after : List Parameter) (p : Parameter) (submitted : List (Text × Text))
      (allow_unknown : Bool) (c : ValidatedConfiguration) (normalized : Text)
      → HasUniqueKeys (λ (q : Parameter). q.id) (before ++ p ∷ after)
      → validate_values (accept_number n) (before ++ p ∷ after) submitted allow_unknown ≡ ok c
      → p.kind ≡ number
      → c.values p.id ≡ some normalized
      → length normalized < 2 ^ 32
      → (typed : CanonicalParameterValue) × (c.typed_values p.id ≡ some typed)
        × IsAgreed p normalized typed
  validate_values-agrees before after p submitted allow_unknown c normalized unique accepted kind
        stored short =
      let (_, held) =
        validate_values_iff (accept_number n) submitted (before ++ p ∷ after) allow_unknown
          unique in
      let at = All-middle _ before after p (held c accepted) in
      entry-agrees p submitted c normalized at.entry kind at.accepted at.value at.typed_value stored
        short
