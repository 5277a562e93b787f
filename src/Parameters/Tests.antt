-- ===== src/Parameters/Tests.antt =====
-- Submitted values of a small schema.
use onshape_export.Base.{
  ◌≡◌, ◌↔◌, refl, Text, text, text_eq, true, false, find_by, none, some, List, [], ◌∷◌, All,
  HasUniqueKeys, Result, ok, err,
}
use onshape_export.Parameters.{
  Parameter, boolean, enumeration, ValidatedConfiguration, Entry, number_value, normalize_bool,
  accept_boolean, accept_enum, accept_value, collect, unknown_errors, validate_values,
}
use onshape_export.Parameters.Fitted.{SuitsAll, IsHeld, validate_values-SuitsAll}

abbrev any_number : Parameter → Text → Result Text Entry
any_number p value = ok (value, number_value value (text "1"))

abbrev lid : Parameter
lid = record {
  id = text "lid";
  label = text "Lid";
  description = none;
  kind = boolean;
  required = true;
  default_value = some (text "false");
  options = [];
  hidden = false;
  precision = none;
  widget = none;
  units = none;
}

abbrev size : Parameter
size = record lid {
  id = text "size";
  label = text "Size";
  kind = enumeration;
  default_value = none;
  options = record { value = text "S"; label = text "Small" } ∷ [];
}

abbrev schema : List Parameter
schema = lid ∷ size ∷ []

abbrev submitted : List (Text × Text)
submitted = (text "lid", text "on") ∷ (text "size", text "S") ∷ []

-- Two values are refused, and each has its message.
refuses_values :
    validate_values any_number schema
      ((text "lid", text "yes") ∷ (text "depth", text "1") ∷ [])
      false
    ≡ err (
        text "unknown parameter: depth"
        ∷ text "Lid must be a boolean"
        ∷ text "Size is required"
        ∷ [])
unfolding validate_values collect accept_value accept_boolean accept_enum normalize_bool
    unknown_errors text text_eq find_by
refuses_values = refl

schema-HasUniqueKeys : HasUniqueKeys (λ (p : Parameter). p.id) schema
unfolding text text_eq
schema-HasUniqueKeys = ((refl, tt), (tt, tt))

validate_values-SuitsAll_example :
    (((c : ValidatedConfiguration) × (validate_values any_number schema submitted false ≡ ok c))
      ↔ SuitsAll any_number submitted schema false)
    × ((c : ValidatedConfiguration)
        → validate_values any_number schema submitted false ≡ ok c
        → All (IsHeld any_number submitted c.values c.typed_values) schema)
validate_values-SuitsAll_example =
    validate_values-SuitsAll any_number submitted schema false schema-HasUniqueKeys
