-- ===== src/Parameters/NumberTests.antt =====
-- A width in millimeters, with fractions that are not reduced.
use onshape_export.Base.{
  List, ◌∷◌, find_by, ◌^◌, ◌<◌, ◌≡◌, ◌↔◌, refl, Text, text, text_eq, trim, trim_start, trim_end,
  split, split_first, is_whitespace, true, false, Option, none, some, [], arith, length, Result, ok,
}
use onshape_export.Parameters.{
  insert, ValidatedConfiguration, validate_values, collect, unknown_errors, accept_value, Parameter,
  number, CanonicalParameterValue, Entry, quantity_value, length_dimension,
}
use onshape_export.Parameters.Numbers.{IsSameValue}
use onshape_export.Parameters.Fractions.{Fraction, fraction, fractions, decimal}
use onshape_export.Parameters.Factors.{DividesTenPower}
use onshape_export.Parameters.Decimals.{
  divide_out, parse_unsigned, parse_decimal_rational, long_division, print_decimal,
  rational_decimal_string,
}
use onshape_export.Parameters.Quantities.{
  from_onshape_unit, from_abbreviation, trailing_quantity_unit, canonical_quantity_value,
  parse_quantity, canonicalize_dimensioned_number, canonicalize_number, accept_number,
}
use onshape_export.Parameters.Printed.{rational_decimal_string-ends}
use onshape_export.Parameters.Roundtrip.{parse_decimal_rational-rational_decimal_string}
use onshape_export.Parameters.Canonical.{canonicalize_number-ends}
use onshape_export.Parameters.Stored.{IsAgreed, validate_values-agrees}

abbrev three_eighths : Fraction
three_eighths = fraction true 3 8

abbrev third : Fraction
third = fraction false 1 3

abbrev shown : Text
shown = text "-0.375"

prints : rational_decimal_string fractions three_eighths ≡ some (some shown)
unfolding rational_decimal_string divide_out print_decimal long_division decimal text
prints = refl

has_no_text : rational_decimal_string fractions third ≡ some none
unfolding rational_decimal_string divide_out
has_no_text = refl

shown_short : length shown < 2 ^ 32
unfolding text
shown_short = omega arith

rational_decimal_string-ends_example :
    (o : Option Text) × (rational_decimal_string fractions third ≡ some o)
    × (((s : Text) × (o ≡ some s)) ↔ DividesTenPower 3)
rational_decimal_string-ends_example = rational_decimal_string-ends fractions third

parse_decimal_rational-rational_decimal_string_example :
    (p : Fraction) × (parse_decimal_rational fractions shown ≡ some p)
    × IsSameValue fractions p three_eighths
parse_decimal_rational-rational_decimal_string_example =
    parse_decimal_rational-rational_decimal_string fractions three_eighths shown prints shown_short

abbrev width : Parameter
width = record {
  id = text "width";
  label = text "Width";
  description = none;
  kind = number;
  required = true;
  default_value = none;
  options = [];
  hidden = false;
  precision = none;
  widget = none;
  units = some (text "millimeter");
}

abbrev normalized : Text
normalized = text "0.025 m"

abbrev typed : CanonicalParameterValue
typed = quantity_value length_dimension (text "25") (text "1000") (text "m")

canonicalizes : canonicalize_number fractions width (text " 2.5cm ") ≡ some (ok (normalized, typed))
unfolding canonicalize_number canonicalize_dimensioned_number from_onshape_unit from_abbreviation
    trailing_quantity_unit parse_quantity parse_decimal_rational parse_unsigned
    canonical_quantity_value rational_decimal_string divide_out print_decimal long_division decimal
    text text_eq trim trim_start trim_end is_whitespace split split_first
canonicalizes = refl

normalized_short : length normalized < 2 ^ 32
unfolding text
normalized_short = omega arith

canonicalize_number-ends_example :
    (r : Result Text Entry) × (canonicalize_number fractions width (text "1/3 in") ≡ some r)
canonicalize_number-ends_example = canonicalize_number-ends fractions width (text "1/3 in")

abbrev given : List (Text × Text)
given = (text "width", text " 2.5cm ") ∷ []

abbrev stored : ValidatedConfiguration
stored = record {
  values = insert (text "width") normalized (λ _. none);
  typed_values = insert (text "width") typed (λ _. none);
}

validates : validate_values (accept_number fractions) (width ∷ []) given false ≡ ok stored
unfolding validate_values collect unknown_errors accept_value canonicalize_number
    canonicalize_dimensioned_number from_onshape_unit from_abbreviation trailing_quantity_unit
    parse_quantity parse_decimal_rational parse_unsigned canonical_quantity_value
    rational_decimal_string divide_out print_decimal long_division decimal text text_eq trim
    trim_start trim_end is_whitespace split split_first find_by
validates = refl

holds_width : stored.values width.id ≡ some normalized
unfolding text text_eq
holds_width = refl

validate_values-agrees_example :
    (t : CanonicalParameterValue) × (stored.typed_values width.id ≡ some t)
    × IsAgreed fractions width normalized t
validate_values-agrees_example =
    validate_values-agrees fractions [] [] width given false stored normalized (tt, tt) validates
      refl holds_width normalized_short
