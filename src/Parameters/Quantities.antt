-- ===== src/Parameters/Quantities.antt =====
-- Numbers with and without units, src/parameters.rs: how a submitted text is read, and the text and the
-- value that are stored. A position in a text counts characters.
use onshape_export.Base.{
  ℕ, ◌-◌, Text, text, text_eq, trim, trim_end, is_ascii_alphabetic, Bool, true, false, not, Option,
  none, some, [], ◌∷◌, ◌++◌, ◌==◌, length, is_empty, is_none, take, reverse, Result, ok, err,
  if◌then◌else◌,
}
use onshape_export.Parameters.{
  Parameter, QuantityDimension, length_dimension, angle_dimension, Entry, number_value,
  quantity_value,
}
use onshape_export.Parameters.Decimals.{sign, parse_decimal_rational, rational_decimal_string}
use onshape_export.Parameters.Numbers.{BigNumbers}

pub data QuantityUnit : Type 0 where
  millimeter centimeter meter inch foot degree radian : QuantityUnit

unfoldable pub from_onshape_unit : Text → Option QuantityUnit
from_onshape_unit unit =
    if text_eq unit (text "millimeter")
    then some millimeter
    else if text_eq unit (text "centimeter")
    then some centimeter
    else if text_eq unit (text "meter")
    then some meter
    else if text_eq unit (text "inch")
    then some inch
    else if text_eq unit (text "foot")
    then some foot
    else if text_eq unit (text "degree")
    then some degree
    else if text_eq unit (text "radian")
    then some radian
    else none

unfoldable pub from_abbreviation : Text → Option QuantityUnit
from_abbreviation unit =
    if text_eq unit (text "mm")
    then some millimeter
    else if text_eq unit (text "cm")
    then some centimeter
    else if text_eq unit (text "m")
    then some meter
    else if text_eq unit (text "in")
    then some inch
    else if text_eq unit (text "ft")
    then some foot
    else if text_eq unit (text "deg")
    then some degree
    else if text_eq unit (text "rad")
    then some radian
    else none

abbrev pub abbreviation : QuantityUnit → Text
abbreviation millimeter = text "mm"
abbreviation centimeter = text "cm"
abbreviation meter = text "m"
abbreviation inch = text "in"
abbreviation foot = text "ft"
abbreviation degree = text "deg"
abbreviation radian = text "rad"

abbrev pub dimension : QuantityUnit → QuantityDimension
dimension degree = angle_dimension
dimension radian = angle_dimension
dimension _ = length_dimension

abbrev pub same_dimension : QuantityDimension → QuantityDimension → Bool
same_dimension length_dimension length_dimension = true
same_dimension angle_dimension angle_dimension = true
same_dimension _ _ = false

pub data QuantityParseError : Type 0 where
  not_number unknown_unit incompatible_unit : QuantityParseError

unfoldable pub quantity_error_message : Parameter → QuantityParseError → QuantityDimension → Text
quantity_error_message p not_number d = p.label ++ text " must be a plain decimal number"
quantity_error_message p unknown_unit d = p.label ++ text " has an unknown unit"
quantity_error_message p incompatible_unit length_dimension =
    p.label ++ text " must use a length unit"
quantity_error_message p incompatible_unit angle_dimension =
    p.label ++ text " must use an angle unit"

abbrev pub take_alphabetic : Text → Text
take_alphabetic [] = []
take_alphabetic (c ∷ s) =
    let more = take_alphabetic s in if is_ascii_alphabetic c then c ∷ more else []

abbrev pub unit_of : Text → Text
unit_of trimmed = reverse (take_alphabetic (reverse trimmed))

abbrev pub unit_at : Text → Text → Option (ℕ × Text)
unit_at trimmed unit = if is_empty unit then none else some (length trimmed - length unit, unit)

-- The letters at the end, and where they start.
unfoldable pub trailing_quantity_unit : Text → Option (ℕ × Text)
trailing_quantity_unit value = let trimmed = trim_end value in unit_at trimmed (unit_of trimmed)

-- Nothing, when a loop has run out of its rounds, or an `expect` would panic.
abbrev pub expect : {A : Type 0} → Option (Option A) → Option A
expect none = none
expect (some o) = o

abbrev pub onshape_unit : Parameter → Option QuantityUnit
onshape_unit p = elim p.units [ none ↦ none | some unit ↦ from_onshape_unit unit ]

module _ (n : BigNumbers) where
  open n use {Rational, new, mul, is_negative, magnitude, denominator, to_string, parse_bytes}

  abbrev pub rational_parts : Rational → Text × Text
  rational_parts q = (sign n q ++ to_string (magnitude q), to_string (denominator q))

  abbrev pub length_meters_factor : QuantityUnit → Option Rational
  length_meters_factor millimeter = some (new false 1 1000)
  length_meters_factor centimeter = some (new false 1 100)
  length_meters_factor meter = some (new false 1 1)
  length_meters_factor inch = some (new false 127 5000)
  length_meters_factor foot = some (new false 381 1250)
  length_meters_factor degree = none
  length_meters_factor radian = none

  -- Nothing, when a length unit has no factor.
  unfoldable pub canonical_quantity_value :
      Rational → QuantityUnit → Option (Rational × QuantityUnit)
  canonical_quantity_value value unit = elim (dimension unit) [
    | length_dimension ↦ elim (length_meters_factor unit) [
      | none ↦ none
      | some factor ↦ some (mul value factor, meter)
    ]
    | angle_dimension ↦ some (value, unit)
  ]

  abbrev pub number_read :
      QuantityUnit → Option Rational → Result QuantityParseError (Rational × QuantityUnit)
  number_read unit none = err not_number
  number_read unit (some value) = ok (value, unit)

  abbrev pub number_with :
      QuantityUnit
      → QuantityUnit
      → Option Rational
      → Result QuantityParseError (Rational × QuantityUnit)
  number_with default_unit unit number =
      if not (same_dimension (dimension unit) (dimension default_unit))
      then err incompatible_unit
      else number_read unit number

  abbrev pub number_known :
      QuantityUnit
      → Option Rational
      → Option QuantityUnit
      → Result QuantityParseError (Rational × QuantityUnit)
  number_known default_unit number none = err unknown_unit
  number_known default_unit number (some unit) = number_with default_unit unit number

  abbrev pub number_in :
      QuantityUnit → Text → Option (ℕ × Text) → Result QuantityParseError (Rational × QuantityUnit)
  number_in default_unit trimmed none =
      number_with default_unit default_unit (parse_decimal_rational n trimmed)
  number_in default_unit trimmed (some (unit_start, unit)) =
      if unit_start == 0
      then err not_number
      else number_known default_unit (parse_decimal_rational n (trim (take unit_start trimmed)))
          (from_abbreviation unit)

  unfoldable pub parse_quantity :
      Text → QuantityUnit → Result QuantityParseError (Rational × QuantityUnit)
  unfolding trailing_quantity_unit parse_decimal_rational
  parse_quantity value default_unit =
      let trimmed = trim value in number_in default_unit trimmed (trailing_quantity_unit trimmed)

  abbrev pub stored_quantity : Rational → QuantityUnit → Option Text → Option (Result Text Entry)
  stored_quantity q unit none = none
  stored_quantity q unit (some number) =
      let (numerator, denominator) = rational_parts q in
      some (
        ok (
          number ++ b' ' ∷ abbreviation unit,
          quantity_value (dimension unit) numerator denominator (abbreviation unit),
        ))

  abbrev pub stored_canonical : Option (Rational × QuantityUnit) → Option (Result Text Entry)
  stored_canonical none = none
  stored_canonical (some (value, unit)) =
      stored_quantity value unit (expect (rational_decimal_string n value))

  abbrev pub canonicalize_parsed :
      Parameter
      → QuantityUnit
      → Result QuantityParseError (Rational × QuantityUnit)
      → Option (Result Text Entry)
  canonicalize_parsed p default_unit (err e) =
      some (err (quantity_error_message p e (dimension default_unit)))
  canonicalize_parsed p default_unit (ok (number, unit)) =
      stored_canonical (canonical_quantity_value number unit)

  abbrev pub canonicalize_in : Parameter → Text → Option QuantityUnit → Option (Result Text Entry)
  canonicalize_in p value none = some (err (p.label ++ text " uses an unsupported unit"))
  canonicalize_in p value (some default_unit) =
      canonicalize_parsed p default_unit (parse_quantity value default_unit)

  unfoldable pub canonicalize_dimensioned_number : Parameter → Text → Option (Result Text Entry)
  unfolding from_onshape_unit parse_quantity canonical_quantity_value rational_decimal_string
      quantity_error_message
  canonicalize_dimensioned_number p value = canonicalize_in p value (onshape_unit p)

  abbrev pub stored_number : Rational → Option Text → Option (Result Text Entry)
  stored_number q none = none
  stored_number q (some normalized) =
      let (numerator, denominator) = rational_parts q in
      some (ok (normalized, number_value numerator denominator))

  abbrev pub canonicalize_read : Parameter → Option Rational → Option (Result Text Entry)
  canonicalize_read p none = some (err (p.label ++ text " must be a plain decimal number"))
  canonicalize_read p (some number) =
      stored_number number (expect (rational_decimal_string n number))

  unfoldable pub canonicalize_unitless_number : Parameter → Text → Option (Result Text Entry)
  unfolding parse_decimal_rational rational_decimal_string
  canonicalize_unitless_number p value = canonicalize_read p (parse_decimal_rational n value)

  -- `validate_values`, at a number.
  unfoldable pub canonicalize_number : Parameter → Text → Option (Result Text Entry)
  unfolding canonicalize_dimensioned_number canonicalize_unitless_number
  canonicalize_number p value =
      if is_none p.units
      then canonicalize_unitless_number p value
      else canonicalize_dimensioned_number p value

  abbrev pub or_panicked : Option (Result Text Entry) → Result Text Entry
  or_panicked none = err (text "panicked")
  or_panicked (some r) = r

  -- What `validate_values` does with a number. A panic is an error here.
  abbrev pub accept_number : Parameter → Text → Result Text Entry
  accept_number p value = or_panicked (canonicalize_number p value)
