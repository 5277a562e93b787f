-- ===== src/Parameters/Agreement.antt =====
-- The text that is stored for a number, and its stored numerator and denominator, are the same number.
use mathlib.Core.Path.{subst}
use onshape_export.Base.{
  ◌^◌, ◌<◌, ◌≡◌, refl, sym, ap, ◌∙◌, Text, true, Option, none, some, ◌∷◌, ◌++◌, arith, length,
  length-append, is_none, Result, ok, err, ◌⊎◌, Bool-cases, inl, inr,
}
use onshape_export.Parameters.{
  Parameter, CanonicalParameterValue, Entry, number_value, quantity_value,
}
use onshape_export.Parameters.Numbers.{BigNumbers, IsSameValue}
use onshape_export.Parameters.Decimals.{parse_decimal_rational, rational_decimal_string}
use onshape_export.Parameters.Quantities.{
  QuantityUnit, millimeter, centimeter, meter, inch, foot, degree, radian, abbreviation, dimension,
  same_dimension, QuantityParseError, rational_parts, parse_quantity, onshape_unit,
  canonical_quantity_value, expect, stored_number, stored_quantity, stored_canonical,
  canonicalize_read, canonicalize_parsed, canonicalize_in, canonicalize_number,
  canonicalize_unitless_number, canonicalize_dimensioned_number,
}
use onshape_export.Parameters.Roundtrip.{rational_decimal_string-IsReread}
use onshape_export.Parameters.Canonical.{parse_quantity-ok}
use onshape_export.Parameters.Units.{parse_quantity-written}

abbrev entry_or : Entry → Option (Result Text Entry) → Entry
entry_or e (some (ok entry)) = entry
entry_or e _ = e

entry_injective :
    (a b : Entry) (o : Option (Result Text Entry)) → o ≡ some (ok a) → o ≡ some (ok b) → a ≡ b
entry_injective a b o h k = ap (entry_or a) (sym h ∙ k)

module _ (n : BigNumbers) where
  open n use {Rational}

  abbrev value_of_parts : Text × Text → CanonicalParameterValue
  value_of_parts (numerator, denominator) = number_value numerator denominator

  abbrev quantity_of_parts : QuantityUnit → Text × Text → CanonicalParameterValue
  quantity_of_parts u (numerator, denominator) =
      quantity_value (dimension u) numerator denominator (abbreviation u)

  -- The stored text is read as a number of the value of `q`, and the stored value is that of `q`.
  pub record IsNumberOf (normalized : Text) (typed : CanonicalParameterValue) : Type 0 where
    pub q : Rational
    pub value : typed ≡ value_of_parts (rational_parts n q)
    pub number : Rational
    pub read : parse_decimal_rational n normalized ≡ some number
    pub same : IsSameValue n number q

  -- The same with a unit, whatever unit of the same dimension is the default.
  pub record IsQuantityOf (default_unit : QuantityUnit) (normalized : Text)
      (typed : CanonicalParameterValue) : Type 0 where
    pub q : Rational
    pub unit : QuantityUnit
    pub value : typed ≡ quantity_of_parts unit (rational_parts n q)
    pub number : Rational
    pub read : parse_quantity n normalized default_unit ≡ ok (number, unit)
    pub same : IsSameValue n number q

  abbrev unit_or : Option (Rational × QuantityUnit) → QuantityUnit
  unit_or none = meter
  unit_or (some (q, u)) = u

  expect-some : (o : Option (Option Text)) (s : Text) → expect o ≡ some s → o ≡ some (some s)
  expect-some none s h = absurd (cc h)
  expect-some (some o) s h = ap some h

  stored_number-IsNumberOf :
      (q : Rational) (o : Option Text) (normalized : Text) (typed : CanonicalParameterValue)
      → expect (rational_decimal_string n q) ≡ o
      → stored_number n q o ≡ some (ok (normalized, typed))
      → length normalized < 2 ^ 32
      → IsNumberOf normalized typed
  stored_number-IsNumberOf q none normalized typed printed h short = absurd (cc h)
  stored_number-IsNumberOf q (some s) normalized typed printed h short =
      let entry = entry_injective _ (normalized, typed) (stored_number n q (some s)) refl h in
      let written : s ≡ normalized = ap (λ (e : Entry). e.0) entry in
      let reread =
        rational_decimal_string-IsReread n q normalized
          (expect-some _ normalized (printed ∙ ap some written)) short in
      record {
        q = q;
        value = sym (ap (λ (e : Entry). e.1) entry);
        number = reread.number;
        read = reread.read;
        same = reread.same;
      }

  stored_quantity-IsQuantityOf :
      (q : Rational) (u default_unit : QuantityUnit) (o : Option Text) (normalized : Text)
      (typed : CanonicalParameterValue)
      → same_dimension (dimension u) (dimension default_unit) ≡ true
      → expect (rational_decimal_string n q) ≡ o
      → stored_quantity n q u o ≡ some (ok (normalized, typed))
      → length normalized < 2 ^ 32
      → IsQuantityOf default_unit normalized typed
  stored_quantity-IsQuantityOf q u default_unit none normalized typed suits printed h short =
      absurd (cc h)
  stored_quantity-IsQuantityOf q u default_unit (some s) normalized typed suits printed h short =
      let entry = entry_injective _ (normalized, typed) (stored_quantity n q u (some s)) refl h in
      let written : s ++ b' ' ∷ abbreviation u ≡ normalized = ap (λ (e : Entry). e.0) entry in
      let shorter : length s < 2 ^ 32 =
        let long = length-append {0} s (b' ' ∷ abbreviation u) in
        let sizes = ap length written in omega (arith, long, sizes, short) in
      let reread = rational_decimal_string-IsReread n q s (expect-some _ s printed) shorter in
      record {
        q = q;
        unit = u;
        value = sym (ap (λ (e : Entry). e.1) entry);
        number = reread.number;
        read =
            ap (λ x. parse_quantity n x default_unit) (sym written)
            ∙ parse_quantity-written s reread.solid reread.filled u n reread.number default_unit
                reread.read suits;
        same = reread.same;
      }

  -- The canonical unit has the dimension of the unit that was read.
  canonical_quantity_value-dimension :
      (number q : Rational) (unit u : QuantityUnit)
      → canonical_quantity_value n number unit ≡ some (q, u)
      → dimension unit ≡ dimension u
  unfolding canonical_quantity_value
  canonical_quantity_value-dimension number q millimeter u h = ap (λ o. dimension (unit_or o)) h
  canonical_quantity_value-dimension number q centimeter u h = ap (λ o. dimension (unit_or o)) h
  canonical_quantity_value-dimension number q meter u h = ap (λ o. dimension (unit_or o)) h
  canonical_quantity_value-dimension number q inch u h = ap (λ o. dimension (unit_or o)) h
  canonical_quantity_value-dimension number q foot u h = ap (λ o. dimension (unit_or o)) h
  canonical_quantity_value-dimension number q degree u h = ap (λ o. dimension (unit_or o)) h
  canonical_quantity_value-dimension number q radian u h = ap (λ o. dimension (unit_or o)) h

  canonicalize_parsed-IsQuantityOf :
      (p : Parameter) (default_unit : QuantityUnit) (value normalized : Text)
      (typed : CanonicalParameterValue)
      → canonicalize_parsed n p default_unit (parse_quantity n value default_unit)
        ≡ some (ok (normalized, typed))
      → length normalized < 2 ^ 32
      → IsQuantityOf default_unit normalized typed
  canonicalize_parsed-IsQuantityOf p default_unit value normalized typed h short =
      by_result (parse_quantity n value default_unit) refl h
    where
      by_canonical :
          (unit : QuantityUnit) (number : Rational) (o : Option (Rational × QuantityUnit))
          → same_dimension (dimension unit) (dimension default_unit) ≡ true
          → canonical_quantity_value n number unit ≡ o
          → stored_canonical n o ≡ some (ok (normalized, typed))
          → IsQuantityOf default_unit normalized typed
      by_canonical unit number none suits made e = absurd (cc e)
      by_canonical unit number (some (q, u)) suits made e =
          let same = canonical_quantity_value-dimension number q unit u made in
          stored_quantity-IsQuantityOf q u default_unit (expect (rational_decimal_string n q))
            normalized typed
            (subst (λ d. same_dimension d (dimension default_unit) ≡ true) same suits) refl e short

      by_result :
          (o : Result QuantityParseError (Rational × QuantityUnit))
          → parse_quantity n value default_unit ≡ o
          → canonicalize_parsed n p default_unit o ≡ some (ok (normalized, typed))
          → IsQuantityOf default_unit normalized typed
      by_result (err failure) parsed e = absurd (cc e)
      by_result (ok (number, unit)) parsed e =
          by_canonical unit number (canonical_quantity_value n number unit)
            (parse_quantity-ok n value default_unit unit number parsed).1 refl e

  canonicalize_in-IsQuantityOf :
      (p : Parameter) (value normalized : Text) (typed : CanonicalParameterValue)
      (o : Option QuantityUnit)
      → onshape_unit p ≡ o
      → canonicalize_in n p value o ≡ some (ok (normalized, typed))
      → length normalized < 2 ^ 32
      → (default_unit : QuantityUnit) × (onshape_unit p ≡ some default_unit)
        × IsQuantityOf default_unit normalized typed
  canonicalize_in-IsQuantityOf p value normalized typed none unit h short = absurd (cc h)
  canonicalize_in-IsQuantityOf p value normalized typed (some default_unit) unit h short = (
    default_unit,
    unit,
    canonicalize_parsed-IsQuantityOf p default_unit value normalized typed h short,
  )

  canonicalize_read-IsNumberOf :
      (p : Parameter) (normalized : Text) (typed : CanonicalParameterValue) (o : Option Rational)
      → canonicalize_read n p o ≡ some (ok (normalized, typed))
      → length normalized < 2 ^ 32
      → IsNumberOf normalized typed
  canonicalize_read-IsNumberOf p normalized typed none h short = absurd (cc h)
  canonicalize_read-IsNumberOf p normalized typed (some q) h short =
      stored_number-IsNumberOf q (expect (rational_decimal_string n q)) normalized typed refl h
        short

  -- When a number is accepted, and its stored text has fewer than 2^32 characters, then its stored value is
  -- the numerator and denominator of some rational, and the stored text, submitted again, is read as a
  -- number of the same sign and value: without a unit when the parameter has none, and otherwise with
  -- the stored unit, which suits the parameter's.
  pub canonicalize_number-agrees :
      (p : Parameter) (value normalized : Text) (typed : CanonicalParameterValue)
      → canonicalize_number n p value ≡ some (ok (normalized, typed))
      → length normalized < 2 ^ 32
      → (is_none p.units ≡ true) × IsNumberOf normalized typed
        ⊎ (default_unit : QuantityUnit) × (onshape_unit p ≡ some default_unit)
          × IsQuantityOf default_unit normalized typed
  unfolding canonicalize_number canonicalize_unitless_number canonicalize_dimensioned_number
  canonicalize_number-agrees p value normalized typed h short =
      elim (Bool-cases (is_none p.units)) [
        | inl without ↦ inl (
          without,
          canonicalize_read-IsNumberOf p normalized typed (parse_decimal_rational n value)
              (ground (arith, h, without)) short,
        )
        | inr with_unit ↦ inr (
            canonicalize_in-IsQuantityOf p value normalized typed (onshape_unit p) refl
              (ground (arith, h, with_unit)) short)
      ]
