-- ===== src/Parameters/Canonical.antt =====
-- The canonical form of a number: nothing panics on the way.
use mathlib.Core.Path.{subst}
use native.Mathlib.Nat.{pow-suc, mul_assoc, one-le-pow}
use onshape_export.Base.{
  ℕ, zero, suc, ◌+◌, ◌*◌, ◌%◌, ◌^◌, ◌<◌, ◌≡◌, refl, sym, ap, ◌∙◌, Text, Bool, true, false, not,
  ◌&&◌, ◌||◌, Option, none, some, ◌++◌, arith, length, all, is_empty, is_ascii_digit, Result, ok,
  err, Bool-cases, Option-cases, inl, inr, split, trim, take, is_none, ◌==◌,
}
use onshape_export.Parameters.{Parameter, Entry}
use onshape_export.Parameters.Numbers.{BigNumbers}
use onshape_export.Parameters.Decimals.{
  decimal_pieces, signed, parse_unsigned, parse_pieces, parse_decimal_rational,
  rational_decimal_string,
}
use onshape_export.Parameters.Quantities.{
  QuantityUnit, millimeter, centimeter, meter, inch, foot, degree, radian, canonical_quantity_value,
  expect, stored_quantity, stored_number, stored_canonical, canonicalize_in, canonicalize_read,
  canonicalize_parsed, canonicalize_unitless_number, canonicalize_dimensioned_number,
  canonicalize_number, parse_quantity, number_read, number_with, number_in, QuantityParseError,
  same_dimension, dimension, trailing_quantity_unit, from_abbreviation, onshape_unit,
}
use onshape_export.Parameters.Factors.{DividesTenPower}
use onshape_export.Parameters.Printed.{rational_decimal_string-ends}

power_sum : (a b : ℕ) → 10 ^ (a + b) ≡ 10 ^ a * (10 ^ b)
power_sum a zero = grind arith
power_sum a (suc b) =
    let next : a + suc b ≡ suc (a + b) = omega arith in
    ap (λ x. 10 ^ x) next
    ∙ pow-suc 10 (a + b)
    ∙ ap (λ x. x * 10) (power_sum a b)
    ∙ mul_assoc (10 ^ a) (10 ^ b) 10
    ∙ ap (λ x. 10 ^ a * x) (sym (pow-suc 10 b))

divides_product : (c d : ℕ) → DividesTenPower c → DividesTenPower d → DividesTenPower (c * d)
divides_product c d (k, m, e) (l, o, f) =
    (k + l, m * o, power_sum k l ∙ ap (λ x. x * (10 ^ l)) e ∙ ap (λ x. m * c * x) f ∙ grind arith)

divides_divisor : (c d j : ℕ) → d ≡ j * c → DividesTenPower d → DividesTenPower c
divides_divisor c d j e (k, m, f) = (k, m * j, f ∙ ap (λ x. m * x) e ∙ sym (mul_assoc m j c))

module _ (n : BigNumbers) where
  open n use {Rational, new, mul, denominator, parse_bytes, new_denominator, mul_denominator}

  new-DividesTenPower :
      (negative : Bool) (v d : ℕ)
      → 0 < d
      → DividesTenPower d
      → DividesTenPower (denominator (new negative v d))
  new-DividesTenPower negative v d pos divides =
      let (j, e) = new_denominator negative v d pos in
      divides_divisor (denominator (new negative v d)) d j e divides

  mul-DividesTenPower :
      (p q : Rational)
      → DividesTenPower (denominator p)
      → DividesTenPower (denominator q)
      → DividesTenPower (denominator (mul p q))
  mul-DividesTenPower p q dp dq =
      let (j, e) = mul_denominator p q in
      divides_divisor (denominator (mul p q)) (denominator p * denominator q) j e
        (divides_product (denominator p) (denominator q) dp dq)

  parse_unsigned-DividesTenPower :
      (negative : Bool) (integer fractional : Text) (q : Rational)
      → parse_unsigned n negative integer fractional ≡ some q
      → DividesTenPower (denominator q)
  unfolding parse_unsigned
  parse_unsigned-DividesTenPower negative integer fractional q h =
      let k = length fractional % 2 ^ 32 in
      let tens : DividesTenPower (10 ^ k) = (k, 1, omega arith) in
      elim (Bool-cases (
        is_empty integer && is_empty fractional
        || not (all is_ascii_digit integer && all is_ascii_digit fractional))) [
          | inl refused ↦ absurd (ground (arith, h, refused))
          | inr fine ↦ elim (Option-cases (parse_bytes (integer ++ fractional))) [
            | inl unread ↦ absurd (ground (arith, h, fine, unread))
            | inr (v, read) ↦
                let same : new negative v (10 ^ k) ≡ q = ground (arith, h, fine, read) in
                subst (λ x. DividesTenPower (denominator x)) same
                  (new-DividesTenPower negative v (10 ^ k) (one-le-pow k 10 (omega arith)) tens)
          ]
        ]

  pieces-DividesTenPower :
      (negative : Bool) (o : Option (Text × Text)) (q : Rational)
      → parse_pieces n negative o ≡ some q
      → DividesTenPower (denominator q)
  pieces-DividesTenPower negative none q h = absurd (cc h)
  pieces-DividesTenPower negative (some (integer, fractional)) q h =
      parse_unsigned-DividesTenPower negative integer fractional q h

  -- What is read as a number has a denominator that divides a power of ten.
  pub parse_decimal_rational-DividesTenPower :
      (value : Text) (q : Rational)
      → parse_decimal_rational n value ≡ some q
      → DividesTenPower (denominator q)
  unfolding parse_decimal_rational
  parse_decimal_rational-DividesTenPower value q h =
      elim (Bool-cases (is_empty (signed (trim value)).1)) [
        | inl nothing ↦ absurd (ground (arith, h, nothing))
        | inr more ↦
            let (negative, unsigned) = signed (trim value) in
            pieces-DividesTenPower negative (decimal_pieces (split b'.' unsigned)) q
              (ground (arith, h, more))
      ]

  -- The loops end, and with a text.
  expected :
      (q : Rational)
      → DividesTenPower (denominator q)
      → (s : Text) × (rational_decimal_string n q ≡ some (some s))
  expected q divides =
      let (o, ends, same) = rational_decimal_string-ends n q in
      let (s, e) = same.1 divides in (s, ends ∙ ap some e)

  factor-DividesTenPower :
      (negative : Bool) (v d k m : ℕ)
      → 0 < d
      → 10 ^ k ≡ m * d
      → (p : Rational) → DividesTenPower (denominator p)
      → DividesTenPower (denominator (mul p (new negative v d)))
  factor-DividesTenPower negative v d k m pos e p divides =
      mul-DividesTenPower p (new negative v d) divides
        (new-DividesTenPower negative v d pos (k, m, e))

  -- A quantity has a canonical value, with such a denominator again.
  canonical_quantity_value-DividesTenPower :
      (p : Rational) (unit : QuantityUnit)
      → DividesTenPower (denominator p)
      → (q : Rational) × (u : QuantityUnit) × (canonical_quantity_value n p unit ≡ some (q, u))
        × DividesTenPower (denominator q)
  unfolding canonical_quantity_value
  canonical_quantity_value-DividesTenPower p millimeter h = (
    mul p (new false 1 1000),
    meter,
    refl,
    factor-DividesTenPower false 1 1000 3 1 (omega arith) refl p h,
  )
  canonical_quantity_value-DividesTenPower p centimeter h = (
    mul p (new false 1 100),
    meter,
    refl,
    factor-DividesTenPower false 1 100 2 1 (omega arith) refl p h,
  )
  canonical_quantity_value-DividesTenPower p meter h = (
    mul p (new false 1 1),
    meter,
    refl,
    factor-DividesTenPower false 1 1 0 1 (omega arith) refl p h,
  )
  canonical_quantity_value-DividesTenPower p inch h = (
    mul p (new false 127 5000),
    meter,
    refl,
    factor-DividesTenPower false 127 5000 4 2 (omega arith) refl p h,
  )
  canonical_quantity_value-DividesTenPower p foot h = (
    mul p (new false 381 1250),
    meter,
    refl,
    factor-DividesTenPower false 381 1250 4 8 (omega arith) refl p h,
  )
  canonical_quantity_value-DividesTenPower p degree h = (p, degree, refl, h)
  canonical_quantity_value-DividesTenPower p radian h = (p, radian, refl, h)

  number_with-ok :
      (default_unit unit u : QuantityUnit) (o : Option Rational) (q : Rational)
      → number_with n default_unit unit o ≡ ok (q, u)
      → (o ≡ some q)
        × (unit ≡ u)
        × (same_dimension (dimension unit) (dimension default_unit) ≡ true)
  number_with-ok default_unit unit u o q h =
      elim (Bool-cases (same_dimension (dimension unit) (dimension default_unit))) [
        | inl same ↦ let (e, f) = read o (ground (arith, h, same)) in (e, f, same)
        | inr other ↦ absurd (ground (arith, h, other))
      ]
    where
      read : (o : Option Rational) → number_read n unit o ≡ ok (q, u) → (o ≡ some q) × (unit ≡ u)
      read none e = absurd (cc e)
      read (some x) e = (ground (arith, e), ground (arith, e))

  -- A quantity that is read has a text that is a number, and a unit of the dimension asked for.
  pub parse_quantity-ok :
      (value : Text) (default_unit u : QuantityUnit) (q : Rational)
      → parse_quantity n value default_unit ≡ ok (q, u)
      → ((s : Text) × (parse_decimal_rational n s ≡ some q))
        × (same_dimension (dimension u) (dimension default_unit) ≡ true)
  unfolding parse_quantity
  parse_quantity-ok value default_unit u q h = by_unit (trailing_quantity_unit (trim value)) h
    where
      by_unit :
          (o : Option (ℕ × Text))
          → number_in n default_unit (trim value) o ≡ ok (q, u)
          → ((s : Text) × (parse_decimal_rational n s ≡ some q))
            × (same_dimension (dimension u) (dimension default_unit) ≡ true)
      by_unit none e =
          let (read, unit, same) = number_with-ok default_unit default_unit u _ q e in
          (
            (trim value, read),
            subst (λ x. same_dimension (dimension x) (dimension default_unit) ≡ true) unit same,
          )
      by_unit (some (start, unit)) e = elim (Bool-cases (start == 0)) [
        | inl front ↦ absurd (ground (arith, e, front))
        | inr later ↦ elim (Option-cases (from_abbreviation unit)) [
          | inl unknown ↦ absurd (ground (arith, e, later, unknown))
          | inr (found, known) ↦
              let (read, unit, same) =
                number_with-ok default_unit found u
                  (parse_decimal_rational n (trim (take start (trim value)))) q
                  (ground (arith, e, later, known)) in
              (
                (trim (take start (trim value)), read),
                subst (λ x. same_dimension (dimension x) (dimension default_unit) ≡ true) unit same,
              )
        ]
      ]

  canonicalize_parsed-ends :
      (p : Parameter) (default_unit : QuantityUnit) (value : Text)
      → (r : Result Text Entry) × (canonicalize_parsed n p default_unit
            (parse_quantity n value default_unit)
          ≡ some r)
  canonicalize_parsed-ends p default_unit value =
      by_result (parse_quantity n value default_unit) refl
    where
      by_result :
          (o : Result QuantityParseError (Rational × QuantityUnit))
          → parse_quantity n value default_unit ≡ o
          → (r : Result Text Entry) × (canonicalize_parsed n p default_unit o ≡ some r)
      by_result (err e) h = (_, refl)
      by_result (ok (number, unit)) h =
          let ((s, read), _) = parse_quantity-ok value default_unit unit number h in
          let divides = parse_decimal_rational-DividesTenPower s number read in
          let (q, u, made, small) = canonical_quantity_value-DividesTenPower number unit divides in
          let (t, printed) = expected q small in
          (_, ap (stored_canonical n) made ∙ ap (λ o. stored_quantity n q u (expect o)) printed)

  canonicalize_in-ends :
      (p : Parameter) (value : Text) (o : Option QuantityUnit)
      → (r : Result Text Entry) × (canonicalize_in n p value o ≡ some r)
  canonicalize_in-ends p value none = (_, refl)
  canonicalize_in-ends p value (some default_unit) = canonicalize_parsed-ends p default_unit value

  canonicalize_read-ends :
      (p : Parameter) (value : Text) (o : Option Rational)
      → parse_decimal_rational n value ≡ o
      → (r : Result Text Entry) × (canonicalize_read n p o ≡ some r)
  canonicalize_read-ends p value none read = (_, refl)
  canonicalize_read-ends p value (some q) read =
      let (t, printed) = expected q (parse_decimal_rational-DividesTenPower value q read) in
      (_, ap (λ o. stored_number n q (expect o)) printed)

  -- Whatever the parameter and the submitted text: the canonicalization of a number ends, and never
  -- panics, neither for a length unit without a factor nor for a number without a finite decimal text.
  pub canonicalize_number-ends :
      (p : Parameter) (value : Text)
      → (r : Result Text Entry) × (canonicalize_number n p value ≡ some r)
  unfolding canonicalize_number canonicalize_unitless_number canonicalize_dimensioned_number
  canonicalize_number-ends p value = elim (Bool-cases (is_none p.units)) [
    | inl without ↦
        let (r, e) = canonicalize_read-ends p value (parse_decimal_rational n value) refl in
        (r, ground (arith, e, without))
    | inr with_unit ↦
        let (r, e) = canonicalize_in-ends p value (onshape_unit p) in
        (r, ground (arith, e, with_unit))
  ]
