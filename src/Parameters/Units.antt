-- ===== src/Parameters/Units.antt =====
-- A number written with its unit, read again: `parse_quantity` finds both.
use mathlib.Core.List.{append_assoc, reverse-append, reverse-reverse}
use onshape_export.Base.{
  ℕ, suc, ◌-◌, ◌≡◌, refl, sym, ap, ◌∙◌, Text, text, text_eq, trim, trim_start, trim_end,
  is_whitespace, true, false, not, none, some, [], ◌∷◌, ◌++◌, ◌==◌, arith, length, length-append,
  take, reverse, is_empty, ok, err, if◌then◌else◌,
}
use onshape_export.Parameters.Numbers.{BigNumbers}
use onshape_export.Parameters.Trimmed.{
  is_solid, trim_end-back, trim_start-front, trim_start-solid, all-reverse,
}
use onshape_export.Parameters.Decimals.{parse_decimal_rational}
use onshape_export.Parameters.Quantities.{
  QuantityUnit, millimeter, centimeter, meter, inch, foot, degree, radian, abbreviation,
  from_abbreviation, dimension, same_dimension, take_alphabetic, unit_of, unit_at,
  trailing_quantity_unit, parse_quantity, number_in, number_known, number_with, incompatible_unit,
  not_number,
}

from_abbreviation-abbreviation : (u : QuantityUnit) → from_abbreviation (abbreviation u) ≡ some u
unfolding from_abbreviation text text_eq
from_abbreviation-abbreviation millimeter = refl
from_abbreviation-abbreviation centimeter = refl
from_abbreviation-abbreviation meter = refl
from_abbreviation-abbreviation inch = refl
from_abbreviation-abbreviation foot = refl
from_abbreviation-abbreviation degree = refl
from_abbreviation-abbreviation radian = refl

-- An abbreviation up to its last letter, and that letter.
abbreviation_parts :
    (u : QuantityUnit)
    → (front : Text) × (last : ℕ) × (abbreviation u ≡ front ++ last ∷ [])
      × (is_whitespace last ≡ false)
unfolding text is_whitespace
abbreviation_parts millimeter = (b'm' ∷ [], b'm', refl, refl)
abbreviation_parts centimeter = (b'c' ∷ [], b'm', refl, refl)
abbreviation_parts meter = ([], b'm', refl, refl)
abbreviation_parts inch = (b'i' ∷ [], b'n', refl, refl)
abbreviation_parts foot = (b'f' ∷ [], b't', refl, refl)
abbreviation_parts degree = (b'd' ∷ b'e' ∷ [], b'g', refl, refl)
abbreviation_parts radian = (b'r' ∷ b'a' ∷ [], b'd', refl, refl)

-- The letters before a space, from the back.
take_alphabetic-unit :
    (u : QuantityUnit) (rest : Text)
    → reverse (take_alphabetic (reverse (b' ' ∷ abbreviation u) ++ rest)) ≡ abbreviation u
unfolding text
take_alphabetic-unit millimeter rest = refl
take_alphabetic-unit centimeter rest = refl
take_alphabetic-unit meter rest = refl
take_alphabetic-unit inch rest = refl
take_alphabetic-unit foot rest = refl
take_alphabetic-unit degree rest = refl
take_alphabetic-unit radian rest = refl

later : (k : ℕ) → (suc k == 0) ≡ false
later k = ground arith

take-append : (s : Text) (c : ℕ) (t : Text) → take (suc (length s)) (s ++ c ∷ t) ≡ s ++ c ∷ []
take-append [] c t = refl
take-append (d ∷ s) c t = ap (λ x. d ∷ x) (take-append s c t)

abbreviation_filled : (u : QuantityUnit) → is_empty (abbreviation u) ≡ false
unfolding text
abbreviation_filled millimeter = refl
abbreviation_filled centimeter = refl
abbreviation_filled meter = refl
abbreviation_filled inch = refl
abbreviation_filled foot = refl
abbreviation_filled degree = refl
abbreviation_filled radian = refl

trim_start-filled :
    (s t : Text) → is_solid s ≡ true → is_empty s ≡ false → trim_start (s ++ t) ≡ s ++ t
trim_start-filled [] t h k = absurd (cc k)
trim_start-filled (c ∷ s) t h k = trim_start-front c (s ++ t) (ground (arith, h))

-- The text of a number with a unit.
module _ (s : Text) (solid : is_solid s ≡ true) (filled : is_empty s ≡ false)
    (u : QuantityUnit) where
  abbrev written : Text
  written = s ++ b' ' ∷ abbreviation u

  trim_end-written : trim_end written ≡ written
  trim_end-written =
      let (front, last, parts, seen) = abbreviation_parts u in
      let form : written ≡ (s ++ b' ' ∷ front) ++ last ∷ [] =
        ap (λ x. s ++ b' ' ∷ x) parts ∙ sym (append_assoc s (b' ' ∷ front) (last ∷ [])) in
      ap trim_end form ∙ trim_end-back (s ++ b' ' ∷ front) last seen ∙ sym form

  trim-written : trim written ≡ written
  unfolding trim
  trim-written =
      ap trim_end (trim_start-filled s (b' ' ∷ abbreviation u) solid filled) ∙ trim_end-written

  trailing-written : trailing_quantity_unit written ≡ some (suc (length s), abbreviation u)
  unfolding trailing_quantity_unit
  trailing-written =
      let letters : unit_of written ≡ abbreviation u =
        ap (λ x. reverse (take_alphabetic x)) (reverse-append s (b' ' ∷ abbreviation u))
        ∙ take_alphabetic-unit u (reverse s) in
      let start : length written - length (abbreviation u) ≡ suc (length s) =
        let whole = length-append {0} s (b' ' ∷ abbreviation u) in omega arith in
      ap (λ x. unit_at x (unit_of x)) trim_end-written
      ∙ ap (unit_at written) letters
      ∙ ap
          (λ b. if b then none else some (length written - length (abbreviation u), abbreviation u))
          (abbreviation_filled u)
      ∙ ap (λ k. some (k, abbreviation u)) start

  -- Without the unit, the space is trimmed.
  trim-number : trim (s ++ b' ' ∷ []) ≡ s
  unfolding trim trim_end trim_start is_whitespace
  trim-number =
      ap trim_end (trim_start-filled s (b' ' ∷ []) solid filled)
      ∙ ap (λ x. reverse (trim_start x)) (reverse-append s (b' ' ∷ []))
      ∙ ap reverse (trim_start-solid (reverse s) (all-reverse (λ c. not (is_whitespace c)) s solid))
      ∙ reverse-reverse s

  -- The quantity that is read from it.
  pub parse_quantity-written :
      (n : BigNumbers) (r : n.Rational) (default_unit : QuantityUnit)
      → parse_decimal_rational n s ≡ some r
      → same_dimension (dimension u) (dimension default_unit) ≡ true
      → parse_quantity n written default_unit ≡ ok (r, u)
  unfolding parse_quantity
  parse_quantity-written n r default_unit read same =
      ap (λ x. number_in n default_unit x (trailing_quantity_unit x)) trim-written
      ∙ ap (number_in n default_unit written) trailing-written
      ∙ ap
          (λ b.
            if b
            then err not_number
            else number_known n default_unit
                (parse_decimal_rational n (trim (take (suc (length s)) written)))
                (from_abbreviation (abbreviation u)))
          (later (length s))
      ∙ ap
          (number_known n default_unit
            (parse_decimal_rational n (trim (take (suc (length s)) written))))
          (from_abbreviation-abbreviation u)
      ∙ ap (λ x. number_with n default_unit u (parse_decimal_rational n (trim x)))
          (take-append s b' ' (abbreviation u))
      ∙ ap (λ x. number_with n default_unit u (parse_decimal_rational n x)) trim-number
      ∙ ap (number_with n default_unit u) read
      ∙ ap (λ b. if not b then err incompatible_unit else ok (r, u)) same
