-- ===== src/Parameters/Reread.antt =====
-- The decimal text of a rational, read again, is that rational.
use mathlib.Core.List.{append-nil}
use onshape_export.Base.{
  ◌%◌, ◌^◌, ◌≡◌, refl, ap, ◌∙◌, Text, text, split, lacks, split-lacks, split-piece, is_whitespace,
  is_ascii_digit, Bool, true, false, not, some, [], ◌∷◌, ◌++◌, arith, length, all, all-append,
  is_empty, if◌then◌else◌,
}
use onshape_export.Parameters.Numbers.{BigNumbers, digits_value}
use onshape_export.Parameters.Trimmed.{is_solid, trim-solid, digits-solid}
use onshape_export.Parameters.Decimals.{
  decimal_pieces, signed, parse_pieces, parse_after_sign, parse_unsigned, parse_decimal_rational,
}

-- The sign that is written.
abbrev pub sign_text : Bool → Text
sign_text negative = if negative then text "-" else []

abbrev pub begins_with_digit : Text → Bool
begins_with_digit [] = false
begins_with_digit (c ∷ s) = is_ascii_digit c

signed-sign_text :
    (negative : Bool) (s : Text)
    → begins_with_digit s ≡ true
    → signed (sign_text negative ++ s) ≡ (negative, s)
unfolding text
signed-sign_text true s h = refl
signed-sign_text false [] h = absurd (cc h)
signed-sign_text false (c ∷ s) h = ground arith

sign-solid :
    (negative : Bool) (s : Text) → is_solid s ≡ true → is_solid (sign_text negative ++ s) ≡ true
unfolding text is_whitespace
sign-solid true s h = h
sign-solid false s h = h

point_solid : is_whitespace b'.' ≡ false
unfolding is_whitespace
point_solid = refl

begun : (s : Text) → begins_with_digit s ≡ true → is_empty s ≡ false
begun [] h = absurd (cc h)
begun (c ∷ s) h = refl

pub written_solid :
    (negative : Bool) (s : Text)
    → is_solid s ≡ true
    → begins_with_digit s ≡ true
    → (is_solid (sign_text negative ++ s) ≡ true) × (is_empty (sign_text negative ++ s) ≡ false)
unfolding text
written_solid true s h k = (sign-solid true s h, refl)
written_solid false s h k = (h, begun s k)

pub begins-append :
    (s t : Text) → begins_with_digit s ≡ true → begins_with_digit (s ++ b'.' ∷ t) ≡ true
begins-append [] t h = absurd (cc h)
begins-append (c ∷ s) t h = h

pub framed-solid :
    (s t : Text)
    → all is_ascii_digit s ≡ true
    → all is_ascii_digit t ≡ true
    → is_solid (s ++ b'.' ∷ t) ≡ true
framed-solid s t h k =
    all-append (λ c. not (is_whitespace c)) s (b'.' ∷ t)
    ∙ ground (arith, digits-solid s h, digits-solid t k, point_solid)

digits-lacks : (s : Text) → all is_ascii_digit s ≡ true → lacks b'.' s ≡ true
digits-lacks [] h = refl
digits-lacks (c ∷ s) h = ground (arith, digits-lacks s)

module _ (n : BigNumbers) where
  open n use {Rational, new, parse_digits, parse_bytes}

  parse_signed :
      (negative : Bool) (s : Text)
      → begins_with_digit s ≡ true
      → is_solid s ≡ true
      → parse_decimal_rational n (sign_text negative ++ s)
        ≡ parse_pieces n negative (decimal_pieces (split b'.' s))
  unfolding parse_decimal_rational
  parse_signed negative s h solid =
      ap (λ x. parse_after_sign n (signed x))
        (trim-solid (sign_text negative ++ s) (sign-solid negative s solid))
      ∙ ap (parse_after_sign n) (signed-sign_text negative s h)
      ∙ ground (arith, begun s h)

  parse_unsigned-digits :
      (negative : Bool) (integer fractional : Text)
      → begins_with_digit integer ≡ true
      → all is_ascii_digit integer ≡ true
      → all is_ascii_digit fractional ≡ true
      → parse_unsigned n negative integer fractional
        ≡ some (
            new negative
              (digits_value 0 (integer ++ fractional))
              (10 ^ (length fractional % 2 ^ 32)))
  unfolding parse_unsigned
  parse_unsigned-digits negative [] fractional first whole part = absurd (cc first)
  parse_unsigned-digits negative (c ∷ integer) fractional first whole part =
      let digits =
        parse_digits (c ∷ integer ++ fractional) refl
          (all-append is_ascii_digit (c ∷ integer) fractional ∙ ground (arith, whole, part)) in
      ground (arith, digits, whole, part)

  -- A whole number, and one with a fraction.
  pub parse_whole :
      (negative : Bool) (integer : Text)
      → begins_with_digit integer ≡ true
      → all is_ascii_digit integer ≡ true
      → parse_decimal_rational n (sign_text negative ++ integer)
        ≡ some (new negative (digits_value 0 integer) 1)
  parse_whole negative integer first whole =
      parse_signed negative integer first (digits-solid integer whole)
      ∙ ap (λ x. parse_pieces n negative (decimal_pieces x))
          (split-lacks b'.' integer (digits-lacks integer whole))
      ∙ parse_unsigned-digits negative integer [] first whole refl
      ∙ ap (λ x. some (new negative (digits_value 0 x) 1)) (append-nil integer)

  pub parse_fraction :
      (negative : Bool) (integer fractional : Text)
      → begins_with_digit integer ≡ true
      → all is_ascii_digit integer ≡ true
      → all is_ascii_digit fractional ≡ true
      → parse_decimal_rational n (sign_text negative ++ (integer ++ b'.' ∷ fractional))
        ≡ some (
            new negative
              (digits_value 0 (integer ++ fractional))
              (10 ^ (length fractional % 2 ^ 32)))
  parse_fraction negative integer fractional first whole part =
      parse_signed negative (integer ++ b'.' ∷ fractional) (begins-append integer fractional first)
        (framed-solid integer fractional whole part)
      ∙ ap (λ x. parse_pieces n negative (decimal_pieces x))
          (split-piece b'.' integer fractional (digits-lacks integer whole)
            ∙ ap (λ x. integer ∷ x) (split-lacks b'.' fractional (digits-lacks fractional part)))
      ∙ parse_unsigned-digits negative integer fractional first whole part
