-- ===== src/Parameters/Roundtrip.antt =====
-- The decimal text of a rational, read again, has the value of that rational.
use mathlib.Core.Path.{subst}
use native.Mathlib.Nat.{mul-pos, one-le-pow}
use onshape_export.Base.{
  ℕ, suc, ◌+◌, ◌*◌, ◌/◌, ◌%◌, ◌^◌, ◌<◌, ◌≡◌, refl, sym, ap, ◌∙◌, Text, text, is_ascii_digit, Bool,
  true, false, Option, none, some, [], ◌∷◌, ◌++◌, ◌==◌, arith, length, length-append, all, is_empty,
  if◌then◌else◌, Bool-cases, inl, inr,
}
use onshape_export.Parameters.Numbers.{BigNumbers, digits_value, IsSameValue}
use onshape_export.Parameters.Decimals.{
  pop_zeros, long_division, with_fraction, whole_text, print_fraction, print_decimal, print_when,
  printed, divide_out, divide_out_after, rational_decimal_string, parse_decimal_rational,
}
use onshape_export.Parameters.Division.{
  digits_value-append, digits_value-shift, pop_zeros-value, pop_zeros-digits, IsFraction,
  long_division-IsFraction,
}
use onshape_export.Parameters.Trimmed.{is_solid, digits-solid}
use onshape_export.Parameters.Reread.{
  begins_with_digit, begins-append, framed-solid, sign_text, written_solid, parse_whole,
  parse_fraction,
}
use onshape_export.Parameters.Values.{
  cross, joined, digits_begin, all_zeros, kept_fraction, factor_pos, kept_sign,
}

-- The text is one word, not empty, that is read as a number of the same value.
pub record IsReread (n : BigNumbers) (q : n.Rational) (s : Text) : Type 0 where
  pub number : n.Rational
  pub read : parse_decimal_rational n s ≡ some number
  pub same : IsSameValue n number q
  pub solid : is_solid s ≡ true
  pub filled : is_empty s ≡ false

module _ (n : BigNumbers) where
  open n use {
    Rational, new, is_negative, magnitude, denominator, to_string, denominator_pos, magnitude_pos,
    new_value, new_sign, to_string_digits, to_string_value, to_string_filled,
  }

  new-IsSameValue :
      (q : Rational) (v tens : ℕ)
      → 0 < tens
      → v * denominator q ≡ magnitude q * tens
      → IsSameValue n (new (is_negative q) v tens) q
  new-IsSameValue q v tens pos e =
      let above = λ (negative : is_negative q ≡ true).
        factor_pos v (denominator q) (magnitude q * tens) e
          (mul-pos (magnitude_pos q negative) pos) in
      (
        new_sign (is_negative q) v tens pos ∙ kept_sign (is_negative q) v above,
        cross (magnitude (new (is_negative q) v tens)) tens v
            (denominator (new (is_negative q) v tens)) (denominator q) (magnitude q) pos
            (new_value (is_negative q) v tens pos) e,
      )

  to_string_begins : (k : ℕ) → begins_with_digit (to_string k) ≡ true
  to_string_begins k = digits_begin (to_string k) (to_string_filled k) (to_string_digits k)

  split_magnitude :
      (q : Rational)
      → magnitude q ≡ magnitude q / denominator q * denominator q + magnitude q % denominator q
  split_magnitude q = let pos = denominator_pos q in grind arith

  -- Both sides of the point.
  fraction_text-IsReread :
      (q : Rational) (t : Text)
      → length t < 2 ^ 32
      → all is_ascii_digit t ≡ true
      → magnitude q % denominator q * 10 ^ length t ≡ digits_value 0 t * denominator q
      → IsReread n q
          (sign_text (is_negative q) ++ (to_string (magnitude q / denominator q) ++ b'.' ∷ t))
  fraction_text-IsReread q t short digits value =
      let whole = magnitude q / denominator q in
      let v = digits_value 0 (to_string whole ++ t) in
      let tens = 10 ^ length t in
      let read =
        parse_fraction n (is_negative q) (to_string whole) t (to_string_begins whole)
          (to_string_digits whole) digits in
      let kept : length t % 2 ^ 32 ≡ length t = omega arith in
      let parts : v ≡ whole * tens + digits_value 0 t =
        digits_value-append 0 (to_string whole) t
        ∙ ap (λ x. digits_value x t) (to_string_value whole)
        ∙ digits_value-shift whole t in
      let (solid, filled) =
        written_solid (is_negative q) (to_string whole ++ b'.' ∷ t)
          (framed-solid (to_string whole) t (to_string_digits whole) digits)
          (begins-append (to_string whole) t (to_string_begins whole)) in
      record {
        number = new (is_negative q) v tens;
        read = read ∙ ap (λ k. some (new (is_negative q) v (10 ^ k))) kept;
        same = new-IsSameValue q v tens (one-le-pow (length t) 10 (omega arith)) (
            joined v (magnitude q) whole (magnitude q % denominator q) tens (digits_value 0 t)
              (denominator q) parts (split_magnitude q) value);
        solid = solid;
        filled = filled;
      }

  zero_sign : (q : Rational) → magnitude q ≡ 0 → is_negative q ≡ false
  zero_sign q h = elim (Bool-cases (is_negative q)) [
    | inl negative ↦ let above = magnitude_pos q negative in absurd (omega arith)
    | inr positive ↦ positive
  ]

  zero_read : parse_decimal_rational n (text "0") ≡ some (new false 0 1)
  unfolding text
  zero_read = parse_whole n false (b'0' ∷ []) refl refl

  zero-IsReread : (q : Rational) → magnitude q ≡ 0 → IsReread n q (text "0")
  unfolding text
  zero-IsReread q nothing =
      let positive = zero_sign q nothing in
      let (solid, filled) = written_solid false (b'0' ∷ []) (digits-solid (b'0' ∷ []) refl) refl in
      record {
        number = new (is_negative q) 0 1;
        read = zero_read ∙ ap (λ b. some (new b 0 1)) (sym positive);
        same = new-IsSameValue q 0 1 (omega arith) (omega arith);
        solid = solid;
        filled = filled;
      }

  whole-IsReread :
      (q : Rational)
      → magnitude q % denominator q ≡ 0
      → IsReread n q (sign_text (is_negative q) ++ to_string (magnitude q / denominator q))
  whole-IsReread q none_left =
      let whole = magnitude q / denominator q in
      let split = split_magnitude q in
      let (solid, filled) =
        written_solid (is_negative q) (to_string whole)
          (digits-solid (to_string whole) (to_string_digits whole)) (to_string_begins whole) in
      record {
        number = new (is_negative q) whole 1;
        read =
            parse_whole n (is_negative q) (to_string whole) (to_string_begins whole)
              (to_string_digits whole)
            ∙ ap (λ v. some (new (is_negative q) v 1)) (to_string_value whole);
        same = new-IsSameValue q whole 1 (omega arith) (omega arith);
        solid = solid;
        filled = filled;
      }

  whole_text-IsReread :
      (q : Rational)
      → magnitude q % denominator q ≡ 0
      → IsReread n q (whole_text n q (magnitude q / denominator q))
  whole_text-IsReread q none_left = by_test (magnitude q / denominator q == 0) refl
    where
      by_test :
          (b : Bool)
          → (magnitude q / denominator q == 0) ≡ b
          → IsReread n q (
              if b
              then text "0"
              else sign_text (is_negative q) ++ to_string (magnitude q / denominator q))
      by_test true nought =
          let split = split_magnitude q in
          let e0 : magnitude q / denominator q ≡ 0 = ground (arith, nought) in
          let e1 = ap (λ x. x * denominator q) e0 in
          zero-IsReread q (omega (arith, split, e1, none_left))
      by_test false other = whole-IsReread q none_left

  -- A fraction is not all zeros, so its sign is written.
  with_fraction-text :
      (q : Rational) (t : Text)
      → 0 < magnitude q % denominator q
      → magnitude q % denominator q * 10 ^ length t ≡ digits_value 0 t * denominator q
      → with_fraction n q (magnitude q / denominator q) t
        ≡ sign_text (is_negative q) ++ (to_string (magnitude q / denominator q) ++ b'.' ∷ t)
  with_fraction-text q t some_left value = elim (Bool-cases (all (λ c. c == b'0') t)) [
    | inl zeros ↦
        let nought = ap (λ x. x * denominator q) (all_zeros t zeros) in
        let above = mul-pos some_left (one-le-pow (length t) 10 (omega arith)) in
        absurd (omega (arith, value, nought, above))
    | inr digits ↦ ground (arith, digits)
  ]

  -- The text of the long division.
  print_fraction-IsReread :
      (q : Rational) (s t : Text)
      → length s < 2 ^ 32
      → 0 < magnitude q % denominator q
      → IsFraction (denominator q) (magnitude q % denominator q) [] t t
      → with_fraction n q (magnitude q / denominator q) (pop_zeros t) ≡ s
      → IsReread n q s
  print_fraction-IsReread q s t short some_left f written =
      let d = denominator q in
      let r = magnitude q % d in
      let kept =
        kept_fraction r d (digits_value 0 t) (digits_value 0 (pop_zeros t)) (length t)
          (length (pop_zeros t)) f.value (pop_zeros-value 0 t) in
      let form = sym written ∙ with_fraction-text q (pop_zeros t) some_left kept in
      let shorter : length (pop_zeros t) < 2 ^ 32 =
        let written_length = ap length form in
        let outer =
          length-append {0} (sign_text (is_negative q))
            (to_string (magnitude q / d) ++ b'.' ∷ pop_zeros t) in
        let inner = length-append {0} (to_string (magnitude q / d)) (b'.' ∷ pop_zeros t) in
        omega (arith, written_length, outer, inner, short) in
      subst (IsReread n q) (sym form)
        (fraction_text-IsReread q (pop_zeros t) shorter (pop_zeros-digits t f.digits) kept)

  by_fraction :
      (q : Rational) (s : Text) (o : Option Text)
      → long_division n (suc (denominator q)) (denominator q) (magnitude q % denominator q) [] ≡ o
      → length s < 2 ^ 32
      → 0 < magnitude q % denominator q
      → print_fraction n q (magnitude q / denominator q) o ≡ some s
      → IsReread n q s
  by_fraction q s none divided short some_left shown = absurd (cc shown)
  by_fraction q s (some t) divided short some_left shown =
      let pos = denominator_pos q in
      let (u, f) =
        long_division-IsFraction n (suc (denominator q)) (denominator q)
          (magnitude q % denominator q) [] t pos (grind arith) divided in
      print_fraction-IsReread q s t short some_left
        (record {
          whole = refl;
          digits = ap (all is_ascii_digit) f.whole ∙ f.digits;
          value =
              subst
                (λ x.
                  magnitude q % denominator q * 10 ^ length x ≡ digits_value 0 x * denominator q)
                (sym f.whole) f.value;
        })
        (ground (arith, shown))

  print_decimal-IsReread :
      (q : Rational) (s : Text) → print_decimal n q ≡ some s → length s < 2 ^ 32 → IsReread n q s
  unfolding print_decimal
  print_decimal-IsReread q s shown short =
      let d = denominator q in
      let r = magnitude q % d in
      let fraction = long_division n (suc d) d r [] in
      elim (Bool-cases (r == 0)) [
        | inl whole ↦
            let form : whole_text n q (magnitude q / d) ≡ s = ground (arith, shown, whole) in
            subst (IsReread n q) form (whole_text-IsReread q (ground (arith, whole)))
        | inr more ↦
            by_fraction q s fraction refl short (ground (arith, more)) (ground (arith, shown, more))
      ]

  shows :
      (q : Rational) (s : Text) (o : Option ℕ)
      → print_when n q o ≡ some (some s)
      → print_decimal n q ≡ some s
  shows q s none h = absurd (cc h)
  shows q s (some d) h = elim (Bool-cases (d == 1)) [
    | inl one ↦ shown (print_decimal n q) (ground (arith, h, one))
    | inr other ↦ absurd (ground (arith, h, other))
  ]
    where
      shown : (o : Option Text) → printed o ≡ some (some s) → o ≡ some s
      shown none e = absurd (cc e)
      shown (some t) e = ground (arith, e)

  pub rational_decimal_string-IsReread :
      (q : Rational) (s : Text)
      → rational_decimal_string n q ≡ some (some s)
      → length s < 2 ^ 32
      → IsReread n q s
  unfolding rational_decimal_string
  rational_decimal_string-IsReread q s h short =
      print_decimal-IsReread q s
        (shows q s
          (divide_out_after (suc (denominator q)) 5
            (divide_out (suc (denominator q)) 2 (denominator q)))
          h)
        short

  -- The text of a rational, of fewer than 2^32 characters, is accepted as a number, and the number read
  -- from it has the sign and the value of that rational.
  pub parse_decimal_rational-rational_decimal_string :
      (q : Rational) (s : Text)
      → rational_decimal_string n q ≡ some (some s)
      → length s < 2 ^ 32
      → (p : Rational) × (parse_decimal_rational n s ≡ some p) × IsSameValue n p q
  parse_decimal_rational-rational_decimal_string q s h short =
      let reread = rational_decimal_string-IsReread q s h short in
      (reread.number, reread.read, reread.same)
