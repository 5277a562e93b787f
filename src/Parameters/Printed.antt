-- ===== src/Parameters/Printed.antt =====
-- The decimal text of a rational, src/parameters.rs: the loops end, with a text exactly when there is one.
use native.Mathlib.Nat.{mul_assoc, one-le-pow}
use onshape_export.Base.{
  ℕ, suc, ◌*◌, ◌/◌, ◌%◌, ◌≤◌, ◌<◌, ◌≡◌, ◌↔◌, refl, sym, ap, ◌∙◌, Text, Bool, Option, none, some, [],
  ◌==◌, arith, if◌then◌else◌, Bool-cases, inl, inr,
}
use onshape_export.Parameters.Numbers.{BigNumbers}
use onshape_export.Parameters.Decimals.{
  long_division, print_decimal, rational_decimal_string, print_fraction, whole_text, with_fraction,
  pop_zeros, printed, print_when, divide_out_after,
}
use onshape_export.Parameters.Factors.{
  IsDivided, divide_out-IsDivided, DividesTenPower, DividesSmallPower, left_one-DividesSmallPower,
  DividesTenPower-left_one,
}
use onshape_export.Parameters.Division.{long_division-ends}

left_pos : (factor d : ℕ) → 1 < factor → (x : IsDivided factor d) → 0 < x.left
left_pos factor d h x = ground (arith, x.out)

left_le : (factor d : ℕ) → 1 < factor → (x : IsDivided factor d) → x.left ≤ d
left_le factor d h x =
    let many = one-le-pow x.power factor (omega arith) in grind (arith, x.product, many)

module _ (n : BigNumbers) where
  open n use {Rational, denominator, denominator_pos, magnitude}

  abbrev choice : Rational → Option Text → Bool → Option Text
  choice q fraction whole =
      if whole
      then some (whole_text n q (magnitude q / denominator q))
      else print_fraction n q (magnitude q / denominator q) fraction

  print_decimal-ends :
      (q : Rational) → DividesSmallPower (denominator q) → (s : Text) × (print_decimal n q ≡ some s)
  unfolding print_decimal
  print_decimal-ends q (k, m, e, small) = elim (Bool-cases (magnitude q % denominator q == 0)) [
    | inl whole ↦ (
      whole_text n q (magnitude q / denominator q),
      ap
          (choice q (
            long_division n (suc (denominator q)) (denominator q) (magnitude q % denominator q) []))
          whole,
    )
    | inr rest ↦
        let d = denominator q in
        let pos = denominator_pos q in
        let r = magnitude q % d in
        let (t, ends) =
          long_division-ends n (suc d) d r k (r * m) [] (omega arith) pos (grind arith)
            (ap (λ x. r * x) e ∙ sym (mul_assoc r m d)) in
        (
          with_fraction n q (magnitude q / d) (pop_zeros t),
          ap (choice q (long_division n (suc d) d r [])) rest
              ∙ ap (print_fraction n q (magnitude q / d)) ends,
        )
  ]

  -- The loops end by themselves. The result is a text exactly when the denominator divides a power of
  -- ten, as it then has a finite decimal fraction.
  pub rational_decimal_string-ends :
      (q : Rational)
      → (o : Option Text) × (rational_decimal_string n q ≡ some o)
        × (((s : Text) × (o ≡ some s)) ↔ DividesTenPower (denominator q))
  unfolding rational_decimal_string
  rational_decimal_string-ends q =
      let d = denominator q in
      let pos = denominator_pos q in
      let (x, twos) = divide_out-IsDivided (suc d) 2 d (omega arith) pos (omega arith) in
      let (y, fives) =
        divide_out-IsDivided (suc d) 5 x.left (omega arith) (left_pos 2 d (omega arith) x)
          (omega (arith, left_le 2 d (omega arith) x)) in
      let loops : rational_decimal_string n q ≡ print_when n q (some y.left) =
        ap (λ o. print_when n q (divide_out_after (suc d) 5 o)) twos ∙ ap (print_when n q) fives in
      elim (Bool-cases (y.left == 1)) [
        | inl one ↦
            let left : y.left ≡ 1 = ground (arith, one) in
            let divides = left_one-DividesSmallPower d x y pos left in
            let (s, ends) = print_decimal-ends q divides in
            (
              some s,
              loops
                  ∙ ap (λ b. if b then printed (print_decimal n q) else some none) one
                  ∙ ap printed ends,
              (λ h. (divides.0, divides.1, divides.2), λ h. (s, refl)),
            )
        | inr other ↦ (
          none,
          loops ∙ ap (λ b. if b then printed (print_decimal n q) else some none) other,
          (
            λ (s, h). absurd (cc h),
            λ h.
                let left = DividesTenPower-left_one d x y pos h in
                absurd (ground (arith, other, left)),
          ),
        )
      ]
