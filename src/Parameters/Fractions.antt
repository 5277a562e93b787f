-- ===== src/Parameters/Fractions.antt =====
-- Fractions that are not reduced, with decimal digits: numbers for which the interface holds.
use native.Mathlib.Nat.{mul-pos}
use onshape_export.Base.{
  ℕ, zero, suc, ◌+◌, ◌-◌, ◌*◌, ◌/◌, ◌%◌, ◌<◌, ◌≡◌, refl, sym, ap, Text, is_ascii_digit, Bool, true,
  false, not, ◌&&◌, Option, none, some, [], ◌∷◌, ◌++◌, ltb, arith, all, all-append, is_empty,
  if◌then◌else◌, Bool-cases, inl, inr,
}
use onshape_export.Parameters.Numbers.{BigNumbers, digits_value}
use onshape_export.Parameters.Division.{digits_value-append}

-- The denominator is one more than `below`.
pub record Fraction : Type 0 where
  pub minus : Bool
  pub above : ℕ
  pub below : ℕ

unfoldable pub decimal : ℕ → ℕ → Text
decimal zero k = []
decimal (suc rounds) k =
    let front = decimal rounds (k / 10) in
    if ltb k 10 then (b'0' + k) ∷ [] else front ++ (b'0' + k % 10) ∷ []

pub decimal-digits : (rounds k : ℕ) → all is_ascii_digit (decimal rounds k) ≡ true
unfolding decimal
decimal-digits zero k = refl
decimal-digits (suc rounds) k = elim (Bool-cases (ltb k 10)) [
  | inl small ↦ ground (arith, small)
  | inr more ↦
      let parts = all-append is_ascii_digit (decimal rounds (k / 10)) ((b'0' + k % 10) ∷ []) in
      ground (arith, more, parts, decimal-digits rounds (k / 10))
]

pub decimal-value : (rounds k : ℕ) → k < rounds → digits_value 0 (decimal rounds k) ≡ k
unfolding decimal
decimal-value zero k h = absurd (omega arith)
decimal-value (suc rounds) k h = elim (Bool-cases (ltb k 10)) [
  | inl small ↦ ground (arith, small)
  | inr more ↦
      let front = decimal-value rounds (k / 10) (ground (arith, more, h)) in
      let parts = digits_value-append 0 (decimal rounds (k / 10)) ((b'0' + k % 10) ∷ []) in
      ground (arith, more, parts, front)
]

pub decimal_filled : (rounds k : ℕ) → is_empty (decimal (suc rounds) k) ≡ false
unfolding decimal
decimal_filled rounds k = elim (Bool-cases (ltb k 10)) [
  | inl small ↦ ground (arith, small)
  | inr more ↦ ground (arith, more, append_filled (decimal rounds (k / 10)) (b'0' + k % 10))
]
  where
    append_filled : (s : Text) (c : ℕ) → is_empty (s ++ c ∷ []) ≡ false
    append_filled [] c = refl
    append_filled (d ∷ s) c = refl

pub decimal_digit : (k : ℕ) → k < 10 → decimal (suc k) k ≡ (b'0' + k) ∷ []
unfolding decimal
decimal_digit k h = ground (arith, h)

abbrev pub is_minus : Fraction → Bool
is_minus q = q.minus && ltb 0 q.above

abbrev pub fraction : Bool → ℕ → ℕ → Fraction
fraction negative k d = record { minus = negative; above = k; below = d - 1 }

abbrev pub product : Fraction → Fraction → Fraction
product p q = record {
  minus = if is_minus q then not (is_minus p) else is_minus p;
  above = p.above * q.above;
  below = suc p.below * suc q.below - 1;
}

positive_product : (a b : ℕ) → 0 < a → ltb 0 (a * b) ≡ ltb 0 b
positive_product a zero h = ground arith
positive_product a (suc b) h =
    let pos = mul-pos {m = a} {n = suc b} h (omega arith) in ground (arith, pos)

pub product_sign :
    (p q : Fraction) → is_minus q ≡ false → is_minus (product p q) ≡ (is_minus p && ltb 0 q.above)
product_sign p q h = elim (Bool-cases (is_minus p)) [
  | inl minus ↦
      let above : 0 < p.above = ground (arith, minus) in
      ground (arith, h, minus, positive_product p.above q.above above)
  | inr plus ↦ ground (arith, h, plus)
]

pub product_below :
    (p q : Fraction) → suc (suc p.below * suc q.below - 1) ≡ suc p.below * suc q.below
product_below p q =
    let pos = mul-pos {m = suc p.below} {n = suc q.below} (omega arith) (omega arith) in omega arith

pub new_size : (d : ℕ) → 0 < d → suc (d - 1) ≡ d
new_size d h = omega arith

pub minus_above : (q : Fraction) → is_minus q ≡ true → 0 < q.above
minus_above q h = ground (arith, h)

pub new_below : (d : ℕ) → 0 < d → d ≡ 1 * suc (d - 1)
new_below d h = omega arith

pub product_divides :
    (p q : Fraction) → suc p.below * suc q.below ≡ 1 * suc (suc p.below * suc q.below - 1)
product_divides p q = let same = product_below p q in omega (arith, same)

abbrev pub parse_decimal : Text → Option ℕ
parse_decimal s = if not (is_empty s) && all is_ascii_digit s then some (digits_value 0 s) else none

pub parse_decimal-digits :
    (s : Text)
    → is_empty s ≡ false
    → all is_ascii_digit s ≡ true
    → parse_decimal s ≡ some (digits_value 0 s)
parse_decimal-digits s h k = ground (arith, h, k)

abbrev pub fractions : BigNumbers
fractions = record {
  Rational = Fraction;
  new = fraction;
  mul = product;
  is_negative = is_minus;
  magnitude = λ q. q.above;
  denominator = λ q. suc q.below;
  to_string = λ k. decimal (suc k) k;
  parse_bytes = parse_decimal;
  denominator_pos = λ q. omega arith;
  magnitude_pos = λ q h. minus_above q h;
  new_value = λ negative k d h. ap (λ x. k * x) (sym (new_size d h));
  new_sign = λ negative k d h. refl;
  new_denominator = λ negative k d h. (1, new_below d h);
  mul_value = λ p q. ap (λ x. p.above * q.above * x) (sym (product_below p q));
  mul_sign = product_sign;
  mul_denominator = λ p q. (1, product_divides p q);
  to_string_digits = λ k. decimal-digits (suc k) k;
  to_string_value = λ k. decimal-value (suc k) k (omega arith);
  to_string_filled = λ k. decimal_filled k k;
  to_string_digit = decimal_digit;
  parse_digits = parse_decimal-digits;
}
