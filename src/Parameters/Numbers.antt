-- ===== src/Parameters/Numbers.antt =====
-- What src/parameters.rs uses of the crates num-bigint and num-rational, as an interface. A `BigInt` that
-- is not negative is a natural number; another is its sign and its magnitude.
use onshape_export.Base.{
  ℕ, ◌+◌, ◌-◌, ◌*◌, ◌<◌, ◌≡◌, Text, is_ascii_digit, Bool, true, false, ◌&&◌, Option, some, [], ◌∷◌,
  ltb, all, is_empty,
}

-- The number that decimal digits stand for, after those that stand for `acc`.
abbrev pub digits_value : ℕ → Text → ℕ
digits_value acc [] = acc
digits_value acc (c ∷ s) = digits_value (acc * 10 + (c - b'0')) s

-- `BigRational::new` divides its numerator and denominator by a common factor. Of that, the code relies
-- on the equality of values, and on the denominator being a divisor of the given one.
pub record BigNumbers : Type 1 where
  pub Rational : Type 0
  pub new : Bool → ℕ → ℕ → Rational
  pub mul : Rational → Rational → Rational
  pub is_negative : Rational → Bool
  pub magnitude : Rational → ℕ
  pub denominator : Rational → ℕ
  pub to_string : ℕ → Text
  pub parse_bytes : Text → Option ℕ
  pub denominator_pos : (q : Rational) → 0 < denominator q
  pub magnitude_pos : (q : Rational) → is_negative q ≡ true → 0 < magnitude q
  pub new_value :
      (negative : Bool) (n d : ℕ)
      → 0 < d
      → magnitude (new negative n d) * d ≡ n * denominator (new negative n d)
  pub new_sign :
      (negative : Bool) (n d : ℕ) → 0 < d → is_negative (new negative n d) ≡ (negative && ltb 0 n)
  pub new_denominator :
      (negative : Bool) (n d : ℕ) → 0 < d → (k : ℕ) × (d ≡ k * denominator (new negative n d))
  pub mul_value :
      (p q : Rational)
      → magnitude (mul p q) * (denominator p * denominator q)
        ≡ magnitude p * magnitude q * denominator (mul p q)
  pub mul_sign :
      (p q : Rational)
      → is_negative q ≡ false
      → is_negative (mul p q) ≡ (is_negative p && ltb 0 (magnitude q))
  pub mul_denominator :
      (p q : Rational) → (k : ℕ) × (denominator p * denominator q ≡ k * denominator (mul p q))
  pub to_string_digits : (n : ℕ) → all is_ascii_digit (to_string n) ≡ true
  pub to_string_value : (n : ℕ) → digits_value 0 (to_string n) ≡ n
  pub to_string_filled : (n : ℕ) → is_empty (to_string n) ≡ false
  pub to_string_digit : (n : ℕ) → n < 10 → to_string n ≡ (b'0' + n) ∷ []
  pub parse_digits :
      (s : Text)
      → is_empty s ≡ false
      → all is_ascii_digit s ≡ true
      → parse_bytes s ≡ some (digits_value 0 s)

-- The equality of rationals.
abbrev pub IsSameValue : (n : BigNumbers) → n.Rational → n.Rational → Type 0
IsSameValue n p q =
    (n.is_negative p ≡ n.is_negative q)
    × (n.magnitude p * n.denominator q ≡ n.magnitude q * n.denominator p)
