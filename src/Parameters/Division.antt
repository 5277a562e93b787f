-- ===== src/Parameters/Division.antt =====
-- The long division of src/parameters.rs: its digits stand for the remainder, and it ends when the
-- denominator divides a power of ten.
use mathlib.Core.List.{append_assoc, append-nil}
use native.Mathlib.Nat.{add-zero, add-mul, div-lt_iff_lt-mul, mul-sub, pow-suc, mul_comm, mul_assoc}
use onshape_export.Base.{
  ℕ, zero, suc, ◌+◌, ◌-◌, ◌*◌, ◌/◌, ◌%◌, ◌^◌, ◌<◌, ◌≡◌, refl, sym, ap, ◌∙◌, Text, is_ascii_digit,
  Bool, true, false, ◌&&◌, some, [], ◌∷◌, ◌++◌, ◌==◌, arith, length, all, is_empty, if◌then◌else◌,
  Bool-cases, inl, inr,
}
use onshape_export.Parameters.Numbers.{BigNumbers, digits_value}
use onshape_export.Parameters.Decimals.{pop_zeros, long_division}

shifted : (acc x tens v : ℕ) → (acc * 10 + x) * tens + v ≡ acc * (tens * 10) + ((0 + x) * tens + v)
shifted acc x tens v = grind arith

-- Digits after digits: those before count as many tens.
pub digits_value-shift :
    (acc : ℕ) (s : Text) → digits_value acc s ≡ acc * 10 ^ length s + digits_value 0 s
digits_value-shift acc [] = omega arith
digits_value-shift acc (c ∷ s) =
    digits_value-shift (acc * 10 + (c - b'0')) s
    ∙ shifted acc (c - b'0') (10 ^ length s) (digits_value 0 s)
    ∙ ap (λ x. acc * x + ((0 + (c - b'0')) * 10 ^ length s + digits_value 0 s))
        (sym (pow-suc 10 (length s)))
    ∙ ap (λ x. acc * 10 ^ suc (length s) + x) (sym (digits_value-shift (0 + (c - b'0')) s))

pub digits_value-append :
    (acc : ℕ) (s t : Text) → digits_value acc (s ++ t) ≡ digits_value (digits_value acc s) t
digits_value-append acc [] t = refl
digits_value-append acc (c ∷ s) t = digits_value-append (acc * 10 + (c - b'0')) s t

-- Both sides times ten.
times_ten : (v w a b : ℕ) → v * 10 ^ a ≡ w * 10 ^ b → v * 10 ^ suc a ≡ w * 10 ^ suc b
times_ten v w a b h =
    ap (λ x. v * x) (pow-suc 10 a)
    ∙ sym (mul_assoc v (10 ^ a) 10)
    ∙ ap (λ x. x * 10) h
    ∙ mul_assoc w (10 ^ b) 10
    ∙ ap (λ x. w * x) (sym (pow-suc 10 b))

last_digit :
    (acc value c size : ℕ) (b : Bool)
    → (c == b'0') ≡ b
    → value * 10 ^ 0 ≡ (acc * 10 + (c - b'0')) * 10 ^ size
    → value * 10 ^ length (if b then [] else c ∷ [])
      ≡ digits_value acc (if b then [] else c ∷ []) * 10 ^ suc size
last_digit acc value c size true e h =
    let nought : c - b'0' ≡ 0 = ground (arith, e) in
    h
    ∙ ap (λ x. (acc * 10 + x) * 10 ^ size) nought
    ∙ ap (λ x. x * 10 ^ size) (add-zero (acc * 10))
    ∙ mul_assoc acc 10 (10 ^ size)
    ∙ ap (λ x. acc * x) (mul_comm 10 (10 ^ size) ∙ sym (pow-suc 10 size))
last_digit acc value c size false e h = times_ten value (acc * 10 + (c - b'0')) 0 size h

-- One digit more, of which `p` is kept of the digits after it.
kept_value :
    (acc value c size : ℕ) (p : Text)
    → value * 10 ^ length p ≡ digits_value (acc * 10 + (c - b'0')) p * 10 ^ size
    → value * 10 ^ length (if is_empty p && c == b'0' then [] else c ∷ p)
      ≡ digits_value acc (if is_empty p && c == b'0' then [] else c ∷ p) * 10 ^ suc size
kept_value acc value c size [] h = last_digit acc value c size (c == b'0') refl h
kept_value acc value c size (d ∷ p) h =
    times_ten value (digits_value (acc * 10 + (c - b'0')) (d ∷ p)) (length (d ∷ p)) size h

-- A fraction keeps its value without the zeros at its end.
pub pop_zeros-value :
    (acc : ℕ) (s : Text)
    → digits_value acc s * 10 ^ length (pop_zeros s)
      ≡ digits_value acc (pop_zeros s) * 10 ^ length s
pop_zeros-value acc [] = refl
pop_zeros-value acc (c ∷ s) =
    kept_value acc (digits_value (acc * 10 + (c - b'0')) s) c (length s) (pop_zeros s)
      (pop_zeros-value (acc * 10 + (c - b'0')) s)

pub pop_zeros-digits :
    (s : Text) → all is_ascii_digit s ≡ true → all is_ascii_digit (pop_zeros s) ≡ true
pop_zeros-digits [] h = refl
pop_zeros-digits (c ∷ s) h = ground (arith, pop_zeros-digits s)

distributed : (q d r p : ℕ) → q * p * d + r * p ≡ (q * d + r) * p
distributed q d r p = grind arith

sub_multiple : (rest y m d : ℕ) → y * d + rest ≡ m * d → rest ≡ (m - y) * d
sub_multiple rest y m d e =
    omega (arith, mul_comm m d, mul_comm y d, mul-sub d m y, mul_comm (m - y) d, e)

-- A number modulo another, multiplied: what is left of a multiple is a multiple.
rest_multiple : (x d p m : ℕ) → 0 < d → x * p ≡ m * d → x % d * p ≡ (m - x / d * p) * d
rest_multiple x d p m pos e =
    let split : x ≡ x / d * d + x % d = grind arith in
    let both : x / d * p * d + x % d * p ≡ m * d =
      distributed (x / d) d (x % d) p ∙ sym (ap (λ y. y * p) split) ∙ e in
    sub_multiple (x % d * p) (x / d * p) m d both

division_step :
    (d remainder k m : ℕ)
    → 0 < d
    → remainder * 10 ^ suc k ≡ m * d
    → remainder * 10 % d * 10 ^ k ≡ (m - remainder * 10 / d * 10 ^ k) * d
division_step d remainder k m pos e = rest_multiple (remainder * 10) d (10 ^ k) m pos (
    mul_assoc remainder 10 (10 ^ k)
    ∙ ap (λ x. remainder * x) (mul_comm 10 (10 ^ k) ∙ sym (pow-suc 10 k))
    ∙ e)

multiple_below : (remainder m d : ℕ) → remainder < d → remainder * 10 ^ 0 ≡ m * d → remainder ≡ 0
multiple_below remainder zero d small e = omega arith
multiple_below remainder (suc m) d small e = grind arith

-- One digit more in front.
digit_more :
    (d remainder q rest v tens : ℕ)
    → remainder * 10 ≡ q * d + rest
    → rest * tens ≡ v * d
    → remainder * (tens * 10) ≡ (q * tens + v) * d
digit_more d remainder q rest v tens e h =
    let turned : remainder * (tens * 10) ≡ remainder * 10 * tens = grind arith in
    turned
    ∙ ap (λ x. x * tens) e
    ∙ sym (distributed q d rest tens)
    ∙ ap (λ x. q * tens * d + x) h
    ∙ sym (add-mul (q * tens) v d)

-- The text goes on with the digits of the fraction `remainder / d`.
pub record IsFraction (d remainder : ℕ) (fractional t s : Text) : Type 0 where
  pub whole : s ≡ fractional ++ t
  pub digits : all is_ascii_digit t ≡ true
  pub value : remainder * 10 ^ length t ≡ digits_value 0 t * d

module _ (n : BigNumbers) where
  open n use {to_string, to_string_digit}

  pub long_division-ends :
      (rounds d remainder k m : ℕ) (fractional : Text)
      → k < rounds
      → 0 < d
      → remainder < d
      → remainder * 10 ^ k ≡ m * d
      → (t : Text) × (long_division n rounds d remainder fractional ≡ some t)
  unfolding long_division
  long_division-ends zero d remainder k m fractional fuel pos small e = absurd (omega arith)
  long_division-ends (suc rounds) d remainder zero m fractional fuel pos small e =
      let nought = multiple_below remainder m d small e in (fractional, ground (arith, nought))
  long_division-ends (suc rounds) d remainder (suc k) m fractional fuel pos small e =
      elim (Bool-cases (remainder == 0)) [
        | inl done ↦ (fractional, ground (arith, done))
        | inr more ↦
            let (t, ends) =
              long_division-ends rounds d (remainder * 10 % d) k (m - remainder * 10 / d * 10 ^ k)
                (fractional ++ to_string (remainder * 10 / d)) (omega arith) pos (grind arith)
                (division_step d remainder k m pos e) in
            (t, ground (arith, more, ends))
      ]

  pub long_division-IsFraction :
      (rounds d remainder : ℕ) (fractional s : Text)
      → 0 < d
      → remainder < d
      → long_division n rounds d remainder fractional ≡ some s
      → (t : Text) × IsFraction d remainder fractional t s
  unfolding long_division
  long_division-IsFraction zero d remainder fractional s pos small e = absurd (cc e)
  long_division-IsFraction (suc rounds) d remainder fractional s pos small e =
      elim (Bool-cases (remainder == 0)) [
        | inl done ↦ (
          [],
          record {
            whole = ground (arith, done, e) ∙ sym (append-nil fractional);
            digits = refl;
            value = grind (arith, done);
          },
        )
        | inr more ↦
            let q = remainder * 10 / d in
            let rest = remainder * 10 % d in
            let small_digit : q < 10 = (div-lt_iff_lt-mul pos).1 (omega arith) in
            let nought : 0 + (b'0' + q - b'0') ≡ q = omega arith in
            let digit = to_string_digit q small_digit in
            let (t, f) =
              long_division-IsFraction rounds d rest (fractional ++ to_string q) s pos (grind arith)
                (ground (arith, more, e)) in
            (
              (b'0' + q) ∷ t,
              record {
                whole =
                    f.whole
                    ∙ append_assoc fractional (to_string q) t
                    ∙ ap (λ x. fractional ++ (x ++ t)) digit;
                digits = ground (arith, small_digit, f.digits);
                value =
                    ap (λ x. remainder * x) (pow-suc 10 (length t))
                    ∙ digit_more d remainder q rest (digits_value 0 t) (10 ^ length t) (grind arith)
                        f.value
                    ∙ ap (λ x. x * d)
                        (sym (
                          digits_value-shift (0 + (b'0' + q - b'0')) t
                          ∙ ap (λ x. x * 10 ^ length t + digits_value 0 t) nought));
              },
            )
      ]
