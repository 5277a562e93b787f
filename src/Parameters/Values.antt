-- ===== src/Parameters/Values.antt =====
-- Lemmas on the values of digits and fractions.
use native.Mathlib.Nat.{mul_right_comm, eq_of_mul-eq-mul_right, one-le-pow}
use onshape_export.Base.{
  ℕ, zero, suc, ◌+◌, ◌-◌, ◌*◌, ◌^◌, ◌<◌, ◌≡◌, refl, ap, ◌∙◌, Text, is_ascii_digit, Bool, true,
  false, ◌&&◌, [], ◌∷◌, ◌==◌, ltb, arith, all, is_empty,
}
use onshape_export.Parameters.Numbers.{digits_value}
use onshape_export.Parameters.Reread.{begins_with_digit}

-- Fractions of equal value, through a third.
pub cross : (m tens v e d a : ℕ) → 0 < tens → m * tens ≡ v * e → v * d ≡ a * tens → m * d ≡ a * e
cross m tens v e d a pos h k = eq_of_mul-eq-mul_right tens pos (m * d) (a * e) (
    mul_right_comm m d tens
    ∙ ap (λ x. x * d) h
    ∙ mul_right_comm v e d
    ∙ ap (λ x. x * e) k
    ∙ mul_right_comm a tens e)

-- A whole part and a fraction, over a power of ten and over the denominator.
pub joined :
    (v a whole rest tens part d : ℕ)
    → v ≡ whole * tens + part
    → a ≡ whole * d + rest
    → rest * tens ≡ part * d
    → v * d ≡ a * tens
joined v a whole rest tens part d e f h =
    let left = ap (λ x. x * d) e in
    let right = ap (λ x. x * tens) f in grind (arith, left, right, h)

pub digits_begin :
    (s : Text) → is_empty s ≡ false → all is_ascii_digit s ≡ true → begins_with_digit s ≡ true
digits_begin [] h k = absurd (cc h)
digits_begin (c ∷ s) h k = ground (arith, k)

pub all_zeros : (s : Text) → all (λ c. c == b'0') s ≡ true → digits_value 0 s ≡ 0
all_zeros [] h = refl
all_zeros (c ∷ s) h =
    let nought : 0 + (c - b'0') ≡ 0 = ground (arith, h) in
    ap (λ x. digits_value x s) nought ∙ all_zeros s (ground (arith, h))

-- The kept digits are those of the same fraction.
pub kept_fraction :
    (r d v w size kept : ℕ)
    → r * 10 ^ size ≡ v * d
    → v * 10 ^ kept ≡ w * 10 ^ size
    → r * 10 ^ kept ≡ w * d
kept_fraction r d v w size kept e h =
    eq_of_mul-eq-mul_right (10 ^ size) (one-le-pow size 10 (omega arith)) (r * 10 ^ kept) (w * d) (
      mul_right_comm r (10 ^ kept) (10 ^ size)
      ∙ ap (λ x. x * 10 ^ kept) e
      ∙ mul_right_comm v d (10 ^ kept)
      ∙ ap (λ x. x * d) h
      ∙ mul_right_comm w (10 ^ size) d)

pub factor_pos : (v d a : ℕ) → v * d ≡ a → 0 < a → 0 < v
factor_pos zero d a e h = omega arith
factor_pos (suc v) d a e h = omega arith

pub kept_sign :
    (negative : Bool) (v : ℕ) → (negative ≡ true → 0 < v) → (negative && ltb 0 v) ≡ negative
kept_sign false v h = refl
kept_sign true v h = let above = h refl in ground arith
