-- ===== src/Parameters/Factors.antt =====
-- The loops that divide a factor out of a denominator: they end, and leave 1 exactly when the denominator
-- divides a power of ten.
use mathlib.Core.Path.{subst}
use native.Mathlib.Nat.{
  mul-pos, mul_comm, pow-zero, pow-suc, mul_right_comm, eq_of_mul-eq-mul_right,
}
use onshape_export.Base.{
  ℕ, zero, suc, ◌+◌, ◌*◌, ◌/◌, ◌%◌, ◌^◌, ◌≤◌, ◌<◌, ◌≡◌, ◌≢◌, refl, sym, ap, ◌∙◌, some, ◌==◌, arith,
  ◌⊎◌, Bool-cases, inl, inr,
}
use onshape_export.Parameters.Decimals.{divide_out}

-- What the loop leaves of `d`: `d` is that times a power of the factor, and the factor is out.
pub record IsDivided (factor d : ℕ) : Type 0 where
  pub left : ℕ
  pub power : ℕ
  pub product : d ≡ factor ^ power * left
  pub out : left % factor ≢ 0

quotient-lt : (factor d : ℕ) → 1 < factor → 0 < d → d / factor < d
quotient-lt factor d h k = grind arith

quotient_pos : (factor d : ℕ) → 1 < factor → 0 < d → d % factor ≡ 0 → 0 < d / factor
quotient_pos factor d h k e = grind arith

power_product : (factor power d : ℕ) → factor ^ power * d * factor ≡ factor ^ suc power * d
power_product factor power d =
    mul_right_comm (factor ^ power) d factor ∙ ap (λ x. x * d) (sym (pow-suc factor power))

whole_product :
    (factor d power left : ℕ)
    → 1 < factor
    → d % factor ≡ 0
    → d / factor ≡ factor ^ power * left
    → d ≡ factor ^ suc power * left
whole_product factor d power left h whole e =
    let split : d ≡ d / factor * factor = grind arith in
    split ∙ ap (λ x. x * factor) e ∙ power_product factor power left

pub divide_out-IsDivided :
    (rounds factor d : ℕ)
    → 1 < factor
    → 0 < d
    → d < rounds
    → (x : IsDivided factor d) × (divide_out rounds factor d ≡ some x.left)
unfolding divide_out
divide_out-IsDivided zero factor d h pos fuel = absurd (omega arith)
divide_out-IsDivided (suc rounds) factor d h pos fuel = elim (Bool-cases (d % factor == 0)) [
  | inl whole ↦
      let smaller = quotient-lt factor d h pos in
      let divides : d % factor ≡ 0 = ground (arith, whole) in
      let (x, e) =
        divide_out-IsDivided rounds factor (d / factor) h (quotient_pos factor d h pos divides)
          (omega arith) in
      (
        record {
          left = x.left;
          power = suc x.power;
          product = whole_product factor d x.power x.left h divides x.product;
          out = x.out;
        },
        ground (arith, whole, e),
      )
  | inr rest ↦ (
    record {
      left = d;
      power = 0;
      product = grind (arith, pow-zero factor);
      out = λ e. ground (arith, rest, e);
    },
    ground (arith, rest),
  )
]

-- The number divides a power of ten.
abbrev pub DividesTenPower : ℕ → Type 0
DividesTenPower d = (k : ℕ) × (m : ℕ) × (10 ^ k ≡ m * d)

-- The power need not be above the number.
abbrev pub DividesSmallPower : ℕ → Type 0
DividesSmallPower d = (k : ℕ) × (m : ℕ) × (10 ^ k ≡ m * d) × (k ≤ d)

times_factor :
    (factor other d : ℕ)
    → other * factor ≡ 10
    → 1 < factor
    → 0 < d
    → DividesSmallPower d
    → DividesSmallPower (d * factor)
times_factor factor other d ten h pos (k, m, e, small) = (
  suc k,
  m * other,
  pow-suc 10 k ∙ ap (λ x. x * 10) e ∙ ap (λ x. m * d * x) (sym ten) ∙ grind arith,
  grind arith,
)

times_power :
    (factor other power d : ℕ)
    → other * factor ≡ 10
    → 1 < factor
    → 0 < d
    → DividesSmallPower d
    → DividesSmallPower (factor ^ power * d) × (0 < factor ^ power * d)
times_power factor other zero d ten h pos x =
    let same : d ≡ factor ^ 0 * d = grind (arith, pow-zero factor) in
    (subst DividesSmallPower same x, subst (λ y. 0 < y) same pos)
times_power factor other (suc power) d ten h pos x =
    let (divides, above) = times_power factor other power d ten h pos x in
    let same = power_product factor power d in
    (
      subst DividesSmallPower same
          (times_factor factor other (factor ^ power * d) ten h above divides),
      subst (λ y. 0 < y) same (mul-pos above (omega arith)),
    )

product_split : (n q r b : ℕ) → (n * q + r) * b ≡ n * (q * b) + r * b
product_split n q r b = grind arith

-- Euclid's lemma at 2 and 5.
two_divides : (a b : ℕ) → a % 2 ≢ 0 → a * b % 2 ≡ 0 → b % 2 ≡ 0
two_divides a b h e =
    let split : a ≡ 2 * (a / 2) + 1 = omega arith in
    let product = ap (λ x. x * b) split ∙ product_split 2 (a / 2) 1 b in omega arith

five_divides : (a b : ℕ) → a % 5 ≢ 0 → a * b % 5 ≡ 0 → b % 5 ≡ 0
five_divides a b h e =
    let product = λ (r : ℕ) (split : a ≡ 5 * (a / 5) + r).
      ap (λ x. x * b) split ∙ product_split 5 (a / 5) r b in
    by_rest (a / 5 * b) (omega arith) product
  where
    by_rest :
        (x : ℕ)
        → (a % 5 ≡ 1) ⊎ (a % 5 ≡ 2) ⊎ (a % 5 ≡ 3) ⊎ (a % 5 ≡ 4)
        → ((r : ℕ) → a ≡ 5 * (a / 5) + r → a * b ≡ 5 * x + r * b)
        → b % 5 ≡ 0
    by_rest x (inl one) product = let p = product 1 (omega arith) in omega arith
    by_rest x (inr (inl two)) product = let p = product 2 (omega arith) in omega arith
    by_rest x (inr (inr (inl three))) product = let p = product 3 (omega arith) in omega arith
    by_rest x (inr (inr (inr four))) product = let p = product 4 (omega arith) in omega arith

-- A divisor of a power of ten without a factor 2 or 5 is 1.
one_left : (k m d : ℕ) → d % 2 ≢ 0 → d % 5 ≢ 0 → 10 ^ k ≡ m * d → d ≡ 1
one_left zero m d odd apart e = grind arith
one_left (suc k) m d odd apart e =
    let tens : d * m ≡ 10 ^ k * 10 = mul_comm d m ∙ sym e ∙ pow-suc 10 k in
    let even = two_divides d m odd (omega arith) in
    let fifth = five_divides d m apart (omega arith) in
    let tenth : m ≡ m / 10 * 10 = omega arith in
    one_left k (m / 10) d odd apart (
      eq_of_mul-eq-mul_right 10 (omega arith) (10 ^ k) (m / 10 * d)
        (sym tens ∙ ap (λ x. d * x) tenth ∙ grind arith))

even_times : (a b : ℕ) → b % 2 ≡ 0 → a * b % 2 ≡ 0
even_times a b h =
    let split : b ≡ 2 * (b / 2) + 0 = omega arith in
    let product = ap (λ x. x * a) split ∙ product_split 2 (b / 2) 0 a in
    let turned = mul_comm a b in omega arith

-- What is left after both loops.
module _ (d : ℕ) (x : IsDivided 2 d) (y : IsDivided 5 x.left) (pos : 0 < d) where
  pub left_one-DividesSmallPower : y.left ≡ 1 → DividesSmallPower d
  left_one-DividesSmallPower e =
      let (fives, above) =
        times_power 5 2 y.power 1 refl (omega arith) (omega arith) (0, 1, refl, omega arith) in
      let same : 5 ^ y.power * 1 ≡ x.left = ap (λ z. 5 ^ y.power * z) (sym e) ∙ sym y.product in
      let (twos, _) =
        times_power 2 5 x.power x.left refl (omega arith) (subst (λ z. 0 < z) same above)
          (subst DividesSmallPower same fives) in
      subst DividesSmallPower (sym x.product) twos

  pub DividesTenPower-left_one : DividesTenPower d → y.left ≡ 1
  DividesTenPower-left_one (k, m, e) =
      one_left k (m * (2 ^ x.power * 5 ^ y.power)) y.left
        (λ even. x.out (ap (λ z. z % 2) y.product ∙ even_times (5 ^ y.power) y.left even)) y.out
        (e ∙ ap (λ z. m * z) (x.product ∙ ap (λ z. 2 ^ x.power * z) y.product) ∙ grind arith)
