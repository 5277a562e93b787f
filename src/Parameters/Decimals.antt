-- ===== src/Parameters/Decimals.antt =====
-- Decimal numbers, src/parameters.rs: how a text is read, and the text of a rational.
use onshape_export.Base.{
  ℕ, zero, suc, ◌*◌, ◌/◌, ◌%◌, ◌^◌, Text, text, trim, split, is_ascii_digit, Bool, true, false, not,
  ◌&&◌, ◌||◌, Option, none, some, List, [], ◌∷◌, ◌++◌, ◌==◌, length, all, is_empty, if◌then◌else◌,
}
use onshape_export.Parameters.Numbers.{BigNumbers}

-- `-`, `+`, or neither, at the front.
abbrev pub signed : Text → Bool × Text
signed [] = (false, [])
signed (c ∷ s) = if c == b'-' then (true, s) else if c == b'+' then (false, s) else (false, c ∷ s)

-- At most two pieces; the second is empty when there is none.
abbrev pub decimal_pieces : List Text → Option (Text × Text)
decimal_pieces [] = none
decimal_pieces (integer ∷ []) = some (integer, [])
decimal_pieces (integer ∷ fractional ∷ []) = some (integer, fractional)
decimal_pieces (integer ∷ fractional ∷ more ∷ pieces) = none

-- `while fractional.ends_with('0') { fractional.pop(); }`
abbrev pub pop_zeros : Text → Text
pop_zeros [] = []
pop_zeros (c ∷ s) = let rest = pop_zeros s in if is_empty rest && c == b'0' then [] else c ∷ rest

-- `while &denominator % factor == 0 { denominator /= factor }`, for so many rounds.
unfoldable pub divide_out : ℕ → ℕ → ℕ → Option ℕ
divide_out zero factor d = none
divide_out (suc rounds) factor d =
    let rest = divide_out rounds factor (d / factor) in if d % factor == 0 then rest else some d

abbrev pub divide_out_after : ℕ → ℕ → Option ℕ → Option ℕ
divide_out_after rounds factor none = none
divide_out_after rounds factor (some d) = divide_out rounds factor d

abbrev pub printed : Option Text → Option (Option Text)
printed none = none
printed (some s) = some (some s)

module _ (n : BigNumbers) where
  open n use {Rational, new, mul, is_negative, magnitude, denominator, to_string, parse_bytes}

  unfoldable pub parse_unsigned : Bool → Text → Text → Option Rational
  parse_unsigned negative integer fractional =
      if is_empty integer && is_empty fractional
        || not (all is_ascii_digit integer && all is_ascii_digit fractional)
      then none
      else elim (parse_bytes (integer ++ fractional)) [
        | none ↦ none
        -- `fractional.len() as u32`
        | some digits ↦ some (new negative digits (10 ^ (length fractional % 2 ^ 32)))
      ]

  abbrev pub parse_pieces : Bool → Option (Text × Text) → Option Rational
  parse_pieces negative none = none
  parse_pieces negative (some (integer, fractional)) = parse_unsigned negative integer fractional

  abbrev pub parse_after_sign : Bool × Text → Option Rational
  parse_after_sign (negative, unsigned) =
      if is_empty unsigned
      then none
      else parse_pieces negative (decimal_pieces (split b'.' unsigned))

  unfoldable pub parse_decimal_rational : Text → Option Rational
  parse_decimal_rational value = parse_after_sign (signed (trim value))

  -- `while !remainder.is_zero()`, for so many rounds.
  unfoldable pub long_division : ℕ → ℕ → ℕ → Text → Option Text
  long_division zero d remainder fractional = none
  long_division (suc rounds) d remainder fractional =
      let rest =
        long_division rounds d (remainder * 10 % d)
          (fractional ++ to_string (remainder * 10 / d)) in
      if remainder == 0 then some fractional else rest

  abbrev pub sign : Rational → Text
  sign q = if is_negative q then text "-" else []

  abbrev pub with_fraction : Rational → ℕ → Text → Text
  with_fraction q integer fractional =
      if integer == 0 && is_negative q && all (λ c. c == b'0') fractional
      then text "0"
      else sign q ++ (to_string integer ++ b'.' ∷ fractional)

  abbrev pub print_fraction : Rational → ℕ → Option Text → Option Text
  print_fraction q integer none = none
  print_fraction q integer (some fractional) = some (with_fraction q integer (pop_zeros fractional))

  abbrev pub whole_text : Rational → ℕ → Text
  whole_text q integer = if integer == 0 then text "0" else sign q ++ to_string integer

  unfoldable pub print_decimal : Rational → Option Text
  unfolding long_division
  print_decimal q =
      let d = denominator q in
      let integer = magnitude q / d in
      let remainder = magnitude q % d in
      let fraction = print_fraction q integer (long_division (suc d) d remainder []) in
      if remainder == 0 then some (whole_text q integer) else fraction

  abbrev pub print_when : Rational → Option ℕ → Option (Option Text)
  print_when q none = none
  print_when q (some d) = if d == 1 then printed (print_decimal q) else some none

  -- Nothing, when a loop has run out of its rounds.
  unfoldable pub rational_decimal_string : Rational → Option (Option Text)
  unfolding divide_out print_decimal
  rational_decimal_string q =
      let d = denominator q in print_when q (divide_out_after (suc d) 5 (divide_out (suc d) 2 d))
