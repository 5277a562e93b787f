-- ===== src/Parameters/Trimmed.antt =====
-- Texts without white space, which `trim` leaves alone.
use mathlib.Core.List.{reverse-cons, reverse-append, reverse-reverse}
use onshape_export.Base.{
  ℕ, ◌≡◌, refl, sym, ap, ◌∙◌, Text, trim, trim_start, trim_end, is_whitespace, is_ascii_digit, Bool,
  true, false, not, [], ◌∷◌, ◌++◌, arith, all, all-append, reverse,
}

abbrev pub is_solid : Text → Bool
is_solid s = all (λ c. not (is_whitespace c)) s

pub trim_start-solid : (s : Text) → is_solid s ≡ true → trim_start s ≡ s
unfolding trim_start
trim_start-solid [] h = refl
trim_start-solid (c ∷ s) h = ground arith

pub all-reverse : (p : ℕ → Bool) (s : Text) → all p s ≡ true → all p (reverse s) ≡ true
all-reverse p [] h = refl
all-reverse p (c ∷ s) h =
    rw (reverse-cons c s) (all-append p (reverse s) (c ∷ []) ∙ ground (arith, all-reverse p s, h))

pub trim-solid : (s : Text) → is_solid s ≡ true → trim s ≡ s
unfolding trim trim_end
trim-solid s h =
    ap trim_end (trim_start-solid s h)
    ∙ ap reverse (trim_start-solid (reverse s) (all-reverse _ s h))
    ∙ reverse-reverse s

pub digits-solid : (s : Text) → all is_ascii_digit s ≡ true → is_solid s ≡ true
unfolding is_whitespace
digits-solid [] h = refl
digits-solid (c ∷ s) h = ground (arith, digits-solid s)

pub trim_start-front : (c : ℕ) (s : Text) → is_whitespace c ≡ false → trim_start (c ∷ s) ≡ c ∷ s
unfolding trim_start
trim_start-front c s h = ground arith

pub trim_end-back :
    (s : Text) (c : ℕ) → is_whitespace c ≡ false → trim_end (s ++ c ∷ []) ≡ s ++ c ∷ []
unfolding trim_end
trim_end-back s c h =
    let turned = reverse-append s (c ∷ []) in
    ap (λ x. reverse (trim_start x)) turned
    ∙ ap reverse (trim_start-front c (reverse s) h ∙ sym turned)
    ∙ reverse-reverse (s ++ c ∷ [])

-- A text that begins and ends with a character that is no white space.
pub trim-framed :
    (a b : ℕ) (s : Text)
    → is_whitespace a ≡ false
    → is_whitespace b ≡ false
    → trim (a ∷ s ++ b ∷ []) ≡ a ∷ s ++ b ∷ []
unfolding trim
trim-framed a b s h k = ap trim_end (trim_start-front a (s ++ b ∷ []) h) ∙ trim_end-back (a ∷ s) b k
