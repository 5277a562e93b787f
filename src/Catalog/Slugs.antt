-- ===== src/Catalog/Slugs.antt =====
-- `is_path_slug` of src/catalog.rs: lowercase words of letters and digits, joined by single hyphens.
use onshape_export.Base.{
  ℕ, ◌≤◌, ◌≡◌, refl, Text, bytes, Bool, false, not, ◌&&◌, ◌||◌, List, [], ◌∷◌, ◌++◌, arith, ◌==◌,
  all, all-bytes, is_empty, starts_with, ends_with, contains, split, split_first, is_ascii_digit,
  is_ascii_lowercase,
}
use mathlib.Core.List.{reverse-cons}

abbrev pub is_slug_byte : ℕ → Bool
is_slug_byte b = is_ascii_lowercase b || is_ascii_digit b || b == b'-'

unfoldable pub is_path_slug : Text → Bool
is_path_slug value =
    not (is_empty value)
    && all is_slug_byte (bytes value)
    && not (starts_with value (b'-' ∷ []))
    && not (ends_with value (b'-' ∷ []))
    && not (contains value (b'-' ∷ b'-' ∷ []))

-- A word of a slug: at least one character, all of them letters or digits.
abbrev pub is_word_char : ℕ → Bool
is_word_char c = is_ascii_lowercase c || is_ascii_digit c

abbrev pub is_word : Text → Bool
is_word w = not (is_empty w) && all is_word_char w

abbrev starts_hyphen : Text → Bool
starts_hyphen s = starts_with s (b'-' ∷ [])

ends_hyphen : Text → Bool
ends_hyphen [] = false
ends_hyphen (c ∷ []) = c == b'-'
ends_hyphen (c ∷ d ∷ s) = ends_hyphen (d ∷ s)

starts_of_snoc :
    (d : ℕ) (xs : Text) (c : ℕ)
    → starts_with ((xs ++ d ∷ []) ++ c ∷ []) (b'-' ∷ []) ≡ starts_with (xs ++ d ∷ []) (b'-' ∷ [])
unfolding starts_with
starts_of_snoc d [] c = refl
starts_of_snoc d (x ∷ xs) c = refl

ends_with_hyphen : (s : Text) → ends_with s (b'-' ∷ []) ≡ ends_hyphen s
unfolding ends_with ends_hyphen
ends_with_hyphen [] = refl
ends_with_hyphen (c ∷ []) = ground arith
ends_with_hyphen (c ∷ d ∷ s) =
    let ih = ends_with_hyphen (d ∷ s) in
    rw (reverse-cons, reverse-cons, starts_of_snoc, ← reverse-cons) ih

-- The split, seen from the first piece.
abbrev in_word : Text × List Text → Bool
in_word (piece, rest) = all is_word_char piece && all is_word rest

scan :
    (s : Text)
    → in_word (split_first b'-' s)
      ≡ (all is_slug_byte s && (not (ends_hyphen s) && not (contains s (b'-' ∷ b'-' ∷ []))))
unfolding split_first ends_hyphen contains starts_with
scan [] = refl
scan (c ∷ []) = ground (arith, scan [])
scan (c ∷ d ∷ s) = ground (arith, scan (d ∷ s))

high_is_no_slug_byte : (b : ℕ) → 0x80 ≤ b → is_slug_byte b ≡ false
high_is_no_slug_byte b h = ground arith

split_is_words :
    (s : Text)
    → all is_word (split b'-' s)
      ≡ (not (is_empty s) && (not (starts_hyphen s) && in_word (split_first b'-' s)))
unfolding split split_first starts_with
split_is_words [] = refl
split_is_words (c ∷ s) = ground arith

-- A path slug is one or more words of lowercase letters and digits, joined by single hyphens: the
-- code's five conditions hold exactly when each piece between hyphens is such a word.
pub is_path_slug-eq-words : (s : Text) → is_path_slug s ≡ all is_word (split b'-' s)
unfolding is_path_slug
is_path_slug-eq-words s = ground (
  arith,
  split_is_words s,
  scan s,
  ends_with_hyphen s,
  all-bytes is_slug_byte s high_is_no_slug_byte,
)
