-- ===== src/Protocol/Paths.antt =====
-- Relative paths of the protocol stay below their directory.
use onshape_export.Base.{
  ℕ, ◌≡◌, ◌≤◌, refl, ap, sym, ◌∙◌, Text, text, text_eq, text_eq_iff, bytes, utf8, len, split, true,
  false, not, ◌&&◌, arith, leb, length, is_empty, all, all-bytes, is_ascii, All, All-map, ok,
  ensure, ensure-eq-ok, for_each-ok_iff, >>-eq-ok, Bool-cases, inl, inr,
}
use onshape_export.Protocol.{
  is_segment, is_path_byte, invalid_path, too_many_segments, invalid_segment,
  validate_relative_path,
}

-- A name in a directory: not empty, not `.` or `..`, and of letters, digits, and `._-` alone.
pub record IsSafeSegment (s : Text) : Type 0 where
  pub some_name : is_empty s ≡ false
  pub not_here : text_eq s (text ".") ≡ false
  pub not_above : text_eq s (text "..") ≡ false
  pub plain : all is_path_byte s ≡ true

not_segment :
    (t : Text) → is_segment t ≡ false → (s : Text) → is_segment s ≡ true → text_eq s t ≡ false
not_segment t bad s good = elim (Bool-cases (text_eq s t)) [
  | inl same ↦ absurd (cc (sym good ∙ ap is_segment ((text_eq_iff s t).0 same) ∙ bad))
  | inr apart ↦ apart
]

high_is_no_path_byte : (b : ℕ) → 0x80 ≤ b → is_path_byte b ≡ false
high_is_no_path_byte b h = ground arith

dot_segment : is_segment (text ".") ≡ false
unfolding text bytes utf8
dot_segment = refl

dots_segment : is_segment (text "..") ≡ false
unfolding text bytes utf8
dots_segment = refl

pub is_segment-IsSafeSegment : (s : Text) → is_segment s ≡ true → IsSafeSegment s
is_segment-IsSafeSegment s h = record {
  some_name = ground (arith, h);
  not_here = not_segment (text ".") dot_segment s h;
  not_above = not_segment (text "..") dots_segment s h;
  plain = ground (arith, h, all-bytes is_path_byte s high_is_no_path_byte);
}

-- A path that passes is at most 1024 bytes long, and each of its at most 64 pieces between slashes is
-- a plain name: none is empty, `.`, or `..`, and none has a character other than ASCII letters,
-- digits, and `._-`.
pub validate_relative_path-IsSafeSegment :
    (path : Text)
    → validate_relative_path path ≡ ok tt
    → (len path ≤ 1024) × (length (split b'/' path) ≤ 64) × All IsSafeSegment (split b'/' path)
unfolding validate_relative_path
validate_relative_path-IsSafeSegment path h =
    let (first, h1) =
      >>-eq-ok
        (ensure (not (is_empty path) && (leb (len path) 1024 && all is_ascii path)) invalid_path) _
        h in
    let (few, each) =
      >>-eq-ok (ensure (leb (length (split b'/' path)) 64) too_many_segments) _ h1 in
    let short =
      ensure-eq-ok (not (is_empty path) && (leb (len path) 1024 && all is_ascii path)) invalid_path
        first in
    let small = ensure-eq-ok (leb (length (split b'/' path)) 64) too_many_segments few in
    (
      ground (arith, short),
      ground (arith, small),
      All-map (λ s. ensure (is_segment s) invalid_segment ≡ ok tt) IsSafeSegment (split b'/' path)
          (λ s e. is_segment-IsSafeSegment s (ensure-eq-ok (is_segment s) invalid_segment e))
          ((for_each-ok_iff (λ segment. ensure (is_segment segment) invalid_segment)
              (split b'/' path)).0
            each),
    )
