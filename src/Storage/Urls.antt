-- ===== src/Storage/Urls.antt =====
-- A segment of a public URL is the percent-encoding of its bytes, and decodes to them.
use onshape_export.Base.{
  ℕ, ◌+◌, ◌-◌, ◌*◌, ◌/◌, ◌%◌, ◌<◌, ◌≡◌, refl, ap, ◌∙◌, Text, bytes, utf8, true, false, ◌&&◌, Option,
  none, some, List, [], ◌∷◌, arith, ◌==◌, ltb, leb, All, All-append, if◌then◌else◌, Bool-cases, inl,
  inr,
}
use onshape_export.Storage.{is_unreserved, upper_hex_digit, encoded_bytes, url_path_segment}

-- The value of an upper-case hexadecimal digit.
abbrev pub hex_value : ℕ → Option ℕ
hex_value c =
    if leb b'0' c && leb c b'9'
    then some (c - b'0')
    else if leb b'A' c && leb c b'F'
    then some (c - b'A' + 10)
    else none

abbrev pub byte_of : Option ℕ → Option ℕ → Option ℕ
byte_of (some h) (some l) = some (16 * h + l)
byte_of _ _ = none

abbrev pub cons_some : Option ℕ → Option (List ℕ) → Option (List ℕ)
cons_some (some b) (some bs) = some (b ∷ bs)
cons_some _ _ = none

-- Percent-decoding, as RFC 3986 describes it: an octet is `%` and two digits, or an unreserved
-- character.
unfoldable pub percent_decode : Text → Option (List ℕ)
percent_decode [] = some []
percent_decode (c ∷ []) = if is_unreserved c then some (c ∷ []) else none
percent_decode (c ∷ h ∷ []) =
    if is_unreserved c then cons_some (some c) (percent_decode (h ∷ [])) else none
percent_decode (c ∷ h ∷ l ∷ s) =
    let escaped = cons_some (byte_of (hex_value h) (hex_value l)) (percent_decode s) in
    let plain = cons_some (some c) (percent_decode (h ∷ l ∷ s)) in
    if c == b'%' then escaped else if is_unreserved c then plain else none

hex_value-upper_hex_digit : (d : ℕ) → d < 16 → hex_value (upper_hex_digit d) ≡ some d
hex_value-upper_hex_digit d h = ground (arith, h)

unreserved_not_percent : (b : ℕ) → is_unreserved b ≡ true → (b == b'%') ≡ false
unreserved_not_percent b h = ground (arith, h)

percent_decode-plain :
    (b : ℕ) (s : Text)
    → is_unreserved b ≡ true
    → percent_decode (b ∷ s) ≡ cons_some (some b) (percent_decode s)
unfolding percent_decode
percent_decode-plain b [] h = rw h refl
percent_decode-plain b (c ∷ []) h = rw h refl
percent_decode-plain b (c ∷ d ∷ s) h = rw (unreserved_not_percent b h, h) refl

percent_decode-escaped :
    (b : ℕ) (s : Text)
    → b < 256
    → percent_decode (b'%' ∷ upper_hex_digit (b / 16) ∷ upper_hex_digit (b % 16) ∷ s)
      ≡ cons_some (some b) (percent_decode s)
unfolding percent_decode
percent_decode-escaped b s h =
    let byte : byte_of (hex_value (upper_hex_digit (b / 16))) (hex_value (upper_hex_digit (b % 16)))
        ≡ some b =
      rw
        (
          hex_value-upper_hex_digit (b / 16) (omega (arith, h)),
          hex_value-upper_hex_digit (b % 16) (omega (arith, h)),
        )
        (ap some (omega arith)) in
    ap (λ o. cons_some o (percent_decode s)) byte

percent_decode-encoded_bytes :
    (bs : List ℕ) → All (λ b. b < 256) bs → percent_decode (encoded_bytes bs) ≡ some bs
unfolding encoded_bytes
percent_decode-encoded_bytes [] h = unfold percent_decode in refl
percent_decode-encoded_bytes (b ∷ bs) (small, h) = elim (Bool-cases (is_unreserved b)) [
  | inl plain ↦ rw plain (
      percent_decode-plain b (encoded_bytes bs) plain
      ∙ ap (cons_some (some b)) (percent_decode-encoded_bytes bs h))
  | inr other ↦ rw other (
      percent_decode-escaped b (encoded_bytes bs) small
      ∙ ap (cons_some (some b)) (percent_decode-encoded_bytes bs h))
]

utf8-small : (c : ℕ) → c < 0x110000 → All (λ b. b < 256) (utf8 c)
unfolding utf8
utf8-small c h = elim (Bool-cases (ltb c 0x80)) [
  | inl a ↦ rw a (ground (arith, a), tt)
  | inr a ↦ elim (Bool-cases (ltb c 0x800)) [
    | inl b ↦ rw (a, b) (ground (arith, b), (omega arith, tt))
    | inr b ↦ elim (Bool-cases (ltb c 0x10000)) [
      | inl d ↦ rw (a, b, d) (ground (arith, d), (omega arith, (omega arith, tt)))
      | inr d ↦ rw (a, b, d) (omega (arith, h), (omega arith, (omega arith, (omega arith, tt))))
    ]
  ]
]

bytes-small : (s : Text) → All (λ c. c < 0x110000) s → All (λ b. b < 256) (bytes s)
unfolding bytes
bytes-small [] h = tt
bytes-small (c ∷ s) (small, h) =
    All-append (λ b. b < 256) (utf8 c) (bytes s) (utf8-small c small) (bytes-small s h)

-- For a text of code points up to U+10FFFF, percent-decoding its URL segment yields the bytes of its
-- UTF-8 encoding.
pub percent_decode-url_path_segment :
    (value : Text)
    → All (λ c. c < 0x110000) value
    → percent_decode (url_path_segment value) ≡ some (bytes value)
unfolding url_path_segment
percent_decode-url_path_segment value h =
    percent_decode-encoded_bytes (bytes value) (bytes-small value h)
