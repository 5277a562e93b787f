-- ===== src/Assets/Names.antt =====
-- Which names a ZIP archive may give its assets.
use onshape_export.Base.{
  join-split, ◌≡◌, ◌↔◌, refl, sym, ap, ◌∙◌, Text, text, text_eq, split, split_first, starts_with,
  is_control, false, not, ◌&&◌, [], ◌∷◌, arith, ◌==◌, any, is_empty, All, All-map, ok, ensure,
  ensure-eq-ok, for_each, for_each-ok_iff, >>-eq-ok,
}
use onshape_export.Assets.{
  has_backslash, is_absolute, has_no_parts, is_unsafe, has_control, check_part, safe_zip_asset_name,
}

pub record IsSafePart (part : Text) : Type 0 where
  pub some_name : is_empty part ≡ false
  pub not_here : text_eq part (text ".") ≡ false
  pub not_above : text_eq part (text "..") ≡ false
  pub printable : any is_control part ≡ false

check_part_iff : (part : Text) → (check_part part ≡ ok tt) ↔ IsSafePart part
unfolding check_part
check_part_iff part = (
  λ h.
      let (first, second) =
        >>-eq-ok
          (ensure
            (not (is_empty part)
              && (not (text_eq part (text ".")) && not (text_eq part (text ".."))))
            is_unsafe)
          _ h in
      let named =
        ensure-eq-ok
          (not (is_empty part) && (not (text_eq part (text ".")) && not (text_eq part (text ".."))))
          is_unsafe first in
      let plain = ensure-eq-ok (not (any is_control part)) has_control second in
      record {
        some_name = ground (arith, named);
        not_here = ground (arith, named);
        not_above = ground (arith, named);
        printable = ground (arith, plain);
      },
  λ h. ground (arith, h.some_name, h.not_here, h.not_above, h.printable),
)

-- An absolute name has an empty first piece.
relative : (name : Text) → All IsSafePart (split b'/' name) → starts_with name (text "/") ≡ false
unfolding split split_first starts_with text
relative [] h = refl
relative (c ∷ s) h = ground (arith, h.0.some_name)

-- A name is accepted exactly when it has no backslash and each of its pieces between slashes is not
-- empty, not `.` or `..`, and without control characters; it is then handed on as it is.
pub safe_zip_asset_name_iff :
    (name out : Text)
    → (safe_zip_asset_name name ≡ ok out)
      ↔ ((any (λ c. c == 0x5C) name ≡ false) × All IsSafePart (split b'/' name) × (name ≡ out))
unfolding safe_zip_asset_name
safe_zip_asset_name_iff name out = (
  λ h.
      let (slashes, h1) = >>-eq-ok (ensure (not (any (λ c. c == 0x5C) name)) has_backslash) _ h in
      let (_, h2) = >>-eq-ok (ensure (not (starts_with name (text "/"))) is_absolute) _ h1 in
      let (_, h3) = >>-eq-ok (ensure (not (is_empty (split b'/' name))) has_no_parts) _ h2 in
      let (parts, made) = >>-eq-ok (for_each check_part (split b'/' name)) _ h3 in
      let plain = ensure-eq-ok (not (any (λ c. c == 0x5C) name)) has_backslash slashes in
      (
        ground (arith, plain),
        All-map (λ p. check_part p ≡ ok tt) IsSafePart (split b'/' name) (λ p. (check_part_iff p).0)
            ((for_each-ok_iff check_part (split b'/' name)).0 parts),
        sym (join-split b'/' name) ∙ ground (arith, made),
      ),
  λ (slashes, parts, same).
      let passed = (for_each-ok_iff check_part (split b'/' name)).1 (
        All-map IsSafePart (λ p. check_part p ≡ ok tt) (split b'/' name) (λ p. (check_part_iff p).1)
          parts) in
      rw slashes (
        rw (relative name parts) (unfold split in rw passed (ap ok (join-split b'/' name ∙ same)))),
)
