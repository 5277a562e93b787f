-- ===== src/Assets/Tests.antt =====
-- Names of assets and GLB headers, by example.
use onshape_export.Base.{
  ◌≡◌, ◌↔◌, refl, text, text_eq, split, split_first, false, any, [], ◌∷◌, ◌==◌, All, ok, err,
  for_each, starts_with,
}
use onshape_export.Assets.{is_unsafe, wrong_length, check_part, safe_zip_asset_name, validate_glb}
use onshape_export.Assets.Names.{IsSafePart, safe_zip_asset_name_iff}

parent_fails : safe_zip_asset_name (text "a/../b.bin") ≡ err is_unsafe
unfolding safe_zip_asset_name check_part text text_eq split split_first for_each starts_with
parent_fails = refl

empty_glb_passes :
    validate_glb (0x67 ∷ 0x6C ∷ 0x54 ∷ 0x46 ∷ 2 ∷ 0 ∷ 0 ∷ 0 ∷ 12 ∷ 0 ∷ 0 ∷ 0 ∷ []) ≡ ok tt
unfolding validate_glb text text_eq
empty_glb_passes = refl

cut_glb_fails :
    validate_glb (0x67 ∷ 0x6C ∷ 0x54 ∷ 0x46 ∷ 2 ∷ 0 ∷ 0 ∷ 0 ∷ 13 ∷ 0 ∷ 0 ∷ 0 ∷ [])
    ≡ err wrong_length
unfolding validate_glb text text_eq
cut_glb_fails = refl

safe_zip_asset_name_iff_example :
    (safe_zip_asset_name (text "textures/wood.png") ≡ ok (text "textures/wood.png")) ↔ (
      (any (λ c. c == 0x5C) (text "textures/wood.png") ≡ false)
      × All IsSafePart (split b'/' (text "textures/wood.png"))
      × (text "textures/wood.png" ≡ text "textures/wood.png"))
safe_zip_asset_name_iff_example =
    safe_zip_asset_name_iff (text "textures/wood.png") (text "textures/wood.png")
