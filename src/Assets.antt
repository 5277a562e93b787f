-- ===== src/Assets.antt =====
-- Preview assets of src/main.rs: the names that a ZIP archive may give them, and the header of a GLB.
pub mod Names
mod Tests
use onshape_export.Base.{
  join, ℕ, ◌+◌, ◌*◌, Text, text, text_eq, split, starts_with, is_control, Bool, true, false, not,
  ◌&&◌, List, [], ◌∷◌, ◌++◌, ◌==◌, leb, any, is_empty, length, Result, ok, err, ensure, for_each,
  ◌>>=◌, ◌>>◌,
}

pub data AssetError : Type 0 where
  has_backslash is_absolute has_no_parts is_unsafe has_control : AssetError
  short_header wrong_magic unsupported_version wrong_length : AssetError

unfoldable pub check_part : Text → Result AssetError (Unit {0})
check_part part = do
  ensure (not (is_empty part) && (not (text_eq part (text ".")) && not (text_eq part (text ".."))))
      is_unsafe
  ensure (not (any is_control part)) has_control

unfoldable pub safe_zip_asset_name : Text → Result AssetError Text
unfolding check_part join
safe_zip_asset_name name = do
  ensure (not (any (λ c. c == 0x5C) name)) has_backslash
  ensure (not (starts_with name (text "/"))) is_absolute
  ensure (not (is_empty (split b'/' name))) has_no_parts
  for_each check_part (split b'/' name)
  ok (join b'/' (split b'/' name))

abbrev pub from_le_bytes : ℕ → ℕ → ℕ → ℕ → ℕ
from_le_bytes a b c d = a + 256 * (b + 256 * (c + 256 * d))

-- The header of twelve bytes: magic, version, declared length.
abbrev pub check_glb_header : ℕ → List ℕ → Result AssetError (Unit {0})
check_glb_header size (m0 ∷ m1 ∷ m2 ∷ m3 ∷ v0 ∷ v1 ∷ v2 ∷ v3 ∷ l0 ∷ l1 ∷ l2 ∷ l3 ∷ rest) = do
  ensure (text_eq (m0 ∷ m1 ∷ m2 ∷ m3 ∷ []) (text "glTF")) wrong_magic
  ensure (from_le_bytes v0 v1 v2 v3 == 2) unsupported_version
  ensure (from_le_bytes l0 l1 l2 l3 == size) wrong_length
check_glb_header size _ = err short_header

unfoldable pub validate_glb : List ℕ → Result AssetError (Unit {0})
validate_glb data_bytes = check_glb_header (length data_bytes) data_bytes
