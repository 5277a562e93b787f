-- ===== src/Inputs/Tests.antt =====
-- Retained paths, by example.
use onshape_export.Base.{◌≡◌, ◌↔◌, refl, Text, text, text_eq, bytes, utf8, [], ◌∷◌, ok, err}
use onshape_export.Failure.{is_sha256}
use onshape_export.Inputs.{
  wrong_object_count, repeated_identity, check_identities, retained_path, retained_paths,
  allocate_retained_paths,
}
use onshape_export.Inputs.Allocation.{IsAllocatable, allocate_retained_paths_iff}

abbrev identity : Text
identity = text "1878d7de38529bdc2805623db939e9f834dbee189325add96b5d8a1237422c2f"

abbrev path : Text
path =
    text
      "inputs/geometry-v1/000-1878d7de38529bdc2805623db939e9f834dbee189325add96b5d8a1237422c2f.3mf"

none_fail : allocate_retained_paths [] ≡ err wrong_object_count
unfolding allocate_retained_paths
none_fail = refl

repeated_fail : allocate_retained_paths (identity ∷ identity ∷ []) ≡ err repeated_identity
unfolding allocate_retained_paths check_identities is_sha256 text text_eq bytes utf8
repeated_fail = refl

first_path : retained_path 0 identity ≡ path
unfolding retained_path text
first_path = refl

allocate_retained_paths_iff_example :
    (allocate_retained_paths (identity ∷ []) ≡ ok (path ∷ []))
    ↔ (IsAllocatable (identity ∷ []) × (retained_paths 0 (identity ∷ []) ≡ path ∷ []))
allocate_retained_paths_iff_example = allocate_retained_paths_iff (identity ∷ []) (path ∷ [])
