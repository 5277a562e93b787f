-- ===== src/Inputs.antt =====
-- The paths under which the inputs of a generator are retained: `allocate_retained_paths` and
-- `validate_allocated_paths` of src/generator_inputs.rs.
pub mod Allocation
mod Tests
use onshape_export.Base.{
  ℕ, suc, ◌+◌, ◌/◌, ◌%◌, Text, text, text_eq, starts_with, Bool, true, false, not, ◌&&◌, List, [],
  ◌∷◌, ◌++◌, leb, any, length, Result, ok, err, ensure, ◌>>=◌, ◌>>◌,
}
use onshape_export.Failure.{is_sha256}
use onshape_export.Protocol.{ProtocolError, validate_relative_path}

pub data InputError : Type 0 where
  wrong_object_count repeated_identity misplaced_path : InputError
  invalid_path : ProtocolError → InputError

abbrev pub or_invalid_path : Result ProtocolError (Unit {0}) → Result InputError (Unit {0})
or_invalid_path (ok _) = ok tt
or_invalid_path (err e) = err (invalid_path e)

-- The loop over the identities, with the set of those that it has seen.
unfoldable pub check_identities : List Text → List Text → Result InputError (Unit {0})
check_identities seen [] = ok tt
check_identities seen (identity ∷ identities) = do
  ensure (is_sha256 identity && not (any (λ y. text_eq y identity) seen)) repeated_identity
  check_identities (identity ∷ seen) identities

-- `{position:03}`: below 1000 it has three digits, and a position is below 256.
abbrev pub position_digits : ℕ → Text
position_digits p = (b'0' + p / 100) ∷ (b'0' + p / 10 % 10) ∷ (b'0' + p % 10) ∷ []

-- `{position:03}-{identity}.3mf`
abbrev pub file_name : ℕ → Text → Text
file_name p identity = position_digits p ++ b'-' ∷ (identity ++ text ".3mf")

unfoldable pub retained_path : ℕ → Text → Text
retained_path p identity = text "inputs/geometry-v1/" ++ file_name p identity

-- `enumerate` and `map`
unfoldable pub retained_paths : ℕ → List Text → List Text
unfolding retained_path
retained_paths p [] = []
retained_paths p (identity ∷ identities) =
    retained_path p identity ∷ retained_paths (suc p) identities

-- The loop of `validate_allocated_paths`, with the set of the paths that it has seen.
unfoldable pub validate_allocated_paths : List Text → List Text → Result InputError (Unit {0})
validate_allocated_paths seen [] = ok tt
validate_allocated_paths seen (path ∷ paths) = do
  or_invalid_path (validate_relative_path path)
  ensure (starts_with path (text "inputs/") && not (any (λ y. text_eq y path) seen)) misplaced_path
  validate_allocated_paths (path ∷ seen) paths

unfoldable pub allocate_retained_paths : List Text → Result InputError (List Text)
unfolding check_identities retained_paths validate_allocated_paths
allocate_retained_paths identities = do
  ensure (leb 1 (length identities) && leb (length identities) 256) wrong_object_count
  check_identities [] identities
  validate_allocated_paths [] (retained_paths 0 identities)
  ok (retained_paths 0 identities)
