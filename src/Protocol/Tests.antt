-- ===== src/Protocol/Tests.antt =====
-- Documents of the protocol, by example.
use onshape_export.Base.{
  ◌≡◌, ◌≤◌, ◌↔◌, refl, text, bytes, utf8, len, split, split_first, length, false, All, ok, err,
  for_each,
}
use onshape_export.Protocol.{invalid_segment, pointer_escape, validate_relative_path, check_escapes}
use onshape_export.Protocol.Documents.{
  success, validate_result, validate_request, validate_against_request,
}
use onshape_export.Protocol.Samples.{hash_json, request, answer}
use onshape_export.Protocol.Paths.{IsSafeSegment, validate_relative_path-IsSafeSegment}
use onshape_export.Protocol.Answers.{IsAnswer, validate_against_request_iff}

project_path_passes : validate_relative_path (text "outputs/project.3mf") ≡ ok tt
unfolding validate_relative_path text bytes utf8 split split_first for_each
project_path_passes = refl

parent_path_fails : validate_relative_path (text "outputs/../secret") ≡ err invalid_segment
unfolding validate_relative_path text bytes utf8 split split_first for_each
parent_path_fails = refl

-- A tilde at the end of a JSON pointer escapes nothing.
open_escape_fails : check_escapes false (bytes (text "/a~")) ≡ err pointer_escape
unfolding check_escapes text bytes utf8
open_escape_fails = refl

validate_relative_path-IsSafeSegment_example :
    (len (text "outputs/project.3mf") ≤ 1024)
    × (length (split b'/' (text "outputs/project.3mf")) ≤ 64)
    × All IsSafeSegment (split b'/' (text "outputs/project.3mf"))
validate_relative_path-IsSafeSegment_example =
    validate_relative_path-IsSafeSegment (text "outputs/project.3mf") project_path_passes

validate_against_request_iff_example :
    (validate_against_request hash_json answer request ≡ ok tt) ↔ (
      (validate_request hash_json request ≡ ok tt)
      × (validate_result answer ≡ ok tt)
      × IsAnswer request success answer)
validate_against_request_iff_example = validate_against_request_iff hash_json answer request
