-- ===== src/Storage/Tests.antt =====
-- The object store on concrete objects.
use onshape_export.Base.{
  ℕ, ◌≡◌, ◌↔◌, refl, arith, Text, text, text_eq, optional_text_eq, bytes, utf8, split, split_first,
  join, some, List, [], ◌∷◌, length, Result, ok, err,
}
use onshape_export.Storage.{
  pos, StorageError, HeadObjectOutput, GetObjectOutput, wrong_length, too_long, too_short,
  stream_failed, counted, verify_chunks, verify_object_body, verify_object_metadata, head_object,
  verify_exact_object, encoded_bytes, url_path_segment, trim_end_matches, public_url,
}
use onshape_export.Storage.Bodies.{IsStored, verify_exact_object_iff}
use onshape_export.Storage.Urls.{percent_decode, percent_decode-url_path_segment}

-- Stands for SHA-256: the bytes themselves.
abbrev digest : List ℕ → Text
digest content = content

abbrev heads : Text → Result StorageError HeadObjectOutput
heads key =
    ok (record { content_length = some (pos 3); content_type = some (text "application/zip") })

abbrev gets : Text → Result StorageError GetObjectOutput
gets key = ok (record {
  content_length = some (pos 3);
  content_type = some (text "application/zip");
  body = ok (text "a") ∷ ok [] ∷ ok (text "bc") ∷ [];
})

accepts_chunks :
    verify_exact_object digest heads gets (text "key") (text "application/zip") 3 (text "abc")
    ≡ ok tt
unfolding verify_exact_object head_object verify_object_metadata verify_object_body verify_chunks
    counted text text_eq optional_text_eq
accepts_chunks = refl

refuses_length :
    verify_exact_object digest heads gets (text "key") (text "application/zip") 4 (text "abc")
    ≡ err wrong_length
unfolding verify_exact_object head_object verify_object_metadata verify_object_body verify_chunks
    counted text text_eq optional_text_eq
refuses_length = refl

refuses_bodies :
    (verify_object_body digest (ok (text "ab") ∷ ok (text "cd") ∷ []) 3 (text "abc") ≡ err too_long)
    × (verify_object_body digest (ok (text "ab") ∷ []) 3 (text "abc") ≡ err too_short)
    × (verify_object_body digest (ok (text "ab") ∷ err stream_failed ∷ []) 3 (text "abc")
        ≡ err stream_failed)
unfolding verify_object_body verify_chunks counted text text_eq
refuses_bodies = (refl, refl, refl)

-- The repository's own test `encodes_public_url_segments`.
encodes_segment : url_path_segment (text "a b.glb") ≡ text "a%20b.glb"
unfolding url_path_segment encoded_bytes bytes utf8 text
encodes_segment = refl

encodes_url :
    public_url (some (text "https://cdn//")) (text "v2/a b") ≡ some (text "https://cdn/v2/a%20b")
unfolding public_url trim_end_matches join split split_first url_path_segment encoded_bytes bytes
    utf8 text
encodes_url = refl

verify_exact_object_iff_example :
    (verify_exact_object digest heads gets (text "key") (text "application/zip") 3 (text "abc")
      ≡ ok tt)
    ↔ ((content : List ℕ) × IsStored heads gets (text "key") (text "application/zip") content
        × (length content ≡ 3)
        × (digest content ≡ text "abc"))
verify_exact_object_iff_example =
    verify_exact_object_iff digest heads gets (text "key") (text "application/zip") 3 (text "abc")
      (omega arith)

percent_decode-url_path_segment_example :
    percent_decode (url_path_segment (0xE9 ∷ b'%' ∷ [])) ≡ some (bytes (0xE9 ∷ b'%' ∷ []))
percent_decode-url_path_segment_example =
    percent_decode-url_path_segment (0xE9 ∷ b'%' ∷ []) (omega arith, (omega arith, tt))
