-- ===== src/Artifacts/Insertion.antt =====
-- The insertion of a generator's set and its file: what it adds, and that a second one adds nothing.
use onshape_export.Base.{
  ◌≡◌, ◌⊎◌, text_eq_refl, Bool, true, false, List, [], ◌∷◌, ◌++◌, arith, any, ok, Bool-cases, inl,
  inr,
}
use onshape_export.Artifacts.{ArtifactSetRecord, ArtifactFileInsert, Artifacts, has_hash}
use onshape_export.Artifacts.Staging.{insert_files, clashes}
use onshape_export.Artifacts.Resuming.{insert_generator_set}

-- Nothing, when the hash is taken; or one row and one file at the end.
abbrev pub IsInserted : ArtifactSetRecord → ArtifactFileInsert → Artifacts → Artifacts → Type 0
IsInserted row file s s' =
    (any (has_hash row.artifact_set_hash) s.sets ≡ true) × (s ≡ s')
    ⊎ (any (has_hash row.artifact_set_hash) s.sets ≡ false)
      × (any (λ g. clashes g file) s.files ≡ false)
      × (record { sets = s.sets ++ row ∷ []; files = s.files ++ file ∷ [] } ≡ s')

pub insert_generator_set-IsInserted :
    (row : ArtifactSetRecord) (file : ArtifactFileInsert) (s s' : Artifacts)
    → insert_generator_set row file s ≡ ok s'
    → IsInserted row file s s'
unfolding insert_generator_set insert_files
insert_generator_set-IsInserted row file s s' done =
    elim (Bool-cases (any (has_hash row.artifact_set_hash) s.sets)) [
      | inl taken ↦ inl (taken, ground arith)
      | inr new ↦ elim (Bool-cases (any (λ g. clashes g file) s.files)) [
        | inl clash ↦ absurd (ground arith)
        | inr apart ↦ inr (new, apart, ground arith)
      ]
    ]

any-append-last :
    (p : ArtifactSetRecord → Bool) (xs : List ArtifactSetRecord) (x : ArtifactSetRecord)
    → p x ≡ true
    → any p (xs ++ x ∷ []) ≡ true
any-append-last p [] x h = ground arith
any-append-last p (y ∷ xs) x h = ground (arith, any-append-last p xs x h)

pub insert_generator_set-again :
    (row row' : ArtifactSetRecord) (file : ArtifactFileInsert) (s s' : Artifacts)
    → row.artifact_set_hash ≡ row'.artifact_set_hash
    → insert_generator_set row file s ≡ ok s'
    → insert_generator_set row' file s' ≡ ok s'
unfolding insert_generator_set
insert_generator_set-again row row' file s s' same done =
    elim (insert_generator_set-IsInserted row file s s' done) [
      | inl (taken, e) ↦ ground (arith, taken, e, same)
      | inr (new, _, e) ↦ ground (
        arith,
        any-append-last (has_hash row.artifact_set_hash) s.sets row
            (text_eq_refl row.artifact_set_hash),
        e,
        same,
      )
    ]
