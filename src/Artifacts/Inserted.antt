-- ===== src/Artifacts/Inserted.antt =====
-- A staging of a generator's set, once or again, keeps unique keys and every other generator's set.
use mathlib.Core.Path.{subst}
use onshape_export.Base.{
  ℕ, ◌≡◌, refl, ◌∙◌, Text, text_eq, text_eq_iff, false, List, arith, any-find_by, find_by-append,
  Distinct-snoc, Result, ok, err, Bool-cases, inl, inr,
}
use onshape_export.Artifacts.Generated.{Recipes}
use onshape_export.Artifacts.{
  ArtifactSetRecord, ArtifactFileInsert, ArtifactMetadata, Artifacts, DatabaseError,
}
use onshape_export.Artifacts.Staging.{clashes, of_set}
use onshape_export.Artifacts.Generated.{Prepared}
use onshape_export.Artifacts.Resuming.{
  GeneratorArtifactStage, GeneratorArtifactFileInsert, GeneratorArtifactState,
}
use onshape_export.Artifacts.Operations.{IsValid, completed_or_rolled_back}
use onshape_export.Artifacts.Frozen.{Keeps, filter_by-append}
use onshape_export.Artifacts.Insertion.{IsInserted}
use onshape_export.Artifacts.Resumed.{stage_or_resume, stage_or_resume_generator_artifact-IsResumed}

abbrev hash_of : ArtifactSetRecord → Text
hash_of r = r.artifact_set_hash

pub IsInserted-IsValid :
    (row : ArtifactSetRecord) (file : ArtifactFileInsert) (s s' : Artifacts)
    → IsInserted row file s s' × (row.artifact_set_hash ≡ file.artifact_set_hash)
    → IsValid s
    → IsValid s'
IsInserted-IsValid row file s s' (inl (_, e), _) v = subst IsValid e v
IsInserted-IsValid row file s s' (inr (new, apart, e), _) v = subst IsValid e (record {
  sets = Distinct-snoc (λ x y. text_eq (hash_of x) (hash_of y)) s.sets row v.sets new;
  files = Distinct-snoc clashes s.files file v.files apart;
})

pub IsInserted-Keeps :
    (hash : Text) (r : ArtifactSetRecord) (files : List ArtifactFileInsert)
    (row : ArtifactSetRecord) (file : ArtifactFileInsert) (s s' : Artifacts)
    → IsInserted row file s s' × (row.artifact_set_hash ≡ file.artifact_set_hash)
    → Keeps hash r files s
    → Keeps hash r files s'
IsInserted-Keeps hash r files row file s s' (inl (_, e), _) k = subst (Keeps hash r files) e k
IsInserted-Keeps hash r files row file s s' (inr (new, _, e), own) k =
    elim (Bool-cases (text_eq row.artifact_set_hash hash)) [
      | inl same ↦ absurd (
          let taken = any-find_by hash_of hash s.sets k.here in
          ground (arith, taken, new, (text_eq_iff row.artifact_set_hash hash).0 same))
      | inr apart ↦ subst (Keeps hash r files) e (record {
        row = k.row;
        here = find_by-append hash_of hash s.sets row apart ∙ k.here;
        same = k.same;
        stored =
            filter_by-append (of_set hash) s.files file
              (subst (λ h. text_eq h hash ≡ false) own apart)
            ∙ k.stored;
      })
    ]

-- What a staging or resumption leaves: the tables, or one row and its file more.
pub resumed_cases {κ} :
    (to_string : ArtifactMetadata → Text) (recipes : Recipes) (P : Artifacts → Type κ) (now : ℕ)
    (prepared : Prepared) (a : GeneratorArtifactStage) (files : List GeneratorArtifactFileInsert)
    (s : Artifacts) (o : Result DatabaseError (Artifacts × GeneratorArtifactState))
    → stage_or_resume to_string recipes now prepared a files s ≡ o
    → P s
    → ((row : ArtifactSetRecord) (file : ArtifactFileInsert) (s' : Artifacts)
        → IsInserted row file s s' × (row.artifact_set_hash ≡ file.artifact_set_hash)
        → P s')
    → P (completed_or_rolled_back s o)
resumed_cases to_string recipes P now prepared a files s (err e) done before after = before
resumed_cases to_string recipes P now prepared a files s (ok (s', state)) done before after =
    let (f, options, hash, _, _, _, _, added, _) =
      stage_or_resume_generator_artifact-IsResumed to_string recipes now prepared a files s s' state
        done in
    after _ _ s' (added, refl)
