-- ===== src/Artifacts/Uniqueness.antt =====
-- The keys of the two artifact tables stay unique through every operation.
use mathlib.Core.Path.{subst}
use onshape_export.Base.{
  ℕ, ◌≡◌, refl, Text, text_eq, Bool, true, false, not, ◌&&◌, none, some, List, [], ◌∷◌, ◌++◌, arith,
  any, filter_by, is_none, All, update_where, update_where-Distinct, Distinct, Distinct-snoc,
  HasUniqueKeys, Result, ok, err, ensure, ensure-eq-ok, ◌>>◌, Bool-cases, ◌⊎◌, inl, inr, >>=-eq-ok,
}
use onshape_export.Artifacts.{
  ready, ArtifactSetRecord, ArtifactFileInsert, ArtifactUpsert, ArtifactMetadata, Artifacts,
  DatabaseError, has_hash, has_status, mark_artifact_set_ready, transition_artifact_set_status,
  supersede_artifact_set, supersede_ready_artifacts_for_output,
}
use onshape_export.Artifacts.Staging.{
  stage_artifact_inner, stage_artifact, clashes, may_restage, upsert_set, insert_files, staged_set,
  restaged_set,
}
use onshape_export.Artifacts.Generated.{
  Recipes, Prepared, Loaded, fail_generator_artifact, fail_ready_generator_verification, make_ready,
  load_generator_artifact, complete_loaded, complete_generator_artifact,
}
use onshape_export.Artifacts.Operations.{
  Operation, IsValid, run, or_rolled_back, completed_or_rolled_back, stage, stage_any, mark_ready,
  transition, supersede, supersede_output, fail_pending, fail_ready, complete, resume,
}
use onshape_export.Artifacts.Frozen.{stage_artifact_inner-Staged}
use onshape_export.Artifacts.Inserted.{resumed_cases, IsInserted-IsValid}

abbrev hash_of : ArtifactSetRecord → Text
hash_of r = r.artifact_set_hash

filter_by-All {κ} :
    (P : ArtifactFileInsert → Type κ) (p : ArtifactFileInsert → Bool) (xs : List ArtifactFileInsert)
    → All P xs
    → All P (filter_by p xs)
filter_by-All P p [] h = tt
filter_by-All P p (x ∷ xs) h = elim (Bool-cases (p x)) [
  | inl picked ↦ rw picked (h.0, filter_by-All P p xs h.1)
  | inr passed ↦ rw passed (filter_by-All P p xs h.1)
]

filter_by-Distinct :
    (p : ArtifactFileInsert → Bool) (xs : List ArtifactFileInsert)
    → Distinct clashes xs
    → Distinct clashes (filter_by p xs)
filter_by-Distinct p [] h = tt
filter_by-Distinct p (x ∷ xs) h = elim (Bool-cases (p x)) [
  | inl picked ↦
      rw picked (filter_by-All (λ y. clashes x y ≡ false) p xs h.0, filter_by-Distinct p xs h.1)
  | inr passed ↦ rw passed (filter_by-Distinct p xs h.1)
]

insert_files-Distinct :
    (files stored stored' : List ArtifactFileInsert)
    → Distinct clashes stored
    → insert_files files stored ≡ ok stored'
    → Distinct clashes stored'
unfolding insert_files
insert_files-Distinct [] stored stored' h done = subst (Distinct clashes) (ground arith) h
insert_files-Distinct (f ∷ files) stored stored' h done =
    let parts = >>=-eq-ok (ensure (not (any (λ g. clashes g f) stored)) _) _ done in
    insert_files-Distinct files (stored ++ f ∷ []) stored'
      (Distinct-snoc clashes stored f h
        (ground (arith, ensure-eq-ok (not (any (λ g. clashes g f) stored)) _ parts.1)))
      parts.2

module _ (to_string : ArtifactMetadata → Text) (now : ℕ) where
  upsert_set-cases :
      (a : ArtifactUpsert) (sets sets' : List ArtifactSetRecord)
      → upsert_set to_string now a sets ≡ ok sets'
      → (update_where
            (λ r. has_hash a.artifact_key r && may_restage a r)
            (restaged_set to_string now a)
            sets
          ≡ sets')
        ⊎ ((any (has_hash a.artifact_key) sets ≡ false)
            × (sets ++ staged_set to_string now a ∷ [] ≡ sets'))
  unfolding upsert_set
  upsert_set-cases a sets sets' done = elim (Bool-cases (any (has_hash a.artifact_key) sets)) [
    | inl taken ↦ inl (ground arith)
    | inr fresh ↦ inr (fresh, ground arith)
  ]

  upsert_set-HasUniqueKeys :
      (a : ArtifactUpsert) (sets sets' : List ArtifactSetRecord)
      → HasUniqueKeys hash_of sets
      → upsert_set to_string now a sets ≡ ok sets'
      → HasUniqueKeys hash_of sets'
  upsert_set-HasUniqueKeys a sets sets' h done = elim (upsert_set-cases a sets sets' done) [
    | inl made ↦
        subst (HasUniqueKeys hash_of) made (
          update_where-Distinct text_eq hash_of _ (restaged_set to_string now a) (λ x. refl) sets h)
    | inr (fresh, made) ↦ subst (HasUniqueKeys hash_of) made (
        Distinct-snoc (λ x y. text_eq (hash_of x) (hash_of y)) sets (staged_set to_string now a) h
          fresh)
  ]

  pub staged-IsValid :
      (a : ArtifactUpsert) (files : List ArtifactFileInsert) (s : Artifacts)
      → IsValid s
      → (o : Result DatabaseError Artifacts) → stage_artifact_inner to_string now a files s ≡ o
      → IsValid (or_rolled_back s o)
  staged-IsValid a files s v (err e) done = v
  staged-IsValid a files s v (ok s') done =
      let parts = stage_artifact_inner-Staged to_string now a files s s' done in
      record {
        sets = upsert_set-HasUniqueKeys a s.sets s'.sets v.sets parts.upserted;
        files =
            insert_files-Distinct files _ s'.files (filter_by-Distinct _ s.files v.files)
              parts.inserted;
      }

-- An UPDATE that leaves the hash alone.
pub update-IsValid :
    (p : ArtifactSetRecord → Bool) (f : ArtifactSetRecord → ArtifactSetRecord)
    → ((r : ArtifactSetRecord) → hash_of (f r) ≡ hash_of r)
    → (s : Artifacts) → IsValid s
    → IsValid (record s { sets = update_where p f s.sets })
update-IsValid p f keeps s v = record {
  sets = update_where-Distinct text_eq hash_of p f keeps s.sets v.sets;
  files = v.files;
}

pub make_ready-IsValid :
    (now : ℕ) (hash kind : Text) (r : ArtifactSetRecord) (s : Artifacts)
    → IsValid s
    → IsValid (make_ready now hash kind r s)
unfolding make_ready
make_ready-IsValid now hash kind r s v =
    update-IsValid _ _ (λ x. refl) _ (update-IsValid _ _ (λ x. refl) s v)

pub guarded {κ} :
    (P : Artifacts → Type κ) (b : Bool) (e : DatabaseError) (s : Artifacts)
    (o : Result DatabaseError Artifacts)
    → P s
    → P (or_rolled_back s o)
    → P (or_rolled_back s (ensure b e >> o))
guarded P true e s o before after = after
guarded P false e s o before after = before

-- What a completion writes.
pub completed_by_cases {κ} :
    (P : Artifacts → Type κ) (now : ℕ) (hash kind object_key : Text) (s : Artifacts) (l : Loaded)
    (o : Result DatabaseError (Artifacts × Bool))
    → complete_loaded now hash kind object_key s l ≡ o
    → P s
    → ((r : ArtifactSetRecord) → P (make_ready now hash kind r s))
    → P (completed_or_rolled_back s o)
unfolding complete_loaded
completed_by_cases P now hash kind object_key s l (err e) done before after = before
completed_by_cases P now hash kind object_key s none (ok (s', b)) done before after =
    subst P (ground arith) before
completed_by_cases P now hash kind object_key s (some (r, file)) (ok (s', b)) done before after =
    let (_, _, rest) = >>=-eq-ok (ensure (text_eq file.object_key object_key) _) _ done in
    elim (Bool-cases (has_status ready r.status)) [
      | inl already ↦ subst P (ground arith) before
      | inr pending ↦ subst P (ground arith) (after r)
    ]

module _ (to_string : ArtifactMetadata → Text) (recipes : Recipes) where
  open recipes use {generator_artifact_set_hash}

  -- A completion leaves the tables as they are, or makes one set ready and supersedes others.
  pub completed_cases {κ} :
      (P : Artifacts → Type κ) (now : ℕ) (prepared : Prepared) (kind format object_key : Text)
      (s : Artifacts) (o : Result DatabaseError (Artifacts × Bool))
      → complete_generator_artifact recipes now prepared kind format object_key s ≡ o
      → P s
      → ((hash : Text) (r : ArtifactSetRecord) → P (make_ready now hash kind r s))
      → P (completed_or_rolled_back s o)
  unfolding complete_generator_artifact
  completed_cases P now prepared kind format object_key s (err e) done before after = before
  completed_cases P now prepared kind format object_key s (ok x) done before after =
      let (hash, _, rest) = >>=-eq-ok (generator_artifact_set_hash prepared kind format) _ done in
      let (loaded, _, last) =
        >>=-eq-ok (load_generator_artifact recipes prepared kind format s) _ rest in
      completed_by_cases P now hash kind object_key s loaded (ok x) last before (after hash)

module _ (to_string : ArtifactMetadata → Text) (recipes : Recipes) where
  pub run-IsValid :
      (now : ℕ) (o : Operation) (s : Artifacts)
      → IsValid s
      → IsValid (run to_string recipes now o s)
  unfolding run mark_artifact_set_ready transition_artifact_set_status supersede_artifact_set
      supersede_ready_artifacts_for_output fail_generator_artifact fail_ready_generator_verification
  run-IsValid now (stage a files) s v =
      unfold stage_artifact in
      guarded IsValid (is_none a.generator_processing_hash) _ s _ v
        (staged-IsValid to_string now a files s v _ refl)
  run-IsValid now (stage_any a files) s v = staged-IsValid to_string now a files s v _ refl
  run-IsValid now (mark_ready hash key) s v = update-IsValid _ _ (λ x. refl) s v
  run-IsValid now (transition hash status) s v = update-IsValid _ _ (λ x. refl) s v
  run-IsValid now (supersede hash by reason) s v = update-IsValid _ _ (λ x. refl) s v
  run-IsValid now (supersede_output source config options kind retained reason) s v =
      update-IsValid _ _ (λ x. refl) s v
  run-IsValid now (fail_pending hash) s v = update-IsValid _ _ (λ x. refl) s v
  run-IsValid now (fail_ready hash expected) s v = update-IsValid _ _ (λ x. refl) s v
  run-IsValid now (complete prepared kind format key) s v =
      completed_cases to_string recipes IsValid now prepared kind format key s _ refl v
        (λ hash r. make_ready-IsValid now hash kind r s v)
  run-IsValid now (resume prepared a files) s v =
      resumed_cases to_string recipes IsValid now prepared a files s _ refl v
        (λ row file s' added. IsInserted-IsValid row file s s' added v)
