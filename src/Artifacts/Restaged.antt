-- ===== src/Artifacts/Restaged.antt =====
-- What a staging leaves behind: the set and its files under its key, and all else as before.
use onshape_export.Base.{
  ℕ, ◌≡◌, ◌≢◌, refl, sym, ap, ◌∙◌, Text, text_eq, text_eq_iff, text_eq_refl, true, false, not, ◌&&◌,
  Option, none, some, List, [], ◌∷◌, ◌++◌, arith, any, filter_by, affected_none, All-find_by,
  HasUniqueKeys, update_where, find_by, changed, find_by-update_where, find_by-append-new,
  find_by-key, any-find_by, ok, ensure, Bool-cases, inl, inr, >>=-eq-ok,
}
use onshape_export.Artifacts.{
  ArtifactSetRecord, ArtifactFileInsert, ArtifactUpsert, ArtifactMetadata, Artifacts, has_hash,
  find_set,
}
use onshape_export.Artifacts.Staging.{
  stage_artifact_inner, clashes, of_set, may_restage, upsert_set, insert_files, staged_set,
  restaged_set,
}
use onshape_export.Artifacts.Operations.{IsValid}
use onshape_export.Artifacts.Frozen.{
  OwnFiles, files_of, stage_artifact_inner-Staged, upsert_set-apart, insert_files-apart,
  filter_by-others,
}

abbrev hash_of : ArtifactSetRecord → Text
hash_of r = r.artifact_set_hash

append_nil : (xs : List ArtifactFileInsert) → xs ++ [] ≡ xs
append_nil [] = refl
append_nil (x ∷ xs) = ap (λ ys. x ∷ ys) (append_nil xs)

append_assoc :
    (xs : List ArtifactFileInsert) (y : ArtifactFileInsert) (zs : List ArtifactFileInsert)
    → (xs ++ y ∷ []) ++ zs ≡ xs ++ y ∷ zs
append_assoc [] y zs = refl
append_assoc (x ∷ xs) y zs = ap (λ ys. x ∷ ys) (append_assoc xs y zs)

-- Files that go in are all there, after those that were there.
insert_files-append :
    (files stored stored' : List ArtifactFileInsert)
    → insert_files files stored ≡ ok stored'
    → stored ++ files ≡ stored'
unfolding insert_files
insert_files-append [] stored stored' done = append_nil stored ∙ ground arith
insert_files-append (f ∷ files) stored stored' done =
    let parts = >>=-eq-ok (ensure (not (any (λ g. clashes g f) stored)) _) _ done in
    sym (append_assoc stored f files) ∙ insert_files-append files (stored ++ f ∷ []) stored' parts.2

own_files :
    (a : ArtifactUpsert) (old files : List ArtifactFileInsert)
    → OwnFiles a files
    → filter_by
        (of_set a.artifact_key)
        (filter_by (λ f. not (of_set a.artifact_key f)) old ++ files)
      ≡ files
own_files a [] [] own = refl
own_files a [] (f ∷ files) own =
    ground (arith, own.0, text_eq_refl a.artifact_key, own_files a [] files own.1)
own_files a (x ∷ old) files own = ground (arith, own_files a old files own)

any-none :
    (key : Text) (sets : List ArtifactSetRecord)
    → find_set key sets ≡ none
    → any (has_hash key) sets ≡ false
unfolding find_by
any-none key [] e = refl
any-none key (x ∷ sets) e = ground (arith, any-none key sets)

module _ (to_string : ArtifactMetadata → Text) (now : ℕ) (a : ArtifactUpsert) where
  -- Only a set that may be staged again is.
  upsert_set-may_restage :
      (sets sets' : List ArtifactSetRecord) (row : ArtifactSetRecord)
      → HasUniqueKeys hash_of sets
      → find_set a.artifact_key sets ≡ some row
      → upsert_set to_string now a sets ≡ ok sets'
      → may_restage a row ≡ true
  unfolding upsert_set
  upsert_set-may_restage sets sets' row unique e done = elim (Bool-cases (may_restage a row)) [
    | inl may ↦ may
    | inr never ↦
        let none_picked =
          affected_none (λ x. has_hash a.artifact_key x && may_restage a x) sets
            (All-find_by hash_of (may_restage a) a.artifact_key sets unique
              (λ x e'. ground (arith, e, never))) in
        absurd (ground (arith, none_picked, any-find_by hash_of a.artifact_key sets e))
  ]

  upsert_set-here :
      (sets sets' : List ArtifactSetRecord) (o : Option ArtifactSetRecord)
      → HasUniqueKeys hash_of sets
      → find_set a.artifact_key sets ≡ o
      → upsert_set to_string now a sets ≡ ok sets'
      → find_set a.artifact_key sets' ≡ some (staged_set to_string now a)
  unfolding upsert_set
  upsert_set-here sets sets' none unique e done = ground (
    arith,
    any-none a.artifact_key sets e,
    text_eq_refl a.artifact_key,
    find_by-append-new hash_of a.artifact_key sets (staged_set to_string now a),
  )
  upsert_set-here sets sets' (some row) unique e done =
      let may = upsert_set-may_restage sets sets' row unique e done in
      let key = find_by-key hash_of a.artifact_key sets {x = row} e in
      let made : update_where (λ x. has_hash a.artifact_key x && may_restage a x)
            (restaged_set to_string now a) sets
          ≡ sets' =
        ground (arith, any-find_by hash_of a.artifact_key sets e) in
      ap (find_set a.artifact_key) (sym made)
      ∙ find_by-update_where hash_of (λ x. has_hash a.artifact_key x && may_restage a x)
          (restaged_set to_string now a) (λ x. refl) a.artifact_key sets
      ∙ ap
          (changed hash_of (λ x. has_hash a.artifact_key x && may_restage a x)
            (restaged_set to_string now a))
          e
      ∙ ground (arith, may, key, text_eq_refl a.artifact_key)

-- The set and its files are there, and every other set has what it had.
pub record IsStaged (row : ArtifactSetRecord) (files : List ArtifactFileInsert) (s s' : Artifacts)
    : Type 0 where
  pub set : find_set row.artifact_set_hash s'.sets ≡ some row
  pub own : files_of row.artifact_set_hash s' ≡ files
  pub others :
      (hash : Text)
      → hash ≢ row.artifact_set_hash
      → (find_set hash s'.sets ≡ find_set hash s.sets) × (files_of hash s' ≡ files_of hash s)

-- On valid tables, a staging that succeeds, of files that name its set, leaves the new row under its
-- key, with exactly the given files, in their order; every other set keeps its row and its files.
pub stage_artifact_inner-IsStaged :
    (to_string : ArtifactMetadata → Text) (now : ℕ) (a : ArtifactUpsert)
    (files : List ArtifactFileInsert) (s s' : Artifacts)
    → IsValid s
    → OwnFiles a files
    → stage_artifact_inner to_string now a files s ≡ ok s'
    → IsStaged (staged_set to_string now a) files s s'
stage_artifact_inner-IsStaged to_string now a files s s' v own done =
    let parts = stage_artifact_inner-Staged to_string now a files s s' done in
    record {
      set =
          upsert_set-here to_string now a s.sets s'.sets (find_set a.artifact_key s.sets) v.sets
            refl parts.upserted;
      own =
          ap (filter_by (of_set a.artifact_key))
            (sym (insert_files-append files _ s'.files parts.inserted))
          ∙ own_files a s.files files own;
      others = λ hash other.
          let apart : text_eq a.artifact_key hash ≡ false =
            ground (arith, text_eq_iff a.artifact_key hash, other) in
          (
            upsert_set-apart to_string now a hash s.sets s'.sets apart parts.upserted,
            insert_files-apart hash a.artifact_key files _ s'.files apart own parts.inserted
                ∙ filter_by-others hash a.artifact_key s.files apart,
          );
    }
