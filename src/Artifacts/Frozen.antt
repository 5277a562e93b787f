-- ===== src/Artifacts/Frozen.antt =====
-- What stays of a set that a generator made: no operation rewrites its identity or its files.
use onshape_export.Base.{
  ℕ, ◌≡◌, ◌≢◌, refl, ap, ◌∙◌, Text, text_eq, text_eq_iff, Bool, true, false, not, ◌&&◌, Option,
  none, some, List, [], ◌∷◌, ◌++◌, arith, any, filter_by, is_none, All, affected_none, update_where,
  changed, find_by-update_where, find_by-append, find_by-key, any-find_by, All-find_by,
  HasUniqueKeys, Result, ok, err, ensure, if◌then◌else◌, Bool-cases, inl, inr, >>=-eq-ok,
}
use onshape_export.Artifacts.{
  staged, ArtifactSetRecord, ArtifactFileInsert, ArtifactUpsert, ArtifactMetadata, Artifacts,
  DatabaseError, has_hash, find_set,
}
use onshape_export.Artifacts.Staging.{
  stage_artifact_inner, clashes, of_set, may_restage, upsert_set, insert_files, staged_set,
  restaged_set,
}
use onshape_export.Artifacts.Operations.{IsValid, or_rolled_back}

-- The columns that no transition of a status writes.
abbrev pub frozen : ArtifactSetRecord → ArtifactSetRecord
frozen r = record r {
  status = staged;
  primary_object_key = none;
  updated_at = 0;
  superseded_at = none;
  superseded_by = none;
  supersession_reason = none;
}

abbrev pub files_of : Text → Artifacts → List ArtifactFileInsert
files_of hash s = filter_by (of_set hash) s.files

-- The set is there with the frozen columns of `r`, and with these files.
pub record Keeps (hash : Text) (r : ArtifactSetRecord) (files : List ArtifactFileInsert)
    (s : Artifacts) : Type 0 where
  pub row : ArtifactSetRecord
  pub here : find_set hash s.sets ≡ some row
  pub same : frozen row ≡ frozen r
  pub stored : files_of hash s ≡ files

abbrev hash_of : ArtifactSetRecord → Text
hash_of r = r.artifact_set_hash

-- A statement that writes none of the frozen columns.
pub update-Keeps :
    (hash : Text) (r : ArtifactSetRecord) (files : List ArtifactFileInsert)
    (p : ArtifactSetRecord → Bool) (f : ArtifactSetRecord → ArtifactSetRecord)
    → ((x : ArtifactSetRecord) → frozen (f x) ≡ frozen x)
    → (s : Artifacts) → Keeps hash r files s
    → Keeps hash r files (record s { sets = update_where p f s.sets })
update-Keeps hash r files p f keeps s k = record {
  row = if p k.row then f k.row else k.row;
  here =
      find_by-update_where hash_of p f (λ x. ap hash_of (keeps x)) hash s.sets
      ∙ ap (changed hash_of p f) k.here;
  same = pick (p k.row) ∙ k.same;
  stored = k.stored;
}
  where
    pick : (b : Bool) → frozen (if b then f k.row else k.row) ≡ frozen k.row
    pick true = keeps k.row
    pick false = refl

pub filter_by-append :
    (p : ArtifactFileInsert → Bool) (xs : List ArtifactFileInsert) (f : ArtifactFileInsert)
    → p f ≡ false
    → filter_by p (xs ++ f ∷ []) ≡ filter_by p xs
filter_by-append p [] f no_pick = ground arith
filter_by-append p (x ∷ xs) f no_pick = ground (arith, filter_by-append p xs f no_pick)

-- Files of another set leave the files of this one alone.
pub insert_files-apart :
    (hash key : Text) (files stored stored' : List ArtifactFileInsert)
    → text_eq key hash ≡ false
    → All (λ (f : ArtifactFileInsert). f.artifact_set_hash ≡ key) files
    → insert_files files stored ≡ ok stored'
    → filter_by (of_set hash) stored' ≡ filter_by (of_set hash) stored
unfolding insert_files
insert_files-apart hash key [] stored stored' apart own done = ground arith
insert_files-apart hash key (f ∷ files) stored stored' apart own done =
    let parts = >>=-eq-ok (ensure (not (any (λ g. clashes g f) stored)) _) _ done in
    insert_files-apart hash key files (stored ++ f ∷ []) stored' apart own.1 parts.2
    ∙ filter_by-append (of_set hash) stored f (rw own.0 apart)

pub filter_by-others :
    (hash key : Text) (xs : List ArtifactFileInsert)
    → text_eq key hash ≡ false
    → filter_by (of_set hash) (filter_by (λ f. not (of_set key f)) xs) ≡ filter_by (of_set hash) xs
filter_by-others hash key [] apart = refl
filter_by-others hash key (x ∷ xs) apart = ground (
  arith,
  filter_by-others hash key xs apart,
  text_eq_iff x.artifact_set_hash key,
  text_eq_iff x.artifact_set_hash hash,
  text_eq_iff key hash,
)

module _ (to_string : ArtifactMetadata → Text) (now : ℕ) (a : ArtifactUpsert) where
  -- A generator's row refuses to be staged again.
  pub upsert_set-refuses :
      (sets : List ArtifactSetRecord) (row : ArtifactSetRecord)
      → HasUniqueKeys hash_of sets
      → find_set a.artifact_key sets ≡ some row
      → is_none row.generator_processing_hash ≡ false
      → (sets' : List ArtifactSetRecord) → upsert_set to_string now a sets ≢ ok sets'
  unfolding upsert_set
  upsert_set-refuses sets row unique here made sets' =
      let none_picked =
        affected_none (λ x. has_hash a.artifact_key x && may_restage a x) sets
          (All-find_by hash_of (may_restage a) a.artifact_key sets unique
            (λ x e. ground (arith, here))) in
      ground (arith, none_picked, any-find_by hash_of a.artifact_key sets here)

  restaged_apart :
      (hash : Text) (sets : List ArtifactSetRecord) (o : Option ArtifactSetRecord)
      → text_eq a.artifact_key hash ≡ false
      → find_set hash sets ≡ o
      → changed hash_of
          (λ x. has_hash a.artifact_key x && may_restage a x)
          (restaged_set to_string now a)
          o
        ≡ o
  restaged_apart hash sets none apart e = refl
  restaged_apart hash sets (some x) apart e = ground (
    arith,
    find_by-key hash_of hash sets {x = x} e,
    text_eq_iff x.artifact_set_hash a.artifact_key,
    text_eq_iff a.artifact_key hash,
  )

  pub upsert_set-apart :
      (hash : Text) (sets sets' : List ArtifactSetRecord)
      → text_eq a.artifact_key hash ≡ false
      → upsert_set to_string now a sets ≡ ok sets'
      → find_set hash sets' ≡ find_set hash sets
  unfolding upsert_set
  upsert_set-apart hash sets sets' apart done =
      elim (Bool-cases (any (has_hash a.artifact_key) sets)) [
        | inl taken ↦ ground (
          arith,
          find_by-update_where hash_of (λ x. has_hash a.artifact_key x && may_restage a x)
              (restaged_set to_string now a) (λ x. refl) hash sets,
          restaged_apart hash sets (find_set hash sets) apart refl,
        )
        | inr new ↦
            ground (arith, find_by-append hash_of hash sets (staged_set to_string now a) apart)
      ]

-- The parts of a staging that succeeds.
pub record Staged (to_string : ArtifactMetadata → Text) (now : ℕ) (a : ArtifactUpsert)
    (files : List ArtifactFileInsert) (s s' : Artifacts) : Type 0 where
  pub upserted : upsert_set to_string now a s.sets ≡ ok s'.sets
  pub inserted :
      insert_files files (filter_by (λ f. not (of_set a.artifact_key f)) s.files) ≡ ok s'.files

pub stage_artifact_inner-Staged :
    (to_string : ArtifactMetadata → Text) (now : ℕ) (a : ArtifactUpsert)
    (files : List ArtifactFileInsert) (s s' : Artifacts)
    → stage_artifact_inner to_string now a files s ≡ ok s'
    → Staged to_string now a files s s'
unfolding stage_artifact_inner
stage_artifact_inner-Staged to_string now a files s s' done =
    let (sets', upserted, rest) = >>=-eq-ok (upsert_set to_string now a s.sets) _ done in
    let (stored', inserted, made) =
      >>=-eq-ok (insert_files files (filter_by (λ f. not (of_set a.artifact_key f)) s.files)) _
        rest in
    record { upserted = ground (arith, upserted, made); inserted = ground (arith, inserted, made) }

-- The files that come with a set name that set.
abbrev pub OwnFiles : ArtifactUpsert → List ArtifactFileInsert → Type 0
OwnFiles a files = All (λ (f : ArtifactFileInsert). f.artifact_set_hash ≡ a.artifact_key) files

module _ (hash : Text) (r : ArtifactSetRecord) (kept : List ArtifactFileInsert)
    (made : is_none r.generator_processing_hash ≡ false) (to_string : ArtifactMetadata → Text) where
  pub staged-Keeps :
      (now : ℕ) (a : ArtifactUpsert) (files : List ArtifactFileInsert) (s : Artifacts)
      → OwnFiles a files
      → IsValid s
      → Keeps hash r kept s
      → (o : Result DatabaseError Artifacts) → stage_artifact_inner to_string now a files s ≡ o
      → Keeps hash r kept (or_rolled_back s o)
  staged-Keeps now a files s own v k (err e) done = k
  staged-Keeps now a files s own v k (ok s') done =
      let parts = stage_artifact_inner-Staged to_string now a files s s' done in
      elim (Bool-cases (text_eq a.artifact_key hash)) [
        | inl same ↦ absurd (
            upsert_set-refuses to_string now a s.sets k.row v.sets
              (rw ((text_eq_iff a.artifact_key hash).0 same) k.here)
              (ground (arith, ap (λ (x : ArtifactSetRecord). x.generator_processing_hash) k.same))
              s'.sets parts.upserted)
        | inr apart ↦ record {
          row = k.row;
          here = upsert_set-apart to_string now a hash s.sets s'.sets apart parts.upserted ∙ k.here;
          same = k.same;
          stored =
              insert_files-apart hash a.artifact_key files _ s'.files apart own parts.inserted
              ∙ filter_by-others hash a.artifact_key s.files apart
              ∙ k.stored;
        }
      ]
