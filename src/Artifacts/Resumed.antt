-- ===== src/Artifacts/Resumed.antt =====
-- What a staging of a generator's set leaves behind, and that an equal retry finds it.
use mathlib.Core.Path.{subst}
use onshape_export.Base.{
  ℕ, ◌≡◌, refl, sym, ap, ◌∙◌, Text, text_eq, text_eq_iff, true, ◌&&◌, Option, none, some, List, [],
  ◌∷◌, arith, filter_by, Result, ok, ensure, ensure-eq-ok, >>=-ok, >>=-eq-ok,
}
use onshape_export.Artifacts.{
  ArtifactSetRecord, ArtifactFileInsert, ArtifactMetadata, Artifacts, DatabaseError,
  generator_artifact_conflict, find_set,
}
use onshape_export.Artifacts.Staging.{of_set}
use onshape_export.Artifacts.Generated.{
  Recipes, Prepared, Loaded, is_text, load_set, load_generator_artifact, matches, file_matches,
  only_file,
}
use onshape_export.Artifacts.Resuming.{
  GeneratorArtifactStage, GeneratorArtifactFileInsert, GeneratorArtifactState, one_file, fits_stage,
  stage_metadata, stored_file, same_file, generator_set, insert_generator_set, resume_loaded,
  stage_hashed, stage_or_resume_generator_artifact,
}
use onshape_export.Artifacts.Insertion.{
  IsInserted, insert_generator_set-IsInserted, insert_generator_set-again,
}

-- The row and the file that the tables have, and what the caller is told of them.
pub record IsResumed (prepared : Prepared) (a : GeneratorArtifactStage)
    (f : GeneratorArtifactFileInsert) (options hash made : Text) (s' : Artifacts)
    (state : GeneratorArtifactState) : Type 0 where
  pub row : ArtifactSetRecord
  pub found : find_set hash s'.sets ≡ some row
  pub fits : matches prepared options a.output_kind a.format row ≡ true
  pub key : row.primary_object_key ≡ some a.object_key
  pub metadata : row.metadata_json ≡ made
  pub stored : ArtifactFileInsert
  pub only : filter_by (of_set hash) s'.files ≡ stored ∷ []
  pub same : same_file stored f ≡ true
  pub told :
      state ≡ record { artifact_set_hash = hash; status = row.status; updated_at = row.updated_at }

only_file-eq-ok :
    (files : List ArtifactFileInsert) (file : ArtifactFileInsert)
    → only_file files ≡ ok file
    → files ≡ file ∷ []
only_file-eq-ok [] file e = absurd (cc e)
only_file-eq-ok (x ∷ []) file e = ground (arith, e)
only_file-eq-ok (x ∷ y ∷ files) file e = absurd (cc e)

is_text_sound : (s : Text) (o : Option Text) → is_text s o ≡ true → o ≡ some s
is_text_sound s none h = absurd (cc h)
is_text_sound s (some t) h = ap some ((text_eq_iff t s).0 h)

module _ (to_string : ArtifactMetadata → Text) (recipes : Recipes) where
  open recipes use {
    generator_options_hash, generator_artifact_set_hash, verify_persisted_generator_recipe,
    insert_generator_processing_recipe,
  }

  abbrev pub stage_or_resume :
      ℕ
      → Prepared
      → GeneratorArtifactStage
      → List GeneratorArtifactFileInsert
      → Artifacts
      → Result DatabaseError (Artifacts × GeneratorArtifactState)
  stage_or_resume now prepared a files s =
      stage_or_resume_generator_artifact to_string recipes now prepared a files s

  abbrev pub stage_at :
      ℕ
      → Prepared
      → GeneratorArtifactStage
      → GeneratorArtifactFileInsert
      → Text
      → Text
      → Artifacts
      → Result DatabaseError (Artifacts × GeneratorArtifactState)
  stage_at now prepared a f options hash s =
      stage_hashed to_string recipes now prepared a f options hash s

  abbrev load : Prepared → GeneratorArtifactStage → Artifacts → Result DatabaseError Loaded
  load prepared a s = load_generator_artifact recipes prepared a.output_kind a.format s

  abbrev row_of : ℕ → Prepared → GeneratorArtifactStage → Text → Text → ArtifactSetRecord
  row_of now prepared a options hash =
      generator_set now prepared a options hash (to_string (stage_metadata a))

  -- The parts of a staging that succeeds.
  pub record IsTransaction (now : ℕ) (prepared : Prepared) (a : GeneratorArtifactStage)
      (f : GeneratorArtifactFileInsert) (options hash : Text) (s s' : Artifacts)
      (state : GeneratorArtifactState) : Type 0 where
    pub inserted :
        insert_generator_set (row_of now prepared a options hash) (stored_file hash f) s ≡ ok s'
    pub loaded : Loaded
    pub read : load prepared a s' ≡ ok loaded
    pub resumed : resume_loaded a f hash (to_string (stage_metadata a)) s' loaded ≡ ok (s', state)

  resume_loaded-same :
      (a : GeneratorArtifactStage) (f : GeneratorArtifactFileInsert) (hash metadata : Text)
      (s t : Artifacts) (l : Loaded) (state : GeneratorArtifactState)
      → resume_loaded a f hash metadata s l ≡ ok (t, state)
      → s ≡ t
  unfolding resume_loaded
  resume_loaded-same a f hash metadata s t none state e = absurd (cc e)
  resume_loaded-same a f hash metadata s t (some (r, stored)) state e =
      let (_, _, e1) =
        >>=-eq-ok
          (ensure
            (is_text a.object_key r.primary_object_key
              && (text_eq r.metadata_json metadata && same_file stored f))
            generator_artifact_conflict)
          _ e in
      ground (arith, e1)

  stage_hashed-IsTransaction :
      (now : ℕ) (prepared : Prepared) (a : GeneratorArtifactStage) (f : GeneratorArtifactFileInsert)
      (options hash : Text) (s s' : Artifacts) (state : GeneratorArtifactState)
      → stage_at now prepared a f options hash s ≡ ok (s', state)
      → IsTransaction now prepared a f options hash s s' state
  unfolding stage_hashed
  stage_hashed-IsTransaction now prepared a f options hash s s' state done =
      let (t, inserted, e1) =
        >>=-eq-ok (insert_generator_set (row_of now prepared a options hash) (stored_file hash f) s)
          _ done in
      let (l, read, e2) = >>=-eq-ok (load prepared a t) _ e1 in
      let same : t ≡ s' = resume_loaded-same a f hash _ t s' l state e2 in
      record {
        inserted = inserted ∙ ap ok same;
        loaded = l;
        read = subst (λ x. load prepared a x ≡ ok l) same read;
        resumed =
            subst (λ x. resume_loaded a f hash (to_string (stage_metadata a)) x l ≡ ok (s', state))
              same e2;
      }

  stage_hashed-again :
      (now later : ℕ) (prepared : Prepared) (a : GeneratorArtifactStage)
      (f : GeneratorArtifactFileInsert) (options hash : Text) (s s' : Artifacts)
      (state : GeneratorArtifactState)
      → stage_at now prepared a f options hash s ≡ ok (s', state)
      → stage_at later prepared a f options hash s' ≡ ok (s', state)
  unfolding stage_hashed
  stage_hashed-again now later prepared a f options hash s s' state done =
      let parts = stage_hashed-IsTransaction now prepared a f options hash s s' state done in
      let again =
        insert_generator_set-again (row_of now prepared a options hash)
          (row_of later prepared a options hash) (stored_file hash f) s s' refl parts.inserted in
      rw (again, parts.read) parts.resumed

  resume_loaded-IsResumed :
      (prepared : Prepared) (a : GeneratorArtifactStage) (f : GeneratorArtifactFileInsert)
      (options hash made : Text) (s : Artifacts) (state : GeneratorArtifactState) (l : Loaded)
      (o : Option ArtifactSetRecord)
      → o ≡ find_set hash s.sets
      → load_set recipes prepared options hash a.output_kind a.format s o ≡ ok l
      → resume_loaded a f hash made s l ≡ ok (s, state)
      → IsResumed prepared a f options hash made s state
  unfolding load_set resume_loaded
  resume_loaded-IsResumed prepared a f options hash made s state none o at read resumed =
      absurd (cc resumed)
  resume_loaded-IsResumed prepared a f options hash made s state (some (r, stored)) none at read
        resumed =
      absurd (cc read)
  resume_loaded-IsResumed prepared a f options hash made s state (some (r, stored)) (some x) at read
        resumed =
      let (_, fits, e1) =
        >>=-eq-ok (ensure (matches prepared options a.output_kind a.format x) _) _ read in
      let (_, _, e2) = >>=-eq-ok (verify_persisted_generator_recipe prepared) _ e1 in
      let (file, one, e3) = >>=-eq-ok (only_file (filter_by (of_set hash) s.files)) _ e2 in
      let (_, _, e4) = >>=-eq-ok (ensure (file_matches prepared x file) _) _ e3 in
      let (_, same, e5) =
        >>=-eq-ok
          (ensure
            (is_text a.object_key r.primary_object_key
              && (text_eq r.metadata_json made && same_file stored f))
            generator_artifact_conflict)
          _ resumed in
      let row : x ≡ r = ground (arith, e4) in
      let offered = ensure-eq-ok _ generator_artifact_conflict same in
      record {
        row = r;
        found = sym at ∙ ap some row;
        fits =
            subst (λ y. matches prepared options a.output_kind a.format y ≡ true) row
              (ensure-eq-ok _ generator_artifact_conflict fits);
        key = is_text_sound a.object_key r.primary_object_key (ground (arith, offered));
        metadata = (text_eq_iff r.metadata_json made).0 (ground (arith, offered));
        stored = stored;
        only = only_file-eq-ok _ stored (one ∙ ground (arith, e4));
        same = ground (arith, offered);
        told = ground (arith, e5);
      }

  stage_hashed-IsResumed :
      (now : ℕ) (prepared : Prepared) (a : GeneratorArtifactStage) (f : GeneratorArtifactFileInsert)
      (options hash : Text) (s s' : Artifacts) (state : GeneratorArtifactState)
      → generator_options_hash prepared a.format ≡ ok options
      → generator_artifact_set_hash prepared a.output_kind a.format ≡ ok hash
      → stage_at now prepared a f options hash s ≡ ok (s', state)
      → IsResumed prepared a f options hash (to_string (stage_metadata a)) s' state
  unfolding load_generator_artifact
  stage_hashed-IsResumed now prepared a f options hash s s' state opts hashed done =
      let parts = stage_hashed-IsTransaction now prepared a f options hash s s' state done in
      let (options', opts', e1) =
        >>=-eq-ok (generator_options_hash prepared a.format) _ parts.read in
      let (hash', hashed', e2) =
        >>=-eq-ok (generator_artifact_set_hash prepared a.output_kind a.format) _ e1 in
      let same_options : options' ≡ options = ground (arith, opts, opts') in
      let same_hash : hash' ≡ hash = ground (arith, hashed, hashed') in
      resume_loaded-IsResumed prepared a f options hash _ s' state parts.loaded _ refl
        (subst
          (λ o.
            load_set recipes prepared o hash a.output_kind a.format s' (find_set hash s'.sets)
            ≡ ok parts.loaded)
          same_options
          (subst
            (λ h.
              load_set recipes prepared options' h a.output_kind a.format s' (find_set h s'.sets)
              ≡ ok parts.loaded)
            same_hash e2))
        parts.resumed

  -- What came before the transaction.
  record IsFront (now : ℕ) (prepared : Prepared) (a : GeneratorArtifactStage)
      (files : List GeneratorArtifactFileInsert) (s : Artifacts)
      (o : Result DatabaseError (Artifacts × GeneratorArtifactState)) : Type 0 where
    supported : ensure prepared.is_supported generator_artifact_conflict ≡ ok tt
    f : GeneratorArtifactFileInsert
    one : one_file files ≡ ok f
    fits : ensure (fits_stage prepared a f) generator_artifact_conflict ≡ ok tt
    recorded : insert_generator_processing_recipe prepared ≡ ok tt
    options : Text
    opts : generator_options_hash prepared a.format ≡ ok options
    hash : Text
    hashed : generator_artifact_set_hash prepared a.output_kind a.format ≡ ok hash
    rest : stage_at now prepared a f options hash s ≡ o

  stage_or_resume_generator_artifact-IsFront :
      (now : ℕ) (prepared : Prepared) (a : GeneratorArtifactStage)
      (files : List GeneratorArtifactFileInsert) (s s' : Artifacts) (state : GeneratorArtifactState)
      → stage_or_resume now prepared a files s ≡ ok (s', state)
      → IsFront now prepared a files s (ok (s', state))
  unfolding stage_or_resume_generator_artifact
  stage_or_resume_generator_artifact-IsFront now prepared a files s s' state done =
      let (_, supported, e1) =
        >>=-eq-ok (ensure prepared.is_supported generator_artifact_conflict) _ done in
      let (f, one, e2) = >>=-eq-ok (one_file files) _ e1 in
      let (_, fits, e3) =
        >>=-eq-ok (ensure (fits_stage prepared a f) generator_artifact_conflict) _ e2 in
      let (_, recorded, e4) = >>=-eq-ok (insert_generator_processing_recipe prepared) _ e3 in
      let (options, opts, e5) = >>=-eq-ok (generator_options_hash prepared a.format) _ e4 in
      let (hash, hashed, e6) =
        >>=-eq-ok (generator_artifact_set_hash prepared a.output_kind a.format) _ e5 in
      record {
        supported = supported;
        f = f;
        one = one;
        fits = fits;
        recorded = recorded;
        options = options;
        opts = opts;
        hash = hash;
        hashed = hashed;
        rest = e6;
      }

  -- A staging or resumption that succeeds tells the state of the set; when it is repeated at any time
  -- on the tables it leaves behind, it succeeds again, tells the same state, and changes nothing.
  pub stage_or_resume_generator_artifact-again :
      (now later : ℕ) (prepared : Prepared) (a : GeneratorArtifactStage)
      (files : List GeneratorArtifactFileInsert) (s s' : Artifacts) (state : GeneratorArtifactState)
      → stage_or_resume now prepared a files s ≡ ok (s', state)
      → stage_or_resume later prepared a files s' ≡ ok (s', state)
  unfolding stage_or_resume_generator_artifact
  stage_or_resume_generator_artifact-again now later prepared a files s s' state done =
      let front = stage_or_resume_generator_artifact-IsFront now prepared a files s s' state done in
      >>=-ok _ front.supported (
        >>=-ok _ front.one (
          >>=-ok _ front.fits (
            >>=-ok _ front.recorded (
              >>=-ok _ front.opts (
                >>=-ok _ front.hashed (
                  stage_hashed-again now later prepared a front.f front.options front.hash s s'
                    state front.rest))))))

  -- A staging or resumption that succeeds was offered one file that fits the recipe. Either the hash
  -- of the set was taken and the tables stay, or one row and its file were added at the end, and
  -- nothing else changed. Then the row under the hash has the columns of the recipe and the offered
  -- object key and metadata, its one file is the offered one, and the state told is that of the row.
  pub stage_or_resume_generator_artifact-IsResumed :
      (now : ℕ) (prepared : Prepared) (a : GeneratorArtifactStage)
      (files : List GeneratorArtifactFileInsert) (s s' : Artifacts) (state : GeneratorArtifactState)
      → stage_or_resume now prepared a files s ≡ ok (s', state)
      → (f : GeneratorArtifactFileInsert) × (options : Text) × (hash : Text) × (one_file files
          ≡ ok f)
        × (fits_stage prepared a f ≡ true)
        × (generator_options_hash prepared a.format ≡ ok options)
        × (generator_artifact_set_hash prepared a.output_kind a.format ≡ ok hash)
        × IsInserted (row_of now prepared a options hash) (stored_file hash f) s s'
        × IsResumed prepared a f options hash (to_string (stage_metadata a)) s' state
  stage_or_resume_generator_artifact-IsResumed now prepared a files s s' state done =
      let front = stage_or_resume_generator_artifact-IsFront now prepared a files s s' state done in
      (
        front.f,
        front.options,
        front.hash,
        front.one,
        ensure-eq-ok _ generator_artifact_conflict front.fits,
        front.opts,
        front.hashed,
        insert_generator_set-IsInserted _ _ s s'
            (stage_hashed-IsTransaction now prepared a front.f front.options front.hash s s' state
              front.rest).inserted,
        stage_hashed-IsResumed now prepared a front.f front.options front.hash s s' state front.opts
            front.hashed front.rest,
      )
