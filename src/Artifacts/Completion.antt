-- ===== src/Artifacts/Completion.antt =====
-- Completion of a generator's set: it becomes the one ready set of its output, and checks that
-- observed it before can no longer withdraw it.
use mathlib.Core.Path.{subst}
use onshape_export.Base.{
  Bool-cases, inl, inr, text_eq, ℕ, ◌≡◌, ◌≤◌, refl, sym, ap, ◌∙◌, Text, text_eq_refl, Bool, true,
  false, ◌&&◌, ◌||◌, Option, none, some, List, [], ◌∷◌, ◌==◌, arith, filter_by, All, affected_none,
  update_where, update_where_none, changed, find_by-update_where, find_by-key, All-find_by, Result,
  ok, ensure, ensure-eq-ok, ◌>>=◌, >>=-eq-ok,
}
use onshape_export.Artifacts.{
  ready, upload_failed, ArtifactSetRecord, ArtifactFileInsert, Artifacts, DatabaseError,
  generator_artifact_conflict, has_hash, has_status, find_set, superseded_set, is_replaced,
}
use onshape_export.Artifacts.Staging.{of_set}
use onshape_export.Artifacts.Generated.{
  Recipes, Prepared, Loaded, load_set, matches, file_matches, only_file,
  fail_ready_generator_verification, is_observed, make_ready, advanced, load_generator_artifact,
  complete_loaded, complete_generator_artifact, is_pending, is_live, replaced_reason,
}
use onshape_export.Artifacts.Operations.{IsValid}
use onshape_export.Artifacts.Uniqueness.{make_ready-IsValid}

abbrev hash_of : ArtifactSetRecord → Text
hash_of r = r.artifact_set_hash

cleared :
    (p : ArtifactSetRecord → Bool) (f : ArtifactSetRecord → ArtifactSetRecord)
    → ((x : ArtifactSetRecord) → p (f x) ≡ false)
    → (xs : List ArtifactSetRecord) → All (λ x. p x ≡ false) (update_where p f xs)
unfolding update_where
cleared p f h [] = tt
cleared p f h (x ∷ xs) = (ground (arith, h x), cleared p f h xs)

-- The set under the hash is ready, and no other set of its output is.
pub record IsOnlyReady (now : ℕ) (hash kind : Text) (r : ArtifactSetRecord) (s : Artifacts)
    : Type 0 where
  pub here : find_set hash s.sets ≡ some (advanced now ready r)
  pub others :
      All (λ x. is_replaced r.source_hash r.config_hash r.options_hash kind hash x ≡ false) s.sets

pub make_ready-IsOnlyReady :
    (now : ℕ) (hash kind : Text) (r : ArtifactSetRecord) (s : Artifacts)
    → find_set hash s.sets ≡ some r
    → is_pending r && is_live r ≡ true
    → IsOnlyReady now hash kind r (make_ready now hash kind r s)
unfolding make_ready
make_ready-IsOnlyReady now hash kind r s found pending = record {
  here =
      find_by-update_where hash_of
        (is_replaced r.source_hash r.config_hash r.options_hash kind hash)
        (superseded_set now (some hash) (some replaced_reason)) (λ x. refl) hash _
      ∙ ap
          (changed hash_of (is_replaced r.source_hash r.config_hash r.options_hash kind hash)
            (superseded_set now (some hash) (some replaced_reason)))
          (find_by-update_where hash_of (λ x. has_hash hash x && (is_pending x && is_live x))
              (advanced now ready) (λ x. refl) hash s.sets
            ∙ ap
                (changed hash_of (λ x. has_hash hash x && (is_pending x && is_live x))
                  (advanced now ready))
                found)
      ∙ ground (arith, find_by-key hash_of hash s.sets found, text_eq_refl hash);
  others = cleared _ _ (λ x. ground arith) _;
}

-- Once the row has moved on, the version that an earlier check observed is not there.
pub moved_on :
    (now hash : _) (expected : ℕ) (s : Artifacts) (row : ArtifactSetRecord)
    → IsValid s
    → find_set hash s.sets ≡ some row
    → (row.updated_at == expected) ≡ false
    → fail_ready_generator_verification now hash expected s ≡ (s, false)
unfolding fail_ready_generator_verification
moved_on now hash expected s row v found later =
    let none_picked =
      affected_none (λ x. has_hash hash x && is_observed expected x) s.sets
        (All-find_by hash_of (is_observed expected) hash s.sets v.sets
          (λ x e. ground (arith, found))) in
    ground (
      arith,
      none_picked,
      update_where_none (λ x. has_hash hash x && is_observed expected x)
          (advanced now upload_failed) s.sets none_picked,
    )

module _ (recipes : Recipes) (prepared : Prepared) (kind format hash : Text)
    (hashed : recipes.generator_artifact_set_hash prepared kind format ≡ ok hash) where
  open recipes use {
    generator_options_hash, generator_artifact_set_hash, verify_persisted_generator_recipe,
  }

  abbrev load : Artifacts → Result DatabaseError Loaded
  load s = load_generator_artifact recipes prepared kind format s

  abbrev complete : ℕ → Text → Artifacts → Result DatabaseError (Artifacts × Bool)
  complete now object_key s =
      complete_generator_artifact recipes now prepared kind format object_key s

  set_loaded :
      (options hash : Text) (s : Artifacts) (o : Option ArtifactSetRecord) (r : ArtifactSetRecord)
      (file : ArtifactFileInsert)
      → load_set recipes prepared options hash kind format s o ≡ ok (some (r, file))
      → (o ≡ some r) × (matches prepared options kind format r ≡ true)
  unfolding load_set
  set_loaded options hash s none r file e = absurd (cc e)
  set_loaded options hash s (some x) r file e =
      let (_, fits, e1) = >>=-eq-ok (ensure (matches prepared options kind format x) _) _ e in
      let (_, _, e2) = >>=-eq-ok (verify_persisted_generator_recipe prepared) _ e1 in
      let (found, _, e3) = >>=-eq-ok (only_file (filter_by (of_set hash) s.files)) _ e2 in
      let (_, _, e4) = >>=-eq-ok (ensure (file_matches prepared x found) _) _ e3 in
      let same : x ≡ r = ground (arith, e4) in
      (
        ap some same,
        rw (sym same) (
            ensure-eq-ok (matches prepared options kind format x) generator_artifact_conflict fits),
      )

  loaded :
      (s : Artifacts) (r : ArtifactSetRecord) (file : ArtifactFileInsert)
      → load s ≡ ok (some (r, file))
      → (find_set hash s.sets ≡ some r)
        × ((is_pending r || has_status ready r.status) && is_live r ≡ true)
  unfolding load_generator_artifact
  loaded s r file e =
      let (options, _, e1) = >>=-eq-ok (generator_options_hash prepared format) _ e in
      let (hash', at, e2) = >>=-eq-ok (generator_artifact_set_hash prepared kind format) _ e1 in
      let same : hash' ≡ hash = ground (arith, at) in
      let (here, fits) = set_loaded options hash' s (find_set hash' s.sets) r file e2 in
      (ap (λ h. find_set h s.sets) (sym same) ∙ here, ground (arith, fits))

  completed :
      (now : ℕ) (s : Artifacts) (r : ArtifactSetRecord) (file : ArtifactFileInsert)
      → load s ≡ ok (some (r, file))
      → has_status ready r.status ≡ false
      → complete now file.object_key s ≡ ok (make_ready now hash kind r s, true)
  unfolding complete_generator_artifact complete_loaded
  completed now s r file e pending =
      ap
        (λ (h : Result DatabaseError Text).
          h >>= λ key. load s >>= complete_loaded now key kind file.object_key s)
        hashed
      ∙ ap (λ l. l >>= complete_loaded now hash kind file.object_key s) e
      ∙ ground (arith, text_eq_refl file.object_key)

  -- When the set of a prepared recipe is loaded while it is pending, and its file has the given object
  -- key, then its completion succeeds: the set is ready, its update time has moved on, and no
  -- other set with the same source, configuration, options, and output kind is ready.
  pub complete_generator_artifact-IsOnlyReady :
      (now : ℕ) (s : Artifacts) (r : ArtifactSetRecord) (file : ArtifactFileInsert)
      → load s ≡ ok (some (r, file))
      → has_status ready r.status ≡ false
      → (s' : Artifacts) × (complete now file.object_key s ≡ ok (s', true))
        × IsOnlyReady now hash kind r s'
  complete_generator_artifact-IsOnlyReady now s r file e pending =
      let (found, live) = loaded s r file e in
      (
        make_ready now hash kind r s,
        completed now s r file e pending,
        make_ready-IsOnlyReady now hash kind r s found (ground (arith, live)),
      )

  -- On valid tables, when the set of a prepared recipe is loaded while it is pending, and its file has
  -- the given object key, then its completion succeeds, and after it a check that observed the set
  -- at its earlier update time, or before it, does not withdraw it: the statement reports that
  -- nothing was withdrawn, and changes nothing.
  pub complete_generator_artifact-fences :
      (now later expected : ℕ) (s : Artifacts) (r : ArtifactSetRecord) (file : ArtifactFileInsert)
      → IsValid s
      → load s ≡ ok (some (r, file))
      → has_status ready r.status ≡ false
      → expected ≤ r.updated_at
      → (s' : Artifacts) × (complete now file.object_key s ≡ ok (s', true))
        × (fail_ready_generator_verification later hash expected s' ≡ (s', false))
  complete_generator_artifact-fences now later expected s r file v e pending old =
      let (found, live) = loaded s r file e in
      let only = make_ready-IsOnlyReady now hash kind r s found (ground (arith, live)) in
      (
        make_ready now hash kind r s,
        completed now s r file e pending,
        moved_on later hash expected (make_ready now hash kind r s) (advanced now ready r)
            (make_ready-IsValid now hash kind r s v) only.here (ground arith),
      )

  loaded_ready :
      (now : ℕ) (object_key : Text) (s s' : Artifacts) (l : Loaded)
      → load s ≡ ok l
      → complete_loaded now hash kind object_key s l ≡ ok (s', true)
      → (row : ArtifactSetRecord) × (find_set hash s'.sets ≡ some row)
        × (has_status ready row.status ≡ true)
  unfolding complete_loaded
  loaded_ready now object_key s s' none read done = absurd (cc done)
  loaded_ready now object_key s s' (some (r, file)) read done =
      let (found, live) = loaded s r file read in
      let (_, _, rest) = >>=-eq-ok (ensure (text_eq file.object_key object_key) _) _ done in
      elim (Bool-cases (has_status ready r.status)) [
        | inl already ↦ (r, ground (arith, rest, already, found), already)
        | inr pending ↦
            let made : make_ready now hash kind r s ≡ s' = ground (arith, rest, pending) in
            let only =
              make_ready-IsOnlyReady now hash kind r s found (ground (arith, live, pending)) in
            (
              advanced now ready r,
              ap (λ (t : Artifacts). find_set hash t.sets) (sym made) ∙ only.here,
              refl,
            )
      ]

  -- A completion that reports success leaves the set ready.
  pub complete_generator_artifact-ready :
      (now : ℕ) (object_key : Text) (s s' : Artifacts)
      → complete now object_key s ≡ ok (s', true)
      → (row : ArtifactSetRecord) × (find_set hash s'.sets ≡ some row)
        × (has_status ready row.status ≡ true)
  unfolding complete_generator_artifact
  complete_generator_artifact-ready now object_key s s' done =
      let (hash', at, rest) = >>=-eq-ok (generator_artifact_set_hash prepared kind format) _ done in
      let (l, read, last) = >>=-eq-ok (load s) _ rest in
      let same : hash' ≡ hash = ground (arith, at) in
      loaded_ready now object_key s s' l read
        (subst (λ h. complete_loaded now h kind object_key s l ≡ ok (s', true)) same last)
