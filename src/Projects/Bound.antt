-- ===== src/Projects/Bound.antt =====
-- Over any history of the statements, a request keeps its text, and its recipe once it has one.
use mathlib.Core.Path.{subst}
use mathlib.Core.Option.{some-injective}
use onshape_export.Base.{
  ℕ, ◌≡◌, refl, sym, ap, ◌∙◌, Text, text_eq, text_eq_iff, true, Option, none, some, List, [], ◌∷◌,
  arith, find_by-key, update_where, Result, ok, err, ensure, ensure-eq-ok, >>-eq-ok, >>=-eq-ok,
}
use onshape_export.Artifacts.{DatabaseError}
use onshape_export.Artifacts.Generated.{Prepared, valid_generator_sha256}
use onshape_export.Projects.{
  BambuProjectRequest, Requests, RequestError, has_identity, find_request, fetch_one,
  insert_request, insert_bambu_project_request, may_bind, bound_request, or_recipe,
  record_bambu_project_failure, bind_bambu_project_output, immutable_project_request_conflict,
  invalid_project_output_snapshot, recipe_association_conflict,
}
use onshape_export.Projects.Kept.{
  Operation, request, bind_output, record_failure, or_rolled_back, identity_of, IsValid, Keeps,
  update-IsValid, update-Keeps, insert_request-IsValid, insert_request-Keeps, bound_recipe,
}

module _ (insert_generator_processing_recipe : Prepared → Result DatabaseError (Unit {0})) where
  unfoldable pub run : ℕ → Operation → Requests → Requests
  unfolding insert_bambu_project_request bind_bambu_project_output record_bambu_project_failure
  run now (request identity json) rows =
      or_rolled_back rows (insert_bambu_project_request now identity json rows)
  run now (bind_output identity json prepared snapshot) rows = or_rolled_back rows (
      bind_bambu_project_output insert_generator_processing_recipe now identity json prepared
        snapshot rows)
  run now (record_failure identity category code) rows =
      record_bambu_project_failure now identity category code rows

  unfoldable pub history : List (ℕ × Operation) → Requests → Requests
  unfolding run
  history [] rows = rows
  history ((now, o) ∷ rest) rows = history rest (run now o rows)

  inserted_cases {κ} :
      (P : Requests → Type κ) (now : ℕ) (identity json : Text) (rows : Requests)
      (o : Result RequestError Requests)
      → insert_bambu_project_request now identity json rows ≡ o
      → P rows
      → P (insert_request now identity json rows)
      → P (or_rolled_back rows o)
  unfolding insert_bambu_project_request
  inserted_cases P now identity json rows (err e) done before after = before
  inserted_cases P now identity json rows (ok rows') done before after =
      let (stored, _, rest) =
        >>=-eq-ok (fetch_one (find_request identity (insert_request now identity json rows))) _
          done in
      let (_, made) =
        >>-eq-ok (ensure (text_eq stored.request_json json) immutable_project_request_conflict) _
          rest in
      subst P (ground (arith, made)) after

  bound_cases {κ} :
      (P : Requests → Type κ) (now : ℕ) (identity json : Text) (prepared : Prepared)
      (snapshot : Text) (rows : Requests) (o : Result RequestError Requests)
      → bind_bambu_project_output insert_generator_processing_recipe now identity json prepared
          snapshot rows
        ≡ o
      → P rows
      → ((row : BambuProjectRequest)
          → find_request identity rows ≡ some row
          → may_bind json prepared.processing_hash snapshot row ≡ true
          → P (
              update_where
                (has_identity identity)
                (bound_request now prepared.processing_hash snapshot)
                rows))
      → P (or_rolled_back rows o)
  unfolding bind_bambu_project_output
  bound_cases P now identity json prepared snapshot rows (err e) done before after = before
  bound_cases P now identity json prepared snapshot rows (ok rows') done before after =
      let (_, h1) =
        >>-eq-ok (ensure (valid_generator_sha256 snapshot) invalid_project_output_snapshot) _
          done in
      let (_, h2) = >>-eq-ok (or_recipe (insert_generator_processing_recipe prepared)) _ h1 in
      let (row, fetched, h3) = >>=-eq-ok (fetch_one (find_request identity rows)) _ h2 in
      let (may, made) =
        >>-eq-ok
          (ensure (may_bind json prepared.processing_hash snapshot row) recipe_association_conflict)
          _ h3 in
      subst P (ground (arith, made)) (
        after row (fetch_one-ok (find_request identity rows) row fetched) (
          ensure-eq-ok (may_bind json prepared.processing_hash snapshot row)
            recipe_association_conflict may))
    where
      fetch_one-ok :
          (o : Option BambuProjectRequest) (row : BambuProjectRequest)
          → fetch_one o ≡ ok row
          → o ≡ some row
      fetch_one-ok none row e = absurd (cc e)
      fetch_one-ok (some x) row e = ground (arith, e)

  run-IsValid :
      (now : ℕ) (o : Operation) (rows : Requests) → IsValid rows → IsValid (run now o rows)
  unfolding run record_bambu_project_failure
  run-IsValid now (request identity json) rows v =
      inserted_cases IsValid now identity json rows _ refl v
        (insert_request-IsValid now identity json rows v)
  run-IsValid now (bind_output identity json prepared snapshot) rows v =
      bound_cases IsValid now identity json prepared snapshot rows _ refl v
        (λ row found may. update-IsValid _ _ rows (λ x. refl) (λ x h. refl) v)
  run-IsValid now (record_failure identity category code) rows v =
      update-IsValid _ _ rows (λ x. refl) (λ x h. h) v

  run-Keeps :
      (now : ℕ) (o : Operation) (identity : Text) (r : BambuProjectRequest) (rows : Requests)
      → Keeps identity r rows
      → Keeps identity r (run now o rows)
  unfolding run record_bambu_project_failure
  run-Keeps now (request key json) identity r rows k =
      inserted_cases (Keeps identity r) now key json rows _ refl k
        (insert_request-Keeps now key json identity r rows k)
  run-Keeps now (record_failure key category code) identity r rows k =
      update-Keeps identity r _ _ rows (λ x. refl) k (λ picked. (k.json, k.recipe))
  run-Keeps now (bind_output key json prepared snapshot) identity r rows k =
      bound_cases (Keeps identity r) now key json prepared snapshot rows _ refl k (λ row found may.
        update-Keeps identity r _ _ rows (λ x. refl) k
          (λ picked.
            let keyed : key ≡ identity =
              sym ((text_eq_iff k.row.request_identity key).0 picked)
              ∙ find_by-key identity_of identity rows k.found in
            let same : row ≡ k.row =
              some-injective row k.row
                (sym found ∙ ap (λ h. find_request h rows) keyed ∙ k.found) in
            (
              k.json,
              bound_recipe r k.row json prepared.processing_hash snapshot k.recipe
                  (subst (λ x. may_bind json prepared.processing_hash snapshot x ≡ true) same may),
            )))

  -- From requests with unique identities, each with a recipe and an output snapshot or with neither, among
  -- them a given one, any sequence of requests, bindings, and failure records ends with such requests;
  -- the given one is still there with its text, and when it had a recipe, with that recipe and
  -- that snapshot.
  pub history-Keeps_request :
      (operations : List (ℕ × Operation)) (identity : Text) (r : BambuProjectRequest)
      (rows : Requests)
      → IsValid rows
      → Keeps identity r rows
      → IsValid (history operations rows) × Keeps identity r (history operations rows)
  unfolding history
  history-Keeps_request [] identity r rows v k = (v, k)
  history-Keeps_request ((now, o) ∷ rest) identity r rows v k =
      history-Keeps_request rest identity r (run now o rows) (run-IsValid now o rows v)
        (run-Keeps now o identity r rows k)
