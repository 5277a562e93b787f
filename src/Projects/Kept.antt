-- ===== src/Projects/Kept.antt =====
-- What each statement on the requests keeps: the invariant of the table, and a request that is bound.
use onshape_export.Base.{
  ℕ, ◌≡◌, refl, sym, ap, ◌∙◌, ◌⊎◌, Text, text_eq, text_eq_iff, Bool, true, false, Option, none,
  some, [], ◌∷◌, arith, any, any-find_by, is_none, All, All-append, find_by-append,
  find_by-update_where, changed, update_where, update_where-All, update_where-Distinct,
  Distinct-snoc, HasUniqueKeys, Result, ok, err, if◌then◌else◌, Bool-cases, inl, inr,
}
use onshape_export.Artifacts.Generated.{Prepared}
use onshape_export.Projects.{
  BambuProjectRequest, Requests, RequestError, has_identity, find_request, new_request,
  insert_request, may_be, may_bind,
}

pub data Operation : Type 0 where
  request : Text → Text → Operation
  bind_output : Text → Text → Prepared → Text → Operation
  record_failure : Text → Option Text → Option Text → Operation

-- An error rolls the transaction back.
abbrev pub or_rolled_back : Requests → Result RequestError Requests → Requests
or_rolled_back rows (ok rows') = rows'
or_rolled_back rows (err e) = rows

abbrev pub identity_of : BambuProjectRequest → Text
identity_of r = r.request_identity

-- A recipe and an output snapshot, or neither.
abbrev pub IsPaired : BambuProjectRequest → Type 0
IsPaired r = is_none r.processing_hash ≡ is_none r.output_snapshot_identity

pub record IsValid (rows : Requests) : Type 0 where
  pub unique : HasUniqueKeys identity_of rows
  pub paired : All IsPaired rows

-- The request is there with its text, and with the recipe and the snapshot that it had, if any.
pub record Keeps (identity : Text) (r : BambuProjectRequest) (rows : Requests) : Type 0 where
  pub row : BambuProjectRequest
  pub found : find_request identity rows ≡ some row
  pub json : row.request_json ≡ r.request_json
  pub recipe :
      (is_none r.processing_hash ≡ true)
      ⊎ (row.processing_hash ≡ r.processing_hash)
        × (row.output_snapshot_identity ≡ r.output_snapshot_identity)

pub update-IsValid :
    (p : BambuProjectRequest → Bool) (f : BambuProjectRequest → BambuProjectRequest)
    (rows : Requests)
    → ((x : BambuProjectRequest) → identity_of (f x) ≡ identity_of x)
    → ((x : BambuProjectRequest) → IsPaired x → IsPaired (f x))
    → IsValid rows
    → IsValid (update_where p f rows)
update-IsValid p f rows keeps pairs v = record {
  unique = update_where-Distinct text_eq identity_of p f keeps rows v.unique;
  paired = update_where-All IsPaired p f rows (λ x h picked. pairs x h) v.paired;
}

-- An UPDATE that keeps the text and the recipe of the request.
pub update-Keeps :
    (identity : Text) (r : BambuProjectRequest) (p : BambuProjectRequest → Bool)
    (f : BambuProjectRequest → BambuProjectRequest) (rows : Requests)
    → ((x : BambuProjectRequest) → identity_of (f x) ≡ identity_of x)
    → (k : Keeps identity r rows)
    → (p k.row ≡ true
        → ((f k.row).request_json ≡ r.request_json)
          × ((is_none r.processing_hash ≡ true)
              ⊎ ((f k.row).processing_hash ≡ r.processing_hash)
                × ((f k.row).output_snapshot_identity ≡ r.output_snapshot_identity)))
    → Keeps identity r (update_where p f rows)
update-Keeps identity r p f rows keeps k step = elim (Bool-cases (p k.row)) [
  | inl picked ↦ record {
    row = f k.row;
    found =
        find_by-update_where identity_of p f keeps identity rows
        ∙ ap (changed identity_of p f) k.found
        ∙ ap (λ b. some (if b then f k.row else k.row)) picked;
    json = (step picked).0;
    recipe = (step picked).1;
  }
  | inr passed ↦ record {
    row = k.row;
    found =
        find_by-update_where identity_of p f keeps identity rows
        ∙ ap (changed identity_of p f) k.found
        ∙ ap (λ b. some (if b then f k.row else k.row)) passed;
    json = k.json;
    recipe = k.recipe;
  }
]

pub insert_request-IsValid :
    (now : ℕ) (identity json : Text) (rows : Requests)
    → IsValid rows
    → IsValid (insert_request now identity json rows)
unfolding insert_request
insert_request-IsValid now identity json rows v =
    elim (Bool-cases (any (has_identity identity) rows)) [
      | inl taken ↦ rw taken v
      | inr new ↦ rw new (record {
        unique =
            Distinct-snoc (λ x y. text_eq (identity_of x) (identity_of y)) rows
              (new_request now identity json) v.unique new;
        paired = All-append IsPaired rows (new_request now identity json ∷ []) v.paired (refl, tt);
      })
    ]

pub insert_request-Keeps :
    (now : ℕ) (key json identity : Text) (r : BambuProjectRequest) (rows : Requests)
    → Keeps identity r rows
    → Keeps identity r (insert_request now key json rows)
unfolding insert_request
insert_request-Keeps now key json identity r rows k =
    elim (Bool-cases (any (has_identity key) rows)) [
      | inl taken ↦ rw taken k
      | inr new ↦ elim (Bool-cases (text_eq key identity)) [
        | inl same ↦ absurd (
            let taken = any-find_by identity_of identity rows k.found in
            ground (arith, taken, new, (text_eq_iff key identity).0 same))
        | inr apart ↦ rw new (record {
          row = k.row;
          found =
              find_by-append identity_of identity rows (new_request now key json) apart ∙ k.found;
          json = k.json;
          recipe = k.recipe;
        })
      ]
    ]

may_be-some :
    (expected : Text) (o : Option Text)
    → may_be expected o ≡ true
    → is_none o ≡ false
    → o ≡ some expected
may_be-some expected none h there = absurd (cc there)
may_be-some expected (some value) h there = ap some ((text_eq_iff value expected).0 h)

-- A row that may be bound and that has a recipe has this one, and this snapshot.
may_bind-same :
    (json hash snapshot : Text) (row : BambuProjectRequest)
    → may_bind json hash snapshot row ≡ true
    → is_none row.processing_hash ≡ false
    → (row.processing_hash ≡ some hash) × (row.output_snapshot_identity ≡ some snapshot)
may_bind-same json hash snapshot row h there = (
  may_be-some hash row.processing_hash (ground (arith, h)) there,
  may_be-some snapshot row.output_snapshot_identity (ground (arith, h)) (ground (arith, h, there)),
)

pub bound_recipe :
    (r row : BambuProjectRequest) (json hash snapshot : Text)
    → (is_none r.processing_hash ≡ true)
      ⊎ (row.processing_hash ≡ r.processing_hash)
        × (row.output_snapshot_identity ≡ r.output_snapshot_identity)
    → may_bind json hash snapshot row ≡ true
    → (is_none r.processing_hash ≡ true)
      ⊎ (some hash ≡ r.processing_hash) × (some snapshot ≡ r.output_snapshot_identity)
bound_recipe r row json hash snapshot (inl unbound) may = inl unbound
bound_recipe r row json hash snapshot (inr (same_hash, same_snapshot)) may =
    elim (Bool-cases (is_none r.processing_hash)) [
      | inl unbound ↦ inl unbound
      | inr bound ↦
          let (hashes, snapshots) =
            may_bind-same json hash snapshot row may (ap is_none same_hash ∙ bound) in
          inr (sym hashes ∙ same_hash, sym snapshots ∙ same_snapshot)
    ]
