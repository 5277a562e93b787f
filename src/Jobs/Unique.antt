-- ===== src/Jobs/Unique.antt =====
-- What unique work keys and ids give: a row is found by its key, and an id names one row.
use onshape_export.Base.{
  ◌≡◌, refl, Text, text_eq, text_eq_refl, Bool, true, false, some, List, [], ◌∷◌, arith, ◌==◌,
  if◌then◌else◌, All, All-map,
}
use onshape_export.Jobs.{Job, has_key}
use onshape_export.Jobs.View.{find_job, HasUniqueKeys, HasUniqueIds}

pub find_job-All :
    (P : Job → Type 0) (key : Text) (rows : List Job) (j : Job)
    → find_job key rows ≡ some j
    → All P rows
    → P j
unfolding find_job
find_job-All P key [] j e h = cc
find_job-All P key (k ∷ rows) j e h = pick (has_key key k) e (λ f. find_job-All P key rows j f h.1)
  where
    pick :
        (b : Bool)
        → (if b then some k else find_job key rows) ≡ some j
        → (find_job key rows ≡ some j → P j)
        → P j
    pick true f later = let same : j ≡ k = ground arith in rw same h.0
    pick false f later = later f

found_behind :
    (k : Job) (rows : List Job) (ys : List Job)
    → All (λ y. text_eq k.work_key y.work_key ≡ false) ys
    → All (λ y. find_job y.work_key rows ≡ some y) ys
    → All (λ y. find_job y.work_key (k ∷ rows) ≡ some y) ys
unfolding find_job
found_behind k rows [] apart h = tt
found_behind k rows (y ∷ ys) apart h =
    (ground (arith, apart.0, h.0), found_behind k rows ys apart.1 h.1)

pub rows_are_found :
    (rows : List Job) → HasUniqueKeys rows → All (λ j. find_job j.work_key rows ≡ some j) rows
rows_are_found [] h = tt
rows_are_found (k ∷ rows) h = (
  unfold find_job in ground (arith, text_eq_refl k.work_key),
  found_behind k rows rows h.0 (rows_are_found rows h.1),
)

abbrev IdNames : List Job → Job → Type 0
IdNames rows x = All (λ y. (x.id == y.id) ≡ true → x ≡ y) rows

IdNames-behind :
    (k : Job) (rows ys : List Job)
    → All (λ y. (k.id == y.id) ≡ false) ys
    → All (IdNames rows) ys
    → All (IdNames (k ∷ rows)) ys
IdNames-behind k rows [] apart h = tt
IdNames-behind k rows (y ∷ ys) apart h =
    ((λ e. ground (arith, apart.0), h.0), IdNames-behind k rows ys apart.1 h.1)

ids_name_rows : (rows : List Job) → HasUniqueIds rows → All (IdNames rows) rows
ids_name_rows [] h = tt
ids_name_rows (k ∷ rows) h = (
  (λ _. refl, All-map _ _ rows (λ y apart e. cc) h.0),
  IdNames-behind k rows rows h.0 (ids_name_rows rows h.1),
)

-- Two rows that are found and share an id are one row.
pub same_id :
    (rows : List Job) (a b : Text) (x y : Job)
    → HasUniqueIds rows
    → find_job a rows ≡ some x
    → find_job b rows ≡ some y
    → (x.id == y.id) ≡ true
    → x ≡ y
same_id rows a b x y h found_x found_y =
    find_job-All (λ y. (x.id == y.id) ≡ true → x ≡ y) b rows y found_y
      (find_job-All (IdNames rows) a rows x found_x (ids_name_rows rows h))
