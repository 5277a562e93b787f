-- ===== src/Jobs/View.antt =====
-- The queue as a map from work keys to jobs, and what an UPDATE does to it.
use onshape_export.Base.{
  ℕ, ◌≡◌, refl, Text, text_eq, text_eq_iff, Bool, true, false, ◌&&◌, Option, none, some, List, [],
  ◌∷◌, arith, ◌==◌, if◌then◌else◌, All, Distinct, update_where, affected, affected_none,
}
use onshape_export.Jobs.{Job, Queue, has_key}

-- SELECT ... FROM jobs WHERE work_key = ?
unfoldable pub find_job : Text → List Job → Option Job
find_job key [] = none
find_job key (j ∷ js) = let later = find_job key js in if has_key key j then some j else later

unfoldable pub job : Text → Queue → Option Job
job key q = find_job key q.rows

-- `work_key TEXT NOT NULL UNIQUE`
abbrev pub HasUniqueKeys : List Job → Type 0
HasUniqueKeys rows = Distinct (λ a b. text_eq a.work_key b.work_key) rows

-- `id INTEGER PRIMARY KEY`
abbrev pub HasUniqueIds : List Job → Type 0
HasUniqueIds rows = Distinct (λ a b. a.id == b.id) rows

abbrev pub selected : (Job → Bool) → (Job → Job) → Option Job → Option Job
selected p f none = none
selected p f (some j) = some (if p j then f j else j)

abbrev pub count_if : (Job → Bool) → Option Job → ℕ
count_if p none = 0
count_if p (some j) = if p j then 1 else 0

module _ (p : Job → Bool) (f : Job → Job) (keeps : (j : Job) → (f j).work_key ≡ j.work_key) where
  pub find_job-update_where :
      (key : Text) (rows : List Job)
      → find_job key (update_where p f rows) ≡ selected p f (find_job key rows)
  unfolding find_job update_where
  find_job-update_where key [] = refl
  find_job-update_where key (j ∷ js) = ground (arith, keeps j, find_job-update_where key js)

others_untouched :
    (key : Text) (g : Job → Bool) (j : Job) (rows : List Job)
    → has_key key j ≡ true
    → All (λ k. text_eq j.work_key k.work_key ≡ false) rows
    → All (λ k. (has_key key k && g k) ≡ false) rows
others_untouched key g j [] e h = tt
others_untouched key g j (k ∷ rows) e h = (
  ground (
    arith,
    text_eq_iff j.work_key key,
    text_eq_iff k.work_key key,
    text_eq_iff j.work_key k.work_key,
    h.0,
  ),
  others_untouched key g j rows e h.1,
)

-- An UPDATE that names a key counts the one row of that key, if its other conditions hold.
pub affected-has_key :
    (key : Text) (g : Job → Bool) (rows : List Job)
    → HasUniqueKeys rows
    → affected (λ j. has_key key j && g j) rows ≡ count_if g (find_job key rows)
unfolding affected find_job
affected-has_key key g [] h = refl
affected-has_key key g (j ∷ rows) h = ground (
  arith,
  affected-has_key key g rows h.1,
  λ (e : has_key key j ≡ true).
      affected_none (λ k. has_key key k && g k) rows (others_untouched key g j rows e h.0),
)

pub find_job_has_key :
    (key : Text) (rows : List Job) {j : Job} → find_job key rows ≡ some j → j.work_key ≡ key
unfolding find_job
find_job_has_key key [] e = cc
find_job_has_key key (k ∷ rows) {j} e =
    ground (arith, text_eq_iff k.work_key key, find_job_has_key key rows {j = j})
