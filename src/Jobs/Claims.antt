-- ===== src/Jobs/Claims.antt =====
-- Which job `claim_next_job` takes, and what it does to the table.
use mathlib.Core.Path.{subst₂}
use mathlib.Core.Option.{some-injective}
use onshape_export.Base.{
  ℕ, ◌≡◌, sym, ap, ◌∙◌, ◌↔◌, ◌≢◌, ◌⊎◌, inl, inr, refl, Text, true, false, Option, none, some, List,
  [], ◌∷◌, arith, ◌==◌, All, All-map, update_where, Bool-cases, Option-cases,
}
use onshape_export.Jobs.{
  Job, Queue, JobLease, is_due, comes_before, next_due, claimed, claim_row, lease_of,
  claim_next_job,
}
use onshape_export.Jobs.View.{selected, find_job_has_key, find_job, job, find_job-update_where}
use onshape_export.Jobs.Consistency.{IsValid}
use onshape_export.Jobs.Unique.{rows_are_found, same_id}

comes_before_asym : (a b : Job) → comes_before a b ≡ true → comes_before b a ≡ false
unfolding comes_before
comes_before_asym a b h = ground arith

comes_before_irrefl : (a : Job) → comes_before a a ≡ false
unfolding comes_before
comes_before_irrefl a = ground arith

-- `comes_before` is a strict weak order: not coming before is transitive.
comes_before_trans :
    (a b c : Job) → comes_before a b ≡ false → comes_before b c ≡ false → comes_before a c ≡ false
unfolding comes_before
comes_before_trans a b c h k = ground arith

-- How `next_due` comes to its row at one step.
data Picked (now : ℕ) (k : Job) (rows : List Job) (j : Job) : Type 0 where
  only : is_due now k ≡ true → next_due now rows ≡ none → j ≡ k → Picked now k rows j
  this :
      (m : Job)
      → is_due now k ≡ true
      → next_due now rows ≡ some m
      → comes_before m k ≡ false
      → j ≡ k
      → Picked now k rows j
  later :
      next_due now rows ≡ some j
      → (is_due now k ≡ false) ⊎ (comes_before j k ≡ true)
      → Picked now k rows j

next_due-Picked :
    (now : ℕ) (k : Job) (rows : List Job) (j : Job)
    → next_due now (k ∷ rows) ≡ some j
    → Picked now k rows j
unfolding next_due
next_due-Picked now k rows j e = elim (Bool-cases (is_due now k)) [
  | inr idle ↦ later (ground arith) (inl idle)
  | inl due ↦ elim (Option-cases (next_due now rows)) [
    | inl none_later ↦ only due none_later (ground arith)
    | inr (m, found) ↦ elim (Bool-cases (comes_before m k)) [
      | inl before ↦ later (ground arith) (inr (ground arith))
      | inr after ↦ this m due found after (ground arith)
    ]
  ]
]

-- What holds of every row holds of the row that is picked.
pub next_due-All :
    (P : Job → Type 0) (now : ℕ) (rows : List Job) (j : Job)
    → next_due now rows ≡ some j
    → All P rows
    → P j
next_due-All P now [] j e h = absurd (unfold next_due in cc)
next_due-All P now (k ∷ rows) j e h = elim (next_due-Picked now k rows j e) [
  | only due none_later same ↦ rw same h.0
  | this m due found after same ↦ rw same h.0
  | later found why ↦ next_due-All P now rows j found h.1
]

pub next_due-is_due :
    (now : ℕ) (rows : List Job) (j : Job) → next_due now rows ≡ some j → is_due now j ≡ true
next_due-is_due now [] j e = absurd (unfold next_due in cc)
next_due-is_due now (k ∷ rows) j e = elim (next_due-Picked now k rows j e) [
  | only due none_later same ↦ rw same due
  | this m due found after same ↦ rw same due
  | later found why ↦ next_due-is_due now rows j found
]

abbrev pub IsFirst : ℕ → List Job → Job → Type 0
IsFirst now rows j = All (λ k. is_due now k ≡ true → comes_before k j ≡ false) rows

pub next_due-none :
    (now : ℕ) (rows : List Job) → next_due now rows ≡ none → All (λ k. is_due now k ≡ false) rows
unfolding next_due
next_due-none now [] e = tt
next_due-none now (k ∷ rows) e = (ground arith, next_due-none now rows (ground arith))

-- No due row comes before the row that is picked.
pub next_due-IsFirst :
    (now : ℕ) (rows : List Job) (j : Job) → next_due now rows ≡ some j → IsFirst now rows j
next_due-IsFirst now [] j e = tt
next_due-IsFirst now (k ∷ rows) j e = elim (next_due-Picked now k rows j e) [
  | only due none_later same ↦ (
    λ _. rw same (comes_before_irrefl k),
    All-map _ _ rows (λ x idle is_due_x. cc) (next_due-none now rows none_later),
  )
  | this m due found after same ↦ (
    λ _. rw same (comes_before_irrefl k),
    All-map _ _ rows (λ x first is_due_x. rw same (comes_before_trans x m k (first is_due_x) after))
        (next_due-IsFirst now rows m found),
  )
  | later found why ↦ (
    λ due. elim why [ inl idle ↦ cc | inr before ↦ comes_before_asym j k before ],
    next_due-IsFirst now rows j found,
  )
]

-- What a claim does: the job that it takes, the lease that it hands out, and the table after it.
pub record IsClaim (now seconds : ℕ) (q q' : Queue) (l : JobLease) : Type 0 where
  pub taken : Job
  pub stood : job l.work_key q ≡ some taken
  pub due : is_due now taken ≡ true
  pub first : IsFirst now q.rows taken
  pub lease : l ≡ lease_of (claimed now seconds taken)
  pub stands : job l.work_key q' ≡ some (claimed now seconds taken)
  pub others : (key : Text) → key ≢ l.work_key → job key q' ≡ job key q

selected_by_id :
    (now seconds id : ℕ) (key : Text) (rows : List Job)
    → find_job key (update_where (λ k. k.id == id) (claimed now seconds) rows)
      ≡ selected (λ k. k.id == id) (claimed now seconds) (find_job key rows)
selected_by_id now seconds id key rows = find_job-update_where _ _ (λ k. refl) key rows

-- Another key names another row, so another id.
another_id :
    (q : Queue) (j x : Job) (key : Text)
    → IsValid q
    → find_job j.work_key q.rows ≡ some j
    → key ≢ j.work_key
    → find_job key q.rows ≡ some x
    → (x.id == j.id) ≡ false
another_id q j x key v found other there = elim (Bool-cases (x.id == j.id)) [
  | inr apart ↦ apart
  | inl shared ↦
      let same = same_id q.rows key j.work_key x j v.ids there found shared in
      absurd (other (sym (find_job_has_key key q.rows there) ∙ ap (λ (y : Job). y.work_key) same))
]

claim_keeps_others :
    (now seconds : ℕ) (q : Queue) (j : Job) (key : Text)
    → IsValid q
    → find_job j.work_key q.rows ≡ some j
    → key ≢ j.work_key
    → find_job key (update_where (λ k. k.id == j.id) (claimed now seconds) q.rows)
      ≡ find_job key q.rows
claim_keeps_others now seconds q j key v found other = elim (Option-cases (find_job key q.rows)) [
  | inl missing ↦ ground (arith, selected_by_id now seconds j.id key q.rows)
  | inr (x, there) ↦
      ground (
        arith,
        selected_by_id now seconds j.id key q.rows,
        another_id q j x key v found other there,
      )
]

claim_row_lem :
    (now seconds : ℕ) (q : Queue) (j : Job)
    → IsValid q
    → next_due now q.rows ≡ some j
    → IsClaim now seconds q
        (record q { rows = update_where (λ k. k.id == j.id) (claimed now seconds) q.rows })
        (lease_of (claimed now seconds j))
claim_row_lem now seconds q j v picked = record {
  taken = j;
  stood = unfold job in found;
  due = next_due-is_due now q.rows j picked;
  first = next_due-IsFirst now q.rows j picked;
  lease = refl;
  stands = unfold job in ground (arith, selected_by_id now seconds j.id j.work_key q.rows, found);
  others = λ key other. unfold job in claim_keeps_others now seconds q j key v found other;
}
  where
    found : find_job j.work_key q.rows ≡ some j
    found =
        next_due-All (λ j. find_job j.work_key q.rows ≡ some j) now q.rows j picked
          (rows_are_found q.rows v.keys)

picked-IsClaim :
    (now seconds : ℕ) (q q' : Queue) (l : JobLease) (picked : Option Job)
    → IsValid q
    → next_due now q.rows ≡ picked
    → claim_row now seconds q picked ≡ (q', some l)
    → IsClaim now seconds q q' l
picked-IsClaim now seconds q q' l none v e h = absurd (cc h)
picked-IsClaim now seconds q q' l (some j) v e h =
    subst₂ (IsClaim now seconds q) (ap (λ (r : Queue × Option JobLease). r.0) h)
      (some-injective _ _ (ap (λ (r : Queue × Option JobLease). r.1) h))
      (claim_row_lem now seconds q j v e)

pub claim_next_job-IsClaim :
    (now seconds : ℕ) (q q' : Queue) (l : JobLease)
    → IsValid q
    → claim_next_job now seconds q ≡ (q', some l)
    → IsClaim now seconds q q' l
unfolding claim_next_job
claim_next_job-IsClaim now seconds q q' l v h = picked-IsClaim now seconds q q' l _ v refl h

next_due_of_idle :
    (now : ℕ) (rows : List Job) → All (λ j. is_due now j ≡ false) rows → next_due now rows ≡ none
unfolding next_due
next_due_of_idle now [] h = refl
next_due_of_idle now (j ∷ rows) h = ground (arith, next_due_of_idle now rows h.1, h.0)

-- A claim fails exactly when no job is due, and then it changes nothing.
pub claim_next_job-none_iff :
    (now seconds : ℕ) (q : Queue)
    → (claim_next_job now seconds q ≡ (q, none)) ↔ All (λ j. is_due now j ≡ false) q.rows
unfolding claim_next_job
claim_next_job-none_iff now seconds q = (
  λ h. elim (Option-cases (next_due now q.rows)) [
    | inl idle ↦ next_due-none now q.rows idle
    | inr (j, picked) ↦ absurd (ground arith)
  ],
  λ idle. rw (next_due_of_idle now q.rows idle),
)
