-- ===== src/Jobs/Consistency.antt =====
-- What holds of every job between two statements, and that every statement keeps it.
use onshape_export.Base.{
  ℕ, ◌+◌, ◌≤◌, ◌<◌, ◌≡◌, ◌≢◌, ◌⊎◌, inl, inr, refl, Text, text_eq, Bool, true, false, Option, none,
  some, List, [], ◌∷◌, ◌++◌, arith, ◌==◌, any, is_none, All, All-append, Distinct-snoc,
  update_where, update_where-All, update_where-Distinct, Bool-cases, Option-cases,
}
use onshape_export.Jobs.{
  Job, Queue, JobStatus, queued, running, ready, failed, superseded, has_key, empty, requeued,
  new_job, after_failure, next_due, enqueue_job, enqueue_job_inner, force_enqueue_job,
  claim_next_job, extend_job_lease, finish_job, record_job_failure, supersede_ready_job,
  retry_failed_jobs, retry_failed_job, retry_failed_jobs_by_kind,
}
use onshape_export.Jobs.View.{HasUniqueKeys, HasUniqueIds}
use onshape_export.Jobs.Commands.{
  Command, enqueue, force_enqueue, claim, extend, complete, retire, fail, supersede, retry_all,
  retry, retry_kind, execute, Trace, replay,
}

pub record IsConsistent (j : Job) : Type 0 where
  -- A lease has an end and has used up an attempt.
  pub leased : j.status ≡ running → (is_none j.lease_until ≡ false) × (1 ≤ j.attempt)
  -- Nothing but a running job has a lease.
  pub unleased : j.status ≢ running → j.lease_until ≡ none
  -- A queued job has an attempt left, and a failed one has none.
  pub has_budget : j.status ≡ queued → j.attempt < j.max_attempts
  pub out_of_budget : j.status ≡ failed → j.max_attempts ≤ j.attempt
  -- A settled job waits for no retry.
  pub settled : j.status ≢ queued → j.status ≢ running → j.next_retry_at ≡ none
  pub may_try : 1 ≤ j.max_attempts

pub record IsValid (q : Queue) : Type 0 where
  pub jobs : All IsConsistent q.rows
  pub keys : HasUniqueKeys q.rows
  pub ids : HasUniqueIds q.rows
  pub numbered : All (λ j. j.id ≤ q.last_id) q.rows

abbrev ConsistentAfter : (Job → Bool) → (Job → Job) → Type 0
ConsistentAfter p f = (j : Job) → IsConsistent j → p j ≡ true → IsConsistent (f j)

pub updated-IsValid :
    (p : Job → Bool) (f : Job → Job) (q : Queue)
    → ConsistentAfter p f
    → ((j : Job) → (f j).work_key ≡ j.work_key)
    → ((j : Job) → (f j).id ≡ j.id)
    → IsValid q
    → IsValid (record q { rows = update_where p f q.rows })
updated-IsValid p f q keep same_key same_id v = record {
  jobs = update_where-All IsConsistent p f q.rows keep v.jobs;
  keys = update_where-Distinct text_eq (λ j. j.work_key) p f same_key q.rows v.keys;
  ids = update_where-Distinct ◌==◌ (λ j. j.id) p f same_id q.rows v.ids;
  numbered = update_where-All (λ j. j.id ≤ q.last_id) p f q.rows (λ j h _. rw same_id h) v.numbered;
}

id_is_new :
    (n : ℕ) (rows : List Job) → All (λ j. j.id ≤ n) rows → any (λ j. j.id == n + 1) rows ≡ false
id_is_new n [] h = refl
id_is_new n (j ∷ rows) h = ground (arith, id_is_new n rows h.1, h.0)

still_numbered : (n : ℕ) (rows : List Job) → All (λ j. j.id ≤ n) rows → All (λ j. j.id ≤ n + 1) rows
still_numbered n [] h = tt
still_numbered n (j ∷ rows) h = (omega (arith, h.0), still_numbered n rows h.1)

requeued-IsConsistent : (now : ℕ) (j : Job) → IsConsistent j → IsConsistent (requeued now j)
requeued-IsConsistent now j c = ground arith

after_failure-IsConsistent :
    (now : ℕ) (why : Text) (delay : ℕ) (j : Job)
    → IsConsistent j
    → IsConsistent (after_failure now why delay j)
after_failure-IsConsistent now why delay j c = ground arith

finished-IsConsistent :
    (now : ℕ) (status : JobStatus) (why : Option Text) (j : Job)
    → (status ≡ ready) ⊎ (status ≡ superseded)
    → IsConsistent j
    → IsConsistent (record j {
      status = status;
      error_summary = why;
      lease_until = none;
      next_retry_at = none;
      updated_at = now;
    })
finished-IsConsistent now status why j s c = ground arith

inserted-IsValid :
    (now : ℕ) (key kind payload : Text) (q : Queue)
    → any (has_key key) q.rows ≡ false
    → IsValid q
    → IsValid (record {
      rows = q.rows ++ new_job now (q.last_id + 1) key kind payload ∷ [];
      last_id = q.last_id + 1;
    })
inserted-IsValid now key kind payload q new v = record {
  jobs = All-append IsConsistent q.rows _ v.jobs (ground arith, tt);
  keys = Distinct-snoc (λ a b. text_eq a.work_key b.work_key) q.rows _ v.keys new;
  ids = Distinct-snoc (λ a b. a.id == b.id) q.rows _ v.ids (id_is_new q.last_id q.rows v.numbered);
  numbered =
      All-append (λ j. j.id ≤ q.last_id + 1) q.rows _ (still_numbered q.last_id q.rows v.numbered)
        (omega arith, tt);
}

enqueue_job_inner-IsValid :
    (now : ℕ) (key kind payload : Text) (force : Bool) (q : Queue)
    → IsValid q
    → IsValid (enqueue_job_inner now key kind payload force q).0
unfolding enqueue_job_inner
enqueue_job_inner-IsValid now key kind payload force q v =
    elim (Bool-cases (any (has_key key) q.rows)) [
      | inl old ↦ rw old (
          updated-IsValid _ _ q (λ j c _. let r = requeued-IsConsistent now j c in ground arith)
            (λ j. refl) (λ j. refl) v)
      | inr new ↦ rw new (inserted-IsValid now key kind payload q new v)
    ]

claim_next_job-IsValid :
    (now seconds : ℕ) (q : Queue) → IsValid q → IsValid (claim_next_job now seconds q).0
unfolding claim_next_job
claim_next_job-IsValid now seconds q v = elim (Option-cases (next_due now q.rows)) [
  | inl idle ↦ rw idle v
  | inr (j, due) ↦ rw due (updated-IsValid _ _ q (λ k c _. ground arith) (λ k. refl) (λ k. refl) v)
]

-- Every statement keeps the table valid, at any time and whatever its arguments.
pub execute-IsValid : (now : ℕ) (c : Command) (q : Queue) → IsValid q → IsValid (execute now c q)
unfolding execute enqueue_job force_enqueue_job extend_job_lease finish_job record_job_failure
    supersede_ready_job retry_failed_jobs retry_failed_job retry_failed_jobs_by_kind
execute-IsValid now (enqueue key kind payload) q v =
    enqueue_job_inner-IsValid now key kind payload false q v
execute-IsValid now (force_enqueue key kind payload) q v =
    enqueue_job_inner-IsValid now key kind payload true q v
execute-IsValid now (claim seconds) q v = claim_next_job-IsValid now seconds q v
execute-IsValid now (extend key attempt seconds) q v =
    updated-IsValid _ _ q (λ j c h. ground arith) (λ j. refl) (λ j. refl) v
execute-IsValid now (complete key attempt) q v =
    updated-IsValid _ _ q (λ j c _. finished-IsConsistent now ready none j (inl refl) c) (λ j. refl)
      (λ j. refl) v
execute-IsValid now (retire key attempt why) q v =
    updated-IsValid _ _ q (λ j c _. finished-IsConsistent now superseded (some why) j (inr refl) c)
      (λ j. refl) (λ j. refl) v
execute-IsValid now (fail key attempt why delay) q v =
    updated-IsValid _ _ q (λ j c _. after_failure-IsConsistent now why delay j c) (λ j. refl)
      (λ j. refl) v
execute-IsValid now (supersede key) q v =
    updated-IsValid _ _ q (λ j c h. ground arith) (λ j. refl) (λ j. refl) v
execute-IsValid now retry_all q v =
    updated-IsValid _ _ q (λ j c _. requeued-IsConsistent now j c) (λ j. refl) (λ j. refl) v
execute-IsValid now (retry key) q v =
    updated-IsValid _ _ q (λ j c _. requeued-IsConsistent now j c) (λ j. refl) (λ j. refl) v
execute-IsValid now (retry_kind kind) q v =
    updated-IsValid _ _ q (λ j c _. requeued-IsConsistent now j c) (λ j. refl) (λ j. refl) v

-- From a valid table, after any commands in any order and at any times, every job is consistent and
-- no two jobs share a work key.
pub replay-IsValid : (trace : Trace) (q : Queue) → IsValid q → IsValid (replay trace q)
unfolding replay
replay-IsValid [] q v = v
replay-IsValid ((now, c) ∷ rest) q v =
    replay-IsValid rest (execute now c q) (execute-IsValid now c q v)

pub empty-IsValid : IsValid empty
empty-IsValid = record { jobs = tt; keys = tt; ids = tt; numbered = tt }
