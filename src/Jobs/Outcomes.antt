-- ===== src/Jobs/Outcomes.antt =====
-- What a failure report, an enqueue and a retry do to a job, column by column, as relations between the
-- job before and after that do not refer to the statements.
use onshape_export.Base.{
  ℕ, ◌+◌, ◌*◌, ◌≤◌, ◌<◌, ◌≡◌, ◌∙◌, ◌≢◌, inl, inr, refl, sym, ap, Text, text, text_eq_iff, Bool,
  true, false, Option, none, some, List, [], ◌∷◌, arith, leb, update_where, Bool-cases, ◌⊎◌,
  affected,
}
use onshape_export.Jobs.{
  Job, Queue, JobStatus, queued, running, ready, superseded, failed, has_status, requeued,
  after_failure, is_retryable, may_requeue, enqueue_job_inner, record_job_failure,
  retry_failed_jobs,
}
use onshape_export.Jobs.View.{find_job, job, selected, find_job-update_where}
use onshape_export.Jobs.Consistency.{IsValid}
use onshape_export.Jobs.Keyed.{change, applies, holds_lease, record_job_failure-Updates}
use onshape_export.Jobs.Requeues.{accepts, enqueued, enqueue_job_inner-Enqueues}

-- A failure report of the worker that began the attempt.
pub data Fails (now attempt : ℕ) (summary : Text) (delay : ℕ)
    : Option Job → Option Job → Bool → Type 0 where
  gives_up :
      (j : Job)
      → j.status ≡ running
      → j.attempt ≡ attempt
      → j.max_attempts ≤ attempt
      → Fails now attempt summary delay
          (some j)
          (some (record j {
            status = failed;
            error_summary = some summary;
            lease_until = none;
            next_retry_at = none;
            updated_at = now;
          }))
          true
  waits :
      (j : Job)
      → j.status ≡ running
      → j.attempt ≡ attempt
      → attempt < j.max_attempts
      → Fails now attempt summary delay
          (some j)
          (some (record j {
            status = queued;
            error_summary = some summary;
            lease_until = none;
            next_retry_at = some (now + 1000 * delay);
            updated_at = now;
          }))
          true
  not_held :
      (j : Job)
      → ¬ ((j.status ≡ running) × (j.attempt ≡ attempt))
      → Fails now attempt summary delay (some j) (some j) false
  missing : Fails now attempt summary delay none none false

-- An enqueue under the key, which may be forced; `id` is the id for a new row.
pub data Admits (now id : ℕ) (key kind payload : Text) (force : Bool)
    : Option Job → Job → Bool → Type 0 where
  inserts :
      Admits now id key kind payload force none
        (record {
          id = id;
          work_key = key;
          job_kind = kind;
          status = queued;
          payload_json = payload;
          error_summary = none;
          attempt = 0;
          max_attempts = 3;
          lease_until = none;
          next_retry_at = none;
          created_at = now;
          updated_at = now;
        })
        true
  renews :
      (j : Job)
      → (j.status ≡ failed) ⊎ ((j.status ≡ superseded) ⊎ ((j.status ≡ ready) × (force ≡ true)))
      → Admits now id key kind payload force
          (some j)
          (record j {
            job_kind = kind;
            status = queued;
            payload_json = payload;
            error_summary = none;
            attempt = 0;
            lease_until = none;
            next_retry_at = none;
            updated_at = now;
          })
          true
  keeps :
      (j : Job)
      → (j.status ≡ queued) ⊎ ((j.status ≡ running) ⊎ ((j.status ≡ ready) × (force ≡ false)))
      → Admits now id key kind payload force (some j) j false

-- A retry of all failed jobs.
pub data Retries (now : ℕ) : Option Job → Option Job → Type 0 where
  again :
      (j : Job)
      → j.status ≡ failed
      → j.payload_json ≢ text "{}"
      → Retries now (some j) (
          some (record j {
            status = queued;
            error_summary = none;
            attempt = 0;
            lease_until = none;
            next_retry_at = none;
            updated_at = now;
          }))
  passed_by :
      (j : Job)
      → ¬ ((j.status ≡ failed) × (j.payload_json ≢ text "{}"))
      → Retries now (some j) (some j)
  absent : Retries now none none

has_status-running : (s : JobStatus) → has_status running s ≡ true → s ≡ running
has_status-running s h = ground (arith, h)

failure_of :
    (now attempt : ℕ) (summary : Text) (delay : ℕ) (o : Option Job)
    → Fails now attempt summary delay o
        (change (holds_lease attempt) (after_failure now summary delay) o)
        (applies (holds_lease attempt) o)
failure_of now attempt summary delay none = missing
failure_of now attempt summary delay (some j) = elim (Bool-cases (holds_lease attempt j)) [
  | inl held ↦
      let runs = has_status-running j.status (ground (arith, held)) in
      let same : j.attempt ≡ attempt = ground (arith, held) in
      elim (Bool-cases (leb j.max_attempts j.attempt)) [
        | inl over ↦ rw held (rw over (gives_up j runs same (ground (arith, over, same))))
        | inr more ↦ rw held (rw more (waits j runs same (ground (arith, more, same))))
      ]
  | inr other ↦ rw other (not_held j (λ (runs, same). ground (arith, other, runs, same)))
]

-- On a valid table, what a failure report does: where the job at the key runs on the given attempt and
-- its attempts are used up, it becomes failed, with the summary, without lease and without a time to
-- retry; where it runs on the attempt and has attempts left, it is queued again, with the summary,
-- without lease, and with the given seconds until the retry; both are stamped with the time, keep
-- every other column and are answered `true`. Where no job at the key runs on that attempt, the answer
-- is `false` and the whole table stays. Every job at another key stays as it is.
pub record_job_failure-Fails :
    (now : ℕ) (key : Text) (attempt : ℕ) (summary : Text) (delay : ℕ) (q : Queue)
    → IsValid q
    → Fails now attempt summary delay
        (job key q)
        (job key (record_job_failure now key attempt summary delay q).0)
        (record_job_failure now key attempt summary delay q).1
      × ((record_job_failure now key attempt summary delay q).1 ≡ false
          → (record_job_failure now key attempt summary delay q).0 ≡ q)
      × ((k : Text)
          → k ≢ key
          → job k (record_job_failure now key attempt summary delay q).0 ≡ job k q)
record_job_failure-Fails now key attempt summary delay q v =
    let u = record_job_failure-Updates now key q v attempt summary delay in
    (
      rw u.here (rw u.result (failure_of now attempt summary delay (job key q))),
      λ no. u.refused (sym u.result ∙ no),
      u.elsewhere,
    )

admission_of :
    (now id : ℕ) (key kind payload : Text) (force : Bool) (o : Option Job)
    → Admits now id key kind payload force o
        (enqueued now id key kind payload force o)
        (accepts force o)
admission_of now id key kind payload force none = inserts
admission_of now id key kind payload force (some j) = by_status j.status force refl
  where
    refused_at :
        (s : JobStatus) (b : Bool)
        → j.status ≡ s
        → may_requeue b s ≡ false
        → may_requeue b j.status ≡ false
    refused_at s b e h = ap (may_requeue b) e ∙ h

    granted_at :
        (s : JobStatus) (b : Bool)
        → j.status ≡ s
        → may_requeue b s ≡ true
        → may_requeue b j.status ≡ true
    granted_at s b e h = ap (may_requeue b) e ∙ h

    by_status :
        (s : JobStatus) (b : Bool)
        → j.status ≡ s
        → Admits now id key kind payload b
            (some j)
            (enqueued now id key kind payload b (some j))
            (accepts b (some j))
    by_status queued b e = rw (refused_at queued b e (ground arith)) (keeps j (inl e))
    by_status running b e = rw (refused_at running b e (ground arith)) (keeps j (inr (inl e)))
    by_status failed b e = rw (granted_at failed b e refl) (renews j (inl e))
    by_status superseded b e = rw (granted_at superseded b e refl) (renews j (inr (inl e)))
    by_status ready true e = rw (granted_at ready true e refl) (renews j (inr (inr (e, refl))))
    by_status ready false e = rw (refused_at ready false e refl) (keeps j (inr (inr (e, refl))))

-- On a valid table, what an enqueue does. Under a new key it inserts a queued job with the next id, the
-- kind and the payload, attempt 0 of 3, and both timestamps now. Under an old key it renews a job that
-- failed or was superseded, or that is ready where the caller forces it: queued, attempt 0, without
-- error, lease and time to retry, with the new kind and payload, every other column kept. Both are
-- answered `true`. A job that is queued or running, or ready without force, is answered `false`, and
-- the whole table stays. Every job at another key stays as it is.
pub enqueue_job_inner-Admits :
    (now : ℕ) (key kind payload : Text) (force : Bool) (q : Queue)
    → IsValid q
    → ((j : Job) × (job key (enqueue_job_inner now key kind payload force q).0 ≡ some j)
        × Admits now
            (q.last_id + 1)
            key
            kind
            payload
            force
            (job key q)
            j
            (enqueue_job_inner now key kind payload force q).1)
      × ((enqueue_job_inner now key kind payload force q).1 ≡ false
          → (enqueue_job_inner now key kind payload force q).0 ≡ q)
      × ((k : Text) → k ≢ key → job k (enqueue_job_inner now key kind payload force q).0 ≡ job k q)
enqueue_job_inner-Admits now key kind payload force q v =
    let e = enqueue_job_inner-Enqueues now key kind payload force q v in
    (
      (
        enqueued now (q.last_id + 1) key kind payload force (job key q),
        e.here,
        rw e.result (admission_of now (q.last_id + 1) key kind payload force (job key q)),
      ),
      λ no. e.refused (sym e.result ∙ no),
      e.elsewhere,
    )

retry_of : (now : ℕ) (o : Option Job) → Retries now o (selected is_retryable (requeued now) o)
retry_of now none = absent
retry_of now (some j) = elim (Bool-cases (is_retryable j)) [
  | inl meant ↦ rw meant (
      again j (ground (arith, meant))
        (λ e. ground (arith, meant, (text_eq_iff j.payload_json (text "{}")).1 e)))
  | inr spared ↦ rw spared (
      passed_by j (λ (failure, other).
        ground (arith, spared, failure, other, text_eq_iff j.payload_json (text "{}"))))
]

no_longer_retryable :
    (now : ℕ) (rows : List Job)
    → affected is_retryable (update_where is_retryable (requeued now) rows) ≡ 0
unfolding affected update_where
no_longer_retryable now [] = refl
no_longer_retryable now (j ∷ rows) = ground (arith, no_longer_retryable now rows)

-- On any table, a retry of all failed jobs queues each failed job whose payload is not `{}` again, at
-- attempt 0, without error, lease and time to retry, stamped with the time, every other column kept;
-- every other job stays as it is, no key gains or loses a job, and a second retry finds no job to
-- change.
pub retry_failed_jobs-Retries :
    (now later : ℕ) (q : Queue)
    → ((key : Text) → Retries now (job key q) (job key (retry_failed_jobs now q).0))
      × ((retry_failed_jobs later (retry_failed_jobs now q).0).1 ≡ 0)
unfolding retry_failed_jobs job
retry_failed_jobs-Retries now later q = (
  λ key.
      rw (find_job-update_where is_retryable (requeued now) (λ j. refl) key q.rows)
        (retry_of now (find_job key q.rows)),
  no_longer_retryable now q.rows,
)
