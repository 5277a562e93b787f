-- ===== src/Jobs/Requeues.antt =====
-- What puts a job back into the queue, and that a statement which does not leaves the job alone.
use mathlib.Core.Path.{subst}
use onshape_export.Base.{
  text_eq, sym, ◌&&◌, ℕ, ◌+◌, ◌≡◌, ◌∙◌, ◌≢◌, inl, inr, refl, Text, text_eq_iff, text_eq_refl, Bool,
  true, false, not, ◌||◌, Option, none, some, List, [], ◌∷◌, ◌++◌, arith, if◌then◌else◌, any,
  is_none, update_where, Bool-cases, Option-cases,
}
use onshape_export.Jobs.{
  enqueue_job, force_enqueue_job, retry_failed_job, retry_failed_jobs_by_kind, Job, Queue, ready,
  superseded, failed, has_key, has_status, requeued, new_job, may_requeue, is_retryable,
  enqueue_job_inner, retry_failed_jobs,
}
use onshape_export.Jobs.View.{find_job_has_key, find_job, job, find_job-update_where}
use onshape_export.Jobs.Commands.{
  enqueue, force_enqueue, retry_all, retry, retry_kind, Command, execute, may_reset,
}
use onshape_export.Jobs.Consistency.{IsValid}
use onshape_export.Jobs.Keyed.{Updates, updating-Updates}

-- A new key gets a new job; an old one is requeued if it is settled and may be.
abbrev pub accepts : Bool → Option Job → Bool
accepts force none = true
accepts force (some j) = may_requeue force j.status

abbrev pub enqueued : ℕ → ℕ → Text → Text → Text → Bool → Option Job → Job
enqueued now id key kind payload force none = new_job now id key kind payload
enqueued now id key kind payload force (some j) =
    if may_requeue force j.status
    then record (requeued now j) { job_kind = kind; payload_json = payload }
    else j

pub record Enqueues (now : ℕ) (key kind payload : Text) (force : Bool) (q : Queue)
    (r : Queue × Bool) : Type 0 where
  pub result : r.1 ≡ accepts force (job key q)
  pub here : job key r.0 ≡ some (enqueued now (q.last_id + 1) key kind payload force (job key q))
  pub elsewhere : (k : Text) → k ≢ key → job k r.0 ≡ job k q
  pub refused : accepts force (job key q) ≡ false → r.0 ≡ q

any-has_key :
    (key : Text) (rows : List Job) → any (has_key key) rows ≡ not (is_none (find_job key rows))
unfolding find_job
any-has_key key [] = refl
any-has_key key (j ∷ rows) = ground (arith, any-has_key key rows)

abbrev or_last : Text → Job → Option Job → Option Job
or_last k j none = if has_key k j then some j else none
or_last k j (some i) = some i

find_job-snoc :
    (k : Text) (rows : List Job) (j : Job)
    → find_job k (rows ++ j ∷ []) ≡ or_last k j (find_job k rows)
unfolding find_job
find_job-snoc k [] j = refl
find_job-snoc k (i ∷ rows) j = ground (arith, find_job-snoc k rows j)

module _ (now : ℕ) (key kind payload : Text) (force : Bool) (q : Queue) (v : IsValid q) where
  inserted-Enqueues :
      job key q ≡ none
      → Enqueues now key kind payload force q (
        record {
          rows = q.rows ++ new_job now (q.last_id + 1) key kind payload ∷ [];
          last_id = q.last_id + 1;
        },
        true,
      )
  unfolding job
  inserted-Enqueues missing = record {
    result = ground arith;
    here = ground (
      arith,
      find_job-snoc key q.rows (new_job now (q.last_id + 1) key kind payload),
      text_eq_refl key,
    );
    elsewhere = λ k other. ground (
      arith,
      find_job-snoc k q.rows (new_job now (q.last_id + 1) key kind payload),
      text_eq_iff key k,
    );
    refused = λ h. absurd (ground arith);
  }

  conflict-Enqueues :
      (j : Job)
      → job key q ≡ some j
      → (r : Queue × Bool)
      → Updates key
          (λ j. may_requeue force j.status)
          (λ j. record (requeued now j) { job_kind = kind; payload_json = payload })
          q
          r
      → Enqueues now key kind payload force q r
  conflict-Enqueues j there r u = record {
    result = ground (arith, u.result);
    here = ground (arith, u.here);
    elsewhere = u.elsewhere;
    refused = λ h. u.refused (ground arith);
  }

  -- An enqueue is an update of the map at its key, or adds to it.
  pub enqueue_job_inner-Enqueues :
      Enqueues now key kind payload force q (enqueue_job_inner now key kind payload force q)
  unfolding enqueue_job_inner
  enqueue_job_inner-Enqueues = elim (Option-cases (find_job key q.rows)) [
    | inl missing ↦
        let new : any (has_key key) q.rows ≡ false = ground (arith, any-has_key key q.rows) in
        rw new (inserted-Enqueues (unfold job in missing))
    | inr (j, there) ↦
        let old : any (has_key key) q.rows ≡ true = ground (arith, any-has_key key q.rows) in
        rw old
          (conflict-Enqueues j (unfold job in there) _ (updating-Updates key _ _ (λ j. refl) q v))
  ]

-- The command would put the job, where it stands in the table at the key, back into the queue.
abbrev pub requeues : Text → Command → Job → Bool
requeues key (enqueue k kind payload) j =
    text_eq k key && (has_status failed j.status || has_status superseded j.status)
requeues key (force_enqueue k kind payload) j =
    text_eq k key
    && (has_status ready j.status || has_status failed j.status || has_status superseded j.status)
requeues key retry_all j = is_retryable j
requeues key (retry k) j = text_eq k key && is_retryable j
requeues key (retry_kind kind) j = text_eq j.job_kind kind && is_retryable j
requeues key _ j = false

pub unselected_row :
    (key : Text) (p : Job → Bool) (f : Job → Job) (q : Queue) (j : Job)
    → ((i : Job) → (f i).work_key ≡ i.work_key)
    → p j ≡ false
    → job key q ≡ some j
    → job key (record q { rows = update_where p f q.rows }) ≡ some j
unfolding job
unselected_row key p f q j keeps off there =
    ground (arith, find_job-update_where p f keeps key q.rows)

-- An enqueue that does not requeue the job leaves it as it is.
enqueue_leaves :
    (now : ℕ) (k kind payload : Text) (force : Bool) (key : Text) (q : Queue) (j : Job)
    → IsValid q
    → text_eq k key && may_requeue force j.status ≡ false
    → job key q ≡ some j
    → job key (enqueue_job_inner now k kind payload force q).0 ≡ some j
enqueue_leaves now k kind payload force key q j v off there =
    let e = enqueue_job_inner-Enqueues now k kind payload force q v in
    elim (Bool-cases (text_eq k key)) [
      | inl same ↦
          let keys = (text_eq_iff k key).0 same in
          let stands : job k q ≡ some j = subst (λ (x : Text). job x q ≡ some j) (sym keys) there in
          subst (λ (x : Text). job x (enqueue_job_inner now k kind payload force q).0 ≡ some j) keys
            (ground (arith, e.here, stands, off, same))
      | inr apart ↦
          e.elsewhere key (λ (eq : key ≡ k). ground (arith, apart, text_eq_iff k key, sym eq))
          ∙ there
    ]

-- A command that may requeue jobs, but not this one, leaves it as it is.
pub execute-requeues :
    (now : ℕ) (key : Text) (c : Command) (q : Queue) (j : Job)
    → IsValid q
    → may_reset c ≡ true
    → requeues key c j ≡ false
    → job key q ≡ some j
    → job key (execute now c q) ≡ some j
unfolding execute enqueue_job force_enqueue_job retry_failed_jobs retry_failed_job
    retry_failed_jobs_by_kind
execute-requeues now key (enqueue k kind payload) q j v may off there =
    enqueue_leaves now k kind payload false key q j v (ground (arith, off)) there
execute-requeues now key (force_enqueue k kind payload) q j v may off there =
    enqueue_leaves now k kind payload true key q j v (ground (arith, off)) there
execute-requeues now key retry_all q j v may off there =
    unselected_row key _ _ q j (λ i. refl) off there
execute-requeues now key (retry k) q j v may off there =
    unselected_row key _ _ q j (λ i. refl)
      (let here = find_job_has_key key q.rows {j = j} (unfold job in there) in
        ground (arith, off, text_eq_iff j.work_key k, text_eq_iff k key, here))
      there
execute-requeues now key (retry_kind kind) q j v may off there =
    unselected_row key _ _ q j (λ i. refl) off there
execute-requeues now key _ q j v may off there = absurd (cc may)
