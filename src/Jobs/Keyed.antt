-- ===== src/Jobs/Keyed.antt =====
-- The abstract queue: a map from work keys to jobs. Each statement that names a work key is an update
-- of the map at that key, and its result says whether it took effect.
use onshape_export.Base.{
  ℕ, ◌≡◌, ap, ◌∙◌, ◌≢◌, refl, Text, text_eq_iff, Bool, false, ◌&&◌, Option, none, some, arith, ◌==◌,
  if◌then◌else◌, update_where, affected, update_where_none,
}
use onshape_export.Jobs.{
  Job, Queue, JobStatus, running, ready, superseded, has_key, has_status, is_retryable, requeued,
  after_failure, seconds_after, updating, extend_job_lease, finish_job, record_job_failure,
  supersede_ready_job, retry_failed_job,
}
use onshape_export.Jobs.View.{
  find_job, job, selected, count_if, find_job-update_where, affected-has_key, find_job_has_key,
}
use onshape_export.Jobs.Consistency.{IsValid}

-- The jobs at the keys: the table with the order of its rows and its ids forgotten.
abbrev pub Jobs : Type 0
Jobs = Text → Option Job

-- The row at the key, changed where the condition holds.
abbrev pub change : (Job → Bool) → (Job → Job) → Option Job → Option Job
change g f none = none
change g f (some j) = some (if g j then f j else j)

abbrev pub applies : (Job → Bool) → Option Job → Bool
applies g none = false
applies g (some j) = g j

-- A statement with the table after it and its result updates the map at one key.
pub record Updates (key : Text) (g : Job → Bool) (f : Job → Job) (q : Queue) (r : Queue × Bool)
    : Type 0 where
  pub result : r.1 ≡ applies g (job key q)
  pub here : job key r.0 ≡ change g f (job key q)
  pub elsewhere : (k : Text) → k ≢ key → job k r.0 ≡ job k q
  -- With nothing to change the whole table stays.
  pub refused : applies g (job key q) ≡ false → r.0 ≡ q

module _ (key : Text) (g : Job → Bool) (f : Job → Job)
    (keeps : (j : Job) → (f j).work_key ≡ j.work_key) (q : Queue) (v : IsValid q) where
  abbrev pub picks : Job → Bool
  picks j = has_key key j && g j

  counted : affected picks q.rows ≡ count_if g (find_job key q.rows)
  counted = affected-has_key key g q.rows v.keys

  at : (k : Text) → find_job k (update_where picks f q.rows) ≡ selected picks f (find_job k q.rows)
  at k = find_job-update_where picks f keeps k q.rows

  changed_here : (o : Option Job) → find_job key q.rows ≡ o → selected picks f o ≡ change g f o
  changed_here none e = refl
  changed_here (some j) e =
      ground (arith, text_eq_iff j.work_key key, find_job_has_key key q.rows {j = j} e)

  same_elsewhere :
      (k : Text) (o : Option Job) → find_job k q.rows ≡ o → k ≢ key → selected picks f o ≡ o
  same_elsewhere k none e other = refl
  same_elsewhere k (some j) e other =
      ground (arith, text_eq_iff j.work_key key, find_job_has_key k q.rows {j = j} e)

  none_affected : (o : Option Job) → applies g o ≡ false → count_if g o ≡ 0
  none_affected none h = refl
  none_affected (some j) h = ground arith

  pub updating-Updates : Updates key g f q (updating picks f q)
  updating-Updates = record {
    result = unfold job in ground (arith, counted);
    here = unfold job in at key ∙ changed_here (find_job key q.rows) refl;
    elsewhere = λ k other. unfold job in at k ∙ same_elsewhere k (find_job k q.rows) refl other;
    refused = λ h.
        ap (λ rows. record q { rows = rows })
          (update_where_none picks f q.rows
            (counted ∙ none_affected (find_job key q.rows) (unfold job in h)));
  }

abbrev pub holds_lease : ℕ → Job → Bool
holds_lease attempt j = j.attempt == attempt && has_status running j.status

module _ (now : ℕ) (key : Text) (q : Queue) (v : IsValid q) where
  -- A worker's report reaches its job only while the job runs on the worker's own attempt.
  pub finish_job-Updates :
      (attempt : ℕ) (status : JobStatus) (summary : Option Text)
      → Updates key
          (holds_lease attempt)
          (λ j. record j {
            status = status;
            error_summary = summary;
            lease_until = none;
            next_retry_at = none;
            updated_at = now;
          })
          q
          (finish_job now key attempt status summary q)
  unfolding finish_job
  finish_job-Updates attempt status summary = updating-Updates key _ _ (λ j. refl) q v

  -- A failure is recorded by an update of the one job at the key, and only while that
  -- job runs on the given attempt: it becomes failed when its attempts are used up, and is
  -- queued again after the delay otherwise. The result says whether there was such a job, and
  -- every job at another key stays as it is.
  pub record_job_failure-Updates :
      (attempt : ℕ) (summary : Text) (delay : ℕ)
      → Updates key
          (holds_lease attempt)
          (after_failure now summary delay)
          q
          (record_job_failure now key attempt summary delay q)
  unfolding record_job_failure
  record_job_failure-Updates attempt summary delay = updating-Updates key _ _ (λ j. refl) q v

  pub extend_job_lease-Updates :
      (attempt seconds : ℕ)
      → Updates key
          (holds_lease attempt)
          (λ j. record j { lease_until = some (seconds_after now seconds) })
          q
          (extend_job_lease now key attempt seconds q)
  unfolding extend_job_lease
  extend_job_lease-Updates attempt seconds = updating-Updates key _ _ (λ j. refl) q v

  pub supersede_ready_job-Updates :
      Updates key
        (λ j. has_status ready j.status)
        (λ j. record j {
          status = superseded;
          lease_until = none;
          next_retry_at = none;
          updated_at = now;
        })
        q
        (supersede_ready_job now key q)
  unfolding supersede_ready_job
  supersede_ready_job-Updates = updating-Updates key _ _ (λ j. refl) q v

  pub retry_failed_job-Updates :
      Updates key is_retryable (requeued now) q (retry_failed_job now key q)
  unfolding retry_failed_job
  retry_failed_job-Updates = updating-Updates key _ _ (λ j. refl) q v
