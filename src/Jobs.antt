-- ===== src/Jobs.antt =====
-- The job queue of src/db.rs: the table `jobs`, and each statement that reads or writes it.
-- A statement is atomic in SQLite, so it is a function from the table to the table and its result.
-- A timestamp is a number of milliseconds: the stored texts have one width, so they compare alike.
pub mod View
pub mod Commands
pub mod Consistency
pub mod Unique
pub mod Claims
pub mod Drained
pub mod Keyed
pub mod Fencing
pub mod Requeues
pub mod Settled
pub mod Outcomes
pub mod Worker
mod Tests
use onshape_export.Base.{
  ℕ, ◌+◌, ◌*◌, Text, text, text_eq, Bool, true, false, not, ◌&&◌, ◌||◌, Option, none, some, List,
  [], ◌∷◌, ◌++◌, ltb, leb, ◌==◌, if◌then◌else◌, any, affected, update_where,
}

-- The statuses that the program writes into the column `status`.
pub data JobStatus : Type 0 where
  queued running ready failed superseded : JobStatus

pub record Job : Type 0 where
  pub id : ℕ
  pub work_key : Text
  pub job_kind : Text
  pub status : JobStatus
  pub payload_json : Text
  pub error_summary : Option Text
  pub attempt : ℕ
  pub max_attempts : ℕ
  pub lease_until : Option ℕ
  pub next_retry_at : Option ℕ
  pub created_at : ℕ
  pub updated_at : ℕ

-- The table, in the order of its rows, with the last value of AUTOINCREMENT.
pub record Queue : Type 0 where
  pub rows : List Job
  pub last_id : ℕ

pub record JobLease : Type 0 where
  pub work_key : Text
  pub job_kind : Text
  pub payload_json : Text
  pub attempt : ℕ
  pub max_attempts : ℕ

abbrev pub empty : Queue
empty = record { rows = []; last_id = 0 }

abbrev pub has_status : JobStatus → JobStatus → Bool
has_status queued queued = true
has_status running running = true
has_status ready ready = true
has_status failed failed = true
has_status superseded superseded = true
has_status _ _ = false

abbrev pub has_key : Text → Job → Bool
has_key key j = text_eq j.work_key key

-- `result.rows_affected() == 1`, beside the table after the update.
abbrev pub updating : (Job → Bool) → (Job → Job) → Queue → Queue × Bool
updating p f q = (record q { rows = update_where p f q.rows }, affected p q.rows == 1)

abbrev pub seconds_after : ℕ → ℕ → ℕ
seconds_after now seconds = now + 1000 * seconds

-- The SET clause that puts a settled job back into the queue.
abbrev pub requeued : ℕ → Job → Job
requeued now j = record j {
  status = queued;
  error_summary = none;
  attempt = 0;
  lease_until = none;
  next_retry_at = none;
  updated_at = now;
}

-- The row that INSERT makes: the columns that it does not name take the schema's defaults.
abbrev pub new_job : ℕ → ℕ → Text → Text → Text → Job
new_job now id key kind payload = record {
  id = id;
  work_key = key;
  job_kind = kind;
  status = queued;
  payload_json = payload;
  error_summary = none;
  attempt = 0;
  max_attempts = 3;
  lease_until = none;
  next_retry_at = none;
  created_at = now;
  updated_at = now;
}

abbrev pub may_requeue : Bool → JobStatus → Bool
may_requeue force status =
    has_status failed status || has_status superseded status || force && has_status ready status

unfoldable pub enqueue_job_inner : ℕ → Text → Text → Text → Bool → Queue → Queue × Bool
enqueue_job_inner now key kind payload force q =
    if any (has_key key) q.rows
    then updating (λ j. has_key key j && may_requeue force j.status)
        (λ j. record (requeued now j) { job_kind = kind; payload_json = payload }) q
    else (
      record {
        rows = q.rows ++ new_job now (q.last_id + 1) key kind payload ∷ [];
        last_id = q.last_id + 1;
      },
      true,
    )

unfoldable pub enqueue_job : ℕ → Text → Text → Text → Queue → Queue × Bool
unfolding enqueue_job_inner
enqueue_job now key kind payload q = enqueue_job_inner now key kind payload false q

unfoldable pub force_enqueue_job : ℕ → Text → Text → Text → Queue → Queue × Bool
unfolding enqueue_job_inner
force_enqueue_job now key kind payload q = enqueue_job_inner now key kind payload true q

-- A NULL timestamp compares as false.
abbrev pub has_passed : ℕ → Option ℕ → Bool
has_passed now none = false
has_passed now (some t) = leb t now

abbrev pub is_unset_or_passed : ℕ → Option ℕ → Bool
is_unset_or_passed now none = true
is_unset_or_passed now (some t) = leb t now

abbrev pub due_in : ℕ → JobStatus → Option ℕ → Option ℕ → Bool
due_in now queued retry lease = is_unset_or_passed now retry
due_in now running retry lease = has_passed now lease
due_in now _ retry lease = false

-- The WHERE clause of `claim_next_job`.
abbrev pub is_due : ℕ → Job → Bool
is_due now j = due_in now j.status j.next_retry_at j.lease_until

abbrev pub rank : JobStatus → ℕ
rank queued = 0
rank _ = 1

abbrev pub coalesce : Option ℕ → ℕ → ℕ
coalesce none t = t
coalesce (some s) t = s

-- The ORDER BY clause: `comes_before a b` where `a` sorts strictly before `b`.
unfoldable pub comes_before : Job → Job → Bool
comes_before a b =
    ltb (rank a.status) (rank b.status)
    || rank a.status == rank b.status
      && (ltb (coalesce a.next_retry_at a.created_at) (coalesce b.next_retry_at b.created_at)
          || coalesce a.next_retry_at a.created_at == coalesce b.next_retry_at b.created_at
            && ltb a.created_at b.created_at)

abbrev pub sooner : Job → Option Job → Job
sooner j none = j
sooner j (some k) = if comes_before k j then k else j

-- SELECT ... ORDER BY ... LIMIT 1; of rows that tie, the first in the table.
unfoldable pub next_due : ℕ → List Job → Option Job
next_due now [] = none
next_due now (j ∷ js) =
    let later = next_due now js in if is_due now j then some (sooner j later) else later

abbrev pub claimed : ℕ → ℕ → Job → Job
claimed now lease_seconds j = record j {
  status = running;
  attempt = j.attempt + 1;
  lease_until = some (seconds_after now lease_seconds);
  updated_at = now;
}

abbrev pub lease_of : Job → JobLease
lease_of j = record {
  work_key = j.work_key;
  job_kind = j.job_kind;
  payload_json = j.payload_json;
  attempt = j.attempt;
  max_attempts = j.max_attempts;
}

abbrev pub claim_row : ℕ → ℕ → Queue → Option Job → Queue × Option JobLease
claim_row now lease_seconds q none = (q, none)
claim_row now lease_seconds q (some j) = (
  record q { rows = update_where (λ k. k.id == j.id) (claimed now lease_seconds) q.rows },
  some (lease_of (claimed now lease_seconds j)),
)

unfoldable pub claim_next_job : ℕ → ℕ → Queue → Queue × Option JobLease
claim_next_job now lease_seconds q = claim_row now lease_seconds q (next_due now q.rows)

-- `work_key = ? AND attempt = ? AND status = 'running'`: who holds the lease.
abbrev pub holds : Text → ℕ → Job → Bool
holds key attempt j = has_key key j && (j.attempt == attempt && has_status running j.status)

unfoldable pub extend_job_lease : ℕ → Text → ℕ → ℕ → Queue → Queue × Bool
extend_job_lease now key attempt lease_seconds q =
    updating (holds key attempt)
      (λ j. record j { lease_until = some (seconds_after now lease_seconds) }) q

unfoldable pub finish_job : ℕ → Text → ℕ → JobStatus → Option Text → Queue → Queue × Bool
finish_job now key attempt status summary q =
    updating (holds key attempt)
      (λ j. record j {
        status = status;
        error_summary = summary;
        lease_until = none;
        next_retry_at = none;
        updated_at = now;
      })
      q

-- The SET clause of `record_job_failure`.
abbrev pub after_failure : ℕ → Text → ℕ → Job → Job
after_failure now summary delay j = record j {
  status = if leb j.max_attempts j.attempt then failed else queued;
  error_summary = some summary;
  lease_until = none;
  next_retry_at = if leb j.max_attempts j.attempt then none else some (seconds_after now delay);
  updated_at = now;
}

unfoldable pub record_job_failure : ℕ → Text → ℕ → Text → ℕ → Queue → Queue × Bool
record_job_failure now key attempt summary delay q =
    updating (holds key attempt) (after_failure now summary delay) q

unfoldable pub supersede_ready_job : ℕ → Text → Queue → Queue × Bool
supersede_ready_job now key q =
    updating (λ j. has_key key j && has_status ready j.status)
      (λ j. record j {
        status = superseded;
        lease_until = none;
        next_retry_at = none;
        updated_at = now;
      })
      q

abbrev pub is_retryable : Job → Bool
is_retryable j = has_status failed j.status && not (text_eq j.payload_json (text "{}"))

-- `rows_affected()` itself.
abbrev pub retrying : ℕ → (Job → Bool) → Queue → Queue × ℕ
retrying now p q = (record q { rows = update_where p (requeued now) q.rows }, affected p q.rows)

unfoldable pub retry_failed_jobs : ℕ → Queue → Queue × ℕ
retry_failed_jobs now q = retrying now is_retryable q

unfoldable pub retry_failed_job : ℕ → Text → Queue → Queue × Bool
retry_failed_job now key q = updating (λ j. has_key key j && is_retryable j) (requeued now) q

unfoldable pub retry_failed_jobs_by_kind : ℕ → Text → Queue → Queue × ℕ
retry_failed_jobs_by_kind now kind q =
    retrying now (λ j. text_eq j.job_kind kind && is_retryable j) q
