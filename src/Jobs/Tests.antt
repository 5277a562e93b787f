-- ===== src/Jobs/Tests.antt =====
-- Runs of the queue, and the theorems at concrete inputs.
use onshape_export.Base.{
  ℕ, ◌≤◌, ◌<◌, ◌/◌, ◌*◌, ◌^◌, ◌≡◌, ◌≢◌, ◌+◌, refl, false, All, Text, text, text_eq, true, Option,
  none, some, [], ◌∷◌, arith, update_where, affected,
}
use onshape_export.Jobs.{
  Job, Queue, JobLease, ready, claimed, empty, is_due, next_due, comes_before, enqueue_job,
  enqueue_job_inner, claim_next_job, finish_job, record_job_failure, retry_failed_jobs,
  force_enqueue_job,
}
use onshape_export.Jobs.View.{find_job, job}
use onshape_export.Jobs.Commands.{
  Command, supersede, retry_all, enqueue, claim, complete, fail, force_enqueue, execute, Trace,
  replay,
}
use onshape_export.Jobs.Consistency.{IsValid, replay-IsValid, empty-IsValid}
use onshape_export.Jobs.Drained.{due_jobs, claim_times, claim_times-update_where}
use onshape_export.Jobs.Fencing.{IsVoid, KeepsAttempts, reclaimed_lease-IsVoid}
use onshape_export.Jobs.Settled.{moves, replay_settled}
use onshape_export.Jobs.Outcomes.{
  Fails, Admits, Retries, record_job_failure-Fails, enqueue_job_inner-Admits,
  retry_failed_jobs-Retries,
}
use onshape_export.Jobs.Worker.{WorkerWorld, process_next_job, retry_backoff_seconds}
use onshape_export.Jobs.Worker.Backoff.{retry_backoff_seconds_le}
use onshape_export.Jobs.Worker.Rounds.{IsUndisturbed, Settles, process_next_job-Settles}

abbrev box : Text
box = text "box"

abbrev enqueued_box : Trace
enqueued_box = (1000, enqueue box (text "parameter_refresh") (text "{1}")) ∷ []

abbrev one_job : Queue
one_job = replay enqueued_box empty

one_job-IsValid : IsValid one_job
one_job-IsValid = replay-IsValid enqueued_box empty empty-IsValid

replay-IsValid_example : IsValid (replay enqueued_box empty)
replay-IsValid_example = replay-IsValid enqueued_box empty empty-IsValid

abbrev first_claim : Queue
first_claim = (claim_next_job 2000 10 one_job).0

abbrev box_lease : ℕ → JobLease
box_lease attempt = record {
  work_key = box;
  job_kind = text "parameter_refresh";
  payload_json = text "{1}";
  attempt = attempt;
  max_attempts = 3;
}

first_claim_lease : claim_next_job 2000 10 one_job ≡ (first_claim, some (box_lease 1))
unfolding claim_next_job next_due comes_before replay execute enqueue_job text
first_claim_lease = refl

-- Between the claims the job is enqueued again, and an operator retries what has failed.
abbrev asked_again : Trace
asked_again = (3000, enqueue box (text "parameter_refresh") (text "{1}")) ∷ (4000, retry_all) ∷ []

abbrev lid_arrives : Trace
lid_arrives = (13000, enqueue (text "lid") (text "parameter_refresh") (text "{2}")) ∷ []

abbrev second_claim : Queue
second_claim = (claim_next_job 12000 10 (replay asked_again first_claim)).0

second_claim_lease :
    claim_next_job 12000 10 (replay asked_again first_claim) ≡ (second_claim, some (box_lease 2))
unfolding claim_next_job next_due comes_before replay execute enqueue_job retry_failed_jobs text
    text_eq update_where affected
second_claim_lease = refl

asked_again-KeepsAttempts : KeepsAttempts box asked_again first_claim
unfolding job find_job claim_next_job next_due comes_before replay execute enqueue_job
    retry_failed_jobs text text_eq update_where affected
asked_again-KeepsAttempts = (refl, (refl, tt))

lid_arrives-KeepsAttempts : KeepsAttempts box lid_arrives second_claim
unfolding job find_job claim_next_job next_due comes_before replay execute enqueue_job
    retry_failed_jobs text text_eq update_where affected
lid_arrives-KeepsAttempts = (refl, tt)

-- The first worker overran its lease; the second has the job.
reclaimed_lease-IsVoid_example : (1 < 2) × IsVoid box 1 (replay lid_arrives second_claim)
reclaimed_lease-IsVoid_example =
    reclaimed_lease-IsVoid 2000 10 12000 10 one_job first_claim second_claim (box_lease 1)
      (box_lease 2) asked_again lid_arrives one_job-IsValid first_claim_lease
      asked_again-KeepsAttempts second_claim_lease refl lid_arrives-KeepsAttempts

record_job_failure-Fails_example :
    Fails 3000 1
      (text "late")
      30
      (job box first_claim)
      (job box (record_job_failure 3000 box 1 (text "late") 30 first_claim).0)
      (record_job_failure 3000 box 1 (text "late") 30 first_claim).1
    × ((record_job_failure 3000 box 1 (text "late") 30 first_claim).1 ≡ false
        → (record_job_failure 3000 box 1 (text "late") 30 first_claim).0 ≡ first_claim)
    × ((k : Text)
        → k ≢ box
        → job k (record_job_failure 3000 box 1 (text "late") 30 first_claim).0 ≡ job k first_claim)
unfolding replay execute
record_job_failure-Fails_example =
    record_job_failure-Fails 3000 box 1 (text "late") 30 first_claim
      (replay-IsValid ((2000, claim 10) ∷ []) one_job one_job-IsValid)

enqueue_job_inner-Admits_example :
    ((j : Job) × (job box (enqueue_job_inner 3000 box (text "kind") (text "{2}") true one_job).0
        ≡ some j)
      × Admits 3000
          (one_job.last_id + 1)
          box
          (text "kind")
          (text "{2}")
          true
          (job box one_job)
          j
          (enqueue_job_inner 3000 box (text "kind") (text "{2}") true one_job).1)
    × ((enqueue_job_inner 3000 box (text "kind") (text "{2}") true one_job).1 ≡ false
        → (enqueue_job_inner 3000 box (text "kind") (text "{2}") true one_job).0 ≡ one_job)
    × ((k : Text)
        → k ≢ box
        → job k (enqueue_job_inner 3000 box (text "kind") (text "{2}") true one_job).0
          ≡ job k one_job)
enqueue_job_inner-Admits_example =
    enqueue_job_inner-Admits 3000 box (text "kind") (text "{2}") true one_job one_job-IsValid

abbrev done : Trace
done = (2000, claim 10) ∷ (3000, complete box 1) ∷ []

abbrev finished_box : Queue
finished_box = replay done one_job

abbrev finished_job : Job
finished_job = record {
  id = 1;
  work_key = box;
  job_kind = text "parameter_refresh";
  status = ready;
  payload_json = text "{1}";
  error_summary = none;
  attempt = 1;
  max_attempts = 3;
  lease_until = none;
  next_retry_at = none;
  created_at = 1000;
  updated_at = 3000;
}

finished_job_there : job box finished_box ≡ some finished_job
unfolding job find_job claim_next_job finish_job next_due comes_before replay execute enqueue_job
    text update_where affected text_eq
finished_job_there = refl

abbrev more_work : Trace
more_work =
    (3500, enqueue box (text "parameter_refresh") (text "{1}"))
    ∷ (3600, enqueue (text "lid") (text "parameter_refresh") (text "{2}"))
    ∷ (3700, supersede (text "lid"))
    ∷ (4000, claim 10)
    ∷ (5000, fail box 1 (text "late") 30)
    ∷ []

more_work_spares_it : All (λ (e : ℕ × Command). moves box e.1 finished_job ≡ false) more_work
unfolding text text_eq
more_work_spares_it = (refl, (refl, (refl, (refl, (refl, tt)))))

replay_settled_example : job box (replay more_work finished_box) ≡ some finished_job
replay_settled_example =
    replay_settled box more_work finished_box finished_job
      (replay-IsValid done one_job one_job-IsValid) more_work_spares_it finished_job_there refl

retry_failed_jobs-Retries_example :
    ((key : Text) → Retries 9 (job key one_job) (job key (retry_failed_jobs 9 one_job).0))
    × ((retry_failed_jobs 10 (retry_failed_jobs 9 one_job).0).1 ≡ 0)
retry_failed_jobs-Retries_example = retry_failed_jobs-Retries 9 10 one_job

retry_backoff_seconds_le_example :
    (retry_backoff_seconds (λ m. m / 2) 4 ≤ 30 * 2 ^ 3)
    × (retry_backoff_seconds (λ m. m / 2) 4 ≤ 300)
retry_backoff_seconds_le_example = retry_backoff_seconds_le (λ m. m / 2) 3 (λ m. omega arith)

-- A job that fails, while nobody else touches the table.
abbrev quiet_world : WorkerWorld
quiet_world = record {
  now = 2000;
  later = 3000;
  run_job = λ l q. (q, some (text "late"));
  random = λ m. m;
}

quiet_world-IsUndisturbed : IsUndisturbed quiet_world
quiet_world-IsUndisturbed = record { valid = λ l q v. v; holds = λ l q h. h }

claim_in_a_round :
    claim_next_job 2000 (15 * 60) one_job
    ≡ ((claim_next_job 2000 900 one_job).0, some (box_lease 1))
unfolding claim_next_job next_due comes_before replay execute enqueue_job text
claim_in_a_round = refl

process_next_job-Settles_example :
    Settles quiet_world (box_lease 1) (some (text "late")) (process_next_job quiet_world one_job)
unfolding text text_eq
process_next_job-Settles_example =
    process_next_job-Settles quiet_world one_job (claim_next_job 2000 900 one_job).0 (box_lease 1)
      quiet_world-IsUndisturbed one_job-IsValid claim_in_a_round

-- An attempt number fences a lease only until the job is requeued: a worker that kept the lease of
-- attempt 1 finishes the attempt 1 that another worker began after a forced requeue.
abbrev requeued_meanwhile : Trace
requeued_meanwhile =
    (2000, claim 10)
    ∷ (12000, claim 10)
    ∷ (13000, complete box 2)
    ∷ (14000, force_enqueue box (text "parameter_refresh") (text "{1}"))
    ∷ (15000, claim 10)
    ∷ []

stale_lease_finishes_new_claim :
    (finish_job 16000 box 1 ready none (replay requeued_meanwhile one_job)).1 ≡ true
unfolding claim_next_job finish_job next_due comes_before replay execute enqueue_job
    force_enqueue_job text update_where affected text_eq
stale_lease_finishes_new_claim = refl

abbrev attempt_of : Option Job → Option ℕ
attempt_of none = none
attempt_of (some j) = some j.attempt

-- An expired lease is claimed again although the attempts are used up.
abbrev expired_leases : Trace
expired_leases = (2000, claim 1) ∷ (4000, claim 1) ∷ (6000, claim 1) ∷ (8000, claim 1) ∷ []

attempts_pass_the_maximum : attempt_of (job box (replay expired_leases one_job)) ≡ some 4
unfolding job find_job claim_next_job next_due comes_before replay execute enqueue_job text
    update_where text_eq
attempts_pass_the_maximum = refl

abbrev enqueued_two : Trace
enqueued_two =
    (1000, enqueue box (text "parameter_refresh") (text "{1}"))
    ∷ (1000, enqueue (text "lid") (text "parameter_refresh") (text "{2}"))
    ∷ []

abbrev two_jobs : Queue
two_jobs = replay enqueued_two empty

two_due : due_jobs 2000 two_jobs ≡ 2
unfolding affected replay execute enqueue_job enqueue_job_inner text text_eq update_where
two_due = refl

claim_times-update_where_example :
    claim_times 3 2000 10 two_jobs
    ≡ record two_jobs { rows = update_where (is_due 2000) (claimed 2000 10) two_jobs.rows }
claim_times-update_where_example =
    claim_times-update_where 2000 10 (omega arith) 3 two_jobs
      (replay-IsValid enqueued_two empty empty-IsValid).ids (omega (arith, two_due))
