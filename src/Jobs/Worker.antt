-- ===== src/Jobs/Worker.antt =====
-- The worker of src/main.rs: one round of `process_next_job`, and the delay before a retry.
pub mod Backoff
pub mod Rounds
use onshape_export.Base.{
  ℕ, zero, suc, ◌+◌, ◌-◌, ◌*◌, ◌^◌, ◌≤◌, ◌<◌, min, ◌≡◌, sym, ap, ◌∙◌, refl, Text, text, text_eq,
  starts_with, Bool, true, false, not, ◌&&◌, ◌||◌, Option, none, some, arith, ltb, ◌==◌,
  if◌then◌else◌,
}
use onshape_export.Jobs.{
  Job, Queue, JobLease, JobStatus, queued, running, ready, failed, superseded, claim_next_job,
  extend_job_lease, finish_job, record_job_failure, seconds_after, has_status,
}
use onshape_export.Jobs.View.{job}
use onshape_export.Jobs.Consistency.{IsValid}
use onshape_export.Jobs.Keyed.{
  Updates, change, applies, finish_job-Updates, record_job_failure-Updates,
}

abbrev pub retry_backoff_base_seconds : ℕ
retry_backoff_base_seconds = 30

abbrev pub retry_backoff_cap_seconds : ℕ
retry_backoff_cap_seconds = 5 * 60

abbrev i64_max : ℕ
i64_max = 2 ^ 63 - 1

-- `attempt.saturating_sub(1).min(10) as u32`: at attempt 0 the difference is -1, which the cast takes
-- to 2^32 - 1.
abbrev backoff_exponent : ℕ → ℕ
backoff_exponent zero = 2 ^ 32 - 1
backoff_exponent (suc n) = min n 10

-- `1_i64.checked_shl(exponent).unwrap_or(i64::MAX)`; a shift of 63 gives the least i64, and is not
-- reached.
abbrev backoff_multiplier : ℕ → ℕ
backoff_multiplier e = elim (ltb e 63) [ true ↦ 2 ^ e | false ↦ i64_max ]

max_delay : ℕ → ℕ
max_delay attempt =
    min (min (retry_backoff_base_seconds * backoff_multiplier (backoff_exponent attempt)) i64_max)
      retry_backoff_cap_seconds

-- `random m` stands for `fastrand::i64(0..=m)`.
unfoldable pub retry_backoff_seconds : (ℕ → ℕ) → ℕ → ℕ
unfolding max_delay
retry_backoff_seconds random attempt = random (max_delay attempt)

abbrev pub v2_export_work_key_prefix : Text
v2_export_work_key_prefix = text "work-v2:export:"

unfoldable pub should_retire_legacy_export_job : JobLease → Bool
should_retire_legacy_export_job l =
    (text_eq l.job_kind (text "preview_export") || text_eq l.job_kind (text "download_export"))
    && not (starts_with l.work_key v2_export_work_key_prefix)

-- `Ok(false)`, `Ok(true)` and `Err` of `process_next_job`.
pub data Outcome : Type 0 where
  idle worked : Outcome
  errored : Text → Outcome

-- What the worker meets: `run_job` stands for `execute_job`, with all that others do to the table
-- meanwhile; it answers `none` for `Ok(())`. The round ends at the time `later`.
pub record WorkerWorld : Type 0 where
  pub now : ℕ
  pub later : ℕ
  pub run_job : JobLease → Queue → Queue × Option Text
  pub random : ℕ → ℕ

abbrev pub legacy_message : Text
legacy_message = text "legacy export jobs are retired after the cache v2 hard cut"

-- The match on the result of `execute_job`.
unfoldable pub report : WorkerWorld → JobLease → Queue → Option Text → Queue × Outcome
unfolding retry_backoff_seconds
report w l q none = ((finish_job w.later l.work_key l.attempt ready none q).0, worked)
report w l q (some summary) =
    if ltb l.attempt l.max_attempts
    then (
      (record_job_failure w.later l.work_key l.attempt summary
          (retry_backoff_seconds w.random l.attempt) q).0,
      worked,
    )
    else ((record_job_failure w.later l.work_key l.attempt summary 0 q).0, errored summary)

unfoldable pub run_claimed : WorkerWorld → JobLease → Queue → Queue × Outcome
unfolding report should_retire_legacy_export_job
run_claimed w l q =
    if should_retire_legacy_export_job l
    then ((finish_job w.now l.work_key l.attempt superseded (some legacy_message) q).0, worked)
    else (let (q', result) = w.run_job l q in report w l q' result)

abbrev after_extension : WorkerWorld → JobLease → Queue × Bool → Queue × Outcome
after_extension w l (q, held) = if held then run_claimed w l q else (q, worked)

abbrev after_claim : WorkerWorld → Queue → Option JobLease → Queue × Outcome
after_claim w q none = (q, idle)
after_claim w q (some l) =
    if text_eq l.job_kind (text "bambu_project")
    then after_extension w l (extend_job_lease w.now l.work_key l.attempt (35 * 60) q)
    else run_claimed w l q

unfoldable pub process_next_job : WorkerWorld → Queue → Queue × Outcome
unfolding run_claimed
process_next_job w q = let (q', claim) = claim_next_job w.now (15 * 60) q in after_claim w q' claim
