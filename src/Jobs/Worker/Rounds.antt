-- ===== src/Jobs/Worker/Rounds.antt =====
-- One round of the worker ends the lease that it took.
use mathlib.Core.Path.{subst}
use onshape_export.Base.{
  ℕ, ◌*◌, ◌≤◌, ◌<◌, ◌≡◌, inl, inr, ap, refl, Text, text, text_eq, true, Option, none, some, arith,
  ltb, false, if◌then◌else◌, Bool-cases,
}
use onshape_export.Jobs.{
  Job, Queue, JobLease, queued, running, ready, failed, superseded, claimed, claim_next_job,
  extend_job_lease, seconds_after,
}
use onshape_export.Jobs.View.{job}
use onshape_export.Jobs.Commands.{execute, claim, extend}
use onshape_export.Jobs.Consistency.{IsValid, execute-IsValid}
use onshape_export.Jobs.Claims.{IsClaim, claim_next_job-IsClaim}
use onshape_export.Jobs.Keyed.{
  finish_job-Updates, record_job_failure-Updates, extend_job_lease-Updates,
}
use onshape_export.Jobs.Worker.{
  legacy_message, WorkerWorld, Outcome, worked, errored, report, run_claimed, after_claim,
  after_extension, process_next_job, retry_backoff_seconds, should_retire_legacy_export_job,
}

-- The job runs on the lease.
pub record Holds (l : JobLease) (q : Queue) : Type 0 where
  pub held : Job
  pub there : job l.work_key q ≡ some held
  pub runs : held.status ≡ running
  pub same_attempt : held.attempt ≡ l.attempt
  pub same_budget : held.max_attempts ≡ l.max_attempts

-- `execute_job`, with all that others do meanwhile, keeps the table valid and the job leased.
pub record IsUndisturbed (w : WorkerWorld) : Type 0 where
  pub valid : (l : JobLease) (q : Queue) → IsValid q → IsValid (w.run_job l q).0
  pub holds : (l : JobLease) (q : Queue) → Holds l q → Holds l (w.run_job l q).0

-- The table in which the leased job is run: a project first gets a longer lease.
abbrev pub started_from : WorkerWorld → JobLease → Queue → Queue
started_from w l q =
    if text_eq l.job_kind (text "bambu_project")
    then (extend_job_lease w.now l.work_key l.attempt (35 * 60) q).0
    else q

-- The four ways in which a leased job ends, by what its run returned: `result` is `none` for success and
-- otherwise the error's summary.
pub data Ends (w : WorkerWorld) (l : JobLease) (j : Job) : Option Text → Outcome → Type 0 where
  is_ready :
      should_retire_legacy_export_job l ≡ false
      → j.status ≡ ready
      → j.error_summary ≡ none
      → Ends w l j none worked
  is_retired :
      (result : Option Text)
      → should_retire_legacy_export_job l ≡ true
      → j.status ≡ superseded
      → Ends w l j result worked
  waits :
      (summary : Text)
      → should_retire_legacy_export_job l ≡ false
      → j.status ≡ queued
      → j.error_summary ≡ some summary
      → l.attempt < l.max_attempts
      → j.next_retry_at ≡ some (seconds_after w.later (retry_backoff_seconds w.random l.attempt))
      → Ends w l j (some summary) worked
  gives_up :
      (summary : Text)
      → should_retire_legacy_export_job l ≡ false
      → j.status ≡ failed
      → j.error_summary ≡ some summary
      → l.max_attempts ≤ l.attempt
      → Ends w l j (some summary) (errored summary)

-- The job of the lease afterwards, where its run returned this result.
pub record Settles (w : WorkerWorld) (l : JobLease) (result : Option Text) (r : Queue × Outcome)
    : Type 0 where
  pub left : Job
  pub there : job l.work_key r.0 ≡ some left
  pub lease_over : left.lease_until ≡ none
  pub same_attempt : left.attempt ≡ l.attempt
  pub ends : Ends w l left result r.1

module _ (w : WorkerWorld) (l : JobLease) where
  report-Settles :
      (q : Queue) (result : Option Text)
      → should_retire_legacy_export_job l ≡ false
      → IsValid q
      → Holds l q
      → Settles w l result (report w l q result)
  unfolding report
  report-Settles q none current v h =
      let u = finish_job-Updates w.later l.work_key q v l.attempt ready none in
      record {
        left = record h.held {
          status = ready;
          error_summary = none;
          lease_until = none;
          next_retry_at = none;
          updated_at = w.later;
        };
        there = ground (arith, u.here, h.there, h.runs, h.same_attempt);
        lease_over = refl;
        same_attempt = h.same_attempt;
        ends = is_ready current refl refl;
      }
  report-Settles q (some summary) current v h = elim (Bool-cases (ltb l.attempt l.max_attempts)) [
    | inl more ↦
        let delay = retry_backoff_seconds w.random l.attempt in
        let u = record_job_failure-Updates w.later l.work_key q v l.attempt summary delay in
        rw more (record {
          left = record h.held {
            status = queued;
            error_summary = some summary;
            lease_until = none;
            next_retry_at = some (seconds_after w.later delay);
            updated_at = w.later;
          };
          there = ground (arith, u.here, h.there, h.runs, h.same_attempt, h.same_budget);
          lease_over = refl;
          same_attempt = h.same_attempt;
          ends = waits summary current refl refl (ground arith) refl;
        })
    | inr done ↦
        let u = record_job_failure-Updates w.later l.work_key q v l.attempt summary 0 in
        rw done (record {
          left = record h.held {
            status = failed;
            error_summary = some summary;
            lease_until = none;
            next_retry_at = none;
            updated_at = w.later;
          };
          there = ground (arith, u.here, h.there, h.runs, h.same_attempt, h.same_budget);
          lease_over = refl;
          same_attempt = h.same_attempt;
          ends = gives_up summary current refl refl (ground arith);
        })
  ]

  run_claimed-Settles :
      (q : Queue)
      → IsUndisturbed w
      → IsValid q
      → Holds l q
      → Settles w l (w.run_job l q).1 (run_claimed w l q)
  unfolding run_claimed
  run_claimed-Settles q calm v h = elim (Bool-cases (should_retire_legacy_export_job l)) [
    | inl legacy ↦
        let u =
          finish_job-Updates w.now l.work_key q v l.attempt superseded (some legacy_message) in
        rw legacy (record {
          left = record h.held {
            status = superseded;
            error_summary = some legacy_message;
            lease_until = none;
            next_retry_at = none;
            updated_at = w.now;
          };
          there = ground (arith, u.here, h.there, h.runs, h.same_attempt);
          lease_over = refl;
          same_attempt = h.same_attempt;
          ends = is_retired _ legacy refl;
        })
    | inr current ↦ rw current (
        report-Settles (w.run_job l q).0 (w.run_job l q).1 current (calm.valid l q v)
          (calm.holds l q h))
  ]

  after_extension-Settles :
      (seconds : ℕ) (q : Queue)
      → IsUndisturbed w
      → IsValid q
      → Holds l q
      → Settles w l
          (w.run_job l (extend_job_lease w.now l.work_key l.attempt seconds q).0).1
          (after_extension w l (extend_job_lease w.now l.work_key l.attempt seconds q))
  after_extension-Settles seconds q calm v h =
      let u = extend_job_lease-Updates w.now l.work_key q v l.attempt seconds in
      let yes_held : (extend_job_lease w.now l.work_key l.attempt seconds q).1 ≡ true =
        ground (arith, u.result, h.there, h.runs, h.same_attempt) in
      rw yes_held (
        run_claimed-Settles (extend_job_lease w.now l.work_key l.attempt seconds q).0 calm
          (unfold execute in execute-IsValid w.now (extend l.work_key l.attempt seconds) q v)
          (record {
            held = record h.held { lease_until = some (seconds_after w.now seconds) };
            there = ground (arith, u.here, h.there, h.runs, h.same_attempt);
            runs = h.runs;
            same_attempt = h.same_attempt;
            same_budget = h.same_budget;
          }))

  after_claim-Settles :
      (q : Queue)
      → IsUndisturbed w
      → IsValid q
      → Holds l q
      → Settles w l (w.run_job l (started_from w l q)).1 (after_claim w q (some l))
  after_claim-Settles q calm v h = elim (Bool-cases (text_eq l.job_kind (text "bambu_project"))) [
    | inl project ↦ rw project (after_extension-Settles (35 * 60) q calm v h)
    | inr other ↦ rw other (run_claimed-Settles q calm v h)
  ]

claim_holds :
    {now seconds : ℕ} {q q' : Queue} {l : JobLease} → IsClaim now seconds q q' l → Holds l q'
claim_holds {now} {seconds} c = record {
  held = claimed now seconds c.taken;
  there = c.stands;
  runs = refl;
  same_attempt = ground (arith, c.lease);
  same_budget = ground (arith, c.lease);
}

-- One round on a valid table, in which the job's own run leaves its lease alone: if it claims a job, then
-- afterwards that job has no lease and still the attempt of the claim. Let the result be what running the
-- job returns in the claimed table, in which a project's lease has been extended by 35 minutes. A legacy
-- export is superseded, whatever the result. Any other job is ready and without error when the run
-- succeeded; when it returned an error, the job has the error's summary, and is queued again after
-- the backoff if an attempt is left, or failed if none is, and only then the round returns the
-- error.
pub process_next_job-Settles :
    (w : WorkerWorld) (q q' : Queue) (l : JobLease)
    → IsUndisturbed w
    → IsValid q
    → claim_next_job w.now (15 * 60) q ≡ (q', some l)
    → Settles w l (w.run_job l (started_from w l q')).1 (process_next_job w q)
unfolding process_next_job
process_next_job-Settles w q q' l calm v e =
    let v' =
      subst IsValid (ap (λ (r : Queue × Option JobLease). r.0) e)
        (unfold execute in execute-IsValid w.now (claim (15 * 60)) q v) in
    rw e (
      after_claim-Settles w l q' calm v'
        (claim_holds (claim_next_job-IsClaim w.now (15 * 60) q q' l v e)))
