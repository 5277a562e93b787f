-- ===== src/Jobs/Fencing.antt =====
-- The attempt number fences a lease: once a job has been claimed again, the reports of the worker
-- that had it before change nothing, in any interleaving that does not requeue that job.
use mathlib.Core.Path.{subst}
use onshape_export.Base.{
  ℕ, ◌+◌, ◌≤◌, ◌<◌, ◌≡◌, ap, ◌∙◌, inl, inr, refl, Text, Bool, true, false, ◌&&◌, Option, none, some,
  [], ◌∷◌, arith, ◌==◌, update_where, Option-cases,
}
use onshape_export.Jobs.{
  Job, Queue, JobLease, JobStatus, running, has_status, next_due, claim_next_job, extend_job_lease,
  finish_job, record_job_failure, supersede_ready_job,
}
use onshape_export.Jobs.View.{find_job, job, selected, find_job-update_where}
use onshape_export.Jobs.Commands.{
  Command, claim, extend, complete, retire, fail, supersede, execute, Trace, replay, may_reset,
}
use onshape_export.Jobs.Consistency.{IsValid, execute-IsValid, replay-IsValid}
use onshape_export.Jobs.Claims.{IsClaim, claim_next_job-IsClaim}
use onshape_export.Jobs.Requeues.{requeues, execute-requeues}
use onshape_export.Jobs.Keyed.{
  Updates, applies, finish_job-Updates, record_job_failure-Updates, extend_job_lease-Updates,
}

-- The job is there, and at least the given attempt has begun.
abbrev pub HasBegun : ℕ → Option Job → Type 0
HasBegun n none = ⊥
HasBegun n (some j) = n ≤ j.attempt

abbrev pub HasReached : ℕ → Text → Queue → Type 0
HasReached n key q = HasBegun n (job key q)

-- The command does not requeue the job that the key has in the table.
abbrev pub SparesJob : Text → Command → Option Job → Type 0
SparesJob key c none = Unit
SparesJob key c (some j) = requeues key c j ≡ false

-- At no point of the trace does a command requeue the job that the key then has.
abbrev pub KeepsAttempts : Text → Trace → Queue → Type 0
KeepsAttempts key [] q = Unit
KeepsAttempts key ((now, c) ∷ rest) q =
    SparesJob key c (job key q) × KeepsAttempts key rest (execute now c q)

selected-HasBegun :
    (n : ℕ) (p : Job → Bool) (f : Job → Job) (o : Option Job)
    → ((j : Job) → j.attempt ≤ (f j).attempt)
    → HasBegun n o
    → HasBegun n (selected p f o)
selected-HasBegun n p f none grows h = h
selected-HasBegun n p f (some j) grows h = ground (arith, grows j)

updated-HasReached :
    (n : ℕ) (key : Text) (p : Job → Bool) (f : Job → Job) (q : Queue)
    → ((j : Job) → (f j).work_key ≡ j.work_key)
    → ((j : Job) → j.attempt ≤ (f j).attempt)
    → HasReached n key q
    → HasReached n key (record q { rows = update_where p f q.rows })
unfolding job
updated-HasReached n key p f q keeps grows h =
    rw (find_job-update_where p f keeps key q.rows)
      (selected-HasBegun n p f (find_job key q.rows) grows h)

claim-HasReached :
    (now seconds n : ℕ) (key : Text) (q : Queue)
    → HasReached n key q
    → HasReached n key (claim_next_job now seconds q).0
unfolding claim_next_job
claim-HasReached now seconds n key q h = elim (Option-cases (next_due now q.rows)) [
  | inl idle ↦ rw idle h
  | inr (j, picked) ↦ rw picked (updated-HasReached n key _ _ q (λ k. refl) (λ k. omega arith) h)
]

-- A command that may requeue jobs, but spares this one, leaves its attempts as they are.
spared-HasReached :
    (now n : ℕ) (key : Text) (c : Command) (q : Queue)
    → IsValid q
    → may_reset c ≡ true
    → SparesJob key c (job key q)
    → HasReached n key q
    → HasReached n key (execute now c q)
spared-HasReached now n key c q v may keep h = elim (Option-cases (job key q)) [
  | inl missing ↦ absurd (rw missing at h)
  | inr (j, there) ↦
      let spared : requeues key c j ≡ false = rw there at keep in
      let begun : n ≤ j.attempt = rw there at h in
      rw (execute-requeues now key c q j v may spared there) begun
]

-- Attempts only grow, until the job is requeued.
execute-HasReached :
    (now n : ℕ) (key : Text) (c : Command) (q : Queue)
    → IsValid q
    → SparesJob key c (job key q)
    → HasReached n key q
    → HasReached n key (execute now c q)
unfolding execute extend_job_lease finish_job record_job_failure supersede_ready_job
execute-HasReached now n key (claim seconds) q v keep h = claim-HasReached now seconds n key q h
execute-HasReached now n key (extend k attempt seconds) q v keep h =
    updated-HasReached n key _ _ q (λ j. refl) (λ j. omega arith) h
execute-HasReached now n key (complete k attempt) q v keep h =
    updated-HasReached n key _ _ q (λ j. refl) (λ j. omega arith) h
execute-HasReached now n key (retire k attempt why) q v keep h =
    updated-HasReached n key _ _ q (λ j. refl) (λ j. omega arith) h
execute-HasReached now n key (fail k attempt why delay) q v keep h =
    updated-HasReached n key _ _ q (λ j. refl) (λ j. omega arith) h
execute-HasReached now n key (supersede k) q v keep h =
    updated-HasReached n key _ _ q (λ j. refl) (λ j. omega arith) h
execute-HasReached now n key c q v keep h = spared-HasReached now n key c q v refl keep h

replay-HasReached :
    (n : ℕ) (key : Text) (trace : Trace) (q : Queue)
    → IsValid q
    → KeepsAttempts key trace q
    → HasReached n key q
    → HasReached n key (replay trace q)
unfolding replay
replay-HasReached n key [] q v keep h = h
replay-HasReached n key ((now, c) ∷ rest) q v keep h =
    replay-HasReached n key rest (execute now c q) (execute-IsValid now c q v) keep.1
      (execute-HasReached now n key c q v keep.0 h)

lease_is_void :
    (n : ℕ) (o : Option Job)
    → HasBegun (n + 1) o
    → applies (λ j. j.attempt == n && has_status running j.status) o ≡ false
lease_is_void n none h = refl
lease_is_void n (some j) h = ground arith

-- What is left of a lease that is void: each report is answered `false` and changes nothing.
pub record IsVoid (key : Text) (attempt : ℕ) (q : Queue) : Type 0 where
  pub finish :
      (now : ℕ) (status : JobStatus) (why : Option Text)
      → finish_job now key attempt status why q ≡ (q, false)
  pub failure :
      (now : ℕ) (why : Text) (delay : ℕ)
      → record_job_failure now key attempt why delay q ≡ (q, false)
  pub extension : (now seconds : ℕ) → extend_job_lease now key attempt seconds q ≡ (q, false)

refused_pair :
    {key : Text} {g : Job → Bool} {f : Job → Job} {q : Queue} (r : Queue × Bool)
    → Updates key g f q r
    → applies g (job key q) ≡ false
    → r ≡ (q, false)
refused_pair r u h = λ i. (u.refused h i, (u.result ∙ h) i)

reached-IsVoid :
    (key : Text) (n : ℕ) (q : Queue) → IsValid q → HasReached (n + 1) key q → IsVoid key n q
reached-IsVoid key n q v h = record {
  finish = λ now status why. refused_pair _ (finish_job-Updates now key q v n status why) void;
  failure =
      λ now why delay. refused_pair _ (record_job_failure-Updates now key q v n why delay) void;
  extension = λ now seconds. refused_pair _ (extend_job_lease-Updates now key q v n seconds) void;
}
  where
    void : applies (λ j. j.attempt == n && has_status running j.status) (job key q) ≡ false
    void = lease_is_void n (job key q) h

reached_by : (n : ℕ) (o : Option Job) (j : Job) → o ≡ some j → n ≤ j.attempt → HasBegun n o
reached_by n o j e h = rw e h

reached_at : (n : ℕ) (o : Option Job) (j : Job) → o ≡ some j → HasBegun n o → n ≤ j.attempt
reached_at n o j e h = rw e at h

claim_is_reached :
    {now seconds : ℕ} {q q' : Queue} {l : JobLease}
    → IsClaim now seconds q q' l
    → HasReached l.attempt l.work_key q'
claim_is_reached {l = l} c = reached_by l.attempt _ _ c.stands (ground (arith, c.lease))

-- A later claim of the same job has a larger attempt.
claim_after :
    {now seconds : ℕ} {q q' : Queue} {l : JobLease} (n : ℕ)
    → IsClaim now seconds q q' l
    → HasReached n l.work_key q
    → n + 1 ≤ l.attempt
claim_after n c h = let grown = reached_at n _ _ c.stood h in ground (arith, c.lease)

weaken : (n m : ℕ) (o : Option Job) → n ≤ m → HasBegun m o → HasBegun n o
weaken n m none le h = h
weaken n m (some j) le h = omega arith

claim-IsValid :
    (now seconds : ℕ) (q q' : Queue) (o : Option JobLease)
    → IsValid q
    → claim_next_job now seconds q ≡ (q', o)
    → IsValid q'
unfolding execute
claim-IsValid now seconds q q' o v e =
    subst IsValid (ap (λ (r : Queue × Option JobLease). r.0) e)
      (execute-IsValid now (claim seconds) q v)

module _ (now seconds now' seconds' : ℕ) (q q1 q2 : Queue) (lease lease' : JobLease)
    (between after : Trace) where
  -- On a valid table one worker claims a job; then any commands run, enqueues and retries among them,
  -- as long as none of them, in the table in which it runs, requeues this very job; a second worker
  -- claims the same job; again commands run on the same condition. Then the second lease has a larger
  -- attempt, and every report under the first lease is answered `false` and changes nothing.
  pub reclaimed_lease-IsVoid :
      IsValid q
      → claim_next_job now seconds q ≡ (q1, some lease)
      → KeepsAttempts lease.work_key between q1
      → claim_next_job now' seconds' (replay between q1) ≡ (q2, some lease')
      → lease'.work_key ≡ lease.work_key
      → KeepsAttempts lease.work_key after q2
      → (lease.attempt < lease'.attempt) × IsVoid lease.work_key lease.attempt (replay after q2)
  reclaimed_lease-IsVoid v first keep second same keep' =
      let v1 = claim-IsValid now seconds q q1 (some lease) v first in
      let v2 = replay-IsValid between q1 v1 in
      let v3 = claim-IsValid now' seconds' (replay between q1) q2 (some lease') v2 second in
      let c1 = claim_next_job-IsClaim now seconds q q1 lease v first in
      let c2 = claim_next_job-IsClaim now' seconds' (replay between q1) q2 lease' v2 second in
      let later = claim_after lease.attempt c2 (
        rw same (
          replay-HasReached lease.attempt lease.work_key between q1 v1 keep
            (claim_is_reached c1))) in
      let at_second = subst (λ key. HasReached lease'.attempt key q2) same (claim_is_reached c2) in
      (
        omega (arith, later),
        reached-IsVoid lease.work_key lease.attempt (replay after q2) (replay-IsValid after q2 v3) (
            replay-HasReached (lease.attempt + 1) lease.work_key after q2 v3 keep'
              (weaken (lease.attempt + 1) lease'.attempt _ later at_second)),
      )
