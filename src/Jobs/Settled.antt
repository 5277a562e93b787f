-- ===== src/Jobs/Settled.antt =====
-- A settled job stays settled until a command on this very job puts it back into the queue.
use onshape_export.Base.{
  ◌&&◌, text_eq, ℕ, ◌≡◌, inl, inr, refl, Text, text_eq_iff, Bool, true, false, ◌||◌, some, [], ◌∷◌,
  arith, ◌==◌, All, Bool-cases, Option-cases,
}
use onshape_export.Jobs.{
  supersede_ready_job, Job, Queue, JobStatus, ready, superseded, failed, has_status, next_due,
  is_due, claim_next_job, extend_job_lease, finish_job, record_job_failure,
}
use onshape_export.Jobs.View.{find_job_has_key, find_job, job}
use onshape_export.Jobs.Commands.{
  Command, claim, extend, complete, retire, fail, supersede, execute, Trace, replay,
}
use onshape_export.Jobs.Consistency.{IsValid, execute-IsValid}
use onshape_export.Jobs.Claims.{next_due-All, next_due-is_due}
use onshape_export.Jobs.Unique.{rows_are_found, same_id}
use onshape_export.Jobs.Requeues.{requeues, unselected_row, execute-requeues}

abbrev pub is_settled : JobStatus → Bool
is_settled status =
    has_status ready status || has_status failed status || has_status superseded status

-- What moves a job that has settled: a requeue, or the retirement of a ready job under its own key.
abbrev pub moves : Text → Command → Job → Bool
moves key (supersede k) j = text_eq k key && has_status ready j.status
moves key c j = requeues key c j

settled_is_not_due : (now : ℕ) (j : Job) → is_settled j.status ≡ true → is_due now j ≡ false
settled_is_not_due now j h = ground arith

not_the_claimed :
    (now : ℕ) (key : Text) (q : Queue) (j m : Job)
    → IsValid q
    → job key q ≡ some j
    → is_settled j.status ≡ true
    → next_due now q.rows ≡ some m
    → (j.id == m.id) ≡ false
not_the_claimed now key q j m v there settled picked = elim (Bool-cases (j.id == m.id)) [
  | inr apart ↦ apart
  | inl shared ↦
      let found =
        next_due-All (λ j. find_job j.work_key q.rows ≡ some j) now q.rows m picked
          (rows_are_found q.rows v.keys) in
      let same = same_id q.rows key m.work_key j m v.ids (unfold job in there) found shared in
      let due = next_due-is_due now q.rows m picked in
      let idle = settled_is_not_due now j settled in absurd (cc (same, due, idle))
]

claim_settled :
    (now seconds : ℕ) (key : Text) (q : Queue) (j : Job)
    → IsValid q
    → job key q ≡ some j
    → is_settled j.status ≡ true
    → job key (claim_next_job now seconds q).0 ≡ some j
unfolding claim_next_job
claim_settled now seconds key q j v there settled = elim (Option-cases (next_due now q.rows)) [
  | inl idle ↦ rw idle there
  | inr (m, picked) ↦ rw picked (
      unselected_row key _ _ q j (λ i. refl) (not_the_claimed now key q j m v there settled picked)
        there)
]

execute_settled :
    (now : ℕ) (key : Text) (c : Command) (q : Queue) (j : Job)
    → IsValid q
    → moves key c j ≡ false
    → job key q ≡ some j
    → is_settled j.status ≡ true
    → job key (execute now c q) ≡ some j
unfolding execute extend_job_lease finish_job record_job_failure supersede_ready_job
execute_settled now key (claim seconds) q j v ok there settled =
    claim_settled now seconds key q j v there settled
execute_settled now key (extend k attempt seconds) q j v ok there settled =
    unselected_row key _ _ q j (λ i. refl) (ground (arith, settled)) there
execute_settled now key (complete k attempt) q j v ok there settled =
    unselected_row key _ _ q j (λ i. refl) (ground (arith, settled)) there
execute_settled now key (retire k attempt why) q j v ok there settled =
    unselected_row key _ _ q j (λ i. refl) (ground (arith, settled)) there
execute_settled now key (fail k attempt why delay) q j v ok there settled =
    unselected_row key _ _ q j (λ i. refl) (ground (arith, settled)) there
execute_settled now key (supersede k) q j v ok there settled =
    unselected_row key _ _ q j (λ i. refl)
      (let here = find_job_has_key key q.rows {j = j} (unfold job in there) in
        ground (arith, ok, text_eq_iff j.work_key k, text_eq_iff k key, here))
      there
execute_settled now key c q j v ok there settled = execute-requeues now key c q j v refl ok there

-- On a valid table a job that is ready, failed or superseded stays exactly as it is through any commands
-- of workers, requests and operators, among them enqueues, retries and retirements of other jobs, as
-- long as no command of the trace would, from the status it has, requeue this very job, or retire it
-- where it is ready.
pub replay_settled :
    (key : Text) (trace : Trace) (q : Queue) (j : Job)
    → IsValid q
    → All (λ (e : ℕ × Command). moves key e.1 j ≡ false) trace
    → job key q ≡ some j
    → is_settled j.status ≡ true
    → job key (replay trace q) ≡ some j
unfolding replay
replay_settled key [] q j v ok there settled = there
replay_settled key ((now, c) ∷ rest) q j v ok there settled =
    replay_settled key rest (execute now c q) j (execute-IsValid now c q v) ok.1
      (execute_settled now key c q j v ok.0 there settled) settled
