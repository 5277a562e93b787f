-- ===== src/Jobs/Commands.antt =====
-- Every statement on the table `jobs` as a command, so that an interleaving of workers, requests and
-- operators is a list of commands with the times at which they run.
use onshape_export.Base.{ℕ, ◌≡◌, refl, Text, Bool, true, false, none, some, List, [], ◌∷◌, ◌++◌}
use onshape_export.Jobs.{
  Queue, ready, superseded, enqueue_job, force_enqueue_job, claim_next_job, extend_job_lease,
  finish_job, record_job_failure, supersede_ready_job, retry_failed_jobs, retry_failed_job,
  retry_failed_jobs_by_kind,
}

pub data Command : Type 0 where
  enqueue force_enqueue : Text → Text → Text → Command
  claim : ℕ → Command
  extend : Text → ℕ → ℕ → Command
  complete : Text → ℕ → Command
  retire : Text → ℕ → Text → Command
  fail : Text → ℕ → Text → ℕ → Command
  supersede : Text → Command
  retry_all : Command
  retry : Text → Command
  retry_kind : Text → Command

-- The table after one command. `complete` and `retire` are the two ways in which a worker calls
-- `finish_job`.
unfoldable pub execute : ℕ → Command → Queue → Queue
execute now (enqueue key kind payload) q = (enqueue_job now key kind payload q).0
execute now (force_enqueue key kind payload) q = (force_enqueue_job now key kind payload q).0
execute now (claim lease_seconds) q = (claim_next_job now lease_seconds q).0
execute now (extend key attempt seconds) q = (extend_job_lease now key attempt seconds q).0
execute now (complete key attempt) q = (finish_job now key attempt ready none q).0
execute now (retire key attempt why) q = (finish_job now key attempt superseded (some why) q).0
execute now (fail key attempt why delay) q = (record_job_failure now key attempt why delay q).0
execute now (supersede key) q = (supersede_ready_job now key q).0
execute now retry_all q = (retry_failed_jobs now q).0
execute now (retry key) q = (retry_failed_job now key q).0
execute now (retry_kind kind) q = (retry_failed_jobs_by_kind now kind q).0

abbrev pub Trace : Type 0
Trace = List (ℕ × Command)

unfoldable pub replay : Trace → Queue → Queue
replay [] q = q
replay ((now, c) ∷ rest) q = replay rest (execute now c q)

-- The commands that set `attempt` back to 0 in rows that they select.
abbrev pub may_reset : Command → Bool
may_reset (enqueue key kind payload) = true
may_reset (force_enqueue key kind payload) = true
may_reset retry_all = true
may_reset (retry key) = true
may_reset (retry_kind kind) = true
may_reset _ = false

pub replay-append : (a b : Trace) (q : Queue) → replay (a ++ b) q ≡ replay b (replay a q)
unfolding replay
replay-append [] b q = refl
replay-append ((now, c) ∷ a) b q = replay-append a b (execute now c q)
