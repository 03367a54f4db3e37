-- ===== src/Queue/Tasks.antt =====
-- src/models/promise_queue.ts: the state of PromiseQueue and its operations. An event is only emitted, and
-- a timer only calls `tick`, the body of the interval.
use hathor_wallet_lib.Prelude.{
  ℕ, zero, suc, ◌+◌, ◌-◌, ◌≤◌, ◌≡◌, ◌⊎◌, Bool, true, false, ◌==◌, Option, none, some, List, ◌∷◌,
  ltb, if◌then◌else◌,
}
use hathor_wallet_lib.Result.{Result, ok, err, value_not_positive}
use hathor_wallet_lib.Queue.Interface.{Job, JobQueue, sum_jobs}

module _ (Q : JobQueue) where
  pub record TaskQueue : Type 0 where
    pub queue : Q.Queue
    pub jobs_running : ℕ
    pub allowed_concurrent_jobs : ℕ
    pub is_paused : Bool
    -- The jobs called so far, the last one first; only the events say so in the source.
    pub started : List Job

  -- The end of a job, in #next.
  abbrev pub one_less : TaskQueue → TaskQueue
  one_less s = record s { jobs_running = s.jobs_running - 1 }

  -- The job is counted; one that ends at once runs #next before the call returns, which tries again.
  unfoldable pub start_popped :
      (TaskQueue → Bool × TaskQueue) → TaskQueue → Option (Job × Q.Queue) → Bool × TaskQueue
  start_popped again s none = (false, s)
  start_popped again s (some (job, q)) =
      let started = record s {
        queue = q;
        jobs_running = s.jobs_running + 1;
        started = job ∷ s.started;
      } in
      (true, if job.ends_at_once then (again (one_less started)).1 else started)

  -- #tryToStartNextJob, with a round for each job that waits.
  unfoldable pub try_to_start : ℕ → TaskQueue → Bool × TaskQueue
  try_to_start zero s = (false, s)
  try_to_start (suc fuel) s =
      if s.is_paused
      then (false, s)
      else if Q.size s.queue == 0
      then (false, s)
      else if ltb s.jobs_running s.allowed_concurrent_jobs
      then start_popped (try_to_start fuel) s (Q.pop s.queue)
      else (false, s)

  abbrev pub try_to_start_next_job : TaskQueue → Bool × TaskQueue
  try_to_start_next_job s = try_to_start (suc (Q.size s.queue)) s

  -- `while (this.#tryToStartNextJob()) {}`
  abbrev pub repeat_while : (TaskQueue → TaskQueue) → Bool × TaskQueue → TaskQueue
  repeat_while again (true, s) = again s
  repeat_while again (false, s) = s

  unfoldable pub process_loop : ℕ → TaskQueue → TaskQueue
  process_loop zero s = s
  process_loop (suc fuel) s = repeat_while (process_loop fuel) (try_to_start_next_job s)

  unfoldable pub process_queue : TaskQueue → TaskQueue
  process_queue s = process_loop (suc (Q.size s.queue)) s

  unfoldable pub add : Job → TaskQueue → TaskQueue
  add job s = process_queue (record s { queue = Q.push job s.queue })

  -- The `finally` of a job that ends later.
  unfoldable pub finish_job : TaskQueue → TaskQueue
  finish_job s = (try_to_start_next_job (one_less s)).1

  abbrev pub stop : TaskQueue → TaskQueue
  stop s = record s { is_paused = true }

  -- `continue`, and the start of the interval
  unfoldable pub go_on : TaskQueue → TaskQueue
  go_on s = process_queue (record s { is_paused = false })

  unfoldable pub tick : TaskQueue → TaskQueue
  tick s = if s.is_paused then s else process_queue s

  abbrev pub set_concurrent : ℕ → TaskQueue → Result TaskQueue
  set_concurrent value s =
      if ltb value 1
      then err value_not_positive
      else ok (record s { allowed_concurrent_jobs = value })

  -- No job waits that could run.
  unfoldable pub IsBusy : TaskQueue → Type 0
  IsBusy s =
      (s.is_paused ≡ true) ⊎ ((Q.size s.queue ≡ 0) ⊎ (s.allowed_concurrent_jobs ≤ s.jobs_running))

  -- A measure over the jobs that wait or were called.
  abbrev pub known : (Job → ℕ) → TaskQueue → ℕ
  known f s = Q.sum f s.queue + sum_jobs f s.started

  -- The jobs that wait or run.
  abbrev pub pending : TaskQueue → ℕ
  pending s = Q.size s.queue + s.jobs_running
