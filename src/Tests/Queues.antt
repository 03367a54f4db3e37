-- ===== src/Tests/Queues.antt =====
-- Runs for src/models/promise_queue.ts over the heap of src/models/priority_queue.ts.
use hathor_wallet_lib.Prelude.{ℕ, ◌+◌, ◌≡◌, refl, arith, inl, inr, Bool, true, false, List, [], ◌∷◌}
use hathor_wallet_lib.Queue.Interface.{Job, sum_jobs}
use hathor_wallet_lib.Queue.Heap.{priority_queue}
use hathor_wallet_lib.Queue.Priority.{push, sift_up, swap}
use hathor_wallet_lib.Queue.Tasks.{
  TaskQueue, IsBusy, add, process_queue, try_to_start_next_job, pending,
}
use hathor_wallet_lib.Queue.Progress.{process_queue-try_to_start}
use hathor_wallet_lib.Queue.Runs.{
  IsSteady, Run, done, next, adds, Run-IsSteady, drain, process_queue-drain,
}

abbrev job : ℕ → Bool → Job
job priority ends_at_once = record {
  name = priority;
  priority = priority;
  ends_at_once = ends_at_once;
}

abbrev state : List Job → TaskQueue priority_queue
state jobs = record {
  queue = jobs;
  jobs_running = 0;
  allowed_concurrent_jobs = 2;
  is_paused = false;
  started = [];
}

abbrev waiting : TaskQueue priority_queue
waiting = state (job 9 false ∷ job 4 true ∷ job 7 false ∷ [])

heap_of_three : push (job 9 false) (push (job 4 true) (push (job 7 false) [])) ≡ waiting.queue
unfolding push sift_up swap
heap_of_three = refl

process_queue-try_to_start_example :
    (try_to_start_next_job priority_queue (process_queue priority_queue waiting)).0 ≡ false
process_queue-try_to_start_example = process_queue-try_to_start priority_queue waiting

process_queue-drain_example :
    (pending priority_queue (drain priority_queue 3 (process_queue priority_queue waiting)) ≡ 0)
    × ((f : Job → ℕ)
        → sum_jobs f (drain priority_queue 3 (process_queue priority_queue waiting)).started
          ≡ sum_jobs f waiting.queue + sum_jobs f [])
process_queue-drain_example =
    process_queue-drain priority_queue waiting 3 refl (omega arith) (omega arith)

abbrev idle : TaskQueue priority_queue
idle = state []

abbrev after_add : TaskQueue priority_queue
after_add = add priority_queue (job 5 false) idle

abbrev two_steps : Run priority_queue idle (add priority_queue (job 6 true) after_add)
two_steps =
    next idle after_add _ (adds (job 5 false) idle)
      (next after_add _ _ (adds (job 6 true) after_add) (done _))

idle-IsSteady : IsSteady priority_queue idle
unfolding IsSteady IsBusy
idle-IsSteady = (inr (inl refl), omega arith)

Run-IsSteady_example : IsSteady priority_queue (add priority_queue (job 6 true) after_add)
Run-IsSteady_example = Run-IsSteady priority_queue idle _ two_steps (tt, (tt, tt)) idle-IsSteady
