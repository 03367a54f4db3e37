-- ===== src/Queue/Progress.antt =====
-- PromiseQueue (src/models/promise_queue.ts) never leaves a job waiting that could run, and comes to an end.
use hathor_wallet_lib.Prelude.{
  ℕ, zero, suc, ◌+◌, ◌≤◌, ◌<◌, ◌≡◌, refl, sym, ◌∙◌, arith, inl, inr, ◌≢◌, ==_iff, ltb→lt, Bool,
  true, false, ◌==◌, Option, none, some, ◌∷◌, ltb, if◌then◌else◌, if_cases,
}
use hathor_wallet_lib.Queue.Interface.{Job, JobQueue, sum_jobs}
use hathor_wallet_lib.Queue.Tasks.{
  TaskQueue, one_less, start_popped, try_to_start, try_to_start_next_job, repeat_while,
  process_loop, process_queue, IsBusy, pending, known,
}

true≢false : true ≢ false
true≢false h = cc

module _ (Q : JobQueue) where
  -- What a try does: if it fails nothing changes and nothing could run; if not, a job has left the queue.
  -- Where at most one job less than allowed runs, no job waits that could run afterwards.
  pub record Tries (s : TaskQueue Q) (r : Bool × TaskQueue Q) : Type 0 where
    pub failed : r.0 ≡ false → (r.1 ≡ s) × IsBusy Q s
    pub taken : r.0 ≡ true → Q.size r.1.queue < Q.size s.queue
    pub no_more : Q.size r.1.queue ≤ Q.size s.queue
    pub fewer : pending Q r.1 ≤ pending Q s
    pub kept : (f : Job → ℕ) → known Q f r.1 ≡ known Q f s
    pub same_pause : r.1.is_paused ≡ s.is_paused
    pub same_allowed : r.1.allowed_concurrent_jobs ≡ s.allowed_concurrent_jobs
    pub busy : s.allowed_concurrent_jobs ≤ suc s.jobs_running → IsBusy Q r.1
    pub bounded :
        s.jobs_running ≤ s.allowed_concurrent_jobs → r.1.jobs_running ≤ s.allowed_concurrent_jobs

  no_try : (s : TaskQueue Q) → IsBusy Q s → Tries s (false, s)
  no_try s h = record {
    failed = λ _. (refl, h);
    taken = λ e. absurd (true≢false (sym e));
    no_more = omega arith;
    fewer = omega arith;
    kept = λ f. refl;
    same_pause = refl;
    same_allowed = refl;
    busy = λ _. h;
    bounded = λ b. b;
  }

  module _ (again : TaskQueue Q → Bool × TaskQueue Q) (s : TaskQueue Q)
      (lt : s.jobs_running < s.allowed_concurrent_jobs)
      (again-Tries : (t : TaskQueue Q) → Q.size t.queue < Q.size s.queue → Tries t (again t)) where
    started : Job → Q.Queue → TaskQueue Q
    started job q = record s {
      queue = q;
      jobs_running = s.jobs_running + 1;
      started = job ∷ s.started;
    }

    run-Tries :
        (job : Job) (q : Q.Queue) (ends_at_once : Bool)
        → Q.size s.queue ≡ suc (Q.size q)
        → ((f : Job → ℕ) → Q.sum f s.queue ≡ f job + Q.sum f q)
        → Tries s
            (true, if ends_at_once then (again (one_less Q (started job q))).1 else started job q)
    unfolding started IsBusy sum_jobs
    run-Tries job q false e given = record {
      failed = λ h. absurd (true≢false h);
      taken = λ _. omega (arith, e);
      no_more = omega (arith, e);
      fewer = omega (arith, e);
      kept = λ f. omega (arith, given f);
      same_pause = refl;
      same_allowed = refl;
      busy = λ h. inr (inr (omega (arith, h)));
      bounded = λ _. omega (arith, lt);
    }
    run-Tries job q true e given =
        let rest = again-Tries (one_less Q (started job q)) (omega (arith, e)) in
        record {
          failed = λ h. absurd (true≢false h);
          taken = λ _. omega (arith, e, rest.no_more);
          no_more = omega (arith, e, rest.no_more);
          fewer = omega (arith, e, rest.fewer);
          kept = λ f. omega (arith, given f, rest.kept f);
          same_pause = rest.same_pause;
          same_allowed = rest.same_allowed;
          busy = λ h. rest.busy (omega (arith, h));
          bounded = λ b. rest.bounded (omega (arith, b));
        }

    start-Tries :
        (popped : Option (Job × Q.Queue))
        → Q.pop s.queue ≡ popped
        → 0 < Q.size s.queue
        → Tries s (start_popped Q again s popped)
    unfolding start_popped started
    start-Tries none e h = absurd (omega (arith, Q.pop-none s.queue e))
    start-Tries (some (job, q)) e h =
        run-Tries job q job.ends_at_once (Q.pop-some s.queue q job e)
          (λ f. Q.sum-pop f s.queue q job e)

  try-Tries : (fuel : ℕ) (s : TaskQueue Q) → Q.size s.queue < fuel → Tries s (try_to_start Q fuel s)
  unfolding try_to_start IsBusy
  try-Tries zero s h = absurd (omega arith)
  try-Tries (suc fuel) s h =
      if_cases (Tries s) s.is_paused _ _ (λ paused. no_try s (inl paused))
        (λ _.
          if_cases (Tries s) (Q.size s.queue == 0) _ _
            (λ none_waits. no_try s (inr (inl ((==_iff _ _).0 none_waits))))
            (λ some_wait.
              if_cases (Tries s) (ltb s.jobs_running s.allowed_concurrent_jobs) _ _
                (λ room.
                  start-Tries (try_to_start Q fuel) s (ltb→lt _ _ room)
                    (λ t lt. try-Tries fuel t (omega (arith, lt, h))) (Q.pop s.queue) refl
                    (ground arith))
                (λ full. no_try s (inr (inr (ground arith))))))

  pub try_next-Tries : (s : TaskQueue Q) → Tries s (try_to_start_next_job Q s)
  try_next-Tries s = try-Tries (suc (Q.size s.queue)) s (omega arith)

  try_to_start-IsBusy : (s : TaskQueue Q) → IsBusy Q s → (try_to_start_next_job Q s).0 ≡ false
  unfolding IsBusy try_to_start
  try_to_start-IsBusy s (inl h) = rw h refl
  try_to_start-IsBusy s (inr (inl h)) =
      if_cases (λ (r : Bool × TaskQueue Q). r.0 ≡ false) s.is_paused _ _ (λ _. refl)
        (λ _. rw h refl)
  try_to_start-IsBusy s (inr (inr h)) =
      if_cases (λ (r : Bool × TaskQueue Q). r.0 ≡ false) s.is_paused _ _ (λ _. refl)
        (λ _.
          if_cases (λ (r : Bool × TaskQueue Q). r.0 ≡ false) (Q.size s.queue == 0) _ _ (λ _. refl)
            (λ _.
              if_cases (λ (r : Bool × TaskQueue Q). r.0 ≡ false)
                (ltb s.jobs_running s.allowed_concurrent_jobs) _ _
                (λ lt. absurd (omega (arith, h, ltb→lt _ _ lt))) (λ _. refl)))

  -- What the loop leaves: no job that could run, no more jobs than there were, and no more running at the
  -- same time than allowed, unless there were.
  pub record Settles (s t : TaskQueue Q) : Type 0 where
    pub settled : IsBusy Q t
    pub no_more_pending : pending Q t ≤ pending Q s
    pub all_known : (f : Job → ℕ) → known Q f t ≡ known Q f s
    pub pause_kept : t.is_paused ≡ s.is_paused
    pub allowed_kept : t.allowed_concurrent_jobs ≡ s.allowed_concurrent_jobs
    pub within_allowed :
        s.jobs_running ≤ s.allowed_concurrent_jobs → t.jobs_running ≤ t.allowed_concurrent_jobs

  repeat-Settles :
      (again : TaskQueue Q → TaskQueue Q) (s : TaskQueue Q) (r : Bool × TaskQueue Q)
      → Tries s r
      → ((t : TaskQueue Q) → Q.size t.queue < Q.size s.queue → Settles t (again t))
      → Settles s (repeat_while Q again r)
  repeat-Settles again s (false, t) h k =
      let (same, busy) = h.failed refl in
      rw same (record {
        settled = busy;
        no_more_pending = omega arith;
        all_known = λ f. refl;
        pause_kept = refl;
        allowed_kept = refl;
        within_allowed = λ b. b;
      })
  repeat-Settles again s (true, t) h k =
      let rest = k t (h.taken refl) in
      record {
        settled = rest.settled;
        no_more_pending = omega (arith, rest.no_more_pending, h.fewer);
        all_known = λ f. rest.all_known f ∙ h.kept f;
        pause_kept = rest.pause_kept ∙ h.same_pause;
        allowed_kept = rest.allowed_kept ∙ h.same_allowed;
        within_allowed = λ b. rest.within_allowed (omega (arith, h.bounded b, h.same_allowed));
      }

  loop-Settles :
      (fuel : ℕ) (s : TaskQueue Q) → Q.size s.queue < fuel → Settles s (process_loop Q fuel s)
  unfolding process_loop
  loop-Settles zero s h = absurd (omega arith)
  loop-Settles (suc fuel) s h =
      repeat-Settles (process_loop Q fuel) s (try_to_start_next_job Q s) (try_next-Tries s)
        (λ t lt. loop-Settles fuel t (omega (arith, lt, h)))

  pub process-Settles : (s : TaskQueue Q) → Settles s (process_queue Q s)
  unfolding process_queue
  process-Settles s = loop-Settles (suc (Q.size s.queue)) s (omega arith)

  -- The loop of processQueue ends by its own test, never for want of fuel: after it, trying to start a
  -- job fails.
  pub process_queue-try_to_start :
      (s : TaskQueue Q) → (try_to_start_next_job Q (process_queue Q s)).0 ≡ false
  process_queue-try_to_start s = try_to_start-IsBusy (process_queue Q s) (process-Settles s).settled
