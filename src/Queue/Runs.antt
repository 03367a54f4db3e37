-- ===== src/Queue/Runs.antt =====
-- The life of a PromiseQueue (src/models/promise_queue.ts) as steps, and its end when no job is added.
use hathor_wallet_lib.Prelude.{
  ℕ, zero, suc, ◌+◌, ◌≤◌, ◌<◌, ◌≡◌, refl, sym, ◌∙◌, arith, inl, inr, ◌≢◌, true, false, ◌==◌, ==_iff,
  if◌then◌else◌, if_cases,
}
use hathor_wallet_lib.Result.{ok}
use hathor_wallet_lib.Queue.Interface.{Job, JobQueue, sum_jobs}
use hathor_wallet_lib.Queue.Tasks.{
  TaskQueue, one_less, process_queue, add, finish_job, stop, go_on, tick, set_concurrent, IsBusy,
  pending, known,
}
use hathor_wallet_lib.Queue.Progress.{process-Settles, try_next-Tries}

true≢false : true ≢ false
true≢false h = cc

not_zero : (n : ℕ) → (n == 0) ≡ false → 0 < n
not_zero n h = ground arith

module _ (Q : JobQueue) where
  -- A job ends only while one runs.
  pub data Step : TaskQueue Q → TaskQueue Q → Type 0 where
    adds : (job : Job) (s : TaskQueue Q) → Step s (add Q job s)
    finishes : (r : ℕ) (s : TaskQueue Q) → s.jobs_running ≡ suc r → Step s (finish_job Q s)
    stops : (s : TaskQueue Q) → Step s (stop Q s)
    goes_on : (s : TaskQueue Q) → Step s (go_on Q s)
    ticks : (s : TaskQueue Q) → Step s (tick Q s)
    sets : (value : ℕ) (s t : TaskQueue Q) → set_concurrent Q value s ≡ ok t → Step s t

  -- Every step but setting how many jobs may run.
  abbrev pub KeepsConcurrent : (s t : TaskQueue Q) → Step s t → Type 0
  KeepsConcurrent _ _ (sets value s t e) = ⊥
  KeepsConcurrent _ _ _ = Unit

  pub data Run : TaskQueue Q → TaskQueue Q → Type 0 where
    done : (s : TaskQueue Q) → Run s s
    next : (s t u : TaskQueue Q) → Step s t → Run t u → Run s u

  -- `concurrent` is not set in the run.
  abbrev pub AllKeepConcurrent : (s t : TaskQueue Q) → Run s t → Type 0
  AllKeepConcurrent _ _ (done s) = Unit
  AllKeepConcurrent _ _ (next s t u step rest) =
      KeepsConcurrent s t step × AllKeepConcurrent t u rest

  -- No job waits that could run, and no more run than allowed.
  unfoldable pub IsSteady : TaskQueue Q → Type 0
  IsSteady s = IsBusy Q s × (s.jobs_running ≤ s.allowed_concurrent_jobs)

  process-IsSteady :
      (s : TaskQueue Q) → s.jobs_running ≤ s.allowed_concurrent_jobs → IsSteady (process_queue Q s)
  unfolding IsSteady
  process-IsSteady s h = ((process-Settles Q s).settled, (process-Settles Q s).within_allowed h)

  finish-IsBusy : (s : TaskQueue Q) → IsBusy Q s → IsBusy Q (finish_job Q s)
  unfolding IsBusy finish_job
  finish-IsBusy s (inl paused) = inl ((try_next-Tries Q (one_less Q s)).same_pause ∙ paused)
  finish-IsBusy s (inr (inl none_waits)) =
      inr (inl (omega (arith, none_waits, (try_next-Tries Q (one_less Q s)).no_more)))
  finish-IsBusy s (inr (inr full)) = (try_next-Tries Q (one_less Q s)).busy (omega (arith, full))

  finish-within :
      (s : TaskQueue Q)
      → s.jobs_running ≤ s.allowed_concurrent_jobs
      → (finish_job Q s).jobs_running ≤ (finish_job Q s).allowed_concurrent_jobs
  unfolding finish_job
  finish-within s h =
      let t = try_next-Tries Q (one_less Q s) in
      omega (arith, t.bounded (omega (arith, h)), t.same_allowed)

  Step-IsSteady :
      (s t : TaskQueue Q) (step : Step s t) → KeepsConcurrent s t step → IsSteady s → IsSteady t
  unfolding IsSteady add go_on tick IsBusy
  Step-IsSteady _ _ (adds job s) k h =
      process-IsSteady (record s { queue = Q.push job s.queue }) h.1
  Step-IsSteady _ _ (finishes r s e) k h = (finish-IsBusy s h.0, finish-within s h.1)
  Step-IsSteady _ _ (stops s) k h = (inl refl, h.1)
  Step-IsSteady _ _ (goes_on s) k h = process-IsSteady (record s { is_paused = false }) h.1
  Step-IsSteady _ _ (ticks s) k h =
      if_cases IsSteady s.is_paused s (process_queue Q s) (λ _. h) (λ _. process-IsSteady s h.1)
  Step-IsSteady _ _ (sets value s t e) k h = absurd k

  -- Whatever jobs are added, end, and whenever the queue is stopped, goes on or ticks, while `concurrent` is
  -- not set: from a state in which no job waits that could run, and no more run than allowed, only such
  -- states are reached.
  pub Run-IsSteady :
      (s t : TaskQueue Q) (run : Run s t) → AllKeepConcurrent s t run → IsSteady s → IsSteady t
  Run-IsSteady _ _ (done s) k h = h
  Run-IsSteady _ _ (next s t u step rest) (k, ks) h =
      Run-IsSteady t u rest ks (Step-IsSteady s t step k h)

  -- The running jobs end, one after the other, as long as one runs.
  unfoldable pub drain : ℕ → TaskQueue Q → TaskQueue Q
  drain zero s = s
  drain (suc n) s = if s.jobs_running == 0 then s else drain n (finish_job Q s)

  finish-pending : (s : TaskQueue Q) → 0 < s.jobs_running → pending Q (finish_job Q s) < pending Q s
  unfolding finish_job
  finish-pending s h = omega (arith, h, (try_next-Tries Q (one_less Q s)).fewer)

  IsOpen : TaskQueue Q → Type 0
  IsOpen s = (s.is_paused ≡ false) × (0 < s.allowed_concurrent_jobs)

  idle-pending : (s : TaskQueue Q) → IsBusy Q s → IsOpen s → s.jobs_running ≡ 0 → pending Q s ≡ 0
  unfolding IsBusy IsOpen
  idle-pending s (inl paused) o e = absurd (true≢false (sym paused ∙ o.0))
  idle-pending s (inr (inl none_waits)) o e = omega (arith, none_waits, e)
  idle-pending s (inr (inr full)) o e = absurd (omega (arith, full, e, o.1))

  finish-IsOpen : (s : TaskQueue Q) → IsOpen s → IsOpen (finish_job Q s)
  unfolding IsOpen finish_job
  finish-IsOpen s o =
      let t = try_next-Tries Q (one_less Q s) in
      (t.same_pause ∙ o.0, omega (arith, t.same_allowed, o.1))

  drain-pending :
      (n : ℕ) (s : TaskQueue Q)
      → IsBusy Q s
      → IsOpen s
      → pending Q s ≤ n
      → pending Q (drain n s) ≡ 0
  unfolding drain
  drain-pending zero s b o h = omega (arith, h)
  drain-pending (suc n) s b o h =
      if_cases (λ (t : TaskQueue Q). pending Q t ≡ 0) (s.jobs_running == 0) s
        (drain n (finish_job Q s)) (λ e. idle-pending s b o ((==_iff _ _).0 e))
        (λ e.
          drain-pending n (finish_job Q s) (finish-IsBusy s b) (finish-IsOpen s o)
            (omega (arith, h, finish-pending s (not_zero s.jobs_running e))))

  finish-known : (f : Job → ℕ) (s : TaskQueue Q) → known Q f (finish_job Q s) ≡ known Q f s
  unfolding finish_job
  finish-known f s = (try_next-Tries Q (one_less Q s)).kept f

  drain-known : (f : Job → ℕ) (n : ℕ) (s : TaskQueue Q) → known Q f (drain n s) ≡ known Q f s
  unfolding drain
  drain-known f zero s = refl
  drain-known f (suc n) s =
      if_cases (λ (t : TaskQueue Q). known Q f t ≡ known Q f s) (s.jobs_running == 0) s
        (drain n (finish_job Q s)) (λ _. refl)
        (λ _. drain-known f n (finish_job Q s) ∙ finish-known f s)

  -- Every job gets its turn: from any state that is not paused and allows at least one job, once the queue
  -- is processed and the running jobs have ended as often as there are jobs that wait or run, no job waits
  -- or runs any more, if no job is added, and the jobs called by then are those called before and those that
  -- waited, each as often: every measure of jobs has the same sum over both.
  pub process_queue-drain :
      (s : TaskQueue Q) (n : ℕ)
      → s.is_paused ≡ false
      → 0 < s.allowed_concurrent_jobs
      → pending Q s ≤ n
      → (pending Q (drain n (process_queue Q s)) ≡ 0)
        × ((f : Job → ℕ)
            → sum_jobs f (drain n (process_queue Q s)).started
              ≡ Q.sum f s.queue + sum_jobs f s.started)
  unfolding IsOpen
  process_queue-drain s n not_paused allowed h =
      let t = process-Settles Q s in
      let ended = drain n (process_queue Q s) in
      let none_left : pending Q ended ≡ 0 =
        drain-pending n (process_queue Q s) t.settled
          (t.pause_kept ∙ not_paused, omega (arith, t.allowed_kept, allowed))
          (omega (arith, t.no_more_pending, h)) in
      (
        none_left,
        λ f. omega (
          arith,
          drain-known f n (process_queue Q s),
          t.all_known f,
          Q.sum-size f ended.queue (omega (arith, none_left)),
        ),
      )
