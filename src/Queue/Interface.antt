-- ===== src/Queue/Interface.antt =====
-- What PromiseQueue (src/models/promise_queue.ts) needs of the queue that holds its jobs.
use hathor_wallet_lib.Prelude.{ℕ, suc, ◌+◌, ◌≡◌, Bool, Option, none, some, List, [], ◌∷◌}

-- The function that PromiseQueue.add makes of a task. It ends within the call if the signal is aborted
-- already or the task throws before it waits.
pub record Job : Type 0 where
  pub name : ℕ
  pub priority : ℕ
  pub ends_at_once : Bool

-- The sum of a measure of jobs. Sums of every measure say which jobs a list holds, and how often.
unfoldable pub sum_jobs : (Job → ℕ) → List Job → ℕ
sum_jobs f [] = 0
sum_jobs f (j ∷ js) = f j + sum_jobs f js

-- A queue gives up a job whenever it is not empty; it holds the jobs that were pushed, each until it is
-- given up, which the sums of any measure over them say.
pub record JobQueue : Type 1 where
  pub Queue : Type 0
  pub empty : Queue
  pub size : Queue → ℕ
  pub push : Job → Queue → Queue
  pub pop : Queue → Option (Job × Queue)
  pub sum : (Job → ℕ) → Queue → ℕ
  pub sum-size : (f : Job → ℕ) (q : Queue) → size q ≡ 0 → sum f q ≡ 0
  pub sum-push : (f : Job → ℕ) (j : Job) (q : Queue) → sum f (push j q) ≡ f j + sum f q
  pub sum-pop :
      (f : Job → ℕ) (q q' : Queue) (j : Job) → pop q ≡ some (j, q') → sum f q ≡ f j + sum f q'
  pub size-empty : size empty ≡ 0
  pub size-push : (j : Job) (q : Queue) → size (push j q) ≡ suc (size q)
  pub pop-none : (q : Queue) → pop q ≡ none → size q ≡ 0
  pub pop-some : (q q' : Queue) (j : Job) → pop q ≡ some (j, q') → size q ≡ suc (size q')
