-- ===== src/Queue/Heap.antt =====
-- The heap of src/models/priority_queue.ts as a queue of jobs: which jobs it holds.
use hathor_wallet_lib.Prelude.{
  ℕ, zero, suc, true, ◌+◌, ◌-◌, ◌<◌, ◌≡◌, refl, sym, ◌∙◌, ◌≢◌, ap, arith, Option, none, some, List,
  [], ◌∷◌, ◌++◌, ltb, if◌then◌else◌, if_cases, length, get_elem?, ◌&&◌,
}
use hathor_wallet_lib.Queue.Interface.{Job, JobQueue, sum_jobs}
use hathor_wallet_lib.Queue.Priority.{
  parent, put_at, is_greater, exchanged, swap, max_child, sift_up, sift_down, push, pop, drop_last,
  popped_rest, none≢some, length-swap, length-push, length-pop, pop-none,
}

pub sum_empty : (f : Job → ℕ) (heap : List Job) → length heap ≡ 0 → sum_jobs f heap ≡ 0
unfolding sum_jobs
sum_empty f [] h = refl
sum_empty f (x ∷ xs) h = absurd (omega (arith, h))

append-sum_jobs :
    (f : Job → ℕ) (xs ys : List Job) → sum_jobs f (xs ++ ys) ≡ sum_jobs f xs + sum_jobs f ys
unfolding sum_jobs
append-sum_jobs f [] ys = omega arith
append-sum_jobs f (x ∷ xs) ys = omega (arith, append-sum_jobs f xs ys)

put_at-sum_jobs :
    (f : Job → ℕ) (i : ℕ) (node old : Job) (heap : List Job)
    → get_elem? heap i ≡ some old
    → sum_jobs f (put_at i node heap) + f old ≡ sum_jobs f heap + f node
unfolding sum_jobs
put_at-sum_jobs f i node old [] h = absurd (none≢some old h)
put_at-sum_jobs f zero node old (x ∷ xs) h = let e : x ≡ old = cc in rw e (omega arith)
put_at-sum_jobs f (suc i) node old (x ∷ xs) h = omega (arith, put_at-sum_jobs f i node old xs h)

-- The node that is put in is the one at `j`, if it was there before.
get_elem?-put_at :
    (i j : ℕ) (node : Job) (heap : List Job)
    → get_elem? heap j ≡ some node
    → get_elem? (put_at i node heap) j ≡ some node
get_elem?-put_at i j node [] h = h
get_elem?-put_at zero zero node (x ∷ xs) h = refl
get_elem?-put_at zero (suc j) node (x ∷ xs) h = h
get_elem?-put_at (suc i) zero node (x ∷ xs) h = h
get_elem?-put_at (suc i) (suc j) node (x ∷ xs) h = get_elem?-put_at i j node xs h

exchanged-sum_jobs :
    (f : Job → ℕ) (i j : ℕ) (a b : Option Job) (heap : List Job)
    → get_elem? heap i ≡ a
    → get_elem? heap j ≡ b
    → sum_jobs f (exchanged i j a b heap) ≡ sum_jobs f heap
exchanged-sum_jobs f i j none b heap h k = refl
exchanged-sum_jobs f i j (some a) none heap h k = refl
exchanged-sum_jobs f i j (some a) (some b) heap h k = omega (
  arith,
  put_at-sum_jobs f i b a heap h,
  put_at-sum_jobs f j a b (put_at i b heap) (get_elem?-put_at i j b heap k),
)

swap-sum_jobs :
    (f : Job → ℕ) (i j : ℕ) (heap : List Job) → sum_jobs f (swap i j heap) ≡ sum_jobs f heap
unfolding swap
swap-sum_jobs f i j heap =
    exchanged-sum_jobs f i j (get_elem? heap i) (get_elem? heap j) heap refl refl

sift_up-sum_jobs :
    (f : Job → ℕ) (fuel node : ℕ) (heap : List Job)
    → sum_jobs f (sift_up fuel node heap) ≡ sum_jobs f heap
unfolding sift_up
sift_up-sum_jobs f zero node heap = refl
sift_up-sum_jobs f (suc fuel) node heap =
    if_cases (λ (h : List Job). sum_jobs f h ≡ sum_jobs f heap)
      (ltb 0 node && is_greater heap node (parent node)) _ _
      (λ _.
        sift_up-sum_jobs f fuel (parent node) (swap node (parent node) heap)
        ∙ swap-sum_jobs f node (parent node) heap)
      (λ _. refl)

sift_down-sum_jobs :
    (f : Job → ℕ) (fuel node : ℕ) (heap : List Job)
    → sum_jobs f (sift_down fuel node heap) ≡ sum_jobs f heap
unfolding sift_down
sift_down-sum_jobs f zero node heap = refl
sift_down-sum_jobs f (suc fuel) node heap =
    if_cases (λ (h : List Job). sum_jobs f h ≡ sum_jobs f heap) _ _ _
      (λ _.
        sift_down-sum_jobs f fuel (max_child heap node) (swap node (max_child heap node) heap)
        ∙ swap-sum_jobs f node (max_child heap node) heap)
      (λ _. refl)

pub push-sum_jobs :
    (f : Job → ℕ) (job : Job) (heap : List Job)
    → sum_jobs f (push job heap) ≡ f job + sum_jobs f heap
unfolding push sum_jobs
push-sum_jobs f job heap =
    sift_up-sum_jobs f (length (heap ++ job ∷ [])) (length (heap ++ job ∷ []) - 1)
      (heap ++ job ∷ [])
    ∙ omega (arith, append-sum_jobs f heap (job ∷ []))

drop_last-sum_jobs :
    (f : Job → ℕ) (last : Job) (heap : List Job) (bottom : ℕ)
    → length heap ≡ suc bottom
    → get_elem? heap bottom ≡ some last
    → sum_jobs f heap ≡ f last + sum_jobs f (drop_last heap)
unfolding sum_jobs
drop_last-sum_jobs f last [] bottom n h = absurd (none≢some last h)
drop_last-sum_jobs f last (x ∷ []) zero n h = let e : x ≡ last = cc in rw e refl
drop_last-sum_jobs f last (x ∷ []) (suc bottom) n h = absurd (omega (arith, n))
drop_last-sum_jobs f last (x ∷ y ∷ ys) zero n h = absurd (omega (arith, n))
drop_last-sum_jobs f last (x ∷ y ∷ ys) (suc bottom) n h =
    omega (arith, drop_last-sum_jobs f last (y ∷ ys) bottom (omega (arith, n)) h)

put_at-found :
    (i : ℕ) (node : Job) (heap : List Job)
    → i < length heap
    → get_elem? (put_at i node heap) i ≡ some node
put_at-found i node [] h = absurd (omega (arith, h))
put_at-found zero node (x ∷ xs) h = refl
put_at-found (suc i) node (x ∷ xs) h = put_at-found i node xs (omega (arith, h))

in_range : (i : ℕ) (heap : List Job) → i < length heap → get_elem? heap i ≢ none
in_range i [] h e = omega (arith, h)
in_range zero (x ∷ xs) h e = none≢some x (sym e)
in_range (suc i) (x ∷ xs) h e = in_range i xs (omega (arith, h)) e

-- The top stands at the bottom when the two have been exchanged.
exchanged_bottom :
    (x : Job) (xs : List Job) (bottom : ℕ) (b : Option Job)
    → bottom < length (x ∷ xs)
    → get_elem? (x ∷ xs) bottom ≡ b
    → get_elem? (exchanged 0 bottom (some x) b (x ∷ xs)) bottom ≡ some x
exchanged_bottom x xs bottom none h e = absurd (in_range bottom (x ∷ xs) h e)
exchanged_bottom x xs bottom (some z) h e = put_at-found bottom x (z ∷ xs) h

swapped_bottom :
    (x : Job) (xs : List Job) (bottom : ℕ)
    → length (x ∷ xs) ≡ suc bottom
    → get_elem? (if ltb 0 bottom then swap 0 bottom (x ∷ xs) else x ∷ xs) bottom ≡ some x
unfolding swap
swapped_bottom x xs zero n = refl
swapped_bottom x xs (suc bottom) n =
    let below : ltb 0 (suc bottom) ≡ true = ground arith in
    rw below
      (exchanged_bottom x xs (suc bottom) (get_elem? (x ∷ xs) (suc bottom)) (omega (arith, n)) refl)

popped_job : Option (Job × List Job) → Job → Job
popped_job none job = job
popped_job (some r) job = r.0

-- What is popped is the top, and the other jobs are left.
pub pop-sum_jobs :
    (f : Job → ℕ) (heap : List Job) (job : Job) (rest : List Job)
    → pop heap ≡ some (job, rest)
    → sum_jobs f heap ≡ f job + sum_jobs f rest
unfolding pop popped_rest popped_job
pop-sum_jobs f [] job rest e = absurd (none≢some _ e)
pop-sum_jobs f (x ∷ xs) job rest e =
    let bottom = length (x ∷ xs) - 1 in
    let swapped = if ltb 0 bottom then swap 0 bottom (x ∷ xs) else x ∷ xs in
    let same : sum_jobs f swapped ≡ sum_jobs f (x ∷ xs) =
      if_cases (λ (h : List Job). sum_jobs f h ≡ sum_jobs f (x ∷ xs)) (ltb 0 bottom)
        (swap 0 bottom (x ∷ xs)) (x ∷ xs) (λ _. swap-sum_jobs f 0 bottom (x ∷ xs)) (λ _. refl) in
    let size : length swapped ≡ suc bottom =
      if_cases (λ (h : List Job). length h ≡ suc (length xs)) (ltb 0 bottom)
        (swap 0 bottom (x ∷ xs)) (x ∷ xs) (λ _. length-swap 0 bottom (x ∷ xs)) (λ _. refl)
      ∙ omega arith in
    let left_over : sum_jobs f (sift_down (length (x ∷ xs)) 0 (drop_last swapped))
        ≡ sum_jobs f rest =
      ap (λ r. sum_jobs f (popped_rest r)) e in
    let top : x ≡ job = ap (λ r. popped_job r job) e in
    omega (
      arith,
      left_over,
      same,
      ap f top,
      sift_down-sum_jobs f (length (x ∷ xs)) 0 (drop_last swapped),
      drop_last-sum_jobs f x swapped bottom size (swapped_bottom x xs bottom (omega arith)),
    )

-- The heap as a queue of jobs.
abbrev pub priority_queue : JobQueue
priority_queue = record {
  Queue = List Job;
  empty = [];
  size = length;
  push = push;
  pop = pop;
  sum = sum_jobs;
  sum-size = sum_empty;
  sum-push = push-sum_jobs;
  sum-pop = λ f q q' j e. pop-sum_jobs f q j q' e;
  size-empty = refl;
  size-push = length-push;
  pop-none = pop-none;
  pop-some = λ q q' j e. length-pop q j q' e;
}
