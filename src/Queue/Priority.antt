-- ===== src/Queue/Priority.antt =====
-- src/models/priority_queue.ts: the heap in an array. The index of the top is 0; `>>> 1` and `<< 1` are
-- the half and the double. A loop has a round for each element of the heap.
use hathor_wallet_lib.Prelude.{
  ℕ, zero, suc, ◌+◌, ◌-◌, ◌*◌, ◌/◌, ◌<◌, ◌≤◌, ◌≡◌, refl, sym, ◌≢◌, ◌∙◌, ap, arith, Bool, false,
  ◌&&◌, ◌||◌, Option, none, some, List, [], ◌∷◌, ◌++◌, ltb, if◌then◌else◌, if_cases, length,
  length-append, get_elem?,
}
use hathor_wallet_lib.Queue.Interface.{Job}

abbrev pub parent : ℕ → ℕ
parent i = (i + 1) / 2 - 1

abbrev pub left : ℕ → ℕ
left i = i * 2 + 1

abbrev pub right : ℕ → ℕ
right i = (i + 1) * 2

-- `this.#heap[i] = node`
abbrev pub put_at : ℕ → Job → List Job → List Job
put_at i node [] = []
put_at zero node (x ∷ xs) = node ∷ xs
put_at (suc i) node (x ∷ xs) = x ∷ put_at i node xs

abbrev higher : Option Job → Option Job → Bool
higher (some a) (some b) = ltb b.priority a.priority
higher _ _ = false

-- _greater: the node at `i` has the higher priority.
abbrev pub is_greater : List Job → ℕ → ℕ → Bool
is_greater heap i j = higher (get_elem? heap i) (get_elem? heap j)

abbrev pub exchanged : ℕ → ℕ → Option Job → Option Job → List Job → List Job
exchanged i j (some a) (some b) heap = put_at j a (put_at i b heap)
exchanged i j _ _ heap = heap

-- _swap
unfoldable pub swap : ℕ → ℕ → List Job → List Job
swap i j heap = exchanged i j (get_elem? heap i) (get_elem? heap j) heap

unfoldable pub sift_up : ℕ → ℕ → List Job → List Job
sift_up zero node heap = heap
sift_up (suc fuel) node heap =
    if ltb 0 node && is_greater heap node (parent node)
    then sift_up fuel (parent node) (swap node (parent node) heap)
    else heap

abbrev pub max_child : List Job → ℕ → ℕ
max_child heap node =
    if ltb (right node) (length heap) && is_greater heap (right node) (left node)
    then right node
    else left node

unfoldable pub sift_down : ℕ → ℕ → List Job → List Job
sift_down zero node heap = heap
sift_down (suc fuel) node heap =
    if (ltb (left node) (length heap) && is_greater heap (left node) node)
      || (ltb (right node) (length heap) && is_greater heap (right node) node)
    then sift_down fuel (max_child heap node) (swap node (max_child heap node) heap)
    else heap

unfoldable pub push : Job → List Job → List Job
push job heap = let pushed = heap ++ job ∷ [] in sift_up (length pushed) (length pushed - 1) pushed

-- `this.#heap.pop()`
abbrev pub drop_last : List Job → List Job
drop_last [] = []
drop_last (x ∷ []) = []
drop_last (x ∷ y ∷ ys) = x ∷ drop_last (y ∷ ys)

unfoldable pub pop : List Job → Option (Job × List Job)
pop [] = none
pop (top ∷ rest) =
    let heap = top ∷ rest in
    let bottom = length heap - 1 in
    let swapped = if ltb 0 bottom then swap 0 bottom heap else heap in
    some (top, sift_down (length heap) 0 (drop_last swapped))

length-put_at : (i : ℕ) (node : Job) (heap : List Job) → length (put_at i node heap) ≡ length heap
length-put_at i node [] = refl
length-put_at zero node (x ∷ xs) = refl
length-put_at (suc i) node (x ∷ xs) = ap suc (length-put_at i node xs)

length-exchanged :
    (i j : ℕ) (a b : Option Job) (heap : List Job) → length (exchanged i j a b heap) ≡ length heap
length-exchanged i j none b heap = refl
length-exchanged i j (some a) none heap = refl
length-exchanged i j (some a) (some b) heap =
    length-put_at j a (put_at i b heap) ∙ length-put_at i b heap

pub length-swap : (i j : ℕ) (heap : List Job) → length (swap i j heap) ≡ length heap
unfolding swap
length-swap i j heap = length-exchanged i j (get_elem? heap i) (get_elem? heap j) heap

length-sift_up : (fuel node : ℕ) (heap : List Job) → length (sift_up fuel node heap) ≡ length heap
unfolding sift_up
length-sift_up zero node heap = refl
length-sift_up (suc fuel) node heap =
    if_cases (λ (h : List Job). length h ≡ length heap)
      (ltb 0 node && is_greater heap node (parent node)) _ _
      (λ _.
        length-sift_up fuel (parent node) (swap node (parent node) heap)
        ∙ length-swap node (parent node) heap)
      (λ _. refl)

length-sift_down :
    (fuel node : ℕ) (heap : List Job) → length (sift_down fuel node heap) ≡ length heap
unfolding sift_down
length-sift_down zero node heap = refl
length-sift_down (suc fuel) node heap =
    if_cases (λ (h : List Job). length h ≡ length heap) _ _ _
      (λ _.
        length-sift_down fuel (max_child heap node) (swap node (max_child heap node) heap)
        ∙ length-swap node (max_child heap node) heap)
      (λ _. refl)

length-drop_last : (x : Job) (xs : List Job) → length (drop_last (x ∷ xs)) ≡ length xs
length-drop_last x [] = refl
length-drop_last x (y ∷ ys) = ap suc (length-drop_last y ys)

pub length-push : (job : Job) (heap : List Job) → length (push job heap) ≡ suc (length heap)
unfolding push
length-push job heap =
    length-sift_up (length (heap ++ job ∷ [])) (length (heap ++ job ∷ []) - 1) (heap ++ job ∷ [])
    ∙ omega (arith, length-append heap (job ∷ []))

pub none≢some : {A : Type 0} (a : A) → none ≢ some a
none≢some a h = cc

unfoldable pub popped_rest : Option (Job × List Job) → List Job
popped_rest none = []
popped_rest (some r) = r.1

shorter : (heap : List Job) (n : ℕ) → length heap ≡ suc n → length (drop_last heap) ≡ n
shorter [] n h = omega (arith, h)
shorter (x ∷ xs) n h = length-drop_last x xs ∙ omega (arith, h)

pub length-pop :
    (heap : List Job) (job : Job) (rest : List Job)
    → pop heap ≡ some (job, rest)
    → length heap ≡ suc (length rest)
unfolding pop popped_rest
length-pop [] job rest e = absurd (none≢some _ e)
length-pop (x ∷ xs) job rest e =
    let bottom = length (x ∷ xs) - 1 in
    let swapped = if ltb 0 bottom then swap 0 bottom (x ∷ xs) else x ∷ xs in
    let same : length swapped ≡ suc (length xs) =
      if_cases (λ (h : List Job). length h ≡ suc (length xs)) (ltb 0 bottom)
        (swap 0 bottom (x ∷ xs)) (x ∷ xs) (λ _. length-swap 0 bottom (x ∷ xs)) (λ _. refl) in
    let left_over : length (sift_down (length (x ∷ xs)) 0 (drop_last swapped)) ≡ length rest =
      ap (λ r. length (popped_rest r)) e in
    omega (
      arith,
      left_over,
      length-sift_down (length (x ∷ xs)) 0 (drop_last swapped),
      shorter swapped (length xs) same,
    )

pub pop-none : (heap : List Job) → pop heap ≡ none → length heap ≡ 0
unfolding pop
pop-none [] e = refl
pop-none (x ∷ xs) e = absurd (none≢some _ (sym e))

parent_less : (node : ℕ) → 0 < node → parent node < node
parent_less node h = omega (arith, h)

-- The rounds are enough: one more changes nothing.
sift_up-enough :
    (fuel node : ℕ) (heap : List Job)
    → node ≤ fuel
    → sift_up (suc fuel) node heap ≡ sift_up fuel node heap
unfolding sift_up
sift_up-enough zero node heap h = ground (arith, h)
sift_up-enough (suc fuel) node heap h =
    ground
      (arith, h, parent_less node, sift_up-enough fuel (parent node) (swap node (parent node) heap))

child_below : (heap : List Job) (node : ℕ) → node < max_child heap node
child_below heap node =
    if_cases (λ (c : ℕ). node < c) _ (right node) (left node) (λ _. omega arith) (λ _. omega arith)

no_child :
    (heap : List Job) (node : ℕ)
    → length heap ≤ node
    → (ltb (left node) (length heap) ≡ false) × (ltb (right node) (length heap) ≡ false)
no_child heap node h = ground (arith, h)

sift_down-enough :
    (fuel node : ℕ) (heap : List Job)
    → length heap ≤ node + fuel
    → sift_down (suc fuel) node heap ≡ sift_down fuel node heap
unfolding sift_down
sift_down-enough zero node heap h =
    let (l, r) = no_child heap node (omega (arith, h)) in rw (l, r) refl
sift_down-enough (suc fuel) node heap h =
    let child = max_child heap node in
    let swapped = swap node child heap in
    ap
      (λ rest.
        if (ltb (left node) (length heap) && is_greater heap (left node) node)
          || (ltb (right node) (length heap) && is_greater heap (right node) node)
        then rest
        else heap)
      (sift_down-enough fuel child swapped
        (omega (arith, h, child_below heap node, length-swap node child heap)))
