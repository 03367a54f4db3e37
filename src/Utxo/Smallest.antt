-- ===== src/Utxo/Smallest.antt =====
-- bestUtxoSelection selects the smallest utxo that holds the amount, when one holds it.
use hathor_wallet_lib.Prelude.{
  ℕ, ◌+◌, ◌≤◌, ◌<◌, ◌≡◌, refl, arith, ◌∙◌, ◌⊎◌, Option, none, some, List, [], ◌∷◌, ◌++◌, ltb, leb,
  ◌==◌, if◌then◌else◌, if_cases, ==_iff, ltb→lt, All, inl, inr,
}
use hathor_wallet_lib.Utxo.{
  Selection, best_end, best_loop, best_utxo_selection, smaller_utxo, is_some,
}

All-map :
    {A : Type 0} {P Q : A → Type 0} (xs : List A) → ((x : A) → P x → Q x) → All P xs → All Q xs
All-map [] f h = tt
All-map (x ∷ xs) f (hx, h) = (f x hx, All-map xs f h)

le_cases : (m n : ℕ) → m ≤ n → (m < n) ⊎ (n ≡ m)
le_cases m n h = ground arith

module _ {Utxo : Type 0} (value : Utxo → ℕ) where
  -- The order that `order_by_value: 'desc'` asks for.
  unfoldable pub IsDescending : List Utxo → Type 0
  IsDescending [] = Unit
  IsDescending (u ∷ us) = All (λ v. value v ≤ value u) us × IsDescending us

  -- One utxo, which holds the amount, and no more than any of `us` that holds it.
  abbrev pub IsSmallest : ℕ → List Utxo → Utxo → Selection Utxo → Type 0
  IsSmallest amount us t r =
      (r ≡ record { utxos = t ∷ []; amount = value t; available = none })
      × (amount ≤ value t)
      × All (λ v. amount ≤ value v → value t ≤ value v) us

  exact-IsSmallest :
      (amount : ℕ) (u : Utxo) (us : List Utxo)
      → value u ≡ amount
      → All (λ v. value v ≤ value u) us
      → IsSmallest amount (u ∷ us) u (record { utxos = u ∷ []; amount = amount; available = none })
  exact-IsSmallest amount u us e h =
      (rw e, omega (arith, e), (λ _. omega arith, All-map us (λ v _. λ k. omega (arith, e)) h))

  -- The utxo that the loop keeps.
  abbrev kept : Utxo → Utxo → Utxo
  kept u s = if ltb (value u) (value s) then u else s

  smaller_utxo-kept : (u s : Utxo) → smaller_utxo value u (some s) ≡ some (kept u s)
  smaller_utxo-kept u s =
      if_cases (λ x. x ≡ some (kept u s)) (ltb (value u) (value s)) (some u) (some s) (λ h. rw h)
        (λ h. rw h)

  -- `selectedUtxo` after the utxo `u`.
  abbrev next : Utxo → Utxo → ℕ → Option Utxo
  next u s amount = if ltb amount (value u) then smaller_utxo value u (some s) else some s

  next_low : (u s : Utxo) (amount : ℕ) → value u < amount → next u s amount ≡ some s
  next_low u s amount h = ground arith

  next_high : (u s : Utxo) (amount : ℕ) → amount < value u → next u s amount ≡ some (kept u s)
  next_high u s amount h = ground (arith, smaller_utxo-kept u s)

  kept_above :
      (u s : Utxo) (amount : ℕ) → amount < value u → amount < value s → amount < value (kept u s)
  kept_above u s amount h k =
      if_cases (λ x. amount < value x) (ltb (value u) (value s)) u s (λ _. h) (λ _. k)

  kept_least : (u s : Utxo) (n : ℕ) → n ≤ value u → value u ≤ value s → n ≤ value (kept u s)
  kept_least u s n h k =
      if_cases (λ x. n ≤ value x) (ltb (value u) (value s)) u s (λ _. h) (λ _. omega arith)

  kept_below : (u s : Utxo) → value u ≤ value s → value (kept u s) ≤ value u
  kept_below u s h =
      if_cases (λ x. value x ≤ value u) (ltb (value u) (value s)) u s (λ _. omega arith)
        (λ k. ground (arith, k))

  low-IsSmallest :
      (amount : ℕ) (u : Utxo) (us : List Utxo) (s : Utxo)
      → amount < value s
      → value u < amount
      → All (λ v. value v ≤ value u) us
      → (t : Utxo) × IsSmallest amount
          (u ∷ us)
          t
          (record { utxos = s ∷ []; amount = value s; available = none })
        × (value t ≤ value s)
  low-IsSmallest amount u us s above low h = (
    s,
    (refl, omega arith, (λ k. omega (arith, k), All-map us (λ v k. λ e. omega (arith, k, e)) h)),
    omega arith,
  )

  high-IsSmallest :
      (amount : ℕ) (u : Utxo) (us : List Utxo) (s : Utxo) (r : Selection Utxo)
      → (t : Utxo) × IsSmallest amount us t r × (value t ≤ value (kept u s))
      → value u ≤ value s
      → (t : Utxo) × IsSmallest amount (u ∷ us) t r × (value t ≤ value s)
  high-IsSmallest amount u us s r (t, (e, enough, least), below) hu =
      let k = kept_below u s hu in
      (t, (e, enough, (λ _. omega (arith, k, below), least)), omega (arith, k, below))

  loop-IsSmallest :
      (amount : ℕ) (more utxos : List Utxo) (sum : ℕ) (s : Utxo)
      → amount < value s
      → All (λ v. value v ≤ value s) more
      → IsDescending more
      → (t : Utxo) × IsSmallest amount more t (best_loop value amount more utxos sum (some s))
        × (value t ≤ value s)
  unfolding best_loop IsDescending
  loop-IsSmallest amount [] utxos sum s above h d = (s, (refl, omega arith, tt), omega arith)
  loop-IsSmallest amount (u ∷ more) utxos sum s above (hu, h) (du, d) =
      let utxos' = utxos ++ u ∷ [] in
      let sum' = sum + value u in
      let rest = best_loop value amount more utxos' sum' (next u s amount) in
      let stop =
        if is_some value (next u s amount)
        then best_end value amount utxos' sum' (next u s amount)
        else if leb amount sum'
        then best_end value amount utxos' sum' (next u s amount)
        else rest in
      let go = if ltb (value u) amount then stop else rest in
      let exact : Selection Utxo = record { utxos = u ∷ []; amount = amount; available = none } in
      let P : Selection Utxo → Type 0 =
        λ r. (t : Utxo) × IsSmallest amount (u ∷ more) t r × (value t ≤ value s) in
      if_cases P (value u == amount) exact go
        (λ same. (u, exact-IsSmallest amount u more ((==_iff (value u) amount).0 same) du, hu))
        (λ other.
          if_cases P (ltb (value u) amount) stop rest
            (λ low.
              rw (next_low u s amount (ltb→lt (value u) amount low))
                (low-IsSmallest amount u more s above (ltb→lt (value u) amount low) du))
            (λ high.
              let big : amount < value u = ground (arith, other, high) in
              rw (next_high u s amount big) (
                high-IsSmallest amount u more s
                  (best_loop value amount more utxos' sum' (some (kept u s)))
                  (loop-IsSmallest amount more utxos' sum' (kept u s)
                    (kept_above u s amount big above)
                    (All-map more (λ v k. kept_least u s (value v) k hu) du) d)
                  hu)))

  module _ (amount : ℕ) (u : Utxo) (us : List Utxo) where
    first_exact :
        value u ≡ amount
        → best_loop value amount (u ∷ us) [] 0 none
          ≡ record { utxos = u ∷ []; amount = amount; available = none }
    unfolding best_loop
    first_exact h = ground arith

    first_above :
        amount < value u
        → best_loop value amount (u ∷ us) [] 0 none
          ≡ best_loop value amount us (u ∷ []) (0 + value u) (some u)
    unfolding best_loop
    first_above h = ground arith

  -- When the storage yields utxos in descending order, as it is asked to, and the first holds the
  -- amount, bestUtxoSelection selects one utxo that holds it, reports its value, and no utxo that
  -- holds the amount has a smaller value.
  pub best_utxo_selection-IsSmallest :
      (amount : ℕ) (u : Utxo) (us : List Utxo)
      → IsDescending (u ∷ us)
      → amount ≤ value u
      → (t : Utxo) × IsSmallest amount (u ∷ us) t (best_utxo_selection value (u ∷ us) amount)
  unfolding best_utxo_selection IsDescending
  best_utxo_selection-IsSmallest amount u us (du, d) enough =
      elim (le_cases amount (value u) enough) [
        | inl above ↦
            let (t, (e, big, least), below) =
              loop-IsSmallest amount us (u ∷ []) (0 + value u) u above du d in
            (t, (first_above amount u us above ∙ e, big, (λ _. below, least)))
        | inr same ↦ (u, rw (first_exact amount u us same) (exact-IsSmallest amount u us same du))
      ]
