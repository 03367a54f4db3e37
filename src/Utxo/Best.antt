-- ===== src/Utxo/Best.antt =====
-- bestUtxoSelection pays the amount whenever the utxos can.
use hathor_wallet_lib.Prelude.{
  ℕ, ◌+◌, ◌≤◌, ◌<◌, ◌≡◌, refl, arith, inl, Option, none, some, List, [], ◌∷◌, ◌++◌, append_assoc,
  append-nil, ltb, leb, ◌==◌, if◌then◌else◌, if_cases, leb→le, ==_iff,
}
use hathor_wallet_lib.Utxo.{
  Selection, best_end, best_loop, best_utxo_selection, smaller_utxo, is_some,
}
use hathor_wallet_lib.Utxo.Outcome.{
  IsSublist, IsSublist-refl, IsSublist-append, prefix-IsSublist, middle-IsSublist, total,
  total-append, IsOutcome,
}

module _ {Utxo : Type 0} (value : Utxo → ℕ) where
  -- The selected utxo is above the amount, and among those seen.
  abbrev Chosen : ℕ → List Utxo → Option Utxo → Type 0
  Chosen amount utxos none = Unit
  Chosen amount utxos (some s) = (amount < value s) × IsSublist (s ∷ []) utxos

  end-Chosen :
      (amount : ℕ) (utxos more : List Utxo) (sum : ℕ) (s : Utxo)
      → Chosen amount utxos (some s)
      → IsOutcome value amount (utxos ++ more) (best_end value amount utxos sum (some s))
  unfolding total
  end-Chosen amount utxos more sum s (above, sub) =
      inl (refl, omega arith, omega arith, IsSublist-append (s ∷ []) utxos more sub)

  end_enough :
      (amount : ℕ) (utxos more : List Utxo)
      → amount ≤ total value utxos
      → IsOutcome value amount
          (utxos ++ more)
          (best_end value amount utxos (total value utxos) none)
  end_enough amount utxos more h = ground (arith, prefix-IsSublist utxos more)

  end_all :
      (amount : ℕ) (utxos : List Utxo) (selected : Option Utxo)
      → Chosen amount utxos selected
      → IsOutcome value amount
          (utxos ++ [])
          (best_end value amount utxos (total value utxos) selected)
  end_all amount utxos none c = rw (append-nil utxos) (ground (arith, IsSublist-refl utxos))
  end_all amount utxos (some s) c = end-Chosen amount utxos [] (total value utxos) s c

  next-Chosen :
      (amount : ℕ) (utxos : List Utxo) (u : Utxo) (selected : Option Utxo)
      → Chosen amount utxos selected
      → Chosen amount
          (utxos ++ u ∷ [])
          (if ltb amount (value u) then smaller_utxo value u selected else selected)
  next-Chosen amount utxos u none c = ground (arith, middle-IsSublist utxos u [])
  next-Chosen amount utxos u (some s) c =
      ground (arith, middle-IsSublist utxos u [], IsSublist-append (s ∷ []) utxos (u ∷ []))

  exact-IsOutcome :
      (amount : ℕ) (utxos : List Utxo) (u : Utxo) (more : List Utxo)
      → value u ≡ amount
      → IsOutcome value amount
          ((utxos ++ u ∷ []) ++ more)
          (record { utxos = u ∷ []; amount = amount; available = none })
  unfolding total
  exact-IsOutcome amount utxos u more h = inl (
    refl,
    omega arith,
    omega (arith, h),
    IsSublist-append (u ∷ []) (utxos ++ u ∷ []) more (middle-IsSublist utxos u []),
  )

  -- The two `break`s.
  stop-IsOutcome :
      (amount : ℕ) (utxos more : List Utxo) (sum : ℕ) (selected : Option Utxo)
      (rest : Selection Utxo)
      → sum ≡ total value utxos
      → Chosen amount utxos selected
      → IsOutcome value amount (utxos ++ more) rest
      → IsOutcome value amount (utxos ++ more) (
          if is_some value selected
          then best_end value amount utxos sum selected
          else if leb amount sum
          then best_end value amount utxos sum selected
          else rest)
  stop-IsOutcome amount utxos more sum none rest e c r = rw e (
      if_cases (IsOutcome value amount (utxos ++ more)) (leb amount (total value utxos))
        (best_end value amount utxos (total value utxos) none) rest
        (λ h. end_enough amount utxos more (leb→le amount (total value utxos) h)) (λ _. r))
  stop-IsOutcome amount utxos more sum (some s) rest e c r = end-Chosen amount utxos more sum s c

  loop-IsOutcome :
      (amount : ℕ) (more utxos : List Utxo) (sum : ℕ) (selected : Option Utxo)
      → sum ≡ total value utxos
      → Chosen amount utxos selected
      → IsOutcome value amount (utxos ++ more) (best_loop value amount more utxos sum selected)
  unfolding best_loop total
  loop-IsOutcome amount [] utxos sum selected e c = rw e (end_all amount utxos selected c)
  loop-IsOutcome amount (u ∷ more) utxos sum selected e c =
      let utxos' = utxos ++ u ∷ [] in
      let selected' = if ltb amount (value u) then smaller_utxo value u selected else selected in
      let e' : sum + value u ≡ total value utxos' =
        omega (arith, e, total-append value utxos (u ∷ [])) in
      let c' = next-Chosen amount utxos u selected c in
      let rest = best_loop value amount more utxos' (sum + value u) selected' in
      let r = loop-IsOutcome amount more utxos' (sum + value u) selected' e' c' in
      let P = IsOutcome value amount (utxos' ++ more) in
      let stop =
        if is_some value selected'
        then best_end value amount utxos' (sum + value u) selected'
        else if leb amount (sum + value u)
        then best_end value amount utxos' (sum + value u) selected'
        else rest in
      let go = if ltb (value u) amount then stop else rest in
      let exact : Selection Utxo = record { utxos = u ∷ []; amount = amount; available = none } in
      rw (← append_assoc utxos (u ∷ []) more) (
        if_cases P (value u == amount) exact go
          (λ same. exact-IsOutcome amount utxos u more ((==_iff (value u) amount).0 same))
          (λ _.
            if_cases P (ltb (value u) amount) stop rest
              (λ _. stop-IsOutcome amount utxos' more (sum + value u) selected' rest e' c' r)
              (λ _. r)))

  -- For any utxos that the storage yields, in any order: bestUtxoSelection selects utxos among them,
  -- none twice, whose values add up to the amount that it reports, which is at least the amount asked
  -- for, and reports no `available`; or all of them hold less than the amount, and it selects none,
  -- reports the amount 0 and their sum as available.
  pub best_utxo_selection-IsOutcome :
      (stored : List Utxo) (amount : ℕ)
      → IsOutcome value amount stored (best_utxo_selection value stored amount)
  unfolding best_utxo_selection total
  best_utxo_selection-IsOutcome stored amount = loop-IsOutcome amount stored [] 0 none refl tt
