-- ===== src/Utxo/Fast.antt =====
-- fastUtxoSelection takes all that the storage yields, or nothing when that is too little.
use hathor_wallet_lib.Prelude.{
  ℕ, ◌+◌, ◌≡◌, arith, ◌∙◌, List, [], ◌∷◌, ◌++◌, append_assoc, append-nil,
}
use hathor_wallet_lib.Utxo.{fast_loop, fast_utxo_selection}
use hathor_wallet_lib.Utxo.Outcome.{IsSublist-refl, total, IsOutcome}

module _ {Utxo : Type 0} (value : Utxo → ℕ) where
  fast_loop_all :
      (stored utxos : List Utxo) (sum : ℕ)
      → fast_loop value stored utxos sum ≡ (utxos ++ stored, sum + total value stored)
  unfolding fast_loop total
  fast_loop_all [] utxos sum = rw (append-nil utxos) (ground arith)
  fast_loop_all (u ∷ stored) utxos sum =
      fast_loop_all stored (utxos ++ u ∷ []) (sum + value u) ∙ simp append_assoc (ground arith)

  -- For any utxos that the storage yields, in any order: fastUtxoSelection selects utxos among them,
  -- none twice, whose values add up to the amount that it reports, which is at least the amount asked
  -- for, and reports no `available`; or all of them hold less than the amount, and it selects none,
  -- reports the amount 0 and their sum as available.
  pub fast_utxo_selection-IsOutcome :
      (stored : List Utxo) (amount : ℕ)
      → IsOutcome value amount stored (fast_utxo_selection value stored amount)
  unfolding fast_utxo_selection
  fast_utxo_selection-IsOutcome stored amount =
      rw (fast_loop_all stored [] 0) (ground (arith, IsSublist-refl stored))
