-- ===== src/Tests/Selections.antt =====
-- Runs for src/utils/utxo.ts, on utxos that are their values.
use hathor_wallet_lib.Prelude.{ℕ, arith, List, [], ◌∷◌}
use hathor_wallet_lib.Utxo.{best_utxo_selection}
use hathor_wallet_lib.Utxo.Smallest.{IsDescending, IsSmallest, best_utxo_selection-IsSmallest}

abbrev stored : List ℕ
stored = 9 ∷ 6 ∷ 4 ∷ 1 ∷ []

stored-IsDescending : IsDescending (λ u. u) stored
unfolding IsDescending
stored-IsDescending = ground arith

best_utxo_selection-IsSmallest_example :
    (t : ℕ) × IsSmallest (λ u. u) 5 stored t (best_utxo_selection (λ u. u) stored 5)
best_utxo_selection-IsSmallest_example =
    best_utxo_selection-IsSmallest (λ u. u) 5 9 (6 ∷ 4 ∷ 1 ∷ []) stored-IsDescending (omega arith)
