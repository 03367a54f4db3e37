-- ===== src/Utxo.antt =====
-- src/utils/utxo.ts: which unspent outputs pay for an amount. `storage.selectUtxos` is outside this
-- file: its outcome, the utxos in the order in which they come, is an argument. Of an utxo only the
-- value is read; `IUtxo` is a parameter with that field.
pub mod Outcome
pub mod Fast
pub mod Best
pub mod Smallest
use hathor_wallet_lib.Prelude.{
  ℕ, ◌+◌, Bool, true, false, Option, none, some, List, [], ◌∷◌, ◌++◌, ltb, leb, ◌==◌, if◌then◌else◌,
}

-- The result; `available` is absent when the amount is paid.
pub record Selection (Utxo : Type 0) : Type 0 where
  pub utxos : List Utxo
  pub amount : ℕ
  pub available : Option ℕ

module _ {Utxo : Type 0} (value : Utxo → ℕ) where
  -- The `for await` of fastUtxoSelection.
  pub fast_loop : List Utxo → List Utxo → ℕ → List Utxo × ℕ
  fast_loop [] utxos utxos_amount = (utxos, utxos_amount)
  fast_loop (utxo ∷ more) utxos utxos_amount =
      fast_loop more (utxos ++ utxo ∷ []) (utxos_amount + value utxo)

  unfoldable pub fast_utxo_selection : List Utxo → ℕ → Selection Utxo
  unfolding fast_loop
  fast_utxo_selection selected amount =
      let (utxos, utxos_amount) = fast_loop selected [] 0 in
      if ltb utxos_amount amount
      then record { utxos = []; amount = 0; available = some utxos_amount }
      else record { utxos = utxos; amount = utxos_amount; available = none }

  -- The rest of bestUtxoSelection, after the loop.
  abbrev pub best_end : ℕ → List Utxo → ℕ → Option Utxo → Selection Utxo
  best_end amount utxos utxos_amount (some u) = record {
    utxos = u ∷ [];
    amount = value u;
    available = none;
  }
  best_end amount utxos utxos_amount none =
      if ltb utxos_amount amount
      then record { utxos = []; amount = 0; available = some utxos_amount }
      else record { utxos = utxos; amount = utxos_amount; available = none }

  -- `selectedUtxo === null || utxo.value < selectedUtxo.value`
  abbrev pub smaller_utxo : Utxo → Option Utxo → Option Utxo
  smaller_utxo utxo none = some utxo
  smaller_utxo utxo (some s) = if ltb (value utxo) (value s) then some utxo else some s

  abbrev pub is_some : Option Utxo → Bool
  is_some none = false
  is_some (some u) = true

  -- The `for await` of bestUtxoSelection, with its two `break`s.
  pub best_loop : ℕ → List Utxo → List Utxo → ℕ → Option Utxo → Selection Utxo
  best_loop amount [] utxos utxos_amount selected = best_end amount utxos utxos_amount selected
  best_loop amount (utxo ∷ more) utxos utxos_amount selected =
      let utxos' = utxos ++ utxo ∷ [] in
      let utxos_amount' = utxos_amount + value utxo in
      let selected' = if ltb amount (value utxo) then smaller_utxo utxo selected else selected in
      let rest = best_loop amount more utxos' utxos_amount' selected' in
      if value utxo == amount
      then record { utxos = utxo ∷ []; amount = amount; available = none }
      else if ltb (value utxo) amount
      then (if is_some selected'
          then best_end amount utxos' utxos_amount' selected'
          else if leb amount utxos_amount'
          then best_end amount utxos' utxos_amount' selected'
          else rest)
      else rest

  unfoldable pub best_utxo_selection : List Utxo → ℕ → Selection Utxo
  unfolding best_loop
  best_utxo_selection stored amount = best_loop amount stored [] 0 none
