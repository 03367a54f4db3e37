-- ===== src/Tokens/Storage.antt =====
-- The default selection of src/utils/tokens.ts, bestUtxoSelection over the memory store, is sound.
use hathor_wallet_lib.Prelude.{
  ℕ, ◌≡◌, refl, ◌∙◌, sym, arith, Bool, true, not, List, [], ◌∷◌, Option, if_cases, ◌&&◌, ◌==◌, All,
  inl, inr,
}
use hathor_wallet_lib.Result.{ok, ok_inj}
use hathor_wallet_lib.Utxo.{Selection}
use hathor_wallet_lib.Utxo.Outcome.{IsSublist, done, keep, skip, IsOutcome, total}
use hathor_wallet_lib.Wallet.Maps.{Name}
use hathor_wallet_lib.Wallet.Types.{Utxo}
use hathor_wallet_lib.Wallet.Rules.{Clock}
use hathor_wallet_lib.Wallet.Store.{Store, is_utxo_selected_as_input}
use hathor_wallet_lib.Wallet.Select.{Order, descending, is_utxo_locked}
use hathor_wallet_lib.Wallet.Payment.{
  lock_of, is_spendable, spendable, best_from_storage, best_from_storage-IsOutcome,
}
use hathor_wallet_lib.Tokens.Pay.{IsSelection}

All-IsSublist : (P : Utxo → Type 0) (us vs : List Utxo) → IsSublist us vs → All P vs → All P us
All-IsSublist P _ _ (done ys) h = tt
All-IsSublist P _ _ (keep x xs ys s) h = (h.0, All-IsSublist P xs ys s h.1)
All-IsSublist P _ _ (skip y xs ys s) h = All-IsSublist P xs ys s h.1

funds_of_token :
    (a b : Bool) (authorities token t : ℕ)
    → (a && b && authorities == 0 && token == t) ≡ true
    → (token ≡ t) × (authorities ≡ 0)
funds_of_token a b authorities token t h = ground (arith, h)

module _ (order_by : Order → List Utxo → List Utxo) (clock : Clock) (reward_lock : Option ℕ)
    (s : Store) where
  spendable-of_token :
      (t : Name) (us : List Utxo)
      → All (λ u. (u.token ≡ t) × (u.authorities ≡ 0)) (spendable clock reward_lock s t us)
  unfolding spendable is_spendable
  spendable-of_token t [] = tt
  spendable-of_token t (u ∷ us) =
      let rest = spendable clock reward_lock s t us in
      if_cases (All (λ v. (v.token ≡ t) × (v.authorities ≡ 0)))
        (is_spendable clock reward_lock s t u) (u ∷ rest) rest
        (λ e. (
          funds_of_token (not (is_utxo_locked clock (lock_of clock reward_lock s) u))
              (not (is_utxo_selected_as_input s u.id)) u.authorities u.token t e,
          spendable-of_token t us,
        ))
        (λ _. spendable-of_token t us)

  outcome-IsSelection :
      (t : Name) (n : ℕ) (r : Selection Utxo)
      → IsOutcome
          (λ (u : Utxo). u.value)
          n
          (spendable clock reward_lock s t (order_by descending s.utxos))
          r
      → IsSelection t r
  unfolding total
  outcome-IsSelection t n r (inl (none_left, paid, added, chosen)) = record {
    added_up = added;
    of_token =
        All-IsSublist _ r.utxos _ chosen (spendable-of_token t (order_by descending s.utxos));
  }
  outcome-IsSelection t n r (inr (short, e)) = rw e (record { added_up = refl; of_token = tt })

  pub best_from_storage-IsSelection :
      (t : Name) (n : ℕ) (r : Selection Utxo)
      → best_from_storage order_by clock reward_lock s t n ≡ ok r
      → IsSelection t r
  best_from_storage-IsSelection t n r h =
      let (r', e, outcome) = best_from_storage-IsOutcome order_by clock reward_lock s t n in
      rw (ok_inj (sym h ∙ e)) (outcome-IsSelection t n r' outcome)
