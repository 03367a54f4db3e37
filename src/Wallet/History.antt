-- ===== src/Wallet/History.antt =====
-- src/utils/storage.ts, the walk of processHistory over the history and processSingleTx, up to the update
-- of the wallet's indexes that ends both, which is in Cursor. What `historyIter` yields, the oldest first, is an argument.
use hathor_wallet_lib.Prelude.{◌≡◌, refl, ◌∙◌, ap, List, [], ◌∷◌}
use hathor_wallet_lib.Prelude.Int.{max_ℤ, ℤ, ◌+ℤ◌, int_laws, pos}
use hathor_wallet_lib.Result.{Result, ok, err}
use hathor_wallet_lib.Wallet.Maps.{sum_of, Name, add_name}
use hathor_wallet_lib.Wallet.Types.{HistoryTx}
use hathor_wallet_lib.Wallet.Rules.{Clock}
use hathor_wallet_lib.Wallet.Store.{Store, clean_metadata}
use hathor_wallet_lib.Wallet.Ledger.{IsBalanced, addresses_part, token_part}
use hathor_wallet_lib.Wallet.Process.{Processed}
use hathor_wallet_lib.Wallet.Caller.{nothing_processed, process_new_tx}
use hathor_wallet_lib.Wallet.Balances.{Part, part-empty}
use hathor_wallet_lib.Wallet.TxBalance.{get_tx_balance}
use hathor_wallet_lib.Wallet.Moves.{Moves, Moves-refl, Moves-trans, Moves-gain}
use hathor_wallet_lib.Wallet.Debits.{AreFull}
use hathor_wallet_lib.Wallet.Accounts.{tx_gain, process_new_tx-Moves, process_new_tx-IsBalanced}

abbrev add_names : List Name → List Name → List Name
add_names [] known = known
add_names (t ∷ ts) known = add_names ts (add_name t known)

abbrev pub merge : Processed → Processed → Processed
merge seen new = record {
  legacy_max_address_index = max_ℤ seen.legacy_max_address_index new.legacy_max_address_index;
  shielded_max_address_index = max_ℤ seen.shielded_max_address_index new.shielded_max_address_index;
  tokens = add_names new.tokens seen.tokens;
}

-- What follows a call that may throw: a throw ends the walk.
abbrev pub on_ok :
    (Processed → Store → Result Processed × Store)
    → Result Processed × Store
    → Result Processed × Store
on_ok next (err e, s) = (err e, s)
on_ok next (ok new, s) = next new s

module _ (address_of_pubkey : Name → Result Name) (clock : Clock) where
  unfoldable pub walk_history : List HistoryTx → Processed → Store → Result Processed × Store
  walk_history [] seen s = (ok seen, s)
  walk_history (tx ∷ txs) seen s =
      on_ok (λ new s'. walk_history txs (merge seen new) s')
        (process_new_tx address_of_pubkey clock tx s)

  unfoldable pub process_history : List HistoryTx → Store → Result Processed × Store
  process_history txs s = walk_history txs nothing_processed (clean_metadata s)

-- What holds of the store after the call, and after what follows a result, holds at the end.
on_ok-keeps :
    (P : Store → Type 0) (next : Processed → Store → Result Processed × Store)
    (r : Result Processed × Store)
    → P r.1
    → ((new : Processed) → P (next new r.1).1)
    → P (on_ok next r).1
on_ok-keeps P next (err e, s) h k = h
on_ok-keeps P next (ok new, s) h k = k new

-- The same, for the calls that return.
on_ok-returns :
    (P : Store → Type 0) (next : Processed → Store → Result Processed × Store)
    (r : Result Processed × Store) (seen : Processed)
    → (on_ok next r).0 ≡ ok seen
    → ((new : Processed) → (next new r.1).0 ≡ ok seen → P (next new r.1).1)
    → P (on_ok next r).1
on_ok-returns P next (err e, s) seen h k = cc
on_ok-returns P next (ok new, s) seen h k = k new h

-- What getTxBalance says of the transactions of a history that are not voided, added up.
unfoldable pub history_gain : Clock → List HistoryTx → Store → Name → Part → ℤ
history_gain clock [] s t p = pos 0
history_gain clock (tx ∷ txs) s t p = tx_gain clock tx s t p +ℤ history_gain clock txs s t p

unfoldable pub AllFull : List HistoryTx → Type 0
AllFull [] = Unit {0}
AllFull (tx ∷ txs) = AreFull tx.inputs × AllFull txs

clean_metadata-IsBalanced : (s : Store) → IsBalanced (clean_metadata s)
unfolding IsBalanced clean_metadata token_part addresses_part sum_of
clean_metadata-IsBalanced s t p = part-empty p

clean-token_part : (s : Store) (t : Name) (p : Part) → token_part (clean_metadata s) t p ≡ pos 0
unfolding clean_metadata token_part
clean-token_part s t p = part-empty p

clean-same :
    (s : Store)
    → ((clean_metadata s).addresses ≡ s.addresses) × ((clean_metadata s).history ≡ s.history)
unfolding clean_metadata
clean-same s = (refl, refl)

zero_add : (a : ℤ) → pos 0 +ℤ a ≡ a
zero_add a = omega int_laws

tx_gain_same :
    (clock : Clock) (tx : HistoryTx) (s s' : Store) (t : Name) (p : Part)
    → s'.addresses ≡ s.addresses
    → s'.history ≡ s.history
    → tx_gain clock tx s' t p ≡ tx_gain clock tx s t p
unfolding tx_gain get_tx_balance
tx_gain_same clock tx s s' t p a h =
    ap (λ x. tx_gain clock tx (record s' { history = x }) t p) h
    ∙ ap (λ x. tx_gain clock tx (record s { addresses = x }) t p) a

module _ (address_of_pubkey : Name → Result Name) (clock : Clock) where
  walk_history-IsBalanced :
      (txs : List HistoryTx) (seen : Processed) (s : Store)
      → IsBalanced s
      → IsBalanced (walk_history address_of_pubkey clock txs seen s).1
  unfolding walk_history
  walk_history-IsBalanced [] seen s h = h
  walk_history-IsBalanced (tx ∷ txs) seen s h =
      let kept = process_new_tx-IsBalanced address_of_pubkey clock tx s h in
      on_ok-keeps IsBalanced _ (process_new_tx address_of_pubkey clock tx s) kept
        (λ new. walk_history-IsBalanced txs (merge seen new) _ kept)

  -- After a walk over any history, from any store, even one that a throw has cut short, every counter of
  -- every token is the sum of that counter over the wallet's addresses.
  pub process_history-IsBalanced :
      (txs : List HistoryTx) (s : Store)
      → IsBalanced (process_history address_of_pubkey clock txs s).1
  unfolding process_history
  process_history-IsBalanced txs s =
      walk_history-IsBalanced txs nothing_processed _ (clean_metadata-IsBalanced s)

history_gain_same :
    (clock : Clock) (txs : List HistoryTx) (s s' : Store) (t : Name) (p : Part)
    → s'.addresses ≡ s.addresses
    → s'.history ≡ s.history
    → history_gain clock txs s' t p ≡ history_gain clock txs s t p
unfolding history_gain
history_gain_same clock [] s s' t p a h = refl
history_gain_same clock (tx ∷ txs) s s' t p a h =
    ap (λ x. x +ℤ history_gain clock txs s' t p) (tx_gain_same clock tx s s' t p a h)
    ∙ ap (λ x. tx_gain clock tx s t p +ℤ x) (history_gain_same clock txs s s' t p a h)

module _ (address_of_pubkey : Name → Result Name) (clock : Clock) where
  walk_history-Moves :
      (txs : List HistoryTx) (seen found : Processed) (s : Store)
      → (walk_history address_of_pubkey clock txs seen s).0 ≡ ok found
      → AllFull txs
      → Moves (history_gain clock txs s) s (walk_history address_of_pubkey clock txs seen s).1
  unfolding walk_history history_gain AllFull
  walk_history-Moves [] seen found s h full = Moves-refl s
  walk_history-Moves (tx ∷ txs) seen found s h full =
      let first = process_new_tx-Moves address_of_pubkey clock tx s full.0 in
      let s' = (process_new_tx address_of_pubkey clock tx s).1 in
      on_ok-returns (Moves _ s) _ (process_new_tx address_of_pubkey clock tx s) found h (λ new e.
        Moves-gain _ _ s _
          (λ t p.
            ap (λ x. tx_gain clock tx s t p +ℤ x)
              (history_gain_same clock txs s s' t p first.addresses_same first.history_same))
          (Moves-trans _ _ s s' _ first
            (walk_history-Moves txs (merge seen new) found s' e full.1)))

  -- When the walk over a history returns, each counter of each token is what getTxBalance says of the
  -- transactions that are not voided, added up. This holds of histories whose inputs each have an address
  -- or are bare inputs that spend shielded outputs.
  pub process_history-history_gain :
      (txs : List HistoryTx) (s : Store) (found : Processed)
      → (process_history address_of_pubkey clock txs s).0 ≡ ok found
      → AllFull txs
      → (t : Name) (p : Part)
      → token_part (process_history address_of_pubkey clock txs s).1 t p
        ≡ history_gain clock txs s t p
  unfolding process_history
  process_history-history_gain txs s found h full t p =
      (walk_history-Moves txs nothing_processed found (clean_metadata s) h full).token_gain t p
      ∙ ap (λ x. x +ℤ history_gain clock txs (clean_metadata s) t p) (clean-token_part s t p)
      ∙ zero_add (history_gain clock txs (clean_metadata s) t p)
      ∙ history_gain_same clock txs s (clean_metadata s) t p (clean-same s).0 (clean-same s).1
