-- ===== src/Wallet/Single.antt =====
-- src/utils/storage.ts, processSingleTx, up to the update of the wallet's indexes that ends it: a new
-- transaction is processed, and the utxos that it spends are deleted.
use hathor_wallet_lib.Prelude.{
  ℕ, zero, suc, get_elem?, ◌≢◌, ◌≡◌, refl, sym, ◌∙◌, ap, arith, Bool, true, false, Option, none,
  some, List, [], ◌∷◌, if◌then◌else◌,
}
use hathor_wallet_lib.Result.{Error, Result, ok, err, invalid_index}
use hathor_wallet_lib.Wallet.Maps.{or_else, Name, get, has, has-get, is_found}
use hathor_wallet_lib.Wallet.Types.{HistoryTx, HistoryInput, Utxo, UtxoId}
use hathor_wallet_lib.Wallet.Rules.{Clock, Resolved, resolve_spent_output}
use hathor_wallet_lib.Wallet.Store.{Store, get_utxo, delete_utxo, find_utxo, drop_utxo, same_id}
use hathor_wallet_lib.Wallet.Process.{Processed}
use hathor_wallet_lib.Wallet.Caller.{process_new_tx}
use hathor_wallet_lib.Wallet.Accounts.{process_new_tx-some_Moves}
use hathor_wallet_lib.Wallet.Utxos.{
  IsDistinct, find-same_id, find-drop_utxo, find-drop_other, drop_utxo-IsDistinct,
}

abbrev pub spent_id : HistoryInput → UtxoId
spent_id i = record { tx_id = i.tx_id; index = i.index }

unfoldable pub delete_found : Option Utxo → Store → Store
delete_found none s = s
delete_found (some u) s = delete_utxo u.id s

-- The parent is one of the wallet's transactions; it must have the output.
unfoldable pub delete_resolved : UtxoId → Option Resolved → Store → Result (Unit {0}) × Store
delete_resolved id none s = (err invalid_index, s)
delete_resolved id (some _) s = (ok tt, delete_found (get_utxo s id) s)

unfoldable pub delete_round : UtxoId → Option HistoryTx → Store → Result (Unit {0}) × Store
delete_round id none s = (ok tt, s)
delete_round id (some parent) s = delete_resolved id (resolve_spent_output parent id.index) s

abbrev pub and_then :
    {A B : Type 0} → (A → Store → Result B × Store) → Result A × Store → Result B × Store
and_then next (err e, s) = (err e, s)
and_then next (ok a, s) = next a s

unfoldable pub delete_spent : List HistoryInput → Store → Result (Unit {0}) × Store
delete_spent [] s = (ok tt, s)
delete_spent (i ∷ is) s =
    and_then (λ _ s'. delete_spent is s') (delete_round (spent_id i) (get i.tx_id s.history) s)

unfoldable pub process_single_tx :
    (Name → Result Name) → Clock → HistoryTx → Store → Result Processed × Store
process_single_tx address_of_pubkey clock tx s =
    and_then
      (λ new s'.
        and_then (λ _ s''. (ok new, s''))
          (if tx.is_voided then (ok tt, s') else delete_spent tx.inputs s'))
      (process_new_tx address_of_pubkey clock tx s)

find_utxo-id :
    (k : UtxoId) (us : List Utxo) (u : Utxo) → find_utxo k us ≡ some u → same_id u.id k ≡ true
find_utxo-id k [] u h = cc
find_utxo-id k (v ∷ us) u h = ground (arith, find_utxo-id k us u)

-- Deleting keeps the history, and it makes no utxo.
record Deletes (s s' : Store) : Type 0 where
  same_history : s'.history ≡ s.history
  distinct : IsDistinct s.utxos → IsDistinct s'.utxos
  no_new : (k : UtxoId) → get_utxo s k ≡ none → get_utxo s' k ≡ none

Deletes-refl : (s : Store) → Deletes s s
Deletes-refl s = record { same_history = refl; distinct = λ d. d; no_new = λ k h. h }

Deletes-trans : (s s' s'' : Store) → Deletes s s' → Deletes s' s'' → Deletes s s''
Deletes-trans s s' s'' m n = record {
  same_history = n.same_history ∙ m.same_history;
  distinct = λ d. n.distinct (m.distinct d);
  no_new = λ k h. n.no_new k (m.no_new k h);
}

delete_found-Deletes : (found : Option Utxo) (s : Store) → Deletes s (delete_found found s)
unfolding delete_found
delete_found-Deletes none s = Deletes-refl s
delete_found-Deletes (some u) s = record {
  same_history = refl;
  distinct = drop_utxo-IsDistinct u.id s.utxos;
  no_new = λ k h. find-drop_other k u.id s.utxos h;
}

delete_resolved-Deletes :
    (id : UtxoId) (r : Option Resolved) (s : Store) → Deletes s (delete_resolved id r s).1
unfolding delete_resolved
delete_resolved-Deletes id none s = Deletes-refl s
delete_resolved-Deletes id (some _) s = delete_found-Deletes (get_utxo s id) s

delete_round-Deletes :
    (id : UtxoId) (parent : Option HistoryTx) (s : Store) → Deletes s (delete_round id parent s).1
unfolding delete_round
delete_round-Deletes id none s = Deletes-refl s
delete_round-Deletes id (some parent) s =
    delete_resolved-Deletes id (resolve_spent_output parent id.index) s

and_then-Deletes :
    {A B : Type 0} (next : A → Store → Result B × Store) (r : Result A × Store) (s : Store)
    → Deletes s r.1
    → ((a : A) (q : Store) → Deletes q (next a q).1)
    → Deletes s (and_then next r).1
and_then-Deletes next (err e, q) s h k = h
and_then-Deletes next (ok a, q) s h k = Deletes-trans s q _ h (k a q)

delete_spent-Deletes : (is : List HistoryInput) (s : Store) → Deletes s (delete_spent is s).1
unfolding delete_spent
delete_spent-Deletes [] s = Deletes-refl s
delete_spent-Deletes (i ∷ is) s =
    and_then-Deletes _ (delete_round (spent_id i) (get i.tx_id s.history) s) s
      (delete_round-Deletes (spent_id i) (get i.tx_id s.history) s)
      (λ _ q. delete_spent-Deletes is q)

-- A round that does not throw leaves no utxo with the key.
delete_found-gone :
    (k : UtxoId) (s : Store) (found : Option Utxo)
    → get_utxo s k ≡ found
    → IsDistinct s.utxos
    → get_utxo (delete_found found s) k ≡ none
unfolding delete_found
delete_found-gone k s none e d = e
delete_found-gone k s (some u) e d =
    find-same_id u.id k (drop_utxo u.id s.utxos) (find_utxo-id k s.utxos u e)
    ∙ find-drop_utxo u.id s.utxos d

delete_round-gone :
    (k : UtxoId) (parent : Option HistoryTx) (s : Store) (done : Unit {0})
    → is_found parent ≡ true
    → (delete_round k parent s).0 ≡ ok done
    → IsDistinct s.utxos
    → get_utxo (delete_round k parent s).1 k ≡ none
unfolding delete_round delete_resolved
delete_round-gone k none s done h e d = cc
delete_round-gone k (some parent) s done h e d = go (resolve_spent_output parent k.index) e
  where
    go :
        (r : Option Resolved)
        → (delete_resolved k r s).0 ≡ ok done
        → get_utxo (delete_resolved k r s).1 k ≡ none
    go none e' = cc
    go (some _) e' = delete_found-gone k s (get_utxo s k) refl d

err≢ok : {A : Type 0} (e : Error) (a : A) → err e ≢ ok a
err≢ok e a h = cc

if_false : {A : Type 0} (b : Bool) (x y : A) → b ≡ false → (if b then x else y) ≡ y
if_false true x y h = cc
if_false false x y h = refl

and_then-returns :
    {A B : Type 0} (next : A → Store → Result B × Store) (r : Result A × Store) (b : B)
    → (and_then next r).0 ≡ ok b
    → (a : A) × (r.0 ≡ ok a) × ((next a r.1).0 ≡ ok b) × ((and_then next r).1 ≡ (next a r.1).1)
and_then-returns next (err e, s) b h = absurd (err≢ok e b h)
and_then-returns next (ok a, s) b h = (a, refl, h, refl)

delete_spent-gone :
    (is : List HistoryInput) (n : ℕ) (i : HistoryInput) (s : Store) (done : Unit {0})
    → get_elem? is n ≡ some i
    → has i.tx_id s.history ≡ true
    → (delete_spent is s).0 ≡ ok done
    → IsDistinct s.utxos
    → get_utxo (delete_spent is s).1 (spent_id i) ≡ none
unfolding delete_spent
delete_spent-gone [] n i s done at known h d = cc
delete_spent-gone (x ∷ is) zero i s done at known h d =
    let round = delete_round (spent_id x) (get x.tx_id s.history) s in
    let e : x ≡ i = ap (or_else x) at in
    let (a, first, rest, same) = and_then-returns (λ _ s'. delete_spent is s') round done h in
    let found = sym (has-get x.tx_id s.history) ∙ ap (λ j. has j.tx_id s.history) e ∙ known in
    let gone = delete_round-gone (spent_id x) (get x.tx_id s.history) s a found first d in
    ap (λ q. get_utxo q (spent_id i)) same
    ∙ ap (λ j. get_utxo (delete_spent is round.1).1 (spent_id j)) (sym e)
    ∙ (delete_spent-Deletes is round.1).no_new (spent_id x) gone
delete_spent-gone (x ∷ is) (suc n) i s done at known h d =
    let parent = get x.tx_id s.history in
    let round = delete_round (spent_id x) parent s in
    let (a, first, rest, same) = and_then-returns (λ _ s'. delete_spent is s') round done h in
    let kept = delete_round-Deletes (spent_id x) parent s in
    ap (λ q. get_utxo q (spent_id i)) same
    ∙ delete_spent-gone is n i round.1 done at (ap (has i.tx_id) kept.same_history ∙ known) rest
        (kept.distinct d)

module _ (address_of_pubkey : Name → Result Name) (clock : Clock) (tx : HistoryTx) (s : Store) where
  spending : Store → Result (Unit {0}) × Store
  spending s' = if tx.is_voided then (ok tt, s') else delete_spent tx.inputs s'

  spending-gone :
      (n : ℕ) (i : HistoryInput) (q : Store) (done : Unit {0})
      → get_elem? tx.inputs n ≡ some i
      → has i.tx_id q.history ≡ true
      → tx.is_voided ≡ false
      → (spending q).0 ≡ ok done
      → IsDistinct q.utxos
      → get_utxo (spending q).1 (spent_id i) ≡ none
  unfolding spending
  spending-gone n i q done at known valid h d =
      let e = if_false tx.is_voided (ok tt, q) (delete_spent tx.inputs q) valid in
      ap (λ r. get_utxo r.1 (spent_id i)) e
      ∙ delete_spent-gone tx.inputs n i q done at known (sym (ap (λ r. r.0) e) ∙ h) d

  -- When processing a transaction that is not voided returns, an output that the transaction spends is not
  -- among the utxos any more, if its transaction is in the history and each key had one utxo.
  pub process_single_tx-get_utxo :
      (n : ℕ) (i : HistoryInput) (found : Processed)
      → tx.is_voided ≡ false
      → get_elem? tx.inputs n ≡ some i
      → has i.tx_id s.history ≡ true
      → IsDistinct s.utxos
      → (process_single_tx address_of_pubkey clock tx s).0 ≡ ok found
      → get_utxo (process_single_tx address_of_pubkey clock tx s).1 (spent_id i) ≡ none
  unfolding process_single_tx spending
  process_single_tx-get_utxo n i found valid at known d h =
      let new = process_new_tx address_of_pubkey clock tx s in
      let (gain, m) = process_new_tx-some_Moves address_of_pubkey clock tx s in
      let (a, _, rest, same) =
        and_then-returns (λ (r : Processed) s'. and_then (λ _ s''. (ok r, s'')) (spending s')) new
          found h in
      let (done, spent, _, last) =
        and_then-returns (λ _ s''. (ok a, s'')) (spending new.1) found rest in
      ap (λ q. get_utxo q (spent_id i)) (same ∙ last)
      ∙ spending-gone n i new.1 done at (ap (has i.tx_id) m.history_same ∙ known) valid spent
          (m.utxos_distinct d)
