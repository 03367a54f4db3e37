-- ===== src/Wallet/Credits.antt =====
-- How the rounds of processNewTx (src/utils/storage.ts) move the balances.
use hathor_wallet_lib.Prelude.{
  ℕ, suc, ◌≡◌, sym, ◌∙◌, ap, Bool, true, false, ◌||◌, Option, none, some, List, [], ◌∷◌,
}
use hathor_wallet_lib.Prelude.Int.{ℤ, pos, ◌+ℤ◌}
use hathor_wallet_lib.Wallet.Maps.{Name, MapOf, get, has, has-get, is_found, set, get_or}
use hathor_wallet_lib.Wallet.Types.{Balance, empty_balance, HistoryTx, HistoryOutput, AddressInfo}
use hathor_wallet_lib.Wallet.Rules.{Clock, is_output_locked, is_height_locked}
use hathor_wallet_lib.Wallet.Balances.{
  Part, part, IsShift, credit_balance, credit_balance-IsShift, accrue_balance,
  accrue_balance-credit,
}
use hathor_wallet_lib.Wallet.Store.{Store}
use hathor_wallet_lib.Wallet.Ledger.{part-get_or, shift_of, change_balance}
use hathor_wallet_lib.Wallet.Process.{
  Progress, keep_utxo, credit_at, credit_to, credit_output, credit_outputs, credit_shielded,
}
use hathor_wallet_lib.Wallet.TxBalance.{
  accrue, accrue_at, accrue_output, accrue_outputs, accrue_shielded,
}
use hathor_wallet_lib.Wallet.Moves.{
  Moves, Moves-trans, Moves-gain, Moves-still, Moves-change_balance, Moves-keep_utxo,
}

-- A counter in the balances of a transaction.
unfoldable pub entry : MapOf Balance → Name → Part → ℤ
entry m t p = part p (get_or empty_balance t m)

pub entry-accrue :
    (token v d : ℕ) (l : Bool) (sign : ℤ) (m : MapOf Balance) (f : Balance → Balance)
    → ((b : Balance) → accrue_balance v d l sign b ≡ f b)
    → IsShift f
    → (t : Name) (p : Part)
    → entry m t p +ℤ shift_of f token t p ≡ entry (accrue token v d l sign m) t p
unfolding entry accrue
entry-accrue token v d l sign m f same f-IsShift t p =
    sym (part-get_or f f-IsShift token t p m)
    ∙ ap (λ b. part p (get_or empty_balance t (set token b m)))
        (sym (same (get_or empty_balance token m)))

pub Moves-accrue :
    (token v d : ℕ) (l : Bool) (sign : ℤ) (m : MapOf Balance) (f : Balance → Balance)
    → ((b : Balance) → accrue_balance v d l sign b ≡ f b)
    → IsShift f
    → (address : Name) (s q : Store) → Moves (entry m) s q
    → Moves (entry (accrue token v d l sign m)) s (change_balance f token address q)
Moves-accrue token v d l sign m f same f-IsShift address s q h =
    Moves-gain _ _ s _ (entry-accrue token v d l sign m f same f-IsShift) (
      Moves-trans (entry m) (shift_of f token) s q _ h
        (Moves-change_balance f f-IsShift token address q))

-- Crediting an output moves the balances by what it adds to the balance of the transaction.
module _ (clock : Clock) (tx : HistoryTx) (o : HistoryOutput) (index : ℕ) (shielded : Bool)
    (s : Store) (m : MapOf Balance) (p : Progress) (h : Moves (entry m) s p.store) where
  credit_to-Moves :
      (a : Name) (found : Option AddressInfo)
      → has a s.addresses ≡ is_found found
      → Moves
          (entry (accrue_at clock s.addresses tx o (some a) m))
          s
          (credit_to clock tx o index shielded a found p).store
  unfolding credit_to accrue_at
  credit_to-Moves a none e = rw e h
  credit_to-Moves a (some info) e =
      let locked = is_output_locked clock o.timelock || is_height_locked tx.height clock in
      let kept = keep_utxo o.spent_by tx o a index shielded locked p.store in
      rw e (
        Moves-accrue o.token o.value o.token_data locked (pos 1) m
          (credit_balance locked o.value o.token_data)
          (accrue_balance-credit locked o.value o.token_data)
          (credit_balance-IsShift locked o.value o.token_data) a s kept
          (Moves-still (entry m) s p.store kept h
            (Moves-keep_utxo o.spent_by tx o a index shielded locked p.store)))

  pub credit_output-Moves :
      Moves
        (entry (accrue_output clock s.addresses tx o m))
        s
        (credit_output clock tx o index shielded p).store
  unfolding credit_at accrue_at
  credit_output-Moves = go o.address
    where
      go :
          (a : Option Name)
          → Moves
              (entry (accrue_at clock s.addresses tx o a m))
              s
              (credit_at clock tx o index shielded a p).store
      go none = h
      go (some a) =
          credit_to-Moves a (get a p.store.addresses)
            (has-get a s.addresses ∙ ap (λ x. is_found (get a x)) (sym h.addresses_same))

pub credit_outputs-Moves :
    (clock : Clock) (tx : HistoryTx) (index : ℕ) (os : List HistoryOutput) (s : Store)
    (m : MapOf Balance) (p : Progress)
    → Moves (entry m) s p.store
    → Moves
        (entry (accrue_outputs clock s.addresses tx os m))
        s
        (credit_outputs clock tx index os p).store
unfolding credit_outputs accrue_outputs
credit_outputs-Moves clock tx index [] s m p h = h
credit_outputs-Moves clock tx index (o ∷ os) s m p h =
    credit_outputs-Moves clock tx (suc index) os s _ _
      (credit_output-Moves clock tx o index false s m p h)

pub credit_shielded-Moves :
    (clock : Clock) (tx : HistoryTx) (index : ℕ) (os : List (Option HistoryOutput)) (s : Store)
    (m : MapOf Balance) (p : Progress)
    → Moves (entry m) s p.store
    → Moves
        (entry (accrue_shielded clock s.addresses tx os m))
        s
        (credit_shielded clock tx index os p).store
unfolding credit_shielded accrue_shielded
credit_shielded-Moves clock tx index [] s m p h = h
credit_shielded-Moves clock tx index (none ∷ os) s m p h =
    credit_shielded-Moves clock tx (suc index) os s m p h
credit_shielded-Moves clock tx index (some o ∷ os) s m p h =
    credit_shielded-Moves clock tx (suc index) os s _ _
      (credit_output-Moves clock tx o index true s m p h)
