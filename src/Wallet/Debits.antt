-- ===== src/Wallet/Debits.antt =====
-- How the rounds over the inputs of processNewTx (src/utils/storage.ts) move the balances.
use hathor_wallet_lib.Prelude.{
  ◌≡◌, refl, sym, ◌∙◌, ap, arith, Bool, true, false, Option, none, some, List, [], ◌∷◌,
}
use hathor_wallet_lib.Prelude.Int.{negsuc}
use hathor_wallet_lib.Wallet.Maps.{has-get, is_found, Name, MapOf, get, has}
use hathor_wallet_lib.Wallet.Types.{Balance, HistoryInput, SpentFields, AddressInfo}
use hathor_wallet_lib.Wallet.Balances.{debit_balance, debit_balance-IsShift, accrue_balance-debit}
use hathor_wallet_lib.Wallet.Store.{Store}
use hathor_wallet_lib.Wallet.Process.{
  Progress, enriched, fill_in, own_fields, spent_shielded, debit_from, debit_at, debit_fields,
  debit_input, debit_inputs,
}
use hathor_wallet_lib.Wallet.TxBalance.{accrue_from, accrue_fields, accrue_inputs, inline_or}
use hathor_wallet_lib.Wallet.Moves.{Moves}
use hathor_wallet_lib.Wallet.Credits.{entry, Moves-accrue}

module _ (s : Store) (m : MapOf Balance) (p : Progress) (h : Moves (entry m) s p.store) where
  debit_from-Moves :
      (fields : SpentFields) (a : Name) (found : Option AddressInfo)
      → has a s.addresses ≡ is_found found
      → Moves
          (entry (accrue_from s.addresses fields (some a) m))
          s
          (debit_from fields a found p).store
  unfolding debit_from accrue_from
  debit_from-Moves fields a none e = rw e h
  debit_from-Moves fields a (some info) e = rw e (
      Moves-accrue fields.token fields.value fields.token_data false (negsuc 0) m
        (debit_balance fields.value fields.token_data)
        (accrue_balance-debit fields.value fields.token_data)
        (debit_balance-IsShift fields.value fields.token_data) a s p.store h)

  debit_at-Moves :
      (fields : SpentFields) (a : Option Name)
      → Moves (entry (accrue_from s.addresses fields a m)) s (debit_at fields a p).store
  unfolding debit_at accrue_from
  debit_at-Moves fields none = h
  debit_at-Moves fields (some a) =
      debit_from-Moves fields a (get a p.store.addresses)
        (has-get a s.addresses ∙ ap (λ x. is_found (get a x)) (sym h.addresses_same))

  debit_fields-Moves :
      (fields : Option SpentFields)
      → Moves (entry (accrue_fields s.addresses fields m)) s (debit_fields fields p).store
  unfolding debit_fields accrue_fields
  debit_fields-Moves none = h
  debit_fields-Moves (some fields) = debit_at-Moves fields fields.address

  enriched_same : (i : HistoryInput) → enriched p.store i ≡ enriched s i
  enriched_same i =
      ap (λ x. fill_in x p.store.addresses i i.spent) h.history_same
      ∙ ap (λ x. fill_in s.history x i i.spent) h.addresses_same

  debit_input-Moves :
      (i : HistoryInput)
      → Moves (entry (accrue_fields s.addresses (enriched s i) m)) s (debit_input i p).store
  debit_input-Moves i = rw (← enriched_same i) (debit_fields-Moves (enriched p.store i))

-- The balance of the inputs as processNewTx reads them.
unfoldable pub accrue_enriched : Store → List HistoryInput → MapOf Balance → MapOf Balance
accrue_enriched s [] m = m
accrue_enriched s (i ∷ is) m = accrue_enriched s is (accrue_fields s.addresses (enriched s i) m)

pub debit_inputs-Moves :
    (is : List HistoryInput) (s : Store) (m : MapOf Balance) (p : Progress)
    → Moves (entry m) s p.store
    → Moves (entry (accrue_enriched s is m)) s (debit_inputs is p).store
unfolding debit_inputs accrue_enriched
debit_inputs-Moves [] s m p h = h
debit_inputs-Moves (i ∷ is) s m p h = debit_inputs-Moves is s _ _ (debit_input-Moves s m p h i)

-- An input carries its fields with an address, or it is a bare one that spends a shielded output.
unfoldable pub IsFull : Bool → Option SpentFields → Type 0
IsFull is_shielded none = is_shielded ≡ true
IsFull is_shielded (some fields) = is_found fields.address ≡ true

unfoldable pub AreFull : List HistoryInput → Type 0
AreFull [] = Unit {0}
AreFull (i ∷ is) = IsFull i.is_shielded i.spent × AreFull is

accrue-own :
    (s : Store) (m : MapOf Balance) (found : Option SpentFields)
    → accrue_fields s.addresses found m ≡ accrue_fields s.addresses (own_fields s.addresses found) m
unfolding own_fields accrue_fields accrue_from
accrue-own s m none = refl
accrue-own s m (some fields) = ground arith

module _ (s : Store) (m : MapOf Balance) (i : HistoryInput) where
  accrue-spent :
      (spent : Option SpentFields)
      → IsFull i.is_shielded spent
      → accrue_fields s.addresses (inline_or spent (spent_shielded s.history i)) m
        ≡ accrue_fields s.addresses (fill_in s.history s.addresses i spent) m
  unfolding inline_or fill_in IsFull spent_shielded
  accrue-spent none h = rw h (accrue-own s m (spent_shielded s.history i))
  accrue-spent (some fields) h = ground arith

-- For such inputs both ways of reading them give the same balance.
pub accrue_inputs-enriched :
    (s : Store) (is : List HistoryInput) (m : MapOf Balance)
    → AreFull is
    → accrue_inputs s.history s.addresses is m ≡ accrue_enriched s is m
unfolding AreFull accrue_inputs accrue_enriched
accrue_inputs-enriched s [] m h = refl
accrue_inputs-enriched s (i ∷ is) m h =
    accrue_inputs-enriched s is _ h.1 ∙ ap (accrue_enriched s is) (accrue-spent s m i i.spent h.0)
