-- ===== src/Wallet/Moves.antt =====
-- How a step of src/utils/storage.ts moves the balances: what it adds to each counter of each token.
use hathor_wallet_lib.Prelude.{
  ℕ, ◌≡◌, refl, sym, ◌∙◌, ap, Bool, true, false, Option, none, some, if_cases,
}
use hathor_wallet_lib.Prelude.Int.{ℤ, pos, ◌+ℤ◌, int_laws}
use hathor_wallet_lib.Wallet.Maps.{Name, MapOf, get_or, sum_of}
use hathor_wallet_lib.Wallet.Types.{
  UtxoId, Balance, TokenMeta, AddressMeta, HistoryTx, HistoryOutput,
}
use hathor_wallet_lib.Wallet.Balances.{Part, part, IsShift}
use hathor_wallet_lib.Wallet.Utxos.{IsDistinct, put_utxo-IsDistinct}
use hathor_wallet_lib.Wallet.Store.{
  Store, is_utxo_selected_as_input, unselect_utxo, default_token_meta,
}
use hathor_wallet_lib.Wallet.Ledger.{
  token_part, addresses_part, address_part, shift_of, change_balance, IsBalanced,
  token_part-change_balance, addresses_part-change_balance,
}
use hathor_wallet_lib.Wallet.Process.{keep_utxo}

-- The wallet's addresses and its history stay, each key still has one utxo, and the counters of each token
-- and those of its addresses gain the same amounts.
pub record Moves (gain : Name → Part → ℤ) (s s' : Store) : Type 0 where
  pub addresses_same : s'.addresses ≡ s.addresses
  pub history_same : s'.history ≡ s.history
  pub utxos_distinct : IsDistinct s.utxos → IsDistinct s'.utxos
  pub token_gain : (t : Name) (p : Part) → token_part s' t p ≡ token_part s t p +ℤ gain t p
  pub addresses_gain :
      (t : Name) (p : Part) → addresses_part s' t p ≡ addresses_part s t p +ℤ gain t p

abbrev pub no_gain : Name → Part → ℤ
no_gain t p = pos 0

pub Moves-IsBalanced :
    (gain : Name → Part → ℤ) (s s' : Store) → Moves gain s s' → IsBalanced s → IsBalanced s'
unfolding IsBalanced
Moves-IsBalanced gain s s' m h t p =
    m.token_gain t p ∙ ap (λ x. x +ℤ gain t p) (h t p) ∙ sym (m.addresses_gain t p)

add_zero : (a : ℤ) → a ≡ a +ℤ pos 0
add_zero a = omega int_laws

sum_assoc : (a b c : ℤ) → a +ℤ b +ℤ c ≡ a +ℤ (b +ℤ c)
sum_assoc a b c = omega int_laws

pub Moves-refl : (s : Store) → Moves no_gain s s
Moves-refl s = record {
  addresses_same = refl;
  history_same = refl;
  utxos_distinct = λ d. d;
  token_gain = λ t p. add_zero _;
  addresses_gain = λ t p. add_zero _;
}

chain : (x y z g h : ℤ) → y ≡ x +ℤ g → z ≡ y +ℤ h → z ≡ x +ℤ (g +ℤ h)
chain x y z g h e f = f ∙ ap (λ v. v +ℤ h) e ∙ sum_assoc x g h

-- One step after another.
pub Moves-trans :
    (gain more : Name → Part → ℤ) (s s' s'' : Store)
    → Moves gain s s'
    → Moves more s' s''
    → Moves (λ t p. gain t p +ℤ more t p) s s''
Moves-trans gain more s s' s'' m n = record {
  addresses_same = n.addresses_same ∙ m.addresses_same;
  history_same = n.history_same ∙ m.history_same;
  utxos_distinct = λ d. n.utxos_distinct (m.utxos_distinct d);
  token_gain = λ t p. chain _ _ _ _ _ (m.token_gain t p) (n.token_gain t p);
  addresses_gain = λ t p. chain _ _ _ _ _ (m.addresses_gain t p) (n.addresses_gain t p);
}

-- A gain is known by its values.
pub Moves-gain :
    (gain gain' : Name → Part → ℤ) (s s' : Store)
    → ((t : Name) (p : Part) → gain t p ≡ gain' t p)
    → Moves gain s s'
    → Moves gain' s s'
Moves-gain gain gain' s s' e m = record {
  addresses_same = m.addresses_same;
  history_same = m.history_same;
  utxos_distinct = m.utxos_distinct;
  token_gain = λ t p. m.token_gain t p ∙ ap (λ x. token_part s t p +ℤ x) (e t p);
  addresses_gain = λ t p. m.addresses_gain t p ∙ ap (λ x. addresses_part s t p +ℤ x) (e t p);
}

-- A step without a gain keeps the gain of those before it.
pub Moves-still :
    (gain : Name → Part → ℤ) (s s' s'' : Store)
    → Moves gain s s'
    → Moves no_gain s' s''
    → Moves gain s s''
Moves-still gain s s' s'' m n =
    Moves-gain _ _ s s'' (λ t p. sym (add_zero (gain t p))) (Moves-trans gain no_gain s s' s'' m n)

pub Moves-change_balance :
    (f : Balance → Balance)
    → IsShift f
    → (token address : Name) (s : Store)
    → Moves (shift_of f token) s (change_balance f token address s)
unfolding change_balance
Moves-change_balance f f-IsShift token address s = record {
  addresses_same = refl;
  history_same = refl;
  utxos_distinct = λ d. d;
  token_gain = token_part-change_balance f f-IsShift token address s;
  addresses_gain = addresses_part-change_balance f f-IsShift token address s;
}

-- A step that leaves the metadata.
pub Moves-rest :
    (s s' : Store)
    → s'.addresses ≡ s.addresses
    → s'.history ≡ s.history
    → s'.tokens_metadata ≡ s.tokens_metadata
    → s'.addresses_metadata ≡ s.addresses_metadata
    → (IsDistinct s.utxos → IsDistinct s'.utxos)
    → Moves no_gain s s'
unfolding token_part addresses_part
Moves-rest s s' a h t m keeps = record {
  addresses_same = a;
  history_same = h;
  utxos_distinct = keeps;
  token_gain = λ token p.
      ap (λ (x : MapOf TokenMeta). part p (get_or default_token_meta token x).balance) t
      ∙ add_zero _;
  addresses_gain =
      λ token p. ap (λ (x : MapOf AddressMeta). sum_of (address_part token p) x) m ∙ add_zero _;
}

pub Moves-keep_utxo :
    (spent_by : Option Name) (tx : HistoryTx) (o : HistoryOutput) (address : Name) (index : ℕ)
    (shielded is_locked : Bool) (s : Store)
    → Moves no_gain s (keep_utxo spent_by tx o address index shielded is_locked s)
unfolding keep_utxo
Moves-keep_utxo none tx o address index shielded true s =
    Moves-rest s _ refl refl refl refl (put_utxo-IsDistinct _ s.utxos)
Moves-keep_utxo none tx o address index shielded false s =
    Moves-rest s _ refl refl refl refl (put_utxo-IsDistinct _ s.utxos)
Moves-keep_utxo (some _) tx o address index shielded is_locked s =
    let id : UtxoId = record { tx_id = tx.tx_id; index = index } in
    if_cases (Moves no_gain s) (is_utxo_selected_as_input s id) (unselect_utxo id s) s
      (λ _. Moves-rest s (unselect_utxo id s) refl refl refl refl (λ d. d)) (λ _. Moves-refl s)
