-- ===== src/Wallet/Unlock.antt =====
-- src/utils/storage.ts, processUtxoUnlock, and processLockedUtxos of src/storage/storage.ts: when the time
-- or the height of a lock has passed, the amount moves from the locked balance to the unlocked one.
use hathor_wallet_lib.Prelude.{
  ℕ, ◌≡◌, refl, ap, ◌||◌, Option, none, some, List, [], ◌∷◌, if◌then◌else◌, if_cases, ◌==◌,
  Bool-cases, inl, inr,
}
use hathor_wallet_lib.Prelude.Int.{ℤ, pos, pos_part, neg_part, ◌+ℤ◌, int_laws}
use hathor_wallet_lib.Wallet.Maps.{Name, get}
use hathor_wallet_lib.Wallet.Types.{empty_balance, HistoryOutput, AddressInfo, LockedUtxo}
use hathor_wallet_lib.Wallet.Rules.{
  Clock, is_output_locked, is_height_locked, Resolved, resolve_spent_output, transparent,
  shielded_slot,
}
use hathor_wallet_lib.Wallet.Balances.{
  Part, tokens_unlocked, tokens_locked, mint_unlocked, mint_locked, melt_unlocked, melt_locked,
  part, unlock_balance, unlock_balance-IsShift,
}
use hathor_wallet_lib.Wallet.Store.{Store, unlock_utxo}
use hathor_wallet_lib.Wallet.Ledger.{change_balance, shift_of, token_part, IsBalanced}
use hathor_wallet_lib.Wallet.Moves.{
  Moves, no_gain, Moves-refl, Moves-rest, Moves-still, Moves-trans, Moves-IsBalanced,
  Moves-change_balance,
}

-- The output of a locked utxo, unless nothing is there or it is a shielded one of somebody else.
unfoldable pub locked_output : Option Resolved → Option HistoryOutput
locked_output none = none
locked_output (some (transparent o)) = some o
locked_output (some (shielded_slot _ o)) = o

unfoldable pub unlock_to : LockedUtxo → HistoryOutput → Name → Option AddressInfo → Store → Store
unlock_to l o address none s = s
unlock_to l o address (some _) s =
    unlock_utxo l (change_balance (unlock_balance o.value o.token_data) o.token address s)

unfoldable pub unlock_at : Clock → LockedUtxo → HistoryOutput → Option Name → Store → Store
unlock_at clock l o none s = s
unlock_at clock l o (some address) s =
    if is_output_locked clock o.timelock || is_height_locked l.tx.height clock
    then s
    else unlock_to l o address (get address s.addresses) s

unfoldable pub unlock_output : Clock → LockedUtxo → Option HistoryOutput → Store → Store
unlock_output clock l none s = s
unlock_output clock l (some o) s = unlock_at clock l o o.address s

abbrev pub process_utxo_unlock : Clock → LockedUtxo → Store → Store
process_utxo_unlock clock l s =
    unlock_output clock l (locked_output (resolve_spent_output l.tx l.index)) s

unfoldable pub unlock_all : Clock → List LockedUtxo → Store → Store
unlock_all clock [] s = s
unlock_all clock (l ∷ ls) s = unlock_all clock ls (process_utxo_unlock clock l s)

-- The entries are those of the start: a round deletes at most its own entry.
unfoldable pub process_locked_utxos : Clock → Store → Store
process_locked_utxos clock s = unlock_all clock s.locked_utxos s

-- The amounts, the mint authorities and the melt authorities of a token, locked or not.
pub data Kind : Type 0 where
  amounts mints melts : Kind

abbrev unlocked_part : Kind → Part
unlocked_part amounts = tokens_unlocked
unlocked_part mints = mint_unlocked
unlocked_part melts = melt_unlocked

abbrev locked_part : Kind → Part
locked_part amounts = tokens_locked
locked_part mints = mint_locked
locked_part melts = melt_locked

unfoldable pub total : Store → Name → Kind → ℤ
total s t k = token_part s t (unlocked_part k) +ℤ token_part s t (locked_part k)

-- A gain that moves from a locked counter to its unlocked one.
IsTransfer : (Name → Part → ℤ) → Type 0
IsTransfer gain = (t : Name) (k : Kind) → gain t (unlocked_part k) +ℤ gain t (locked_part k) ≡ pos 0

unlock_balance-transfer :
    (v d : ℕ) (k : Kind)
    → part (unlocked_part k) (unlock_balance v d empty_balance)
        +ℤ part (locked_part k) (unlock_balance v d empty_balance)
      ≡ pos 0
unfolding part unlock_balance
unlock_balance-transfer v d amounts = grind int_laws
unlock_balance-transfer v d mints = grind int_laws
unlock_balance-transfer v d melts = grind int_laws

zero_sum : pos 0 +ℤ pos 0 ≡ pos 0
zero_sum = omega int_laws

shift-IsTransfer : (v d : ℕ) (token : Name) → IsTransfer (shift_of (unlock_balance v d) token)
unfolding IsTransfer shift_of
shift-IsTransfer v d token t k = elim (Bool-cases (token == t)) [
  | inl e ↦ rw e (unlock_balance-transfer v d k)
  | inr e ↦ rw e zero_sum
]

sum_of_transfers : (a b c d : ℤ) → a +ℤ b ≡ pos 0 → c +ℤ d ≡ pos 0 → a +ℤ c +ℤ (b +ℤ d) ≡ pos 0
sum_of_transfers a b c d h k =
    omega (int_laws, ap pos_part h, ap neg_part h, ap pos_part k, ap neg_part k)

kept_total : (u l g h : ℤ) → g +ℤ h ≡ pos 0 → u +ℤ g +ℤ (l +ℤ h) ≡ u +ℤ l
kept_total u l g h e = omega (int_laws, ap pos_part e, ap neg_part e)

-- What unlocking does to the accounts.
Unlocks : Store → Store → Type 0
Unlocks s s' = (gain : Name → Part → ℤ) × IsTransfer gain × Moves gain s s'

Unlocks-refl : (s : Store) → Unlocks s s
unfolding Unlocks IsTransfer
Unlocks-refl s = (no_gain, (λ t k. zero_sum), Moves-refl s)

Unlocks-trans : (s s' s'' : Store) → Unlocks s s' → Unlocks s' s'' → Unlocks s s''
unfolding Unlocks IsTransfer
Unlocks-trans s s' s'' (g, tg, m) (h, th, n) = (
  (λ t p. g t p +ℤ h t p),
  (λ t k. sum_of_transfers _ _ _ _ (tg t k) (th t k)),
  Moves-trans g h s s' s'' m n,
)

unlock_to-Unlocks :
    (l : LockedUtxo) (o : HistoryOutput) (a : Name) (found : Option AddressInfo) (s : Store)
    → Unlocks s (unlock_to l o a found s)
unfolding Unlocks unlock_to IsTransfer
unlock_to-Unlocks l o a none s = (no_gain, (λ t k. zero_sum), Moves-refl s)
unlock_to-Unlocks l o a (some _) s =
    let f = unlock_balance o.value o.token_data in
    let changed = change_balance f o.token a s in
    (
      shift_of f o.token,
      shift-IsTransfer o.value o.token_data o.token,
      Moves-still _ s changed (unlock_utxo l changed)
          (Moves-change_balance f (unlock_balance-IsShift o.value o.token_data) o.token a s)
          (Moves-rest changed _ refl refl refl refl (λ d. d)),
    )

unlock_at-Unlocks :
    (clock : Clock) (l : LockedUtxo) (o : HistoryOutput) (a : Option Name) (s : Store)
    → Unlocks s (unlock_at clock l o a s)
unfolding unlock_at
unlock_at-Unlocks clock l o none s = Unlocks-refl s
unlock_at-Unlocks clock l o (some a) s =
    if_cases (Unlocks s) (is_output_locked clock o.timelock || is_height_locked l.tx.height clock) s
      (unlock_to l o a (get a s.addresses) s) (λ _. Unlocks-refl s)
      (λ _. unlock_to-Unlocks l o a (get a s.addresses) s)

unlock_output-Unlocks :
    (clock : Clock) (l : LockedUtxo) (o : Option HistoryOutput) (s : Store)
    → Unlocks s (unlock_output clock l o s)
unfolding unlock_output
unlock_output-Unlocks clock l none s = Unlocks-refl s
unlock_output-Unlocks clock l (some o) s = unlock_at-Unlocks clock l o o.address s

unlock_all-Unlocks :
    (clock : Clock) (ls : List LockedUtxo) (s s' : Store)
    → Unlocks s s'
    → Unlocks s (unlock_all clock ls s')
unfolding unlock_all
unlock_all-Unlocks clock [] s s' h = h
unlock_all-Unlocks clock (l ∷ ls) s s' h =
    unlock_all-Unlocks clock ls s _ (Unlocks-trans s s' _ h (unlock_output-Unlocks clock l _ s'))

module _ (clock : Clock) (s : Store) where
  locked_utxos-Unlocks : Unlocks s (process_locked_utxos clock s)
  unfolding process_locked_utxos
  locked_utxos-Unlocks = unlock_all-Unlocks clock s.locked_utxos s s (Unlocks-refl s)

  -- Unlocking keeps every counter of every token equal to the sum of that counter over the addresses.
  process_locked_utxos-IsBalanced : IsBalanced s → IsBalanced (process_locked_utxos clock s)
  unfolding Unlocks
  process_locked_utxos-IsBalanced =
      let (gain, _, m) = locked_utxos-Unlocks in Moves-IsBalanced gain s _ m

  -- Unlocking neither creates nor loses anything: for each token, the unlocked and the locked amount have
  -- the sum that they had, and so have the mint authorities and the melt authorities.
  pub process_locked_utxos-total :
      (t : Name) (k : Kind) → total (process_locked_utxos clock s) t k ≡ total s t k
  unfolding Unlocks IsTransfer total
  process_locked_utxos-total t k =
      let (gain, transfer, m) = locked_utxos-Unlocks in
      rw (m.token_gain t (unlocked_part k)) rw (m.token_gain t (locked_part k))
        (kept_total _ _ _ _ (transfer t k))
