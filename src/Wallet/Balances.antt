-- ===== src/Wallet/Balances.antt =====
-- How a balance moves in src/utils/storage.ts (processNewTx, processUtxoUnlock) and in getTxBalance of
-- src/utils/transaction.ts: each of the three writes out which of the six counters it changes.
use hathor_wallet_lib.Prelude.{ℕ, arith, ◌≡◌, refl, Bool, false, if◌then◌else◌}
use hathor_wallet_lib.Prelude.Int.{ℤ, pos, negsuc, ◌+ℤ◌, ◌-ℤ◌, ◌*ℤ◌, int_laws}
use hathor_wallet_lib.Wallet.Types.{Amounts, Balance, empty_balance}
use hathor_wallet_lib.Wallet.Rules.{is_authority_output, is_mint, is_melt}

abbrev add_amount : Bool → ℤ → Amounts → Amounts
add_amount is_locked v a =
    if is_locked
    then record a { locked = a.locked +ℤ v }
    else record a { unlocked = a.unlocked +ℤ v }

abbrev add_if : Bool → Bool → ℤ → Amounts → Amounts
add_if test is_locked v a = if test then add_amount is_locked v a else a

-- creditOutput
unfoldable pub credit_balance : Bool → ℕ → ℕ → Balance → Balance
credit_balance is_locked value token_data b =
    if is_authority_output token_data
    then record b {
      mint = add_if (is_mint value token_data) is_locked (pos 1) b.mint;
      melt = add_if (is_melt value token_data) is_locked (pos 1) b.melt;
    }
    else record b { tokens = add_amount is_locked (pos value) b.tokens }

abbrev sub_unlocked : ℤ → Amounts → Amounts
sub_unlocked v a = record a { unlocked = a.unlocked -ℤ v }

abbrev sub_if : Bool → ℤ → Amounts → Amounts
sub_if test v a = if test then sub_unlocked v a else a

-- The inputs' loop: what is spent was unlocked.
unfoldable pub debit_balance : ℕ → ℕ → Balance → Balance
debit_balance value token_data b =
    if is_authority_output token_data
    then record b {
      mint = sub_if (is_mint value token_data) (pos 1) b.mint;
      melt = sub_if (is_melt value token_data) (pos 1) b.melt;
    }
    else record b { tokens = sub_unlocked (pos value) b.tokens }

abbrev move_amount : ℤ → Amounts → Amounts
move_amount v a = record { locked = a.locked -ℤ v; unlocked = a.unlocked +ℤ v }

abbrev move_if : Bool → ℤ → Amounts → Amounts
move_if test v a = if test then move_amount v a else a

-- processUtxoUnlock
unfoldable pub unlock_balance : ℕ → ℕ → Balance → Balance
unlock_balance value token_data b =
    if is_authority_output token_data
    then record b {
      mint = move_if (is_mint value token_data) (pos 1) b.mint;
      melt = move_if (is_melt value token_data) (pos 1) b.melt;
    }
    else record b { tokens = move_amount (pos value) b.tokens }

-- The body of `accrue` in getTxBalance.
unfoldable pub accrue_balance : ℕ → ℕ → Bool → ℤ → Balance → Balance
accrue_balance value token_data is_locked sign b =
    if is_authority_output token_data
    then record b {
      mint = add_if (is_mint value token_data) is_locked sign b.mint;
      melt = add_if (is_melt value token_data) is_locked sign b.melt;
    }
    else record b { tokens = add_amount is_locked (sign *ℤ pos value) b.tokens }

-- The six counters of a balance.
pub data Part : Type 0 where
  tokens_unlocked tokens_locked mint_unlocked mint_locked melt_unlocked melt_locked : Part

unfoldable pub part : Part → Balance → ℤ
part tokens_unlocked b = b.tokens.unlocked
part tokens_locked b = b.tokens.locked
part mint_unlocked b = b.mint.unlocked
part mint_locked b = b.mint.locked
part melt_unlocked b = b.melt.unlocked
part melt_locked b = b.melt.locked

pub part-empty : (p : Part) → part p empty_balance ≡ pos 0
unfolding part
part-empty p = ground arith

-- A change of a balance that adds, to each counter, what it makes of the empty balance.
unfoldable pub IsShift : (Balance → Balance) → Type 0
IsShift f = (p : Part) (b : Balance) → part p (f b) ≡ part p b +ℤ part p (f empty_balance)

pub credit_balance-IsShift : (l : Bool) (v d : ℕ) → IsShift (credit_balance l v d)
unfolding IsShift part credit_balance
credit_balance-IsShift l v d tokens_unlocked b = grind int_laws
credit_balance-IsShift l v d tokens_locked b = grind int_laws
credit_balance-IsShift l v d mint_unlocked b = grind int_laws
credit_balance-IsShift l v d mint_locked b = grind int_laws
credit_balance-IsShift l v d melt_unlocked b = grind int_laws
credit_balance-IsShift l v d melt_locked b = grind int_laws

pub debit_balance-IsShift : (v d : ℕ) → IsShift (debit_balance v d)
unfolding IsShift part debit_balance
debit_balance-IsShift v d tokens_unlocked b = grind int_laws
debit_balance-IsShift v d tokens_locked b = grind int_laws
debit_balance-IsShift v d mint_unlocked b = grind int_laws
debit_balance-IsShift v d mint_locked b = grind int_laws
debit_balance-IsShift v d melt_unlocked b = grind int_laws
debit_balance-IsShift v d melt_locked b = grind int_laws

pub unlock_balance-IsShift : (v d : ℕ) → IsShift (unlock_balance v d)
unfolding IsShift part unlock_balance
unlock_balance-IsShift v d tokens_unlocked b = grind int_laws
unlock_balance-IsShift v d tokens_locked b = grind int_laws
unlock_balance-IsShift v d mint_unlocked b = grind int_laws
unlock_balance-IsShift v d mint_locked b = grind int_laws
unlock_balance-IsShift v d melt_unlocked b = grind int_laws
unlock_balance-IsShift v d melt_locked b = grind int_laws

one_times : (n : ℕ) → pos 1 *ℤ pos n ≡ pos n
unfolding ◌*ℤ◌
one_times n = ground arith

minus_one_times : (n : ℕ) → negsuc 0 *ℤ pos n ≡ pos 0 -ℤ pos n
unfolding ◌*ℤ◌ ◌-ℤ◌
minus_one_times n = ground arith

minus_as_sum : (a : ℤ) (n : ℕ) → a +ℤ (pos 0 -ℤ pos n) ≡ a -ℤ pos n
minus_as_sum a n = omega int_laws

minus_one_as_sum : (a : ℤ) → a +ℤ negsuc 0 ≡ a -ℤ pos 1
minus_one_as_sum a = omega int_laws

-- Crediting an output is accruing it with the sign 1.
pub accrue_balance-credit :
    (l : Bool) (v d : ℕ) (b : Balance) → accrue_balance v d l (pos 1) b ≡ credit_balance l v d b
unfolding accrue_balance credit_balance
accrue_balance-credit l v d b = rw (one_times v) refl

-- Debiting an input is accruing it, unlocked, with the sign -1.
pub accrue_balance-debit :
    (v d : ℕ) (b : Balance) → accrue_balance v d false (negsuc 0) b ≡ debit_balance v d b
unfolding accrue_balance debit_balance
accrue_balance-debit v d b =
    rw (minus_one_times v) rw (minus_as_sum b.tokens.unlocked v) rw
      (minus_one_as_sum b.mint.unlocked) rw (minus_one_as_sum b.melt.unlocked) refl
