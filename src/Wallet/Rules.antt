-- ===== src/Wallet/Rules.antt =====
-- The rules on outputs of src/utils/transaction.ts: authorities, locks, and the index of a spent output.
use hathor_wallet_lib.Prelude.{
  ℕ, ◌+◌, ◌-◌, Bool, false, ◌&&◌, ◌||◌, Option, none, some, ltb, leb, ◌==◌, if◌then◌else◌, bit_and,
  length, get_elem?,
}
use hathor_wallet_lib.Wallet.Types.{HistoryOutput, HistoryTx}

-- The versions of src/constants.ts.
unfoldable pub is_block : ℕ → Bool
is_block version = version == 0 || version == 3 || version == 5

unfoldable pub is_authority_output : ℕ → Bool
is_authority_output token_data = ltb 0 (bit_and token_data 0x80)

unfoldable pub is_mint : ℕ → ℕ → Bool
unfolding is_authority_output
is_mint value token_data = is_authority_output token_data && ltb 0 (bit_and value 1)

unfoldable pub is_melt : ℕ → ℕ → Bool
unfolding is_authority_output
is_melt value token_data = is_authority_output token_data && ltb 0 (bit_and value 2)

-- `x || null` and `!x` of a number that may be missing: 0 counts as missing.
abbrev pub or_null : Option ℕ → Option ℕ
or_null none = none
or_null (some n) = if n == 0 then none else some n

-- The time and height of a run: the options that the caller gives, and the machine's clock.
pub record Clock : Type 0 where
  pub now_ts : Option ℕ
  pub date_now : ℕ
  pub current_height : Option ℕ
  pub reward_lock : Option ℕ

abbrev pub ref_ts : Clock → ℕ
ref_ts c = elim (or_null c.now_ts) [ none ↦ c.date_now | some t ↦ t ]

unfoldable pub is_output_locked : Clock → Option ℕ → Bool
is_output_locked c none = false
is_output_locked c (some timelock) = ltb (ref_ts c) timelock

below_sum : Option ℕ → Option ℕ → Option ℕ → Bool
below_sum (some block) (some current) (some lock) = ltb current (block + lock)
below_sum _ _ _ = false

unfoldable pub is_height_locked : Option ℕ → Clock → Bool
unfolding below_sum
is_height_locked block_height c =
    below_sum (or_null block_height) (or_null c.current_height) (or_null c.reward_lock)

-- The outcome of resolveSpentOutput: `none` for an index outside both lists.
pub data Resolved : Type 0 where
  transparent : HistoryOutput → Resolved
  shielded_slot : ℕ → Option HistoryOutput → Resolved

unfoldable pub resolve_spent_output : HistoryTx → ℕ → Option Resolved
resolve_spent_output spent_tx idx =
    if ltb idx (length spent_tx.outputs)
    then elim (get_elem? spent_tx.outputs idx) [ none ↦ none | some o ↦ some (transparent o) ]
    else if ltb idx (length spent_tx.outputs + length spent_tx.shielded_outputs)
    then (let s = idx - length spent_tx.outputs in
        elim (get_elem? spent_tx.shielded_outputs s) [
          | none ↦ none
          | some o ↦ some (shielded_slot s o)
        ])
    else none

unfoldable pub is_shielded_output_index : HistoryTx → ℕ → Bool
is_shielded_output_index tx index =
    leb (length tx.outputs) index && ltb index (length tx.outputs + length tx.shielded_outputs)
