-- ===== src/Template/Complete/Charged.antt =====
-- What execCompleteTxInstruction of src/template/transaction/executor.ts takes from the native token before
-- it completes that token: the deposit of a token that is created, and the fee.
use hathor_wallet_lib.Prelude.{ℕ, ◌+◌, ◌≡◌, false, ◌&&◌, none, if◌then◌else◌}
use hathor_wallet_lib.Prelude.Int.{pos, ◌-ℤ◌}
use hathor_wallet_lib.Result.{Result, ok}
use hathor_wallet_lib.Wallet.Maps.{get_or}
use hathor_wallet_lib.Wallet.Select.{native_token}
use hathor_wallet_lib.Template.Context.{Interpreter, Context, is_create_token_tx_context}
use hathor_wallet_lib.Template.Amounts.{tokens_of}
use hathor_wallet_lib.Template.Complete.{Completion, creation_deposit}
use hathor_wallet_lib.Template.Complete.Settled.{IsSound}

module _ (interpreter : Interpreter) (sound : IsSound interpreter) (c : Completion)
    (change : c.skip_change ≡ false) (selection : c.skip_selection ≡ false)
    (whole : c.token ≡ none) where
  -- What the fee changes.
  abbrev pub Charges : ℕ → Context → Context → Type 0
  Charges amount ctx ctx' =
      (tokens_of native_token ctx'.balance ≡ tokens_of native_token ctx.balance -ℤ pos amount)
      × (get_or 0 native_token ctx'.fees ≡ get_or 0 native_token ctx.fees + amount)

  -- The deposit that is due for the token that the transaction creates.
  abbrev pub deposit_due : Context → Result ℕ
  deposit_due ctx =
      if c.with_fee && is_create_token_tx_context ctx
      then creation_deposit interpreter c ctx
      else ok 0
