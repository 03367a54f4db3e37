-- ===== src/Template/Nano.antt =====
-- execNanoMethodInstruction of src/template/transaction/executor.ts, and the actions of a call.
use hathor_wallet_lib.Prelude.{ℕ, none, List, [], ◌∷◌, if◌then◌else◌}
use hathor_wallet_lib.Result.{Result, ok, ◌>>=◌}
use hathor_wallet_lib.Wallet.Maps.{Name}
use hathor_wallet_lib.Template.Context.{
  to_address, Interpreter, NanoAction, NanoContext, Context, deposit, withdrawal, grant_authority,
  acquire_authority, at_end, add_outputs, add_token, start_nano_contract_execution,
}
use hathor_wallet_lib.Template.Inputs.{mask_of, new_output, select_tokens, select_authorities}
use hathor_wallet_lib.Template.Outputs.{authority_data}

-- An output that is not counted in the balance.
unfoldable pub put_output : ℕ → Name → ℕ → Context → Result Context
put_output value address token_data ctx =
    new_output value (to_address address) none token_data >>= λ o.
    ok (add_outputs at_end (o ∷ []) ctx)

module _ (interpreter : Interpreter) where
  unfoldable pub exec_action : NanoAction → Context → Result Context
  -- validateDepositNanoAction
  exec_action (deposit t amount address skips auto_change change_address) ctx =
      add_token interpreter t ctx >>= λ placed.
      if skips
      then ok placed.1
      else select_tokens interpreter amount t address auto_change change_address at_end placed.1
  -- validateWithdrawalNanoAction
  exec_action (withdrawal t amount address skip_outputs) ctx =
      add_token interpreter t ctx >>= λ placed.
      if skip_outputs
      then ok placed.1
      else (add_token interpreter t placed.1 >>= λ again. put_output amount address again.0 again.1)
  -- validateGrantAuthorityNanoAction
  exec_action (grant_authority t a address skips) ctx = add_token interpreter t ctx >>= λ placed.
      if skips
      then ok placed.1
      else select_authorities interpreter t (mask_of a) address 1 at_end placed.1
  -- validateAcquireAuthorityNanoAction
  exec_action (acquire_authority t a address skip_outputs) ctx =
      add_token interpreter t ctx >>= λ placed.
      if skip_outputs
      then ok placed.1
      else (add_token interpreter t placed.1 >>= λ again.
          put_output (mask_of a) address (authority_data again.0) again.1)

  -- The `for` over the actions.
  unfoldable pub exec_actions : List NanoAction → Context → Result Context
  exec_actions [] ctx = ok ctx
  exec_actions (a ∷ as') ctx = exec_action a ctx >>= exec_actions as'

  unfoldable pub exec_nano_method : NanoContext → Context → Result Context
  exec_nano_method call ctx = exec_actions call.actions ctx >>= start_nano_contract_execution call
