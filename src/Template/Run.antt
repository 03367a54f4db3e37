-- ===== src/Template/Run.antt =====
-- A template is a list of instructions, which src/template/transaction/interpreter.ts runs one by one.
use hathor_wallet_lib.Prelude.{ℕ, Bool, Option, List, [], ◌∷◌}
use hathor_wallet_lib.Prelude.Int.{ℤ}
use hathor_wallet_lib.Result.{Result, ok, ◌>>=◌}
use hathor_wallet_lib.Wallet.Maps.{Name}
use hathor_wallet_lib.Wallet.Types.{UtxoId}
use hathor_wallet_lib.Template.Balance.{Authority}
use hathor_wallet_lib.Template.Context.{TemplateOutput, Interpreter, NanoContext, Context}
use hathor_wallet_lib.Template.Nano.{exec_nano_method}
use hathor_wallet_lib.Template.Inputs.{exec_raw_input, exec_utxo_select, exec_authority_select}
use hathor_wallet_lib.Template.Outputs.{
  Config, exec_token_output, exec_data_output, exec_authority_output, exec_raw_output, exec_fee,
  exec_shuffle, exec_config,
}
use hathor_wallet_lib.Template.Complete.{Completion, exec_complete}

-- The instructions, their references resolved. Setting a variable changes no more than the variables, so it
-- is the outcome of the call that gives the value.
pub data Instruction : Type 0 where
  raw_input : ℤ → UtxoId → Instruction
  utxo_select : ℤ → ℕ → Name → Option Name → Bool → Name → Instruction
  authority_select : ℤ → Authority → Name → ℕ → Option Name → Instruction
  raw_output : ℤ → Name → Option ℕ → Name → Option ℕ → Option Authority → Bool → Instruction
  data_output : ℤ → Name → Name → Bool → Instruction
  token_output : ℤ → ℕ → Name → Name → Option ℕ → Bool → Instruction
  authority_output : ℤ → Authority → ℕ → Option Name → Name → Option ℕ → Bool → Instruction
  shuffle : (List UtxoId → List UtxoId) → (List TemplateOutput → List TemplateOutput) → Instruction
  complete : Completion → Instruction
  config : Config → Instruction
  fee_instruction : Name → ℕ → Instruction
  set_var : Result (Unit {0}) → Instruction
  nano_method : NanoContext → Instruction

module _ (interpreter : Interpreter) where
  -- runInstruction
  unfoldable pub run_instruction : Instruction → Context → Result Context
  run_instruction (raw_input position id) = exec_raw_input interpreter position id
  run_instruction (utxo_select position fill t address auto_change change_address) =
      exec_utxo_select interpreter position fill t address auto_change change_address
  run_instruction (authority_select position a t count address) =
      exec_authority_select interpreter position a t count address
  run_instruction (raw_output position script amount t timelock a use_created) =
      exec_raw_output interpreter position script amount t timelock a use_created
  run_instruction (data_output position text t use_created) =
      exec_data_output interpreter position text t use_created
  run_instruction (token_output position amount t address timelock use_created) =
      exec_token_output interpreter position amount t address timelock use_created
  run_instruction (authority_output position a count t address timelock use_created) =
      exec_authority_output interpreter position a count t address timelock use_created
  run_instruction (shuffle inputs outputs) = λ ctx. ok (exec_shuffle inputs outputs ctx)
  run_instruction (complete c) = exec_complete interpreter c
  run_instruction (config c) = exec_config c
  run_instruction (fee_instruction t amount) = λ ctx. ok (exec_fee t amount ctx)
  run_instruction (set_var outcome) = λ ctx. outcome >>= λ _. ok ctx
  run_instruction (nano_method call) = exec_nano_method interpreter call

  -- The `for` over the instructions in `build`.
  unfoldable pub run : List Instruction → Context → Result Context
  run [] ctx = ok ctx
  run (i ∷ is) ctx = run_instruction i ctx >>= run is
