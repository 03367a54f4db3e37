-- ===== src/Template/Inputs.antt =====
-- src/template/transaction/utils.ts, and the instructions of src/template/transaction/executor.ts that
-- add inputs.
use hathor_wallet_lib.Prelude.{ℕ, Bool, ◌&&◌, not, Option, none, List, [], ◌∷◌, ◌==◌, if◌then◌else◌}
use hathor_wallet_lib.Prelude.Int.{ℤ}
use hathor_wallet_lib.Result.{Result, ok, ◌>>=◌, ◌>>◌, throw_if, value_not_positive}
use hathor_wallet_lib.Wallet.Maps.{Name}
use hathor_wallet_lib.Wallet.Types.{UtxoId}
use hathor_wallet_lib.Template.Balance.{
  TxBalance, Authority, mint, melt, spent_output, add_balance_from_utxo, add_output,
}
use hathor_wallet_lib.Template.Context.{
  Script, to_address, TemplateOutput, Interpreter, Context, at_end, add_inputs, add_outputs,
  cache_token_details, add_token,
}

-- The mask of an authority.
abbrev pub mask_of : Authority → ℕ
mask_of mint = 1
mask_of melt = 2

-- The constructor of Output.
unfoldable pub new_output : ℕ → Script → Option ℕ → ℕ → Result TemplateOutput
new_output value script timelock token_data =
    throw_if (value == 0) value_not_positive
    >> ok (record { value = value; script = script; timelock = timelock; token_data = token_data })

abbrev pub with_balance : TxBalance → Context → Context
with_balance b ctx = record ctx { balance = b }

-- An output of a token that has its place: the balance first, then the output.
unfoldable pub give : ℤ → ℕ → Name → Script → Option ℕ → ℕ → Context → Result Context
give position amount t script timelock token_data ctx = do
  b ← add_output ctx.token_details amount t ctx.balance
  o ← new_output amount script timelock token_data
  ok (add_outputs position (o ∷ []) (with_balance b ctx))

module _ (interpreter : Interpreter) where
  abbrev pub spend_one : UtxoId → Context → Result Context
  spend_one id ctx = interpreter.get_tx id.tx_id >>= λ tx.
      add_balance_from_utxo ctx.token_details tx id.index ctx.balance >>= λ b.
      ok (with_balance b ctx)

  -- The `for` over utxos, which adds their balance.
  unfoldable pub spend_all : List UtxoId → Context → Result Context
  spend_all [] ctx = ok ctx
  spend_all (id ∷ ids) ctx = spend_one id ctx >>= spend_all ids

  -- The inputs are added when all of them count for the balance.
  unfoldable pub spend : ℤ → List UtxoId → Context → Result Context
  spend position ids ctx = spend_all ids ctx >>= λ c. ok (add_inputs position ids c)

  -- An output of a token that may not have a place yet.
  unfoldable pub give_new : ℤ → ℕ → Name → Script → Option ℕ → Context → Result Context
  give_new position amount t script timelock ctx = add_token interpreter t ctx >>= λ placed.
      give position amount t script timelock placed.0 placed.1

  -- selectTokens
  unfoldable pub select_tokens : ℕ → Name → Option Name → Bool → Name → ℤ → Context → Result Context
  select_tokens amount t address auto_change change_address position ctx = do
    c ← cache_token_details interpreter t ctx
    found ← interpreter.get_utxos amount t address
    spent ← spend position (found.0) c
    (if auto_change && not (found.1 == 0)
        then give_new at_end (found.1) t (to_address change_address) none spent
        else ok spent)

  -- selectAuthorities
  unfoldable pub select_authorities : Name → ℕ → Option Name → ℕ → ℤ → Context → Result Context
  select_authorities t authorities address count position ctx = do
    c ← cache_token_details interpreter t ctx
    found ← interpreter.get_authorities count t authorities address
    spend position found c

  -- execRawInputInstruction. The token of the output is cached before its balance is added.
  unfoldable pub exec_raw_input : ℤ → UtxoId → Context → Result Context
  exec_raw_input position id ctx = do
    tx ← interpreter.get_tx id.tx_id
    o ← spent_output tx id.index
    c ← cache_token_details interpreter o.token ctx
    spend position (id ∷ []) c

  -- execUtxoSelectInstruction, with the change address that it finds.
  unfoldable pub exec_utxo_select :
      ℤ → ℕ → Name → Option Name → Bool → Name → Context → Result Context
  exec_utxo_select position fill t address auto_change change_address ctx =
      select_tokens fill t address auto_change change_address position ctx

  -- execAuthoritySelectInstruction
  unfoldable pub exec_authority_select :
      ℤ → Authority → Name → ℕ → Option Name → Context → Result Context
  exec_authority_select position a t count address ctx =
      select_authorities t (mask_of a) address count position ctx
