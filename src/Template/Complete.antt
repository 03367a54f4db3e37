-- ===== src/Template/Complete.antt =====
-- execCompleteTxInstruction of src/template/transaction/executor.ts, which adds the change, the inputs and
-- the fee that the transaction misses.
pub mod Settled
pub mod Balanced
pub mod Charged
use hathor_wallet_lib.Prelude.{
  ℕ, ◌+◌, Bool, true, false, ◌&&◌, ◌||◌, not, Option, none, some, List, [], ◌∷◌, ltb, ◌==◌,
  if◌then◌else◌,
}
use hathor_wallet_lib.Prelude.Int.{ℤ, pos, negsuc, pos_part, neg_part, ◌-ℤ◌, ltb_ℤ}
use hathor_wallet_lib.Result.{Result, ok, err, ◌>>=◌, missing_value}
use hathor_wallet_lib.Wallet.Maps.{Name, has_name, add_name}
use hathor_wallet_lib.Wallet.Select.{native_token}
use hathor_wallet_lib.Tokens.Data.{TokenVersion, deposit}
use hathor_wallet_lib.Tokens.Fee.{drop_name}
use hathor_wallet_lib.Template.Balance.{
  TokenBalance, TxBalance, Authority, mint, melt, get_token_balance, set_token_balance,
  change_token, add_output, calculate_fee,
}
use hathor_wallet_lib.Template.Context.{
  Script, to_address, Interpreter, Context, at_end, add_token, add_fee, is_create_token_tx_context,
}
use hathor_wallet_lib.Template.Inputs.{mask_of, with_balance, give, spend}
use hathor_wallet_lib.Template.Outputs.{give_authorities}

pub record Completion : Type 0 where
  pub token : Option Name
  pub change_address : Name
  pub address : Option Name
  pub timelock : Option ℕ
  pub skip_selection : Bool
  pub skip_authorities : Bool
  pub skip_change : Bool
  pub with_fee : Bool

abbrev pub authorities_of : Authority → TokenBalance → ℤ
authorities_of mint x = x.mint_authorities
authorities_of melt x = x.melt_authorities

-- The deposit of a token that is created.
abbrev is_deposit_version : Option TokenVersion → Bool
is_deposit_version (some deposit) = true
is_deposit_version _ = false

unfoldable pub add_names : List Name → List Name → List Name
add_names [] ns = ns
add_names (t ∷ ts) ns = add_names ts (add_name t ns)

-- The given token, or the native token and those of the transaction.
unfoldable pub check_list : Option Name → List Name → List Name
check_list (some t) ts = t ∷ []
check_list none ts = add_names ts (native_token ∷ [])

module _ (interpreter : Interpreter) (c : Completion) where
  -- A surplus becomes a change output.
  unfoldable pub give_surplus : Name → ℕ → ℤ → Context → Result Context
  give_surplus t token_data surplus ctx =
      give at_end (pos_part surplus) t (to_address c.change_address) c.timelock token_data ctx

  -- A deficit is paid by inputs, which may leave change.
  unfoldable pub pay_deficit : Name → ℕ → ℤ → Context → Result Context
  pay_deficit t token_data deficit ctx =
      interpreter.get_utxos (neg_part deficit) t c.address >>= λ found.
      spend interpreter at_end found.0 ctx >>= λ spent.
      if found.1 == 0
      then ok spent
      else give at_end found.1 t (to_address c.change_address) none token_data spent

  unfoldable pub settle : Name → ℕ → ℤ → Context → Result Context
  settle t token_data balance ctx =
      if ltb_ℤ (pos 0) balance && not c.skip_change
      then give_surplus t token_data balance ctx
      else if ltb_ℤ balance (pos 0) && not c.skip_selection
      then pay_deficit t token_data balance ctx
      else ok ctx

  -- getTokenBalance, which also stores the balance of a token that is new.
  unfoldable pub read_balance : Name → Context → Result (TokenBalance × Context)
  read_balance t ctx = get_token_balance ctx.token_details t ctx.balance >>= λ x.
      ok (x, with_balance (set_token_balance t x ctx.balance) ctx)

  -- completeTokenInputAndOutputs, which gives the place of the token
  unfoldable pub complete_token : Name → Context → Result (ℕ × Context)
  complete_token t ctx = do
    placed ← add_token interpreter t ctx
    read ← read_balance t (placed.1)
    settled ← settle t (placed.0) ((read.0).tokens) (read.1)
    ok (placed.0, settled)

  unfoldable pub complete_authority : Authority → Name → ℕ → Context → Result Context
  complete_authority a t token_data ctx = get_token_balance ctx.token_details t ctx.balance >>= λ x.
      let n = authorities_of a x in
      if ltb_ℤ (pos 0) n
      then give_authorities at_end (pos_part n) t a (to_address c.change_address) c.timelock
          token_data ctx
      else if ltb_ℤ n (pos 0)
      then (interpreter.get_authorities (neg_part n) t (mask_of a) none >>= λ found.
          spend interpreter at_end found ctx)
      else ok ctx

  -- The authorities of a token, which can be skipped.
  unfoldable pub complete_authorities : Bool → Name → ℕ → Context → Result Context
  complete_authorities true t token_data ctx = ok ctx
  complete_authorities false t token_data ctx =
      complete_authority mint t token_data ctx >>= complete_authority melt t token_data

  -- The body of the `for` over the tokens.
  unfoldable pub complete_one : Name → Context → Result Context
  complete_one t ctx =
      complete_token t ctx >>= λ done. complete_authorities c.skip_authorities t done.0 done.1

  unfoldable pub complete_all : List Name → Context → Result Context
  complete_all [] ctx = ok ctx
  complete_all (t ∷ ts) ctx = complete_one t ctx >>= complete_all ts

  abbrev pub tokens_to_check : Context → List Name
  tokens_to_check ctx = check_list c.token ctx.tokens

  -- The deposit of the token that is created, for the amount that its balance is short of.
  unfoldable pub creation_deposit : Context → Result ℕ
  creation_deposit ctx =
      if is_deposit_version ctx.token_version
      then elim ctx.balance.created_token_balance as (λ _. Result ℕ) [
        | none ↦ err missing_value
        | some x ↦ interpreter.get_htr_deposit (pos_part x.tokens + neg_part x.tokens)
      ]
      else ok 0

  unfoldable pub take_deposit : ℕ → Context → Result Context
  take_deposit amount ctx = do
    placed ← add_token interpreter native_token ctx
    b ←
        change_token (placed.1).token_details native_token
          (λ x. record x { tokens = x.tokens -ℤ pos amount }) (placed.1).balance
    ok (with_balance b (placed.1))

  unfoldable pub with_deposit : Context → Result Context
  with_deposit ctx = creation_deposit ctx >>= λ d. take_deposit d ctx

  abbrev pub takes_deposit : Context → Bool
  takes_deposit ctx = c.with_fee && is_create_token_tx_context ctx

  -- The fee, which is an amount of the native token that goes to no output.
  unfoldable pub take_fee : ℕ → Context → Result Context
  take_fee amount ctx = do
    placed ← add_token interpreter native_token ctx
    b ← add_output (placed.1).token_details amount native_token (placed.1).balance
    add_fee native_token amount (with_balance b (placed.1))

  abbrev pub fee_of : Context → ℕ
  fee_of ctx = if c.with_fee then calculate_fee ctx.balance else 0

  abbrev pub checked : Context → List Name
  checked ctx =
      if takes_deposit ctx then add_name native_token (tokens_to_check ctx) else tokens_to_check ctx

  abbrev pub deposit_step : Context → Result Context
  deposit_step ctx = if takes_deposit ctx then with_deposit ctx else ok ctx

  abbrev pub fee_step : ℕ → Context → Result Context
  fee_step amount ctx = if ltb 0 amount then take_fee amount ctx else ok ctx

  -- The native token comes last, so that its utxos are looked for once.
  abbrev pub last_step : Bool → Context → Result Context
  last_step checks ctx =
      if checks then (complete_token native_token ctx >>= λ done. ok done.1) else ok ctx

  unfoldable pub exec_complete : Context → Result Context
  exec_complete ctx = do
    deposited ← deposit_step ctx
    completed ← complete_all (drop_name native_token (checked ctx)) deposited
    charged ← fee_step (fee_of completed) completed
    last_step (has_name native_token (checked ctx) || ltb 0 (fee_of completed)) charged
