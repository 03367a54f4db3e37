-- ===== src/Template/Outputs.antt =====
-- The instructions of src/template/transaction/executor.ts that add outputs, and those that change the
-- context otherwise.
use hathor_wallet_lib.Prelude.{
  ℕ, ◌+◌, Bool, not, Option, none, some, List, [], ◌∷◌, ◌==◌, if◌then◌else◌, bit_or, zero, suc,
}
use hathor_wallet_lib.Prelude.Int.{ℤ}
use hathor_wallet_lib.Result.{
  Result, ok, err, ◌>>=◌, ◌>>◌, throw_if, missing_value, token_missing, version_missing,
  invalid_version,
}
use hathor_wallet_lib.Wallet.Maps.{Name, get_or, set}
use hathor_wallet_lib.Wallet.Types.{UtxoId}
use hathor_wallet_lib.Tokens.Data.{TokenVersion, native}
use hathor_wallet_lib.Template.Balance.{
  Authority, add_output_authority, add_created_token_output, add_created_token_output_authority,
}
use hathor_wallet_lib.Template.Context.{
  Script, to_address, of_data, raw, TemplateOutput, Interpreter, Context, add_outputs, add_token,
  is_create_token_tx_context, use_create_token_tx_context,
}
use hathor_wallet_lib.Template.Inputs.{mask_of, new_output, with_balance, give_new}

-- `tokenData | TOKEN_AUTHORITY_MASK`
abbrev pub authority_data : ℕ → ℕ
authority_data token_data = bit_or token_data 0x80

-- `Array(count).fill(output)`
unfoldable pub copies : ℕ → TemplateOutput → List TemplateOutput
copies zero o = []
copies (suc count) o = o ∷ copies count o

-- The version of the token that is created; that of the native token, 0, counts as missing.
unfoldable pub created_version : Context → Result TokenVersion
created_version ctx =
    throw_if (not (is_create_token_tx_context ctx)) invalid_version
    >> elim ctx.token_version as (λ _. Result TokenVersion) [
      | none ↦ err version_missing
      | some native ↦ err version_missing
      | some v ↦ ok v
    ]

-- An output of the token that is created, whose place is 1.
unfoldable pub give_created : ℤ → ℕ → Script → Option ℕ → Context → Result Context
give_created position amount script timelock ctx = do
  version ← created_version ctx
  o ← new_output amount script timelock 1
  ok (
      add_outputs position (o ∷ [])
        (with_balance (add_created_token_output amount version ctx.balance) ctx))

unfoldable pub give_created_authority :
    ℤ → ℕ → Authority → Script → Option ℕ → Context → Result Context
give_created_authority position count a script timelock ctx = do
  version ← created_version ctx
  o ← new_output (mask_of a) script timelock (authority_data 1)
  ok (
      add_outputs position (copies count o)
        (with_balance (add_created_token_output_authority count a version ctx.balance) ctx))

-- Authority outputs of a token that has its place.
unfoldable pub give_authorities :
    ℤ → ℕ → Name → Authority → Script → Option ℕ → ℕ → Context → Result Context
give_authorities position count t a script timelock token_data ctx = do
  b ← add_output_authority ctx.token_details count t a ctx.balance
  o ← new_output (mask_of a) script timelock (authority_data token_data)
  ok (add_outputs position (copies count o) (with_balance b ctx))

module _ (interpreter : Interpreter) where
  unfoldable pub give_new_authorities :
      ℤ → ℕ → Name → Authority → Script → Option ℕ → Context → Result Context
  give_new_authorities position count t a script timelock ctx =
      add_token interpreter t ctx >>= λ placed.
      give_authorities position count t a script timelock placed.0 placed.1

  -- execTokenOutputInstruction
  unfoldable pub exec_token_output :
      ℤ → ℕ → Name → Name → Option ℕ → Bool → Context → Result Context
  exec_token_output position amount t address timelock use_created_token ctx =
      if use_created_token
      then give_created position amount (to_address address) timelock ctx
      else give_new interpreter position amount t (to_address address) timelock ctx

  -- execDataOutputInstruction
  unfoldable pub exec_data_output : ℤ → Name → Name → Bool → Context → Result Context
  exec_data_output position text t use_created_token ctx =
      if use_created_token
      then give_created position 1 (of_data text) none ctx
      else give_new interpreter position 1 t (of_data text) none ctx

  -- execAuthorityOutputInstruction
  unfoldable pub exec_authority_output :
      ℤ → Authority → ℕ → Option Name → Name → Option ℕ → Bool → Context → Result Context
  exec_authority_output position a count t address timelock use_created_token ctx =
      if use_created_token
      then give_created_authority position count a (to_address address) timelock ctx
      else elim t as (λ _. Result Context) [
        | none ↦ err token_missing
        | some name ↦ give_new_authorities position count name a (to_address address) timelock ctx
      ]

  -- execRawOutputInstruction: an authority comes before an amount, which must not be 0.
  unfoldable pub exec_raw_output :
      ℤ → Name → Option ℕ → Name → Option ℕ → Option Authority → Bool → Context → Result Context
  exec_raw_output position script amount t timelock (some a) use_created_token ctx =
      if use_created_token
      then give_created_authority position 1 a (raw script) timelock ctx
      else give_new_authorities position 1 t a (raw script) timelock ctx
  exec_raw_output position script none t timelock none use_created_token ctx = err missing_value
  exec_raw_output position script (some amount) t timelock none use_created_token ctx =
      throw_if (amount == 0) missing_value
      >> (if use_created_token
          then give_created position amount (raw script) timelock ctx
          else give_new interpreter position amount t (raw script) timelock ctx)

-- execFeeInstruction
unfoldable pub exec_fee : Name → ℕ → Context → Context
exec_fee t amount ctx = record ctx { fees = set t (get_or 0 t ctx.fees + amount) ctx.fees }

-- execShuffleInstruction, with the orders that lodash's `shuffle` comes to.
unfoldable pub exec_shuffle :
    (List UtxoId → List UtxoId) → (List TemplateOutput → List TemplateOutput) → Context → Context
exec_shuffle shuffle_inputs shuffle_outputs ctx = record ctx {
  inputs = shuffle_inputs ctx.inputs;
  outputs = shuffle_outputs ctx.outputs;
}

-- What execConfigInstruction is given; the numbers that are 0 and the empty texts count as missing.
pub record Config : Type 0 where
  pub version : ℕ
  pub signal_bits : ℕ
  pub token_name : Option Name
  pub token_symbol : Option Name
  pub token_version : TokenVersion
  pub create_token : Bool

abbrev or_old : Option Name → Option Name → Option Name
or_old none old = old
or_old (some n) old = some n

abbrev version_or_old : TokenVersion → Option TokenVersion → Option TokenVersion
version_or_old native old = old
version_or_old v old = some v

unfoldable pub exec_config : Config → Context → Result Context
exec_config config ctx =
    let configured = record ctx {
      version = if config.version == 0 then ctx.version else config.version;
      signal_bits = if config.signal_bits == 0 then ctx.signal_bits else config.signal_bits;
      token_name = or_old config.token_name ctx.token_name;
      token_symbol = or_old config.token_symbol ctx.token_symbol;
      token_version = version_or_old config.token_version ctx.token_version;
    } in
    if config.create_token then use_create_token_tx_context configured else ok configured
