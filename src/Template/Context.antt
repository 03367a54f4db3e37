-- ===== src/Template/Context.antt =====
-- src/template/transaction/context.ts, TxTemplateContext: the transaction under construction. What the
-- interpreter asks of the wallet is an interface.
use hathor_wallet_lib.Prelude.{
  ℕ, suc, zero, ◌+◌, ◌-◌, ◌%◌, Bool, true, false, ◌&&◌, not, Option, none, some, List, [], ◌∷◌,
  ◌++◌, ◌==◌, if◌then◌else◌, length, take, drop,
}
use hathor_wallet_lib.Prelude.Int.{ℤ, pos, negsuc}
use hathor_wallet_lib.Result.{
  Result, ok, err, ◌>>=◌, ◌>>◌, throw_if, tokens_present, custom_token_in_create, invalid_fee,
  version_missing, already_nano,
}
use hathor_wallet_lib.Wallet.Maps.{Name, MapOf, get_or, has, set}
use hathor_wallet_lib.Wallet.Types.{HistoryTx, UtxoId}
use hathor_wallet_lib.Wallet.Select.{native_token}
use hathor_wallet_lib.Tokens.Data.{TokenVersion, native}
use hathor_wallet_lib.Template.Balance.{TxBalance, Authority}

-- What a script is made from: createOutputScriptFromAddress, ScriptData, or the bytes themselves.
pub data Script : Type 0 where
  to_address of_data raw : Name → Script

pub record TemplateOutput : Type 0 where
  pub value : ℕ
  pub script : Script
  pub token_data : ℕ
  pub timelock : Option ℕ

-- ITxTemplateInterpreter: `getUtxos` gives utxos and the change, and `getTokenDetails` a version.
pub record Interpreter : Type 0 where
  pub get_utxos : ℕ → Name → Option Name → Result (List UtxoId × ℕ)
  pub get_authorities : ℕ → Name → ℕ → Option Name → Result (List UtxoId)
  pub get_tx : Name → Result HistoryTx
  pub get_token_details : Name → Result (Option TokenVersion)
  pub get_htr_deposit : ℕ → Result ℕ

-- The actions of a nano contract call, their references and default addresses resolved. A deposit and a
-- grant select nothing with `skipSelection` or `useCreatedToken`; the flag is either of these.
pub data NanoAction : Type 0 where
  deposit : Name → ℕ → Option Name → Bool → Bool → Name → NanoAction
  withdrawal : Name → ℕ → Name → Bool → NanoAction
  grant_authority : Name → Authority → Option Name → Bool → NanoAction
  acquire_authority : Name → Authority → Name → Bool → NanoAction

-- NanoContractContext, without the arguments, which nothing here reads.
pub record NanoContext : Type 0 where
  pub id : Name
  pub method : Name
  pub caller : Name
  pub actions : List NanoAction

pub record Context : Type 0 where
  pub version : ℕ
  pub signal_bits : ℕ
  pub inputs : List UtxoId
  pub outputs : List TemplateOutput
  pub tokens : List Name
  pub balance : TxBalance
  pub token_name : Option Name
  pub token_symbol : Option Name
  pub token_version : Option TokenVersion
  pub fees : MapOf ℕ
  pub token_details : MapOf TokenVersion
  pub nano_context : Option NanoContext

abbrev pub default_tx_version : ℕ
default_tx_version = 1

-- The constructor of TxTemplateContext.
abbrev pub new_context : Context
new_context = record {
  version = default_tx_version;
  signal_bits = 0;
  inputs = [];
  outputs = [];
  tokens = [];
  balance = record { balance = []; created_token_balance = none };
  token_name = none;
  token_symbol = none;
  token_version = none;
  fees = [];
  token_details = [];
  nano_context = none;
}

abbrev pub create_token_tx_version : ℕ
create_token_tx_version = 2

abbrev pub is_create_token_tx_context : Context → Bool
is_create_token_tx_context ctx = ctx.version == create_token_tx_version

abbrev is_empty : List Name → Bool
is_empty [] = true
is_empty (_ ∷ _) = false

unfoldable pub use_create_token_tx_context : Context → Result Context
use_create_token_tx_context ctx =
    throw_if (not (is_empty ctx.tokens)) tokens_present
    >> ok (record ctx { version = create_token_tx_version })

-- `indexOf`
unfoldable pub index_of : Name → List Name → Option ℕ
index_of t [] = none
index_of t (n ∷ ns) = elim (n == t) [
  | true ↦ some 0
  | false ↦ elim (index_of t ns) [ none ↦ none | some i ↦ some (suc i) ]
]

-- `splice(position, 0, ...items)`, where -1 stands for the end
abbrev pub add_items {ℓ} : {A : Type ℓ} → ℤ → List A → List A → List A
add_items (pos n) items xs = take n xs ++ (items ++ drop n xs)
add_items (negsuc zero) items xs = xs ++ items
add_items (negsuc (suc n)) items xs =
    take (length xs - (n + 2)) xs ++ (items ++ drop (length xs - (n + 2)) xs)

-- startNanoContractExecution
unfoldable pub start_nano_contract_execution : NanoContext → Context → Result Context
start_nano_contract_execution call ctx = elim ctx.nano_context as (λ _. Result Context) [
  | none ↦ ok (record ctx { nano_context = some call })
  | some _ ↦ err already_nano
]

abbrev pub at_end : ℤ
at_end = negsuc 0

abbrev pub add_inputs : ℤ → List UtxoId → Context → Context
add_inputs position items ctx = record ctx { inputs = add_items position items ctx.inputs }

abbrev pub add_outputs : ℤ → List TemplateOutput → Context → Context
add_outputs position items ctx = record ctx { outputs = add_items position items ctx.outputs }

abbrev pub fee_divisor : ℕ
fee_divisor = 100

unfoldable pub add_fee : Name → ℕ → Context → Result Context
add_fee t amount ctx =
    throw_if (not (t == native_token) && not (amount % fee_divisor == 0)) invalid_fee
    >> ok (record ctx { fees = set t (get_or 0 t ctx.fees + amount) ctx.fees })

-- The index that `indexOf` finds, or the end of the array, where the token is put.
unfoldable pub put_token : Name → Context → Option ℕ → ℕ × Context
put_token t ctx (some i) = (i + 1, ctx)
put_token t ctx none = (length ctx.tokens + 1, record ctx { tokens = ctx.tokens ++ t ∷ [] })

unfoldable pub place_token : Name → Context → Result (ℕ × Context)
place_token t ctx =
    if t == native_token
    then ok (0, ctx)
    else if is_create_token_tx_context ctx
    then err custom_token_in_create
    else ok (put_token t ctx (index_of t ctx.tokens))

module _ (interpreter : Interpreter) where
  abbrev pub fetch_version : Name → Result TokenVersion
  fetch_version t =
      if t == native_token
      then ok native
      else (interpreter.get_token_details t >>= λ v. elim v as (λ _. Result TokenVersion) [
        | none ↦ err version_missing
        | some x ↦ ok x
      ])

  unfoldable pub cache_token_details : Name → Context → Result Context
  cache_token_details t ctx =
      if has t ctx.token_details
      then ok ctx
      else (fetch_version t >>= λ v. ok (record ctx { token_details = set t v ctx.token_details }))

  unfoldable pub add_token : Name → Context → Result (ℕ × Context)
  add_token t ctx = cache_token_details t ctx >>= place_token t
