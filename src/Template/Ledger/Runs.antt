-- ===== src/Template/Ledger/Runs.antt =====
-- Whole templates of src/template/transaction: the balance that the interpreter keeps, and the count over
-- the inputs and the outputs.
use mathlib.Core.List.{Permᴰ}
use hathor_wallet_lib.Prelude.{
  ℕ, ◌≡◌, refl, ◌∙◌, ap, sym, arith, true, false, Option, none, some, List, length, [], ◌∷◌, ◌==◌,
}
use hathor_wallet_lib.Prelude.Int.{pos, ◌-ℤ◌, int_laws}
use hathor_wallet_lib.Result.{ok, ok_inj, >>=-eq-ok}
use hathor_wallet_lib.Wallet.Maps.{Name, has_name}
use hathor_wallet_lib.Wallet.Types.{UtxoId}
use hathor_wallet_lib.Wallet.Select.{native_token}
use hathor_wallet_lib.Template.Context.{
  TemplateOutput, Interpreter, Context, new_context, create_token_tx_version, index_of,
}
use hathor_wallet_lib.Template.Inputs.{mask_of, exec_utxo_select, exec_authority_select}
use hathor_wallet_lib.Template.Outputs.{Config, exec_fee, exec_shuffle, exec_config}
use hathor_wallet_lib.Template.Complete.{Completion, exec_complete}
use hathor_wallet_lib.Template.Complete.Settled.{IsSound}
use hathor_wallet_lib.Template.Complete.Balanced.{exec_complete-tokens_of}
use hathor_wallet_lib.Template.Run.{
  Instruction, raw_input, utxo_select, authority_select, raw_output, data_output, token_output,
  authority_output, shuffle, complete, config, fee_instruction, set_var, nano_method,
  run_instruction, run,
}
use hathor_wallet_lib.Template.Ledger.{
  sum_by, all_by, value_at, sum_outputs, fits, input_amount, left_over, IsLedger, AreFew,
  funds_left, are_distinct, once-distinct,
}
use hathor_wallet_lib.Template.Ledger.Steps.{Follows, Follows-trans, >>=-Follows}
use hathor_wallet_lib.Template.Ledger.Instructions.{sum_by-Perm, all_by-Perm}
use hathor_wallet_lib.Template.Ledger.Selections.{
  ok-Follows, select_tokens-Follows, select_authorities-Follows, exec_raw_input-Follows,
  exec_token_output-Follows, exec_data_output-Follows, exec_authority_output-Follows,
  exec_raw_output-Follows,
}
use hathor_wallet_lib.Template.Ledger.Whole.{exec_complete-Follows}
use hathor_wallet_lib.Template.Ledger.Actions.{AreCounted, exec_nano_method-Follows}

-- An instruction that does not make the transaction one that creates a token, and whose orders, those of
-- lodash, lose and add nothing, and that withdraws from no nano contract into an output.
abbrev pub IsOrdinary : Instruction → Type 0
IsOrdinary (shuffle inputs outputs) =
    ((xs : List UtxoId) → Permᴰ (inputs xs) xs)
    × ((xs : List TemplateOutput) → Permᴰ (outputs xs) xs)
IsOrdinary (config c) = (c.create_token ≡ false) × ((c.version == create_token_tx_version) ≡ false)
IsOrdinary (nano_method call) = AreCounted call.actions
IsOrdinary _ = Unit

abbrev pub AreOrdinary : List Instruction → Type 0
AreOrdinary [] = Unit
AreOrdinary (i ∷ is) = IsOrdinary i × AreOrdinary is

sum_outputs-Perm :
    (m : Option ℕ) {xs ys : List TemplateOutput} → Permᴰ xs ys → sum_outputs m xs ≡ sum_outputs m ys
unfolding sum_outputs
sum_outputs-Perm none p = refl
sum_outputs-Perm (some i) p = sum_by-Perm (value_at i) p

module _ (interpreter : Interpreter) where
  exec_shuffle-Follows :
      (inputs : List UtxoId → List UtxoId) (outputs : List TemplateOutput → List TemplateOutput)
      (ctx : Context)
      → IsOrdinary (shuffle inputs outputs)
      → Follows interpreter ctx (exec_shuffle inputs outputs ctx)
  unfolding exec_shuffle left_over
  exec_shuffle-Follows inputs outputs ctx (is_order, os_order) = (
    omega arith,
    λ few ledger. record {
      ordinary = ledger.ordinary;
      places = all_by-Perm (fits (length ctx.tokens)) (os_order ctx.outputs) ∙ ledger.places;
      amounts = λ t custom. grind (
        int_laws,
        ledger.amounts t custom,
        sum_by-Perm (input_amount interpreter t) (is_order ctx.inputs),
        sum_outputs-Perm (index_of t ctx.tokens) (os_order ctx.outputs),
      );
    },
  )

  exec_fee-Follows :
      (t : Name) (amount : ℕ) (ctx : Context) → Follows interpreter ctx (exec_fee t amount ctx)
  unfolding exec_fee left_over
  exec_fee-Follows t amount ctx = (
    omega arith,
    λ few ledger. record {
      ordinary = ledger.ordinary;
      places = ledger.places;
      amounts = ledger.amounts;
    },
  )

  exec_config-Follows :
      (c : Config) (ctx ctx' : Context)
      → IsOrdinary (config c)
      → exec_config c ctx ≡ ok ctx'
      → Follows interpreter ctx ctx'
  unfolding exec_config left_over
  exec_config-Follows c ctx ctx' (creates, version) h = rw (← ok_inj (rw creates at h)) (
    omega arith,
    λ few ledger. record {
      ordinary = ground (arith, version, ledger.ordinary);
      places = ledger.places;
      amounts = ledger.amounts;
    },
  )

  run_instruction-Follows :
      (i : Instruction) (ctx ctx' : Context)
      → IsOrdinary i
      → run_instruction interpreter i ctx ≡ ok ctx'
      → Follows interpreter ctx ctx'
  unfolding run_instruction exec_utxo_select exec_authority_select
  run_instruction-Follows (raw_input position id) ctx ctx' o =
      exec_raw_input-Follows interpreter position id ctx ctx'
  run_instruction-Follows (utxo_select position fill t address auto_change change) ctx ctx' o =
      select_tokens-Follows interpreter fill t address auto_change change position ctx ctx'
  run_instruction-Follows (authority_select position a t count address) ctx ctx' o =
      select_authorities-Follows interpreter t (mask_of a) address count position ctx ctx'
  run_instruction-Follows (raw_output position script amount t timelock a use_created) ctx ctx' o =
      exec_raw_output-Follows interpreter position script amount t timelock a use_created ctx ctx'
  run_instruction-Follows (data_output position text t use_created) ctx ctx' o =
      exec_data_output-Follows interpreter position text t use_created ctx ctx'
  run_instruction-Follows (token_output position amount t address timelock use_created) ctx ctx' o =
      exec_token_output-Follows interpreter position amount t address timelock use_created ctx ctx'
  run_instruction-Follows (authority_output position a count t address timelock use_created) ctx
        ctx' o =
      exec_authority_output-Follows interpreter position a count t address timelock use_created ctx
        ctx'
  run_instruction-Follows (shuffle inputs outputs) ctx ctx' o =
      λ h. rw (← ok_inj h) (exec_shuffle-Follows inputs outputs ctx o)
  run_instruction-Follows (complete c) ctx ctx' o = exec_complete-Follows interpreter c ctx ctx'
  run_instruction-Follows (config c) ctx ctx' o = exec_config-Follows c ctx ctx' o
  run_instruction-Follows (fee_instruction t amount) ctx ctx' o =
      λ h. rw (← ok_inj h) (exec_fee-Follows t amount ctx)
  run_instruction-Follows (set_var outcome) ctx ctx' o =
      λ h. (let (u, e, h') = >>=-eq-ok outcome _ h in ok-Follows interpreter ctx ctx' h')
  run_instruction-Follows (nano_method call) ctx ctx' o =
      exec_nano_method-Follows interpreter call ctx ctx' o

  pub run-Follows :
      (is : List Instruction) (ctx ctx' : Context)
      → AreOrdinary is
      → run interpreter is ctx ≡ ok ctx'
      → Follows interpreter ctx ctx'
  unfolding run
  run-Follows [] ctx ctx' o = ok-Follows interpreter ctx ctx'
  run-Follows (i ∷ is) ctx ctx' (o, os) =
      >>=-Follows interpreter (run_instruction interpreter i ctx) _ ctx ctx'
        (λ c. run_instruction-Follows i ctx c o) (λ c. run-Follows is c ctx' os)

  new_context-IsLedger : IsLedger interpreter new_context
  unfolding left_over sum_by all_by sum_outputs index_of
  new_context-IsLedger = record {
    ordinary = refl;
    places = refl;
    amounts = λ t custom. omega int_laws;
  }

  -- When a template that creates no token, whose shuffles lose and add nothing, and which withdraws from no
  -- nano contract into an output, returns from an empty context with at most 127 tokens: for every token
  -- but the native one, the balance of the context is the funds in its inputs, each as often as it was
  -- added, less the funds in its outputs, and every output stands at the place of a token or is an
  -- authority.
  pub run-IsLedger :
      (is : List Instruction)
      → AreOrdinary is
      → (ctx : Context) → run interpreter is new_context ≡ ok ctx
      → AreFew ctx
      → IsLedger interpreter ctx
  run-IsLedger is o ctx h few = (run-Follows is new_context ctx o h).1 few new_context-IsLedger

  -- A template that creates no token, whose shuffles lose and add nothing, and which withdraws from no nano
  -- contract into an output, is run from an empty context and completed over the whole transaction without
  -- `skipChange` and `skipSelection`, by a wallet that gives utxos of the token that hold the amount and
  -- the change, and authorities for authorities. When both return, with at most 127 tokens and no input
  -- twice, the outputs that are spent hold as much as the new ones of every token but the native one that
  -- had its place before the completion.
  pub run-funds_left :
      IsSound interpreter
      → (is : List Instruction) → AreOrdinary is
      → (c : Completion) → c.skip_change ≡ false
      → c.skip_selection ≡ false
      → c.token ≡ none
      → (ctx ctx' : Context) → run interpreter is new_context ≡ ok ctx
      → exec_complete interpreter c ctx ≡ ok ctx'
      → AreFew ctx'
      → (t : Name) → (native_token == t) ≡ false
      → has_name t ctx.tokens ≡ true
      → are_distinct ctx'.inputs ≡ true
      → funds_left interpreter t ctx' ≡ pos 0
  unfolding funds_left left_over
  run-funds_left sound is o c change selection whole ctx ctx' h k few t custom known distinct =
      let follows =
        Follows-trans interpreter new_context ctx ctx' (run-Follows is new_context ctx o h)
          (exec_complete-Follows interpreter c ctx ctx' k) in
      let ledger = follows.1 few new_context-IsLedger in
      ap
        (λ ids.
          sum_by (input_amount interpreter t) ids
          -ℤ sum_outputs (index_of t ctx'.tokens) ctx'.outputs)
        (once-distinct ctx'.inputs distinct)
      ∙ sym (ledger.amounts t custom)
      ∙ exec_complete-tokens_of interpreter sound c change selection whole ctx ctx' t
          (ground (arith, custom, known)) k
