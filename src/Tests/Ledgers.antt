-- ===== src/Tests/Ledgers.antt =====
-- Runs for src/template/transaction: a template that spends 3 of a token and gives out 9 of it, calls a nano contract, and
-- its completion.
use hathor_wallet_lib.Prelude.{◌≡◌, refl, arith, true, false, none, List, [], ◌∷◌}
use hathor_wallet_lib.Prelude.Int.{pos, ◌+ℤ◌, ◌-ℤ◌}
use hathor_wallet_lib.Result.{Result, ok, err}
use hathor_wallet_lib.Wallet.Rules.{is_authority_output, is_mint, is_melt}
use hathor_wallet_lib.Tokens.Fee.{drop_name}
use hathor_wallet_lib.Template.Balance.{
  mint, calculate_token_fee, sum_fees, calculate_fee, get_token_version, found_or_new,
  get_token_balance, change_token, spent_output, add_balance_from_utxo, add_output,
}
use hathor_wallet_lib.Template.Context.{
  Context, NanoContext, withdrawal, acquire_authority, start_nano_contract_execution, at_end,
  new_context, cache_token_details, index_of, put_token, place_token, add_token, add_fee,
}
use hathor_wallet_lib.Template.Inputs.{
  new_output, give, spend_all, spend, give_new, select_tokens, exec_utxo_select,
}
use hathor_wallet_lib.Template.Outputs.{exec_token_output}
use hathor_wallet_lib.Template.Complete.{
  add_names, check_list, give_surplus, pay_deficit, settle, read_balance, complete_token,
  complete_authority, complete_authorities, complete_one, complete_all, take_fee, exec_complete,
}
use hathor_wallet_lib.Template.Run.{
  Instruction, utxo_select, token_output, nano_method, run_instruction, run,
}
use hathor_wallet_lib.Template.Nano.{put_output, exec_action, exec_actions, exec_nano_method}
use hathor_wallet_lib.Template.Ledger.{funds_left, has_id, are_distinct, IsLedger}
use hathor_wallet_lib.Template.Ledger.Runs.{run-IsLedger, run-funds_left}
use hathor_wallet_lib.Tests.Templates.{rich, rich-IsSound, whole}

-- A nano contract call that grants nothing and withdraws into no output.
abbrev call : NanoContext
call = record {
  id = 1;
  method = 2;
  caller = 3;
  actions = withdrawal 7 5 100 true ∷ acquire_authority 7 mint 100 false ∷ [];
}

abbrev instructions : List Instruction
instructions =
    utxo_select at_end 3 7 none false 100
    ∷ token_output at_end 9 7 100 none false
    ∷ nano_method call
    ∷ []

abbrev returned : Result Context → Context
returned (ok ctx) = ctx
returned (err e) = new_context

abbrev built : Context
built = returned (run rich instructions new_context)

abbrev completed : Context
completed = returned (exec_complete rich whole built)

run_returns : run rich instructions new_context ≡ ok built
unfolding run run_instruction exec_nano_method exec_actions exec_action put_output
    start_nano_contract_execution exec_utxo_select select_tokens exec_token_output give_new
    cache_token_details index_of put_token place_token add_token new_output give spend_all spend
    get_token_version found_or_new get_token_balance change_token spent_output add_balance_from_utxo
    add_output is_authority_output is_mint is_melt ◌+ℤ◌ ◌-ℤ◌
run_returns = refl

completion_returns : exec_complete rich whole built ≡ ok completed
unfolding run run_instruction exec_nano_method exec_actions exec_action put_output
    start_nano_contract_execution exec_utxo_select select_tokens exec_token_output give_new
    exec_complete complete_all complete_one complete_authorities complete_authority complete_token
    read_balance settle give_surplus pay_deficit take_fee add_names check_list drop_name
    cache_token_details index_of put_token place_token add_token add_fee new_output give spend_all
    spend calculate_token_fee sum_fees calculate_fee get_token_version found_or_new
    get_token_balance change_token spent_output add_balance_from_utxo add_output is_authority_output
    is_mint is_melt ◌+ℤ◌ ◌-ℤ◌
completion_returns = refl

run-IsLedger_example : IsLedger rich built
unfolding run run_instruction exec_nano_method exec_actions exec_action put_output
    start_nano_contract_execution exec_utxo_select select_tokens exec_token_output give_new
    cache_token_details index_of put_token place_token add_token new_output give spend_all spend
    get_token_version found_or_new get_token_balance change_token spent_output add_balance_from_utxo
    add_output is_authority_output is_mint is_melt ◌+ℤ◌ ◌-ℤ◌
run-IsLedger_example =
    run-IsLedger rich instructions (tt, (tt, ((refl, (tt, tt)), tt))) built run_returns
      (omega arith)

run-funds_left_example : funds_left rich 7 completed ≡ pos 0
unfolding are_distinct has_id run run_instruction exec_nano_method exec_actions exec_action
    put_output start_nano_contract_execution exec_utxo_select select_tokens exec_token_output
    give_new exec_complete complete_all complete_one complete_authorities complete_authority
    complete_token read_balance settle give_surplus pay_deficit take_fee add_names check_list
    drop_name cache_token_details index_of put_token place_token add_token add_fee new_output give
    spend_all spend calculate_token_fee sum_fees calculate_fee get_token_version found_or_new
    get_token_balance change_token spent_output add_balance_from_utxo add_output is_authority_output
    is_mint is_melt ◌+ℤ◌ ◌-ℤ◌
run-funds_left_example =
    run-funds_left rich rich-IsSound instructions (tt, (tt, ((refl, (tt, tt)), tt))) whole refl refl
      refl built completed run_returns completion_returns (omega arith) 7 refl refl refl
