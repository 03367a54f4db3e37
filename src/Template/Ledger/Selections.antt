-- ===== src/Template/Ledger/Selections.antt =====
-- The count of the amounts through the instructions of src/template/transaction/executor.ts, but for the
-- completion and those that run without the wallet.
use hathor_wallet_lib.Prelude.{
  ℕ, ◌≡◌, Bool, true, false, not, ◌&&◌, Option, none, some, [], ◌∷◌, ◌==◌, if◌then◌else◌,
}
use hathor_wallet_lib.Prelude.Int.{ℤ}
use hathor_wallet_lib.Result.{
  Result, ok, err, ok_inj, >>=-eq-ok, throw_if, missing_value, token_missing,
}
use hathor_wallet_lib.Wallet.Maps.{Name}
use hathor_wallet_lib.Wallet.Types.{UtxoId}
use hathor_wallet_lib.Template.Balance.{Authority, spent_output}
use hathor_wallet_lib.Template.Context.{
  Script, to_address, of_data, raw, Interpreter, Context, at_end, cache_token_details,
}
use hathor_wallet_lib.Template.Inputs.{spend, select_tokens, select_authorities, exec_raw_input}
use hathor_wallet_lib.Template.Outputs.{
  give_new_authorities, exec_token_output, exec_data_output, exec_authority_output, exec_raw_output,
}
use hathor_wallet_lib.Template.Ledger.Steps.{Follows, Follows-refl, Follows-trans, >>=-Follows}
use hathor_wallet_lib.Template.Ledger.Instructions.{
  cache_token_details-Follows, spend-Follows, give_new-Follows, give_new_authorities-Follows,
  give_created-Follows, give_created_authority-Follows,
}

module _ (interpreter : Interpreter) where
  -- One of two outcomes, by a test.
  pub if-Follows :
      (b : Bool) (m m' : Result Context) (ctx ctx' : Context)
      → (m ≡ ok ctx' → Follows interpreter ctx ctx')
      → (m' ≡ ok ctx' → Follows interpreter ctx ctx')
      → (if b then m else m') ≡ ok ctx'
      → Follows interpreter ctx ctx'
  if-Follows true m m' ctx ctx' f g h = f h
  if-Follows false m m' ctx ctx' f g h = g h

  pub ok-Follows : (ctx ctx' : Context) → ok ctx ≡ ok ctx' → Follows interpreter ctx ctx'
  ok-Follows ctx ctx' h = rw (← ok_inj h) (Follows-refl interpreter ctx)

  pub select_tokens-Follows :
      (amount : ℕ) (t : Name) (address : Option Name) (auto_change : Bool) (change_address : Name)
      (position : ℤ) (ctx ctx' : Context)
      → select_tokens interpreter amount t address auto_change change_address position ctx ≡ ok ctx'
      → Follows interpreter ctx ctx'
  unfolding select_tokens
  select_tokens-Follows amount t address auto_change change_address position ctx ctx' h =
      let (c, e, h1) = >>=-eq-ok (cache_token_details interpreter t ctx) _ h in
      let (found, e', h2) = >>=-eq-ok (interpreter.get_utxos amount t address) _ h1 in
      Follows-trans interpreter ctx c ctx' (cache_token_details-Follows interpreter t ctx c e) (
        >>=-Follows interpreter (spend interpreter position (found.0) c) _ c ctx'
          (λ spent. spend-Follows interpreter position (found.0) c spent)
          (λ spent.
            if-Follows (auto_change && not (found.1 == 0)) _ _ spent ctx'
              (give_new-Follows interpreter at_end (found.1) t (to_address change_address) none
                spent ctx')
              (ok-Follows spent ctx'))
          h2)

  pub select_authorities-Follows :
      (t : Name) (authorities : ℕ) (address : Option Name) (count : ℕ) (position : ℤ)
      (ctx ctx' : Context)
      → select_authorities interpreter t authorities address count position ctx ≡ ok ctx'
      → Follows interpreter ctx ctx'
  unfolding select_authorities
  select_authorities-Follows t authorities address count position ctx ctx' h =
      let (c, e, h1) = >>=-eq-ok (cache_token_details interpreter t ctx) _ h in
      let (found, e', h2) =
        >>=-eq-ok (interpreter.get_authorities count t authorities address) _ h1 in
      Follows-trans interpreter ctx c ctx' (cache_token_details-Follows interpreter t ctx c e)
        (spend-Follows interpreter position found c ctx' h2)

  pub exec_raw_input-Follows :
      (position : ℤ) (id : UtxoId) (ctx ctx' : Context)
      → exec_raw_input interpreter position id ctx ≡ ok ctx'
      → Follows interpreter ctx ctx'
  unfolding exec_raw_input
  exec_raw_input-Follows position id ctx ctx' h =
      let (tx, e, h1) = >>=-eq-ok (interpreter.get_tx id.tx_id) _ h in
      let (o, e', h2) = >>=-eq-ok (spent_output tx id.index) _ h1 in
      >>=-Follows interpreter (cache_token_details interpreter o.token ctx) _ ctx ctx'
        (cache_token_details-Follows interpreter o.token ctx)
        (λ c. spend-Follows interpreter position (id ∷ []) c ctx') h2

  pub exec_token_output-Follows :
      (position : ℤ) (amount : ℕ) (t address : Name) (timelock : Option ℕ) (use_created : Bool)
      (ctx ctx' : Context)
      → exec_token_output interpreter position amount t address timelock use_created ctx ≡ ok ctx'
      → Follows interpreter ctx ctx'
  unfolding exec_token_output
  exec_token_output-Follows position amount t address timelock use_created ctx ctx' =
      if-Follows use_created _ _ ctx ctx'
        (give_created-Follows interpreter position amount (to_address address) timelock ctx ctx')
        (give_new-Follows interpreter position amount t (to_address address) timelock ctx ctx')

  pub exec_data_output-Follows :
      (position : ℤ) (text t : Name) (use_created : Bool) (ctx ctx' : Context)
      → exec_data_output interpreter position text t use_created ctx ≡ ok ctx'
      → Follows interpreter ctx ctx'
  unfolding exec_data_output
  exec_data_output-Follows position text t use_created ctx ctx' =
      if-Follows use_created _ _ ctx ctx'
        (give_created-Follows interpreter position 1 (of_data text) none ctx ctx')
        (give_new-Follows interpreter position 1 t (of_data text) none ctx ctx')

  authority_of_token-Follows :
      (position : ℤ) (a : Authority) (count : ℕ) (t : Option Name) (script : Script)
      (timelock : Option ℕ) (ctx ctx' : Context)
      → (elim t as (λ _. Result Context) [
        | none ↦ err token_missing
        | some name ↦ give_new_authorities interpreter position count name a script timelock ctx
      ])
        ≡ ok ctx'
      → Follows interpreter ctx ctx'
  authority_of_token-Follows position a count none script timelock ctx ctx' h = absurd (cc)
  authority_of_token-Follows position a count (some t) script timelock ctx ctx' h =
      give_new_authorities-Follows interpreter position count t a script timelock ctx ctx' h

  pub exec_authority_output-Follows :
      (position : ℤ) (a : Authority) (count : ℕ) (t : Option Name) (address : Name)
      (timelock : Option ℕ) (use_created : Bool) (ctx ctx' : Context)
      → exec_authority_output interpreter position a count t address timelock use_created ctx
        ≡ ok ctx'
      → Follows interpreter ctx ctx'
  unfolding exec_authority_output
  exec_authority_output-Follows position a count t address timelock use_created ctx ctx' =
      if-Follows use_created _ _ ctx ctx'
        (give_created_authority-Follows interpreter position count a (to_address address) timelock
          ctx ctx')
        (authority_of_token-Follows position a count t (to_address address) timelock ctx ctx')

  pub exec_raw_output-Follows :
      (position : ℤ) (script : Name) (amount : Option ℕ) (t : Name) (timelock : Option ℕ)
      (a : Option Authority) (use_created : Bool) (ctx ctx' : Context)
      → exec_raw_output interpreter position script amount t timelock a use_created ctx ≡ ok ctx'
      → Follows interpreter ctx ctx'
  unfolding exec_raw_output
  exec_raw_output-Follows position script amount t timelock (some a) use_created ctx ctx' h =
      if-Follows use_created _ _ ctx ctx'
        (give_created_authority-Follows interpreter position 1 a (raw script) timelock ctx ctx')
        (give_new_authorities-Follows interpreter position 1 t a (raw script) timelock ctx ctx') h
  exec_raw_output-Follows position script none t timelock none use_created ctx ctx' h = absurd (cc)
  exec_raw_output-Follows position script (some amount) t timelock none use_created ctx ctx' h =
      let (u, e, h') = >>=-eq-ok (throw_if (amount == 0) missing_value) _ h in
      if-Follows use_created _ _ ctx ctx'
        (give_created-Follows interpreter position amount (raw script) timelock ctx ctx')
        (give_new-Follows interpreter position amount t (raw script) timelock ctx ctx') h'
