-- ===== src/Template/Ledger/Actions.antt =====
-- The count of the amounts through execNanoMethodInstruction of src/template/transaction/executor.ts.
use hathor_wallet_lib.Prelude.{
  ℕ, ◌+◌, ◌≤◌, ◌≡◌, refl, ◌∙◌, arith, true, false, Option, none, some, List, [], ◌∷◌, length,
}
use hathor_wallet_lib.Prelude.Bits.{byte-set_top_bit}
use hathor_wallet_lib.Prelude.Int.{int_laws}
use hathor_wallet_lib.Result.{Result, ok, ok_inj, ◌>>=◌, >>=-eq-ok}
use hathor_wallet_lib.Wallet.Maps.{Name}
use hathor_wallet_lib.Template.Context.{
  to_address, Interpreter, NanoAction, NanoContext, Context, deposit, withdrawal, grant_authority,
  acquire_authority, at_end, add_token, start_nano_contract_execution, index_of,
}
use hathor_wallet_lib.Template.Inputs.{mask_of, new_output}
use hathor_wallet_lib.Template.Outputs.{authority_data, copies}
use hathor_wallet_lib.Template.Nano.{put_output, exec_action, exec_actions, exec_nano_method}
use hathor_wallet_lib.Template.Ledger.{left_over}
use hathor_wallet_lib.Template.Ledger.Moves.{
  IsPlace-bound, Stays, add_outputs-IsLedger, new_output-eq-ok, copies_fit, copies-sum_outputs,
}
use hathor_wallet_lib.Template.Ledger.Steps.{
  Follows, Follows-trans, Stays-Follows, >>=-Follows, add_token-Places,
}
use hathor_wallet_lib.Template.Ledger.Selections.{
  if-Follows, ok-Follows, select_tokens-Follows, select_authorities-Follows,
}

-- A withdrawal with an output gives out what the balance does not count.
abbrev pub IsCounted : NanoAction → Type 0
IsCounted (withdrawal t amount address skip_outputs) = skip_outputs ≡ true
IsCounted _ = Unit

abbrev pub AreCounted : List NanoAction → Type 0
AreCounted [] = Unit
AreCounted (a ∷ as') = IsCounted a × AreCounted as'

module _ (interpreter : Interpreter) where
  put_authority-Stays :
      (value : ℕ) (address : Name) (place : ℕ) (ctx ctx' : Context)
      → place ≤ length ctx.tokens
      → put_output value address (authority_data place) ctx ≡ ok ctx'
      → Stays interpreter ctx ctx'
  unfolding put_output copies
  put_authority-Stays value address place ctx ctx' bound h =
      let (o, e, h') =
        >>=-eq-ok (new_output value (to_address address) none (authority_data place)) _ h in
      let (same_value, same_data) =
        new_output-eq-ok value (to_address address) none (authority_data place) o e in
      rw (← ok_inj h') (
        refl,
        λ few.
            (let above : o.token_data ≡ place + 128 =
                same_data ∙ byte-set_top_bit place (omega (arith, bound, few)) in
              add_outputs-IsLedger interpreter at_end (copies 1 o) ctx.balance ctx
                (copies_fit 1 place (length ctx.tokens) o above)
                (λ s custom. grind (
                  int_laws,
                  copies-sum_outputs 1 place s ctx.tokens o few above (index_of s ctx.tokens) refl,
                ))),
      )

  -- The token has its place, and then follows what does not lose the count.
  placed-Follows :
      (t : Name) (next : ℕ × Context → Result Context) (ctx ctx' : Context)
      → ((placed : ℕ × Context)
          → placed.0 ≤ length placed.1.tokens
          → next placed ≡ ok ctx'
          → Follows interpreter placed.1 ctx')
      → (add_token interpreter t ctx >>= next) ≡ ok ctx'
      → Follows interpreter ctx ctx'
  placed-Follows t next ctx ctx' then_follows h =
      let (placed, e, h') = >>=-eq-ok (add_token interpreter t ctx) next h in
      let (place, follows) = add_token-Places interpreter t ctx placed e in
      Follows-trans interpreter ctx (placed.1) ctx' follows
        (then_follows placed (IsPlace-bound t (placed.1).tokens (placed.0) place) h')

  exec_action-Follows :
      (a : NanoAction) (ctx ctx' : Context)
      → IsCounted a
      → exec_action interpreter a ctx ≡ ok ctx'
      → Follows interpreter ctx ctx'
  unfolding exec_action
  exec_action-Follows (deposit t amount address skips auto_change change) ctx ctx' counted =
      placed-Follows t _ ctx ctx' (λ placed bound.
        if-Follows interpreter skips _ _ (placed.1) ctx' (ok-Follows interpreter (placed.1) ctx') (
          select_tokens-Follows interpreter amount t address auto_change change at_end (placed.1)
            ctx'))
  exec_action-Follows (withdrawal t amount address true) ctx ctx' counted =
      placed-Follows t _ ctx ctx' (λ placed bound. ok-Follows interpreter (placed.1) ctx')
  exec_action-Follows (withdrawal t amount address false) ctx ctx' counted = absurd (cc)
  exec_action-Follows (grant_authority t a address skips) ctx ctx' counted =
      placed-Follows t _ ctx ctx' (λ placed bound.
        if-Follows interpreter skips _ _ (placed.1) ctx' (ok-Follows interpreter (placed.1) ctx')
          (select_authorities-Follows interpreter t (mask_of a) address 1 at_end (placed.1) ctx'))
  exec_action-Follows (acquire_authority t a address skip_outputs) ctx ctx' counted =
      placed-Follows t _ ctx ctx' (λ placed bound.
        if-Follows interpreter skip_outputs _ _ (placed.1) ctx'
          (ok-Follows interpreter (placed.1) ctx')
          (placed-Follows t _ (placed.1) ctx' (λ again bound' h.
            Stays-Follows interpreter (again.1) ctx'
              (put_authority-Stays (mask_of a) address (again.0) (again.1) ctx' bound' h))))

  exec_actions-Follows :
      (as' : List NanoAction) (ctx ctx' : Context)
      → AreCounted as'
      → exec_actions interpreter as' ctx ≡ ok ctx'
      → Follows interpreter ctx ctx'
  unfolding exec_actions
  exec_actions-Follows [] ctx ctx' counted = ok-Follows interpreter ctx ctx'
  exec_actions-Follows (a ∷ as') ctx ctx' (counted, more) =
      >>=-Follows interpreter (exec_action interpreter a ctx) _ ctx ctx'
        (λ c. exec_action-Follows a ctx c counted) (λ c. exec_actions-Follows as' c ctx' more)

  start-Follows :
      (call : NanoContext) (ctx ctx' : Context) (m : Option NanoContext)
      → ctx.nano_context ≡ m
      → start_nano_contract_execution call ctx ≡ ok ctx'
      → Follows interpreter ctx ctx'
  unfolding start_nano_contract_execution left_over
  start-Follows call ctx ctx' none e h = rw (← ok_inj (rw e at h)) (
    omega arith,
    λ few ledger. record {
      ordinary = ledger.ordinary;
      places = ledger.places;
      amounts = ledger.amounts;
    },
  )
  start-Follows call ctx ctx' (some _) e h = absurd (cc (rw e at h))

  pub exec_nano_method-Follows :
      (call : NanoContext) (ctx ctx' : Context)
      → AreCounted call.actions
      → exec_nano_method interpreter call ctx ≡ ok ctx'
      → Follows interpreter ctx ctx'
  unfolding exec_nano_method
  exec_nano_method-Follows call ctx ctx' counted =
      >>=-Follows interpreter (exec_actions interpreter call.actions ctx) _ ctx ctx'
        (λ c. exec_actions-Follows call.actions ctx c counted)
        (λ c. start-Follows call c ctx' c.nano_context refl)
