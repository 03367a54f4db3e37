-- ===== src/Template/Ledger/Whole.antt =====
-- The count of the amounts through the steps of execCompleteTxInstruction of
-- src/template/transaction/executor.ts.
use mathlib.Core.Path.{subst}
use hathor_wallet_lib.Prelude.{
  ℕ, ◌≤◌, ◌≡◌, refl, ◌∙◌, sym, arith, Bool, true, false, none, List, [], ◌∷◌, ltb, length,
}
use hathor_wallet_lib.Prelude.Int.{pos, pos_part, neg_part, ◌-ℤ◌, ltb_ℤ}
use hathor_wallet_lib.Result.{ok, ok_inj, >>=-eq-ok}
use hathor_wallet_lib.Wallet.Maps.{Name}
use hathor_wallet_lib.Wallet.Select.{native_token}
use hathor_wallet_lib.Tokens.Fee.{drop_name}
use hathor_wallet_lib.Template.Balance.{
  Authority, mint, melt, get_token_balance, change_token, add_output, give_amount,
}
use hathor_wallet_lib.Template.Context.{
  to_address, Interpreter, Context, at_end, add_token, add_fee,
}
use hathor_wallet_lib.Template.Inputs.{mask_of}
use hathor_wallet_lib.Template.Amounts.{change_token-Changes}
use hathor_wallet_lib.Template.Complete.{
  Completion, authorities_of, settle, read_balance, complete_token, complete_authority,
  complete_authorities, complete_one, complete_all, creation_deposit, take_deposit, with_deposit,
  take_fee, checked, fee_of, deposit_step, fee_step, last_step, takes_deposit, exec_complete,
}
use hathor_wallet_lib.Template.Ledger.{left_over}
use hathor_wallet_lib.Template.Ledger.Moves.{IsPlace, IsPlace-bound, Stays, give_authorities-Stays}
use hathor_wallet_lib.Template.Ledger.Steps.{
  spend-Stays, Places, Follows, Follows-trans, Stays-Follows, >>=-Follows, add_token-Places,
}
use hathor_wallet_lib.Template.Ledger.Selections.{if-Follows, ok-Follows}
use hathor_wallet_lib.Template.Ledger.Completed.{
  with_balance-IsLedger, Stays-trans, >>=-Stays, if-Stays, ok-Stays, settle-Stays,
  read_balance-Stays,
}

module _ (interpreter : Interpreter) (c : Completion) where
  complete_token-Places :
      (t : Name) (ctx : Context) (done : ℕ × Context)
      → complete_token interpreter c t ctx ≡ ok done
      → Places interpreter t ctx done
  unfolding complete_token
  complete_token-Places t ctx done h =
      let (placed, e1, h1) = >>=-eq-ok (add_token interpreter t ctx) _ h in
      let (read, e2, h2) = >>=-eq-ok (read_balance interpreter c t (placed.1)) _ h1 in
      let (settled, e3, h3) =
        >>=-eq-ok (settle interpreter c t (placed.0) ((read.0).tokens) (read.1)) _ h2 in
      let (place, follows) = add_token-Places interpreter t ctx placed e1 in
      let reads = read_balance-Stays interpreter c t (placed.1) read e2 in
      let place' : IsPlace t (read.1).tokens (placed.0) =
        subst (λ ts. IsPlace t ts (placed.0)) (sym (reads.0)) place in
      let settles =
        settle-Stays interpreter c t (placed.0) ((read.0).tokens) (read.1) settled place' e3 in
      rw (← ok_inj h3) (
        subst (λ ts. IsPlace t ts (placed.0)) (sym (settles.0)) place',
        Follows-trans interpreter ctx (placed.1) settled follows (
            Stays-Follows interpreter (placed.1) settled
              (Stays-trans interpreter (placed.1) (read.1) settled reads settles)),
      )

  complete_authority-Stays :
      (a : Authority) (t : Name) (place : ℕ) (ctx ctx' : Context)
      → place ≤ length ctx.tokens
      → complete_authority interpreter c a t place ctx ≡ ok ctx'
      → Stays interpreter ctx ctx'
  unfolding complete_authority
  complete_authority-Stays a t place ctx ctx' bound h =
      let (x, e, h1) = >>=-eq-ok (get_token_balance ctx.token_details t ctx.balance) _ h in
      let n = authorities_of a x in
      if-Stays interpreter (ltb_ℤ (pos 0) n) _ _ ctx ctx'
        (give_authorities-Stays interpreter at_end (pos_part n) t a (to_address c.change_address)
          c.timelock place ctx ctx' bound)
        (if-Stays interpreter (ltb_ℤ n (pos 0)) _ _ ctx ctx'
          (λ k.
            (let (found, e', k') =
                >>=-eq-ok (interpreter.get_authorities (neg_part n) t (mask_of a) none) _ k in
              spend-Stays interpreter at_end found ctx ctx' k'))
          (ok-Stays interpreter ctx ctx'))
        h1

  complete_authorities-Stays :
      (skip : Bool) (t : Name) (place : ℕ) (ctx ctx' : Context)
      → place ≤ length ctx.tokens
      → complete_authorities interpreter c skip t place ctx ≡ ok ctx'
      → Stays interpreter ctx ctx'
  unfolding complete_authorities
  complete_authorities-Stays true t place ctx ctx' bound = ok-Stays interpreter ctx ctx'
  complete_authorities-Stays false t place ctx ctx' bound =
      >>=-Stays interpreter (complete_authority interpreter c mint t place ctx) _ ctx ctx'
        (λ m. complete_authority-Stays mint t place ctx m bound)
        (λ m same.
          complete_authority-Stays melt t place m ctx'
            (subst (λ ts. place ≤ length ts) (sym same) bound))

  complete_one-Follows :
      (t : Name) (ctx ctx' : Context)
      → complete_one interpreter c t ctx ≡ ok ctx'
      → Follows interpreter ctx ctx'
  unfolding complete_one
  complete_one-Follows t ctx ctx' h =
      let (done, e, h') = >>=-eq-ok (complete_token interpreter c t ctx) _ h in
      let (place, follows) = complete_token-Places t ctx done e in
      Follows-trans interpreter ctx (done.1) ctx' follows (
        Stays-Follows interpreter (done.1) ctx' (
          complete_authorities-Stays c.skip_authorities t (done.0) (done.1) ctx'
            (IsPlace-bound t (done.1).tokens (done.0) place) h'))

  complete_all-Follows :
      (ts : List Name) (ctx ctx' : Context)
      → complete_all interpreter c ts ctx ≡ ok ctx'
      → Follows interpreter ctx ctx'
  unfolding complete_all
  complete_all-Follows [] ctx ctx' = ok-Follows interpreter ctx ctx'
  complete_all-Follows (t ∷ ts) ctx ctx' =
      >>=-Follows interpreter (complete_one interpreter c t ctx) _ ctx ctx'
        (complete_one-Follows t ctx) (λ one. complete_all-Follows ts one ctx')

  -- The deposit is of the native token.
  take_deposit-Follows :
      (amount : ℕ) (ctx ctx' : Context)
      → take_deposit interpreter c amount ctx ≡ ok ctx'
      → Follows interpreter ctx ctx'
  unfolding take_deposit
  take_deposit-Follows amount ctx ctx' h =
      let (placed, e1, h1) = >>=-eq-ok (add_token interpreter native_token ctx) _ h in
      let (b, e2, h2) =
        >>=-eq-ok
          (change_token (placed.1).token_details native_token
            (λ x. record x { tokens = x.tokens -ℤ pos amount }) (placed.1).balance)
          _ h1 in
      let changes =
        change_token-Changes (placed.1).token_details native_token
          (λ x. record x { tokens = x.tokens -ℤ pos amount }) (λ a. a -ℤ pos amount)
          (placed.1).balance b (λ x. refl) e2 in
      let follows = (add_token-Places interpreter native_token ctx placed e1).1 in
      Follows-trans interpreter ctx (placed.1) ctx' follows (
        rw (← ok_inj h2) (
          omega arith,
          λ few.
              with_balance-IsLedger interpreter b (placed.1) (λ s custom. rw custom at (changes s)),
        ))

  deposit_step-Follows :
      (ctx ctx' : Context) → deposit_step interpreter c ctx ≡ ok ctx' → Follows interpreter ctx ctx'
  unfolding with_deposit
  deposit_step-Follows ctx ctx' =
      if-Follows interpreter (takes_deposit interpreter c ctx) _ _ ctx ctx'
        (λ h.
          (let (d, e, h') = >>=-eq-ok (creation_deposit interpreter c ctx) _ h in
            take_deposit-Follows d ctx ctx' h'))
        (ok-Follows interpreter ctx ctx')

  take_fee-Follows :
      (amount : ℕ) (ctx ctx' : Context)
      → take_fee interpreter c amount ctx ≡ ok ctx'
      → Follows interpreter ctx ctx'
  unfolding take_fee add_fee add_output left_over
  take_fee-Follows amount ctx ctx' h =
      let (placed, e1, h1) = >>=-eq-ok (add_token interpreter native_token ctx) _ h in
      let (b, e2, h2) =
        >>=-eq-ok (add_output (placed.1).token_details amount native_token (placed.1).balance) _
          h1 in
      let changes =
        change_token-Changes (placed.1).token_details native_token (give_amount amount)
          (λ a. a -ℤ pos amount) (placed.1).balance b (λ x. refl) e2 in
      let follows = (add_token-Places interpreter native_token ctx placed e1).1 in
      Follows-trans interpreter ctx (placed.1) ctx' follows (
        rw (← ok_inj h2) (
          omega arith,
          λ few ledger. record {
            ordinary = ledger.ordinary;
            places = ledger.places;
            amounts = λ s custom. rw custom at (changes s) ∙ ledger.amounts s custom;
          },
        ))

  last_step-Follows :
      (checks : Bool) (ctx ctx' : Context)
      → last_step interpreter c checks ctx ≡ ok ctx'
      → Follows interpreter ctx ctx'
  last_step-Follows false ctx ctx' h = ok-Follows interpreter ctx ctx' h
  last_step-Follows true ctx ctx' h =
      let (done, e, h') = >>=-eq-ok (complete_token interpreter c native_token ctx) _ h in
      rw (← ok_inj h') ((complete_token-Places native_token ctx done e).1)

  pub exec_complete-Follows :
      (ctx ctx' : Context)
      → exec_complete interpreter c ctx ≡ ok ctx'
      → Follows interpreter ctx ctx'
  unfolding exec_complete
  exec_complete-Follows ctx ctx' =
      >>=-Follows interpreter (deposit_step interpreter c ctx) _ ctx ctx' (deposit_step-Follows ctx)
        (λ deposited.
          >>=-Follows interpreter
            (complete_all interpreter c (drop_name native_token (checked interpreter c ctx))
              deposited)
            _ deposited ctx'
            (complete_all-Follows (drop_name native_token (checked interpreter c ctx)) deposited)
            (λ completed.
              >>=-Follows interpreter
                (fee_step interpreter c (fee_of interpreter c completed) completed) _ completed ctx'
                (λ charged.
                  if-Follows interpreter (ltb 0 (fee_of interpreter c completed)) _ _ completed
                    charged (take_fee-Follows (fee_of interpreter c completed) completed charged)
                    (ok-Follows interpreter completed charged))
                (λ charged. last_step-Follows _ charged ctx')))
