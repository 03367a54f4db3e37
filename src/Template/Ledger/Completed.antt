-- ===== src/Template/Ledger/Completed.antt =====
-- The count of the amounts through completeTokenInputAndOutputs of
-- src/template/transaction/executor.ts.
use mathlib.Core.Path.{subst}
use hathor_wallet_lib.Prelude.{
  ℕ, ◌≤◌, ◌≡◌, refl, ◌∙◌, ap, sym, Bool, true, false, not, ◌&&◌, none, ◌==◌, ==_iff, if◌then◌else◌,
  length,
}
use hathor_wallet_lib.Prelude.Int.{ℤ, pos, pos_part, neg_part, ltb_ℤ}
use hathor_wallet_lib.Result.{Result, ok, ok_inj, ◌>>=◌, >>=-eq-ok}
use hathor_wallet_lib.Wallet.Maps.{Name}
use hathor_wallet_lib.Wallet.Select.{native_token}
use hathor_wallet_lib.Template.Balance.{
  TokenBalance, TxBalance, get_token_balance, set_token_balance,
}
use hathor_wallet_lib.Template.Context.{to_address, Interpreter, Context, at_end}
use hathor_wallet_lib.Template.Inputs.{with_balance, spend}
use hathor_wallet_lib.Template.Amounts.{
  tokens_of, get_token_balance-amount, set_token_balance-amount,
}
use hathor_wallet_lib.Template.Complete.{
  Completion, give_surplus, pay_deficit, settle, read_balance,
}
use hathor_wallet_lib.Template.Ledger.{IsLedger, left_over}
use hathor_wallet_lib.Template.Ledger.Moves.{IsPlace, Stays, give-Stays}
use hathor_wallet_lib.Template.Ledger.Steps.{spend-Stays}

module _ (interpreter : Interpreter) where
  -- A balance that holds the same amounts.
  pub with_balance-IsLedger :
      (b : TxBalance) (ctx : Context)
      → ((s : Name) → (native_token == s) ≡ false → tokens_of s b ≡ tokens_of s ctx.balance)
      → IsLedger interpreter ctx
      → IsLedger interpreter (with_balance b ctx)
  unfolding left_over
  with_balance-IsLedger b ctx same ledger = record {
    ordinary = ledger.ordinary;
    places = ledger.places;
    amounts = λ s custom. same s custom ∙ ledger.amounts s custom;
  }

  pub Stays-refl : (ctx : Context) → Stays interpreter ctx ctx
  Stays-refl ctx = (refl, λ few ledger. ledger)

  pub Stays-trans :
      (a b c : Context) → Stays interpreter a b → Stays interpreter b c → Stays interpreter a c
  Stays-trans a b c (same, f) (same', g) =
      (same' ∙ same, λ few ledger. g (subst (λ ts. length ts ≤ 127) (sym same) few) (f few ledger))

  pub >>=-Stays :
      (m : Result Context) (f : Context → Result Context) (ctx ctx' : Context)
      → ((c : Context) → m ≡ ok c → Stays interpreter ctx c)
      → ((c : Context) → c.tokens ≡ ctx.tokens → f c ≡ ok ctx' → Stays interpreter c ctx')
      → (m >>= f) ≡ ok ctx'
      → Stays interpreter ctx ctx'
  >>=-Stays m f ctx ctx' first next h =
      let (c, e, h') = >>=-eq-ok m f h in
      let stays = first c e in Stays-trans ctx c ctx' stays (next c (stays.0) h')

  pub if-Stays :
      (b : Bool) (m m' : Result Context) (ctx ctx' : Context)
      → (m ≡ ok ctx' → Stays interpreter ctx ctx')
      → (m' ≡ ok ctx' → Stays interpreter ctx ctx')
      → (if b then m else m') ≡ ok ctx'
      → Stays interpreter ctx ctx'
  if-Stays true m m' ctx ctx' f g h = f h
  if-Stays false m m' ctx ctx' f g h = g h

  pub ok-Stays : (ctx ctx' : Context) → ok ctx ≡ ok ctx' → Stays interpreter ctx ctx'
  ok-Stays ctx ctx' h = rw (← ok_inj h) (Stays-refl ctx)

  module _ (c : Completion) where
    pub settle-Stays :
        (t : Name) (place : ℕ) (balance : ℤ) (ctx ctx' : Context)
        → IsPlace t ctx.tokens place
        → settle interpreter c t place balance ctx ≡ ok ctx'
        → Stays interpreter ctx ctx'
    unfolding settle give_surplus pay_deficit
    settle-Stays t place balance ctx ctx' at_place =
        if-Stays (ltb_ℤ (pos 0) balance && not c.skip_change) _ _ ctx ctx'
          (give-Stays interpreter at_end (pos_part balance) t (to_address c.change_address)
            c.timelock place ctx ctx' at_place)
          (if-Stays (ltb_ℤ balance (pos 0) && not c.skip_selection) _ _ ctx ctx'
            (λ h.
              (let (found, e, h') =
                  >>=-eq-ok (interpreter.get_utxos (neg_part balance) t c.address) _ h in
                >>=-Stays (spend interpreter at_end (found.0) ctx) _ ctx ctx'
                  (spend-Stays interpreter at_end (found.0) ctx)
                  (λ spent same. if-Stays (found.1 == 0) _ _ spent ctx' (ok-Stays spent ctx') (
                    give-Stays interpreter at_end (found.1) t (to_address c.change_address) none
                      place spent ctx' (subst (λ ts. IsPlace t ts place) (sym same) at_place)))
                  h'))
            (ok-Stays ctx ctx'))

    pub read_balance-Stays :
        (t : Name) (ctx : Context) (read : TokenBalance × Context)
        → read_balance interpreter c t ctx ≡ ok read
        → Stays interpreter ctx (read.1)
    unfolding read_balance
    read_balance-Stays t ctx read h =
        let (x, e, h') = >>=-eq-ok (get_token_balance ctx.token_details t ctx.balance) _ h in
        let amount = get_token_balance-amount ctx.token_details t ctx.balance x e in
        rw (← ok_inj h') (
          refl,
          λ few. with_balance-IsLedger (set_token_balance t x ctx.balance) ctx (λ s custom.
              set_token_balance-amount ctx.token_details t ctx.balance x s
              ∙ same_amount (t == s) s x.tokens
                  (λ same. amount ∙ ap (λ r. tokens_of r ctx.balance) ((==_iff t s).0 same))),
        )
      where
        same_amount :
            (b : Bool) (s : Name) (n : ℤ)
            → (b ≡ true → n ≡ tokens_of s ctx.balance)
            → (if b then n else tokens_of s ctx.balance) ≡ tokens_of s ctx.balance
        same_amount true s n same = same refl
        same_amount false s n same = refl
