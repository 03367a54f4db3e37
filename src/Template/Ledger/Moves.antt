-- ===== src/Template/Ledger/Moves.antt =====
-- What the operations of src/template/transaction that add inputs and outputs do to the count of the
-- amounts.
use mathlib.Core.Path.{subst}
use hathor_wallet_lib.Prelude.{
  ℕ, suc, zero, ◌+◌, ◌≤◌, ◌≡◌, refl, ◌∙◌, ap, sym, arith, Bool, true, false, Option, none, some,
  List, [], ◌∷◌, ◌==◌, ==_iff, if◌then◌else◌, length, Bool-cases, inl, inr,
}
use hathor_wallet_lib.Prelude.Bits.{byte-set_top_bit}
use hathor_wallet_lib.Prelude.Int.{ℤ, pos, ◌+ℤ◌, ◌-ℤ◌, int_laws}
use hathor_wallet_lib.Result.{ok, ok_inj, >>=-eq-ok}
use hathor_wallet_lib.Wallet.Maps.{Name}
use hathor_wallet_lib.Wallet.Select.{native_token}
use hathor_wallet_lib.Template.Balance.{TxBalance, Authority, add_output_authority, add_output}
use hathor_wallet_lib.Template.Context.{
  Script, TemplateOutput, Interpreter, Context, index_of, add_items, add_outputs,
}
use hathor_wallet_lib.Template.Inputs.{mask_of, with_balance, give, new_output}
use hathor_wallet_lib.Template.Outputs.{authority_data, copies, give_authorities}
use hathor_wallet_lib.Template.Amounts.{tokens_of, give_authorities-Keeps, give-Grows}
use hathor_wallet_lib.Template.Ledger.{
  sum_by, all_by, sum_by-add_items, all_by-add_items, value_at, sum_outputs, fits, left_over,
  IsLedger, AreFew,
}
use hathor_wallet_lib.Template.Ledger.Places.{index_of_bound, index_of_inj}

-- The place that a token has, which is 0 for the native one.
pub data IsPlace (t : Name) (tokens : List Name) (place : ℕ) : Type 0 where
  native_place : (native_token == t) ≡ true → place ≡ 0 → IsPlace t tokens place
  token_place : (i : ℕ) → index_of t tokens ≡ some i → place ≡ suc i → IsPlace t tokens place

pub IsPlace-bound :
    (t : Name) (tokens : List Name) (place : ℕ) → IsPlace t tokens place → place ≤ length tokens
IsPlace-bound t tokens place (native_place same h) = omega arith
IsPlace-bound t tokens place (token_place i e h) = omega (arith, index_of_bound t tokens i e)

sum_outputs-add_items :
    (m : Option ℕ) (position : ℤ) (os xs : List TemplateOutput)
    → sum_outputs m (add_items position os xs) ≡ sum_outputs m os +ℤ sum_outputs m xs
unfolding sum_outputs
sum_outputs-add_items none position os xs = omega int_laws
sum_outputs-add_items (some i) position os xs = sum_by-add_items (value_at i) position os xs

other_value :
    (i j : ℕ) (o : TemplateOutput)
    → o.token_data ≡ suc i
    → ¬ (some j ≡ some i)
    → value_at j o ≡ pos 0
other_value i j o h other = elim (Bool-cases (o.token_data == suc j)) [
  | inl e ↦ absurd (other (ap some (omega (arith, (==_iff o.token_data (suc j)).0 e))))
  | inr e ↦ rw e refl
]

-- The funds at a place count for its token alone.
counted_at :
    (b : Bool) (i : ℕ) (m : Option ℕ) (o : TemplateOutput)
    → o.token_data ≡ suc i
    → (b ≡ true → m ≡ some i)
    → (m ≡ some i → b ≡ true)
    → sum_outputs m (o ∷ []) ≡ (if b then pos o.value else pos 0)
unfolding sum_outputs sum_by
counted_at true i m o h f g = rw (f refl, h) (grind int_laws)
counted_at false i none o h f g = refl
counted_at false i (some j) o h f g =
    rw (other_value i j o h (λ e. absurd (cc (g e)))) (omega int_laws)

native_value :
    (m : Option ℕ) (o : TemplateOutput) → o.token_data ≡ 0 → sum_outputs m (o ∷ []) ≡ pos 0
unfolding sum_outputs sum_by
native_value none o h = refl
native_value (some j) o h = rw h (grind int_laws)

counted :
    (t s : Name) (tokens : List Name) (o : TemplateOutput)
    → IsPlace t tokens o.token_data
    → (native_token == s) ≡ false
    → sum_outputs (index_of s tokens) (o ∷ []) ≡ (if t == s then pos o.value else pos 0)
counted t s tokens o (native_place same h) custom =
    let other : (t == s) ≡ false = ground (arith, same, custom) in
    rw other (native_value (index_of s tokens) o h)
counted t s tokens o (token_place i e h) custom =
    counted_at (t == s) i (index_of s tokens) o h
      (λ same. ap (λ r. index_of r tokens) (sym ((==_iff t s).0 same)) ∙ e)
      (λ found. index_of_inj t s tokens i e found)

pub new_output-eq-ok :
    (value : ℕ) (script : Script) (timelock : Option ℕ) (token_data : ℕ) (o : TemplateOutput)
    → new_output value script timelock token_data ≡ ok o
    → (o.value ≡ value) × (o.token_data ≡ token_data)
unfolding new_output
new_output-eq-ok value script timelock token_data o h = elim (Bool-cases (value == 0)) [
  | inl e ↦ absurd (cc (rw e at h))
  | inr e ↦ rw (← ok_inj (rw e at h)) (refl, refl)
]

-- Outputs of authorities fit anywhere, and hold no funds.
pub copies_fit :
    (count place length : ℕ) (o : TemplateOutput)
    → o.token_data ≡ place + 128
    → all_by (fits length) (copies count o) ≡ true
unfolding all_by copies
copies_fit zero place length o h = refl
copies_fit (suc count) place length o h = ground (arith, h, copies_fit count place length o h)

copies_hold :
    (count place i : ℕ) (o : TemplateOutput)
    → i ≤ 126
    → o.token_data ≡ place + 128
    → sum_by (value_at i) (copies count o) ≡ pos 0
unfolding sum_by copies
copies_hold zero place i o few h = refl
copies_hold (suc count) place i o few h =
    let none_here : value_at i o ≡ pos 0 = ground (arith, h, few) in
    rw (none_here, copies_hold count place i o few h) (omega int_laws)

pub copies-sum_outputs :
    (count place : ℕ) (t : Name) (tokens : List Name) (o : TemplateOutput)
    → length tokens ≤ 127
    → o.token_data ≡ place + 128
    → (m : Option ℕ) → index_of t tokens ≡ m
    → sum_outputs m (copies count o) ≡ pos 0
unfolding sum_outputs
copies-sum_outputs count place t tokens o few h none e = refl
copies-sum_outputs count place t tokens o few h (some i) e =
    copies_hold count place i o (omega (arith, index_of_bound t tokens i e)) h

module _ (interpreter : Interpreter) where
  -- Outputs that fit, with what they take from the balance of each token.
  pub add_outputs-IsLedger :
      (position : ℤ) (os : List TemplateOutput) (b : TxBalance) (ctx : Context)
      → all_by (fits (length ctx.tokens)) os ≡ true
      → ((t : Name)
          → (native_token == t) ≡ false
          → tokens_of t b ≡ tokens_of t ctx.balance -ℤ sum_outputs (index_of t ctx.tokens) os)
      → IsLedger interpreter ctx
      → IsLedger interpreter (add_outputs position os (with_balance b ctx))
  unfolding left_over
  add_outputs-IsLedger position os b ctx fit taken ledger = record {
    ordinary = ledger.ordinary;
    places =
        all_by-add_items (fits (length ctx.tokens)) position os ctx.outputs
        ∙ ground (arith, fit, ledger.places);
    amounts = λ t custom. grind (
      int_laws,
      taken t custom,
      ledger.amounts t custom,
      sum_outputs-add_items (index_of t ctx.tokens) position os ctx.outputs,
    );
  }

  -- The tokens stay, and so does the count of the amounts.
  abbrev pub Stays : Context → Context → Type 0
  Stays ctx ctx' =
      (ctx'.tokens ≡ ctx.tokens)
      × (AreFew ctx → IsLedger interpreter ctx → IsLedger interpreter ctx')

  pub give-Stays :
      (position : ℤ) (amount : ℕ) (t : Name) (script : Script) (timelock : Option ℕ) (place : ℕ)
      (ctx ctx' : Context)
      → IsPlace t ctx.tokens place
      → give position amount t script timelock place ctx ≡ ok ctx'
      → Stays ctx ctx'
  unfolding give add_output sum_by all_by
  give-Stays position amount t script timelock place ctx ctx' placed h =
      let (b, e, h1) = >>=-eq-ok (add_output ctx.token_details amount t ctx.balance) _ h in
      let (o, e', h2) = >>=-eq-ok (new_output amount script timelock place) _ h1 in
      let (same_value, same_data) = new_output-eq-ok amount script timelock place o e' in
      let at_place = subst (λ p. IsPlace t ctx.tokens p) (sym same_data) placed in
      let bound = IsPlace-bound t ctx.tokens o.token_data at_place in
      let grown' =
        rw (← ok_inj h2) at (give-Grows position amount t script timelock place ctx ctx' h) in
      rw (← ok_inj h2) (
        refl,
        λ few. add_outputs-IsLedger position (o ∷ []) b ctx (ground (arith, bound)) (λ s custom.
            grind (int_laws, grown' s, same_value, counted t s ctx.tokens o at_place custom)),
      )

  pub give_authorities-Stays :
      (position : ℤ) (count : ℕ) (t : Name) (a : Authority) (script : Script) (timelock : Option ℕ)
      (place : ℕ) (ctx ctx' : Context)
      → place ≤ length ctx.tokens
      → give_authorities position count t a script timelock place ctx ≡ ok ctx'
      → Stays ctx ctx'
  unfolding give_authorities add_output_authority
  give_authorities-Stays position count t a script timelock place ctx ctx' bound h =
      let (b, e, h1) =
        >>=-eq-ok (add_output_authority ctx.token_details count t a ctx.balance) _ h in
      let (o, e', h2) =
        >>=-eq-ok (new_output (mask_of a) script timelock (authority_data place)) _ h1 in
      let (same_value, same_data) =
        new_output-eq-ok (mask_of a) script timelock (authority_data place) o e' in
      let keeps =
        rw (← ok_inj h2) at
          (give_authorities-Keeps position count t a script timelock place ctx ctx' h) in
      rw (← ok_inj h2) (
        refl,
        λ few.
            (let above : o.token_data ≡ place + 128 =
                same_data ∙ byte-set_top_bit place (omega (arith, bound, few)) in
              add_outputs-IsLedger position (copies count o) b ctx
                (copies_fit count place (length ctx.tokens) o above)
                (λ s custom. grind (
                  int_laws,
                  keeps s,
                  copies-sum_outputs count place s ctx.tokens o few above (index_of s ctx.tokens)
                      refl,
                ))),
      )
