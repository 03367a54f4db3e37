-- ===== src/Template/Complete/Settled.antt =====
-- What a completion does to the amounts of the tokens.
use mathlib.Core.Path.{subst}
use hathor_wallet_lib.Prelude.{
  ℕ, ◌+◌, ◌≡◌, refl, ◌∙◌, ap, arith, true, false, not, Option, none, List, [], ◌∷◌, ◌==◌,
  if◌then◌else◌, Bool-cases, inl, inr, ==_iff,
}
use hathor_wallet_lib.Prelude.Int.{ℤ, pos, negsuc, pos_part, neg_part, ◌+ℤ◌, ◌-ℤ◌, ltb_ℤ, int_laws}
use hathor_wallet_lib.Result.{ok, ok_inj, >>=-eq-ok}
use hathor_wallet_lib.Wallet.Maps.{Name}
use hathor_wallet_lib.Wallet.Types.{HistoryOutput, HistoryTx, UtxoId}
use hathor_wallet_lib.Wallet.Rules.{is_authority_output}
use hathor_wallet_lib.Template.Balance.{take_output, spent_output}
use hathor_wallet_lib.Template.Context.{to_address, Interpreter, Context, at_end}
use hathor_wallet_lib.Template.Inputs.{spend, spend_one, spend_all}
use hathor_wallet_lib.Template.Amounts.{
  tokens_of, Grows, Keeps, AreFunds, AreAuthorities, change_token-Changes, give-Grows,
  take_output-funds, take_output-authority, spend_one-eq-ok,
}
use hathor_wallet_lib.Template.Complete.{Completion, give_surplus, pay_deficit, settle}

-- What the wallet promises: utxos of the token that hold the amount and the change, and authorities.
pub record IsSound (interpreter : Interpreter) : Type 0 where
  pub funds :
      (n : ℕ) (t : Name) (address : Option Name) (found : List UtxoId × ℕ)
      → interpreter.get_utxos n t address ≡ ok found
      → AreFunds interpreter t (found.0) (n + found.1)
  pub authorities :
      (count : ℕ) (t : Name) (mask : ℕ) (address : Option Name) (found : List UtxoId)
      → interpreter.get_authorities count t mask address ≡ ok found
      → AreAuthorities interpreter found

module _ (interpreter : Interpreter) where
  spend_one-Grows :
      (t : Name) (id : UtxoId) (ctx ctx' : Context) (tx : HistoryTx) (o : HistoryOutput)
      → interpreter.get_tx id.tx_id ≡ ok tx
      → spent_output tx id.index ≡ ok o
      → o.token ≡ t
      → is_authority_output o.token_data ≡ false
      → spend_one interpreter id ctx ≡ ok ctx'
      → Grows (pos o.value) t ctx ctx'
  spend_one-Grows t id ctx ctx' tx o e f of_t is_funds h =
      change_token-Changes ctx.token_details t (take_output o) (λ a. a +ℤ pos o.value) ctx.balance
        ctx'.balance (λ x. take_output-funds interpreter o x is_funds)
        (rw (of_t) at (spend_one-eq-ok interpreter id ctx ctx' tx o e f h))

  pub spend_all-Grows :
      (t : Name) (ids : List UtxoId) (n : ℕ) (ctx ctx' : Context)
      → AreFunds interpreter t ids n
      → spend_all interpreter ids ctx ≡ ok ctx'
      → Grows (pos n) t ctx ctx'
  unfolding spend_all
  spend_all-Grows t [] n ctx ctx' funds h s = rw (← ok_inj h, funds) (grind int_laws)
  spend_all-Grows t (id ∷ ids) n ctx ctx' (tx, o, rest, e, f, of_t, is_funds, sum, more) h s =
      let (c, e1, h1) = >>=-eq-ok (spend_one interpreter id ctx) _ h in
      rw sum (
        grind (
          int_laws,
          spend_one-Grows t id ctx c tx o e f of_t is_funds e1 s,
          spend_all-Grows t ids rest c ctx' more h1 s,
        ))

  pub spend_all-Keeps :
      (ids : List UtxoId) (ctx ctx' : Context)
      → AreAuthorities interpreter ids
      → spend_all interpreter ids ctx ≡ ok ctx'
      → Keeps ctx ctx'
  unfolding spend_all
  spend_all-Keeps [] ctx ctx' a h s = rw (← ok_inj h) refl
  spend_all-Keeps (id ∷ ids) ctx ctx' ((tx, o, e, f, is_authority), more) h s =
      let (c, e1, h1) = >>=-eq-ok (spend_one interpreter id ctx) _ h in
      spend_all-Keeps ids c ctx' more h1 s
      ∙ ground (
        arith,
        change_token-Changes ctx.token_details o.token (take_output o) (λ a. a) ctx.balance
            c.balance (λ x. take_output-authority interpreter o x is_authority)
            (spend_one-eq-ok interpreter id ctx c tx o e f e1) s,
      )

  pub spend-Grows :
      (t : Name) (position : ℤ) (ids : List UtxoId) (n : ℕ) (ctx ctx' : Context)
      → AreFunds interpreter t ids n
      → spend interpreter position ids ctx ≡ ok ctx'
      → Grows (pos n) t ctx ctx'
  unfolding spend
  spend-Grows t position ids n ctx ctx' funds h =
      let (c, e, h') = >>=-eq-ok (spend_all interpreter ids ctx) _ h in
      rw (← ok_inj h') (spend_all-Grows t ids n ctx c funds e)

  pub spend-Keeps :
      (position : ℤ) (ids : List UtxoId) (ctx ctx' : Context)
      → AreAuthorities interpreter ids
      → spend interpreter position ids ctx ≡ ok ctx'
      → Keeps ctx ctx'
  unfolding spend
  spend-Keeps position ids ctx ctx' a h =
      let (c, e, h') = >>=-eq-ok (spend_all interpreter ids ctx) _ h in
      rw (← ok_inj h') (spend_all-Keeps ids ctx c a e)

-- The amount of one token becomes nothing, and the others stay.
abbrev pub Settles : Name → Context → Context → Type 0
Settles t ctx ctx' =
    (s : Name) → tokens_of s ctx'.balance ≡ (if t == s then pos 0 else tokens_of s ctx.balance)

Grows-Settles :
    (n : ℤ) (t : Name) (ctx ctx' : Context)
    → tokens_of t ctx.balance +ℤ n ≡ pos 0
    → Grows n t ctx ctx'
    → Settles t ctx ctx'
Grows-Settles n t ctx ctx' z g s = elim (Bool-cases (t == s)) [
  | inl e ↦
      (let same : t ≡ s = (==_iff t s).0 e in
        rw e (rw e at (g s) ∙ subst (λ (r : Name). tokens_of r ctx.balance +ℤ n ≡ pos 0) same z))
  | inr e ↦ rw e (rw e at (g s))
]

zero-Settles : (t : Name) (ctx : Context) → tokens_of t ctx.balance ≡ pos 0 → Settles t ctx ctx
zero-Settles t ctx z s = elim (Bool-cases (t == s)) [
  | inl e ↦
      (let same : t ≡ s = (==_iff t s).0 e in
        rw e (subst (λ (r : Name). tokens_of r ctx.balance ≡ pos 0) same z))
  | inr e ↦ rw e refl
]

Grows-trans :
    (n m : ℤ) (t : Name) (a b c : Context) → Grows n t a b → Grows m t b c → Grows (n +ℤ m) t a c
Grows-trans n m t a b c g h s = grind (int_laws, g s, h s)

surplus_gone : (x : ℤ) → ltb_ℤ (pos 0) x ≡ true → x +ℤ (pos 0 -ℤ pos (pos_part x)) ≡ pos 0
surplus_gone (pos n) h = omega int_laws
surplus_gone (negsuc n) h = absurd (ground (arith, h))

deficit_gone :
    (x : ℤ) (change : ℕ)
    → ltb_ℤ x (pos 0) ≡ true
    → x +ℤ (pos (neg_part x + change) +ℤ (pos 0 -ℤ pos change)) ≡ pos 0
deficit_gone (pos n) change h = absurd (ground (arith, h))
deficit_gone (negsuc n) change h = omega int_laws

no_change :
    (x : ℤ) (change : ℕ)
    → ltb_ℤ x (pos 0) ≡ true
    → (change == 0) ≡ true
    → x +ℤ pos (neg_part x + change) ≡ pos 0
no_change (pos n) change h k = absurd (ground (arith, h))
no_change (negsuc n) change h k = let z : change ≡ 0 = ground (arith, k) in omega (int_laws)

neither : (x : ℤ) → ltb_ℤ (pos 0) x ≡ false → ltb_ℤ x (pos 0) ≡ false → x ≡ pos 0
neither (pos n) h k = ground (arith, h, k)
neither (negsuc n) h k = ground (arith, h, k)

module _ (interpreter : Interpreter) (sound : IsSound interpreter) (c : Completion)
    (change : c.skip_change ≡ false) (selection : c.skip_selection ≡ false) where
  give_surplus-Settles :
      (t : Name) (token_data : ℕ) (ctx ctx' : Context)
      → ltb_ℤ (pos 0) (tokens_of t ctx.balance) ≡ true
      → give_surplus interpreter c t token_data (tokens_of t ctx.balance) ctx ≡ ok ctx'
      → Settles t ctx ctx'
  unfolding give_surplus
  give_surplus-Settles t token_data ctx ctx' positive h =
      Grows-Settles _ t ctx ctx' (surplus_gone (tokens_of t ctx.balance) positive)
        (give-Grows at_end _ t (to_address c.change_address) c.timelock token_data ctx ctx' h)

  pay_deficit-Settles :
      (t : Name) (token_data : ℕ) (ctx ctx' : Context)
      → ltb_ℤ (tokens_of t ctx.balance) (pos 0) ≡ true
      → pay_deficit interpreter c t token_data (tokens_of t ctx.balance) ctx ≡ ok ctx'
      → Settles t ctx ctx'
  unfolding pay_deficit
  pay_deficit-Settles t token_data ctx ctx' negative h =
      let x = tokens_of t ctx.balance in
      let (found, e, h1) = >>=-eq-ok (interpreter.get_utxos (neg_part x) t c.address) _ h in
      let (spent, e', h2) = >>=-eq-ok (spend interpreter at_end (found.0) ctx) _ h1 in
      let grown =
        spend-Grows interpreter t at_end (found.0) (neg_part x + found.1) ctx spent
          (sound.funds (neg_part x) t c.address found e) e' in
      elim (Bool-cases (found.1 == 0)) [
        | inl none_left ↦
            Grows-Settles (pos (neg_part x + found.1)) t ctx ctx'
              (no_change x (found.1) negative none_left) (rw (ok_inj (rw none_left at h2)) at grown)
        | inr some_left ↦ Grows-Settles _ t ctx ctx' (deficit_gone x (found.1) negative) (
            Grows-trans _ _ t ctx spent ctx' grown (
              give-Grows at_end (found.1) t (to_address c.change_address) none token_data spent ctx'
                (rw some_left at h2)))
      ]

  pub settle-Settles :
      (t : Name) (token_data : ℕ) (ctx ctx' : Context)
      → settle interpreter c t token_data (tokens_of t ctx.balance) ctx ≡ ok ctx'
      → Settles t ctx ctx'
  unfolding settle
  settle-Settles t token_data ctx ctx' h =
      let x = tokens_of t ctx.balance in
      let keeps : not c.skip_change ≡ true = ap not change in
      let selects : not c.skip_selection ≡ true = ap not selection in
      elim (Bool-cases (ltb_ℤ (pos 0) x)) [
        | inl more ↦ give_surplus-Settles t token_data ctx ctx' more (rw (keeps, more) at h)
        | inr no_more ↦ elim (Bool-cases (ltb_ℤ x (pos 0))) [
          | inl less ↦
              pay_deficit-Settles t token_data ctx ctx' less
                (rw (keeps, selects, no_more, less) at h)
          | inr no_less ↦
              rw (← ok_inj (rw (keeps, selects, no_more, no_less) at h))
                (zero-Settles t ctx (neither x no_more no_less))
        ]
      ]
