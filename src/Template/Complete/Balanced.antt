-- ===== src/Template/Complete/Balanced.antt =====
-- After a completion no token of the transaction has a surplus or a deficit.
use hathor_wallet_lib.Prelude.{
  ℕ, ◌≡◌, refl, ◌∙◌, ap, arith, Bool, true, false, ◌||◌, none, List, [], ◌∷◌, ◌++◌, ltb, ◌==◌,
  ==_iff, if◌then◌else◌, if_cases, Bool-cases, inl, inr,
}
use hathor_wallet_lib.Prelude.Int.{pos, pos_part, neg_part, ◌-ℤ◌, ltb_ℤ}
use hathor_wallet_lib.Result.{ok, ok_inj, >>=-eq-ok}
use hathor_wallet_lib.Wallet.Maps.{Name, has_name, add_name}
use hathor_wallet_lib.Wallet.Select.{native_token}
use hathor_wallet_lib.Tokens.Fee.{drop_name}
use hathor_wallet_lib.Template.Balance.{
  TokenBalance, Authority, mint, melt, get_token_balance, add_output, give_amount,
}
use hathor_wallet_lib.Template.Context.{
  to_address, Interpreter, Context, at_end, add_token, add_fee,
}
use hathor_wallet_lib.Template.Inputs.{mask_of}
use hathor_wallet_lib.Template.Amounts.{
  tokens_of, Keeps, change_token-Changes, get_token_balance-amount, set_token_balance-amount,
  give_authorities-Keeps, add_token-balance,
}
use hathor_wallet_lib.Template.Complete.{
  Completion, authorities_of, settle, read_balance, complete_token, complete_authority,
  complete_authorities, complete_one, complete_all, tokens_to_check, add_names, checked, fee_of,
  take_fee, deposit_step, fee_step, last_step, check_list, exec_complete, takes_deposit,
}
use hathor_wallet_lib.Template.Complete.Settled.{IsSound, spend-Keeps, Settles, settle-Settles}

pub has_name-append :
    (j k : Name) (xs : List Name)
    → has_name j (xs ++ k ∷ []) ≡ (if has_name j xs then true else k == j)
has_name-append j k [] = ground arith
has_name-append j k (x ∷ xs) = ground (arith, has_name-append j k xs)

has_name-add_name :
    (j k : Name) (xs : List Name)
    → has_name j (add_name k xs) ≡ (if k == j then true else has_name j xs)
has_name-add_name j k xs = elim (Bool-cases (k == j)) [
  | inl same ↦
      ground (arith, same, has_name-append j k xs, ap (λ i. has_name i xs) ((==_iff k j).0 same))
  | inr other ↦ ground (arith, other, has_name-append j k xs)
]

has_name-add_names :
    (j : Name) (ts ns : List Name)
    → (has_name j ts || has_name j ns) ≡ true
    → has_name j (add_names ts ns) ≡ true
unfolding add_names
has_name-add_names j [] ns h = h
has_name-add_names j (t ∷ ts) ns h =
    has_name-add_names j ts (add_name t ns) (ground (arith, h, has_name-add_name j t ns))

has_name-check_list :
    (t : Name) (ts : List Name)
    → has_name t (native_token ∷ ts) ≡ true
    → has_name t (check_list none ts) ≡ true
unfolding check_list
has_name-check_list t ts h = has_name-add_names t ts (native_token ∷ []) (ground (arith, h))

has_name-drop_name :
    (k j : Name) (ns : List Name) → (k == j) ≡ false → has_name j (drop_name k ns) ≡ has_name j ns
unfolding drop_name
has_name-drop_name k j [] h = refl
has_name-drop_name k j (n ∷ ns) h = ground (arith, h, has_name-drop_name k j ns h)

module _ (interpreter : Interpreter) (sound : IsSound interpreter) (c : Completion) where
  read_balance-Keeps :
      (t : Name) (ctx : Context) (p : TokenBalance × Context)
      → read_balance interpreter c t ctx ≡ ok p
      → ((p.0).tokens ≡ tokens_of t (p.1).balance) × Keeps ctx (p.1)
  unfolding read_balance
  read_balance-Keeps t ctx p h =
      let (x, e, h') = >>=-eq-ok (get_token_balance ctx.token_details t ctx.balance) _ h in
      let amount = get_token_balance-amount ctx.token_details t ctx.balance x e in
      let set_amount = set_token_balance-amount ctx.token_details t ctx.balance x in
      rw (← ok_inj h') (
        ground (arith, set_amount t),
        λ s. elim (Bool-cases (t == s)) [
          | inl same ↦ ground (
            arith,
            set_amount s,
            amount,
            same,
            ap (λ r. tokens_of r ctx.balance) ((==_iff t s).0 same),
          )
          | inr other ↦ ground (arith, set_amount s, other)
        ],
      )

  complete_authority-Keeps :
      (a : Authority) (t : Name) (token_data : ℕ) (ctx ctx' : Context)
      → complete_authority interpreter c a t token_data ctx ≡ ok ctx'
      → Keeps ctx ctx'
  unfolding complete_authority
  complete_authority-Keeps a t token_data ctx ctx' h =
      let (x, e, h1) = >>=-eq-ok (get_token_balance ctx.token_details t ctx.balance) _ h in
      let n = authorities_of a x in
      elim (Bool-cases (ltb_ℤ (pos 0) n)) [
        | inl more ↦
            give_authorities-Keeps at_end (pos_part n) t a (to_address c.change_address) c.timelock
              token_data ctx ctx' (rw more at h1)
        | inr no_more ↦ elim (Bool-cases (ltb_ℤ n (pos 0))) [
          | inl less ↦
              (let (found, e', h2) =
                  >>=-eq-ok (interpreter.get_authorities (neg_part n) t (mask_of a) none) _
                    (rw (no_more, less) at h1) in
                spend-Keeps interpreter at_end found ctx ctx'
                  (sound.authorities (neg_part n) t (mask_of a) none found e') h2)
          | inr no_less ↦ rw (← ok_inj (rw (no_more, no_less) at h1)) (λ s. refl)
        ]
      ]

  complete_authorities-Keeps :
      (skip : Bool) (t : Name) (token_data : ℕ) (ctx ctx' : Context)
      → complete_authorities interpreter c skip t token_data ctx ≡ ok ctx'
      → Keeps ctx ctx'
  unfolding complete_authorities
  complete_authorities-Keeps true t token_data ctx ctx' h s = rw (← ok_inj h) refl
  complete_authorities-Keeps false t token_data ctx ctx' h s =
      let (m, e, h') = >>=-eq-ok (complete_authority interpreter c mint t token_data ctx) _ h in
      complete_authority-Keeps melt t token_data m ctx' h' s
      ∙ complete_authority-Keeps mint t token_data ctx m e s

  take_fee-other :
      (amount : ℕ) (ctx ctx' : Context) (t : Name)
      → (native_token == t) ≡ false
      → take_fee interpreter c amount ctx ≡ ok ctx'
      → tokens_of t ctx'.balance ≡ tokens_of t ctx.balance
  unfolding take_fee add_fee add_output
  take_fee-other amount ctx ctx' t other h =
      let (placed, e1, h1) = >>=-eq-ok (add_token interpreter native_token ctx) _ h in
      let (b, e2, h2) =
        >>=-eq-ok (add_output (placed.1).token_details amount native_token (placed.1).balance) _
          h1 in
      let changes =
        change_token-Changes (placed.1).token_details native_token (give_amount amount)
          (λ a. a -ℤ pos amount) (placed.1).balance b (λ x. refl) e2 t in
      rw (← ok_inj h2, ← add_token-balance interpreter native_token ctx placed e1)
        (rw other at changes)

  fee_step-other :
      (amount : ℕ) (ctx ctx' : Context) (t : Name)
      → (native_token == t) ≡ false
      → fee_step interpreter c amount ctx ≡ ok ctx'
      → tokens_of t ctx'.balance ≡ tokens_of t ctx.balance
  fee_step-other amount ctx ctx' t other h = elim (Bool-cases (ltb 0 amount)) [
    | inl some_fee ↦ take_fee-other amount ctx ctx' t other (rw some_fee at h)
    | inr no_fee ↦ rw (← ok_inj (rw no_fee at h)) refl
  ]

  checked-known :
      c.token ≡ none
      → (ctx : Context) (t : Name) → has_name t (native_token ∷ ctx.tokens) ≡ true
      → has_name t (checked interpreter c ctx) ≡ true
  checked-known whole ctx t known =
      let listed : has_name t (tokens_to_check interpreter c ctx) ≡ true =
        ap (λ m. has_name t (check_list m ctx.tokens)) whole
        ∙ has_name-check_list t ctx.tokens known in
      if_cases (λ ns. has_name t ns ≡ true) (takes_deposit interpreter c ctx)
        (add_name native_token (tokens_to_check interpreter c ctx))
        (tokens_to_check interpreter c ctx)
        (λ _.
          ground
            (arith, has_name-add_name t native_token (tokens_to_check interpreter c ctx), listed))
        (λ _. listed)

  pub checked-native :
      c.token ≡ none → (ctx : Context) → has_name native_token (checked interpreter c ctx) ≡ true
  checked-native whole ctx = checked-known whole ctx native_token refl

  module _ (change : c.skip_change ≡ false) (selection : c.skip_selection ≡ false) where
    complete_token-Settles :
        (t : Name) (ctx : Context) (p : ℕ × Context)
        → complete_token interpreter c t ctx ≡ ok p
        → Settles t ctx (p.1)
    unfolding complete_token
    complete_token-Settles t ctx p h s =
        let (placed, e1, h1) = >>=-eq-ok (add_token interpreter t ctx) _ h in
        let (read, e2, h2) = >>=-eq-ok (read_balance interpreter c t (placed.1)) _ h1 in
        let (settled, e3, h3) =
          >>=-eq-ok (settle interpreter c t (placed.0) ((read.0).tokens) (read.1)) _ h2 in
        let (amount, keeps) = read_balance-Keeps t (placed.1) read e2 in
        let settles =
          settle-Settles interpreter sound c change selection t (placed.0) (read.1) settled
            (rw (amount) at e3) in
        rw (← ok_inj h3, ← add_token-balance interpreter t ctx placed e1)
          (ground (arith, settles s, keeps s))

    complete_one-Settles :
        (t : Name) (ctx ctx' : Context)
        → complete_one interpreter c t ctx ≡ ok ctx'
        → Settles t ctx ctx'
    unfolding complete_one
    complete_one-Settles t ctx ctx' h s =
        let (done, e, h') = >>=-eq-ok (complete_token interpreter c t ctx) _ h in
        complete_authorities-Keeps c.skip_authorities t (done.0) (done.1) ctx' h' s
        ∙ complete_token-Settles t ctx done e s

    pub complete_all-Settles :
        (ts : List Name) (ctx ctx' : Context) (s : Name)
        → complete_all interpreter c ts ctx ≡ ok ctx'
        → tokens_of s ctx'.balance ≡ (if has_name s ts then pos 0 else tokens_of s ctx.balance)
    unfolding complete_all
    complete_all-Settles [] ctx ctx' s h = rw (← ok_inj h) refl
    complete_all-Settles (t ∷ ts) ctx ctx' s h =
        let (one, e, h') = >>=-eq-ok (complete_one interpreter c t ctx) _ h in
        ground (arith, complete_all-Settles ts one ctx' s h', complete_one-Settles t ctx one e s)

    last_step-Settles :
        (checks more : Bool) (ctx ctx' : Context)
        → checks ≡ true
        → last_step interpreter c (checks || more) ctx ≡ ok ctx'
        → Settles native_token ctx ctx'
    last_step-Settles false more ctx ctx' is_true h = absurd (cc)
    last_step-Settles true more ctx ctx' is_true h =
        let (done, e, h') = >>=-eq-ok (complete_token interpreter c native_token ctx) _ h in
        rw (← ok_inj h') (complete_token-Settles native_token ctx done e)

    pub exec_complete-tokens_of :
        c.token ≡ none
        → (ctx ctx' : Context) (t : Name) → has_name t (native_token ∷ ctx.tokens) ≡ true
        → exec_complete interpreter c ctx ≡ ok ctx'
        → tokens_of t ctx'.balance ≡ pos 0
    unfolding exec_complete
    exec_complete-tokens_of whole ctx ctx' t known h =
        let (deposited, e1, h1) = >>=-eq-ok (deposit_step interpreter c ctx) _ h in
        let (completed, e2, h2) =
          >>=-eq-ok
            (complete_all interpreter c (drop_name native_token (checked interpreter c ctx))
              deposited)
            _ h1 in
        let (charged, e3, h3) =
          >>=-eq-ok (fee_step interpreter c (fee_of interpreter c completed) completed) _ h2 in
        let settles =
          last_step-Settles (has_name native_token (checked interpreter c ctx)) _ charged ctx'
            (checked-native whole ctx) h3 t in
        elim (Bool-cases (native_token == t)) [
          | inl same ↦ rw same at settles
          | inr other ↦
              (let in_list : has_name t (drop_name native_token (checked interpreter c ctx))
                    ≡ true =
                  has_name-drop_name native_token t (checked interpreter c ctx) other
                  ∙ checked-known whole ctx t known in
                let zero = rw in_list at (
                  complete_all-Settles (drop_name native_token (checked interpreter c ctx))
                    deposited completed t e2) in
                rw other at settles
                ∙ fee_step-other (fee_of interpreter c completed) completed charged t other e3
                ∙ zero)
        ]
