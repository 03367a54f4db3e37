-- ===== src/Template/Ledger/Steps.antt =====
-- Spending utxos and finding the place of a token (src/template/transaction/context.ts), and how steps
-- that keep the count of the amounts follow each other.
use hathor_wallet_lib.Prelude.{
  ℕ, ◌≤◌, ◌≡◌, refl, ◌∙◌, ap, sym, arith, Option, none, some, List, [], ◌∷◌, ◌++◌, ◌==◌, ==_iff,
  if◌then◌else◌, length, length-append, Bool-cases, inl, inr,
}
use hathor_wallet_lib.Prelude.Int.{ℤ, pos, ◌+ℤ◌, ◌-ℤ◌, int_laws}
use hathor_wallet_lib.Result.{Result, ok, ok_inj, ◌>>=◌, >>=-eq-ok}
use hathor_wallet_lib.Wallet.Maps.{Name, has}
use hathor_wallet_lib.Wallet.Types.{HistoryOutput, HistoryTx, UtxoId}
use hathor_wallet_lib.Wallet.Rules.{is_authority_output}
use hathor_wallet_lib.Wallet.Select.{native_token}
use hathor_wallet_lib.Template.Balance.{
  TokenBalance, take_output, spent_output, add_balance_from_utxo,
}
use hathor_wallet_lib.Template.Context.{
  Interpreter, Context, index_of, fetch_version, cache_token_details, put_token, place_token,
  add_token, is_create_token_tx_context,
}
use hathor_wallet_lib.Template.Inputs.{with_balance, spend_one, spend_all, spend}
use hathor_wallet_lib.Template.Amounts.{tokens_of, change_token-Changes}
use hathor_wallet_lib.Template.Ledger.{
  sum_by, sum_by-add_items, funds_in, funds_found, input_amount, left_over, sum_outputs, IsLedger,
  AreFew,
}
use hathor_wallet_lib.Template.Ledger.Places.{
  index_of-append, sum_outputs-grown, all_by-fits, grown,
}
use hathor_wallet_lib.Template.Ledger.Moves.{IsPlace, native_place, token_place, Stays}

-- What an output that is spent brings in.
abbrev brought : HistoryOutput → ℤ
brought o = if is_authority_output o.token_data then pos 0 else pos o.value

take_output-tokens :
    (o : HistoryOutput) (x : TokenBalance) → (take_output o x).tokens ≡ x.tokens +ℤ brought o
take_output-tokens o x = elim (Bool-cases (is_authority_output o.token_data)) [
  | inl e ↦ rw e (omega int_laws)
  | inr e ↦ rw e refl
]

module _ (interpreter : Interpreter) where
  input_amount-eq :
      (t : Name) (id : UtxoId) (tx : HistoryTx) (o : HistoryOutput)
      → interpreter.get_tx id.tx_id ≡ ok tx
      → spent_output tx id.index ≡ ok o
      → input_amount interpreter t id ≡ funds_in interpreter t o
  unfolding input_amount
  input_amount-eq t id tx o e f = rw e (ap (funds_found interpreter t) f)

  funds_in-brought :
      (t : Name) (o : HistoryOutput) (a : ℤ)
      → (if o.token == t then a +ℤ brought o else a) ≡ a +ℤ funds_in interpreter t o
  funds_in-brought t o a = elim (Bool-cases (o.token == t)) [
    | inl same ↦ rw same refl
    | inr other ↦ rw other (omega int_laws)
  ]

  spend_one-sum :
      (id : UtxoId) (ctx ctx' : Context)
      → spend_one interpreter id ctx ≡ ok ctx'
      → (with_balance ctx'.balance ctx ≡ ctx')
        × ((t : Name)
            → tokens_of t ctx'.balance ≡ tokens_of t ctx.balance +ℤ input_amount interpreter t id)
  unfolding add_balance_from_utxo
  spend_one-sum id ctx ctx' h =
      let (tx, e, h1) = >>=-eq-ok (interpreter.get_tx id.tx_id) _ h in
      let (b, e1, h2) =
        >>=-eq-ok (add_balance_from_utxo ctx.token_details tx id.index ctx.balance) _ h1 in
      let (o, e2, h3) = >>=-eq-ok (spent_output tx id.index) _ e1 in
      let changes =
        change_token-Changes ctx.token_details o.token (take_output o) (λ a. a +ℤ brought o)
          ctx.balance b (take_output-tokens o) h3 in
      rw (← ok_inj h2) (
        refl,
        λ t.
            changes t
            ∙ funds_in-brought t o (tokens_of t ctx.balance)
            ∙ ap (λ n. tokens_of t ctx.balance +ℤ n) (sym (input_amount-eq t id tx o e e2)),
      )

  spend_all-sum :
      (ids : List UtxoId) (ctx ctx' : Context)
      → spend_all interpreter ids ctx ≡ ok ctx'
      → (with_balance ctx'.balance ctx ≡ ctx')
        × ((t : Name)
            → tokens_of t ctx'.balance
              ≡ tokens_of t ctx.balance +ℤ sum_by (input_amount interpreter t) ids)
  unfolding spend_all sum_by
  spend_all-sum [] ctx ctx' h = rw (← ok_inj h) (refl, λ t. omega int_laws)
  spend_all-sum (id ∷ ids) ctx ctx' h =
      let (c, e, h') = >>=-eq-ok (spend_one interpreter id ctx) _ h in
      let (one, sum_one) = spend_one-sum id ctx c e in
      let (rest, sum_rest) = spend_all-sum ids c ctx' h' in
      (ap (with_balance ctx'.balance) one ∙ rest, λ t. grind (int_laws, sum_one t, sum_rest t))

  pub spend-Stays :
      (position : ℤ) (ids : List UtxoId) (ctx ctx' : Context)
      → spend interpreter position ids ctx ≡ ok ctx'
      → Stays interpreter ctx ctx'
  unfolding spend left_over
  spend-Stays position ids ctx ctx' h =
      let (c, e, h') = >>=-eq-ok (spend_all interpreter ids ctx) _ h in
      let (same, sum) = spend_all-sum ids ctx c e in
      rw (← ok_inj h', ← same)
        (
          refl,
          λ few ledger. record {
            ordinary = ledger.ordinary;
            places = ledger.places;
            amounts = λ t custom. grind (
              int_laws,
              sum t,
              ledger.amounts t custom,
              sum_by-add_items (input_amount interpreter t) position ids ctx.inputs,
            );
          },
        )

  -- A step that may add tokens, and keeps the count of the amounts while the tokens are few.
  abbrev pub Follows : Context → Context → Type 0
  Follows ctx ctx' =
      (length ctx.tokens ≤ length ctx'.tokens)
      × (AreFew ctx' → IsLedger interpreter ctx → IsLedger interpreter ctx')

  pub Follows-refl : (ctx : Context) → Follows ctx ctx
  Follows-refl ctx = (omega arith, λ few ledger. ledger)

  pub Follows-trans : (a b c : Context) → Follows a b → Follows b c → Follows a c
  Follows-trans a b c (le, f) (le', g) =
      (omega arith, λ few ledger. g few (f (omega (arith, le', few)) ledger))

  pub Stays-Follows : (a b : Context) → Stays interpreter a b → Follows a b
  Stays-Follows a b (same, f) =
      let equal : length b.tokens ≡ length a.tokens = ap length same in
      (omega (arith, equal), λ few. f (omega (arith, equal, few)))

  pub >>=-Follows :
      (m : Result Context) (f : Context → Result Context) (ctx ctx' : Context)
      → ((c : Context) → m ≡ ok c → Follows ctx c)
      → ((c : Context) → f c ≡ ok ctx' → Follows c ctx')
      → (m >>= f) ≡ ok ctx'
      → Follows ctx ctx'
  >>=-Follows m f ctx ctx' first next h =
      let (c, e, h') = >>=-eq-ok m f h in Follows-trans ctx c ctx' (first c e) (next c h')

  pub cache_token_details-Stays :
      (t : Name) (ctx ctx' : Context)
      → cache_token_details interpreter t ctx ≡ ok ctx'
      → Stays interpreter ctx ctx'
  unfolding cache_token_details left_over
  cache_token_details-Stays t ctx ctx' h = elim (Bool-cases (has t ctx.token_details)) [
    | inl e ↦ rw (← ok_inj (rw e at h)) (refl, λ few ledger. ledger)
    | inr e ↦
        (let (v, e', h') = >>=-eq-ok (fetch_version interpreter t) _ (rw e at h) in
          rw (← ok_inj h') (
            refl,
            λ few ledger. record {
              ordinary = ledger.ordinary;
              places = ledger.places;
              amounts = ledger.amounts;
            },
          ))
  ]

  -- The token has its place, and the count is kept.
  abbrev pub Places : Name → Context → ℕ × Context → Type 0
  Places t ctx placed = IsPlace t (placed.1).tokens (placed.0) × Follows ctx (placed.1)

  put_token-Places :
      (t : Name) (ctx : Context) (m : Option ℕ)
      → index_of t ctx.tokens ≡ m
      → Places t ctx (put_token t ctx m)
  unfolding put_token left_over
  put_token-Places t ctx (some i) e = (token_place i e (omega arith), Follows-refl ctx)
  put_token-Places t ctx none e = (
    token_place (length ctx.tokens)
        (index_of-append t t ctx.tokens
          ∙ ap (grown (t == t) (length ctx.tokens)) e
          ∙ ap (λ b. grown b (length ctx.tokens) none) ((==_iff t t).1 refl))
        (omega arith),
    (
      omega (arith, length-append ctx.tokens (t ∷ [])),
      λ few ledger.
          (let longer = length-append ctx.tokens (t ∷ []) in
            let fit : length ctx.tokens ≤ 126 = omega (arith, longer, few) in
            record {
              ordinary = ledger.ordinary;
              places =
                  all_by-fits (length ctx.tokens) (length (ctx.tokens ++ t ∷ [])) ctx.outputs
                    (omega (arith, longer)) ledger.places;
              amounts = λ s custom.
                  ledger.amounts s custom
                  ∙ ap (λ n. sum_by (input_amount interpreter s) ctx.inputs -ℤ n)
                      (sym (
                        ap (λ m. sum_outputs m ctx.outputs) (index_of-append s t ctx.tokens)
                        ∙ sum_outputs-grown (t == s) (length ctx.tokens) (index_of s ctx.tokens)
                            ctx.outputs fit ledger.places));
            }),
    ),
  )

  place_token-Places :
      (t : Name) (ctx : Context) (placed : ℕ × Context)
      → place_token t ctx ≡ ok placed
      → Places t ctx placed
  unfolding place_token
  place_token-Places t ctx placed h = elim (Bool-cases (t == native_token)) [
    | inl e ↦ rw (← ok_inj (rw e at h)) (native_place (ground (arith, e)) refl, Follows-refl ctx)
    | inr e ↦ elim (Bool-cases (is_create_token_tx_context ctx)) [
      | inl f ↦ absurd (cc (rw (e, f) at h))
      | inr f ↦ rw (← ok_inj (rw (e, f) at h)) (put_token-Places t ctx (index_of t ctx.tokens) refl)
    ]
  ]

  pub add_token-Places :
      (t : Name) (ctx : Context) (placed : ℕ × Context)
      → add_token interpreter t ctx ≡ ok placed
      → Places t ctx placed
  unfolding add_token
  add_token-Places t ctx placed h =
      let (c, e, h') = >>=-eq-ok (cache_token_details interpreter t ctx) _ h in
      let (place, follows) = place_token-Places t c placed h' in
      (
        place,
        Follows-trans ctx c (placed.1) (Stays-Follows ctx c (cache_token_details-Stays t ctx c e))
            follows,
      )
