-- ===== src/Template/Amounts.antt =====
-- What the operations of a template (src/template/transaction) do to the amounts of the tokens.
use hathor_wallet_lib.Prelude.{
  ℕ, ◌+◌, ◌≡◌, refl, ◌∙◌, ap, arith, true, false, Option, none, some, List, [], ◌∷◌, ◌==◌,
  if◌then◌else◌, Bool-cases, inl, inr,
}
use hathor_wallet_lib.Prelude.Int.{ℤ, pos, ◌+ℤ◌, ◌-ℤ◌, int_laws}
use hathor_wallet_lib.Result.{ok, ok_inj, >>=-eq-ok}
use hathor_wallet_lib.Wallet.Maps.{Name, MapOf, get, has, get-set}
use hathor_wallet_lib.Wallet.Types.{HistoryOutput, HistoryTx, UtxoId}
use hathor_wallet_lib.Wallet.Rules.{is_authority_output}
use hathor_wallet_lib.Tokens.Data.{TokenVersion}
use hathor_wallet_lib.Wallet.Select.{native_token}
use hathor_wallet_lib.Template.Balance.{
  TokenBalance, TxBalance, Authority, mint, melt, get_token_balance, found_or_new,
  get_token_version, set_token_balance, change_token, add_output, add_output_authority, take_output,
  spent_output, add_balance_from_utxo, give_amount, give_authority,
}
use hathor_wallet_lib.Template.Context.{
  Script, Interpreter, Context, add_token, place_token, put_token, index_of, fetch_version,
  is_create_token_tx_context, cache_token_details,
}
use hathor_wallet_lib.Template.Inputs.{mask_of, give, spend_one, new_output}
use hathor_wallet_lib.Template.Outputs.{authority_data, give_authorities}

abbrev pub amount_of : Option TokenBalance → ℤ
amount_of none = pos 0
amount_of (some x) = x.tokens

-- What the inputs of a token hold, less what its outputs do.
abbrev pub tokens_of : Name → TxBalance → ℤ
tokens_of t b = amount_of (get t b.balance)

-- The amount of one token changes as `g` does.
abbrev pub Changes : (ℤ → ℤ) → Name → TxBalance → TxBalance → Type 0
Changes g t b b' =
    (s : Name) → tokens_of s b' ≡ (if t == s then g (tokens_of s b) else tokens_of s b)

module _ (versions : MapOf TokenVersion) (t : Name) where
  found_or_new-amount :
      (m : Option TokenBalance) (x : TokenBalance)
      → found_or_new versions t m ≡ ok x
      → x.tokens ≡ amount_of m
  unfolding found_or_new
  found_or_new-amount none x h =
      let (v, e, h') = >>=-eq-ok (get_token_version versions t) _ h in rw (← ok_inj h') refl
  found_or_new-amount (some y) x h = rw (← ok_inj h) refl

  pub get_token_balance-amount :
      (b : TxBalance) (x : TokenBalance)
      → get_token_balance versions t b ≡ ok x
      → x.tokens ≡ tokens_of t b
  unfolding get_token_balance
  get_token_balance-amount b x h = found_or_new-amount (get t b.balance) x h

  pub set_token_balance-amount :
      (b : TxBalance) (x : TokenBalance) (s : Name)
      → tokens_of s (set_token_balance t x b) ≡ (if t == s then x.tokens else tokens_of s b)
  set_token_balance-amount b x s = ground (arith, get-set s t x b.balance)

  pub change_token-Changes :
      (f : TokenBalance → TokenBalance) (g : ℤ → ℤ) (b b' : TxBalance)
      → ((x : TokenBalance) → (f x).tokens ≡ g x.tokens)
      → change_token versions t f b ≡ ok b'
      → Changes g t b b'
  unfolding change_token
  change_token-Changes f g b b' fg h s =
      let (x, e, h') = >>=-eq-ok (get_token_balance versions t b) _ h in
      rw (← ok_inj h') (
        ground
          (arith, set_token_balance-amount b (f x) s, fg x, ap g (get_token_balance-amount b x e)))

-- The amount of one token grows by `n`.
abbrev pub Grows : ℤ → Name → Context → Context → Type 0
Grows n t ctx ctx' = Changes (λ a. a +ℤ n) t ctx.balance ctx'.balance

-- No amount changes.
abbrev pub Keeps : Context → Context → Type 0
Keeps ctx ctx' = (s : Name) → tokens_of s ctx'.balance ≡ tokens_of s ctx.balance

pub give-Grows :
    (position : ℤ) (amount : ℕ) (t : Name) (script : Script) (timelock : Option ℕ) (token_data : ℕ)
    (ctx ctx' : Context)
    → give position amount t script timelock token_data ctx ≡ ok ctx'
    → Grows (pos 0 -ℤ pos amount) t ctx ctx'
unfolding give add_output
give-Grows position amount t script timelock token_data ctx ctx' h s =
    let (b, e, h1) = >>=-eq-ok (add_output ctx.token_details amount t ctx.balance) _ h in
    let (o, e', h2) = >>=-eq-ok (new_output amount script timelock token_data) _ h1 in
    rw (← ok_inj h2) (
      change_token-Changes ctx.token_details t (give_amount amount)
        (λ a. a +ℤ (pos 0 -ℤ pos amount)) ctx.balance b (λ x. omega int_laws) e s)

give_authority-amount :
    (count : ℕ) (a : Authority) (x : TokenBalance) → (give_authority count a x).tokens ≡ x.tokens
give_authority-amount count mint x = refl
give_authority-amount count melt x = refl

pub give_authorities-Keeps :
    (position : ℤ) (count : ℕ) (t : Name) (a : Authority) (script : Script) (timelock : Option ℕ)
    (token_data : ℕ) (ctx ctx' : Context)
    → give_authorities position count t a script timelock token_data ctx ≡ ok ctx'
    → Keeps ctx ctx'
unfolding give_authorities add_output_authority
give_authorities-Keeps position count t a script timelock token_data ctx ctx' h s =
    let (b, e, h1) = >>=-eq-ok (add_output_authority ctx.token_details count t a ctx.balance) _ h in
    let (o, e', h2) =
      >>=-eq-ok (new_output (mask_of a) script timelock (authority_data token_data)) _ h1 in
    rw (← ok_inj h2) (
      ground (
        arith,
        change_token-Changes ctx.token_details t (give_authority count a) (λ n. n) ctx.balance b
            (give_authority-amount count a) e s,
      ))

put_token-balance :
    (t : Name) (ctx : Context) (m : Option ℕ) → ((put_token t ctx m).1).balance ≡ ctx.balance
unfolding put_token
put_token-balance t ctx none = refl
put_token-balance t ctx (some i) = refl

place_token-balance :
    (t : Name) (ctx : Context) (p : ℕ × Context)
    → place_token t ctx ≡ ok p
    → (p.1).balance ≡ ctx.balance
unfolding place_token
place_token-balance t ctx p h = elim (Bool-cases (t == native_token)) [
  | inl e ↦ rw (← ok_inj (rw e at h)) refl
  | inr e ↦ elim (Bool-cases (is_create_token_tx_context ctx)) [
    | inl f ↦ cc (rw (e, f) at h)
    | inr f ↦ rw (← ok_inj (rw (e, f) at h)) (put_token-balance t ctx (index_of t ctx.tokens))
  ]
]

module _ (interpreter : Interpreter) where
  pub cache_token_details-balance :
      (t : Name) (ctx ctx' : Context)
      → cache_token_details interpreter t ctx ≡ ok ctx'
      → ctx'.balance ≡ ctx.balance
  unfolding cache_token_details
  cache_token_details-balance t ctx ctx' h = elim (Bool-cases (has t ctx.token_details)) [
    | inl e ↦ rw (← ok_inj (rw e at h)) refl
    | inr e ↦
        (let (v, e', h') = >>=-eq-ok (fetch_version interpreter t) _ (rw e at h) in
          rw (← ok_inj h') refl)
  ]

  pub add_token-balance :
      (t : Name) (ctx : Context) (p : ℕ × Context)
      → add_token interpreter t ctx ≡ ok p
      → (p.1).balance ≡ ctx.balance
  unfolding add_token
  add_token-balance t ctx p h =
      let (c, e, h') = >>=-eq-ok (cache_token_details interpreter t ctx) _ h in
      place_token-balance t c p h' ∙ cache_token_details-balance t ctx c e

  -- The outputs that the ids name are funds of the token, and hold `n`.
  abbrev pub AreFunds : Name → List UtxoId → ℕ → Type 0
  AreFunds t [] n = n ≡ 0
  AreFunds t (id ∷ ids) n =
      (tx : HistoryTx) × (o : HistoryOutput) × (rest : ℕ) × (interpreter.get_tx id.tx_id ≡ ok tx)
      × (spent_output tx id.index ≡ ok o)
      × (o.token ≡ t)
      × (is_authority_output o.token_data ≡ false)
      × (n ≡ o.value + rest)
      × AreFunds t ids rest

  -- The outputs that the ids name are authorities.
  abbrev pub AreAuthorities : List UtxoId → Type 0
  AreAuthorities [] = Unit
  AreAuthorities (id ∷ ids) =
      ((tx : HistoryTx) × (o : HistoryOutput) × (interpreter.get_tx id.tx_id ≡ ok tx)
        × (spent_output tx id.index ≡ ok o)
        × (is_authority_output o.token_data ≡ true))
      × AreAuthorities ids

  pub take_output-funds :
      (o : HistoryOutput) (x : TokenBalance)
      → is_authority_output o.token_data ≡ false
      → (take_output o x).tokens ≡ x.tokens +ℤ pos o.value
  take_output-funds o x h = rw h refl

  pub take_output-authority :
      (o : HistoryOutput) (x : TokenBalance)
      → is_authority_output o.token_data ≡ true
      → (take_output o x).tokens ≡ x.tokens
  take_output-authority o x h = rw h refl

  -- What spending an output that is known does to the balance.
  pub spend_one-eq-ok :
      (id : UtxoId) (ctx ctx' : Context) (tx : HistoryTx) (o : HistoryOutput)
      → interpreter.get_tx id.tx_id ≡ ok tx
      → spent_output tx id.index ≡ ok o
      → spend_one interpreter id ctx ≡ ok ctx'
      → change_token ctx.token_details o.token (take_output o) ctx.balance ≡ ok ctx'.balance
  unfolding add_balance_from_utxo
  spend_one-eq-ok id ctx ctx' tx o e f h =
      let (b, e1, h1) =
        >>=-eq-ok (add_balance_from_utxo ctx.token_details tx id.index ctx.balance) _ (rw e at h) in
      rw f at e1 ∙ ap (λ (c : Context). ok c.balance) (ok_inj h1)
