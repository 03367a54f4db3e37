-- ===== src/Template/Ledger/Instructions.antt =====
-- What the instructions of src/template/transaction/executor.ts that add inputs and outputs do to the count
-- of the amounts.
use mathlib.Core.List.{Permᴰ}
use mathlib.Core.List.Permᴰ.{nil, cons, swap, trans}
use hathor_wallet_lib.Prelude.{ℕ, ◌≡◌, refl, ◌∙◌, arith, Bool, false, Option, List}
use hathor_wallet_lib.Prelude.Int.{ℤ, int_laws}
use hathor_wallet_lib.Result.{ok, ok_inj, >>=-eq-ok}
use hathor_wallet_lib.Wallet.Maps.{Name}
use hathor_wallet_lib.Wallet.Types.{UtxoId}
use hathor_wallet_lib.Tokens.Data.{TokenVersion}
use hathor_wallet_lib.Template.Balance.{Authority}
use hathor_wallet_lib.Template.Context.{
  Script, Interpreter, Context, cache_token_details, add_token, is_create_token_tx_context,
}
use hathor_wallet_lib.Template.Inputs.{spend, give_new, new_output}
use hathor_wallet_lib.Template.Outputs.{
  created_version, give_created, give_created_authority, give_new_authorities, authority_data,
}
use hathor_wallet_lib.Template.Inputs.{mask_of}
use hathor_wallet_lib.Template.Ledger.{sum_by, all_by}
use hathor_wallet_lib.Template.Ledger.Moves.{IsPlace-bound, give-Stays, give_authorities-Stays}
use hathor_wallet_lib.Template.Ledger.Steps.{
  spend-Stays, Follows, Follows-trans, Stays-Follows, cache_token_details-Stays, add_token-Places,
}

pub sum_by-Perm {ℓ} :
    {A : Type ℓ} (f : A → ℤ) {xs ys : List A} → Permᴰ xs ys → sum_by f xs ≡ sum_by f ys
unfolding sum_by
sum_by-Perm f nil = refl
sum_by-Perm f (cons e p) = rw (e, sum_by-Perm f p) refl
sum_by-Perm f (swap e e') = rw (e, e') (omega int_laws)
sum_by-Perm f (trans p q) = sum_by-Perm f p ∙ sum_by-Perm f q

pub all_by-Perm {ℓ} :
    {A : Type ℓ} (f : A → Bool) {xs ys : List A} → Permᴰ xs ys → all_by f xs ≡ all_by f ys
unfolding all_by
all_by-Perm f nil = refl
all_by-Perm f (cons e p) = rw (e, all_by-Perm f p) refl
all_by-Perm f (swap e e') = rw (e, e') (ground arith)
all_by-Perm f (trans p q) = all_by-Perm f p ∙ all_by-Perm f q

module _ (interpreter : Interpreter) where
  pub cache_token_details-Follows :
      (t : Name) (ctx c : Context)
      → cache_token_details interpreter t ctx ≡ ok c
      → Follows interpreter ctx c
  cache_token_details-Follows t ctx c e =
      Stays-Follows interpreter ctx c (cache_token_details-Stays interpreter t ctx c e)

  pub spend-Follows :
      (position : ℤ) (ids : List UtxoId) (ctx c : Context)
      → spend interpreter position ids ctx ≡ ok c
      → Follows interpreter ctx c
  spend-Follows position ids ctx c e =
      Stays-Follows interpreter ctx c (spend-Stays interpreter position ids ctx c e)

  pub give_new-Follows :
      (position : ℤ) (amount : ℕ) (t : Name) (script : Script) (timelock : Option ℕ)
      (ctx ctx' : Context)
      → give_new interpreter position amount t script timelock ctx ≡ ok ctx'
      → Follows interpreter ctx ctx'
  unfolding give_new
  give_new-Follows position amount t script timelock ctx ctx' h =
      let (placed, e, h') = >>=-eq-ok (add_token interpreter t ctx) _ h in
      let (place, follows) = add_token-Places interpreter t ctx placed e in
      Follows-trans interpreter ctx (placed.1) ctx' follows (
        Stays-Follows interpreter (placed.1) ctx' (
          give-Stays interpreter position amount t script timelock (placed.0) (placed.1) ctx' place
            h'))

  pub give_new_authorities-Follows :
      (position : ℤ) (count : ℕ) (t : Name) (a : Authority) (script : Script) (timelock : Option ℕ)
      (ctx ctx' : Context)
      → give_new_authorities interpreter position count t a script timelock ctx ≡ ok ctx'
      → Follows interpreter ctx ctx'
  unfolding give_new_authorities
  give_new_authorities-Follows position count t a script timelock ctx ctx' h =
      let (placed, e, h') = >>=-eq-ok (add_token interpreter t ctx) _ h in
      let (place, follows) = add_token-Places interpreter t ctx placed e in
      Follows-trans interpreter ctx (placed.1) ctx' follows (
        Stays-Follows interpreter (placed.1) ctx' (
          give_authorities-Stays interpreter position count t a script timelock (placed.0)
            (placed.1) ctx' (IsPlace-bound t (placed.1).tokens (placed.0) place) h'))

  -- A transaction that creates no token has no output of it.
  not_created :
      (ctx : Context) (v : TokenVersion)
      → created_version ctx ≡ ok v
      → is_create_token_tx_context ctx ≡ false
      → ⊥
  unfolding created_version
  not_created ctx v h ordinary = cc (rw ordinary at h)

  pub give_created-Follows :
      (position : ℤ) (amount : ℕ) (script : Script) (timelock : Option ℕ) (ctx ctx' : Context)
      → give_created position amount script timelock ctx ≡ ok ctx'
      → Follows interpreter ctx ctx'
  unfolding give_created
  give_created-Follows position amount script timelock ctx ctx' h =
      let (v, e, h1) = >>=-eq-ok (created_version ctx) _ h in
      let (o, e', h2) = >>=-eq-ok (new_output amount script timelock 1) _ h1 in
      (rw (← ok_inj h2) (omega arith), λ few ledger. absurd (not_created ctx v e ledger.ordinary))

  pub give_created_authority-Follows :
      (position : ℤ) (count : ℕ) (a : Authority) (script : Script) (timelock : Option ℕ)
      (ctx ctx' : Context)
      → give_created_authority position count a script timelock ctx ≡ ok ctx'
      → Follows interpreter ctx ctx'
  unfolding give_created_authority
  give_created_authority-Follows position count a script timelock ctx ctx' h =
      let (v, e, h1) = >>=-eq-ok (created_version ctx) _ h in
      let (o, e', h2) =
        >>=-eq-ok (new_output (mask_of a) script timelock (authority_data 1)) _ h1 in
      (rw (← ok_inj h2) (omega arith), λ few ledger. absurd (not_created ctx v e ledger.ordinary))
