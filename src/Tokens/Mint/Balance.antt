-- ===== src/Tokens/Mint/Balance.antt =====
-- What a transaction that mints takes in and gives out in the native token.
use mathlib.Core.Path.{subst}
use hathor_wallet_lib.Prelude.{
  ℕ, ◌+◌, ◌≡◌, refl, arith, false, Option, none, some, List, [], ◌∷◌, ◌++◌, length, Bool-cases, inl,
  inr,
}
use hathor_wallet_lib.Prelude.Int.{pos, pos_part}
use hathor_wallet_lib.Result.{Result, ok, ok_inj, >>=-eq-ok}
use hathor_wallet_lib.Headers.Fee.{FeeEntry}
use hathor_wallet_lib.Utxo.{Selection}
use hathor_wallet_lib.Wallet.Maps.{Name}
use hathor_wallet_lib.Wallet.Select.{native_token}
use hathor_wallet_lib.Tokens.Data.{
  TokenVersion, native, deposit, fee, DataInput, DataOutput, DataTx, total_in, total_out,
  total_in-append, total_out-append,
}
use hathor_wallet_lib.Tokens.Amounts.{get_deposit_amount}
use hathor_wallet_lib.Tokens.Pay.{
  Select, pay_required, total_out-add_data, IsSelection, Pays, pay_required-Pays,
}
use hathor_wallet_lib.Tokens.Mint.{
  MintOptions, Wallet, Owed, strings_of, list_of, or_current, fee_headers, fee_of_mint, owed_for,
  version_of, mint_outputs, mint_tx, prepare_mint_tx_data, calculate_fee_for_mint_and_create_token,
}

-- The sum of the fees in the headers.
abbrev pub entries_fee : List FeeEntry → ℕ
entries_fee [] = 0
entries_fee (e ∷ es) = pos_part e.amount + entries_fee es

abbrev pub headers_fee : List (List FeeEntry) → ℕ
headers_fee [] = 0
headers_fee (h ∷ hs) = entries_fee h + headers_fee hs

pub headers_fee-fee_headers : (n : ℕ) → headers_fee (fee_headers n) ≡ n
headers_fee-fee_headers n = ground arith

-- The deposit that minting the amount takes.
abbrev pub deposit_of : Wallet → Option TokenVersion → ℕ → Result ℕ
deposit_of w (some deposit) amount = get_deposit_amount (pos amount) w.deposit_fraction
deposit_of w _ amount = ok 0

module _ (w : Wallet) (o : MintOptions) (amount : ℕ) where
  mint_outputs-total :
      (address : Name) (os : List DataOutput)
      → mint_outputs w address amount o ≡ ok os
      → total_out native_token os ≡ 0
  unfolding mint_outputs total_out
  mint_outputs-total address os h = elim (Bool-cases o.create_another_mint) [
    | inl another ↦
        (let (a, e, h') =
            >>=-eq-ok (or_current o.mint_authority_address w.book) _ (rw another at h) in
          rw (← ok_inj h') refl)
    | inr no_other ↦ rw (← ok_inj (rw no_other at h)) refl
  ]

  -- What is owed is the deposit, the data and the fee.
  record Owes (version : Option TokenVersion) (owed : Owed) : Type 0 where
    d : ℕ
    deposited : deposit_of w version amount ≡ ok d
    with_data : owed.deposit_amount ≡ d + length (strings_of o.data_strings)

  owed_for-Owes :
      (version : Option TokenVersion) (os : List DataOutput) (ts : List Name) (owed : Owed)
      → o.skip_deposit_fee ≡ false
      → o.skip_fee_calculation ≡ false
      → owed_for w version amount o os ts ≡ ok owed
      → Owes version owed
  unfolding owed_for calculate_fee_for_mint_and_create_token
  owed_for-Owes (some deposit) os ts owed keep calc h =
      let (d, e, h') =
        >>=-eq-ok (get_deposit_amount (pos amount) w.deposit_fraction) _ (rw keep at h) in
      record { d = d; deposited = e; with_data = rw (← ok_inj h') (omega arith) }
  owed_for-Owes (some fee) os ts owed keep calc h =
      let (n, e, h') = >>=-eq-ok (fee_of_mint w o.token os ts) _ (rw calc at h) in
      record { d = 0; deposited = refl; with_data = rw (← ok_inj h') (omega arith) }
  owed_for-Owes (some native) os ts owed keep calc h = cc
  owed_for-Owes none os ts owed keep calc h = cc

  mint_tx-total :
      (version : Option TokenVersion) (minted : List DataOutput) (owed : Owed)
      (paid : List DataInput × List DataOutput)
      → total_in native_token (list_of o.mint_input) ≡ 0
      → total_out native_token minted ≡ 0
      → (owes : Owes version owed) → Pays native_token (owed.deposit_amount + owed.fee_amount) paid
      → (let tx = mint_tx w o version minted owed paid in
          total_in native_token tx.inputs
          ≡ total_out native_token tx.outputs + owes.d + headers_fee tx.headers)
  mint_tx-total version minted owed paid mint free owes pays = omega (
    arith,
    total_in-append native_token (list_of o.mint_input) (paid.0),
    mint,
    pays.paid,
    total_out-add_data native_token o.unshift_data (strings_of o.data_strings) (paid.1 ++ minted),
    total_out-append native_token (paid.1) minted,
    free,
    owes.with_data,
    headers_fee-fee_headers owed.fee_amount,
  )

  -- Prepared by prepareMintTxData without its two `skip` options, and with a selection that is sound, a
  -- transaction that mints or creates a token takes in as much of the native token as it gives out, with
  -- the deposit for the minted amount and the fee of its header. The mint input is no native funds.
  pub prepare_mint_tx_data-total :
      (select : Select)
      → ((t : Name) (n : ℕ) (r : Selection _) → select t n ≡ ok r → IsSelection t r)
      → (address : Name) (tx : DataTx) → o.skip_deposit_fee ≡ false
      → o.skip_fee_calculation ≡ false
      → total_in native_token (list_of o.mint_input) ≡ 0
      → prepare_mint_tx_data w select address amount o ≡ ok tx
      → (version : Option TokenVersion) × (d : ℕ) × (version_of w o ≡ ok version)
        × (deposit_of w version amount ≡ ok d)
        × (total_in native_token tx.inputs
            ≡ total_out native_token tx.outputs + d + headers_fee tx.headers)
  unfolding prepare_mint_tx_data
  prepare_mint_tx_data-total select sound address tx keep calc mint h =
      let (version, is_version, h1) = >>=-eq-ok (version_of w o) _ h in
      let (minted, e2, h2) = >>=-eq-ok (mint_outputs w address amount o) _ h1 in
      let (owed, e3, h3) = >>=-eq-ok (owed_for w version amount o minted (list_of o.token)) _ h2 in
      let (paid, e4, h4) =
        >>=-eq-ok
          (pay_required select o.change_address w.book native_token
            (owed.deposit_amount + owed.fee_amount))
          _ h3 in
      let owes = owed_for-Owes version minted (list_of o.token) owed keep calc e3 in
      let pays = pay_required-Pays select sound o.change_address w.book native_token _ paid e4 in
      (
        version,
        owes.d,
        is_version,
        owes.deposited,
        subst
            (λ (t : DataTx).
              total_in native_token t.inputs
              ≡ total_out native_token t.outputs + owes.d + headers_fee t.headers)
            (ok_inj h4)
            (mint_tx-total version minted owed paid mint (mint_outputs-total address minted e2) owes
              pays),
      )
