-- ===== src/Tokens/Melt/Balance.antt =====
-- What a transaction that melts takes in and gives out, in the token and in the native token.
use mathlib.Core.Path.{subst}
use hathor_wallet_lib.Prelude.{
  ℕ, ◌+◌, ◌*◌, ◌≡◌, ◌≢◌, refl, sym, arith, false, ◌&&◌, not, Option, List, [], ◌∷◌, ◌++◌, ◌==◌,
  if◌then◌else◌, length, Bool-cases, inl, inr, map,
}
use hathor_wallet_lib.Result.{Result, ok, throw_if, invalid_authority, ok_inj, >>=-eq-ok}
use hathor_wallet_lib.Utxo.{Selection}
use hathor_wallet_lib.Wallet.Maps.{Name}
use hathor_wallet_lib.Wallet.Select.{native_token}
use hathor_wallet_lib.Tokens.Data.{
  TokenVersion, DataInput, DataOutput, DataTx, total_in, total_out, total_in-append,
  total_out-append,
}
use hathor_wallet_lib.Tokens.Fee.{input_element, output_element, calculate}
use hathor_wallet_lib.Tokens.Amounts.{get_withdraw_amount}
use hathor_wallet_lib.Tokens.Pay.{
  Select, pay, pay_required, total_out-add_data, IsSelection, Pays, pay-Pays, pay_required-Pays,
  throw_if-ok,
}
use hathor_wallet_lib.Tokens.Mint.{Wallet, strings_of, or_current, get_token}
use hathor_wallet_lib.Tokens.Mint.Balance.{headers_fee, headers_fee-fee_headers}
use hathor_wallet_lib.Tokens.Melt.{
  MeltOptions, Withdrawal, is_deposit, pay_for_data, withdrawal_of, another_melt, withdraw_output,
  melt_tx, prepare_melt_tx_data,
}

-- What melting the amount returns.
abbrev pub withdraw_of : Wallet → Option TokenVersion → ℕ → Result ℕ
withdraw_of w version amount =
    if is_deposit version then get_withdraw_amount amount w.deposit_fraction else ok 0

module _ (w : Wallet) (select : Select) (t : Name) (authority : DataInput) (o : MeltOptions) where
  -- What is returned and the data that is left to pay for differ by what melting returns.
  record Returns (version : Option TokenVersion) (amount : ℕ) (withdrawal : Withdrawal)
      : Type 0 where
    r : ℕ
    returned : withdraw_of w version amount ≡ ok r
    splits :
        r + withdrawal.deposit_amount
        ≡ withdrawal.withdraw_amount + length (strings_of o.data_strings)
    only_deposit : is_deposit version ≡ false → withdrawal.withdraw_amount ≡ 0

  withdrawal_of-Returns :
      (version : Option TokenVersion) (amount : ℕ) (withdrawal : Withdrawal)
      → withdrawal_of version amount (1 * length (strings_of o.data_strings)) w.deposit_fraction
        ≡ ok withdrawal
      → Returns version amount withdrawal
  unfolding withdrawal_of pay_for_data
  withdrawal_of-Returns version amount withdrawal h = elim (Bool-cases (is_deposit version)) [
    | inl is_d ↦
        (let (r, e, h') =
            >>=-eq-ok (get_withdraw_amount amount w.deposit_fraction) _ (rw is_d at h) in
          record {
            r = r;
            returned = rw is_d e;
            splits = rw (← ok_inj h') (ground arith);
            only_deposit = λ n. absurd (cc);
          })
    | inr is_not ↦ record {
      r = 0;
      returned = rw is_not refl;
      splits = rw (← ok_inj (rw is_not at h)) (ground arith);
      only_deposit = λ n. rw (← ok_inj (rw is_not at h)) refl;
    }
  ]

  is_melt_authority :
      not (authority.token == t && authority.authorities == 2) ≡ false → authority.authorities ≡ 2
  is_melt_authority h = ground (arith, h)

  another_melt-total :
      (v : Name) (os : List DataOutput) → another_melt w select t o ≡ ok os → total_out v os ≡ 0
  unfolding another_melt total_out
  another_melt-total v os h = elim (Bool-cases o.create_another_melt) [
    | inl another ↦
        (let (a, e, h') =
            >>=-eq-ok (or_current o.melt_authority_address w.book) _ (rw another at h) in
          rw (← ok_inj h') refl)
    | inr no_other ↦ rw (← ok_inj (rw no_other at h)) refl
  ]

  withdraw_output-total :
      (v address : Name) (version : Option TokenVersion) (n : ℕ)
      → (is_deposit version ≡ false → n ≡ 0)
      → total_out v (withdraw_output w select address version n)
        ≡ (if native_token == v then n else 0)
  unfolding total_out
  withdraw_output-total v address version n only = elim (Bool-cases (is_deposit version)) [
    | inl is_d ↦ rw is_d (ground arith)
    | inr is_not ↦ rw is_not (ground (arith, only is_not))
  ]

  module _ (amount : ℕ) (not_native : t ≢ native_token) where
    melt_tx-total :
        (withdrawal : Withdrawal) (version : Option TokenVersion) (address : Name)
        (melted paid : List DataInput × List DataOutput) (another : List DataOutput)
        (fee_amount : ℕ)
        → (returns : Returns version amount withdrawal) → authority.authorities ≡ 2
        → ((v : Name) → total_out v another ≡ 0)
        → Pays t amount melted
        → Pays native_token (withdrawal.deposit_amount + fee_amount) paid
        → (let outputs =
              melted.1
              ++ (another ++ withdraw_output w select address version withdrawal.withdraw_amount) in
            let tx = melt_tx w select authority o (melted.0) outputs fee_amount paid in
            (total_in t tx.inputs ≡ total_out t tx.outputs + amount)
            × (total_in native_token tx.inputs + returns.r
                ≡ total_out native_token tx.outputs + headers_fee tx.headers))
    unfolding total_in
    melt_tx-total withdrawal version address melted paid another fee_amount returns is_melt free
          pays paid_for =
        let drawn = withdraw_output w select address version withdrawal.withdraw_amount in
        let outputs = melted.1 ++ (another ++ drawn) in
        let strings = strings_of o.data_strings in
        let ins = λ (v : Name). total_in-append v (melted.0) (paid.0) in
        let outs = λ (v : Name). total_out-add_data v o.unshift_data strings (outputs ++ paid.1) in
        let parts = λ (v : Name). total_out-append v outputs (paid.1) in
        let front = λ (v : Name). total_out-append v (melted.1) (another ++ drawn) in
        let back = λ (v : Name). total_out-append v another drawn in
        let draws = λ (v : Name).
          withdraw_output-total v address version withdrawal.withdraw_amount returns.only_deposit in
        (
          ground (
            arith,
            is_melt,
            not_native,
            ins t,
            outs t,
            parts t,
            front t,
            back t,
            draws t,
            free t,
            pays.paid,
            paid_for.no_other_in t not_native,
            paid_for.no_other_out t not_native,
          ),
          ground (
            arith,
            is_melt,
            not_native,
            ins native_token,
            outs native_token,
            parts native_token,
            front native_token,
            back native_token,
            draws native_token,
            free native_token,
            pays.no_other_in native_token (λ e. not_native (sym e)),
            pays.no_other_out native_token (λ e. not_native (sym e)),
            paid_for.paid,
            returns.splits,
            headers_fee-fee_headers fee_amount,
          ),
        )

    -- Prepared by prepareMeltTxData with a selection that is sound, a transaction that melts an amount of a
    -- custom token takes in what it gives out of that token and the amount; and what it takes in of the native
    -- token, with what melting the amount returns, is what it gives out and the fee of its header.
    pub prepare_melt_tx_data-total :
        ((t' : Name) (n : ℕ) (r : Selection _) → select t' n ≡ ok r → IsSelection t' r)
        → (address : Name) (tx : DataTx)
        → prepare_melt_tx_data w select t authority address amount o ≡ ok tx
        → (version : Option TokenVersion) × (r : ℕ) × (get_token w.tokens t ≡ ok version)
          × (withdraw_of w version amount ≡ ok r)
          × (total_in t tx.inputs ≡ total_out t tx.outputs + amount)
          × (total_in native_token tx.inputs + r
              ≡ total_out native_token tx.outputs + headers_fee tx.headers)
    unfolding prepare_melt_tx_data
    prepare_melt_tx_data-total sound address tx h =
        let strings = strings_of o.data_strings in
        let (u, e0, h0) =
          >>=-eq-ok
            (throw_if (not (authority.token == t && authority.authorities == 2)) invalid_authority)
            _ h in
        let (version, e1, h1) = >>=-eq-ok (get_token w.tokens t) _ h0 in
        let (withdrawal, e2, h2) =
          >>=-eq-ok (withdrawal_of version amount (1 * length strings) w.deposit_fraction) _ h1 in
        let (melted, e3, h3) = >>=-eq-ok (pay select o.change_address w.book t amount) _ h2 in
        let (another, e4, h4) = >>=-eq-ok (another_melt w select t o) _ h3 in
        let outputs =
          melted.1
          ++ (another ++ withdraw_output w select address version withdrawal.withdraw_amount) in
        let (fee_amount, e5, h5) =
          >>=-eq-ok
            (calculate (map input_element (authority ∷ melted.0)) (map output_element outputs)
              ((t, version) ∷ []) [])
            _ h4 in
        let (paid, e6, h6) =
          >>=-eq-ok
            (pay_required select o.change_address w.book native_token
              (withdrawal.deposit_amount + fee_amount))
            _ h5 in
        let returns = withdrawal_of-Returns version amount withdrawal e2 in
        let total =
          melt_tx-total withdrawal version address melted paid another fee_amount returns
            (is_melt_authority (throw_if-ok _ _ e0)) (λ v. another_melt-total v another e4)
            (pay-Pays select sound o.change_address w.book t amount melted e3)
            (pay_required-Pays select sound o.change_address w.book native_token _ paid e6) in
        let balanced =
          subst
            (λ (x : DataTx).
              (total_in t x.inputs ≡ total_out t x.outputs + amount)
              × (total_in native_token x.inputs + returns.r
                  ≡ total_out native_token x.outputs + headers_fee x.headers))
            (ok_inj h6) total in
        (version, returns.r, e1, returns.returned, balanced.0, balanced.1)
