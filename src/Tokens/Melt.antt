-- ===== src/Tokens/Melt.antt =====
-- prepareMeltTxData of src/utils/tokens.ts, which melts tokens.
pub mod Balance
use hathor_wallet_lib.Prelude.{
  ℕ, ◌+◌, ◌-◌, ◌*◌, Bool, true, false, not, ◌&&◌, Option, none, some, List, [], ◌∷◌, ◌++◌, map, ltb,
  leb, ◌==◌, if◌then◌else◌, length,
}
use hathor_wallet_lib.Result.{Result, ok, err, ◌>>=◌, ◌>>◌, throw_if, invalid_authority}
use hathor_wallet_lib.Wallet.Maps.{Name, MapOf}
use hathor_wallet_lib.Wallet.Select.{native_token}
use hathor_wallet_lib.Tokens.Data.{TokenVersion, deposit, DataInput, DataOutput, DataTx}
use hathor_wallet_lib.Tokens.Fee.{input_element, output_element, calculate}
use hathor_wallet_lib.Tokens.Amounts.{Fraction, get_withdraw_amount, data_script_output_fee}
use hathor_wallet_lib.Tokens.Pay.{Select, pay, pay_required, add_data}
use hathor_wallet_lib.Tokens.Mint.{Wallet, strings_of, or_current, fee_headers, get_token}

pub record MeltOptions : Type 0 where
  pub create_another_melt : Bool
  pub melt_authority_address : Option Name
  pub change_address : Option Name
  pub unshift_data : Bool
  pub data_strings : Option (List Name)

-- What is returned, and what the outputs of data still take.
pub record Withdrawal : Type 0 where
  pub withdraw_amount : ℕ
  pub deposit_amount : ℕ

abbrev pub is_deposit : Option TokenVersion → Bool
is_deposit (some deposit) = true
is_deposit _ = false

-- What is withdrawn pays for the outputs of data first.
unfoldable pub pay_for_data : ℕ → ℕ → Withdrawal
pay_for_data w d =
    if ltb 0 d
    then (if leb d w
        then record { withdraw_amount = w - d; deposit_amount = 0 }
        else record { withdraw_amount = 0; deposit_amount = d - w })
    else record { withdraw_amount = w; deposit_amount = d }

unfoldable pub withdrawal_of : Option TokenVersion → ℕ → ℕ → Fraction → Result Withdrawal
withdrawal_of version amount data_deposit f =
    if is_deposit version
    then (get_withdraw_amount amount f >>= λ w. ok (pay_for_data w data_deposit))
    else ok (record { withdraw_amount = 0; deposit_amount = data_deposit })

abbrev pub token_output : Name → Name → ℕ → ℕ → DataOutput
token_output address t value authorities = record {
  address = some address;
  value = value;
  authorities = authorities;
  token = some t;
  timelock = none;
  is_change = false;
  data_string = none;
}

module _ (w : Wallet) (select : Select) where
  unfoldable pub another_melt : Name → MeltOptions → Result (List DataOutput)
  another_melt t o =
      if o.create_another_melt
      then (or_current o.melt_authority_address w.book >>= λ a. ok (token_output a t 2 2 ∷ []))
      else ok []

  abbrev pub withdraw_output : Name → Option TokenVersion → ℕ → List DataOutput
  withdraw_output address version withdrawn =
      if ltb 0 withdrawn && is_deposit version
      then token_output address native_token withdrawn 0 ∷ []
      else []

  abbrev pub melt_tx :
      DataInput
      → MeltOptions
      → List DataInput
      → List DataOutput
      → ℕ
      → List DataInput × List DataOutput
      → DataTx
  melt_tx authority o melted outputs fee_amount paid = record {
    inputs = authority ∷ (melted ++ paid.0);
    outputs = add_data o.unshift_data (strings_of o.data_strings) (outputs ++ paid.1);
    tokens = authority.token ∷ [];
    token_version = none;
    headers = fee_headers fee_amount;
  }

  unfoldable pub prepare_melt_tx_data : Name → DataInput → Name → ℕ → MeltOptions → Result DataTx
  prepare_melt_tx_data t authority address amount o = do
    throw_if (not (authority.token == t && authority.authorities == 2)) invalid_authority
    version ← get_token w.tokens t
    withdrawal ←
        withdrawal_of version amount (data_script_output_fee * length (strings_of o.data_strings))
          w.deposit_fraction
    melted ← pay select o.change_address w.book t amount
    another ← another_melt t o
    let outputs =
        melted.1 ++ (another ++ withdraw_output address version withdrawal.withdraw_amount)
    fee_amount ←
        calculate (map input_element (authority ∷ melted.0)) (map output_element outputs)
          ((t, version) ∷ []) []
    paid ←
        pay_required select o.change_address w.book native_token
          (withdrawal.deposit_amount + fee_amount)
    ok (melt_tx authority o (melted.0) outputs fee_amount paid)
