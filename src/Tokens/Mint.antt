-- ===== src/Tokens/Mint.antt =====
-- prepareMintTxData of src/utils/tokens.ts, which mints tokens or creates a token.
pub mod Balance
use hathor_wallet_lib.Prelude.{
  ℕ, ◌+◌, ◌≡◌, ◌≢◌, refl, arith, Bool, true, false, ◌&&◌, Option, none, some, List, [], ◌∷◌, ◌++◌,
  map, ◌==◌, if◌then◌else◌, length, Bool-cases, inl, inr,
}
use hathor_wallet_lib.Prelude.Int.{ℤ, pos, pos_part}
use hathor_wallet_lib.Result.{
  Result, ok, err, ◌>>=◌, ◌>>◌, throw_if, token_not_found, version_missing, invalid_version, ok_inj,
  >>=-eq-ok,
}
use hathor_wallet_lib.Headers.Fee.{FeeEntry}
use hathor_wallet_lib.Utxo.{Selection}
use hathor_wallet_lib.Wallet.Maps.{Name, MapOf, get, set}
use hathor_wallet_lib.Wallet.Scan.{Book}
use hathor_wallet_lib.Wallet.Select.{native_token}
use hathor_wallet_lib.Tokens.Data.{
  TokenVersion, native, deposit, fee, DataInput, DataOutput, DataTx, input_value, output_value,
  total_in, total_out, total_in-append, total_out-append,
}
use hathor_wallet_lib.Tokens.Fee.{
  TokenElement, output_element, calculate, calculate_token_creation_tx_fee,
}
use hathor_wallet_lib.Tokens.Amounts.{Fraction, get_deposit_amount, get_data_fee}
use hathor_wallet_lib.Tokens.Pay.{
  Select, current_address, pay_required, add_data, total_out-add_data, IsSelection, Pays,
  pay_required-Pays,
}

pub record MintOptions : Type 0 where
  pub token : Option Name
  pub mint_input : Option DataInput
  pub create_another_mint : Bool
  pub change_address : Option Name
  pub unshift_data : Bool
  pub data_strings : Option (List Name)
  pub mint_authority_address : Option Name
  pub skip_deposit_fee : Bool
  pub skip_fee_calculation : Bool
  pub token_version : TokenVersion

-- What is read of the wallet's storage: the versions of its tokens, its addresses and the deposit.
pub record Wallet : Type 0 where
  pub tokens : MapOf (Option TokenVersion)
  pub book : Book
  pub deposit_fraction : Fraction

abbrev pub strings_of : Option (List Name) → List Name
strings_of none = []
strings_of (some ds) = ds

abbrev pub list_of {ℓ} : {A : Type ℓ} → Option A → List A
list_of none = []
list_of (some a) = a ∷ []

-- An output that is not yet of a token.
abbrev pub own_output : Name → ℕ → ℕ → DataOutput
own_output address value authorities = record {
  address = some address;
  value = value;
  authorities = authorities;
  token = none;
  timelock = none;
  is_change = false;
  data_string = none;
}

-- `given || (await storage.getCurrentAddress())`
unfoldable pub or_current : Option Name → Book → Result Name
or_current none b = current_address b
or_current (some a) b = ok a

abbrev pub fee_headers : ℕ → List (List FeeEntry)
fee_headers amount =
    if amount == 0 then [] else (record { token_index = pos 0; amount = pos amount } ∷ []) ∷ []

-- storage.getToken, of a token that has to be known
abbrev pub get_token : MapOf (Option TokenVersion) → Name → Result (Option TokenVersion)
get_token tokens t = elim (get t tokens) [ none ↦ err token_not_found | some v ↦ ok v ]

-- The `for` of getTokensByManyIds.
unfoldable pub get_tokens_by_many_ids :
    MapOf (Option TokenVersion)
    → List Name
    → MapOf (Option TokenVersion)
    → Result (MapOf (Option TokenVersion))
get_tokens_by_many_ids tokens [] m = ok m
get_tokens_by_many_ids tokens (t ∷ ts) m =
    get_token tokens t >>= λ v. get_tokens_by_many_ids tokens ts (set t v m)

-- A fee and a deposit.
pub record Owed : Type 0 where
  pub fee_amount : ℕ
  pub deposit_amount : ℕ

module _ (w : Wallet) where
  abbrev fee_of_mint : Option Name → List DataOutput → List Name → Result ℕ
  fee_of_mint none outputs tokens_array =
      ok (calculate_token_creation_tx_fee (map output_element outputs))
  fee_of_mint (some t) outputs tokens_array =
      get_tokens_by_many_ids w.tokens tokens_array [] >>= λ tokens.
      calculate [] (map (λ o. output_element (record o { token = some t })) outputs) tokens []

  -- calculateFeeForMintAndCreateToken
  unfoldable pub calculate_fee_for_mint_and_create_token :
      MintOptions → List DataOutput → List Name → Result Owed
  calculate_fee_for_mint_and_create_token o outputs tokens_array =
      if o.skip_fee_calculation
      then ok (record { fee_amount = 0; deposit_amount = 0 })
      else fee_of_mint o.token outputs tokens_array >>= λ amount. ok (record {
        fee_amount = amount;
        deposit_amount = get_data_fee (length (strings_of o.data_strings));
      })

  -- The `switch` on the version. getTransactionHTRDeposit is the deposit with the data fee.
  unfoldable pub owed_for :
      Option TokenVersion → ℕ → MintOptions → List DataOutput → List Name → Result Owed
  owed_for (some deposit) amount o outputs tokens_array =
      if o.skip_deposit_fee
      then ok (record { fee_amount = 0; deposit_amount = 0 })
      else get_deposit_amount (pos amount) w.deposit_fraction >>= λ d. ok (record {
        fee_amount = 0;
        deposit_amount = d + get_data_fee (length (strings_of o.data_strings));
      })
  owed_for (some fee) amount o outputs tokens_array =
      calculate_fee_for_mint_and_create_token o outputs tokens_array
  owed_for (some native) amount o outputs tokens_array = err invalid_version
  owed_for none amount o outputs tokens_array = err invalid_version

  abbrev is_native : TokenVersion → Bool
  is_native native = true
  is_native _ = false

  -- The version of the token that is minted, or of the one that is created.
  unfoldable pub version_of : MintOptions → Result (Option TokenVersion)
  version_of o = elim o.token [
    | none ↦ throw_if (is_native o.token_version) version_missing >> ok (some o.token_version)
    | some t ↦ get_token w.tokens t
  ]

  -- The minted tokens, and another mint authority.
  unfoldable pub mint_outputs : Name → ℕ → MintOptions → Result (List DataOutput)
  mint_outputs address amount o =
      if o.create_another_mint
      then (or_current o.mint_authority_address w.book >>= λ a.
          ok (own_output address amount 0 ∷ own_output a 1 1 ∷ []))
      else ok (own_output address amount 0 ∷ [])

  abbrev created_version : Option Name → Option TokenVersion → Option TokenVersion
  created_version none v = v
  created_version (some t) v = none

  -- The result: the change comes first, and the outputs of data at either end.
  abbrev pub mint_tx :
      MintOptions
      → Option TokenVersion
      → List DataOutput
      → Owed
      → List DataInput × List DataOutput
      → DataTx
  mint_tx o version minted owed paid = record {
    inputs = list_of o.mint_input ++ paid.0;
    outputs = add_data o.unshift_data (strings_of o.data_strings) (paid.1 ++ minted);
    tokens = list_of o.token;
    token_version = created_version o.token version;
    headers = fee_headers owed.fee_amount;
  }

  unfoldable pub prepare_mint_tx_data : Select → Name → ℕ → MintOptions → Result DataTx
  prepare_mint_tx_data select address amount o = do
    version ← version_of o
    minted ← mint_outputs address amount o
    owed ← owed_for version amount o minted (list_of o.token)
    paid ←
        pay_required select o.change_address w.book native_token
          (owed.deposit_amount + owed.fee_amount)
    ok (mint_tx o version minted owed paid)
