-- ===== src/Template/Balance.antt =====
-- src/template/transaction/context.ts, TxBalance: what a transaction under construction takes in, less
-- what it gives out. The versions of the tokens are those that the context has cached.
use hathor_wallet_lib.Prelude.{
  ℕ, ◌+◌, ◌*◌, Bool, true, false, ◌&&◌, Option, none, some, [], ◌∷◌, ltb, leb, if◌then◌else◌,
  length, get_elem?,
}
use hathor_wallet_lib.Prelude.Int.{ℤ, pos, ◌+ℤ◌, ◌-ℤ◌}
use hathor_wallet_lib.Result.{
  Result, ok, err, ◌>>=◌, ◌>>◌, throw_if, version_missing, shielded_input, index_missing,
}
use hathor_wallet_lib.Wallet.Maps.{Name, MapOf, get, set}
use hathor_wallet_lib.Wallet.Types.{HistoryOutput, HistoryTx}
use hathor_wallet_lib.Wallet.Rules.{is_authority_output, is_mint, is_melt}
use hathor_wallet_lib.Tokens.Data.{TokenVersion, fee}
use hathor_wallet_lib.Tokens.Fee.{fee_per_output}

pub record TokenBalance : Type 0 where
  pub tokens : ℤ
  pub token_version : TokenVersion
  pub mint_authorities : ℤ
  pub melt_authorities : ℤ
  pub chargeable_outputs : ℕ
  pub chargeable_inputs : ℕ

abbrev pub create_token_balance : TokenVersion → TokenBalance
create_token_balance version = record {
  tokens = pos 0;
  token_version = version;
  mint_authorities = pos 0;
  melt_authorities = pos 0;
  chargeable_outputs = 0;
  chargeable_inputs = 0;
}

unfoldable pub calculate_token_fee : TokenBalance → ℕ
calculate_token_fee b =
    if ltb 0 b.chargeable_outputs
    then b.chargeable_outputs * fee_per_output
    else if ltb 0 b.chargeable_inputs
    then fee_per_output
    else 0

pub record TxBalance : Type 0 where
  pub balance : MapOf TokenBalance
  pub created_token_balance : Option TokenBalance

abbrev pub is_fee : TokenVersion → Bool
is_fee fee = true
is_fee _ = false

pub data Authority : Type 0 where
  mint melt : Authority

abbrev pub take_output : HistoryOutput → TokenBalance → TokenBalance
take_output o x =
    if is_authority_output o.token_data
    then record x {
      mint_authorities =
          if is_mint o.value o.token_data then x.mint_authorities +ℤ pos 1 else x.mint_authorities;
      melt_authorities =
          if is_melt o.value o.token_data then x.melt_authorities +ℤ pos 1 else x.melt_authorities;
    }
    else record x {
      tokens = x.tokens +ℤ pos o.value;
      chargeable_inputs =
          if is_fee x.token_version then x.chargeable_inputs + 1 else x.chargeable_inputs;
    }

-- isShieldedOutputIndex
abbrev pub is_shielded_output_index : HistoryTx → ℕ → Bool
is_shielded_output_index tx index =
    leb (length tx.outputs) index && ltb index (length tx.outputs + length tx.shielded_outputs)

-- The output that an index names, which is a transparent one.
unfoldable pub spent_output : HistoryTx → ℕ → Result HistoryOutput
spent_output tx index =
    throw_if (is_shielded_output_index tx index) shielded_input
    >> elim (get_elem? tx.outputs index) as (λ _. Result HistoryOutput) [
      | none ↦ err index_missing
      | some o ↦ ok o
    ]

abbrev pub give_amount : ℕ → TokenBalance → TokenBalance
give_amount amount x = record x {
  tokens = x.tokens -ℤ pos amount;
  chargeable_outputs =
      if is_fee x.token_version then x.chargeable_outputs + 1 else x.chargeable_outputs;
}

abbrev pub give_authority : ℕ → Authority → TokenBalance → TokenBalance
give_authority count mint x = record x { mint_authorities = x.mint_authorities -ℤ pos count }
give_authority count melt x = record x { melt_authorities = x.melt_authorities -ℤ pos count }

-- getCreatedTokenBalance
unfoldable pub get_created_token_balance : TokenVersion → TxBalance → TokenBalance
get_created_token_balance version b = elim b.created_token_balance [
  | none ↦ create_token_balance version
  | some x ↦ x
]

unfoldable pub add_created_token_output : ℕ → TokenVersion → TxBalance → TxBalance
unfolding get_created_token_balance
add_created_token_output amount version b = record b {
  created_token_balance = some (give_amount amount (get_created_token_balance version b));
}

unfoldable pub add_created_token_output_authority :
    ℕ → Authority → TokenVersion → TxBalance → TxBalance
unfolding get_created_token_balance
add_created_token_output_authority count a version b = record b {
  created_token_balance = some (give_authority count a (get_created_token_balance version b));
}

abbrev pub set_token_balance : Name → TokenBalance → TxBalance → TxBalance
set_token_balance t x b = record b { balance = set t x b.balance }

module _ (versions : MapOf TokenVersion) where
  -- getTokenVersion of the context
  unfoldable pub get_token_version : Name → Result TokenVersion
  get_token_version t = elim (get t versions) [ none ↦ err version_missing | some v ↦ ok v ]

  unfoldable pub found_or_new : Name → Option TokenBalance → Result TokenBalance
  found_or_new t none = get_token_version t >>= λ v. ok (create_token_balance v)
  found_or_new t (some x) = ok x

  -- getTokenBalance; each caller stores the balance that it goes on to.
  unfoldable pub get_token_balance : Name → TxBalance → Result TokenBalance
  get_token_balance t b = found_or_new t (get t b.balance)

  -- What an operation does to the balance of a token.
  unfoldable pub change_token : Name → (TokenBalance → TokenBalance) → TxBalance → Result TxBalance
  change_token t f b = get_token_balance t b >>= λ x. ok (set_token_balance t (f x) b)

  unfoldable pub add_balance_from_utxo : HistoryTx → ℕ → TxBalance → Result TxBalance
  add_balance_from_utxo tx index b =
      spent_output tx index >>= λ o. change_token o.token (take_output o) b

  unfoldable pub add_output : ℕ → Name → TxBalance → Result TxBalance
  add_output amount t b = change_token t (give_amount amount) b

  unfoldable pub add_output_authority : ℕ → Name → Authority → TxBalance → Result TxBalance
  add_output_authority count t a b = change_token t (give_authority count a) b

-- The sum of the `for` in calculateFee.
unfoldable pub sum_fees : MapOf TokenBalance → ℕ
sum_fees [] = 0
sum_fees (e ∷ m) = calculate_token_fee e.1 + sum_fees m

unfoldable pub calculate_fee : TxBalance → ℕ
unfolding sum_fees
calculate_fee b =
    (elim b.created_token_balance [ none ↦ 0 | some x ↦ calculate_token_fee x ])
    + sum_fees b.balance
