-- ===== src/Tests/Templates.antt =====
-- Runs for src/template/transaction: a transaction that gives out 5 of a token and has 3 of the native
-- token too much, completed by a wallet that finds any amount of both.
use hathor_wallet_lib.Prelude.{
  ℕ, ◌+◌, ◌≡◌, refl, sym, arith, true, false, Option, none, some, List, [], ◌∷◌, ◌==◌,
  if◌then◌else◌, Bool-cases, inl, inr, ==_iff,
}
use hathor_wallet_lib.Prelude.Int.{ℤ, pos, negsuc}
use hathor_wallet_lib.Result.{Result, ok, err, token_not_found, ok_inj}
use hathor_wallet_lib.Wallet.Maps.{Name}
use hathor_wallet_lib.Wallet.Types.{HistoryOutput, HistoryTx, UtxoId}
use hathor_wallet_lib.Wallet.Rules.{is_authority_output}
use hathor_wallet_lib.Wallet.Select.{native_token}
use hathor_wallet_lib.Tokens.Data.{TokenVersion, native, fee}
use hathor_wallet_lib.Template.Balance.{TokenBalance, spent_output}
use hathor_wallet_lib.Template.Context.{Interpreter, Context}
use hathor_wallet_lib.Template.Amounts.{AreFunds}
use hathor_wallet_lib.Template.Complete.{Completion, exec_complete}
use hathor_wallet_lib.Template.Complete.Settled.{IsSound}

abbrev funds_of : ℕ → Name → HistoryOutput
funds_of value token = record {
  value = value;
  token = token;
  token_data = if token == native_token then 0 else 1;
  address = some 100;
  timelock = none;
  spent_by = none;
  blinding_factor = none;
  asset_blinding_factor = none;
}

-- A transaction with as much of both tokens as its id says.
abbrev tx_with : Name → HistoryTx
tx_with value = record {
  tx_id = value;
  version = 1;
  timestamp = 50;
  is_voided = false;
  height = none;
  first_block = none;
  inputs = [];
  outputs = funds_of value native_token ∷ funds_of value 7 ∷ [];
  shielded_outputs = [];
  nc_id = none;
  nc_seqnum = none;
  nc_address = none;
  nc_pubkey = none;
}

abbrev utxo : ℕ → ℕ → UtxoId
utxo value index = record { tx_id = value; index = index }

-- Two more than the amount are found.
abbrev pub rich : Interpreter
rich = record {
  get_utxos = λ n t _.
      if t == native_token
      then ok (utxo (n + 2) 0 ∷ [], 2)
      else if t == 7
      then ok (utxo (n + 2) 1 ∷ [], 2)
      else err token_not_found;
  get_authorities = λ _ _ _ _. ok [];
  get_tx = λ id. ok (tx_with id);
  get_token_details = λ _. ok (some fee);
  get_htr_deposit = λ n. ok n;
}

rich_funds :
    (n : ℕ) (t : Name) (address : Option Name) (found : List UtxoId × ℕ)
    → rich.get_utxos n t address ≡ ok found
    → AreFunds rich t (found.0) (n + found.1)
unfolding spent_output is_authority_output
rich_funds n t address found h = elim (Bool-cases (t == native_token)) [
  | inl e ↦ rw (← ok_inj (rw e at h)) (
    tx_with (n + 2),
    funds_of (n + 2) native_token,
    0,
    refl,
    refl,
    sym ((==_iff t native_token).0 e),
    refl,
    omega arith,
    refl,
  )
  | inr e ↦ elim (Bool-cases (t == 7)) [
    | inl f ↦ rw (← ok_inj (rw (e, f) at h)) (
      tx_with (n + 2),
      funds_of (n + 2) 7,
      0,
      refl,
      refl,
      sym ((==_iff t 7).0 f),
      refl,
      omega arith,
      refl,
    )
    | inr f ↦ absurd (cc (rw (e, f) at h))
  ]
]

pub rich-IsSound : IsSound rich
rich-IsSound = record {
  funds = rich_funds;
  authorities = λ count t mask address found h. rw (← ok_inj h) tt;
}

abbrev pub whole : Completion
whole = record {
  token = none;
  change_address = 100;
  address = none;
  timelock = none;
  skip_selection = false;
  skip_authorities = false;
  skip_change = false;
  with_fee = true;
}

abbrev amounts : ℤ → TokenVersion → ℕ → TokenBalance
amounts tokens version outputs = record {
  tokens = tokens;
  token_version = version;
  mint_authorities = pos 0;
  melt_authorities = pos 0;
  chargeable_outputs = outputs;
  chargeable_inputs = 0;
}

abbrev begun : Context
begun = record {
  version = 1;
  signal_bits = 0;
  inputs = utxo 3 0 ∷ [];
  outputs = [];
  tokens = 7 ∷ [];
  balance = record {
    balance = (native_token, amounts (pos 3) native 0) ∷ (7, amounts (negsuc 4) fee 1) ∷ [];
    created_token_balance = none;
  };
  token_name = none;
  token_symbol = none;
  token_version = none;
  fees = [];
  token_details = (native_token, native) ∷ (7, fee) ∷ [];
  nano_context = none;
}

abbrev returned : Result Context → Context
returned (ok ctx) = ctx
returned (err e) = begun

abbrev completed : Context
completed = returned (exec_complete rich whole begun)
