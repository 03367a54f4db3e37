-- ===== src/Tokens/Data.antt =====
-- The data of a transaction before it is built: IDataInput, IDataOutput and IDataTx of src/types.ts.
use hathor_wallet_lib.Prelude.{
  ℕ, ◌+◌, ◌≡◌, arith, Bool, false, ◌&&◌, Option, none, some, List, [], ◌∷◌, ◌++◌, ◌==◌,
  if◌then◌else◌,
}
use hathor_wallet_lib.Headers.Fee.{FeeEntry}
use hathor_wallet_lib.Wallet.Maps.{Name}
use hathor_wallet_lib.Wallet.Types.{Utxo, UtxoId}

-- TokenVersion
pub data TokenVersion : Type 0 where
  native deposit fee : TokenVersion

pub record DataInput : Type 0 where
  pub id : UtxoId
  pub value : ℕ
  pub authorities : ℕ
  pub token : Name
  pub address : Name

-- The outputs of a transaction that creates a token name no token. An output has an address or data.
pub record DataOutput : Type 0 where
  pub address : Option Name
  pub value : ℕ
  pub authorities : ℕ
  pub token : Option Name
  pub timelock : Option ℕ
  pub is_change : Bool
  pub data_string : Option Name

-- The headers are the entries of fee headers.
pub record DataTx : Type 0 where
  pub inputs : List DataInput
  pub outputs : List DataOutput
  pub tokens : List Name
  pub token_version : Option TokenVersion
  pub headers : List (List FeeEntry)

-- getDataInputFromUtxo
unfoldable pub get_data_input_from_utxo : Utxo → DataInput
get_data_input_from_utxo u = record {
  id = u.id;
  value = u.value;
  authorities = u.authorities;
  token = u.token;
  address = u.address;
}

abbrev pub is_token : Name → Option Name → Bool
is_token t none = false
is_token t (some u) = u == t

-- What the inputs and the outputs of a token are worth, authorities aside.
abbrev pub input_value : Name → DataInput → ℕ
input_value t i = if i.authorities == 0 && i.token == t then i.value else 0

abbrev pub output_value : Name → DataOutput → ℕ
output_value t o = if o.authorities == 0 && is_token t o.token then o.value else 0

unfoldable pub total_in : Name → List DataInput → ℕ
total_in t [] = 0
total_in t (i ∷ is) = input_value t i + total_in t is

unfoldable pub total_out : Name → List DataOutput → ℕ
total_out t [] = 0
total_out t (o ∷ os) = output_value t o + total_out t os

pub total_in-append :
    (t : Name) (is js : List DataInput) → total_in t (is ++ js) ≡ total_in t is + total_in t js
unfolding total_in
total_in-append t [] js = omega arith
total_in-append t (i ∷ is) js = omega (arith, total_in-append t is js)

pub total_out-append :
    (t : Name) (os ps : List DataOutput) → total_out t (os ++ ps) ≡ total_out t os + total_out t ps
unfolding total_out
total_out-append t [] ps = omega arith
total_out-append t (o ∷ os) ps = omega (arith, total_out-append t os ps)
