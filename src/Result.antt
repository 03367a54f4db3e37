-- ===== src/Result.antt =====
-- Errors as values. The library throws an `Error` with a message; each message is a constructor here.
-- A call that throws halfway leaves no partial result to its caller, so `err` carries no state.
use hathor_wallet_lib.Prelude.{◌≡◌, refl, Bool, true, false}

pub data Error : Type 0 where
  -- Not thrown by the library: the fuel of a loop's model ran out.
  out_of_fuel : Error
  -- utils/leb128.ts
  unsigned_negative encode_limit decode_limit empty_buffer shift_assertion : Error
  -- utils/buffer.ts
  not_enough_bytes invalid_size invalid_hex value_too_large value_not_positive value_above_maximum :
      Error
  -- headers and models
  invalid_header_id wrong_header_id too_many_entries no_entries duplicate_index invalid_index :
      Error
  invalid_amount invalid_length missing_value : Error
  -- nano_contracts/fields
  invalid_tag length_above_maximum invalid_uid wrong_network wrong_checksum invalid_address : Error
  -- utils/fee.ts, utils/tokens.ts, template/transaction/context.ts
  token_not_found token_missing negative_amount bad_division shielded_input index_missing : Error
  tokens_present custom_token_in_create invalid_fee version_missing already_nano : Error
  -- utils/tokens.ts, utils/bigint.ts, storage/storage.ts
  insufficient_funds invalid_version invalid_authority address_not_mine : Error
  -- utils/scripts.ts, models/script_data.ts
  invalid_output_script no_data : Error
  -- storage/memory_store.ts
  address_known : Error

pub data Result {ℓ} (A : Type ℓ) : Type ℓ where
  ok : A → Result A
  err : Error → Result A

-- `if (test) throw error`
abbrev pub throw_if : Bool → Error → Result (Unit {0})
throw_if true e = err e
throw_if false e = ok tt

-- What follows a call that may throw.
infixl 5 ◌>>=◌ ◌>>◌
abbrev pub ◌>>=◌ {ℓ ℓ'} : {T : Type ℓ} {U : Type ℓ'} → Result T → (T → Result U) → Result U
err thrown >>= next = err thrown
ok result >>= next = next result

abbrev pub ◌>>◌ {ℓ} : {U : Type ℓ} → Result (Unit {0}) → Result U → Result U
check >> next = check >>= λ _. next

-- What a computation that succeeds went through.
pub ok_inj {ℓ} : {A : Type ℓ} {a b : A} → ok a ≡ ok b → a ≡ b
ok_inj h = cc

pub >>=-eq-ok {ℓ ℓ'} :
    {T : Type ℓ} {U : Type ℓ'} (m : Result T) (next : T → Result U) {b : U}
    → (m >>= next) ≡ ok b
    → (a : T) × (m ≡ ok a) × (next a ≡ ok b)
>>=-eq-ok (ok a) next h = (a, refl, h)
>>=-eq-ok (err e) next h = cc
