-- ===== src/Wallet/Select.antt =====
-- src/storage/memory_store.ts, selectUtxos, with the filter that selectUtxos of src/storage/storage.ts
-- adds: which utxos of the store are offered for a transaction. `orderBy` is lodash's: a parameter.
use hathor_wallet_lib.Prelude.{
  ℕ, ◌+◌, Bool, true, false, ◌&&◌, ◌||◌, not, Option, none, some, List, [], ◌∷◌, ltb, leb, ◌==◌,
  if◌then◌else◌, bit_and,
}
use hathor_wallet_lib.Result.{Result, ok, err, invalid_amount}
use hathor_wallet_lib.Wallet.Maps.{Name, get}
use hathor_wallet_lib.Wallet.Types.{Utxo, shielded}
use hathor_wallet_lib.Wallet.Rules.{Clock, is_block, is_height_locked, or_null}
use hathor_wallet_lib.Wallet.Store.{Store, is_utxo_selected_as_input}

pub data Order : Type 0 where
  ascending descending : Order

-- IUtxoFilterOptions
pub record FilterOptions : Type 0 where
  pub token : Option Name
  pub authorities : ℕ
  pub max_utxos : Option ℕ
  pub filter_address : Option Name
  pub target_amount : Option ℕ
  pub max_amount : Option ℕ
  pub amount_smaller_than : Option ℕ
  pub amount_bigger_than : Option ℕ
  pub only_available_utxos : Bool
  pub filter_method : Utxo → Bool
  pub reward_lock : Option ℕ
  pub order_by_value : Option Order
  pub only_shielded : Option Bool

-- The uid of the native token, '00'.
abbrev pub native_token : Name
native_token = 0

unfoldable pub is_utxo_time_locked : Clock → Utxo → Bool
is_utxo_time_locked clock u = elim (or_null u.timelock) [
  | none ↦ false
  | some t ↦ ltb clock.date_now t
]

-- Only blocks can be reward locked.
unfoldable pub is_utxo_height_locked : Clock → Option ℕ → Utxo → Bool
is_utxo_height_locked clock reward_lock u =
    if is_block u.version
    then is_height_locked u.height (record clock { reward_lock = reward_lock })
    else false

unfoldable pub is_utxo_locked : Clock → Option ℕ → Utxo → Bool
is_utxo_locked clock reward_lock u =
    is_utxo_time_locked clock u || is_utxo_height_locked clock reward_lock u

abbrev pub token_of : FilterOptions → Name
token_of options = elim options.token [ none ↦ native_token | some t ↦ t ]

unfoldable pub is_authority_match : ℕ → Utxo → Bool
is_authority_match authorities u =
    if authorities == 0 then u.authorities == 0 else ltb 0 (bit_and u.authorities authorities)

-- A shielded address stands for the address that its outputs carry on chain.
unfoldable pub effective_address : Store → Option Name → Option Name
effective_address s none = none
effective_address s (some a) = elim (get a s.addresses) [
  | none ↦ some a
  | some info ↦ elim info.kind [
    | some shielded ↦ elim info.ct_mapping_address [ none ↦ some a | some on_chain ↦ some on_chain ]
    | _ ↦ some a
  ]
]

-- `bound && !(test bound)`: a bound that is missing or 0 refuses nothing.
abbrev within : Option ℕ → (ℕ → Bool) → Bool
within bound test = elim (or_null bound) [ none ↦ true | some b ↦ test b ]

abbrev has_shield : Option Bool → Bool → Bool
has_shield none b = true
has_shield (some true) b = b
has_shield (some false) b = not b

abbrev has_address : Option Name → Name → Bool
has_address none a = true
has_address (some wanted) a = a == wanted

-- The two `continue`s in front of that of `max_amount`.
unfoldable pub passes : Clock → Store → FilterOptions → Utxo → Bool
passes clock s options u =
    not (options.only_available_utxos && is_utxo_locked clock options.reward_lock u)
    && options.filter_method u
    && within options.amount_bigger_than (λ b. ltb b u.value)
    && within options.amount_smaller_than (λ b. ltb u.value b)
    && has_address (effective_address s options.filter_address) u.address
    && has_shield options.only_shielded u.shielded
    && is_authority_match options.authorities u
    && u.token == token_of options

-- The end of a round: the target or the number of utxos is reached.
unfoldable pub is_enough : FilterOptions → ℕ → ℕ → Bool
is_enough options sum num =
    not (within options.target_amount (λ t. ltb sum t))
    || not (within options.max_utxos (λ n. ltb num n))

-- Only unlocked utxos count for the target.
unfoldable pub next_sum : Clock → FilterOptions → Utxo → ℕ → ℕ
next_sum clock options u sum =
    if is_utxo_locked clock options.reward_lock u then sum else sum + u.value

-- What a round makes of an utxo: it goes on, offers the utxo and goes on, or offers it and ends.
unfoldable pub select_loop : Clock → Store → FilterOptions → List Utxo → ℕ → ℕ → List Utxo
select_loop clock s options [] sum num = []
select_loop clock s options (u ∷ us) sum num =
    elim (passes clock s options u && within options.max_amount (λ m. leb (sum + u.value) m)) [
      | false ↦ select_loop clock s options us sum num
      | true ↦
          (let sum' = next_sum clock options u sum in
            u ∷ elim (is_enough options sum' (num + 1)) [
              | true ↦ []
              | false ↦ select_loop clock s options us sum' (num + 1)
            ])
    ]

abbrev is_set : Option ℕ → Bool
is_set n = elim (or_null n) [ none ↦ false | some _ ↦ true ]

-- Storage.selectUtxos: with `only_available_utxos`, utxos that are selected as inputs are left out.
abbrev pub storage_options : Store → Option ℕ → FilterOptions → FilterOptions
storage_options s reward_lock options = record options {
  filter_method = λ u.
      if options.only_available_utxos
      then not (is_utxo_selected_as_input s u.id) && options.filter_method u
      else options.filter_method u;
  reward_lock = elim (or_null reward_lock) [ none ↦ options.reward_lock | some r ↦ some r ];
}

module _ (order_by : Order → List Utxo → List Utxo) where
  unfoldable pub in_order : FilterOptions → List Utxo → List Utxo
  in_order options us = elim options.order_by_value [ none ↦ us | some order ↦ order_by order us ]

  unfoldable pub select_utxos : Clock → Store → FilterOptions → Result (List Utxo)
  select_utxos clock s options =
      if is_set options.max_amount && is_set options.target_amount
      then err invalid_amount
      else ok (select_loop clock s options (in_order options s.utxos) 0 0)

  unfoldable pub storage_select_utxos :
      Clock → Option ℕ → Store → FilterOptions → Result (List Utxo)
  storage_select_utxos clock reward_lock s options =
      select_utxos clock s (storage_options s reward_lock options)
