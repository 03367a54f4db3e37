-- ===== src/Tokens/Pay.antt =====
-- What prepareMintTxData and prepareMeltTxData of src/utils/tokens.ts share: inputs of a token that pay an
-- amount, with the change, and the outputs of data. The algorithm that selects utxos is an argument.
use hathor_wallet_lib.Prelude.{
  ℕ, ◌+◌, ◌-◌, ◌≡◌, ◌≢◌, refl, arith, Bool, true, false, Option, none, some, List, [], ◌∷◌, ◌++◌,
  map, ltb, ◌==◌, if◌then◌else◌, Bool-cases, inl, inr, length, All,
}
use hathor_wallet_lib.Result.{
  Error, Result, ok, ◌>>=◌, ◌>>◌, throw_if, insufficient_funds, address_not_mine, ok_inj, >>=-eq-ok,
}
use hathor_wallet_lib.Utxo.{Selection}
use hathor_wallet_lib.Utxo.Outcome.{total}
use hathor_wallet_lib.Wallet.Maps.{Name, has}
use hathor_wallet_lib.Wallet.Types.{Utxo}
use hathor_wallet_lib.Wallet.Scan.{Book}
use hathor_wallet_lib.Wallet.Cursor.{get_current_address}
use hathor_wallet_lib.Wallet.Select.{native_token}
use hathor_wallet_lib.Tokens.Data.{
  DataInput, DataOutput, get_data_input_from_utxo, total_in, total_out, total_out-append,
}

-- getCurrentAddress of storage.ts, without options
unfoldable pub current_address : Book → Result Name
current_address b = (get_current_address false b.legacy b).0

-- getChangeAddress of storage.ts
unfoldable pub get_change_address : Option Name → Book → Result Name
get_change_address (some a) b =
    throw_if (if has a b.addresses then false else true) address_not_mine >> ok a
get_change_address none b = current_address b

abbrev pub Select : Type 0
Select = Name → ℕ → Result (Selection Utxo)

abbrev pub change_output : Name → Name → ℕ → DataOutput
change_output address t value = record {
  address = some address;
  value = value;
  authorities = 0;
  token = some t;
  timelock = none;
  is_change = true;
  data_string = none;
}

-- The change, at the address as it is given: which script address stands for it is left out.
abbrev change_of : Option Name → Book → Name → ℕ → ℕ → Result (List DataOutput)
change_of change book t n found =
    if ltb n found
    then (get_change_address change book >>= λ a. ok (change_output a t (found - n) ∷ []))
    else ok []

-- Inputs of the token that hold the amount, and the change.
unfoldable pub pay :
    Select → Option Name → Book → Name → ℕ → Result (List DataInput × List DataOutput)
pay select change book t n = do
  r ← select t n
  throw_if (ltb r.amount n) insufficient_funds
  os ← change_of change book t n r.amount
  ok (map get_data_input_from_utxo r.utxos, os)

-- `if (requiredAmount > 0)`
unfoldable pub pay_required :
    Select → Option Name → Book → Name → ℕ → Result (List DataInput × List DataOutput)
pay_required select change book t n = if n == 0 then ok ([], []) else pay select change book t n

abbrev pub data_output : Name → DataOutput
data_output text = record {
  address = none;
  value = 1;
  authorities = 0;
  token = some native_token;
  timelock = none;
  is_change = false;
  data_string = some text;
}

-- The `for` over the data strings, with `unshift` or `push`.
unfoldable pub add_data : Bool → List Name → List DataOutput → List DataOutput
add_data unshift [] os = os
add_data unshift (d ∷ ds) os =
    add_data unshift ds (if unshift then data_output d ∷ os else os ++ data_output d ∷ [])

pub total_out-add_data :
    (t : Name) (unshift : Bool) (ds : List Name) (os : List DataOutput)
    → total_out t (add_data unshift ds os)
      ≡ total_out t os + (if native_token == t then length ds else 0)
unfolding add_data total_out
total_out-add_data t unshift [] os = ground arith
total_out-add_data t true (d ∷ ds) os =
    ground (arith, total_out-add_data t true ds (data_output d ∷ os))
total_out-add_data t false (d ∷ ds) os = ground (
  arith,
  total_out-add_data t false ds (os ++ data_output d ∷ []),
  total_out-append t os (data_output d ∷ []),
)

-- What a selection promises: utxos of the token, no authorities, that are added up right.
pub record IsSelection (t : Name) (r : Selection Utxo) : Type 0 where
  pub added_up : total (λ (u : Utxo). u.value) r.utxos ≡ r.amount
  pub of_token : All (λ u. (u.token ≡ t) × (u.authorities ≡ 0)) r.utxos

total_in-map :
    (t : Name) (us : List Utxo)
    → All (λ u. (u.token ≡ t) × (u.authorities ≡ 0)) us
    → total_in t (map get_data_input_from_utxo us) ≡ total (λ (u : Utxo). u.value) us
unfolding total_in total get_data_input_from_utxo
total_in-map t [] h = refl
total_in-map t (u ∷ us) h = ground (arith, h.0, total_in-map t us h.1)

total_in-map_other :
    (t v : Name) (us : List Utxo)
    → v ≢ t
    → All (λ u. (u.token ≡ t) × (u.authorities ≡ 0)) us
    → total_in v (map get_data_input_from_utxo us) ≡ 0
unfolding total_in get_data_input_from_utxo
total_in-map_other t v [] n h = refl
total_in-map_other t v (u ∷ us) n h = ground (arith, n, h.0, total_in-map_other t v us n h.1)

-- The inputs hold the amount and the change, and nothing of another token.
pub record Pays (t : Name) (n : ℕ) (p : List DataInput × List DataOutput) : Type 0 where
  pub paid : total_in t (p.0) ≡ n + total_out t (p.1)
  pub no_other_in : (v : Name) → v ≢ t → total_in v (p.0) ≡ 0
  pub no_other_out : (v : Name) → v ≢ t → total_out v (p.1) ≡ 0

-- What the change is worth, in any token.
change_of-total :
    (change : Option Name) (book : Book) (t v : Name) (n found : ℕ) (os : List DataOutput)
    → change_of change book t n found ≡ ok os
    → total_out v os ≡ (if t == v then found - n else 0)
unfolding total_out
change_of-total change book t v n found os h = elim (Bool-cases (ltb n found)) [
  | inl more ↦
      (let (a, e, h') = >>=-eq-ok (get_change_address change book) _ (rw more at h) in
        rw (← ok_inj h') (ground arith))
  | inr no_more ↦ rw (← ok_inj (rw no_more at h)) (ground (arith, no_more))
]

pub throw_if-ok : (b : Bool) (e : Error) {u : Unit {0}} → throw_if b e ≡ ok u → b ≡ false
throw_if-ok true e h = cc
throw_if-ok false e h = refl

module _ (select : Select)
    (sound : (t : Name) (n : ℕ) (r : Selection Utxo) → select t n ≡ ok r → IsSelection t r)
    (change : Option Name) (book : Book) (t : Name) (n : ℕ) where
  Pays-selected :
      (r : Selection Utxo) (os : List DataOutput)
      → IsSelection t r
      → ltb r.amount n ≡ false
      → ((v : Name) → total_out v os ≡ (if t == v then r.amount - n else 0))
      → Pays t n (map get_data_input_from_utxo r.utxos, os)
  Pays-selected r os s le c = record {
    paid = ground (arith, total_in-map t r.utxos s.of_token, s.added_up, le, c t);
    no_other_in = λ v other. total_in-map_other t v r.utxos other s.of_token;
    no_other_out = λ v other. ground (arith, other, c v);
  }

  pub pay-Pays :
      (p : List DataInput × List DataOutput) → pay select change book t n ≡ ok p → Pays t n p
  unfolding pay
  pay-Pays p h =
      let (r, e, h1) = >>=-eq-ok (select t n) _ h in
      let (u, enough, h2) = >>=-eq-ok (throw_if (ltb r.amount n) insufficient_funds) _ h1 in
      let (os, e', h3) = >>=-eq-ok (change_of change book t n r.amount) _ h2 in
      rw (← ok_inj h3) (
        Pays-selected r os (sound t n r e) (throw_if-ok _ _ enough)
          (λ v. change_of-total change book t v n r.amount os e'))

  pub pay_required-Pays :
      (p : List DataInput × List DataOutput)
      → pay_required select change book t n ≡ ok p
      → Pays t n p
  unfolding pay_required total_in total_out
  pay_required-Pays p h = elim (Bool-cases (n == 0)) [
    | inl none_needed ↦ rw (← ok_inj (rw none_needed at h)) (record {
      paid = ground (arith, none_needed);
      no_other_in = λ v other. refl;
      no_other_out = λ v other. refl;
    })
    | inr some_needed ↦ pay-Pays p (rw some_needed at h)
  ]
