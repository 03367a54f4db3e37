-- ===== src/Wallet/Payment.antt =====
-- src/utils/utxo.ts over src/storage: fastUtxoSelection and bestUtxoSelection, from the utxos of the
-- memory store to the selection.
use hathor_wallet_lib.Prelude.{
  ℕ, ◌+◌, ◌<◌, ◌≡◌, refl, ◌∙◌, ap, arith, Bool, true, false, ◌&&◌, not, Option, none, some, List,
  [], ◌∷◌, ◌==◌, if◌then◌else◌, ltb, Bool-cases, inl, inr,
}
use hathor_wallet_lib.Result.{Result, ok, ◌>>=◌}
use hathor_wallet_lib.Utxo.{Selection, fast_utxo_selection, best_utxo_selection}
use hathor_wallet_lib.Utxo.Outcome.{IsOutcome}
use hathor_wallet_lib.Utxo.Best.{best_utxo_selection-IsOutcome}
use hathor_wallet_lib.Wallet.Target.{take_until, fast_until-IsOutcome}
use hathor_wallet_lib.Wallet.Maps.{Name}
use hathor_wallet_lib.Wallet.Types.{Utxo}
use hathor_wallet_lib.Wallet.Rules.{Clock, or_null}
use hathor_wallet_lib.Wallet.Store.{Store, is_utxo_selected_as_input}
use hathor_wallet_lib.Wallet.Select.{
  next_sum, Order, descending, FilterOptions, is_utxo_locked, is_authority_match, effective_address,
  passes, is_enough, select_loop, select_utxos, storage_select_utxos, storage_options, in_order,
}

-- The options of the two functions; the target is 0, which counts as none, or the amount.
abbrev selection_options : Name → Option ℕ → FilterOptions
selection_options token target = record {
  token = some token;
  authorities = 0;
  max_utxos = none;
  filter_address = none;
  target_amount = target;
  max_amount = none;
  amount_smaller_than = none;
  amount_bigger_than = none;
  only_available_utxos = true;
  filter_method = λ _. true;
  reward_lock = none;
  order_by_value = some descending;
  only_shielded = none;
}

module _ (order_by : Order → List Utxo → List Utxo) (clock : Clock) (reward_lock : Option ℕ)
    (s : Store) where
  unfoldable pub best_from_storage : Name → ℕ → Result (Selection Utxo)
  best_from_storage token amount =
      storage_select_utxos order_by clock reward_lock s (selection_options token none) >>= λ us.
      ok (best_utxo_selection (λ u. u.value) us amount)

  unfoldable pub fast_from_storage : Name → ℕ → Result (Selection Utxo)
  fast_from_storage token amount =
      storage_select_utxos order_by clock reward_lock s (selection_options token (some amount))
      >>= λ us. ok (fast_utxo_selection (λ u. u.value) us amount)

module _ (clock : Clock) (reward_lock : Option ℕ) (s : Store) where
  -- The reward lock of the full node's version, where it has one.
  abbrev pub lock_of : Option ℕ
  lock_of = elim (or_null reward_lock) [ none ↦ none | some r ↦ some r ]

  -- Funds of the token, not locked and not selected for another transaction.
  unfoldable pub is_spendable : Name → Utxo → Bool
  is_spendable token u =
      not (is_utxo_locked clock lock_of u)
      && not (is_utxo_selected_as_input s u.id)
      && u.authorities == 0
      && u.token == token

  unfoldable pub spendable : Name → List Utxo → List Utxo
  spendable token [] = []
  spendable token (u ∷ us) =
      if is_spendable token u then u ∷ spendable token us else spendable token us

  tests_agree :
      (locked selected no_authority same_token : Bool)
      → (not (true && locked)
            && (not selected && true)
            && true
            && true
            && true
            && true
            && no_authority
            && same_token)
          && true
        ≡ (not locked && not selected && no_authority && same_token)
  tests_agree locked selected no_authority same_token = ground arith

  passes-is_spendable :
      (token : Name) (target : Option ℕ) (u : Utxo)
      → (passes clock s (storage_options s reward_lock (selection_options token target)) u && true)
        ≡ is_spendable token u
  unfolding is_spendable passes is_authority_match effective_address
  passes-is_spendable token target u =
      tests_agree (is_utxo_locked clock lock_of u) (is_utxo_selected_as_input s u.id)
        (u.authorities == 0) (u.token == token)

  select_loop-spendable :
      (token : Name) (us : List Utxo) (sum num : ℕ)
      → select_loop clock s
          (storage_options s reward_lock (selection_options token none))
          us
          sum
          num
        ≡ spendable token us
  unfolding select_loop spendable is_enough
  select_loop-spendable token [] sum num = refl
  select_loop-spendable token (u ∷ us) sum num =
      rw (select_loop, passes-is_spendable token none u)
        (elim (Bool-cases (is_spendable token u)) [
          | inl e ↦ rw e (ap (λ l. u ∷ l) (select_loop-spendable token us _ _))
          | inr e ↦ rw e (select_loop-spendable token us sum num)
        ])

first_false : (a b c d : Bool) → (not a && b && c && d) ≡ true → a ≡ false
first_false a b c d h = ground arith

end_or_go_on :
    (b : Bool) (x y : List Utxo)
    → x ≡ y
    → elim (not b) as (λ _. List Utxo) [ true ↦ [] | false ↦ x ] ≡ (if b then y else [])
end_or_go_on true x y h = h
end_or_go_on false x y h = refl

is_enough-target :
    (t sum num : ℕ) (token : Name) (s : Store) (reward_lock : Option ℕ)
    → 0 < t
    → is_enough (storage_options s reward_lock (selection_options token (some t))) sum num
      ≡ not (ltb sum t)
unfolding is_enough
is_enough-target t sum num token s reward_lock h = ground arith

module _ (clock : Clock) (reward_lock : Option ℕ) (s : Store) (token : Name) (t : ℕ)
    (t-positive : 0 < t) where
  next_sum-spendable :
      (u : Utxo) (sum : ℕ)
      → is_spendable clock reward_lock s token u ≡ true
      → next_sum clock (storage_options s reward_lock (selection_options token (some t))) u sum
        ≡ sum + u.value
  unfolding is_spendable next_sum
  next_sum-spendable u sum e =
      rw
        (first_false (is_utxo_locked clock (lock_of clock reward_lock s) u)
          (not (is_utxo_selected_as_input s u.id)) (u.authorities == 0) (u.token == token) e)
        refl

  -- With a target, the loop takes the spendable utxos until they reach it.
  select_until :
      (us : List Utxo) (sum num : ℕ)
      → select_loop clock s
          (storage_options s reward_lock (selection_options token (some t)))
          us
          sum
          num
        ≡ take_until t sum (spendable clock reward_lock s token us)
  unfolding select_loop spendable take_until
  select_until [] sum num = refl
  select_until (u ∷ us) sum num =
      let options = storage_options s reward_lock (selection_options token (some t)) in
      let round = λ (sum' : ℕ). u ∷ (elim (is_enough options sum' (num + 1)) as (λ _. List Utxo) [
        | true ↦ []
        | false ↦ select_loop clock s options us sum' (num + 1)
      ]) in
      rw (select_loop, passes-is_spendable clock reward_lock s token (some t) u)
        (elim (Bool-cases (is_spendable clock reward_lock s token u)) [
          | inl e ↦ rw e (
              ap round (next_sum-spendable u sum e)
              ∙ ap
                  (λ b. u ∷ (elim b as (λ _. List Utxo) [
                    | true ↦ []
                    | false ↦ select_loop clock s options us (sum + u.value) (num + 1)
                  ]))
                  (is_enough-target t (sum + u.value) (num + 1) token s reward_lock t-positive)
              ∙ ap (λ l. u ∷ l)
                  (end_or_go_on (ltb (sum + u.value) t) _ _
                    (select_until us (sum + u.value) (num + 1))))
          | inr e ↦ rw e (select_until us sum num)
        ])

module _ (order_by : Order → List Utxo → List Utxo) (clock : Clock) (reward_lock : Option ℕ)
    (s : Store) where
  -- bestUtxoSelection over the memory store, in whatever order `orderBy` puts the utxos, always returns:
  -- utxos of the token that are no authorities, not locked and not selected for another transaction, none
  -- of them twice, that hold the amount and are added up right; or, when all such utxos hold less, none of
  -- them and their sum.
  pub best_from_storage-IsOutcome :
      (token : Name) (amount : ℕ)
      → (r : Selection Utxo) × (best_from_storage order_by clock reward_lock s token amount ≡ ok r)
        × IsOutcome
            (λ u. u.value)
            amount
            (spendable clock reward_lock s token (order_by descending s.utxos))
            r
  unfolding best_from_storage storage_select_utxos select_utxos in_order
  best_from_storage-IsOutcome token amount =
      let us = spendable clock reward_lock s token (order_by descending s.utxos) in
      (
        best_utxo_selection (λ u. u.value) us amount,
        ap (λ l. ok (best_utxo_selection (λ (u : Utxo). u.value) l amount))
            (select_loop-spendable clock reward_lock s token (order_by descending s.utxos) 0 0),
        best_utxo_selection-IsOutcome (λ u. u.value) us amount,
      )

  -- fastUtxoSelection over the memory store, for an amount above 0 and in whatever order `orderBy` puts the
  -- utxos, always returns: utxos of the token that are no authorities, not locked and not selected for
  -- another transaction, none of them twice, that hold the amount and are added up right; or, when all such
  -- utxos hold less, none of them and their sum.
  pub fast_from_storage-IsOutcome :
      (token : Name) (amount : ℕ)
      → 0 < amount
      → (r : Selection Utxo) × (fast_from_storage order_by clock reward_lock s token amount ≡ ok r)
        × IsOutcome
            (λ u. u.value)
            amount
            (spendable clock reward_lock s token (order_by descending s.utxos))
            r
  unfolding fast_from_storage storage_select_utxos select_utxos in_order
  fast_from_storage-IsOutcome token amount positive =
      let us = spendable clock reward_lock s token (order_by descending s.utxos) in
      (
        fast_utxo_selection (λ u. u.value) (take_until amount 0 us) amount,
        ap (λ l. ok (fast_utxo_selection (λ (u : Utxo). u.value) l amount))
            (select_until clock reward_lock s token amount positive (order_by descending s.utxos) 0
              0),
        fast_until-IsOutcome amount us,
      )
