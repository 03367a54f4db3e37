-- ===== src/Wallet/Target.antt =====
-- What a target leaves of a list of utxos, and what fastUtxoSelection (src/utils/utxo.ts) makes of the rest.
use hathor_wallet_lib.Prelude.{
  ℕ, ◌+◌, ◌<◌, ◌++◌, ◌≡◌, refl, ap, arith, List, [], ◌∷◌, if◌then◌else◌, ltb, Bool-cases, inl, inr,
}
use hathor_wallet_lib.Utxo.{Selection, fast_utxo_selection}
use hathor_wallet_lib.Utxo.Outcome.{IsOutcome, IsSublist-append, total}
use hathor_wallet_lib.Utxo.Fast.{fast_utxo_selection-IsOutcome}
use hathor_wallet_lib.Wallet.Types.{Utxo}

-- What a target leaves of a list: the utxos up to the one that reaches it.
unfoldable pub take_until : ℕ → ℕ → List Utxo → List Utxo
take_until target sum [] = []
take_until target sum (u ∷ us) =
    u ∷ (if ltb (sum + u.value) target then take_until target (sum + u.value) us else [])

pub take_until-prefix :
    (target sum : ℕ) (us : List Utxo) → (rest : List Utxo) × (take_until target sum us ++ rest ≡ us)
unfolding take_until
take_until-prefix target sum [] = ([], refl)
take_until-prefix target sum (u ∷ us) = elim (Bool-cases (ltb (sum + u.value) target)) [
  | inl e ↦
      (let (rest, h) = take_until-prefix target (sum + u.value) us in
        rw e (rest, ap (λ l. u ∷ l) h))
  | inr e ↦ rw e (us, refl)
]

-- A target that is not reached leaves the whole list.
pub take_until-all :
    (target sum : ℕ) (us : List Utxo)
    → sum + total (λ (u : Utxo). u.value) (take_until target sum us) < target
    → take_until target sum us ≡ us
unfolding take_until total
take_until-all target sum [] h = refl
take_until-all target sum (u ∷ us) h = ground (arith, take_until-all target (sum + u.value) us)

pub widen :
    (amount : ℕ) (part rest full : List Utxo) (r : Selection Utxo)
    → part ++ rest ≡ full
    → (total (λ (u : Utxo). u.value) part < amount → part ≡ full)
    → IsOutcome (λ (u : Utxo). u.value) amount part r
    → IsOutcome (λ (u : Utxo). u.value) amount full r
widen amount part rest full r h all (inl (none_left, paid, added, chosen)) =
    inl (none_left, paid, added, rw (← h) (IsSublist-append _ _ rest chosen))
widen amount part rest full r h all (inr (short, nothing)) = inr (rw (← all short) (short, nothing))

pub fast_until-IsOutcome :
    (amount : ℕ) (us : List Utxo)
    → IsOutcome
        (λ (u : Utxo). u.value)
        amount
        us
        (fast_utxo_selection (λ u. u.value) (take_until amount 0 us) amount)
fast_until-IsOutcome amount us =
    let part = take_until amount 0 us in
    let (rest, h) = take_until-prefix amount 0 us in
    widen amount part rest us _ h (λ short. take_until-all amount 0 us (omega (arith, short)))
      (fast_utxo_selection-IsOutcome (λ (u : Utxo). u.value) part amount)
