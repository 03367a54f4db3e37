-- ===== src/Utxo/Outcome.antt =====
-- What a selection of utxos promises.
use hathor_wallet_lib.Prelude.{ℕ, ◌+◌, ◌≤◌, ◌<◌, ◌≡◌, arith, ◌⊎◌, none, some, List, [], ◌∷◌, ◌++◌}
use hathor_wallet_lib.Utxo.{Selection}

-- Elements of the second list, in its order, none of them twice.
pub data IsSublist {A : Type 0} : List A → List A → Type 0 where
  done : (ys : List A) → IsSublist [] ys
  keep : (x : A) (xs ys : List A) → IsSublist xs ys → IsSublist (x ∷ xs) (x ∷ ys)
  skip : (y : A) (xs ys : List A) → IsSublist xs ys → IsSublist xs (y ∷ ys)

pub IsSublist-append : {A : Type 0} (xs ys zs : List A) → IsSublist xs ys → IsSublist xs (ys ++ zs)
IsSublist-append _ _ zs (done ys) = done (ys ++ zs)
IsSublist-append _ _ zs (keep x xs ys h) = keep x xs (ys ++ zs) (IsSublist-append xs ys zs h)
IsSublist-append _ _ zs (skip y xs ys h) = skip y xs (ys ++ zs) (IsSublist-append xs ys zs h)

pub prefix-IsSublist : {A : Type 0} (xs ys : List A) → IsSublist xs (xs ++ ys)
prefix-IsSublist [] ys = done ys
prefix-IsSublist (x ∷ xs) ys = keep x xs (xs ++ ys) (prefix-IsSublist xs ys)

pub IsSublist-refl : {A : Type 0} (xs : List A) → IsSublist xs xs
IsSublist-refl [] = done []
IsSublist-refl (x ∷ xs) = keep x xs xs (IsSublist-refl xs)

pub middle-IsSublist :
    {A : Type 0} (xs : List A) (x : A) (ys : List A) → IsSublist (x ∷ []) (xs ++ x ∷ ys)
middle-IsSublist [] x ys = keep x [] ys (done ys)
middle-IsSublist (z ∷ xs) x ys = skip z (x ∷ []) (xs ++ x ∷ ys) (middle-IsSublist xs x ys)

module _ {Utxo : Type 0} (value : Utxo → ℕ) where
  unfoldable pub total : List Utxo → ℕ
  total [] = 0
  total (u ∷ us) = value u + total us

  pub total-append : (us vs : List Utxo) → total (us ++ vs) ≡ total us + total vs
  unfolding total
  total-append [] vs = omega arith
  total-append (u ∷ us) vs = omega (arith, total-append us vs)

  -- Either utxos of `stored` that hold the amount and are added up right, or, when all that is stored
  -- holds less, nothing and the sum of what is stored.
  abbrev pub IsOutcome : ℕ → List Utxo → Selection Utxo → Type 0
  IsOutcome amount stored r =
      ((r.available ≡ none)
        × (amount ≤ r.amount)
        × (total r.utxos ≡ r.amount)
        × IsSublist r.utxos stored)
      ⊎ ((total stored < amount)
          × (r ≡ record { utxos = []; amount = 0; available = some (total stored) }))
