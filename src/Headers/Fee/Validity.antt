-- ===== src/Headers/Fee/Validity.antt =====
-- What FeeHeader.validate accepts.
use hathor_wallet_lib.Prelude.{◌≤◌, ◌≡◌, ◌≢◌, ◌↔◌, refl, arith, false, List, [], ◌∷◌, length, All}
use hathor_wallet_lib.Prelude.Int.{ℤ, pos, ◌≤ℤ◌, eq_ℤ→eq, eq_ℤ_refl}
use hathor_wallet_lib.Result.{ok}
use hathor_wallet_lib.Headers.Fee.{
  FeeEntry, seen_has, validate_entries, validate, max_fee_header_entries,
}

-- An index that no element of a list is.
abbrev pub IsFresh : ℤ → List ℤ → Type 0
IsFresh i = All (λ s. s ≢ i)

-- Entries whose indexes are not negative, are not in `seen`, and do not repeat, with positive amounts.
abbrev pub AreValid : List ℤ → List FeeEntry → Type 0
AreValid seen [] = Unit
AreValid seen (e ∷ es) =
    IsFresh e.token_index seen
    × (pos 0 ≤ℤ e.token_index)
    × (pos 1 ≤ℤ e.amount)
    × AreValid (e.token_index ∷ seen) es

seen_has-false : (seen : List ℤ) (i : ℤ) → seen_has seen i ≡ false → IsFresh i seen
unfolding seen_has
seen_has-false [] i h = tt
seen_has-false (s ∷ seen) i h =
    (λ e. ground (arith, eq_ℤ_refl i), seen_has-false seen i (ground arith))

false-seen_has : (seen : List ℤ) (i : ℤ) → IsFresh i seen → seen_has seen i ≡ false
unfolding seen_has
false-seen_has [] i h = refl
false-seen_has (s ∷ seen) i (n, h) = ground (arith, eq_ℤ→eq s i, false-seen_has seen i h)

validate_entries→AreValid :
    (seen : List ℤ) (es : List FeeEntry) → validate_entries seen es ≡ ok tt → AreValid seen es
unfolding validate_entries
validate_entries→AreValid seen [] h = tt
validate_entries→AreValid seen (e ∷ es) h = (
  seen_has-false seen e.token_index (ground arith),
  ground arith,
  ground arith,
  validate_entries→AreValid (e.token_index ∷ seen) es (ground arith),
)

AreValid→validate_entries :
    (seen : List ℤ) (es : List FeeEntry) → AreValid seen es → validate_entries seen es ≡ ok tt
unfolding validate_entries
AreValid→validate_entries seen [] h = refl
AreValid→validate_entries seen (e ∷ es) (f, i, a, h) = ground (
  arith,
  false-seen_has seen e.token_index f,
  AreValid→validate_entries (e.token_index ∷ seen) es h,
)

-- validate accepts a fee header exactly when it has at most 16 entries, no token index is negative,
-- no two are equal, and every amount is positive.
pub validate_iff :
    (es : List FeeEntry)
    → (validate es ≡ ok tt) ↔ ((length es ≤ max_fee_header_entries) × AreValid [] es)
unfolding validate
validate_iff es = (
  λ h. (ground arith, validate_entries→AreValid [] es (ground arith)),
  λ h. ground (arith, AreValid→validate_entries [] es h.1),
)
