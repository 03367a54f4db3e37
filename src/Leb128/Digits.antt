-- ===== src/Leb128/Digits.antt =====
-- The bytes of a number in plain arithmetic, and the tests of the loops on them.
use native.Mathlib.Nat.{pow-suc}
use hathor_wallet_lib.Prelude.{
  ℕ, zero, suc, ◌+◌, ◌-◌, ◌*◌, ◌/◌, ◌%◌, ◌^◌, ◌≤◌, ◌<◌, ◌≡◌, refl, arith, Bool, true, false, [],
  ◌∷◌, ltb, if◌then◌else◌, length,
}
use hathor_wallet_lib.Prelude.Int.{ℤ, pos, negsuc}
use hathor_wallet_lib.Prelude.Bits.{byte-sign_bit, byte-top_bit}
use hathor_wallet_lib.Buffer.{Bytes}
use hathor_wallet_lib.Leb128.{low_seven, shift_right, is_last_byte}

-- How far a value is from the end of the loop: what the last byte holds falls below the bound.
abbrev pub size : ℤ → ℕ
size (pos n) = n
size (negsuc n) = n

-- A last byte holds seven bits of an unsigned number, six and a sign of a signed one.
abbrev pub last_bound : Bool → ℕ
last_bound true = 64
last_bound false = 128

-- An unsigned number is not negative.
abbrev pub IsEncodable : Bool → ℤ → Type 0
IsEncodable true v = Unit
IsEncodable false (pos n) = Unit
IsEncodable false (negsuc n) = ⊥

pub IsEncodable-shift_right : (s : Bool) (v : ℤ) → IsEncodable s v → IsEncodable s (shift_right v)
IsEncodable-shift_right true v h = tt
IsEncodable-shift_right false (pos n) h = tt
IsEncodable-shift_right false (negsuc n) h = h

pub low_seven-lt : (v : ℤ) → low_seven v < 128
low_seven-lt (pos n) = omega arith
low_seven-lt (negsuc n) = omega arith

pub is_last_byte-eq :
    (s : Bool) (v : ℤ)
    → IsEncodable s v
    → is_last_byte s (low_seven v) (shift_right v) ≡ ltb (size v) (last_bound s)
unfolding is_last_byte
is_last_byte-eq true (pos n) h = ground (arith, byte-sign_bit (n % 128))
is_last_byte-eq true (negsuc n) h = ground (arith, byte-sign_bit (127 - n % 128))
is_last_byte-eq false (pos n) h = ground (arith, byte-top_bit (n % 128))
is_last_byte-eq false (negsuc n) h = elim h [ ]

-- The groups of seven bits, lowest first, with the top bit set on all but the last. The number of
-- groups after the first is at most `k`.
unfoldable pub groups : Bool → ℕ → ℤ → Bytes
groups s zero v = low_seven v ∷ []
groups s (suc k) v =
    let rest = groups s k (shift_right v) in
    if ltb (size v) (last_bound s) then low_seven v ∷ [] else (low_seven v + 128) ∷ rest

pub length-groups : (s : Bool) (k : ℕ) (v : ℤ) → 0 < length (groups s k v)
unfolding groups
length-groups s zero v = omega arith
length-groups s (suc k) v = ground arith

pub size-shift_right : (v : ℤ) → size (shift_right v) ≡ size v / 128
size-shift_right (pos n) = refl
size-shift_right (negsuc n) = refl

-- A number that fits `j` groups and a last one takes no more.
pub length-groups_le :
    (s : Bool) (k j : ℕ) (v : ℤ) → size v < last_bound s * 128 ^ j → length (groups s k v) ≤ j + 1
unfolding groups
length-groups_le s zero j v h = omega arith
length-groups_le s (suc k) zero v h = ground arith
length-groups_le true (suc k) (suc j) v h =
    ground (arith, size-shift_right v, pow-suc 128 j, length-groups_le true k j (shift_right v))
length-groups_le false (suc k) (suc j) v h =
    ground (arith, size-shift_right v, pow-suc 128 j, length-groups_le false k j (shift_right v))

-- Further groups change nothing once the value is used up.
pub groups_enough :
    (s : Bool) (k j : ℕ) (v : ℤ) → size v ≤ k → size v ≤ j → groups s k v ≡ groups s j v
unfolding groups
groups_enough s zero zero v p q = refl
groups_enough true zero (suc j) v p q = ground arith
groups_enough false zero (suc j) v p q = ground arith
groups_enough true (suc k) zero v p q = ground arith
groups_enough false (suc k) zero v p q = ground arith
groups_enough s (suc k) (suc j) v p q =
    ground (arith, size-shift_right v, groups_enough s k j (shift_right v))
