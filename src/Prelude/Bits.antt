-- ===== src/Prelude/Bits.antt =====
-- Bit masks on bytes, and `|` of a number with one that is shifted past it, as arithmetic.
use Prim.Native.Nat.{ℕ, zero, suc, ◌+◌, ◌*◌, ◌/◌, ◌%◌, ◌^◌, ◌≤◌, ◌<◌, max, bit_and, bit_or}
use Prim.Native.Nat.{digits, bit_or-bitwise}
use mathlib.Core.Path.{◌≡◌, refl, ap}
use mathlib.Core.Bool.{Bool, true, ◌&&◌}
use native.Mathlib.Nat.{pow-suc}
use native.Mathlib.Omega.{arith}
use hathor_wallet_lib.Prelude.Tests.{◌==◌, ==_iff}

-- A test of every number below a bound.
holds_below : ℕ → (ℕ → Bool) → Bool
holds_below zero p = true
holds_below (suc n) p = p n && holds_below n p

holds_below_sound : (n : ℕ) (p : ℕ → Bool) (x : ℕ) → holds_below n p ≡ true → x < n → p x ≡ true
unfolding holds_below
holds_below_sound zero p x h lt = absurd (omega arith)
holds_below_sound (suc n) p x h lt = ground (arith, holds_below_sound n p x)

module _ (f g : ℕ → ℕ) (n : ℕ) where
  by_table : holds_below n (λ x. f x == g x) ≡ true → (x : ℕ) → x < n → f x ≡ g x
  by_table h x lt = (==_iff _ _).0 (holds_below_sound n (λ x. f x == g x) x h lt)

pub byte-low_seven : (b : ℕ) → b < 256 → bit_and b 0x7f ≡ b % 128
unfolding holds_below
byte-low_seven = by_table (λ b. bit_and b 0x7f) (λ b. b % 128) 256 refl

pub byte-top_bit : (b : ℕ) → b < 256 → bit_and b 0x80 ≡ b / 128 * 128
unfolding holds_below
byte-top_bit = by_table (λ b. bit_and b 0x80) (λ b. b / 128 * 128) 256 refl

pub byte-set_top_bit : (b : ℕ) → b < 128 → bit_or b 0x80 ≡ b + 128
unfolding holds_below
byte-set_top_bit = by_table (λ b. bit_or b 0x80) (λ b. b + 128) 128 refl

pub byte-sign_bit : (b : ℕ) → b < 256 → bit_and b 0x40 ≡ b / 64 % 2 * 64
unfolding holds_below
byte-sign_bit = by_table (λ b. bit_and b 0x40) (λ b. b / 64 % 2 * 64) 256 refl

-- `a | b` with `b` a bound on both the fuel and nothing else: the lowest digit and the others.
abbrev or_digits : ℕ → ℕ → ℕ → ℕ
or_digits n a b = digits (λ y. y) max n a b

or_digits_enough : (n m a b : ℕ) → a ≤ n → a ≤ m → or_digits n a b ≡ or_digits m a b
or_digits_enough zero zero a b p q = refl
or_digits_enough zero (suc m) zero b p q = refl
or_digits_enough zero (suc m) (suc a) b p q = absurd (omega arith)
or_digits_enough (suc n) zero zero b p q = refl
or_digits_enough (suc n) zero (suc a) b p q = absurd (omega arith)
or_digits_enough (suc n) (suc m) zero b p q = refl
or_digits_enough (suc n) (suc m) (suc a) b p q =
    omega (arith, or_digits_enough n m (suc a / 2) (b / 2) (omega arith) (omega arith))

bit_or_digit : (a b : ℕ) → bit_or a b ≡ bit_or (a / 2) (b / 2) * 2 + max (a % 2) (b % 2)
bit_or_digit zero b = omega (arith, bit_or-bitwise 0 b, bit_or-bitwise 0 (b / 2))
bit_or_digit (suc a) b = omega (
  arith,
  bit_or-bitwise (suc a) b,
  bit_or-bitwise (suc a / 2) (b / 2),
  or_digits_enough a (suc a / 2) (suc a / 2) (b / 2) (omega arith) (omega arith),
)

zero-bit_or : (b : ℕ) → bit_or 0 b ≡ b
zero-bit_or b = bit_or-bitwise 0 b

double_shift : (q k : ℕ) → q * 2 ^ suc k ≡ 2 * (q * 2 ^ k)
double_shift q k = omega (arith, ap (λ (t : ℕ). q * t) (pow-suc 2 k))

-- `r | (q << k)` is a sum where `r` has at most `k` bits.
pub bit_or_shifted : (k r q : ℕ) → r < 2 ^ k → bit_or r (q * 2 ^ k) ≡ r + q * 2 ^ k
bit_or_shifted zero zero q h = omega (arith, zero-bit_or (q * 2 ^ 0))
bit_or_shifted zero (suc r) q h = absurd (omega arith)
bit_or_shifted (suc k) r q h = ground (
  arith,
  bit_or_digit r (q * 2 ^ suc k),
  double_shift q k,
  pow-suc 2 k,
  bit_or_shifted k (r / 2) q (omega (arith, pow-suc 2 k)),
)
