-- ===== src/Buffer/Ints.antt =====
-- The integers of src/utils/buffer.ts: what is written is read back.
use native.Mathlib.Nat.{mul_assoc, mul_comm, mul-le-mul_right, pow-suc, one-le-pow, mod-eq_of_lt}
use hathor_wallet_lib.Prelude.{
  ℕ, zero, suc, ◌+◌, ◌-◌, ◌*◌, ◌/◌, ◌%◌, ◌^◌, ◌≤◌, ◌<◌, ◌≡◌, refl, ap, ◌∙◌, arith, true, false, [],
  ◌∷◌, ◌++◌, ◌⊎◌, inl, inr, if◌then◌else◌, length, length-append, take-append, drop-append, ltb,
  All,
}
use hathor_wallet_lib.Prelude.Int.{ℤ, pos, negsuc, ◌≤ℤ◌}
use hathor_wallet_lib.Result.{ok}
use hathor_wallet_lib.Buffer.{
  Bytes, IsByte, write_uint, read_uint_from, read_uint, pattern_of, integer_of, int_to_bytes,
  signed_int_to_bytes, unpack_len, unpack_to_int, unpack_to_big_int,
}

pub length-write_uint : (n v : ℕ) → length (write_uint n v) ≡ n
unfolding write_uint
length-write_uint zero v = refl
length-write_uint (suc n) v =
    omega
      (arith, length-append (write_uint n (v / 256)) (v % 256 ∷ []), length-write_uint n (v / 256))

read_uint_from-snoc :
    (xs : Bytes) (acc b : ℕ) → read_uint_from acc (xs ++ b ∷ []) ≡ read_uint_from acc xs * 256 + b
unfolding read_uint_from
read_uint_from-snoc [] acc b = refl
read_uint_from-snoc (x ∷ xs) acc b = read_uint_from-snoc xs (acc * 256 + x) b

-- Big-endian bytes hold every number that fits them.
pub read_uint-write_uint : (n v : ℕ) → v < 256 ^ n → read_uint (write_uint n v) ≡ v
unfolding read_uint write_uint
read_uint-write_uint zero v h = omega arith
read_uint-write_uint (suc n) v h = omega (
  arith,
  read_uint_from-snoc (write_uint n (v / 256)) 0 (v % 256),
  read_uint-write_uint n (v / 256) (omega (arith, pow-suc 256 n)),
)

shifted_le : (acc b p : ℕ) → b < 256 → suc (acc * 256 + b) * p ≤ suc acc * (p * 256)
shifted_le acc b p h =
    let m : suc (acc * 256 + b) * p ≤ (suc acc * 256) * p = mul-le-mul_right p (omega arith) in
    let swapped : (suc acc * 256) * p ≡ suc acc * (p * 256) =
      mul_assoc (suc acc) 256 p ∙ ap (λ x. suc acc * x) (mul_comm 256 p) in
    rw (← swapped) m

read_uint_from-lt :
    (bs : Bytes) (acc : ℕ) → All IsByte bs → read_uint_from acc bs < suc acc * 256 ^ length bs
unfolding read_uint_from
read_uint_from-lt [] acc h = omega arith
read_uint_from-lt (b ∷ bs) acc (hb, h) =
    let r = read_uint_from-lt bs (acc * 256 + b) h in
    let s = shifted_le acc b (256 ^ length bs) hb in
    rw (pow-suc 256 (length bs)) (omega (arith, r, s))

-- Bytes read as a number below the power that they can write.
pub read_uint-lt : (bs : Bytes) → All IsByte bs → read_uint bs < 256 ^ length bs
unfolding read_uint
read_uint-lt bs h = omega (arith, read_uint_from-lt bs 0 h)

All-append : (xs ys : Bytes) → All IsByte xs → All IsByte ys → All IsByte (xs ++ ys)
All-append [] ys h k = k
All-append (x ∷ xs) ys (hx, h) k = (hx, All-append xs ys h k)

pub write_uint-IsByte : (n v : ℕ) → All IsByte (write_uint n v)
unfolding write_uint
write_uint-IsByte zero v = tt
write_uint-IsByte (suc n) v =
    All-append (write_uint n (v / 256)) (v % 256 ∷ []) (write_uint-IsByte n (v / 256)) (omega arith)

-- Slicing off what was put in front.
pub unpack_len-append :
    (n : ℕ) (xs rest : Bytes) → length xs ≡ n → unpack_len n (xs ++ rest) ≡ ok (xs, rest)
unfolding unpack_len
unpack_len-append n xs rest h =
    ground (arith, length-append xs rest, take-append n xs rest h, drop-append n xs rest h)

-- The sizes that the fixed-width functions serve.
abbrev pub IsWidth : ℕ → Type 0
IsWidth n = (n ≡ 1) ⊎ (n ≡ 2) ⊎ (n ≡ 4)

module _ (n : ℕ) (xs rest : Bytes) (size : length xs ≡ n) where
  pub unpack_to_int-signed_append :
      IsWidth n → unpack_to_int n true (xs ++ rest) ≡ ok (integer_of n (read_uint xs), rest)
  unfolding unpack_to_int
  unpack_to_int-signed_append w =
      ground (arith, length-append xs rest, take-append n xs rest size, drop-append n xs rest size)

  pub unpack_to_int-append :
      IsWidth n → unpack_to_int n false (xs ++ rest) ≡ ok (pos (read_uint xs), rest)
  unfolding unpack_to_int
  unpack_to_int-append w =
      ground (arith, length-append xs rest, take-append n xs rest size, drop-append n xs rest size)

pub unpack_to_big_int-append :
    (xs rest : Bytes)
    → length xs ≡ 8
    → unpack_to_big_int 8 true (xs ++ rest) ≡ ok (integer_of 8 (read_uint xs), rest)
unfolding unpack_to_big_int
unpack_to_big_int-append xs rest size =
    ground (arith, length-append xs rest, take-append 8 xs rest size, drop-append 8 xs rest size)

int_to_bytes-eq : (n : ℕ) (v : ℤ) → IsWidth n → int_to_bytes v n ≡ write_uint n (pattern_of n v)
unfolding int_to_bytes
int_to_bytes-eq n v (inl e) = rw e
int_to_bytes-eq n v (inr (inl e)) = rw e
int_to_bytes-eq n v (inr (inr e)) = rw e

signed_int_to_bytes-eq :
    (n : ℕ) (v : ℤ) → IsWidth n → signed_int_to_bytes v n ≡ write_uint n (pattern_of n v)
unfolding signed_int_to_bytes
signed_int_to_bytes-eq n v (inl e) = rw e
signed_int_to_bytes-eq n v (inr (inl e)) = rw e
signed_int_to_bytes-eq n v (inr (inr e)) = rw e

pub length-int_to_bytes : (n : ℕ) (v : ℤ) → IsWidth n → length (int_to_bytes v n) ≡ n
length-int_to_bytes n v w = rw (int_to_bytes-eq n v w) (length-write_uint n (pattern_of n v))

pub length-signed_int_to_bytes : (n : ℕ) (v : ℤ) → IsWidth n → length (signed_int_to_bytes v n) ≡ n
length-signed_int_to_bytes n v w =
    rw (signed_int_to_bytes-eq n v w) (length-write_uint n (pattern_of n v))

-- An unsigned integer of 1, 2 or 4 bytes is read back from the front of a buffer.
pub unpack_to_int-int_to_bytes :
    (n v : ℕ) (rest : Bytes)
    → IsWidth n
    → v < 256 ^ n
    → unpack_to_int n false (int_to_bytes (pos v) n ++ rest) ≡ ok (pos v, rest)
unpack_to_int-int_to_bytes n v rest w h =
    rw (int_to_bytes-eq n (pos v) w, mod-eq_of_lt {n = v} {m = 256 ^ n} h)
      (unpack_to_int-append n (write_uint n v) rest (length-write_uint n v) w
        ∙ rw (read_uint-write_uint n v h))

-- The two's complement range of n bytes, of which there is at least one.
abbrev pub InRange : ℕ → ℤ → Type 0
InRange n v = (negsuc (256 ^ n / 2 - 1) ≤ℤ v) × (v ≤ℤ pos (256 ^ n / 2 - 1))

pub pattern_of-lt : (n : ℕ) (v : ℤ) → pattern_of n v < 256 ^ n
pattern_of-lt n (pos v) = omega (arith, one-le-pow n 256)
pattern_of-lt n (negsuc v) = omega (arith, one-le-pow n 256)

-- The two's complement modulo an even number.
module _ (m k : ℕ) (even : m % 2 ≡ 0) (small : k ≤ m / 2 - 1) (positive : 0 < m) where
  signed_modulo-pos : (if ltb (k % m * 2) m then pos (k % m) else negsuc (m - 1 - k % m)) ≡ pos k
  signed_modulo-pos = rw (mod-eq_of_lt {n = k} {m = m} (omega arith)) (ground arith)

  signed_modulo-negsuc :
      (if ltb ((m - 1 - k % m) * 2) m
        then pos (m - 1 - k % m)
        else negsuc (m - 1 - (m - 1 - k % m)))
      ≡ negsuc k
  signed_modulo-negsuc = rw (mod-eq_of_lt {n = k} {m = m} (omega arith)) (ground arith)

-- A pattern stands for the integer that it was made of.
pub integer_of-pattern_of :
    (n : ℕ) (v : ℤ) → 0 < n → InRange n v → integer_of n (pattern_of n v) ≡ v
integer_of-pattern_of (suc n) (pos k) p h =
    signed_modulo-pos (256 ^ suc n) k (omega (arith, pow-suc 256 n)) (omega arith)
      (omega (arith, one-le-pow (suc n) 256))
integer_of-pattern_of (suc n) (negsuc k) p h =
    signed_modulo-negsuc (256 ^ suc n) k (omega (arith, pow-suc 256 n)) (omega arith)
      (omega (arith, one-le-pow (suc n) 256))
integer_of-pattern_of zero v p h = absurd (omega arith)

-- A signed integer in range is read back, in two's complement.
pub unpack_to_int-signed_int_to_bytes :
    (n : ℕ) (v : ℤ) (rest : Bytes)
    → IsWidth n
    → InRange n v
    → unpack_to_int n true (signed_int_to_bytes v n ++ rest) ≡ ok (v, rest)
unpack_to_int-signed_int_to_bytes n v rest w h =
    let u = pattern_of n v in
    rw (signed_int_to_bytes-eq n v w) (
      unpack_to_int-signed_append n (write_uint n u) rest (length-write_uint n u) w
      ∙ rw
          (read_uint-write_uint n u (pattern_of-lt n v), integer_of-pattern_of n v (omega arith) h))
