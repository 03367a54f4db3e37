-- ===== src/Leb128/Decode.antt =====
-- What decodeLeb128 reads off the groups of a value.
use native.Mathlib.Nat.{div-add-mod, mod-eq_of_lt}
use native.Mathlib.Numerals.{towards_suc}
use hathor_wallet_lib.Prelude.{
  ℕ, zero, suc, ◌+◌, ◌-◌, ◌*◌, ◌/◌, ◌%◌, ◌^◌, ◌≤◌, ◌<◌, ◌≡◌, ap, ◌∙◌, arith, Bool, true, false,
  ◌&&◌, Option, none, some, ◌∷◌, ◌++◌, ltb, Bool-cases, inl, inr, if◌then◌else◌, length, bit_and,
  bit_or,
}
use hathor_wallet_lib.Prelude.Int.{ℤ, pos, negsuc, pos_part, neg_part, sub_ℕ, sub_ℕ-eq}
use hathor_wallet_lib.Prelude.Bits.{byte-low_seven, byte-top_bit, byte-sign_bit, bit_or_shifted}
use hathor_wallet_lib.Result.{ok}
use hathor_wallet_lib.Buffer.{Bytes}
use hathor_wallet_lib.Leb128.{low_seven, shift_right, exceeds, Decoded, decode_loop, or_minus_power}
use hathor_wallet_lib.Leb128.Digits.{
  size, last_bound, IsEncodable, IsEncodable-shift_right, low_seven-lt, groups, size-shift_right,
}

-- `v` shifted left by the bits already read, and added to them.
abbrev pub combine : ℕ → ℕ → ℤ → ℤ
combine result power v = sub_ℕ (result + pos_part v * power) (neg_part v * power)

shift_seven : (s : ℕ) → 2 ^ (s + 7) ≡ 128 * 2 ^ s
shift_seven s = simp towards_suc (omega arith)

-- The bits of a byte go above those that were read before.
or_group :
    (s r b : ℕ) → b < 256 → r < 2 ^ s → bit_or r (bit_and b 0x7f * 2 ^ s) ≡ r + b % 128 * 2 ^ s
or_group s r b hb h = rw (byte-low_seven b hb) (bit_or_shifted s r (b % 128) h)

group_below : (s r g : ℕ) → g < 128 → r < 2 ^ s → r + g * 2 ^ s < 2 ^ (s + 7)
group_below s r g hg h = rw (shift_seven s) (grind arith)

-- Taking the low group out of the value moves it into the bits read.
combine-step :
    (s r : ℕ) (v : ℤ)
    → combine (r + low_seven v * 2 ^ s) (2 ^ (s + 7)) (shift_right v) ≡ combine r (2 ^ s) v
combine-step s r (pos n) = sub_ℕ-eq _ _ _ _ (
    omega (
      arith,
      ap (λ (t : ℕ). n / 128 * t) (shift_seven s),
      ap (λ (t : ℕ). t * 2 ^ s) (div-add-mod n 128),
    ))
combine-step s r (negsuc n) =
    let groups_up : 127 - n % 128 + suc n ≡ suc (n / 128) * 128 = omega arith in
    sub_ℕ-eq _ _ _ _ (
      omega (
        arith,
        ap (λ (t : ℕ). suc (n / 128) * t) (shift_seven s),
        ap (λ (t : ℕ). t * 2 ^ s) groups_up,
      ))

combine-pos : (s r n : ℕ) → n < 128 → pos (r + n % 128 * 2 ^ s) ≡ combine r (2 ^ s) (pos n)
combine-pos s r n h = rw (mod-eq_of_lt {n = n} {m = 128} h) (ground arith)

combine-negsuc :
    (s r n : ℕ)
    → n < 64
    → r < 2 ^ s
    → or_minus_power (r + (127 - n % 128) * 2 ^ s) (s + 7) ≡ combine r (2 ^ s) (negsuc n)
combine-negsuc s r n h p =
    let groups_up : 127 - n % 128 + suc n ≡ 128 = omega arith in
    rw (mod-eq_of_lt (group_below s r (127 - n % 128) (omega arith) p))
      (sub_ℕ-eq _ _ _ _ (omega (arith, shift_seven s, ap (λ (t : ℕ). t * 2 ^ s) groups_up)))

-- One round of the loop after `n` bytes: on a last byte, and on a byte with the top bit set.
module _ (s : Bool) (max : Option ℕ) (rest : Bytes) (r n b : ℕ) where
  abbrev shift : ℕ
  shift = 7 * n

  abbrev power : ℕ
  power = 2 ^ (7 * n)

  last_round :
      b < 128
      → r < power
      → exceeds max (n + 1) ≡ false
      → decode_loop s max (b ∷ rest) r shift n
        ≡ ok (record {
          value =
              if s && ltb 63 b
              then or_minus_power (r + b % 128 * power) (shift + 7)
              else pos (r + b % 128 * power);
          rest = rest;
          bytes_read = n + 1;
        })
  unfolding decode_loop
  last_round hb h e = ground (
    arith,
    or_group shift r b (omega arith) h,
    byte-top_bit b (omega arith),
    byte-sign_bit b (omega arith),
  )

  inner_round :
      b < 128
      → r < power
      → exceeds max (n + 1) ≡ false
      → decode_loop s max ((b + 128) ∷ rest) r shift n
        ≡ decode_loop s max rest (r + b * power) (shift + 7) (n + 1)
  unfolding decode_loop
  inner_round hb h e =
      ground
        (arith, or_group shift r (b + 128) (omega arith) h, byte-top_bit (b + 128) (omega arith))

exceeds_down : (max : Option ℕ) (a b : ℕ) → a ≤ b → exceeds max b ≡ false → exceeds max a ≡ false
exceeds_down none a b h e = e
exceeds_down (some l) a b h e = ground arith

-- A whole value: what is read is added above the bits that were read before.
abbrev pub read_all : Bool → ℕ → ℤ → Bytes → ℕ → ℕ → Decoded
read_all s k v rest r n = record {
  value = combine r (2 ^ (7 * n)) v;
  rest = rest;
  bytes_read = n + length (groups s k v);
}

last_group :
    (s : Bool) (max : Option ℕ) (rest : Bytes) (r n : ℕ) (v : ℤ)
    → IsEncodable s v
    → size v < last_bound s
    → r < 2 ^ (7 * n)
    → exceeds max (n + 1) ≡ false
    → decode_loop s max (low_seven v ∷ rest) r (7 * n) n
      ≡ ok (record { value = combine r (2 ^ (7 * n)) v; rest = rest; bytes_read = n + 1 })
last_group true max rest r n (pos m) h b p e =
    ground (arith, last_round true max rest r n m, combine-pos (7 * n) r m)
last_group true max rest r n (negsuc m) h b p e =
    ground (arith, last_round true max rest r n (127 - m % 128), combine-negsuc (7 * n) r m)
last_group false max rest r n (pos m) h b p e =
    ground (arith, last_round false max rest r n m, combine-pos (7 * n) r m)
last_group false max rest r n (negsuc m) h b p e = absurd h

pub decode_loop-groups :
    (s : Bool) (max : Option ℕ) (k : ℕ) (v : ℤ) (rest : Bytes) (r n : ℕ)
    → IsEncodable s v
    → size v ≤ k
    → r < 2 ^ (7 * n)
    → exceeds max (n + length (groups s k v)) ≡ false
    → decode_loop s max (groups s k v ++ rest) r (7 * n) n ≡ ok (read_all s k v rest r n)
unfolding groups
decode_loop-groups true max zero v rest r n h p b e =
    last_group true max rest r n v h (omega arith) b e
decode_loop-groups false max zero v rest r n h p b e =
    last_group false max rest r n v h (omega arith) b e
decode_loop-groups s max (suc k) v rest r n h p b e =
    elim (Bool-cases (ltb (size v) (last_bound s))) [
      | inl done ↦ rw done (last_group s max rest r n v h (ground arith) b (rw done at e))
      | inr more ↦ rw more (
          let g = groups s k (shift_right v) in
          let r' = r + low_seven v * 2 ^ (7 * n) in
          let next : 7 * (n + 1) ≡ 7 * n + 7 = omega arith in
          let fits : exceeds max (n + 1 + length g) ≡ false = ground (arith, rw more at e) in
          inner_round s max (g ++ rest) r n (low_seven v) (low_seven-lt v) b
            (exceeds_down max (n + 1) (n + 1 + length g) (omega arith) fits)
          ∙ (rw next at (
              decode_loop-groups s max k (shift_right v) rest r' (n + 1)
                (IsEncodable-shift_right s v h) (omega (arith, size-shift_right v))
                (rw next (group_below (7 * n) r (low_seven v) (low_seven-lt v) b)) fits))
          ∙ ground (arith, combine-step (7 * n) r v))
    ]
