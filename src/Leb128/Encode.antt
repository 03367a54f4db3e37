-- ===== src/Leb128/Encode.antt =====
-- What encodeLeb128 writes: the groups of the value, unless they pass the limit.
use hathor_wallet_lib.Prelude.{
  ℕ, zero, suc, ◌+◌, ◌*◌, ◌^◌, ◌≤◌, ◌<◌, ◌≡◌, refl, ◌∙◌, arith, Bool, true, false, not, ◌&&◌,
  Option, none, some, [], ◌∷◌, ◌++◌, append_assoc, if◌then◌else◌, length, length-append,
}
use hathor_wallet_lib.Prelude.Int.{ℤ, pos, negsuc}
use hathor_wallet_lib.Prelude.Bits.{byte-set_top_bit}
use hathor_wallet_lib.Result.{Result, ok, err, encode_limit, unsigned_negative}
use hathor_wallet_lib.Buffer.{Bytes}
use hathor_wallet_lib.Leb128.{
  low_seven, shift_right, exceeds, encode_loop, encode_leb128, is_negative,
}
use hathor_wallet_lib.Leb128.Digits.{
  size, last_bound, IsEncodable, IsEncodable-shift_right, low_seven-lt, is_last_byte-eq, groups,
  length-groups_le, size-shift_right,
}

-- The bytes of a value.
unfoldable pub encoding : Bool → ℤ → Bytes
encoding s v = groups s (size v) v

abbrev pub limited : Option ℕ → Bytes → Result Bytes
limited max bytes = if exceeds max (length bytes) then err encode_limit else ok bytes

exceeds_mono : (max : Option ℕ) (a b : ℕ) → a ≤ b → exceeds max a ≡ true → exceeds max b ≡ true
exceeds_mono none a b h e = e
exceeds_mono (some l) a b h e = ground arith

-- One round that goes on, with the groups that are left.
over_limit :
    (max : Option ℕ) (front rest : Bytes)
    → exceeds max (length front) ≡ true
    → limited max (front ++ rest) ≡ err encode_limit
over_limit max front rest e =
    ground
      (arith, length-append front rest, exceeds_mono max (length front) (length (front ++ rest)))

encode_loop-groups :
    (s : Bool) (max : Option ℕ) (k : ℕ) (result : Bytes) (v : ℤ)
    → IsEncodable s v
    → size v ≤ k
    → encode_loop s max (suc k) result v ≡ limited max (result ++ groups s k v)
unfolding encode_loop groups
encode_loop-groups true max zero result v h p = ground (arith, is_last_byte-eq true v)
encode_loop-groups false max zero result v h p = ground (arith, is_last_byte-eq false v h)
encode_loop-groups s max (suc k) result v h p =
    let next : Bytes = result ++ (low_seven v + 128) ∷ [] in
    ground (
      arith,
      is_last_byte-eq s v h,
      byte-set_top_bit (low_seven v) (low_seven-lt v),
      size-shift_right v,
      over_limit max next (groups s k (shift_right v)),
      append_assoc result ((low_seven v + 128) ∷ []) (groups s k (shift_right v)),
      encode_loop-groups s max k next (shift_right v) (IsEncodable-shift_right s v h),
    )

-- encodeLeb128 on every branch: a negative number is refused where the encoding is unsigned, one
-- that takes more bytes than the limit is refused, and any other is written as its groups of seven
-- bits.
pub encode_leb128-limited :
    (v : ℤ) (s : Bool) (max : Option ℕ)
    → encode_leb128 v s max
      ≡ (if not s && is_negative v then err unsigned_negative else limited max (encoding s v))
unfolding encode_leb128 encoding
encode_leb128-limited (pos n) true max = encode_loop-groups true max n [] (pos n) tt (omega arith)
encode_leb128-limited (negsuc n) true max =
    encode_loop-groups true max n [] (negsuc n) tt (omega arith)
encode_leb128-limited (pos n) false max = encode_loop-groups false max n [] (pos n) tt (omega arith)
encode_leb128-limited (negsuc n) false max = refl

encodable : (v : ℤ) (s : Bool) → IsEncodable s v → not s && is_negative v ≡ false
encodable v true e = refl
encodable (pos n) false e = refl
encodable (negsuc n) false e = absurd e

-- The signed form of a value below 64 * 128 ^ j in magnitude takes at most j + 1 bytes, the unsigned
-- form of one below 128 ^ (j + 1) too, so a limit of that many never refuses it.
pub encode_leb128_fits :
    (v : ℤ) (s : Bool) (j : ℕ)
    → IsEncodable s v
    → size v < last_bound s * 128 ^ j
    → encode_leb128 v s (some (j + 1)) ≡ ok (encoding s v)
unfolding encoding
encode_leb128_fits v s j e h =
    encode_leb128-limited v s (some (j + 1))
    ∙ ground (arith, encodable v s e, length-groups_le s (size v) j v h)
