-- ===== src/Leb128/RoundTrip.antt =====
-- encodeLeb128 and decodeLeb128 together, and what decodeLeb128 takes of any buffer.
use hathor_wallet_lib.Prelude.{
  ℕ, zero, suc, ◌+◌, ◌-◌, ◌*◌, ◌^◌, ◌≤◌, ◌<◌, ◌≡◌, ◌∙◌, arith, Bool, true, false, Option, [], ◌∷◌,
  ◌++◌, length, drop, bit_and, bit_or,
}
use hathor_wallet_lib.Prelude.Int.{ℤ, pos, negsuc}
use hathor_wallet_lib.Result.{ok}
use hathor_wallet_lib.Buffer.{Bytes}
use hathor_wallet_lib.Leb128.{exceeds, Decoded, decode_loop, encode_leb128, decode_leb128}
use hathor_wallet_lib.Leb128.Digits.{size, IsEncodable}
use hathor_wallet_lib.Leb128.Encode.{encoding, encode_leb128-limited}
use hathor_wallet_lib.Leb128.Decode.{combine, decode_loop-groups}

combine-nothing : (v : ℤ) → combine 0 1 v ≡ v
combine-nothing (pos n) = ground arith
combine-nothing (negsuc n) = ground arith

pub decode_leb128-encoding :
    (v : ℤ) (s : Bool) (max : Option ℕ) (rest : Bytes)
    → IsEncodable s v
    → exceeds max (length (encoding s v)) ≡ false
    → decode_leb128 (encoding s v ++ rest) s max
      ≡ ok (record { value = v; rest = rest; bytes_read = length (encoding s v) })
unfolding decode_leb128 encoding
decode_leb128-encoding v s max rest h e =
    decode_loop-groups s max (size v) v rest 0 0 h (omega arith) (omega arith) (ground (arith, e))
    ∙ ground (arith, combine-nothing v)

written :
    (v : ℤ) (s : Bool) (max : Option ℕ) (bytes : Bytes)
    → encode_leb128 v s max ≡ ok bytes
    → (bytes ≡ encoding s v) × IsEncodable s v × (exceeds max (length (encoding s v)) ≡ false)
written (pos n) true max bytes h = ground (arith, encode_leb128-limited (pos n) true max)
written (pos n) false max bytes h = ground (arith, encode_leb128-limited (pos n) false max)
written (negsuc n) true max bytes h = ground (arith, encode_leb128-limited (negsuc n) true max)
written (negsuc n) false max bytes h = ground (arith, encode_leb128-limited (negsuc n) false max)

-- Whatever encodeLeb128 returns for a number, signed or unsigned and under any limit, decodeLeb128
-- with the same arguments reads the number back, leaves the bytes that follow, and counts the bytes.
pub decode_leb128-encode_leb128 :
    (v : ℤ) (s : Bool) (max : Option ℕ) (bytes rest : Bytes)
    → encode_leb128 v s max ≡ ok bytes
    → decode_leb128 (bytes ++ rest) s max
      ≡ ok (record { value = v; rest = rest; bytes_read = length bytes })
decode_leb128-encode_leb128 v s max bytes rest h =
    let (e, enc, fits) = written v s max bytes h in
    rw e (decode_leb128-encoding v s max rest enc fits)

drop-positive : (m b : ℕ) (bs : Bytes) → 0 < m → drop m (b ∷ bs) ≡ drop (m - 1) bs
drop-positive zero b bs h = absurd (omega arith)
drop-positive (suc m) b bs h = ground arith

decode_loop_takes :
    (s : Bool) (max : Option ℕ) (buf : Bytes) (r n : ℕ) (d : Decoded)
    → decode_loop s max buf r (7 * n) n ≡ ok d
    → (n < d.bytes_read)
      × (d.bytes_read ≤ n + length buf)
      × (d.rest ≡ drop (d.bytes_read - n) buf)
      × (exceeds max d.bytes_read ≡ false)
unfolding decode_loop
decode_loop_takes s max [] r n d h = cc
decode_loop_takes s max (b ∷ bs) r n d h =
    let r' = bit_or r (bit_and b 0x7f * 2 ^ (7 * n)) in
    ground (arith, decode_loop_takes s max bs r' (n + 1) d, drop-positive (d.bytes_read - n) b bs)

-- A successful decodeLeb128 takes at least one byte and at most the limit, its rest is the buffer
-- after the bytes it counts, and those lie in the buffer.
pub decode_leb128_takes :
    (buf : Bytes) (s : Bool) (max : Option ℕ) (d : Decoded)
    → decode_leb128 buf s max ≡ ok d
    → (0 < d.bytes_read)
      × (d.bytes_read ≤ length buf)
      × (d.rest ≡ drop d.bytes_read buf)
      × (exceeds max d.bytes_read ≡ false)
unfolding decode_leb128
decode_leb128_takes buf s max d h = ground (arith, decode_loop_takes s max buf 0 0 d)
