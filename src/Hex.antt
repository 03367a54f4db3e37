-- ===== src/Hex.antt =====
-- `Buffer.from(text, 'hex')` and `buf.toString('hex')`. A text is the list of its code units.
use hathor_wallet_lib.Prelude.{
  ℕ, ◌+◌, ◌-◌, ◌*◌, ◌/◌, ◌%◌, ◌≡◌, refl, arith, Bool, true, false, not, ◌++◌, ◌&&◌, Option, none,
  some, List, [], ◌∷◌, ltb, leb, if◌then◌else◌, length, All,
}
use hathor_wallet_lib.Result.{Result, ok, throw_if, ◌>>◌, ◌>>=◌, invalid_hex}
use hathor_wallet_lib.Buffer.{Bytes, IsByte, unpack_len}
use hathor_wallet_lib.Buffer.Ints.{unpack_len-append}

abbrev pub Text : Type 0
Text = List ℕ

-- A character of `/^[0-9a-fA-F]*$/`, and its value.
unfoldable pub digit_value : ℕ → Option ℕ
digit_value c =
    if leb 48 c && leb c 57
    then some (c - 48)
    else if leb 97 c && leb c 102
    then some (c - 87)
    else if leb 65 c && leb c 70
    then some (c - 55)
    else none

-- Node stops at the first pair that is not two digits, and drops an odd last character.
pair_of : Option ℕ → Option ℕ → Bytes → Bytes
pair_of (some hi) (some lo) rest = (hi * 16 + lo) ∷ rest
pair_of _ _ rest = []

unfoldable pub from_hex : Text → Bytes
unfolding digit_value pair_of
from_hex [] = []
from_hex (a ∷ []) = []
from_hex (a ∷ b ∷ rest) = pair_of (digit_value a) (digit_value b) (from_hex rest)

unfoldable pub hex_digit : ℕ → ℕ
hex_digit d = if ltb d 10 then d + 48 else d + 87

unfoldable pub to_hex : Bytes → Text
unfolding hex_digit
to_hex [] = []
to_hex (b ∷ bs) = hex_digit (b / 16) ∷ hex_digit (b % 16) ∷ to_hex bs

-- `/^[0-9a-fA-F]*$/.test(value)`
unfoldable pub is_hexa : Text → Bool
unfolding digit_value
is_hexa [] = true
is_hexa (c ∷ rest) = elim (digit_value c) [ none ↦ false | some _ ↦ is_hexa rest ]

-- hexToBuffer and unpackToHex of src/utils/buffer.ts
unfoldable pub hex_to_buffer : Text → Result Bytes
unfolding is_hexa from_hex
hex_to_buffer value = throw_if (not (is_hexa value)) invalid_hex >> ok (from_hex value)

unfoldable pub unpack_to_hex : ℕ → Bytes → Result (Text × Bytes)
unfolding to_hex
unpack_to_hex n buff = do (unpacked, rest) ← unpack_len n buff; ok (to_hex unpacked, rest)

-- Bytes survive the way through hex text.
pub from_hex-to_hex : (bs : Bytes) → All IsByte bs → from_hex (to_hex bs) ≡ bs
unfolding from_hex to_hex
from_hex-to_hex [] h = refl
from_hex-to_hex (b ∷ bs) (hb, h) = ground (arith, from_hex-to_hex bs h)

pub length-to_hex : (bs : Bytes) → length (to_hex bs) ≡ length bs * 2
unfolding to_hex
length-to_hex [] = refl
length-to_hex (b ∷ bs) = omega (arith, length-to_hex bs)

pub is_hexa-to_hex : (bs : Bytes) → All IsByte bs → is_hexa (to_hex bs) ≡ true
unfolding is_hexa to_hex
is_hexa-to_hex [] h = refl
is_hexa-to_hex (b ∷ bs) (hb, h) = ground (arith, is_hexa-to_hex bs h)

pub hex_to_buffer-to_hex : (bs : Bytes) → All IsByte bs → hex_to_buffer (to_hex bs) ≡ ok bs
unfolding hex_to_buffer
hex_to_buffer-to_hex bs h = rw (is_hexa-to_hex bs h, from_hex-to_hex bs h)

pub unpack_to_hex-append :
    (n : ℕ) (bs rest : Bytes) → length bs ≡ n → unpack_to_hex n (bs ++ rest) ≡ ok (to_hex bs, rest)
unfolding unpack_to_hex
unpack_to_hex-append n bs rest h = rw (unpack_len-append n bs rest h)
