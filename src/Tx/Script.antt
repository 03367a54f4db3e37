-- ===== src/Tx/Script.antt =====
-- src/utils/scripts.ts: what the script of an output says, and the two kinds of address scripts that
-- src/models/p2pkh.ts and src/models/p2sh.ts identify. An address is kept as its hash, from which the
-- network's version byte makes it, and the text of a data script as its bytes.
use hathor_wallet_lib.Prelude.{
  ℕ, ◌+◌, ◌-◌, Bool, false, ◌&&◌, ◌||◌, not, Option, none, some, ◌==◌, ltb, if◌then◌else◌, length,
  take, drop, get_elem?,
}
use hathor_wallet_lib.Prelude.Int.{ℤ}
use hathor_wallet_lib.Result.{
  Result, ok, err, ◌>>=◌, ◌>>◌, throw_if, not_enough_bytes, invalid_output_script, no_data,
}
use hathor_wallet_lib.Buffer.{Bytes, unpack_to_int, unpack_len}

abbrev op_greaterthan_timestamp : ℕ
op_greaterthan_timestamp = 0x6f

abbrev op_dup : ℕ
op_dup = 0x76

abbrev op_hash160 : ℕ
op_hash160 = 0xa9

abbrev op_equal : ℕ
op_equal = 0x87

abbrev op_equalverify : ℕ
op_equalverify = 0x88

abbrev op_checksig : ℕ
op_checksig = 0xac

abbrev op_pushdata1 : ℕ
op_pushdata1 = 0x4c

pub data DecodedScript : Type 0 where
  p2pkh p2sh : Bytes → Option ℤ → DecodedScript
  script_data : Bytes → DecodedScript

-- `buf[index] === value`
abbrev is_at : Bytes → ℕ → ℕ → Bool
is_at buf index value = elim (get_elem? buf index) [ none ↦ false | some b ↦ b == value ]

abbrev has_timelock : Bytes → Bool
has_timelock buf = is_at buf 0 4 && is_at buf 5 op_greaterthan_timestamp

-- The bytes from `ptr` on.
abbrev is_p2pkh_at : Bytes → ℕ → Bool
is_p2pkh_at buf ptr =
    is_at buf ptr op_dup
    && is_at buf (ptr + 1) op_hash160
    && is_at buf (ptr + 2) 20
    && is_at buf (ptr + 23) op_equalverify
    && is_at buf (ptr + 24) op_checksig

-- P2PKH.identify
unfoldable pub is_p2pkh : Bytes → Bool
is_p2pkh buf =
    (length buf == 31 && has_timelock buf && is_p2pkh_at buf 6)
    || (length buf == 25 && is_p2pkh_at buf 0)

abbrev is_p2sh_at : Bytes → ℕ → Bool
is_p2sh_at buf ptr =
    is_at buf ptr op_hash160 && is_at buf (ptr + 1) 20 && is_at buf (ptr + 22) op_equal

-- P2SH.identify
unfoldable pub is_p2sh : Bytes → Bool
is_p2sh buf =
    (length buf == 29 && has_timelock buf && is_p2sh_at buf 6)
    || (length buf == 23 && is_p2sh_at buf 0)

-- The hash behind the opcodes and its length.
abbrev hash_at : ℕ → Bytes → Result Bytes
hash_at offset buf = unpack_len 20 (drop offset buf) >>= λ read. ok read.0

unfoldable pub parse_p2pkh : Bytes → Result DecodedScript
parse_p2pkh buf =
    if length buf == 31
    then (do
      (timelock, rest) ← unpack_to_int 4 false (drop 1 buf)
      hash ← hash_at 4 rest
      ok (p2pkh hash (some timelock)))
    else (do
      throw_if (not (length buf == 25)) invalid_output_script
      hash ← hash_at 3 buf
      ok (p2pkh hash none))

unfoldable pub parse_p2sh : Bytes → Result DecodedScript
parse_p2sh buf =
    if length buf == 29
    then (do
      (timelock, rest) ← unpack_to_int 4 false (drop 1 buf)
      hash ← hash_at 3 rest
      ok (p2sh hash (some timelock)))
    else (do
      throw_if (not (length buf == 23)) invalid_output_script
      hash ← hash_at 2 buf
      ok (p2sh hash none))

-- `buf[index]` of a byte that is there
abbrev byte_at : Bytes → ℕ → ℕ
byte_at buf index = elim (get_elem? buf index) [ none ↦ 0 | some b ↦ b ]

unfoldable pub get_push_data : Bytes → Bytes
get_push_data buf =
    if ltb 75 (byte_at buf 0)
    then take (byte_at buf 1) (drop 2 buf)
    else take (byte_at buf 0) (drop 1 buf)

-- The length that a data script has to have.
abbrev expected_len : Bytes → ℕ
expected_len buf = if byte_at buf 0 == op_pushdata1 then 3 + byte_at buf 1 else 2 + byte_at buf 0

-- The constructor of ScriptData, which throws an `Error` that is no ParseError.
unfoldable pub new_script_data : Bytes → Result DecodedScript
new_script_data text = throw_if (length text == 0) no_data >> ok (script_data text)

unfoldable pub parse_script_data : Bytes → Result DecodedScript
parse_script_data buf = do
  throw_if (ltb (length buf) 2) invalid_output_script
  throw_if (not (expected_len buf == length buf)) invalid_output_script
  throw_if (not (is_at buf (expected_len buf - 1) op_checksig)) invalid_output_script
  new_script_data (get_push_data buf)

-- The `catch`: a ParseError gives `null`.
unfoldable pub caught : Result DecodedScript → Result (Option DecodedScript)
caught (ok script) = ok (some script)
caught (err invalid_output_script) = ok none
caught (err not_enough_bytes) = ok none
caught (err e) = err e

unfoldable pub parse_script : Bytes → Result (Option DecodedScript)
parse_script script = caught (
    if is_p2pkh script
    then parse_p2pkh script
    else if is_p2sh script
    then parse_p2sh script
    else parse_script_data script)
