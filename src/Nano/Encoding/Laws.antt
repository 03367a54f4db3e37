-- ===== src/Nano/Encoding/Laws.antt =====
-- What each codec of src/nano_contracts/fields/encoding writes in front of a buffer is read back.
use hathor_wallet_lib.Prelude.{
  ℕ, ◌≤◌, ◌≡◌, refl, arith, Bool, true, false, Option, none, some, [], ◌++◌, append-nil,
  append_assoc, length, length-append, take-append, drop-append,
}
use hathor_wallet_lib.Prelude.Int.{ℤ, pos}
use hathor_wallet_lib.Result.{Result, ok}
use hathor_wallet_lib.Buffer.{Bytes}
use hathor_wallet_lib.Leb128.{
  exceeds, encode_unsigned, decode_unsigned, encode_signed, decode_signed,
}
use hathor_wallet_lib.Leb128.Digits.{length-groups_le}
use hathor_wallet_lib.Leb128.Encode.{encoding, encode_leb128-limited}
use hathor_wallet_lib.Leb128.RoundTrip.{decode_leb128-encoding}
use hathor_wallet_lib.Nano.Encoding.{
  Extract, unsigned_decode, signed_decode, nc_args_max_bytes_length, bool_encode, bool_decode,
  bytes_encode, bytes_decode, sized_encode, sized_decode,
}

-- `bytes` reads as `value`, whatever follows.
abbrev pub ReadsAs {ℓ} : {A : Type ℓ} → (Bytes → Result (Extract A)) → Bytes → A → Type ℓ
ReadsAs decode bytes value =
    (rest : Bytes)
    → decode (bytes ++ rest) ≡ ok (record { value = value; bytes_read = length bytes })

pub encode_unsigned-eq : (n : ℕ) → encode_unsigned (pos n) none ≡ ok (encoding false (pos n))
unfolding encode_unsigned
encode_unsigned-eq n = encode_leb128-limited (pos n) false none

pub encode_signed-eq : (v : ℤ) → encode_signed v none ≡ ok (encoding true v)
unfolding encode_signed
encode_signed-eq v = encode_leb128-limited v true none

pub unsigned-ReadsAs :
    (n : ℕ) (max : Option ℕ)
    → exceeds max (length (encoding false (pos n))) ≡ false
    → ReadsAs (λ b. unsigned_decode b max) (encoding false (pos n)) (pos n)
unfolding unsigned_decode decode_unsigned
unsigned-ReadsAs n max e rest = rw (decode_leb128-encoding (pos n) false max rest tt e)

pub signed-ReadsAs : (v : ℤ) → ReadsAs (λ b. signed_decode b none) (encoding true v) v
unfolding signed_decode decode_signed
signed-ReadsAs v rest = rw (decode_leb128-encoding v true none rest tt refl)

-- A length up to the maximum takes three bytes at most.
length-fits : (n : ℕ) → n ≤ nc_args_max_bytes_length → length (encoding false (pos n)) ≤ 3
unfolding encoding
length-fits n h = length-groups_le false n 2 (pos n) (omega arith)

abbrev pub with_length : Bytes → Bytes
with_length buf = encoding false (pos (length buf)) ++ buf

pub bytes_encode-eq : (buf : Bytes) → bytes_encode buf ≡ ok (with_length buf)
unfolding bytes_encode
bytes_encode-eq buf = rw (encode_unsigned-eq (length buf))

pub bytes-ReadsAs :
    (buf : Bytes)
    → length buf ≤ nc_args_max_bytes_length
    → ReadsAs bytes_decode (with_length buf) buf
unfolding bytes_decode
bytes-ReadsAs buf h rest =
    let front = encoding false (pos (length buf)) in
    let after = buf ++ rest in
    let short = length-fits (length buf) h in
    rw (append_assoc front buf rest) (
      rw (unsigned-ReadsAs (length buf) (some 3) (ground arith) after) (
        ground (
          arith,
          length-append front buf,
          length-append buf rest,
          take-append (length buf) buf rest refl,
          drop-append (length front) front after refl,
        )))

pub sized-ReadsAs : (n : ℕ) (buf : Bytes) → length buf ≡ n → ReadsAs (sized_decode n) buf buf
unfolding sized_decode
sized-ReadsAs n buf h rest = ground (arith, length-append buf rest, take-append n buf rest h)

pub sized_encode-eq : (n : ℕ) (buf : Bytes) → length buf ≡ n → sized_encode n buf ≡ buf
unfolding sized_encode
sized_encode-eq n buf h = rw (append-nil buf) at (take-append n buf [] h)

pub bool-ReadsAs : (b : Bool) → ReadsAs bool_decode (bool_encode b) b
unfolding bool_decode bool_encode
bool-ReadsAs true rest = refl
bool-ReadsAs false rest = refl
