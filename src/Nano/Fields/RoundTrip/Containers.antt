-- ===== src/Nano/Fields/RoundTrip/Containers.antt =====
-- How the containers write and read back, from how their parts do.
use hathor_wallet_lib.Prelude.{ℕ, ◌≡◌, refl, true, false, none, List, [], ◌∷◌, ◌++◌}
use hathor_wallet_lib.Prelude.Int.{pos}
use hathor_wallet_lib.Result.{Result, ok, ◌>>=◌}
use hathor_wallet_lib.Buffer.{Bytes}
use hathor_wallet_lib.Leb128.{encode_unsigned}
use hathor_wallet_lib.Leb128.Encode.{encoding}
use hathor_wallet_lib.Nano.Encoding.{bytes_encode, bytes_decode}
use hathor_wallet_lib.Nano.Encoding.Laws.{
  ReadsAs, encode_unsigned-eq, with_length, bytes_encode-eq, bytes-ReadsAs,
}
use hathor_wallet_lib.Nano.Fields.Types.{
  Value, Values, Entries, Basic, present, items, each, pairs, signed, basic, value, entry,
  length_values, length_entries, is_null,
}
use hathor_wallet_lib.Nano.Fields.Simple.{hold}
use hathor_wallet_lib.Nano.Fields.{
  Reader, optional_from_buffer, then_read, read_items, read_entries, counted,
  collection_from_buffer, new_collection_from_buffer, dict_from_buffer, signed_from_buffer,
}
use hathor_wallet_lib.Nano.Fields.Typing.{IsShort}
use hathor_wallet_lib.Nano.Fields.RoundTrip.Combine.{
  hold-ReadsAs, then_read-ReadsAs, counted-ReadsAs, present-ReadsAs,
}

-- `write` gives bytes that `read` takes back.
abbrev pub Written : {A : Type 0} → Result Bytes → Reader A → A → Type 0
Written write read a = (bytes : Bytes) × (write ≡ ok bytes) × ReadsAs read bytes a

module _ (write : Result Bytes) where
  pub basic-Written :
      (read : Reader Basic) (b : Basic)
      → Written write read b
      → Written write (λ buf. read buf >>= hold basic) (basic b)
  basic-Written read b (bytes, e, h) = (bytes, e, hold-ReadsAs read bytes b h basic)

  pub each-Written :
      (read : Reader Values) (vs : Values)
      → Written write read vs
      → Written write (λ buf. read buf >>= hold each) (each vs)
  each-Written read vs (bytes, e, h) = (bytes, e, hold-ReadsAs read bytes vs h each)

  pub present-Written :
      (read : Reader Value) (v : Value)
      → is_null v ≡ false
      → Written write read v
      → Written
          (elim (is_null v) as (λ _. Result Bytes) [
            | true ↦ ok (0 ∷ [])
            | false ↦ write >>= λ bytes. ok (1 ∷ bytes)
          ])
          (optional_from_buffer read)
          (present v)
  present-Written read v given (bytes, e, h) =
      (1 ∷ bytes, rw (given, e) refl, present-ReadsAs read bytes v h)

  pub signed-Written :
      (read : Reader Value) (v : Value) (subtype : List ℕ) (signature : Bytes)
      → IsShort signature
      → Written write read v
      → Written
          (write >>= λ bytes. bytes_encode signature >>= λ sig. ok (bytes ++ sig))
          (signed_from_buffer read subtype)
          (signed v subtype signature)
  unfolding signed_from_buffer
  signed-Written read v subtype signature s (bytes, e, h) = (
    bytes ++ with_length signature,
    rw (e, bytes_encode-eq signature),
    then_read-ReadsAs (λ w sig. signed w subtype sig) read bytes_decode bytes
        (with_length signature) v signature h (bytes-ReadsAs signature s),
  )

  pub collection-Written :
      (read : Reader Value) (vs : Values)
      → Written write (read_items read (length_values vs)) vs
      → Written
          (encode_unsigned (pos (length_values vs)) none >>= λ front.
            write >>= λ body. ok (front ++ body))
          (new_collection_from_buffer read)
          (items vs)
  unfolding new_collection_from_buffer collection_from_buffer
  collection-Written read vs (bytes, e, h) = (
    encoding false (pos (length_values vs)) ++ bytes,
    rw (encode_unsigned-eq (length_values vs), e),
    λ rest. rw (counted-ReadsAs (read_items read) (length_values vs) bytes vs h rest) refl,
  )

  pub dict-Written :
      (key val : Reader Value) (es : Entries)
      → Written write (read_entries key val (length_entries es)) es
      → Written
          (encode_unsigned (pos (length_entries es)) none >>= λ front.
            write >>= λ body. ok (front ++ body))
          (dict_from_buffer key val)
          (pairs es)
  unfolding dict_from_buffer
  dict-Written key val es (bytes, e, h) = (
    encoding false (pos (length_entries es)) ++ bytes,
    rw (encode_unsigned-eq (length_entries es), e),
    hold-ReadsAs (counted (read_entries key val))
        (encoding false (pos (length_entries es)) ++ bytes) es
        (counted-ReadsAs (read_entries key val) (length_entries es) bytes es h) pairs,
  )

pub cons-Written :
    (write more : Result Bytes) (read : Reader Value) (reads : Reader Values) (v : Value)
    (vs : Values)
    → Written write read v
    → Written more reads vs
    → Written
        (write >>= λ bytes. more >>= λ rest. ok (bytes ++ rest))
        (then_read value read reads)
        (value v vs)
cons-Written write more read reads v vs (xs, e, h) (ys, d, k) =
    (xs ++ ys, rw (e, d), then_read-ReadsAs value read reads xs ys v vs h k)

pub entry-Written :
    (write_k write_v more : Result Bytes) (key val : Reader Value) (reads : Reader Entries)
    (k v : Value) (es : Entries)
    → Written write_k key k
    → Written write_v val v
    → Written more reads es
    → Written
        (write_k >>= λ a. write_v >>= λ b. more >>= λ rest. ok (a ++ b ++ rest))
        (then_read
          (λ (kv : Value × Value) fs. entry kv.0 kv.1 fs)
          (then_read (λ a b. (a, b)) key val)
          reads)
        (entry k v es)
entry-Written write_k write_v more key val reads k v es (xs, e, h) (ys, d, i) (zs, c, j) = (
  (xs ++ ys) ++ zs,
  rw (e, d, c) refl,
  then_read-ReadsAs (λ (kv : Value × Value) fs. entry kv.0 kv.1 fs)
      (then_read (λ a b. (a, b)) key val) reads (xs ++ ys) zs (k, v) es
      (then_read-ReadsAs (λ a b. (a, b)) key val xs ys k v h i) j,
)
