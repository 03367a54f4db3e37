-- ===== src/Nano/Fields/RoundTrip/Basic.antt =====
-- The round trip of the fields of simple types.
use hathor_wallet_lib.Prelude.{
  ◌≡◌, ◌≢◌, refl, ap, inl, inr, arith, true, false, none, [], ◌∷◌, ◌++◌, append-nil, append_assoc,
  length, length-append, drop, take-append,
}
use hathor_wallet_lib.Prelude.Int.{pos}
use hathor_wallet_lib.Result.{ok}
use hathor_wallet_lib.Buffer.{Bytes, signed_int_to_bytes}
use hathor_wallet_lib.Buffer.Ints.{unpack_to_int-signed_int_to_bytes, length-signed_int_to_bytes}
use hathor_wallet_lib.Hex.{to_hex, from_hex-to_hex, length-to_hex, is_hexa-to_hex}
use hathor_wallet_lib.Leb128.Encode.{encoding}
use hathor_wallet_lib.Address.{validate_address, equals, get_checksum}
use hathor_wallet_lib.Address.Laws.{
  encode_address-p2pkh, validate_address-legacy, equals_refl, length-get_checksum, equals→eq,
}
use hathor_wallet_lib.Nano.Encoding.{bool_encode, bool_decode, utf8_encode, utf8_decode}
use hathor_wallet_lib.Nano.Encoding.Laws.{
  ReadsAs, encode_unsigned-eq, encode_signed-eq, unsigned-ReadsAs, signed-ReadsAs, with_length,
  bytes_encode-eq, bytes-ReadsAs, sized-ReadsAs, sized_encode-eq,
}
use hathor_wallet_lib.Nano.Fields.Types.{SimpleType, caller_address, caller_contract, Basic}
use hathor_wallet_lib.Nano.Fields.Simple.{
  Platform, simple_from_buffer, simple_to_buffer, is_token_uid, native_token_uid,
  address_from_buffer,
}
use hathor_wallet_lib.Nano.Fields.Typing.{
  BasicHasType, IsP2pkh, str_has, int_has, bool_has, address_has, caller_has, timestamp_has,
  amount_has, uid_has, bytes_has, script_has, blueprint_has, contract_has, vertex_has,
}

module _ (p : Platform) (distinct : p.network.shielded ≢ p.network.p2pkh) where
  p2pkh_size : (a : Bytes) → IsP2pkh p a → length a ≡ 25
  p2pkh_size a (h, e, size) =
      let front = p.network.p2pkh ∷ h in
      rw e (
        omega (
          arith,
          length-append front (get_checksum p.hash front),
          length-get_checksum p.hash front,
        ))

  p2pkh_valid : (a : Bytes) → IsP2pkh p a → validate_address p.hash p.network false a ≡ ok tt
  p2pkh_valid a (h, e, size) =
      rw e (validate_address-legacy p.hash p.network p.network.p2pkh h size (inl refl) distinct)

  address-ReadsAs : (a : Bytes) → IsP2pkh p a → ReadsAs (address_from_buffer p) a a
  unfolding address_from_buffer
  address-ReadsAs a (h, e, size) rest =
      let front = p.network.p2pkh ∷ h in
      let sum = get_checksum p.hash front in
      ground (
        arith,
        p2pkh_size a (h, e, size),
        p2pkh_valid a (h, e, size),
        length-append a rest,
        append_assoc front sum rest,
        take-append 21 front (sum ++ rest),
        take-append 25 a rest,
        take-append 25 a [],
        append-nil a,
        encode_address-p2pkh p.hash p.network h,
        equals_refl (drop 21 a),
      )

  not_native : (bs : Bytes) → length bs ≡ 32 → equals (to_hex bs) native_token_uid ≡ false
  not_native bs h = ground (arith, equals→eq (to_hex bs) native_token_uid, length-to_hex bs)

  -- The bytes of a value, which its field writes and reads back.
  abbrev pub Written : SimpleType → Basic → Type 0
  Written s b =
      (bytes : Bytes) × (simple_to_buffer p b ≡ ok bytes) × ReadsAs (simple_from_buffer p s) bytes b

  pub simple_round_trip : {s : SimpleType} {b : Basic} → BasicHasType p s b → Written s b
  unfolding simple_to_buffer simple_from_buffer is_token_uid
  simple_round_trip (str_has t e h) = (
    with_length (p.utf8.encode t),
    unfold utf8_encode in bytes_encode-eq (p.utf8.encode t),
    λ rest. unfold utf8_decode in rw (bytes-ReadsAs (p.utf8.encode t) h rest, e),
  )
  simple_round_trip (int_has v) =
      (encoding true v, encode_signed-eq v, λ rest. rw (signed-ReadsAs v rest))
  simple_round_trip (bool_has true) =
      (1 ∷ [], unfold bool_encode in refl, λ rest. unfold bool_decode in ground arith)
  simple_round_trip (bool_has false) =
      (0 ∷ [], unfold bool_encode in refl, λ rest. unfold bool_decode in ground arith)
  simple_round_trip (address_has a h) =
      (a, ground (arith, p2pkh_valid a h), λ rest. rw (address-ReadsAs a h rest))
  simple_round_trip (caller_has (caller_address a) h) =
      (0 ∷ a, ground (arith, p2pkh_valid a h), λ rest. ground (arith, address-ReadsAs a h rest))
  simple_round_trip (caller_has (caller_contract c) h) = (
    1 ∷ c,
    ground (arith, sized_encode-eq 32 c h),
    λ rest. ground (arith, sized-ReadsAs 32 c h rest),
  )
  simple_round_trip (timestamp_has t h) = (
    signed_int_to_bytes t 4,
    refl,
    λ rest. rw (
      unpack_to_int-signed_int_to_bytes 4 t rest (omega arith) h,
      length-signed_int_to_bytes 4 t (omega arith),
    ),
  )
  simple_round_trip (amount_has n) =
      (encoding false (pos n), encode_unsigned-eq n, λ rest. rw (unsigned-ReadsAs n none refl rest))
  simple_round_trip (uid_has u (inl e)) =
      (0 ∷ [], ground (arith, equals_refl native_token_uid), λ rest. ground arith)
  simple_round_trip (uid_has u (inr (bs, e, size, h))) = (
    1 ∷ bs,
    ground (arith, not_native bs size, length-to_hex bs, is_hexa-to_hex bs h, from_hex-to_hex bs h),
    λ rest. ground (arith, sized-ReadsAs 32 bs size rest),
  )
  simple_round_trip (bytes_has b h) =
      (with_length b, bytes_encode-eq b, λ rest. rw (bytes-ReadsAs b h rest))
  simple_round_trip (script_has b h) =
      (with_length b, bytes_encode-eq b, λ rest. rw (bytes-ReadsAs b h rest))
  simple_round_trip (blueprint_has b h) =
      (b, ap ok (sized_encode-eq 32 b h), λ rest. rw (sized-ReadsAs 32 b h rest))
  simple_round_trip (contract_has b h) =
      (b, ap ok (sized_encode-eq 32 b h), λ rest. rw (sized-ReadsAs 32 b h rest))
  simple_round_trip (vertex_has b h) =
      (b, ap ok (sized_encode-eq 32 b h), λ rest. rw (sized-ReadsAs 32 b h rest))
