-- ===== src/Nano/Fields/RoundTrip/Combine.antt =====
-- What the ways to build a field's reader keep of `ReadsAs`.
use hathor_wallet_lib.Prelude.{
  ℕ, refl, arith, false, none, [], ◌∷◌, ◌++◌, append_assoc, length, length-append, drop-append,
}
use hathor_wallet_lib.Prelude.Int.{pos}
use hathor_wallet_lib.Result.{◌>>=◌}
use hathor_wallet_lib.Buffer.{Bytes}
use hathor_wallet_lib.Leb128.Encode.{encoding}
use hathor_wallet_lib.Nano.Encoding.Laws.{ReadsAs, unsigned-ReadsAs}
use hathor_wallet_lib.Nano.Fields.Types.{Value, absent, present}
use hathor_wallet_lib.Nano.Fields.Simple.{hold}
use hathor_wallet_lib.Nano.Fields.{Reader, optional_from_buffer, then_read, counted}

module _ {A B : Type 0} (f : Reader A) (bytes : Bytes) (a : A) (read : ReadsAs f bytes a) where
  pub hold-ReadsAs : (g : A → B) → ReadsAs (λ buf. f buf >>= hold g) bytes (g a)
  hold-ReadsAs g rest = rw (read rest)

module _ {A B C : Type 0} (pair : A → B → C) (f : Reader A) (g : Reader B) where
  pub then_read-ReadsAs :
      (xs ys : Bytes) (a : A) (b : B)
      → ReadsAs f xs a
      → ReadsAs g ys b
      → ReadsAs (then_read pair f g) (xs ++ ys) (pair a b)
  unfolding then_read
  then_read-ReadsAs xs ys a b hx hy rest =
      rw (append_assoc xs ys rest, hx (ys ++ rest))
        (rw (drop-append (length xs) xs (ys ++ rest) refl, hy rest, length-append xs ys))

pub counted-ReadsAs :
    {A : Type 0} (loop : ℕ → Reader A) (n : ℕ) (body : Bytes) (a : A)
    → ReadsAs (loop n) body a
    → ReadsAs (counted loop) (encoding false (pos n) ++ body) a
unfolding counted
counted-ReadsAs loop n body a h rest =
    let front = encoding false (pos n) in
    rw (append_assoc front body rest, unsigned-ReadsAs n none refl (body ++ rest))
      (rw (drop-append (length front) front (body ++ rest) refl, h rest, length-append front body))

module _ (inner : Reader Value) where
  pub absent-ReadsAs : ReadsAs (optional_from_buffer inner) (0 ∷ []) absent
  unfolding optional_from_buffer
  absent-ReadsAs rest = ground arith

  pub present-ReadsAs :
      (bytes : Bytes) (v : Value)
      → ReadsAs inner bytes v
      → ReadsAs (optional_from_buffer inner) (1 ∷ bytes) (present v)
  unfolding optional_from_buffer
  present-ReadsAs bytes v h rest = ground (arith, h rest)
