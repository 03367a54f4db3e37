-- ===== src/Tx/Items.antt =====
-- The loops of src/models/transaction.ts that write a list and read it with its length known, and what
-- an item that is read back gives for them.
use hathor_wallet_lib.Prelude.{
  ℕ, zero, suc, ◌≡◌, refl, List, [], ◌∷◌, ◌++◌, append_assoc, length, All,
}
use hathor_wallet_lib.Result.{Result, ok, ◌>>=◌}
use hathor_wallet_lib.Buffer.{Bytes}

module _ {A : Type 0} where
  unfoldable pub write_all : (A → Result Bytes) → List A → Result Bytes
  write_all write [] = ok []
  write_all write (x ∷ xs) = do bytes ← write x; rest ← write_all write xs; ok (bytes ++ rest)

  unfoldable pub read_all : (Bytes → Result (A × Bytes)) → ℕ → Bytes → Result (List A × Bytes)
  read_all read zero buf = ok ([], buf)
  read_all read (suc n) buf = do
    (x, buf') ← read buf
    (xs, rest) ← read_all read n buf'
    ok (x ∷ xs, rest)

  -- The item is written, and read back from the front of any buffer.
  abbrev pub IsReadBack : (A → Result Bytes) → (Bytes → Result (A × Bytes)) → A → Type 0
  IsReadBack write read x =
      (bytes : Bytes) × (write x ≡ ok bytes)
      × ((rest : Bytes) → read (bytes ++ rest) ≡ ok (x, rest))

  pub read_all-write_all :
      (write : A → Result Bytes) (read : Bytes → Result (A × Bytes)) (P : A → Type 0)
      → ((x : A) → P x → IsReadBack write read x)
      → (xs : List A) → All P xs
      → (bytes : Bytes) × (write_all write xs ≡ ok bytes)
        × ((rest : Bytes) → read_all read (length xs) (bytes ++ rest) ≡ ok (xs, rest))
  unfolding write_all read_all
  read_all-write_all write read P back [] h = ([], refl, λ rest. refl)
  read_all-write_all write read P back (x ∷ xs) (hx, h) =
      let (bytes, w, r) = back x hx in
      let (more, ws, rs) = read_all-write_all write read P back xs h in
      (bytes ++ more, rw (w, ws), λ rest. simp append_assoc (rw (r (more ++ rest), rs rest)))
