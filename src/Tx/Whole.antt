-- ===== src/Tx/Whole.antt =====
-- toBytes and createFromBytes of src/models/transaction.ts, the headers included. The hash that
-- createFromBytes computes in addition is left out.
use hathor_wallet_lib.Prelude.{ℕ, ◌≡◌, refl, List, [], ◌∷◌, ◌++◌, append-nil, All}
use hathor_wallet_lib.Tx.Items.{write_all}
use hathor_wallet_lib.Result.{Result, ok, ◌>>=◌}
use hathor_wallet_lib.Buffer.{Bytes}
use hathor_wallet_lib.Headers.Ids.{VertexHeaderId}
use hathor_wallet_lib.Tx.Headers.{
  HeaderClass, Header, IsHeader, serialize_headers, get_headers_from_bytes,
  get_headers_from_bytes-serialize_headers,
}
use hathor_wallet_lib.Tx.Transaction.{
  Double, IsExact, Transaction, fields_to_bytes, fields_from_bytes,
}
use hathor_wallet_lib.Tx.RoundTrip.{IsTransaction, fields_from_bytes-fields_to_bytes}

module _ (double : Double) (get_header : VertexHeaderId → HeaderClass) where
  unfoldable pub to_bytes : Transaction double → List (Header get_header) → Result Bytes
  to_bytes tx headers = do
    fields ← fields_to_bytes double tx
    rest ← serialize_headers get_header headers
    ok (fields ++ rest)

  unfoldable pub create_from_bytes : Bytes → Result (Transaction double × List (Header get_header))
  create_from_bytes buf = do
    (tx, rest) ← fields_from_bytes double buf
    headers ← get_headers_from_bytes get_header rest
    ok (tx, headers)

  -- With the floats of the platform kept by their eight bytes: a transaction that has a timestamp, at
  -- most 255 tokens, inputs, outputs and parents, 32-byte hashes, fields of the widths that they are
  -- written in, inputs and outputs that are read back, the output scripts such that parseScript does not
  -- throw on them, and any headers that are each written in at
  -- least two bytes, with their id in front, and read back by their class, is written by toBytes, and
  -- createFromBytes reads the same fields and headers from those bytes.
  pub create_from_bytes-to_bytes :
      (exact : IsExact double) (tx : Transaction double) (headers : List (Header get_header))
      → IsTransaction double exact tx
      → All (IsHeader get_header) headers
      → (bytes : Bytes) × (to_bytes tx headers ≡ ok bytes)
        × (create_from_bytes bytes ≡ ok (tx, headers))
  unfolding to_bytes create_from_bytes
  create_from_bytes-to_bytes exact tx headers ht hh =
      let (fields, w, r) = fields_from_bytes-fields_to_bytes double exact tx ht in
      let (rest, ws, rs) = get_headers_from_bytes-serialize_headers get_header headers hh in
      (fields ++ rest, rw (w, ws), rw (r rest, rs))

  -- With the floats of the platform kept by their eight bytes: createFromBytes ignores one byte, whichever
  -- it is, behind the fields of a transaction without headers that has a timestamp, at most 255 tokens,
  -- inputs, outputs and parents, 32-byte hashes, fields of the widths that they are written in, inputs and
  -- outputs that are read back, and output scripts on which parseScript does not throw: the transaction
  -- and that byte are read as the transaction alone.
  pub create_from_bytes_trailing :
      (exact : IsExact double) (tx : Transaction double) (b : ℕ)
      → IsTransaction double exact tx
      → (bytes : Bytes) × (to_bytes tx [] ≡ ok bytes)
        × (create_from_bytes (bytes ++ b ∷ []) ≡ ok (tx, []))
  unfolding to_bytes create_from_bytes serialize_headers get_headers_from_bytes write_all
  create_from_bytes_trailing exact tx b ht =
      let (fields, w, r) = fields_from_bytes-fields_to_bytes double exact tx ht in
      (fields, rw (w, append-nil) refl, rw (r (b ∷ [])))
