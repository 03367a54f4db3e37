-- ===== src/Tx/Headers.antt =====
-- The headers of a transaction: serializeHeaders and getHeadersFromBytes of src/models/transaction.ts,
-- over the table of header classes of src/headers/parser.ts.
use hathor_wallet_lib.Prelude.{
  ℕ, zero, suc, ◌+◌, ◌≡◌, ◌≤◌, refl, arith, List, [], ◌∷◌, ◌++◌, length, length-append, leb, ◌==◌,
  if◌then◌else◌, All,
}
use hathor_wallet_lib.Result.{Result, ok, err, ◌>>=◌, out_of_fuel}
use hathor_wallet_lib.Buffer.{Bytes}
use hathor_wallet_lib.Headers.Ids.{VertexHeaderId, get_vertex_header_id_from_buffer}
use hathor_wallet_lib.Tx.Items.{write_all}

-- What a transaction asks of a header class.
pub record HeaderClass : Type 1 where
  pub Fields : Type 0
  pub serialize : Fields → Result Bytes
  pub deserialize : Bytes → Result (Fields × Bytes)

-- `getSupportedHeaders`: the class of each id. A header is an id with the fields of its class.
module _ (get_header : VertexHeaderId → HeaderClass) where
  abbrev pub Header : Type 0
  Header = (id : VertexHeaderId) × (get_header id).Fields

  abbrev pub serialize_header : Header → Result Bytes
  serialize_header h = (get_header h.0).serialize h.1

  unfoldable pub serialize_headers : List Header → Result Bytes
  serialize_headers headers = write_all serialize_header headers

  -- The `while`, with fuel.
  pub headers_loop : ℕ → Bytes → Result (List Header)
  headers_loop zero buf = if length buf == 0 then ok [] else err out_of_fuel
  headers_loop (suc fuel) [] = ok []
  headers_loop (suc fuel) (b ∷ bs) = do
    header_id ← get_vertex_header_id_from_buffer (b ∷ bs)
    (fields, buf) ← (get_header header_id).deserialize (b ∷ bs)
    headers ← headers_loop fuel buf
    ok ((header_id, fields) ∷ headers)

  unfoldable pub get_headers_from_bytes : Bytes → Result (List Header)
  unfolding headers_loop
  get_headers_from_bytes src_buf =
      if leb (length src_buf) 1 then ok [] else headers_loop (length src_buf) src_buf

  -- The header is written in at least two bytes, with its id in front, and its class reads it back.
  abbrev pub IsHeader : Header → Type 0
  IsHeader h =
      (bytes : Bytes) × (serialize_header h ≡ ok bytes)
      × (2 ≤ length bytes)
      × ((rest : Bytes) → get_vertex_header_id_from_buffer (bytes ++ rest) ≡ ok h.0)
      × ((rest : Bytes) → (get_header h.0).deserialize (bytes ++ rest) ≡ ok (h.1, rest))

  loop_round :
      (fuel : ℕ) (id : VertexHeaderId) (fields : (get_header id).Fields) (bytes rest : Bytes)
      (hs : List Header)
      → 2 ≤ length bytes
      → get_vertex_header_id_from_buffer (bytes ++ rest) ≡ ok id
      → (get_header id).deserialize (bytes ++ rest) ≡ ok (fields, rest)
      → headers_loop fuel rest ≡ ok hs
      → headers_loop (suc fuel) (bytes ++ rest) ≡ ok ((id, fields) ∷ hs)
  unfolding headers_loop
  loop_round fuel id fields [] rest hs l i d r = absurd (omega arith)
  loop_round fuel id fields (b ∷ bytes) rest hs l i d r = rw (i, d, r)

  loop_nil : (fuel : ℕ) → headers_loop fuel [] ≡ ok []
  unfolding headers_loop
  loop_nil zero = refl
  loop_nil (suc fuel) = refl

  loop_cons :
      (fuel : ℕ) (h : Header) (bytes more : Bytes) (hs : List Header)
      → 2 ≤ length bytes
      → ((rest : Bytes) → get_vertex_header_id_from_buffer (bytes ++ rest) ≡ ok h.0)
      → ((rest : Bytes) → (get_header h.0).deserialize (bytes ++ rest) ≡ ok (h.1, rest))
      → ((f : ℕ) → length more ≤ f → headers_loop f more ≡ ok hs)
      → length (bytes ++ more) ≤ fuel
      → headers_loop fuel (bytes ++ more) ≡ ok (h ∷ hs)
  loop_cons zero h bytes more hs l i d r e = absurd (omega (arith, length-append bytes more))
  loop_cons (suc fuel) h bytes more hs l i d r e =
      loop_round fuel h.0 h.1 bytes more hs l (i more) (d more)
        (r fuel (omega (arith, length-append bytes more)))

  -- Any fuel that covers the bytes will do.
  headers_read :
      (hs : List Header)
      → All IsHeader hs
      → (bytes : Bytes) × (serialize_headers hs ≡ ok bytes)
        × (length hs + length hs ≤ length bytes)
        × ((fuel : ℕ) → length bytes ≤ fuel → headers_loop fuel bytes ≡ ok hs)
  unfolding serialize_headers write_all
  headers_read [] h = ([], refl, omega arith, λ fuel _. loop_nil fuel)
  headers_read (x ∷ hs) (hx, h) =
      let (bytes, w, l, i, d) = hx in
      let (more, ws, ls, rs) = headers_read hs h in
      (
        bytes ++ more,
        rw (w, ws),
        omega (arith, length-append bytes more),
        λ fuel. loop_cons fuel x bytes more hs l i d rs,
      )

  -- Headers that are each written in at least two bytes, with their id in front, and read back by their
  -- class, are written one after the other by serializeHeaders, and getHeadersFromBytes reads the same
  -- headers from those bytes, to their end.
  pub get_headers_from_bytes-serialize_headers :
      (headers : List Header)
      → All IsHeader headers
      → (bytes : Bytes) × (serialize_headers headers ≡ ok bytes)
        × (get_headers_from_bytes bytes ≡ ok headers)
  unfolding get_headers_from_bytes
  get_headers_from_bytes-serialize_headers headers h =
      let (bytes, w, l, r) = headers_read headers h in
      (bytes, w, long_enough headers bytes l (r (length bytes) (omega arith)))
    where
      long_enough :
          (hs : List Header) (bytes : Bytes)
          → length hs + length hs ≤ length bytes
          → headers_loop (length bytes) bytes ≡ ok hs
          → (if leb (length bytes) 1 then ok [] else headers_loop (length bytes) bytes) ≡ ok hs
      long_enough [] bytes l r = ground (arith, r)
      long_enough (x ∷ hs) bytes l r = ground (arith, r)
