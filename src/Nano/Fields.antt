-- ===== src/Nano/Fields.antt =====
-- src/nano_contracts/fields: the field classes, from the type node that builds them. A field object
-- is modelled as `createNew` returns it, so `from_buffer` is a function of the type alone; what the
-- object holds afterwards is a `Value`, which `to_buffer` writes. A field that is read into a second
-- time is the subject of Reuse.
pub mod Types
pub mod Simple
pub mod Typing
pub mod RoundTrip
pub mod Reuse
use hathor_wallet_lib.Prelude.{
  ℕ, zero, suc, ◌+◌, true, false, Option, none, some, List, [], ◌∷◌, ◌++◌, ◌==◌, if◌then◌else◌,
  drop, get_elem?,
}
use hathor_wallet_lib.Prelude.Int.{ℤ, pos, pos_part}
use hathor_wallet_lib.Result.{Result, ok, err, ◌>>=◌}
use hathor_wallet_lib.Buffer.{Bytes}
use hathor_wallet_lib.Leb128.{encode_unsigned}
use hathor_wallet_lib.Nano.Encoding.{Extract, unsigned_decode, bytes_encode, bytes_decode}
use hathor_wallet_lib.Nano.Fields.Types.{
  TypeNode, TypeNodes, Value, Values, Entries, simple, optional, raw_signed_data, signed_data, dict,
  tuple, list, set, deque, frozenset, no_nodes, node, absent, present, items, each, pairs, signed,
  basic, no_values, value, no_entries, entry, length_values, length_entries, append_values, is_null,
}
use hathor_wallet_lib.Nano.Fields.Simple.{Platform, hold, simple_from_buffer, simple_to_buffer}

abbrev pub Reader : Type 0 → Type 0
Reader A = Bytes → Result (Extract A)

-- OptionalField.fromBuffer: any first byte but 0, and an empty buffer too, goes to the inner field.
pub optional_from_buffer : Reader Value → Reader Value
optional_from_buffer inner buf =
    let parse : Result (Extract Value) = do
      parsed ← inner (drop 1 buf)
      ok (record { value = present parsed.value; bytes_read = parsed.bytes_read + 1 })
    in elim (get_elem? buf 0) [
      | none ↦ parse
      | some tag ↦ if tag == 0 then ok (record { value = absent; bytes_read = 1 }) else parse
    ]

-- One field after the other, each on the slice that the one before left.
unfoldable pub then_read : {A B C : Type 0} → (A → B → C) → Reader A → Reader B → Reader C
then_read pair first second buf = do
  a ← first buf
  b ← second (drop a.bytes_read buf)
  ok (record { value = pair a.value b.value; bytes_read = a.bytes_read + b.bytes_read })

-- The loop of CollectionField.fromBuffer over `len` elements.
unfoldable pub read_items : Reader Value → ℕ → Reader Values
read_items read zero buf = ok (record { value = no_values; bytes_read = 0 })
read_items read (suc n) buf = then_read value read (read_items read n) buf

-- The loop of DictField.fromBuffer.
pub read_entries : Reader Value → Reader Value → ℕ → Reader Entries
read_entries key val zero buf = ok (record { value = no_entries; bytes_read = 0 })
read_entries key val (suc n) buf =
    then_read (λ (kv : Value × Value) es. entry kv.0 kv.1 es) (then_read (λ k v. (k, v)) key val)
      (read_entries key val n) buf

-- The length that stands in front of a collection.
unfoldable pub counted : {A : Type 0} → (ℕ → Reader A) → Reader A
counted loop buf = do
  len_read ← unsigned_decode buf none
  body ← loop (pos_part len_read.value) (drop len_read.bytes_read buf)
  ok (record { value = body.value; bytes_read = len_read.bytes_read + body.bytes_read })

-- CollectionField.fromBuffer: the elements that it reads and returns, and the inner fields that the object
-- then has, onto which it pushes these.
unfoldable pub collection_from_buffer :
    Reader Value → Values → Bytes → Result (Extract Values × Values)
unfolding counted read_items then_read
collection_from_buffer kind inner buf =
    counted (read_items kind) buf >>= λ read. ok (read, append_values inner read.value)

-- The same of an object that createNew returns, which holds what it pushed.
unfoldable pub new_collection_from_buffer : Reader Value → Reader Value
unfolding collection_from_buffer
new_collection_from_buffer kind buf = collection_from_buffer kind no_values buf >>= λ done.
    ok (record { value = items done.1; bytes_read = (done.0).bytes_read })

pub dict_from_buffer : Reader Value → Reader Value → Reader Value
unfolding counted read_entries then_read
dict_from_buffer key val buf = counted (read_entries key val) buf >>= hold pairs

-- SignedDataField.fromBuffer
pub signed_from_buffer : Reader Value → List ℕ → Reader Value
unfolding then_read
signed_from_buffer inner subtype =
    then_read (λ v signature. signed v subtype signature) inner bytes_decode

module _ (p : Platform) where
  unfoldable mutual
    unfolding optional_from_buffer new_collection_from_buffer dict_from_buffer signed_from_buffer
        then_read

    pub from_buffer : TypeNode → Bytes → Result (Extract Value)
    from_buffer (simple s) buf = simple_from_buffer p s buf >>= hold basic
    from_buffer (optional t) buf = optional_from_buffer (from_buffer t) buf
    from_buffer (raw_signed_data t subtype) buf = signed_from_buffer (from_buffer t) subtype buf
    from_buffer (signed_data t subtype) buf = signed_from_buffer (from_buffer t) subtype buf
    from_buffer (dict k v) buf = dict_from_buffer (from_buffer k) (from_buffer v) buf
    from_buffer (tuple ts) buf = from_buffers ts buf >>= hold each
    from_buffer (list t) buf = new_collection_from_buffer (from_buffer t) buf
    from_buffer (set t) buf = new_collection_from_buffer (from_buffer t) buf
    from_buffer (deque t) buf = new_collection_from_buffer (from_buffer t) buf
    from_buffer (frozenset t) buf = new_collection_from_buffer (from_buffer t) buf

    -- The loop of TupleField.fromBuffer over the element fields.
    pub from_buffers : TypeNodes → Bytes → Result (Extract Values)
    from_buffers no_nodes buf = ok (record { value = no_values; bytes_read = 0 })
    from_buffers (node t ts) buf = then_read value (from_buffer t) (from_buffers ts) buf

  unfoldable mutual
    pub to_buffer : Value → Result Bytes
    to_buffer (basic b) = simple_to_buffer p b
    to_buffer absent = ok (0 ∷ [])
    to_buffer (present v) = elim (is_null v) as (λ _. Result Bytes) [
      | true ↦ ok (0 ∷ [])
      | false ↦ to_buffer v >>= λ bytes. ok (1 ∷ bytes)
    ]
    to_buffer (each vs) = to_buffers vs
    to_buffer (items vs) = encode_unsigned (pos (length_values vs)) none >>= λ front.
        to_buffers vs >>= λ body. ok (front ++ body)
    to_buffer (pairs es) = encode_unsigned (pos (length_entries es)) none >>= λ front.
        to_buffer_entries es >>= λ body. ok (front ++ body)
    to_buffer (signed v subtype signature) =
        to_buffer v >>= λ bytes. bytes_encode signature >>= λ sig. ok (bytes ++ sig)

    pub to_buffers : Values → Result Bytes
    to_buffers no_values = ok []
    to_buffers (value v vs) = to_buffer v >>= λ bytes. to_buffers vs >>= λ more. ok (bytes ++ more)

    pub to_buffer_entries : Entries → Result Bytes
    to_buffer_entries no_entries = ok []
    to_buffer_entries (entry k v es) = to_buffer k >>= λ key.
        to_buffer v >>= λ val. to_buffer_entries es >>= λ more. ok (key ++ val ++ more)
