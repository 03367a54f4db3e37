-- ===== src/Nano/Fields/RoundTrip.antt =====
-- Every field writes what it reads back: nano contract arguments survive serialization.
mod Basic
mod Combine
mod Containers
use hathor_wallet_lib.Prelude.{ℕ, zero, suc, ◌+◌, ◌≢◌, refl, ◌∙◌, arith, none, List, [], ◌∷◌}
use hathor_wallet_lib.Prelude.Int.{pos}
use hathor_wallet_lib.Result.{Result, ◌>>=◌}
use hathor_wallet_lib.Leb128.Encode.{encoding}
use hathor_wallet_lib.Nano.Encoding.{Extract, bytes_decode}
use hathor_wallet_lib.Nano.Encoding.Laws.{
  ReadsAs, encode_unsigned-eq, with_length, bytes_encode-eq, bytes-ReadsAs,
}
use hathor_wallet_lib.Nano.Fields.Types.{
  TypeNode, TypeNodes, Value, Values, Entries, simple, optional, raw_signed_data, signed_data, dict,
  tuple, list, set, deque, frozenset, no_nodes, node, absent, present, items, each, pairs, signed,
  basic, no_values, no_entries, entry, length_values, length_entries,
}
use hathor_wallet_lib.Nano.Fields.Simple.{Platform, hold, simple_from_buffer, simple_to_buffer}
use hathor_wallet_lib.Nano.Fields.{
  Reader, optional_from_buffer, then_read, read_items, read_entries, counted,
  new_collection_from_buffer, dict_from_buffer, signed_from_buffer, from_buffer, from_buffers,
  to_buffer, to_buffers, to_buffer_entries,
}
use hathor_wallet_lib.Nano.Fields.Typing.{
  HasType, EachHasType, AllHaveType, EntriesHaveType, simple_has, absent_has, present_has,
  raw_signed_has, signed_has, dict_has, tuple_has, list_has, set_has, deque_has, frozenset_has,
  each_nil, each_cons, all_nil, all_cons, entries_nil, entries_cons, IsShort,
}
use Basic.{simple_round_trip}
use Combine.{hold-ReadsAs, then_read-ReadsAs, counted-ReadsAs, absent-ReadsAs, present-ReadsAs}
use Containers.{
  Written, basic-Written, present-Written, signed-Written, collection-Written, dict-Written,
  cons-Written, entry-Written, each-Written,
}

module _ (p : Platform) (distinct : p.network.shielded ≢ p.network.p2pkh) where
  mutual
    unfolding from_buffer to_buffer

    round_trip :
        {t : TypeNode} {v : Value} → HasType p t v → Written (to_buffer p v) (from_buffer p t) v
    round_trip (simple_has {s = s} {b = b} h) =
        basic-Written (simple_to_buffer p b) (simple_from_buffer p s) b
          (simple_round_trip p distinct h)
    round_trip (absent_has t) = (0 ∷ [], refl, absent-ReadsAs (from_buffer p t))
    round_trip (present_has {t = t} {v = v} h given) =
        present-Written (to_buffer p v) (from_buffer p t) v given (round_trip h)
    round_trip (raw_signed_has {t = t} {v = v} subtype signature h s) =
        signed-Written (to_buffer p v) (from_buffer p t) v subtype signature s (round_trip h)
    round_trip (signed_has {t = t} {v = v} subtype signature h s) =
        signed-Written (to_buffer p v) (from_buffer p t) v subtype signature s (round_trip h)
    round_trip (dict_has {k = k} {v = v} {es = es} h) =
        dict-Written (to_buffer_entries p es) (from_buffer p k) (from_buffer p v) es
          (entries_round_trip h)
    round_trip (tuple_has {ts = ts} {vs = vs} h) =
        each-Written (to_buffers p vs) (from_buffers p ts) vs (each_round_trip h)
    round_trip (list_has {t = t} {vs = vs} h) =
        collection-Written (to_buffers p vs) (from_buffer p t) vs (all_round_trip h)
    round_trip (set_has {t = t} {vs = vs} h) =
        collection-Written (to_buffers p vs) (from_buffer p t) vs (all_round_trip h)
    round_trip (deque_has {t = t} {vs = vs} h) =
        collection-Written (to_buffers p vs) (from_buffer p t) vs (all_round_trip h)
    round_trip (frozenset_has {t = t} {vs = vs} h) =
        collection-Written (to_buffers p vs) (from_buffer p t) vs (all_round_trip h)

    each_round_trip :
        {ts : TypeNodes} {vs : Values}
        → EachHasType p ts vs
        → Written (to_buffers p vs) (from_buffers p ts) vs
    each_round_trip each_nil = ([], refl, λ rest. refl)
    each_round_trip (each_cons {t = t} {ts = ts} {v = v} {vs = vs} h hs) =
        cons-Written (to_buffer p v) (to_buffers p vs) (from_buffer p t) (from_buffers p ts) v vs
          (round_trip h) (each_round_trip hs)

    all_round_trip :
        {t : TypeNode} {vs : Values}
        → AllHaveType p t vs
        → Written (to_buffers p vs) (read_items (from_buffer p t) (length_values vs)) vs
    all_round_trip (all_nil t) = ([], refl, λ rest. refl)
    all_round_trip (all_cons {t = t} {v = v} {vs = vs} h hs) =
        cons-Written (to_buffer p v) (to_buffers p vs) (from_buffer p t)
          (read_items (from_buffer p t) (length_values vs)) v vs (round_trip h) (all_round_trip hs)

    entries_round_trip :
        {k v : TypeNode} {es : Entries}
        → EntriesHaveType p k v es
        → Written
            (to_buffer_entries p es)
            (read_entries (from_buffer p k) (from_buffer p v) (length_entries es))
            es
    entries_round_trip (entries_nil k v) = ([], refl, λ rest. refl)
    entries_round_trip (entries_cons {k = k} {v = v} {a = a} {b = b} {es = es} h i hs) =
        entry-Written (to_buffer p a) (to_buffer p b) (to_buffer_entries p es) (from_buffer p k)
          (from_buffer p v) (read_entries (from_buffer p k) (from_buffer p v) (length_entries es)) a
          b es (round_trip h) (round_trip i) (entries_round_trip hs)
