-- ===== src/Query.antt =====
-- dcb-layer/src/query.rs: key ranges of a query item, and the discovery of the types under a set
-- of tags. The prefix builders of that file stand in Encoding/Keys.antt.
pub mod Strinc
pub mod After
use dcb_layer.Common.{
  ℕ, zero, suc, ◌+◌, ◌-◌, ◌%◌, Bool, Option, none, some, List, [], ◌∷◌, ◌++◌, length, take, set,
  get_or, get_elem?, any, ltb, ◌==◌, if◌then◌else◌, Result, ok, err, ◌>>=◌, ◌>>◌, map_err, collect,
}
use dcb_layer.Common.Bytes.{Bytes, Text, eq}
use dcb_layer.Types.{
  Versionstamp, QueryItem, has_no_type_nor_tags, has_types_only, has_types_and_tags,
}
use dcb_layer.Error.{Error, all_ff_key, invalid_query, fdb, tuple_decode, unpack_failed}
use dcb_layer.Tuple.{Element, string, versionstamp, Codec}
use dcb_layer.Fdb.{KeyValue, FdbResult, Transaction, range_option}
use dcb_layer.Encoding.Tags.{sort_tags}
use dcb_layer.Encoding.Keys.{vs_to_fdb, tag_type_prefix, events_in_tag_prefix}

-- `for i in (0..key.len()).rev()`, with `i` indices left: the last byte that is not 0xFF goes up by
-- one, and what follows it is cut off.
strinc_from : ℕ → Bytes → Result Bytes Error
strinc_from zero key = err all_ff_key
strinc_from (suc i) key =
    let rest = strinc_from i key in
    if get_or key i 0 == 0xFF
    then rest
    else ok (take (suc i) (set key i ((get_or key i 0 + 1) % 256)))

unfoldable pub strinc : Bytes → Result Bytes Error
unfolding strinc_from
strinc key = strinc_from (length key) key

unfoldable pub prefix_range : Bytes → Result (Bytes × Bytes) Error
prefix_range prefix = do end ← strinc prefix; ok (prefix, end)

-- `elements[elements.len() - 2]`, where it is a string that is not among the types seen, is noted
-- as a type and as seen.
unfoldable pub note_type : ℕ → List Element → List Text × List Text → List Text × List Text
note_type min_len elements (types, seen) =
    if ltb (length elements) min_len
    then (types, seen)
    else elim (get_elem? elements (length elements - 2)) [
      | some (string s) ↦ if any (eq s) seen then (types, seen) else (types ++ s ∷ [], s ∷ seen)
      | _ ↦ (types, seen)
    ]

module _ (c : Codec) where
  unfoldable pub after_range : Bytes → Versionstamp → Result (Bytes × Bytes) Error
  after_range prefix after =
      let vs_bytes = c.pack (versionstamp (vs_to_fdb after) ∷ []) in
      let begin = (prefix ++ vs_bytes) ++ 0x00 ∷ [] in do end ← strinc prefix; ok (begin, end)

  -- The body of the `for` loops over the types: the range of one subspace.
  unfoldable pub range_for : Option Versionstamp → Bytes → Result (Bytes × Bytes) Error
  unfolding after_range prefix_range
  range_for (some vs) prefix = after_range prefix vs
  range_for none prefix = prefix_range prefix

  -- `while let Some(result) = stream.next().await`, over what is left of the stream.
  unfoldable pub discover_loop :
      ℕ → List (FdbResult KeyValue) → List Text × List Text → Result (List Text) Error
  unfolding note_type eq
  discover_loop min_len [] found = ok found.0
  discover_loop min_len (result ∷ stream) found = do
    kv ← map_err fdb result
    elements ← map_err (λ e. tuple_decode (unpack_failed e)) (c.unpack kv.key)
    discover_loop min_len stream (note_type min_len elements found)

  unfoldable pub discover_types_in_tag_subspace :
      Transaction → Text → List Text → Bool → Result (List Text) Error
  unfolding discover_loop prefix_range
  discover_types_in_tag_subspace tr namespace sorted_tags snapshot = do
    range ← prefix_range (events_in_tag_prefix c namespace sorted_tags)
    discover_loop (length sorted_tags + 5) (tr.get_ranges_keyvalues (range_option range) snapshot)
        ([], [])

  unfoldable pub build_query_ranges :
      Transaction
      → Text
      → QueryItem
      → Option Versionstamp
      → Bool
      → Result (List (Bytes × Bytes)) Error
  unfolding discover_types_in_tag_subspace range_for
  build_query_ranges tr namespace item after snapshot =
      if has_no_type_nor_tags item
      then err invalid_query
      else if has_types_only item
      then collect (λ type_name. range_for after (tag_type_prefix c namespace [] type_name))
          item.types
      else let sorted_tags = sort_tags item.tags in
        do
          types ←
              if has_types_and_tags item
              then ok item.types
              else discover_types_in_tag_subspace tr namespace sorted_tags snapshot
          collect (λ type_name. range_for after (tag_type_prefix c namespace sorted_tags type_name))
              types
