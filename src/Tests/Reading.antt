-- ===== src/Tests/Reading.antt =====
-- The theorems of the reads, at a store with one event: witnesses.
use dcb_layer.Common.{
  ◌≡◌, refl, inl, inr, false, true, none, some, List, [], ◌∷◌, In, All, ok, arith,
}
use dcb_layer.Common.Bytes.{text, eq, lt, le}
use dcb_layer.Types.{
  Versionstamp, Query, QueryItem, ReadOptions, has_no_type_nor_tags, has_types_only,
  has_types_and_tags,
}
use dcb_layer.Encoding.Keys.{
  vs_to_fdb, pack_event_key, pack_sentinel_key, tag_type_prefix, tag_sentinel_elems,
  events_in_tag_prefix,
}
use dcb_layer.Encoding.Values.RoundTrip.{IsEvent}
use dcb_layer.Fdb.Laws.{lookup, slice, in_range}
use dcb_layer.Store.{HoldsEvents}
use dcb_layer.Store.Queries.{IsQueryItem}
use dcb_layer.Read.{all_ranges, stream_option, key_of}
use dcb_layer.Fdb.{range_option}
use dcb_layer.Query.{
  build_query_ranges, range_for, prefix_range, strinc, discover_types_in_tag_subspace,
}
use dcb_layer.Encoding.Tags.{sort_tags}
use dcb_layer.Read.{TransactBoxed}
use dcb_layer.Read.Order.{IsOrdered, IsFirst}
use dcb_layer.Read.Keys.{extract_vs_from_key}
use dcb_layer.Read.Merge.{KeyStream, merge_streams}
use dcb_layer.Read.Merge.Streams.{AllYield, Source, merge_streams-IsFirst}
use dcb_layer.Read.Outcome.{keys_given}
use dcb_layer.Tests.Running.{pairs_1, on_pairs}
use dcb_layer.Tests.Plain.{plain}
use dcb_layer.Tests.Scene.{
  namespace, stamp_1, event_1, history, pairs, reader, by_tag, by_tag-IsQueryItem,
}

event_1-IsEvent : IsEvent event_1
event_1-IsEvent = record {
  type_bytes = omega arith;
  tag_bytes = omega arith;
  payload_bytes = omega arith;
}

pub pairs-HoldsEvents : HoldsEvents plain namespace history pairs
unfolding lookup eq plain pack_event_key vs_to_fdb
pairs-HoldsEvents se (inl e) = rw e (event_1-IsEvent, refl)
pairs-HoldsEvents se (inr n) = absurd n

abbrev pub by_type : QueryItem
by_type = record { types = text "a" ∷ []; tags = [] }

by_type-IsQueryItem : IsQueryItem by_type
unfolding has_no_type_nor_tags
by_type-IsQueryItem = record {
  asks = refl;
  types_bytes = omega arith;
  tags_bytes = tt;
  tags_unreserved = tt;
}

-- Two items that both match the event, so that its position is in two ranges.
abbrev pub twice : Query
twice = record { items = by_tag ∷ by_type ∷ [] }

abbrev pub one_back : ReadOptions
one_back = record { limit = 1; after = none; reverse = true }

pub twice-IsQueryItem : (item : QueryItem) → In item twice.items → IsQueryItem item
twice-IsQueryItem item (inl e) = rw e by_tag-IsQueryItem
twice-IsQueryItem item (inr (inl e)) = rw e by_type-IsQueryItem
twice-IsQueryItem item (inr (inr n)) = absurd n

-- Each item has one range, and each range gives one key.
pub twice-keys_given : keys_given plain reader namespace twice one_back ≡ 2
unfolding reader plain all_ranges build_query_ranges discover_types_in_tag_subspace range_for
    prefix_range strinc tag_type_prefix tag_sentinel_elems events_in_tag_prefix sort_tags slice
    in_range lt le vs_to_fdb pack_event_key stream_option range_option key_of has_no_type_nor_tags
    has_types_only has_types_and_tags
twice-keys_given = refl

-- Two streams of the keys of three stamps, one of them in both.
abbrev early : Versionstamp
early = 0 ∷ 0 ∷ 0 ∷ 0 ∷ 0 ∷ 0 ∷ 0 ∷ 0 ∷ 0 ∷ 2 ∷ 0 ∷ 0 ∷ []

abbrev late : Versionstamp
late = 0 ∷ 0 ∷ 0 ∷ 0 ∷ 0 ∷ 0 ∷ 0 ∷ 0 ∷ 0 ∷ 2 ∷ 0 ∷ 1 ∷ []

abbrev two_streams : List KeyStream
two_streams =
    (ok (9 ∷ 51 ∷ stamp_1) ∷ ok (9 ∷ 51 ∷ late) ∷ [])
    ∷ (ok (8 ∷ 51 ∷ early) ∷ ok (8 ∷ 51 ∷ late) ∷ [])
    ∷ []

abbrev two_lists : List (List Versionstamp)
two_lists = (stamp_1 ∷ late ∷ []) ∷ (early ∷ late ∷ []) ∷ []

two_streams-AllYield : AllYield two_streams two_lists
unfolding extract_vs_from_key
two_streams-AllYield = ((refl, (refl, tt)), ((refl, (refl, tt)), tt))

two_lists-IsOrdered : All (IsOrdered false) two_lists
unfolding lt
two_lists-IsOrdered = (((refl, tt), (tt, tt)), (((refl, tt), (tt, tt)), tt))

merge_streams-IsFirst_example :
    (found : List Versionstamp) × (merge_streams 5 2 false two_streams ≡ some (ok found))
    × IsFirst false 2 (Source two_lists) found
merge_streams-IsFirst_example =
    merge_streams-IsFirst false 2 5 two_streams two_lists two_streams-AllYield two_lists-IsOrdered
      (omega arith)

pub pairs_1-keys_given : keys_given plain (on_pairs pairs_1) namespace twice one_back ≡ 2
unfolding on_pairs plain all_ranges build_query_ranges discover_types_in_tag_subspace range_for
    prefix_range strinc tag_type_prefix tag_sentinel_elems events_in_tag_prefix sort_tags slice
    in_range lt le vs_to_fdb pack_event_key pack_sentinel_key stream_option range_option key_of
    has_no_type_nor_tags has_types_only has_types_and_tags
pairs_1-keys_given = refl

-- A client whose first transaction is the reader.
abbrev first_reader : TransactBoxed
first_reader run option = run reader
