-- ===== src/Store/Queries.antt =====
-- `build_query_ranges` of dcb-layer/src/query.rs over a store that holds a history.
use dcb_layer.Common.{
  ◌≡◌, refl, sym, ◌∙◌, subst, ◌↔◌, ◌⊎◌, inl, inr, Bool, false, true≢false, Option, List, [], ◌∷◌,
  All, All-In, All-of_In, In, Subset, ok, collect, collect_total, In-collect, In-collect_of,
}
use dcb_layer.Common.Bytes.{Bytes, Text, IsBytes}
use dcb_layer.Types.{
  Versionstamp, StoredEvent, QueryItem, has_no_type_nor_tags, has_types_only, has_types_and_tags,
}
use dcb_layer.Tuple.{Codec}
use dcb_layer.Tuple.Laws.{CodecLaws}
use dcb_layer.Fdb.{KeyValue, Transaction}
use dcb_layer.Fdb.Laws.{Sees}
use dcb_layer.Encoding.Tags.{sort_tags}
use dcb_layer.Encoding.Tags.Sorted.{In-sort_tags, sort_tags-IsAscending}
use dcb_layer.Encoding.Tags.Subsets.{In-generate-sort_tags}
use dcb_layer.Encoding.Keys.{tag_type_prefix, tag_sentinel_elems}
use dcb_layer.Encoding.Keys.Layout.{NoReserved}
use dcb_layer.Query.{range_for, build_query_ranges}
use dcb_layer.Store.{Matches, IsAfter, Found, IndexedUnder, Holds}
use dcb_layer.Store.Range.{
  IsPosition, range_total, not_ff, tag_type_prefix-IsBytes, entry_of_range, range_entry,
}
use dcb_layer.Store.Reads.{SomeRead, Reads, Reads-map, SomeRead-Reads}
use dcb_layer.Store.Discover.{In-slice}
use dcb_layer.Store.Types.{discover_types-Found}

-- A query item as validation lets it through, its texts of bytes.
pub record IsQueryItem (item : QueryItem) : Type 0 where
  pub asks : has_no_type_nor_tags item ≡ false
  pub types_bytes : All IsBytes item.types
  pub tags_bytes : All IsBytes item.tags
  pub tags_unreserved : NoReserved item.tags

sort_tags-All : (P : Text → Type 0) (tags : List Text) → All P tags → All P (sort_tags tags)
sort_tags-All P tags h =
    All-of_In P (sort_tags tags) (λ x m. All-In P tags h x ((In-sort_tags x tags).0 m))

prefix_not_ff :
    (c : Codec) (laws : CodecLaws c) (namespace : Text) (tags : List Text) (t : Text)
    → ¬ All (λ b. b ≡ 0xFF) (tag_type_prefix c namespace tags t)
unfolding tag_type_prefix tag_sentinel_elems
prefix_not_ff c laws namespace tags t = not_ff c laws namespace _

module _ (c : Codec) (laws : CodecLaws c) {namespace : Text} {history : List StoredEvent}
    {kvs : List KeyValue} (holds : Holds c namespace history kvs) (after : Option Versionstamp)
    (position : IsPosition after) where
  -- The ranges of a list of types under the tags.
  typed_ranges :
      (tags : List Text)
      → All IsBytes tags
      → NoReserved tags
      → (types : List Text) → All IsBytes types
      → (ranges : List (Bytes × Bytes)) × (collect
            (λ t. range_for c after (tag_type_prefix c namespace tags t))
            types
          ≡ ok ranges)
        × Reads history kvs ranges (λ se.
          (In se.event.type_name types × IndexedUnder tags se.event) × IsAfter after se.position)
  typed_ranges tags tags_bytes unreserved types types_bytes =
      let f = λ (t : Text). range_for c after (tag_type_prefix c namespace tags t) in
      let bytes = λ (t : Text) (m : In t types). All-In IsBytes types types_bytes t m in
      let (ranges, r) = collect_total f types (λ t m.
        range_total c laws (tag_type_prefix c namespace tags t)
          (tag_type_prefix-IsBytes namespace holds.namespace_bytes tags tags_bytes c laws t
            (bytes t m))
          after (prefix_not_ff c laws namespace tags t)) in
      (
        ranges,
        r,
        record {
          entries = λ range m.
              let (t, n, e) = In-collect f types ranges range r m in
              (
                tag_type_prefix c namespace tags t,
                λ kv k.
                    let (l, w) = (In-slice range kv kvs).0 k in
                    let (se, i, (q, u), a, key) =
                      entry_of_range c laws holds tags tags_bytes unreserved t (bytes t n) after
                        position e kv l w in
                    (se, i, ((subst (λ (x : Text). In x types) (sym q) n, u), a), key),
              );
          events = λ se m ((n, i), a).
              let t = se.event.type_name in
              let (range, k, e) = In-collect_of f types ranges t r n in
              let (kv, l, w, key) =
                range_entry c laws holds tags tags_bytes unreserved t (bytes t n) after position e
                  se m refl i a in
              (
                range,
                kv,
                tag_type_prefix c namespace tags t,
                k,
                (In-slice range kv kvs).1 (l, w),
                key,
              );
        },
      )

  -- What is indexed under the sorted tags of a query carries the tags.
  IndexedUnder-Subset :
      (tags : List Text) (se : StoredEvent)
      → In se history
      → IndexedUnder (sort_tags tags) se.event ↔ Subset tags se.event.tags
  IndexedUnder-Subset tags se m =
      let both =
        In-generate-sort_tags se.event.tags (sort_tags tags) (holds.storable se m).tags_few
          (sort_tags-IsAscending tags) in
      (
        λ i z k. both.0 i z ((In-sort_tags z tags).1 k),
        λ f. both.1 (λ z k. f z ((In-sort_tags z tags).0 k)),
      )

  module _ (item : QueryItem) (query : IsQueryItem item) (tr : Transaction) (snapshot : Bool)
      (sees : Sees snapshot tr kvs) where
    -- The outcome of an item: ranges that hold a pair exactly if some event matches it.
    abbrev HasRanges : Type 0
    HasRanges =
        (ranges : List (Bytes × Bytes)) × (build_query_ranges c tr namespace item after snapshot
          ≡ ok ranges)
        × Reads history kvs ranges (λ se. Matches se.event item × IsAfter after se.position)

    -- The ranges of some types are those of the item, if they are the types of its events.
    HasRanges-types :
        (types : List Text)
        → All IsBytes types
        → ((se : StoredEvent)
            → In se history
            → IndexedUnder (sort_tags item.tags) se.event
            → In se.event.type_name types ↔ ((item.types ≡ []) ⊎ In se.event.type_name item.types))
        → build_query_ranges c tr namespace item after snapshot
          ≡ collect
              (λ t. range_for c after (tag_type_prefix c namespace (sort_tags item.tags) t))
              types
        → HasRanges
    HasRanges-types types types_bytes same run =
        let (ranges, r, found) =
          typed_ranges (sort_tags item.tags) (sort_tags-All IsBytes item.tags query.tags_bytes)
            (sort_tags-All _ item.tags query.tags_unreserved) types types_bytes in
        (
          ranges,
          run ∙ r,
          Reads-map found (λ se m. (
            λ ((n, i), a). (((same se m i).0 n, (IndexedUnder-Subset item.tags se m).0 i), a),
            λ ((n, f), a).
                let i = (IndexedUnder-Subset item.tags se m).1 f in (((same se m i).1 n, i), a),
          )),
        )

  module _ (tr : Transaction) (snapshot : Bool) (sees : Sees snapshot tr kvs) where
    -- Types that the item names are the types of its events.
    named :
        (t : Text) (ts : List Text) (x : Text) → In x (t ∷ ts) ↔ (((t ∷ ts) ≡ []) ⊎ In x (t ∷ ts))
    named t ts x = (λ m. inr m, λ m. elim m [ inl e ↦ absurd cc | inr n ↦ n ])

    by_shape :
        (types tags : List Text) (query : IsQueryItem (record { types = types; tags = tags }))
        → HasRanges (record { types = types; tags = tags }) query tr snapshot sees
    unfolding build_query_ranges has_no_type_nor_tags has_types_only has_types_and_tags sort_tags
    by_shape [] [] query = absurd (true≢false query.asks)
    by_shape (t ∷ ts) [] query =
        HasRanges-types _ query tr snapshot sees (t ∷ ts) query.types_bytes
          (λ se m i. named t ts se.event.type_name) refl
    by_shape (t ∷ ts) (g ∷ gs) query =
        HasRanges-types _ query tr snapshot sees (t ∷ ts) query.types_bytes
          (λ se m i. named t ts se.event.type_name) refl
    by_shape [] (g ∷ gs) query =
        let tags = sort_tags (g ∷ gs) in
        let (types, run, exact) =
          discover_types-Found c laws holds tr snapshot sees tags
            (sort_tags-All IsBytes (g ∷ gs) query.tags_bytes)
            (sort_tags-All _ (g ∷ gs) query.tags_unreserved) in
        HasRanges-types _ query tr snapshot sees types
          (All-of_In IsBytes types (λ t m.
            let (se, k, (e, i), a) = (exact t).0 m in
            subst IsBytes e (holds.storable se k).type_bytes))
          (λ se m i. (λ n. inl refl, λ n. (exact se.event.type_name).1 (se, m, (refl, i), tt)))
          (rw run refl)

    -- The ranges of an item read the events that match it after the position.
    pub build_query_ranges-Reads :
        (item : QueryItem)
        → IsQueryItem item
        → (ranges : List (Bytes × Bytes)) × (build_query_ranges c tr namespace item after snapshot
            ≡ ok ranges)
          × Reads history kvs ranges (λ se. Matches se.event item × IsAfter after se.position)
    build_query_ranges-Reads item query = by_shape item.types item.tags query

    -- For a codec that meets the laws, a store that holds a history and a transaction whose reads,
    -- snapshots or not, see its pairs, `build_query_ranges` succeeds for an item that asks for
    -- something, with texts of bytes and no reserved tag, and the ranges hold a pair of the store
    -- exactly if some event of the history matches the item and lies after the given position of 12
    -- bytes, if one is given.
    pub build_query_ranges-Found :
        (item : QueryItem)
        → IsQueryItem item
        → (ranges : List (Bytes × Bytes)) × (build_query_ranges c tr namespace item after snapshot
            ≡ ok ranges)
          × (SomeRead ranges kvs ↔ Found (λ e. Matches e item) history after)
    build_query_ranges-Found item query =
        let (ranges, run, reads) = build_query_ranges-Reads item query in
        let both = SomeRead-Reads reads in
        (
          ranges,
          run,
          (
            λ s. let (se, m, (p, a)) = both.0 s in (se, m, p, a),
            λ (se, m, p, a). both.1 (se, m, (p, a)),
          ),
        )
