-- ===== src/Append/Exists.antt =====
-- `query_item_exists` of dcb-layer/src/append.rs finds an event exactly if one matches.
use dcb_layer.Common.{
  ◌≡◌, refl, sym, ap, subst, ◌∙◌, ◌↔◌, inl, inr, Bool, true, false, true≢false, Option, some, List,
  [], ◌∷◌, map, take, In, ok, Bool-cases,
}
use dcb_layer.Common.Bytes.{Bytes, Text}
use dcb_layer.Types.{Versionstamp, StoredEvent, QueryItem}
use dcb_layer.Tuple.{Codec}
use dcb_layer.Tuple.Laws.{CodecLaws}
use dcb_layer.Fdb.{KeyValue, Transaction, range_option, small}
use dcb_layer.Fdb.Laws.{slice, Sees}
use dcb_layer.Store.{Matches, Found, Holds}
use dcb_layer.Store.Range.{IsPosition}
use dcb_layer.Store.Reads.{SomeRead}
use dcb_layer.Store.Queries.{IsQueryItem, build_query_ranges-Found}
use dcb_layer.Append.{consume_first_kv, first_true, probe, query_item_exists}

-- A stream of pairs has a first one if it has any.
consume_first_kv-limited :
    (kvs : List KeyValue)
    → (b : Bool) × (consume_first_kv (map ok (take 1 kvs)) ≡ ok b)
      × ((b ≡ true) ↔ ((kv : KeyValue) × In kv kvs))
unfolding consume_first_kv
consume_first_kv-limited [] = (false, refl, (λ h. cc, λ h. absurd h.1))
consume_first_kv-limited (kv ∷ kvs) = (true, refl, (λ h. (kv, inl refl), λ h. refl))

module _ {tr : Transaction} {kvs : List KeyValue} (sees : Sees false tr kvs) where
  -- A probe tells whether its range holds a pair.
  probe-found :
      (range : Bytes × Bytes)
      → (b : Bool) × (probe tr range ≡ ok b)
        × ((b ≡ true) ↔ ((kv : KeyValue) × In kv (slice range kvs)))
  unfolding probe range_option
  probe-found range =
      let (b, e, exact) = consume_first_kv-limited (slice range kvs) in
      (
        b,
        ap consume_first_kv
              (sees.range_lem (record (range_option range) { limit = some 1; mode = small }))
            ∙ e,
        exact,
      )

  -- Some probe finds a pair exactly if some range holds one.
  first_true-probes :
      (ranges : List (Bytes × Bytes))
      → (b : Bool) × (first_true (map (probe tr) ranges) ≡ ok b)
        × ((b ≡ true) ↔ SomeRead ranges kvs)
  unfolding first_true
  first_true-probes [] = (false, refl, (λ h. cc, λ h. absurd h.2))
  first_true-probes (range ∷ ranges) =
      let (b, e, exact) = probe-found range in
      let (d, f, more) = first_true-probes ranges in
      elim (Bool-cases b) [
        | inl hit ↦ (
          true,
          rw (e, hit) refl,
          (λ h. (range, (exact.0 hit).0, inl refl, (exact.0 hit).1), λ h. refl),
        )
        | inr miss ↦ (
          d,
          rw (e, miss) f,
          (
            λ h. let (r, kv, m, k) = more.0 h in (r, kv, inr m, k),
            λ (r, kv, m, k). elim m [
              | inl same ↦ absurd (
                  true≢false (
                    sym (exact.1 (kv, subst (λ (x : Bytes × Bytes). In kv (slice x kvs)) same k))
                    ∙ miss))
              | inr n ↦ more.1 (r, kv, n, k)
            ],
          ),
        )
      ]

module _ (c : Codec) (laws : CodecLaws c) {namespace : Text} {history : List StoredEvent}
    {kvs : List KeyValue} (holds : Holds c namespace history kvs) (tr : Transaction)
    (sees : Sees false tr kvs) (after : Option Versionstamp) (position : IsPosition after) where
  -- For a codec that meets the laws, a store that holds a history and a transaction whose reads
  -- other than snapshots see its pairs, `query_item_exists` succeeds for an item that asks for
  -- something, with texts of bytes and no reserved tag, and answers true exactly if some event of
  -- the history has one of the item's types, if it names any, and all of its tags, and lies after
  -- the given position of 12 bytes, if one is given.
  pub query_item_exists-Found :
      (item : QueryItem)
      → IsQueryItem item
      → (b : Bool) × (query_item_exists c tr namespace item after ≡ ok b)
        × ((b ≡ true) ↔ Found (λ e. Matches e item) history after)
  unfolding query_item_exists
  query_item_exists-Found item query =
      let (ranges, r, found) =
        build_query_ranges-Found c laws holds after position tr false sees item query in
      let (b, e, exact) = first_true-probes sees ranges in
      (b, rw r e, (λ h. found.0 (exact.0 h), λ h. exact.1 (found.1 h)))
