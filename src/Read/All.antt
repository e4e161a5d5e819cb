-- ===== src/Read/All.antt =====
-- `scan_all_events` of dcb-layer/src/read.rs over a store that holds a history.
use dcb_layer.Common.{
  ◌≡◌, refl, sym, ap, ap₂, ◌∙◌, subst, ◌↔◌, inl, inr, true, false, true≢false, none, some, List, [],
  ◌∷◌, In, In-map, In-map_inv, map, All-In, All-of_In, arith, ok,
}
use dcb_layer.Common.Bytes.{Bytes, Text, IsBytes, lt, lt_irrefl, lt_asymm, lt-append}
use dcb_layer.Types.{StoredEvent}
use dcb_layer.Tuple.{Codec}
use dcb_layer.Tuple.Laws.{CodecLaws}
use dcb_layer.Fdb.{KeyValue, Transaction}
use dcb_layer.Fdb.Laws.{KeysAscend, slice, lookup, Sees}
use dcb_layer.Fdb.Lookup.{lookup-In, In-lookup}
use dcb_layer.Encoding.Keys.{pack_events_prefix, pack_event_key}
use dcb_layer.Encoding.Values.{encode_event_value}
use dcb_layer.Query.{prefix_range, range_for}
use dcb_layer.Query.After.{IsVersionstamp}
use dcb_layer.Query.Strinc.{StartsWith, prefix_range_lem}
use dcb_layer.Store.{Holds, HoldsEvents}
use dcb_layer.Store.Discover.{In-slice}
use dcb_layer.Store.Range.{range_total, not_ff}
use dcb_layer.Read.{scan_all_events}
use dcb_layer.Read.Order.{IsOrdered}
use dcb_layer.Read.Ranges.{KeysAscend-slice}
use dcb_layer.Read.Stored.{event_pair, event_key-position, scan_all_events-events}

-- The first of two lists of ascending keys with the same pairs is the first of both.
first_of_both :
    (x y : KeyValue) (xs ys : List KeyValue)
    → KeysAscend (x ∷ xs)
    → KeysAscend (y ∷ ys)
    → In x (y ∷ ys)
    → In y (x ∷ xs)
    → x ≡ y
first_of_both x y xs ys hx hy (inl e) n = e
first_of_both x y xs ys hx hy (inr m) (inl e) = sym e
first_of_both x y xs ys hx hy (inr m) (inr n) =
    absurd (true≢false (sym (All-In _ xs hx.0 y n) ∙ lt_asymm y.key x.key (All-In _ ys hy.0 x m)))

-- Lists of ascending keys with the same pairs are equal.
ascending_unique :
    (xs ys : List KeyValue)
    → KeysAscend xs
    → KeysAscend ys
    → ((kv : KeyValue) → In kv xs ↔ In kv ys)
    → xs ≡ ys
ascending_unique [] [] hx hy h = refl
ascending_unique [] (y ∷ ys) hx hy h = absurd ((h y).1 (inl refl))
ascending_unique (x ∷ xs) [] hx hy h = absurd ((h x).0 (inl refl))
ascending_unique (x ∷ xs) (y ∷ ys) hx hy h =
    let same = first_of_both x y xs ys hx hy ((h x).0 (inl refl)) ((h y).1 (inl refl)) in
    ap₂ ◌∷◌ same (
      ascending_unique xs ys hx.1 hy.1 (λ kv. (
        λ m. elim ((h kv).0 (inr m)) [
          | inl e ↦ absurd (apart x xs hx kv m (e ∙ sym same))
          | inr n ↦ n
        ],
        λ m. elim ((h kv).1 (inr m)) [ inl e ↦ absurd (apart y ys hy kv m (e ∙ same)) | inr n ↦ n ],
      )))
  where
    apart :
        (z : KeyValue) (zs : List KeyValue)
        → KeysAscend (z ∷ zs)
        → (kv : KeyValue) → In kv zs
        → ¬ (kv ≡ z)
    apart z zs hz kv m e =
        true≢false
          (sym (All-In _ zs hz.0 kv m) ∙ ap (λ (k : KeyValue). lt z.key k.key) e ∙ lt_irrefl z.key)

module _ (c : Codec) (laws : CodecLaws c) {namespace : Text} {history : List StoredEvent}
    {kvs : List KeyValue} (holds : Holds c namespace history kvs)
    (stored : HoldsEvents c namespace history kvs) (ascend : KeysAscend kvs)
    (positions_ascend : IsOrdered false (map (λ se. se.position) history))
    (primary : (kv : KeyValue)
      → In kv kvs
      → StartsWith (pack_events_prefix c namespace) kv.key
      → (se : StoredEvent) × In se history
        × (kv.key ≡ pack_event_key c namespace se.position)) where
  -- The pairs of the events ascend as their positions do.
  event_pairs-KeysAscend :
      (ses : List StoredEvent)
      → ((se : StoredEvent) → In se ses → IsVersionstamp se.position)
      → IsOrdered false (map (λ se. se.position) ses)
      → KeysAscend (map (event_pair c laws namespace) ses)
  event_pairs-KeysAscend [] long o = tt
  event_pairs-KeysAscend (se ∷ ses) long o = (
    All-of_In _ (map (event_pair c laws namespace) ses) (λ kv m.
        let (later, n, e) = In-map_inv (event_pair c laws namespace) kv ses m in
        ap₂ lt (event_key-position c laws namespace se.position (long se (inl refl))) (
          ap (λ (k : KeyValue). k.key) e
          ∙ event_key-position c laws namespace later.position (long later (inr n)))
        ∙ lt-append (pack_events_prefix c namespace) (0x33 ∷ se.position) (0x33 ∷ later.position)
        ∙ lt-append (0x33 ∷ []) se.position later.position
        ∙ All-In _ (map (λ se. se.position) ses) o.0 later.position
            (In-map (λ se. se.position) later ses n)),
    event_pairs-KeysAscend ses (λ x m. long x (inr m)) o.1,
  )

  prefix-IsBytes : IsBytes (pack_events_prefix c namespace)
  unfolding pack_events_prefix
  prefix-IsBytes = laws.pack-IsBytes _ (holds.namespace_bytes, (omega arith, tt))

  events_range :
      (range : Bytes × Bytes) × (prefix_range (pack_events_prefix c namespace) ≡ ok range)
  unfolding range_for pack_events_prefix
  events_range =
      range_total c laws (pack_events_prefix c namespace) prefix-IsBytes none
        (not_ff c laws namespace _)

  In-primary :
      {range : Bytes × Bytes}
      → prefix_range (pack_events_prefix c namespace) ≡ ok range
      → (kv : KeyValue)
      → In kv (slice range kvs) ↔ In kv (map (event_pair c laws namespace) history)
  In-primary {range} r kv = (
    λ m.
        let (n, w) = (In-slice range kv kvs).0 m in
        let (se, k, e) =
          primary kv n ((prefix_range_lem _ kv.key prefix-IsBytes (holds.key_bytes kv n) r).0 w) in
        let found = In-lookup kvs kv.key kv.value ascend n in
        let given =
          subst (λ (x : Bytes). lookup x kvs ≡ some (encode_event_value c se.event)) (sym e)
            (stored se k).1 in
        let value : kv.value ≡ encode_event_value c se.event = cc in
        subst (λ (x : KeyValue). In x (map (event_pair c laws namespace) history))
          (sym (ap₂ (λ (x v : Bytes). record { key = x; value = v }) e value))
          (In-map (event_pair c laws namespace) se history k),
    λ m.
        let (se, k, e) = In-map_inv (event_pair c laws namespace) kv history m in
        let n = lookup-In kvs _ _ (stored se k).1 in
        let starts : StartsWith (pack_events_prefix c namespace)
            (pack_event_key c namespace se.position) =
          (
            0x33 ∷ se.position,
            sym (event_key-position c laws namespace se.position (holds.storable se k).stamped),
          ) in
        subst (λ (x : KeyValue). In x (slice range kvs)) (sym e)
          ((In-slice range (event_pair c laws namespace se) kvs).1
            (n, (prefix_range_lem _ _ prefix-IsBytes (holds.key_bytes _ n) r).1 starts)),
  )

  -- For a codec that meets the laws, a store with ascending keys that holds a history with
  -- ascending positions in its index and in its primary subspace, and no other keys in the latter,
  -- and a transaction whose snapshot reads see its pairs: `scan_all_events` returns exactly the
  -- history, in order.
  pub scan_all_events-history :
      (tr : Transaction) → Sees true tr kvs → scan_all_events c tr namespace ≡ ok history
  scan_all_events-history tr sees =
      let (range, r) = events_range in
      let stamped = λ (se : StoredEvent) (m : In se history). (holds.storable se m).stamped in
      scan_all_events-events c laws namespace history
        (All-of_In _ history (λ se m. ((stored se m).0, stamped se m))) tr sees r
        (ascending_unique (slice range kvs) (map (event_pair c laws namespace) history)
          (KeysAscend-slice range kvs ascend)
          (event_pairs-KeysAscend history stamped positions_ascend) (In-primary r))
