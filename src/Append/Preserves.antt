-- ===== src/Append/Preserves.antt =====
-- A commit of the writes of dcb-layer/src/append.rs keeps the store in step with its history.
use dcb_layer.Common.{
  ◌≡◌, sym, ◌∙◌, subst, ◌⊎◌, inl, inr, List, [], ◌∷◌, ◌++◌, In, In-append, In-append_left,
  In-append_right, All-In, All-of_In, length, arith,
}
use dcb_layer.Common.Bytes.{Bytes, Text, IsBytes}
use dcb_layer.Types.{Event, StoredEvent}
use dcb_layer.Tuple.{string, Codec}
use dcb_layer.Tuple.Laws.{CodecLaws}
use dcb_layer.Fdb.{KeyValue, Mutation}
use dcb_layer.Encoding.Keys.{indexes_sub, vs_to_fdb, pack_event_key, pack_sentinel_key}
use dcb_layer.Encoding.Keys.Layout.{index_key}
use dcb_layer.Query.Strinc.{StartsWith}
use dcb_layer.Store.{IndexedUnder, IsStorable, Holds}
use dcb_layer.Store.Types.{vs_to_fdb-IsComplete, index_elems-ArePackable}
use dcb_layer.Encoding.Tags.Subsets.{In-generate-Subset}
use dcb_layer.Append.{batch}
use dcb_layer.Append.Commit.{
  written_key, Commits, positioned, IsWrite, in_batch, batch-split, events_sources, events_written,
}
use dcb_layer.Append.Keys.{event_key-outside, sentinel-outside}

module _ (c : Codec) (laws : CodecLaws c) {namespace : Text} {history : List StoredEvent}
    {kvs kvs' : List KeyValue} (holds : Holds c namespace history kvs) (events : List Event)
    (tx : Bytes) (ten : length tx ≡ 10)
    (storable : (se : StoredEvent) → In se (positioned tx 0 events) → IsStorable se)
    (commits : Commits c tx (batch c namespace events) kvs kvs') where
  -- A write of the batch is one of an event, or of the sentinel.
  pub batch_sources :
      (m : Mutation)
      → In m (batch c namespace events)
      → ((se : StoredEvent) × In se (positioned tx 0 events)
          × IsWrite c laws namespace holds.namespace_bytes tx ten se (written_key c tx m))
        ⊎ (written_key c tx m ≡ pack_sentinel_key c namespace)
  batch_sources m k = elim (batch-split c namespace tx events m k) [
    | inl n ↦
        inl (events_sources c laws namespace holds.namespace_bytes tx ten events 0 storable m n)
    | inr e ↦ inr e
  ]

  -- A key that the batch writes consists of bytes.
  IsWrite-IsBytes :
      (se : StoredEvent) (key : Bytes)
      → IsStorable se
      → IsWrite c laws namespace holds.namespace_bytes tx ten se key
      → IsBytes key
  unfolding pack_event_key
  IsWrite-IsBytes se key ok (inl e) = subst IsBytes (sym e) (
      laws.pack-IsBytes _
        (holds.namespace_bytes, (omega arith, (vs_to_fdb-IsComplete se.position ok.stamped, tt))))
  IsWrite-IsBytes se key ok (inr (subset, u, e)) = subst IsBytes (sym e) (
      laws.pack-IsBytes _ (
        index_elems-ArePackable namespace subset se.event.type_name se.position
          holds.namespace_bytes
          (All-of_In IsBytes subset (λ t m.
            All-In IsBytes se.event.tags ok.tags_bytes t
              (In-generate-Subset se.event.tags subset ok.tags_few u t m)))
          ok.type_bytes ok.stamped))

  sentinel-IsBytes : IsBytes (pack_sentinel_key c namespace)
  unfolding pack_sentinel_key
  sentinel-IsBytes = laws.pack-IsBytes _ (holds.namespace_bytes, (omega arith, tt))

  -- For a codec that meets the laws, a store whose index is that of a history, a version of 10
  -- bytes, and events that can be stored at the positions of a batch: where the database commits
  -- the batch of `append` at the version, keeping the keys of before and adding those of the
  -- writes, its index is that of the history followed by the events at their positions, the version
  -- followed by the place in two bytes.
  pub batch-Holds : Holds c namespace (history ++ positioned tx 0 events) kvs'
  batch-Holds = record {
    namespace_bytes = holds.namespace_bytes;
    namespace_free = holds.namespace_free;
    storable = λ se m. elim (In-append se history (positioned tx 0 events) m) [
      | inl n ↦ holds.storable se n
      | inr n ↦ storable se n
    ];
    key_bytes = λ kv m. bytes kv (commits.sources kv m);
    complete = λ se subset m u. elim (In-append se history (positioned tx 0 events) m) [
      | inl n ↦
          let (kv, k, e) = holds.complete se subset n u in
          let (kv', k', e') = commits.kept kv k in (kv', k', e' ∙ e)
      | inr n ↦
          let (w, k, e) =
            events_written c laws namespace holds.namespace_bytes tx ten events 0 storable se subset
              n u in
          let (kv, l, e') = commits.written w (in_batch c namespace tx events w k) in
          (kv, l, e' ∙ e)
    ];
    sound = λ kv m s. entry kv s (commits.sources kv m);
  }
    where
      bytes :
          (kv : KeyValue)
          → In kv kvs
            ⊎ ((w : Mutation) × In w (batch c namespace events) × (kv.key ≡ written_key c tx w))
          → IsBytes kv.key
      bytes kv (inl n) = holds.key_bytes kv n
      bytes kv (inr (w, k, e)) = subst IsBytes (sym e) (elim (batch_sources w k) [
        | inl (se, n, q) ↦ IsWrite-IsBytes se (written_key c tx w) (storable se n) q
        | inr q ↦ subst IsBytes (sym q) sentinel-IsBytes
      ])

      entry :
          (kv : KeyValue)
          → StartsWith (c.pack (string namespace ∷ string indexes_sub ∷ [])) kv.key
          → In kv kvs
            ⊎ ((w : Mutation) × In w (batch c namespace events) × (kv.key ≡ written_key c tx w))
          → (se : StoredEvent) × (subset : List Text) × In se (history ++ positioned tx 0 events)
            × IndexedUnder subset se.event
            × (kv.key ≡ index_key c namespace subset se.event.type_name (vs_to_fdb se.position))
      entry kv s (inl n) =
          let (se, subset, k, u, e) = holds.sound kv n s in
          (se, subset, In-append_left se history (positioned tx 0 events) k, u, e)
      entry kv s (inr (w, k, e)) =
          let prefix = c.pack (string namespace ∷ string indexes_sub ∷ []) in
          elim (batch_sources w k) [
            | inl (se, n, inl q) ↦ absurd (
                event_key-outside c laws namespace holds.namespace_free se.position
                  (subst (StartsWith prefix) (e ∙ q) s))
            | inl (se, n, inr (subset, u, q)) ↦
                (se, subset, In-append_right se history (positioned tx 0 events) n, u, e ∙ q)
            | inr q ↦ absurd (
                sentinel-outside c laws namespace holds.namespace_free
                  (subst (StartsWith prefix) (e ∙ q) s))
          ]
