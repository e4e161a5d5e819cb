-- ===== src/Append/Stores.antt =====
-- A commit of the writes of dcb-layer/src/append.rs stores the events, and leaves those of before.
use dcb_layer.Common.{
  ◌≡◌, ◌≢◌, ◌≤◌, sym, ◌∙◌, subst, inl, inr, List, ◌++◌, In, In-append, length, arith,
}
use dcb_layer.Common.Bytes.{Bytes, Text}
use dcb_layer.Types.{Event, StoredEvent}
use dcb_layer.Tuple.{Codec}
use dcb_layer.Tuple.Laws.{CodecLaws}
use dcb_layer.Fdb.{KeyValue, Mutation, set_versionstamped_key}
use dcb_layer.Encoding.Keys.{pack_event_key}
use dcb_layer.Encoding.Values.{encode_event_value}
use dcb_layer.Encoding.Values.RoundTrip.{IsEvent}
use dcb_layer.Store.{IsStorable, Holds, HoldsEvents}
use dcb_layer.Append.{batch}
use dcb_layer.Append.Commit.{
  written_key, Commits, positioned, in_batch, batch-split, events_sources,
}
use dcb_layer.Append.Keys.{event-ne_sentinel}
use dcb_layer.Fdb.Lookup.{lookup-In, In-lookup}
use dcb_layer.Append.Values.{own_write, IsWrite-position}

module _ (c : Codec) (laws : CodecLaws c) {namespace : Text} {history : List StoredEvent}
    {kvs kvs' : List KeyValue} (holds : Holds c namespace history kvs)
    (stored : HoldsEvents c namespace history kvs) (events : List Event) (tx : Bytes)
    (ten : length tx ≡ 10) (few : length events ≤ 65536)
    (storable : (se : StoredEvent) → In se (positioned tx 0 events) → IsStorable se)
    (encodable : (se : StoredEvent) → In se (positioned tx 0 events) → IsEvent se.event)
    (fresh : (old new : StoredEvent)
      → In old history
      → In new (positioned tx 0 events)
      → new.position ≢ old.position)
    (commits : Commits c tx (batch c namespace events) kvs kvs') where
  new_event :
      (se : StoredEvent)
      → In se (positioned tx 0 events)
      → In
          (record {
            key = pack_event_key c namespace se.position;
            value = encode_event_value c se.event;
          })
          kvs'
  new_event se k =
      let (key, stamped, own, only) =
        own_write c laws namespace holds.namespace_bytes holds.namespace_free tx ten events 0
          (omega arith) storable se k in
      subst (λ (x : Bytes). In (record { key = x; value = encode_event_value c se.event }) kvs')
        stamped
        (commits.given (set_versionstamped_key key (encode_event_value c se.event))
          (in_batch c namespace tx events _ own)
          (λ m n w. elim (batch-split c namespace tx events m n) [
            | inl l ↦ only m l (w ∙ stamped)
            | inr e ↦ absurd (
                event-ne_sentinel c laws namespace holds.namespace_free se.position
                  (sym e ∙ w ∙ stamped))
          ]))

  -- No write of the batch is at the key of an event of before.
  old_key :
      (se : StoredEvent)
      → In se history
      → (m : Mutation) → In m (batch c namespace events)
      → written_key c tx m ≢ pack_event_key c namespace se.position
  old_key se k m n e = elim (batch-split c namespace tx events m n) [
    | inl l ↦
        let (new, i, w) =
          events_sources c laws namespace holds.namespace_bytes tx ten events 0 storable m l in
        fresh se new k i (
          IsWrite-position c laws namespace holds.namespace_bytes holds.namespace_free tx ten new
            se.position (written_key c tx m) (storable new i) (holds.storable se k).stamped w e)
    | inr q ↦ event-ne_sentinel c laws namespace holds.namespace_free se.position (sym q ∙ e)
  ]

  -- For a codec that meets the laws, a store that holds a history in its index and its primary
  -- subspace, a version of 10 bytes, at most 65536 events that can be stored and decoded at the
  -- positions of a batch, none of these positions being one of the history: where the database
  -- commits the batch of `append` at the version, the key of each event's position, of the history
  -- and of the batch, has the event's encoded value.
  pub batch-HoldsEvents : HoldsEvents c namespace (history ++ positioned tx 0 events) kvs'
  batch-HoldsEvents se m = elim (In-append se history (positioned tx 0 events) m) [
    | inl k ↦ (
      (stored se k).0,
      In-lookup kvs' _ _ commits.ascend
          (commits.unwritten _ (lookup-In kvs _ _ (stored se k).1) (λ w n. old_key se k w n)),
    )
    | inr k ↦ (encodable se k, In-lookup kvs' _ _ commits.ascend (new_event se k))
  ]
