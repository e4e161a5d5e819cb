-- ===== src/Append/Commit.antt =====
-- What a commit of the writes of dcb-layer/src/append.rs makes of the store.
use dcb_layer.Common.{
  ℕ, suc, ◌%◌, ◌≡◌, ◌≢◌, refl, sym, ap, ap₂, ◌∙◌, subst, ◌⊎◌, inl, inr, List, [], ◌∷◌, ◌++◌, map,
  In, In-append, In-append_left, In-append_right, In-map, In-map_inv, drop, take-append, get_or,
  get_or-append, length, arith,
}
use dcb_layer.Common.Bytes.{Bytes, Text, IsBytes}
use dcb_layer.Types.{Event, StoredEvent}
use dcb_layer.Tuple.{FdbVs, complete, incomplete, string, versionstamp, Codec}
use dcb_layer.Tuple.Laws.{CodecLaws, be_bytes}
use dcb_layer.Fdb.{KeyValue, Mutation, set_versionstamped_key}
use dcb_layer.Fdb.Laws.{KeysAscend}
use dcb_layer.Encoding.Tags.{sort_tags, generate_superset_presorted}
use dcb_layer.Encoding.Keys.{
  events_sub, vs_to_fdb, pack_event_key, pack_event_key_fdb, pack_sentinel_key,
}
use dcb_layer.Encoding.Keys.Layout.{index_key}
use dcb_layer.Encoding.Values.{encode_event_value}
use dcb_layer.Store.{IndexedUnder, IsStorable}
use dcb_layer.Append.{append_single, append_events, batch}
use dcb_layer.Append.Writes.{committed, append_single-committed}

-- The key that a write has after a commit at a version.
abbrev pub written_key : Codec → Bytes → Mutation → Bytes
written_key c tx m = (committed c tx m).key

-- What the database documents of a commit at a version: the keys are those of before and those of
-- the writes, sorted. A key that is not written keeps its value, and one that a single write has is
-- given that write's value.
pub record Commits (c : Codec) (tx : Bytes) (ms : List Mutation) (kvs kvs' : List KeyValue)
    : Type 0 where
  pub ascend : KeysAscend kvs'
  pub kept : (kv : KeyValue) → In kv kvs → (kv' : KeyValue) × In kv' kvs' × (kv'.key ≡ kv.key)
  pub written :
      (m : Mutation) → In m ms → (kv : KeyValue) × In kv kvs' × (kv.key ≡ written_key c tx m)
  pub sources :
      (kv : KeyValue)
      → In kv kvs'
      → In kv kvs ⊎ ((m : Mutation) × In m ms × (kv.key ≡ written_key c tx m))
  pub unwritten :
      (kv : KeyValue)
      → In kv kvs
      → ((m : Mutation) → In m ms → written_key c tx m ≢ kv.key)
      → In kv kvs'
  pub given :
      (m : Mutation)
      → In m ms
      → ((other : Mutation) → In other ms → written_key c tx other ≡ written_key c tx m → other ≡ m)
      → In (committed c tx m) kvs'

-- The events of a batch at the positions that the commit gives them.
abbrev pub positioned : Bytes → ℕ → List Event → List StoredEvent
positioned tx i [] = []
positioned tx i (event ∷ events) =
    record { event = event; position = tx ++ be_bytes (i % 65536) } ∷ positioned tx (suc i) events

pub vs_to_fdb-be_bytes :
    (tx : Bytes) (i : ℕ)
    → length tx ≡ 10
    → vs_to_fdb (tx ++ be_bytes (i % 65536)) ≡ complete tx (i % 65536)
unfolding vs_to_fdb
vs_to_fdb-be_bytes tx i h =
    let user = be_bytes (i % 65536) in
    ap₂ complete (take-append tx user 10 (sym h)) (
      omega (
        arith,
        get_or-append tx user 10 0 0 (omega (arith, h)),
        get_or-append tx user 11 1 0 (omega (arith, h)),
      ))

-- The key of an event in the primary subspace.
abbrev pub event_key : Codec → Text → FdbVs → Bytes
event_key c namespace vs = c.pack (string namespace ∷ string events_sub ∷ versionstamp vs ∷ [])

-- The writes of a batch are those of its events, and the sentinel's.
module _ (c : Codec) (namespace : Text) (tx : Bytes) (events : List Event) (m : Mutation) where
  pub in_batch : In m (append_events c namespace events 0) → In m (batch c namespace events)
  unfolding batch
  in_batch k = In-append_left m (append_events c namespace events 0) _ k

  pub batch-split :
      In m (batch c namespace events)
      → In m (append_events c namespace events 0)
        ⊎ (written_key c tx m ≡ pack_sentinel_key c namespace)
  unfolding batch
  batch-split k = elim (In-append m (append_events c namespace events 0) _ k) [
    | inl n ↦ inl n
    | inr (inl e) ↦ inr (ap (written_key c tx) e)
    | inr (inr n) ↦ absurd n
  ]

module _ (c : Codec) (laws : CodecLaws c) (namespace : Text) (namespace_bytes : IsBytes namespace)
    (tx : Bytes) (ten : length tx ≡ 10) where
  -- What an event's position and the indexed subsets make of the key of a write.
  abbrev pub IsWrite : StoredEvent → Bytes → Type 0
  IsWrite se key =
      (key ≡ pack_event_key c namespace se.position)
      ⊎ ((subset : List Text) × IndexedUnder subset se.event
          × (key ≡ index_key c namespace subset se.event.type_name (vs_to_fdb se.position)))

  module _ (event : Event) (i : ℕ)
      (storable : IsStorable
        (record { event = event; position = tx ++ be_bytes (i % 65536) })) where
    single :
        map (committed c tx) (append_single c namespace event (i % 65536))
        ≡ record {
          key = event_key c namespace (complete tx (i % 65536));
          value = encode_event_value c event;
        }
          ∷ map
              (λ subset. record {
                key = index_key c namespace subset event.type_name (complete tx (i % 65536));
                value = [];
              })
              (generate_superset_presorted (sort_tags event.tags))
    single =
        append_single-committed c laws namespace namespace_bytes tx (i % 65536) event
          storable.type_bytes storable.tags_bytes storable.tags_few

    -- The write of the event itself.
    abbrev head : Mutation
    head =
        set_versionstamped_key (pack_event_key_fdb c namespace (incomplete (i % 65536)))
          (encode_event_value c event)

    pub head_key :
        c.stamp tx (pack_event_key_fdb c namespace (incomplete (i % 65536)))
        ≡ pack_event_key c namespace (tx ++ be_bytes (i % 65536))
    unfolding append_single pack_event_key
    head_key =
        ap (λ (l : List KeyValue). (get_or l 0 (record { key = []; value = [] })).key) single
        ∙ ap (event_key c namespace) (sym (vs_to_fdb-be_bytes tx i ten))

    -- A write is that of the event, or of an index key.
    pub single_split :
        (m : Mutation)
        → In m (append_single c namespace event (i % 65536))
        → (m ≡ head)
          ⊎ ((subset : List Text) × IndexedUnder subset event
              × (written_key c tx m
                  ≡ index_key c namespace subset event.type_name
                      (vs_to_fdb (tx ++ be_bytes (i % 65536)))))
    unfolding append_single
    single_split m (inl e) = inl e
    single_split m (inr k) = rw (vs_to_fdb-be_bytes tx i ten) (
        let (subset, u, e) = In-map_inv _ (committed c tx m) _ (
          subst (In (committed c tx m)) (ap (λ (l : List KeyValue). drop 1 l) single)
            (In-map (committed c tx) m _ k)) in
        inr (subset, u, ap (λ (kv : KeyValue). kv.key) e))

    pub single_head : In head (append_single c namespace event (i % 65536))
    unfolding append_single
    single_head = inl refl

    pub single_sources :
        (m : Mutation)
        → In m (append_single c namespace event (i % 65536))
        → IsWrite
            (record { event = event; position = tx ++ be_bytes (i % 65536) })
            (written_key c tx m)
    single_sources m k = elim (single_split m k) [
      | inl e ↦ inl (ap (written_key c tx) e ∙ head_key)
      | inr (subset, u, e) ↦ inr (subset, u, e)
    ]

    single_written :
        (subset : List Text)
        → IndexedUnder subset event
        → (m : Mutation) × In m (append_single c namespace event (i % 65536))
          × (written_key c tx m
              ≡ index_key c namespace subset event.type_name
                  (vs_to_fdb (tx ++ be_bytes (i % 65536))))
    single_written subset u = rw (vs_to_fdb-be_bytes tx i ten) (
        let (m, k, e) = In-map_inv (committed c tx) _ _ (
          subst (In _) (sym single) (
            inr (
              In-map
                (λ s. record {
                  key = index_key c namespace s event.type_name (complete tx (i % 65536));
                  value = [];
                })
                subset _ u))) in
        (m, k, ap (λ (kv : KeyValue). kv.key) (sym e)))

  -- The writes of a batch, from some place on.
  pub events_sources :
      (events : List Event) (i : ℕ)
      → ((se : StoredEvent) → In se (positioned tx i events) → IsStorable se)
      → (m : Mutation) → In m (append_events c namespace events i)
      → (se : StoredEvent) × In se (positioned tx i events) × IsWrite se (written_key c tx m)
  unfolding append_events
  events_sources [] i h m k = absurd k
  events_sources (event ∷ events) i h m k =
      let se : StoredEvent = record { event = event; position = tx ++ be_bytes (i % 65536) } in
      elim (In-append m (append_single c namespace event (i % 65536)) _ k) [
        | inl n ↦ (se, inl refl, single_sources event i (h se (inl refl)) m n)
        | inr n ↦
            let (s, l, w) = events_sources events (suc i) (λ x q. h x (inr q)) m n in (s, inr l, w)
      ]

  pub events_written :
      (events : List Event) (i : ℕ)
      → ((se : StoredEvent) → In se (positioned tx i events) → IsStorable se)
      → (se : StoredEvent) (subset : List Text) → In se (positioned tx i events)
      → IndexedUnder subset se.event
      → (m : Mutation) × In m (append_events c namespace events i)
        × (written_key c tx m
            ≡ index_key c namespace subset se.event.type_name (vs_to_fdb se.position))
  unfolding append_events
  events_written [] i h se subset k u = absurd k
  events_written (event ∷ events) i h se subset (inl e) u =
      let here : StoredEvent = record { event = event; position = tx ++ be_bytes (i % 65536) } in
      let (m, n, w) =
        single_written event i (h here (inl refl)) subset
          (subst (λ (s : StoredEvent). IndexedUnder subset s.event) e u) in
      (
        m,
        In-append_left m (append_single c namespace event (i % 65536))
            (append_events c namespace events (suc i)) n,
        w
            ∙ ap
                (λ (s : StoredEvent).
                  index_key c namespace subset s.event.type_name (vs_to_fdb s.position))
                (sym e),
      )
  events_written (event ∷ events) i h se subset (inr k) u =
      let (m, n, w) = events_written events (suc i) (λ x q. h x (inr q)) se subset k u in
      (m, In-append_right m (append_single c namespace event (i % 65536)) _ n, w)
