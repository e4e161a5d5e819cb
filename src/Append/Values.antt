-- ===== src/Append/Values.antt =====
-- The values that a commit of the writes of dcb-layer/src/append.rs gives the events.
use dcb_layer.Common.{
  ℕ, suc, ◌+◌, ◌%◌, ◌≡◌, ◌≢◌, ◌≤◌, ◌<◌, refl, sym, ap, ◌∙◌, subst, inl, inr, List, [], ◌∷◌, ◌++◌,
  In, In-append, In-append_left, In-append_right, length, arith, ok,
}
use dcb_layer.Common.Bytes.{Bytes, Text, IsBytes}
use dcb_layer.Types.{Versionstamp, Event, StoredEvent}
use dcb_layer.Tuple.{complete, incomplete, Codec}
use dcb_layer.Tuple.Laws.{CodecLaws, NulFree, be_bytes}
use dcb_layer.Fdb.{Mutation, set_versionstamped_key}
use dcb_layer.Encoding.Keys.{vs_to_fdb, pack_event_key, pack_event_key_fdb}
use dcb_layer.Encoding.Values.{encode_event_value}
use dcb_layer.Query.After.{IsVersionstamp}
use dcb_layer.Store.{IsStorable}
use dcb_layer.Read.Keys.{extract_vs_from_key}
use dcb_layer.Read.Stored.{extract-event_key}
use dcb_layer.Append.{append_single, append_events}
use dcb_layer.Append.Commit.{
  written_key, positioned, vs_to_fdb-be_bytes, head_key, single_head, single_split, single_sources,
  IsWrite, events_sources,
}
use dcb_layer.Append.Keys.{event-ne_index}

-- The positions of a batch, by their places in it.
pub place :
    (tx : Bytes) (i : ℕ) (events : List Event) (se : StoredEvent)
    → In se (positioned tx i events)
    → (j : ℕ) × (i ≤ j) × (j < i + length events) × (se.position ≡ tx ++ be_bytes (j % 65536))
place tx i [] se m = absurd m
place tx i (event ∷ events) se (inl e) =
    (i, omega arith, omega arith, ap (λ (x : StoredEvent). x.position) e)
place tx i (event ∷ events) se (inr m) =
    let (j, l, u, e) = place tx (suc i) events se m in (j, omega arith, omega arith, e)

be_bytes-inj :
    (tx : Bytes) (i j : ℕ)
    → length tx ≡ 10
    → i < 65536
    → j < 65536
    → tx ++ be_bytes (i % 65536) ≡ tx ++ be_bytes (j % 65536)
    → i ≡ j
be_bytes-inj tx i j h l k e =
    let same : complete tx (i % 65536) ≡ complete tx (j % 65536) =
      sym (vs_to_fdb-be_bytes tx i h) ∙ ap vs_to_fdb e ∙ vs_to_fdb-be_bytes tx j h in
    let user : i % 65536 ≡ j % 65536 = cc in omega arith

-- No two events of a batch have one position.
pub positioned-distinct :
    (tx : Bytes) (i : ℕ) (events : List Event) (se : StoredEvent)
    → length tx ≡ 10
    → i + suc (length events) ≤ 65536
    → In se (positioned tx (suc i) events)
    → se.position ≢ tx ++ be_bytes (i % 65536)
positioned-distinct tx i events se h few m e =
    let (j, l, u, q) = place tx (suc i) events se m in
    absurd (omega (arith, be_bytes-inj tx j i h (omega arith) (omega arith) (sym q ∙ e)))

module _ (c : Codec) (laws : CodecLaws c) (namespace : Text) (namespace_bytes : IsBytes namespace)
    (free : NulFree namespace) (tx : Bytes) (ten : length tx ≡ 10) where
  event_key-inj :
      (a b : Versionstamp)
      → IsVersionstamp a
      → IsVersionstamp b
      → pack_event_key c namespace a ≡ pack_event_key c namespace b
      → a ≡ b
  event_key-inj a b h k e =
      let same : ok a ≡ ok b =
        sym (extract-event_key c laws namespace a h)
        ∙ ap extract_vs_from_key e
        ∙ extract-event_key c laws namespace b k in
      cc

  -- The one write of a batch at the key of an event's position: it writes the event's value.
  abbrev OwnWrite : StoredEvent → List Mutation → Type 0
  OwnWrite se ms =
      (key : Bytes) × (c.stamp tx key ≡ pack_event_key c namespace se.position)
      × In (set_versionstamped_key key (encode_event_value c se.event)) ms
      × ((m : Mutation)
          → In m ms
          → written_key c tx m ≡ pack_event_key c namespace se.position
          → m ≡ set_versionstamped_key key (encode_event_value c se.event))

  pub IsWrite-position :
      (se : StoredEvent) (vs : Versionstamp) (key : Bytes)
      → IsStorable se
      → IsVersionstamp vs
      → IsWrite c laws namespace namespace_bytes tx ten se key
      → key ≡ pack_event_key c namespace vs
      → se.position ≡ vs
  IsWrite-position se vs key storable h (inl e) k =
      event_key-inj se.position vs storable.stamped h (sym e ∙ k)
  IsWrite-position se vs key storable h (inr (subset, u, e)) k =
      absurd (event-ne_index c laws namespace free subset _ _ vs (sym e ∙ k))

  -- The first event of a batch.
  first_write :
      (event : Event) (events : List Event) (i : ℕ)
      → i + suc (length events) ≤ 65536
      → ((se : StoredEvent) → In se (positioned tx i (event ∷ events)) → IsStorable se)
      → OwnWrite
          (record { event = event; position = tx ++ be_bytes (i % 65536) })
          (append_events c namespace (event ∷ events) i)
  unfolding append_events
  first_write event events i few h =
      let here : StoredEvent = record { event = event; position = tx ++ be_bytes (i % 65536) } in
      let storable = h here (inl refl) in
      (
        pack_event_key_fdb c namespace (incomplete (i % 65536)),
        head_key c laws namespace namespace_bytes tx ten event i storable,
        In-append_left _ (append_single c namespace event (i % 65536)) _
            (single_head c laws namespace namespace_bytes tx ten event i storable),
        λ m k w. elim (In-append m (append_single c namespace event (i % 65536)) _ k) [
          | inl n ↦
              elim (single_split c laws namespace namespace_bytes tx ten event i storable m n) [
                | inl q ↦ q
                | inr (subset, u, q) ↦
                    absurd (event-ne_index c laws namespace free _ _ _ _ (sym q ∙ w))
              ]
          | inr n ↦
              let (se, l, q) =
                events_sources c laws namespace namespace_bytes tx ten events (suc i)
                  (λ x r. h x (inr r)) m n in
              absurd (
                positioned-distinct tx i events se ten few l (
                  IsWrite-position se here.position (written_key c tx m) (h se (inr l))
                    storable.stamped q w))
        ],
      )

  pub own_write :
      (events : List Event) (i : ℕ)
      → i + length events ≤ 65536
      → ((se : StoredEvent) → In se (positioned tx i events) → IsStorable se)
      → (se : StoredEvent) → In se (positioned tx i events)
      → OwnWrite se (append_events c namespace events i)
  unfolding append_events
  own_write [] i few h se k = absurd k
  own_write (event ∷ events) i few h se (inl e) =
      subst (λ (s : StoredEvent). OwnWrite s (append_events c namespace (event ∷ events) i)) (sym e)
        (first_write event events i few h)
  own_write (event ∷ events) i few h se (inr l) =
      let here : StoredEvent = record { event = event; position = tx ++ be_bytes (i % 65536) } in
      let (key, stamped, own, only) =
        own_write events (suc i) (omega arith) (λ x r. h x (inr r)) se l in
      (
        key,
        stamped,
        In-append_right _ (append_single c namespace event (i % 65536)) _ own,
        λ m k w. elim (In-append m (append_single c namespace event (i % 65536)) _ k) [
          | inl n ↦ absurd (
              positioned-distinct tx i events se ten few l (
                sym (
                  IsWrite-position here se.position (written_key c tx m) (h here (inl refl))
                    (h se (inr l)).stamped
                    (single_sources c laws namespace namespace_bytes tx ten event i
                      (h here (inl refl)) m n)
                    w)))
          | inr n ↦ only m n w
        ],
      )
