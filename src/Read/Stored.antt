-- ===== src/Read/Stored.antt =====
-- The scan and the fetch of dcb-layer/src/read.rs over stored events.
use dcb_layer.Common.{
  ◌*◌, ◌+◌, ◌≡◌, refl, sym, ap, ◌∙◌, true, some, List, [], ◌∷◌, ◌++◌, map, append_assoc, append-nil,
  All, ok, collect, take, get_or,
}
use dcb_layer.Common.Bytes.{Bytes, Text}
use dcb_layer.Types.{Versionstamp, StoredEvent}
use dcb_layer.Tuple.{string, versionstamp, complete, Codec}
use dcb_layer.Tuple.Laws.{CodecLaws}
use dcb_layer.Fdb.{KeyValue, FdbResult, Transaction, range_option, want_all}
use dcb_layer.Fdb.Laws.{slice, lookup, Sees}
use dcb_layer.Encoding.Keys.{events_sub, vs_to_fdb, pack_events_prefix, pack_event_key}
use dcb_layer.Encoding.Values.{encode_event_value}
use dcb_layer.Encoding.Values.RoundTrip.{IsEvent, decode-encode}
use dcb_layer.Query.{prefix_range}
use dcb_layer.Query.After.{IsVersionstamp, vs_to_fdb-bytes}
use dcb_layer.Read.{fetch_event, fetch_events, scan_loop, scan_all_events}
use dcb_layer.Read.Keys.{extract_vs_from_key, extract-append}

-- An event of byte strings at a position of 12 bytes.
abbrev pub IsStored : StoredEvent → Type 0
IsStored se = IsEvent se.event × IsVersionstamp se.position

module _ (c : Codec) (laws : CodecLaws c) (namespace : Text) where
  -- The pair of the primary subspace that stands for an event.
  abbrev pub event_pair : StoredEvent → KeyValue
  event_pair se = record {
    key = pack_event_key c namespace se.position;
    value = encode_event_value c se.event;
  }

  -- The key of an event is the prefix of the primary subspace, the code of a stamp, and the position.
  pub event_key-position :
      (vs : Versionstamp)
      → IsVersionstamp vs
      → pack_event_key c namespace vs ≡ pack_events_prefix c namespace ++ 0x33 ∷ vs
  unfolding pack_event_key pack_events_prefix vs_to_fdb
  event_key-position vs h =
      let user = get_or vs 10 0 * 256 + get_or vs 11 0 in
      let front = string namespace ∷ string events_sub ∷ [] in
      laws.pack-append front (versionstamp (complete (take 10 vs) user) ∷ [])
      ∙ ap (λ (k : Bytes). c.pack front ++ k)
          (laws.pack-versionstamp (take 10 vs) user
            ∙ ap (λ (k : Bytes). 0x33 ∷ k) (vs_to_fdb-bytes vs h))

  pub extract-event_key :
      (vs : Versionstamp)
      → IsVersionstamp vs
      → extract_vs_from_key (pack_event_key c namespace vs) ≡ ok vs
  extract-event_key vs h =
      ap extract_vs_from_key (event_key-position vs h)
      ∙ extract-append (pack_events_prefix c namespace) vs h.length_lem

  scan_loop-events :
      (history results : List StoredEvent)
      → All IsStored history
      → scan_loop c (map ok (map event_pair history)) results ≡ ok (results ++ history)
  unfolding scan_loop
  scan_loop-events [] results h = ap ok (sym (append-nil results))
  scan_loop-events (se ∷ history) results h =
      rw (extract-event_key se.position h.0.1, decode-encode c laws se.event h.0.0)
        (scan_loop-events history (results ++ se ∷ []) h.1
          ∙ ap ok (append_assoc results (se ∷ []) history))

  module _ (history : List StoredEvent) (stored : All IsStored history) (tr : Transaction)
      {kvs : List KeyValue} (sees : Sees true tr kvs) where
    -- For a codec that meets the laws and a transaction whose snapshot reads see the pairs of the
    -- store: where the pairs in the range of the primary subspace are those of a list of events of
    -- bytes at positions of 12 bytes, in order, `scan_all_events` returns this list.
    pub scan_all_events-events :
        {range : Bytes × Bytes}
        → prefix_range (pack_events_prefix c namespace) ≡ ok range
        → slice range kvs ≡ map event_pair history
        → scan_all_events c tr namespace ≡ ok history
    unfolding scan_all_events range_option
    scan_all_events-events {range} r s = rw r (
        ap (λ (l : List (FdbResult KeyValue)). scan_loop c l [])
          (sees.range_lem (record (range_option range) { mode = want_all })
            ∙ ap (λ (l : List KeyValue). map ok l) s)
        ∙ scan_loop-events history [] stored)

    -- For a codec that meets the laws and a transaction whose snapshot reads see the pairs of the
    -- store: where the value at the key of each event's position is the event's, for events of
    -- bytes at positions of 12 bytes, `fetch_events` of the positions returns the events, in the
    -- same order.
    pub fetch_events-events :
        All
          (λ se.
            lookup (pack_event_key c namespace se.position) kvs
            ≡ some (encode_event_value c se.event))
          history
        → fetch_events c tr namespace (map (λ se. se.position) history) ≡ ok history
    unfolding fetch_events
    fetch_events-events found = go history stored found
      where
        one :
            (se : StoredEvent)
            → IsStored se
            → lookup (pack_event_key c namespace se.position) kvs
              ≡ some (encode_event_value c se.event)
            → fetch_event c tr namespace se.position ≡ ok se
        one se h e =
            rw
              (
                sees.get_lem (pack_event_key c namespace se.position),
                e,
                decode-encode c laws se.event h.0,
              )
              refl

        go :
            (ses : List StoredEvent)
            → All IsStored ses
            → All
                (λ se.
                  lookup (pack_event_key c namespace se.position) kvs
                  ≡ some (encode_event_value c se.event))
                ses
            → collect (fetch_event c tr namespace) (map (λ se. se.position) ses) ≡ ok ses
        go [] h k = refl
        go (se ∷ ses) h k = rw (one se h.0 k.0, go ses h.1 k.1) refl
