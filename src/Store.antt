-- ===== src/Store.antt =====
-- The abstract view of a store: the events of a namespace, each at its position, what it means that
-- an event matches a query item, and how the pairs of the database stand for the events.
pub mod Range
pub mod Discover
pub mod Types
pub mod Reads
pub mod Queries
pub mod Nul
use dcb_layer.Common.{
  ℕ, ◌<◌, ◌≡◌, ◌⊎◌, Option, none, some, List, [], ◌∷◌, ◌++◌, All, In, Subset, true, length,
}
use dcb_layer.Common.Bytes.{Bytes, Text, IsBytes, lt}
use dcb_layer.Types.{Versionstamp, Event, StoredEvent, QueryItem}
use dcb_layer.Tuple.{string, Codec}
use dcb_layer.Tuple.Laws.{NulFree}
use dcb_layer.Fdb.{KeyValue}
use dcb_layer.Fdb.Laws.{lookup}
use dcb_layer.Encoding.Tags.{sort_tags, generate_superset_presorted}
use dcb_layer.Encoding.Keys.{indexes_sub, vs_to_fdb, pack_event_key}
use dcb_layer.Encoding.Values.{encode_event_value}
use dcb_layer.Encoding.Values.RoundTrip.{IsEvent}
use dcb_layer.Encoding.Keys.Layout.{NoReserved, index_key}
use dcb_layer.Query.After.{IsVersionstamp}
use dcb_layer.Query.Strinc.{StartsWith}

-- The documented meaning of a query item: one of the types, if any are given, and all of the tags.
abbrev pub Matches : Event → QueryItem → Type 0
Matches event item =
    ((item.types ≡ []) ⊎ In event.type_name item.types) × Subset item.tags event.tags

-- The position is after the given one, if one is given.
abbrev pub IsAfter : Option Versionstamp → Versionstamp → Type 0
IsAfter none vs = Unit
IsAfter (some after) vs = lt after vs ≡ true

-- Some event of the history that lies after the position has the property.
abbrev pub Found : (Event → Type 0) → List StoredEvent → Option Versionstamp → Type 0
Found P history after = (se : StoredEvent) × In se history × P se.event × IsAfter after se.position

-- What can be stored and found again: texts of bytes that hold no NUL, no reserved tag.
pub record IsStorable (se : StoredEvent) : Type 0 where
  pub type_bytes : IsBytes se.event.type_name
  pub type_free : NulFree se.event.type_name
  pub tags_bytes : All IsBytes se.event.tags
  pub tags_free : All NulFree se.event.tags
  pub tags_unreserved : NoReserved se.event.tags
  pub tags_few : length (sort_tags se.event.tags) < 64
  pub stamped : IsVersionstamp se.position

-- The subset is one of those that an event is indexed under.
abbrev pub IndexedUnder : List Text → Event → Type 0
IndexedUnder subset event = In subset (generate_superset_presorted (sort_tags event.tags))

-- The index of a namespace holds exactly the entries of its events.
pub record Holds (c : Codec) (namespace : Text) (history : List StoredEvent) (kvs : List KeyValue)
    : Type 0 where
  pub namespace_bytes : IsBytes namespace
  pub namespace_free : NulFree namespace
  pub storable : (se : StoredEvent) → In se history → IsStorable se
  pub key_bytes : (kv : KeyValue) → In kv kvs → IsBytes kv.key
  pub complete :
      (se : StoredEvent) (subset : List Text)
      → In se history
      → IndexedUnder subset se.event
      → (kv : KeyValue) × In kv kvs
        × (kv.key ≡ index_key c namespace subset se.event.type_name (vs_to_fdb se.position))
  pub sound :
      (kv : KeyValue)
      → In kv kvs
      → StartsWith (c.pack (string namespace ∷ string indexes_sub ∷ [])) kv.key
      → (se : StoredEvent) × (subset : List Text) × In se history
        × IndexedUnder subset se.event
        × (kv.key ≡ index_key c namespace subset se.event.type_name (vs_to_fdb se.position))

-- The primary subspace holds the events of the history.
abbrev pub HoldsEvents : Codec → Text → List StoredEvent → List KeyValue → Type 0
HoldsEvents c namespace history kvs =
    (se : StoredEvent)
    → In se history
    → IsEvent se.event
      × (lookup (pack_event_key c namespace se.position) kvs ≡ some (encode_event_value c se.event))
