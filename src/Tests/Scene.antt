-- ===== src/Tests/Scene.antt =====
-- A store with one event of type "a" and tag "x", the pairs of its index, and a transaction on them.
use dcb_layer.Common.{
  ℕ, get_or, ◌≡◌, refl, sym, ap, subst, inl, inr, none, List, [], ◌∷◌, map, In, arith, ok, err,
  Bool,
}
use dcb_layer.Common.Bytes.{lt, Bytes, Text, text, IsBytes}
use dcb_layer.Types.{
  Versionstamp, Event, StoredEvent, QueryItem, AppendCondition, has_no_type_nor_tags,
}
use dcb_layer.Fdb.{KeyValue, FdbResult, Transaction, Database}
use dcb_layer.Fdb.Laws.{KeysAscend, slice, lookup, limited, directed, Sees, RetriesAtMost}
use dcb_layer.Encoding.Tags.{sort_tags, generate_superset_presorted}
use dcb_layer.Encoding.Keys.{vs_to_fdb, pack_event_key, indexes_sub, tag_sentinel_elems}
use dcb_layer.Encoding.Keys.Layout.{index_key}
use dcb_layer.Encoding.Values.{encode_event_value}
use dcb_layer.Query.Strinc.{StartsWith}
use dcb_layer.Tuple.{string}
use dcb_layer.Query.After.{IsVersionstamp}
use dcb_layer.Store.{IndexedUnder, IsStorable, Holds}
use dcb_layer.Store.Queries.{IsQueryItem}
use dcb_layer.Append.{append_retry_limit}
use dcb_layer.Append.Conditions.{IsCondition}
use dcb_layer.Tests.Plain.{plain}

abbrev pub namespace : Text
namespace = text "n"

abbrev pub stamp_1 : Versionstamp
stamp_1 = 0 ∷ 0 ∷ 0 ∷ 0 ∷ 0 ∷ 0 ∷ 0 ∷ 0 ∷ 0 ∷ 1 ∷ 0 ∷ 0 ∷ []

abbrev pub event_1 : Event
event_1 = record { type_name = text "a"; tags = text "x" ∷ []; payload = 7 ∷ [] }

abbrev pub stored_1 : StoredEvent
stored_1 = record { event = event_1; position = stamp_1 }

abbrev pub history : List StoredEvent
history = stored_1 ∷ []

abbrev pub entry_key : List Text → Bytes
entry_key tags = index_key plain namespace tags (text "a") (vs_to_fdb stamp_1)

abbrev pub entry_pair : List Text → KeyValue
entry_pair tags = record { key = entry_key tags; value = [] }

-- The pair of the event itself.
abbrev pub event_entry : KeyValue
event_entry = record {
  key = pack_event_key plain namespace stamp_1;
  value = encode_event_value plain event_1;
}

abbrev pub pairs : List KeyValue
pairs = event_entry ∷ entry_pair [] ∷ entry_pair (text "x" ∷ []) ∷ []

pub stamp_1-IsVersionstamp : IsVersionstamp stamp_1
stamp_1-IsVersionstamp = record { length_lem = refl; bytes_lem = omega arith }

pub subsets : generate_superset_presorted (sort_tags (text "x" ∷ [])) ≡ ([] ∷ (text "x" ∷ []) ∷ [])
unfolding generate_superset_presorted sort_tags
subsets = refl

stored_1-IsStorable : IsStorable stored_1
unfolding sort_tags
stored_1-IsStorable = record {
  type_bytes = omega arith;
  type_free = omega arith;
  tags_bytes = omega arith;
  tags_free = omega arith;
  tags_unreserved = ground arith;
  tags_few = omega arith;
  stamped = stamp_1-IsVersionstamp;
}

-- The pair of an indexed subset of the event is one of the pairs.
pair_of :
    (subset : List Text)
    → IndexedUnder subset event_1
    → (kv : KeyValue) × In kv pairs × (kv.key ≡ entry_key subset)
pair_of subset i = elim (subst (λ (x : List (List Text)). In subset x) subsets i) [
  | inl e ↦ (entry_pair [], inr (inl refl), ap entry_key (sym e))
  | inr (inl e) ↦ (entry_pair (text "x" ∷ []), inr (inr (inl refl)), ap entry_key (sym e))
  | inr (inr n) ↦ absurd n
]

entry_key-IsBytes :
    IsBytes event_entry.key × IsBytes (entry_key []) × IsBytes (entry_key (text "x" ∷ []))
unfolding plain vs_to_fdb tag_sentinel_elems pack_event_key
entry_key-IsBytes = (omega arith, omega arith, omega arith)

-- The pair of the event is not one of the index.
event_entry-outside :
    ¬ StartsWith (plain.pack (string namespace ∷ string indexes_sub ∷ [])) event_entry.key
unfolding plain vs_to_fdb pack_event_key
event_entry-outside (rest, e) =
    let fifth : ◌≡◌ {A = ℕ} 105 101 = ap (λ (l : Bytes). get_or l 4 0) e in absurd (omega arith)

pub pairs-Holds : Holds plain namespace history pairs
pairs-Holds = record {
  namespace_bytes = omega arith;
  namespace_free = omega arith;
  storable =
      λ se m. elim m [ inl e ↦ subst IsStorable (sym e) stored_1-IsStorable | inr n ↦ absurd n ];
  key_bytes = λ kv m. bytes kv m;
  complete = λ se subset m i. in_pairs se subset m i;
  sound = λ kv m s. of_pair kv m s;
}
  where
    bytes : (kv : KeyValue) → In kv pairs → IsBytes kv.key
    bytes kv (inl e) = subst (λ (x : KeyValue). IsBytes x.key) (sym e) entry_key-IsBytes.0
    bytes kv (inr (inl e)) = subst (λ (x : KeyValue). IsBytes x.key) (sym e) entry_key-IsBytes.1
    bytes kv (inr (inr (inl e))) =
        subst (λ (x : KeyValue). IsBytes x.key) (sym e) entry_key-IsBytes.2
    bytes kv (inr (inr (inr n))) = absurd n

    in_pairs :
        (se : StoredEvent) (subset : List Text)
        → In se history
        → IndexedUnder subset se.event
        → (kv : KeyValue) × In kv pairs
          × (kv.key ≡ index_key plain namespace subset se.event.type_name (vs_to_fdb se.position))
    in_pairs se subset (inl e) i =
        subst
          (λ (x : StoredEvent).
            IndexedUnder subset x.event
            → (kv : KeyValue) × In kv pairs
              × (kv.key
                  ≡ index_key plain namespace subset x.event.type_name (vs_to_fdb x.position)))
          (sym e) (pair_of subset) i
    in_pairs se subset (inr n) i = absurd n

    of_pair :
        (kv : KeyValue)
        → In kv pairs
        → StartsWith (plain.pack (string namespace ∷ string indexes_sub ∷ [])) kv.key
        → (se : StoredEvent) × (subset : List Text) × In se history
          × IndexedUnder subset se.event
          × (kv.key ≡ index_key plain namespace subset se.event.type_name (vs_to_fdb se.position))
    of_pair kv (inl e) s = absurd (
        event_entry-outside (
          subst
            (λ (x : KeyValue).
              StartsWith (plain.pack (string namespace ∷ string indexes_sub ∷ [])) x.key)
            e s))
    of_pair kv (inr (inl e)) s = (
      stored_1,
      [],
      inl refl,
      subst (λ (x : List (List Text)). In [] x) (sym subsets) (inl refl),
      ap (λ (x : KeyValue). x.key) e,
    )
    of_pair kv (inr (inr (inl e))) s = (
      stored_1,
      text "x" ∷ [],
      inl refl,
      subst (λ (x : List (List Text)). In (text "x" ∷ []) x) (sym subsets) (inr (inl refl)),
      ap (λ (x : KeyValue). x.key) e,
    )
    of_pair kv (inr (inr (inr n))) s = absurd n

pairs-KeysAscend : KeysAscend pairs
unfolding plain tag_sentinel_elems vs_to_fdb lt pack_event_key
pairs-KeysAscend = ((refl, (refl, tt)), ((refl, tt), (tt, tt)))

-- A transaction that reads the pairs, and commits at the version 2.
unfoldable pub reader : Transaction
unfolding slice lookup
reader = record {
  retries = 0;
  options = [];
  watches = [];
  set_option = λ o. ok tt;
  get = λ key snapshot. ok (lookup key pairs);
  get_ranges_keyvalues =
      λ o snapshot. map ok (limited o.limit (directed o.reverse (slice (o.begin, o.end) pairs)));
  commit = λ options watches ms. ok tt;
  get_versionstamp = ok (0 ∷ 0 ∷ 0 ∷ 0 ∷ 0 ∷ 0 ∷ 0 ∷ 0 ∷ 0 ∷ 2 ∷ []);
}

pub reader-Sees : (snapshot : Bool) → Sees snapshot reader pairs
unfolding reader
reader-Sees snapshot = record {
  keys_ascend = pairs-KeysAscend;
  get_lem = λ key. refl;
  range_lem = λ o. refl;
}

-- A database that gives up at once.
abbrev pub database : Database
database = record { create_trx = ok reader; on_error = λ tr e. err e }

pub database-RetriesAtMost : RetriesAtMost append_retry_limit database
unfolding reader
database-RetriesAtMost = record {
  fresh = λ tr h. subst (λ (t : Transaction). t.retries ≡ 0) (same tr h) refl;
  counted = λ tr tr' e limited h. absurd cc;
}
  where
    same : (tr : Transaction) → ◌≡◌ {A = FdbResult Transaction} (ok reader) (ok tr) → reader ≡ tr
    same tr h = cc

abbrev pub by_tag : QueryItem
by_tag = record { types = []; tags = text "x" ∷ [] }

pub by_tag-IsQueryItem : IsQueryItem by_tag
unfolding has_no_type_nor_tags
by_tag-IsQueryItem = record {
  asks = refl;
  types_bytes = tt;
  tags_bytes = omega arith;
  tags_unreserved = ground arith;
}

abbrev pub condition : AppendCondition
condition = record { query = record { items = by_tag ∷ [] }; after = none }

pub condition-IsCondition : IsCondition condition
condition-IsCondition = record { items_lem = (by_tag-IsQueryItem, tt); after_lem = tt }
