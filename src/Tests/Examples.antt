-- ===== src/Tests/Examples.antt =====
-- The theorems at concrete inputs.
use dcb_layer.Common.{
  ℕ, ◌^◌, ◌≤◌, ◌≡◌, refl, ◌↔◌, Bool, true, false, none, List, [], ◌∷◌, ◌++◌, All, In, Subset,
  length, is_empty, arith, ok, err,
}
use dcb_layer.Common.Bytes.{Bytes, Text, text, IsBytes, lt}
use dcb_layer.Types.{Versionstamp, Event, AppendCondition}
use dcb_layer.Error.{append_condition_failed, all_ff_key}
use dcb_layer.Fdb.{KeyValue}
use dcb_layer.Fdb.Laws.{in_range}
use dcb_layer.Encoding.Tags.{sort_tags, generate_superset_presorted}
use dcb_layer.Encoding.Tags.Sorted.{sort_tags-canonical}
use dcb_layer.Encoding.Tags.Subsets.{length-generate, In-generate-sort_tags}
use dcb_layer.Encoding.Keys.{tag_type_prefix, tag_sentinel_elems, vs_to_fdb}
use dcb_layer.Encoding.Keys.Layout.{
  IsEntry, index_key, stamp_bytes, tag_type_prefix-match, tag_type_prefix-append,
}
use dcb_layer.Encoding.Values.{encode_event_value, decode_event_value}
use dcb_layer.Encoding.Values.RoundTrip.{IsEvent, fields, decode-encode, decode-eq_ok_iff}
use dcb_layer.Query.{
  strinc, range_for, after_range, prefix_range, build_query_ranges, discover_types_in_tag_subspace,
}
use dcb_layer.Query.Strinc.{StartsWith, strinc_lem, strinc-eq_err_iff}
use dcb_layer.Query.After.{IsVersionstamp, after_range_lem}
use dcb_layer.Store.{Matches, Found, IndexedUnder}
use dcb_layer.Store.Types.{discover_types-Found}
use dcb_layer.Store.Reads.{SomeRead}
use dcb_layer.Store.Queries.{build_query_ranges-Found}
use dcb_layer.Store.Nul.{range_for-nul}
use dcb_layer.Append.{return, append, append_round, commit_batch, query_item_exists, validate}
use dcb_layer.Append.Exists.{query_item_exists-Found}
use dcb_layer.Append.Conditions.{SomeConflict, append_round-Conflict}
use dcb_layer.Append.Outcome.{append-outcome}
use dcb_layer.Append.Ends.{Ends, append-Ends}
use dcb_layer.Append.Checks.{MayAppend, MayCheck, validate-eq_ok_iff}
use dcb_layer.Common.{map, some}
use dcb_layer.Types.{FdbStore, has_no_type_nor_tags}
use dcb_layer.Common.{◌⊎◌}
use dcb_layer.Fdb.{Transaction, automatic_idempotency, with_option}
use dcb_layer.Fdb.Laws.{Sees, slice, lookup, limited, directed}
use dcb_layer.Fdb.{Database}
use dcb_layer.Encoding.Keys.{pack_cursor_key}
use dcb_layer.Subscribe.{get_cursor}
use dcb_layer.Subscribe.Cursor.{get_cursor-eq_ok_iff}
use dcb_layer.Subscribe.Keys.{pack_cursor_key-injective}
use dcb_layer.Common.{◌<◌}
use dcb_layer.Tuple.{complete, string, versionstamp}
use dcb_layer.Encoding.Keys.{events_sub}
use dcb_layer.Append.{append_single}
use dcb_layer.Append.Writes.{committed, append_single-committed}
use dcb_layer.Tests.Plain.{plain, plain_laws}
use dcb_layer.Tests.Scene.{
  namespace, stamp_1, stamp_1-IsVersionstamp, event_1, history, pairs, pairs-Holds, reader,
  reader-Sees, database, database-RetriesAtMost, by_tag, by_tag-IsQueryItem, condition,
  condition-IsCondition,
}

abbrev batch_1 : List Event
batch_1 = event_1 ∷ []

abbrev conditions_1 : List AppendCondition
conditions_1 = condition ∷ []

abbrev store_1 : FdbStore
store_1 = record { namespace = namespace }

append_round-Conflict_example :
    (SomeConflict conditions_1 history
      × (append_round plain reader namespace batch_1 conditions_1
          ≡ return (err append_condition_failed)))
    ⊎ ((¬ SomeConflict conditions_1 history)
        × (append_round plain reader namespace batch_1 conditions_1
            ≡ commit_batch plain (with_option automatic_idempotency reader) namespace batch_1))
unfolding reader
append_round-Conflict_example =
    append_round-Conflict plain plain_laws pairs-Holds reader (reader-Sees false) batch_1
      conditions_1 refl (condition-IsCondition, tt)

batch_1-validate : validate batch_1 conditions_1 ≡ ok tt
unfolding validate has_no_type_nor_tags
batch_1-validate = refl

append-outcome_example :
    (SomeConflict conditions_1 history
      × (append plain 1 database store_1 batch_1 conditions_1 ≡ some (err append_condition_failed)))
    ⊎ ((¬ SomeConflict conditions_1 history)
        × (append plain 1 database store_1 batch_1 conditions_1
            ≡ some (ok ((0 ∷ 0 ∷ 0 ∷ 0 ∷ 0 ∷ 0 ∷ 0 ∷ 0 ∷ 0 ∷ 2 ∷ []) ++ 0 ∷ 0 ∷ []))))
unfolding reader
append-outcome_example =
    append-outcome plain plain_laws store_1 pairs-Holds database reader refl (reader-Sees false)
      refl refl 0 batch_1 conditions_1 (0 ∷ 0 ∷ 0 ∷ 0 ∷ 0 ∷ 0 ∷ 0 ∷ 0 ∷ 0 ∷ 2 ∷ []) batch_1-validate
      (((omega arith, tt), tt), tt) refl refl

query_item_exists-Found_example :
    (b : Bool) × (query_item_exists plain reader namespace by_tag none ≡ ok b)
    × ((b ≡ true) ↔ Found (λ e. Matches e by_tag) history none)
query_item_exists-Found_example =
    query_item_exists-Found plain plain_laws pairs-Holds reader (reader-Sees false) none tt by_tag
      by_tag-IsQueryItem

build_query_ranges-Found_example :
    (ranges : List (Bytes × Bytes)) × (build_query_ranges plain reader namespace by_tag none false
      ≡ ok ranges)
    × (SomeRead ranges pairs ↔ Found (λ e. Matches e by_tag) history none)
build_query_ranges-Found_example =
    build_query_ranges-Found plain plain_laws pairs-Holds none tt reader false (reader-Sees false)
      by_tag by_tag-IsQueryItem

discover_types-Found_example :
    (types : List Text) × (discover_types_in_tag_subspace plain reader namespace
        (text "x" ∷ [])
        false
      ≡ ok types)
    × ((t : Text)
        → In t types ↔ Found (λ e. (e.type_name ≡ t) × IndexedUnder (text "x" ∷ []) e) history none)
discover_types-Found_example =
    discover_types-Found plain plain_laws pairs-Holds reader false (reader-Sees false)
      (text "x" ∷ []) (omega arith) (ground arith)

append-Ends_example :
    Ends (append plain 101 database (record { namespace = namespace }) batch_1 conditions_1)
append-Ends_example =
    append-Ends plain database database-RetriesAtMost (record { namespace = namespace }) batch_1
      conditions_1 101 (omega arith)

validate-eq_ok_iff_example : (validate batch_1 conditions_1 ≡ ok tt) ↔ (
    (is_empty batch_1 ≡ false)
    × (length batch_1 ≤ 65535)
    × All MayAppend batch_1
    × All MayCheck conditions_1)
validate-eq_ok_iff_example = validate-eq_ok_iff batch_1 conditions_1

-- The range of the tag "x" and the type "a".
abbrev range_1 : Bytes × Bytes
range_1 = (
  2 ∷ 110 ∷ 0 ∷ 2 ∷ 105 ∷ 0 ∷ 2 ∷ 120 ∷ 0 ∷ 2 ∷ 95 ∷ 0 ∷ 2 ∷ 97 ∷ 0 ∷ [],
  2 ∷ 110 ∷ 0 ∷ 2 ∷ 105 ∷ 0 ∷ 2 ∷ 120 ∷ 0 ∷ 2 ∷ 95 ∷ 0 ∷ 2 ∷ 97 ∷ 1 ∷ [],
)

range_1-range_for :
    range_for plain none (tag_type_prefix plain namespace (text "x" ∷ []) (text "a")) ≡ ok range_1
unfolding range_for prefix_range strinc tag_type_prefix tag_sentinel_elems plain
range_1-range_for = refl

event_1-IsEvent : IsEvent event_1
event_1-IsEvent = record {
  type_bytes = omega arith;
  tag_bytes = omega arith;
  payload_bytes = omega arith;
}

decode-encode_example : decode_event_value plain (encode_event_value plain event_1) ≡ ok event_1
decode-encode_example = decode-encode plain plain_laws event_1 event_1-IsEvent

decode-eq_ok_iff_example :
    (decode_event_value plain (2 ∷ 97 ∷ 0 ∷ 5 ∷ 0 ∷ 1 ∷ 7 ∷ 0 ∷ []) ≡ ok event_1)
    ↔ (plain.unpack (2 ∷ 97 ∷ 0 ∷ 5 ∷ 0 ∷ 1 ∷ 7 ∷ 0 ∷ []) ≡ ok (fields event_1))
decode-eq_ok_iff_example =
    decode-eq_ok_iff plain plain_laws (2 ∷ 97 ∷ 0 ∷ 5 ∷ 0 ∷ 1 ∷ 7 ∷ 0 ∷ []) event_1

-- The range of the prefix 9 after the position of the stored event.
abbrev range_after : Bytes × Bytes
range_after = (9 ∷ 51 ∷ stamp_1 ++ 0 ∷ [], 10 ∷ [])

range_after-after_range : after_range plain (9 ∷ []) stamp_1 ≡ ok range_after
unfolding after_range strinc vs_to_fdb plain
range_after-after_range = refl

abbrev stamp_2 : Versionstamp
stamp_2 = 0 ∷ 0 ∷ 0 ∷ 0 ∷ 0 ∷ 0 ∷ 0 ∷ 0 ∷ 0 ∷ 1 ∷ 0 ∷ 1 ∷ []

stamp_2-IsVersionstamp : IsVersionstamp stamp_2
stamp_2-IsVersionstamp = record { length_lem = refl; bytes_lem = omega arith }

after_range_lem_example :
    (in_range range_after (9 ∷ 51 ∷ stamp_2) ≡ true) ↔ (lt stamp_1 stamp_2 ≡ true)
after_range_lem_example =
    after_range_lem plain plain_laws (9 ∷ []) (omega arith) stamp_1 stamp_1-IsVersionstamp stamp_2
      stamp_2-IsVersionstamp range_after-after_range

strinc_example : strinc (1 ∷ 255 ∷ []) ≡ ok (2 ∷ [])
unfolding strinc
strinc_example = refl

strinc_lem_example :
    (in_range (1 ∷ 255 ∷ [], 2 ∷ []) (1 ∷ 255 ∷ 7 ∷ []) ≡ true)
    ↔ StartsWith (1 ∷ 255 ∷ []) (1 ∷ 255 ∷ 7 ∷ [])
strinc_lem_example =
    strinc_lem (1 ∷ 255 ∷ []) (1 ∷ 255 ∷ 7 ∷ []) (omega arith) (omega arith) strinc_example

strinc-eq_err_iff_example :
    (strinc (255 ∷ []) ≡ err all_ff_key)
    ↔ (All (λ (b : ℕ). b ≡ 0xFF) (255 ∷ []) × (all_ff_key ≡ all_ff_key))
strinc-eq_err_iff_example = strinc-eq_err_iff (255 ∷ []) all_ff_key

event_1-IsEntry : IsEntry namespace (text "x" ∷ []) (text "a")
event_1-IsEntry = record {
  namespace_free = omega arith;
  tags_free = omega arith;
  tags_unreserved = ground arith;
  type_free = omega arith;
}

abbrev tx_1 : Bytes
tx_1 = 0 ∷ 0 ∷ 0 ∷ 0 ∷ 0 ∷ 0 ∷ 0 ∷ 0 ∷ 0 ∷ 1 ∷ []

tag_type_prefix-match_example :
    (namespace ≡ namespace)
    × ((text "x" ∷ []) ≡ (text "x" ∷ []))
    × (text "a" ≡ text "a")
    × (stamp_bytes tx_1 0 ≡ stamp_bytes tx_1 0)
tag_type_prefix-match_example =
    tag_type_prefix-match plain plain_laws namespace (text "x" ∷ []) (text "a") tx_1 0
      event_1-IsEntry namespace (text "x" ∷ []) (ground arith) (stamp_bytes tx_1 0) (text "a")
      (tag_type_prefix-append plain plain_laws namespace (text "x" ∷ []) (text "a") tx_1 0)

In-generate-sort_tags_example :
    In (text "a" ∷ []) (generate_superset_presorted (sort_tags (text "b" ∷ text "a" ∷ [])))
    ↔ Subset (text "a" ∷ []) (text "b" ∷ text "a" ∷ [])
unfolding sort_tags
In-generate-sort_tags_example =
    In-generate-sort_tags (text "b" ∷ text "a" ∷ []) (text "a" ∷ []) (omega arith) (tt, tt)

sort_tags-canonical_example :
    sort_tags (text "b" ∷ text "a" ∷ []) ≡ sort_tags (text "a" ∷ text "b" ∷ text "a" ∷ [])
sort_tags-canonical_example =
    sort_tags-canonical (text "b" ∷ text "a" ∷ []) (text "a" ∷ text "b" ∷ text "a" ∷ [])
      (λ x m. ground arith) (λ x m. ground arith)

length-generate_example :
    length (generate_superset_presorted (text "a" ∷ text "b" ∷ []))
    ≡ 2 ^ length (text "a" ∷ text "b" ∷ [])
length-generate_example = length-generate (text "a" ∷ text "b" ∷ []) (omega arith)

prefix_1-IsBytes : IsBytes (tag_type_prefix plain namespace (text "x" ∷ []) (text "a"))
unfolding tag_type_prefix plain tag_sentinel_elems
prefix_1-IsBytes = omega arith

key_1-IsBytes :
    IsBytes
      (index_key plain namespace (text "x" ∷ []) (text "a" ++ 0 ∷ text "b") (vs_to_fdb stamp_1))
unfolding plain tag_sentinel_elems vs_to_fdb
key_1-IsBytes = omega arith

range_for-nul_example :
    in_range range_1
      (index_key plain namespace (text "x" ∷ []) (text "a" ++ 0 ∷ text "b") (vs_to_fdb stamp_1))
    ≡ true
range_for-nul_example =
    range_for-nul plain plain_laws namespace (text "x" ∷ []) (text "a") (text "b")
      (vs_to_fdb stamp_1) prefix_1-IsBytes key_1-IsBytes range_1-range_for

-- A store with one cursor.
abbrev cursor_pairs : List KeyValue
cursor_pairs = record { key = pack_cursor_key plain namespace (text "c"); value = stamp_1 } ∷ []

abbrev cursor_reader : Transaction
unfolding slice lookup reader
cursor_reader = record reader {
  get = λ key snapshot. ok (lookup key cursor_pairs);
  get_ranges_keyvalues = λ o snapshot.
      map ok (limited o.limit (directed o.reverse (slice (o.begin, o.end) cursor_pairs)));
}

cursor_reader-Sees : (snapshot : Bool) → Sees snapshot cursor_reader cursor_pairs
unfolding cursor_reader
cursor_reader-Sees snapshot = record {
  keys_ascend = (tt, tt);
  get_lem = λ key. refl;
  range_lem = λ o. refl;
}

abbrev cursor_database : Database
cursor_database = record { create_trx = ok cursor_reader; on_error = λ tr e. err e }

get_cursor-eq_ok_iff_example :
    (get_cursor plain cursor_database store_1 (text "c") ≡ ok (some stamp_1)) ↔ (
      (lookup (pack_cursor_key plain namespace (text "c")) cursor_pairs ≡ some stamp_1)
      × (length stamp_1 ≡ 12))
get_cursor-eq_ok_iff_example =
    get_cursor-eq_ok_iff plain cursor_database store_1 (text "c") cursor_reader cursor_pairs stamp_1
      refl (cursor_reader-Sees false)

pack_cursor_key-injective_example : (namespace ≡ namespace) × (text "c" ≡ text "c")
pack_cursor_key-injective_example =
    pack_cursor_key-injective plain plain_laws namespace namespace (text "c") (text "c")
      (omega arith) (omega arith) (omega arith) (omega arith) refl

event_1-few : length (sort_tags (text "x" ∷ [])) < 64
unfolding sort_tags
event_1-few = omega arith

append_single-committed_example :
    map (committed plain tx_1) (append_single plain namespace event_1 0)
    ≡ record {
      key = plain.pack (string namespace ∷ string events_sub ∷ versionstamp (complete tx_1 0) ∷ []);
      value = encode_event_value plain event_1;
    }
      ∷ map
          (λ subset. record {
            key = index_key plain namespace subset (text "a") (complete tx_1 0);
            value = [];
          })
          (generate_superset_presorted (sort_tags (text "x" ∷ [])))
append_single-committed_example =
    append_single-committed plain plain_laws namespace (omega arith) tx_1 0 event_1 (omega arith)
      (omega arith) event_1-few
