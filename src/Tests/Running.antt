-- ===== src/Tests/Running.antt =====
-- A run of the store from an empty database: one round of `append`, then a read. Witnesses.
use dcb_layer.Common.{
  ◌≡◌, refl, sym, ap, subst, inl, inr, List, [], ◌∷◌, ◌++◌, map, In, In-map, In-map_inv, ok, arith,
  Bool, true, false,
}
use dcb_layer.Common.Bytes.{Bytes, text, lt, IsBytes}
use dcb_layer.Types.{Event, StoredEvent, has_no_type_nor_tags}
use dcb_layer.Tuple.Laws.{NulFree}
use dcb_layer.Fdb.{KeyValue, Mutation, Transaction}
use dcb_layer.Fdb.Laws.{KeysAscend, slice, lookup, limited, directed, Sees}
use dcb_layer.Encoding.Keys.{
  vs_to_fdb, tag_sentinel_elems, pack_event_key, pack_event_key_fdb, pack_tag_index_key_fdb,
  pack_sentinel_key,
}
use dcb_layer.Encoding.Values.{encode_event_value}
use dcb_layer.Encoding.Tags.{sort_tags, generate_superset_presorted}
use dcb_layer.Append.{
  append_single, append_events, batch, commit_batch, after_commit, validate, append_round, return,
}
use dcb_layer.Append.Writes.{committed}
use dcb_layer.Append.Commit.{Commits, positioned}
use dcb_layer.System.{
  appended, MayPersist, Persisted, IsVersion, IsAppendable, State, IsEmpty, IsRound, Step, appends,
  Reachable, start, step, SpecStep,
}
use dcb_layer.System.Invariant.{Represents, outcome}
use dcb_layer.System.Refinement.{IsEmpty-Represents, Step-Represents}
use dcb_layer.Append.Preserves.{batch-Holds}
use dcb_layer.Append.Stores.{batch-HoldsEvents}
use dcb_layer.System.Batches.{positioned-IsStorable}
use dcb_layer.Store.{IsStorable, Holds, HoldsEvents}
use dcb_layer.Encoding.Values.RoundTrip.{IsEvent}
use dcb_layer.Tests.Plain.{plain, plain_laws}
use dcb_layer.Tests.Scene.{namespace, event_1, event_entry, entry_pair, condition}

abbrev version_0 : Bytes
version_0 = 0 ∷ 0 ∷ 0 ∷ 0 ∷ 0 ∷ 0 ∷ 0 ∷ 0 ∷ 0 ∷ 0 ∷ []

abbrev pub version_1 : Bytes
version_1 = 0 ∷ 0 ∷ 0 ∷ 0 ∷ 0 ∷ 0 ∷ 0 ∷ 0 ∷ 0 ∷ 1 ∷ []

abbrev pub batch_1 : List Event
batch_1 = event_1 ∷ []

abbrev sentinel_pair : KeyValue
sentinel_pair = record { key = pack_sentinel_key plain namespace; value = version_1 ++ 0 ∷ 0 ∷ [] }

abbrev pub pairs_1 : List KeyValue
pairs_1 = event_entry ∷ entry_pair [] ∷ entry_pair (text "x" ∷ []) ∷ sentinel_pair ∷ []

abbrev pub state_0 : State
state_0 = record { kvs = []; version = version_0 }

abbrev pub state_1 : State
state_1 = record { kvs = pairs_1; version = version_1 }

-- The batch writes the pairs.
batch_1-writes : map (committed plain version_1) (batch plain namespace batch_1) ≡ pairs_1
unfolding plain batch append_events append_single sort_tags generate_superset_presorted
    pack_event_key pack_event_key_fdb pack_tag_index_key_fdb pack_sentinel_key tag_sentinel_elems
    vs_to_fdb encode_event_value
batch_1-writes = refl

pub pairs_1-KeysAscend : KeysAscend pairs_1
unfolding plain tag_sentinel_elems vs_to_fdb lt pack_event_key pack_sentinel_key
pairs_1-KeysAscend = ((refl, (refl, (refl, tt))), ((refl, (refl, tt)), ((refl, tt), (tt, tt))))

pub batch_1-Commits : Commits plain version_1 (batch plain namespace batch_1) [] pairs_1
batch_1-Commits = record {
  ascend = pairs_1-KeysAscend;
  kept = λ kv m. absurd m;
  written = λ m k. (committed plain version_1 m, there m k, refl);
  sources = λ kv k.
      let (m, n, e) =
        In-map_inv (committed plain version_1) kv (batch plain namespace batch_1)
          (subst (In kv) (sym batch_1-writes) k) in
      inr (m, n, ap (λ (x : KeyValue). x.key) e);
  unwritten = λ kv m. absurd m;
  given = λ m k only. there m k;
}
  where
    there :
        (m : Mutation)
        → In m (batch plain namespace batch_1)
        → In (committed plain version_1 m) pairs_1
    there m k =
        subst (In (committed plain version_1 m)) batch_1-writes
          (In-map (committed plain version_1) m (batch plain namespace batch_1) k)

-- A transaction that sees some pairs, and commits at the version 1.
unfoldable pub on_pairs : List KeyValue → Transaction
unfolding slice lookup
on_pairs kvs = record {
  retries = 0;
  options = [];
  watches = [];
  set_option = λ o. ok tt;
  get = λ key snapshot. ok (lookup key kvs);
  get_ranges_keyvalues =
      λ o snapshot. map ok (limited o.limit (directed o.reverse (slice (o.begin, o.end) kvs)));
  commit = λ options watches ms. ok tt;
  get_versionstamp = ok version_1;
}

pub on_pairs-Sees :
    (snapshot : Bool) (kvs : List KeyValue) → KeysAscend kvs → Sees snapshot (on_pairs kvs) kvs
unfolding on_pairs
on_pairs-Sees snapshot kvs a = record {
  keys_ascend = a;
  get_lem = λ key. refl;
  range_lem = λ o. refl;
}

pub state_1-Sees : Sees true (on_pairs pairs_1) pairs_1
state_1-Sees = on_pairs-Sees true pairs_1 pairs_1-KeysAscend

pub state_0-IsEmpty : IsEmpty plain namespace state_0
unfolding lookup
state_0-IsEmpty = record {
  ascend = tt;
  key_bytes = λ kv m. absurd m;
  no_entry = λ kv m. absurd m;
  no_event = λ kv m. absurd m;
  no_sentinel = refl;
}

event_1-IsAppendable : IsAppendable event_1
event_1-IsAppendable = record {
  type_bytes = omega arith;
  type_free = omega arith;
  tags_bytes = omega arith;
  tags_free = omega arith;
  payload_bytes = omega arith;
}

pub version_1-IsVersion : IsVersion version_1
version_1-IsVersion = record { ten = refl; version_bytes = omega arith }

pub namespace-IsBytes : IsBytes namespace
namespace-IsBytes = omega arith

pub namespace-NulFree : NulFree namespace
namespace-NulFree = omega arith

-- The round that appends the event, provided that there is none with its tag.
pub state_0-IsRound : IsRound plain namespace state_0 (on_pairs []) batch_1 (condition ∷ [])
unfolding on_pairs validate has_no_type_nor_tags
state_0-IsRound = record {
  sees = on_pairs-Sees false [] tt;
  idempotent = refl;
  valid = refl;
  appendable = (event_1-IsAppendable, tt);
  typed = (((omega arith, tt), tt), tt);
}

pub state_0-Represents : Represents plain namespace [] state_0
state_0-Represents =
    IsEmpty-Represents plain namespace state_0 namespace-IsBytes namespace-NulFree state_0-IsEmpty

pub append_round-empty :
    append_round plain (on_pairs []) namespace batch_1 (condition ∷ [])
    ≡ return (ok (version_1 ++ 0 ∷ 0 ∷ []))
unfolding commit_batch after_commit on_pairs
append_round-empty = elim (outcome plain plain_laws namespace state_0-Represents state_0-IsRound) [
  | inl ((cond, m, (item, k, (se, n, p, a))), e) ↦ absurd n
  | inr (clear, e) ↦ e
]

pub batch_1-Persisted : Persisted plain namespace state_0 state_1 batch_1
unfolding lt
batch_1-Persisted = record {
  versioned = version_1-IsVersion;
  above = refl;
  commits = batch_1-Commits;
}

pub state_0-Step :
    Step plain namespace (appended batch_1 (condition ∷ []) version_1) state_0 state_1
unfolding lt on_pairs
state_0-Step =
    appends (on_pairs []) batch_1 (condition ∷ []) state_0-IsRound
      (MayPersist.told (version_1 ++ 0 ∷ 0 ∷ []) append_round-empty refl) batch_1-Persisted

pub state_1-Reachable : Reachable plain namespace state_1
state_1-Reachable = step (start state_0-IsEmpty) state_0-Step

Step-Represents_example :
    (history' : List StoredEvent) × SpecStep
      (appended batch_1 (condition ∷ []) version_1)
      []
      history'
    × Represents plain namespace history' state_1
Step-Represents_example =
    Step-Represents plain plain_laws namespace (appended batch_1 (condition ∷ []) version_1) state_0
      state_1 [] state_0-Represents state_0-Step

batch_1-ready :
    (se : StoredEvent) → In se (positioned version_1 0 batch_1) → IsStorable se × IsEvent se.event
batch_1-ready =
    positioned-IsStorable version_1 0 batch_1 version_1-IsVersion
      ((refl, omega arith, ground arith), tt) (event_1-IsAppendable, tt)

batch-Holds_example : Holds plain namespace ([] ++ positioned version_1 0 batch_1) pairs_1
batch-Holds_example =
    batch-Holds plain plain_laws state_0-Represents.holds batch_1 version_1 refl
      (λ se m. (batch_1-ready se m).0) batch_1-Commits

batch-HoldsEvents_example :
    HoldsEvents plain namespace ([] ++ positioned version_1 0 batch_1) pairs_1
batch-HoldsEvents_example =
    batch-HoldsEvents plain plain_laws state_0-Represents.holds state_0-Represents.stored batch_1
      version_1 refl (omega arith) (λ se m. (batch_1-ready se m).0) (λ se m. (batch_1-ready se m).1)
      (λ old new m. absurd m) batch_1-Commits

-- A watch is the key that it is for.
abbrev pub watch_key : Transaction → Bytes → Bytes
watch_key tr key = key
