-- ===== src/Tests/Signals.antt =====
-- What watches, cursors and full scans see of the runs. Witnesses.
use dcb_layer.Common.{
  Result, ◌⊎◌, ◌≡◌, ◌≢◌, refl, sym, inl, inr, false, some, List, [], ◌∷◌, ◌++◌, ok, arith, ap, err,
}
use dcb_layer.Common.Bytes.{Bytes, text, lt}
use dcb_layer.Types.{FdbStore}
use dcb_layer.Error.{FdbError, Error, fdb}
use dcb_layer.Fdb.{commit_writes, with_watch, KeyValue, Transaction, Database, set}
use dcb_layer.Fdb.Laws.{lookup}
use dcb_layer.Encoding.Keys.{pack_cursor_key, pack_sentinel_key}
use dcb_layer.Append.Commit.{written_key, Commits, positioned}
use dcb_layer.Append.Writes.{committed}
use dcb_layer.Read.{read_events, scan_all_events}
use dcb_layer.Read.All.{scan_all_events-history}
use dcb_layer.Read.Equal.{read_events-reference}
use dcb_layer.Read.Reference.{reference}
use dcb_layer.Subscribe.{get_cursor, set_cursor, register_sentinel_watch}
use dcb_layer.System.{additions, SpecReachable, Action, cursor, State, Step, sets_cursor, LeadsTo}
use dcb_layer.System.CursorMap.{cursor_set, read_after, Step-get_cursor}
use dcb_layer.System.CursorCalls.{SetsCursor, commits, retries, unchanged, set_cursor_served}
use dcb_layer.System.Invariant.{Represents}
use dcb_layer.Tests.Histories.{attempt, first_attempt, retrying}
use dcb_layer.System.Watches.{register_sentinel_watch_fires}
use dcb_layer.Tests.Plain.{plain, plain_laws}
use dcb_layer.Tests.Scene.{namespace, stamp_1}
use dcb_layer.Tests.Running.{
  version_1, batch_1, pairs_1, state_0, state_1, on_pairs, on_pairs-Sees, state_0-IsRound,
  state_0-Represents, state_1-Sees, batch_1-Commits, version_1-IsVersion, namespace-IsBytes,
  namespace-NulFree, watch_key,
}
use dcb_layer.Tests.Reading.{twice, one_back, twice-IsQueryItem, pairs_1-keys_given}
use dcb_layer.Tests.Decisions.{state_1-Represents, state_0-Reachable}

abbrev store_1 : FdbStore
store_1 = record { namespace = namespace }

-- Databases that create a transaction on the pairs.
abbrev on_store : List KeyValue → Database
on_store kvs = record { create_trx = ok (on_pairs kvs); on_error = λ tr e. err e }

on_store-watch :
    register_sentinel_watch plain watch_key (on_store []) store_1
    ≡ ok (pack_sentinel_key plain namespace)
unfolding register_sentinel_watch on_pairs
on_store-watch = refl

register_sentinel_watch_fires_example :
    (tr : Transaction) × (key : Bytes) × ((on_store []).create_trx ≡ ok tr)
    × (commit_writes (with_watch key tr) [] ≡ ok tt)
    × (pack_sentinel_key plain namespace ≡ watch_key (with_watch key tr) key)
    × (lookup key pairs_1 ≡ some (version_1 ++ 0 ∷ 0 ∷ []))
    × (lookup key [] ≢ lookup key pairs_1)
unfolding lt
register_sentinel_watch_fires_example =
    register_sentinel_watch_fires plain plain_laws watch_key (on_store []) store_1 namespace-IsBytes
      namespace-NulFree (pack_sentinel_key plain namespace) [] state_0 state_0 state_1
      on_store-watch state_0-Reachable LeadsTo.stays (on_pairs []) batch_1 _ state_0-IsRound
      version_1-IsVersion refl batch_1-Commits

abbrev cursor_pair : KeyValue
cursor_pair = record { key = pack_cursor_key plain namespace (text "c"); value = stamp_1 }

abbrev state_c : State
state_c = record { kvs = cursor_pair ∷ []; version = version_1 }

cursor-Commits :
    Commits plain version_1
      (set (pack_cursor_key plain namespace (text "c")) stamp_1 ∷ [])
      []
      (cursor_pair ∷ [])
cursor-Commits = record {
  ascend = (tt, tt);
  kept = λ kv m. absurd m;
  written = λ m k. (
    cursor_pair,
    inl refl,
    elim k [ inl e ↦ ap (written_key plain version_1) (sym e) | inr n ↦ absurd n ],
  );
  sources = λ kv k. elim k [
    | inl e ↦ inr (_, inl refl, ap (λ (x : KeyValue). x.key) e)
    | inr n ↦ absurd n
  ];
  unwritten = λ kv m. absurd m;
  given = λ m k only. elim k [ inl e ↦ inl (ap (committed plain version_1) e) | inr n ↦ absurd n ];
}

abbrev cursor_action : Action
cursor_action = cursor (text "c") stamp_1

cursor-Step : Step plain namespace cursor_action state_0 state_c
unfolding lt
cursor-Step = sets_cursor (text "c") stamp_1 (omega arith) refl refl cursor-Commits

Step-get_cursor_example :
    get_cursor plain (on_store (cursor_pair ∷ [])) store_1 (text "c")
    ≡ read_after plain plain_laws store_1 namespace-IsBytes namespace-NulFree
        (cursor_set plain plain_laws store_1 namespace-IsBytes namespace-NulFree cursor_action)
        (text "c")
        (get_cursor plain (on_store []) store_1 (text "c"))
Step-get_cursor_example =
    Step-get_cursor plain plain_laws store_1 namespace-IsBytes namespace-NulFree state_0 state_c
      (on_store []) (on_store (cursor_pair ∷ [])) (on_pairs []) (on_pairs (cursor_pair ∷ [])) refl
      (on_pairs-Sees false [] tt) refl (on_pairs-Sees false (cursor_pair ∷ []) (tt, tt))
      cursor_action cursor-Step (text "c") (omega arith)

-- The first attempt to set the cursor fails, the second succeeds.
retrying-SetsCursor :
    SetsCursor plain namespace
      (text "c")
      stamp_1
      retrying
      1
      state_0
      first_attempt
      (ok tt)
      []
      state_c
unfolding lt on_pairs
retrying-SetsCursor =
    retries {tr' = attempt 1 []} {before = []} LeadsTo.stays refl unchanged refl
      (commits LeadsTo.stays refl (record { above = refl; commits = cursor-Commits }))

set_cursor_served_example :
    (set_cursor plain 2 retrying store_1 (text "c") stamp_1 ≡ some (ok tt))
    × Represents plain namespace ([] ++ additions []) state_c
    × ((◌≡◌ {A = Result (Unit {0}) Error} (ok tt) (ok tt))
          × (get_cursor plain (on_store (cursor_pair ∷ [])) store_1 (text "c") ≡ ok (some stamp_1))
        ⊎ ((e : FdbError) × (◌≡◌ {A = Result (Unit {0}) Error} (ok tt) (err (fdb e)))))
set_cursor_served_example =
    set_cursor_served plain plain_laws store_1 (text "c") (omega arith) stamp_1 refl retrying 1 2
      state_0 state_c first_attempt (ok tt) [] [] refl state_0-Represents SpecReachable.start
      retrying-SetsCursor (omega arith) (on_store (cursor_pair ∷ [])) (on_pairs (cursor_pair ∷ []))
      refl (on_pairs-Sees false (cursor_pair ∷ []) (tt, tt))

scan_all_events-history_example :
    scan_all_events plain (on_pairs pairs_1) namespace ≡ ok ([] ++ positioned version_1 0 batch_1)
scan_all_events-history_example =
    scan_all_events-history plain plain_laws state_1-Represents.holds state_1-Represents.stored
      state_1-Represents.keys_ascend state_1-Represents.positions_ascend state_1-Represents.primary
      (on_pairs pairs_1) state_1-Sees

read_events-reference_example :
    read_events plain 3 (on_pairs pairs_1) namespace twice one_back
    ≡ some (ok (reference twice one_back ([] ++ positioned version_1 0 batch_1)))
read_events-reference_example =
    read_events-reference plain plain_laws state_1-Represents.holds (on_pairs pairs_1) state_1-Sees
      state_1-Represents.stored state_1-Represents.positions_ascend twice one_back twice-IsQueryItem
      tt 3 (omega (arith, pairs_1-keys_given))
