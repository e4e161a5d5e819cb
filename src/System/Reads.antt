-- ===== src/System/Reads.antt =====
-- The reads of dcb-layer/src/read.rs in the states that its writers reach: `read_all` returns the
-- history, and `read` what the reference makes of it.
use dcb_layer.Common.{ℕ, ◌<◌, ◌≡◌, ap, true, Option, some, List, In, Result, ok}
use dcb_layer.Common.Bytes.{IsBytes}
use dcb_layer.Types.{StoredEvent, QueryItem, Query, ReadOptions, FdbStore}
use dcb_layer.Error.{Error}
use dcb_layer.Tuple.{Codec}
use dcb_layer.Tuple.Laws.{CodecLaws, NulFree}
use dcb_layer.Fdb.{Transaction}
use dcb_layer.Fdb.Laws.{Sees}
use dcb_layer.Store.Range.{IsPosition}
use dcb_layer.Store.Queries.{IsQueryItem}
use dcb_layer.Read.{TransactBoxed, unwrap_or_default, read, read_all}
use dcb_layer.Read.All.{scan_all_events-history}
use dcb_layer.Read.Outcome.{keys_given}
use dcb_layer.Read.Public.{BeginsWith}
use dcb_layer.Read.Reference.{reference}
use dcb_layer.Read.Equal.{read_events-reference}
use dcb_layer.System.{State, Reachable, SpecReachable}
use dcb_layer.System.Invariant.{Represents}
use dcb_layer.System.Refinement.{Reachable-Represents}

-- For a codec that meets the laws, a namespace of bytes without NUL, a state that is reachable from
-- one without events, index entries or a sentinel of the namespace by rounds of `append` with well
-- typed events and conditions, texts without NUL, and commits of cursors, a client whose
-- `transact_boxed` begins with a transaction whose snapshot reads see the state's pairs, a query
-- whose items ask for something, with texts of bytes and no reserved tag, and a position of 12
-- bytes if the options give one: there is a history that the documented event store reaches and the
-- state holds, `read_all` returns exactly this history, in order, and on any fuel above the number
-- of keys that the ranges of the query give, `read` returns what the reference computes of it: the
-- events that match some item and lie after the position, turned around for a reverse read, the
-- first `limit` of them or all where it is 0.
pub Reachable-read :
    (c : Codec)
    → CodecLaws c
    → (store : FdbStore) → IsBytes store.namespace
    → NulFree store.namespace
    → (s : State) (tr : Transaction) (transact_boxed : TransactBoxed) (query : Query)
      (given : Option ReadOptions) (fuel : ℕ)
    → Reachable c store.namespace s
    → Sees true tr s.kvs
    → BeginsWith transact_boxed tr
    → ((item : QueryItem) → In item query.items → IsQueryItem item)
    → IsPosition (unwrap_or_default given).after
    → keys_given c tr store.namespace query (unwrap_or_default given) < fuel
    → (history : List StoredEvent) × SpecReachable history
      × Represents c store.namespace history s
      × (read_all c transact_boxed store ≡ some (ok history))
      × (read c fuel transact_boxed store query given
          ≡ some (ok (reference query (unwrap_or_default given) history)))
unfolding read read_all
Reachable-read c laws store bytes free s tr transact_boxed query given fuel reachable sees begins
      asked position enough =
    let (history, spec, inv) = Reachable-Represents c laws store.namespace bytes free s reachable in
    let all =
      scan_all_events-history c laws inv.holds inv.stored inv.keys_ascend inv.positions_ascend
        inv.primary tr sees in
    let run =
      read_events-reference c laws inv.holds tr sees inv.stored inv.positions_ascend query
        (unwrap_or_default given) asked position fuel enough in
    (
      history,
      spec,
      inv,
      begins _ _ history (ap (λ (o : Result (List StoredEvent) Error). some o) all),
      begins _ _ _ run,
    )
