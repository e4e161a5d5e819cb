-- ===== src/Read/Public.antt =====
-- `FdbStore::read` of dcb-layer/src/read.rs.
use dcb_layer.Common.{ℕ, ◌<◌, ◌≡◌, Option, some, List, map, In, Result, ok, true}
use dcb_layer.Types.{StoredEvent, QueryItem, Query, ReadOptions, FdbStore}
use dcb_layer.Error.{Error}
use dcb_layer.Tuple.{Codec}
use dcb_layer.Tuple.Laws.{CodecLaws}
use dcb_layer.Fdb.{KeyValue, Transaction, TransactOption}
use dcb_layer.Fdb.Laws.{Sees}
use dcb_layer.Store.{Holds, HoldsEvents}
use dcb_layer.Store.Range.{IsPosition}
use dcb_layer.Store.Queries.{IsQueryItem}
use dcb_layer.Read.{TransactBoxed, unwrap_or_default, read}
use dcb_layer.Read.Order.{IsFirst}
use dcb_layer.Read.Stamps.{PositionOf}
use dcb_layer.Read.Outcome.{Wanted, keys_given, read_events-IsFirst}

-- What the client documents: a function that succeeds on the first transaction gives the result, a
-- transaction without writes having nothing to commit.
abbrev pub BeginsWith : TransactBoxed → Transaction → Type 0
BeginsWith transact_boxed tr =
    (run : Transaction → Option (Result (List StoredEvent) Error)) (option : TransactOption)
    (events : List StoredEvent)
    → run tr ≡ some (ok events)
    → transact_boxed run option ≡ some (ok events)

module _ (c : Codec) (laws : CodecLaws c) (store : FdbStore) {history : List StoredEvent}
    {kvs : List KeyValue} (tr : Transaction) (sees : Sees true tr kvs)
    (transact_boxed : TransactBoxed) (begins : BeginsWith transact_boxed tr) where
  -- For a codec that meets the laws, a store that holds a history in its index and in its primary
  -- subspace, a client whose `transact_boxed` begins with a transaction whose snapshot reads see
  -- its pairs, a query whose items ask for something, with texts of bytes and no reserved tag, and
  -- a position of 12 bytes if the options give one: on any fuel above the number of keys that the
  -- ranges of the query give, `read` returns events of the history that match some item and lie
  -- after the position, in the order of the read and without duplicates: the first `limit` of all
  -- that do, or all of them if the limit is 0, as it is without options.
  pub read-IsFirst :
      Holds c store.namespace history kvs
      → HoldsEvents c store.namespace history kvs
      → (query : Query) (given : Option ReadOptions)
      → ((item : QueryItem) → In item query.items → IsQueryItem item)
      → IsPosition (unwrap_or_default given).after
      → (fuel : ℕ) → keys_given c tr store.namespace query (unwrap_or_default given) < fuel
      → (events : List StoredEvent) × (read c fuel transact_boxed store query given
          ≡ some (ok events))
        × ((se : StoredEvent)
            → In se events
            → In se history × Wanted query.items (unwrap_or_default given).after se)
        × IsFirst
            (unwrap_or_default given).reverse
            (unwrap_or_default given).limit
            (PositionOf history (Wanted query.items (unwrap_or_default given).after))
            (map (λ se. se.position) events)
  unfolding read
  read-IsFirst holds stored query given asked position fuel enough =
      let (events, run, wanted, first) =
        read_events-IsFirst c laws holds tr sees stored query (unwrap_or_default given) asked
          position fuel enough in
      (events, begins _ _ events run, wanted, first)
