-- ===== src/System/Refinement.antt =====
-- The writers of dcb-layer/src/append.rs and dcb-layer/src/subscribe.rs as steps of the documented
-- event store, and reads of it.
use dcb_layer.Common.{ℕ, ◌<◌, ◌≡◌, sym, ◌∙◌, inl, inr, some, List, [], ◌++◌, In, map, ok, true}
use dcb_layer.Common.Bytes.{Text, IsBytes}
use dcb_layer.Types.{StoredEvent, QueryItem, Query, ReadOptions}
use dcb_layer.Tuple.{Codec}
use dcb_layer.Tuple.Laws.{CodecLaws, NulFree}
use dcb_layer.Fdb.{Transaction, automatic_idempotency, with_option}
use dcb_layer.Fdb.Laws.{Sees}
use dcb_layer.Store.Range.{IsPosition}
use dcb_layer.Store.Queries.{IsQueryItem}
use dcb_layer.Append.Commit.{positioned}
use dcb_layer.Read.{read_events}
use dcb_layer.Read.Order.{IsFirst}
use dcb_layer.Read.Stamps.{PositionOf}
use dcb_layer.Read.Outcome.{Wanted, keys_given, read_events-IsFirst}
use dcb_layer.System.{
  Action, State, IsEmpty, Step, appends, refuses, fails, sets_cursor, Reachable, start, step,
  SpecStep, SpecReachable,
}
use dcb_layer.System.Cursors.{set_cursor-Represents}
use dcb_layer.System.Invariant.{
  Represents, outcome, committed_Represents, persisted-clear, commit_batch-ne_refused,
}

-- An empty namespace holds the empty history.
pub IsEmpty-Represents :
    (c : Codec) (namespace : Text) (s : State)
    → IsBytes namespace
    → NulFree namespace
    → IsEmpty c namespace s
    → Represents c namespace [] s
IsEmpty-Represents c namespace s bytes free empty = record {
  holds = record {
    namespace_bytes = bytes;
    namespace_free = free;
    storable = λ se m. absurd m;
    key_bytes = empty.key_bytes;
    complete = λ se subset m u. absurd m;
    sound = λ kv m inside. absurd (empty.no_entry kv m inside);
  };
  stored = λ se m. absurd m;
  positions_ascend = tt;
  not_above = λ se m. absurd m;
  keys_ascend = empty.ascend;
  primary = λ kv m starts. absurd (empty.no_event kv m starts);
}

module _ (c : Codec) (laws : CodecLaws c) (namespace : Text) where
  -- For a codec that meets the laws and a state that holds a history, with ascending positions that
  -- are not above the last version: whatever action a step takes from the state (with well typed
  -- input, texts without NUL), the documented event store takes the same from the history. If a
  -- round of `append` has its batch committed, whether or not it is told so, no event of the
  -- history conflicts with its conditions, and the new state holds the history followed by the
  -- events of the batch at their positions, ascending again; if it returns AppendConditionFailed,
  -- some event of the history does conflict with its conditions, and the state still holds the same
  -- history, as it does if its commit fails without effect, and as the new state does after a
  -- cursor is set.
  pub Step-Represents :
      (action : Action) (s s' : State) (history : List StoredEvent)
      → Represents c namespace history s
      → Step c namespace action s s'
      → (history' : List StoredEvent) × SpecStep action history history'
        × Represents c namespace history' s'
  Step-Represents action s s' history inv (appends tr events conds round ended done) =
      let inv' =
        committed_Represents c laws namespace inv round s' done.versioned done.above done.commits in
      (
        history ++ positioned s'.version 0 events,
        SpecStep.appends events conds s'.version
            (persisted-clear c laws namespace inv round s'.version ended) inv'.positions_ascend,
        inv',
      )
  Step-Represents action s s' history inv (refuses tr events conds round run) =
      elim (outcome c laws namespace inv round) [
        | inl (conflict, run') ↦ (history, SpecStep.refuses events conds conflict, inv)
        | inr (clear, run') ↦ absurd (
            commit_batch-ne_refused c (with_option automatic_idempotency tr) namespace events
              (sym run' ∙ run))
      ]
  Step-Represents action s s' history inv (fails tr events conds e round run) =
      (history, SpecStep.fails events conds, inv)
  Step-Represents action s s' history inv (sets_cursor name position bytes long above commits) = (
    history,
    SpecStep.sets_cursor name position,
    set_cursor-Represents c laws namespace inv s' name position bytes above commits,
  )

  module _ (namespace_bytes : IsBytes namespace) (free : NulFree namespace) where
    -- For a codec that meets the laws and a namespace of bytes without NUL: every state that is
    -- reachable from one without events, index entries or a sentinel of the namespace by rounds of
    -- `append` with well typed events and conditions, texts without NUL, and commits of cursors
    -- holds a history that the documented event store reaches: its index and its primary subspace
    -- are those of the events, whose positions ascend.
    pub Reachable-Represents :
        (s : State)
        → Reachable c namespace s
        → (history : List StoredEvent) × SpecReachable history × Represents c namespace history s
    Reachable-Represents s (start empty) =
        ([], SpecReachable.start, IsEmpty-Represents c namespace s namespace_bytes free empty)
    Reachable-Represents s (step {action = action} {s = t} before now) =
        let (history, spec, inv) = Reachable-Represents t before in
        let (history', then, inv') = Step-Represents action t s history inv now in
        (history', SpecReachable.step spec then, inv')

    -- For a codec that meets the laws, a namespace of bytes without NUL, a state that is reachable
    -- from one without events, index entries or a sentinel of the namespace by rounds of `append`
    -- (with well typed events and conditions, texts without NUL) and commits of cursors, a
    -- transaction whose snapshot reads see the state's pairs, a query whose items ask for
    -- something, with texts of bytes and no reserved tag, and a position of 12 bytes if one is
    -- given: there is a history that the documented event store reaches and that the state holds,
    -- and on any fuel above the number of keys that the ranges of the query give, `read_events`
    -- returns events of this history that match some item and lie after the position, in the order
    -- of the read, without duplicates: the first `limit` of all that do, or all of them if the
    -- limit is 0.
    pub Reachable-read_events :
        (s : State) (tr : Transaction) (query : Query) (opts : ReadOptions) (fuel : ℕ)
        → Reachable c namespace s
        → Sees true tr s.kvs
        → ((item : QueryItem) → In item query.items → IsQueryItem item)
        → IsPosition opts.after
        → keys_given c tr namespace query opts < fuel
        → (history events : List StoredEvent) × SpecReachable history
          × Represents c namespace history s
          × (read_events c fuel tr namespace query opts ≡ some (ok events))
          × ((se : StoredEvent) → In se events → In se history × Wanted query.items opts.after se)
          × IsFirst opts.reverse opts.limit
              (PositionOf history (Wanted query.items opts.after))
              (map (λ se. se.position) events)
    Reachable-read_events s tr query opts fuel reachable sees asked position enough =
        let (history, spec, inv) = Reachable-Represents s reachable in
        let (events, run, wanted, first) =
          read_events-IsFirst c laws inv.holds tr sees inv.stored query opts asked position fuel
            enough in
        (history, events, spec, inv, run, wanted, first)
