-- ===== src/System.antt =====
-- The store of a namespace as a system: the rounds of `append` of dcb-layer/src/append.rs and the
-- commits of `set_cursor` of dcb-layer/src/subscribe.rs, one after the other as the database
-- serializes their transactions, and the event store that they stand for.
pub mod Batches
pub mod Invariant
pub mod Cursors
pub mod Refinement
pub mod Growth
pub mod Decisions
pub mod Serving
pub mod Attempts
pub mod Watches
pub mod CursorMap
pub mod CursorCalls
pub mod Reads
use dcb_layer.Common.{
  ◌≡◌, Bool, true, false, none, List, [], ◌∷◌, ◌++◌, map, In, All, take, length, ok, err,
}
use dcb_layer.Common.Bytes.{Bytes, Text, IsBytes, lt}
use dcb_layer.Types.{Event, StoredEvent, AppendCondition, Versionstamp}
use dcb_layer.Error.{append_condition_failed, fdb}
use dcb_layer.Tuple.{string, Codec}
use dcb_layer.Tuple.Laws.{NulFree}
use dcb_layer.Fdb.{KeyValue, Transaction, automatic_idempotency}
use dcb_layer.Error.{FdbError}
use dcb_layer.Fdb.Laws.{KeysAscend, Sees, lookup}
use dcb_layer.Encoding.Keys.{indexes_sub, pack_events_prefix, pack_cursor_key, pack_sentinel_key}
use dcb_layer.Query.Strinc.{StartsWith}
use dcb_layer.Read.Order.{IsOrdered}
use dcb_layer.Append.{Round, return, retry, validate, append_round, batch}
use dcb_layer.Subscribe.{cursor_writes}
use dcb_layer.Append.Commit.{Commits, positioned}
use dcb_layer.Append.Conditions.{SomeConflict}
use dcb_layer.Append.Outcome.{IsWellTyped}

-- A version of a commit: 10 bytes.
pub record IsVersion (tx : Bytes) : Type 0 where
  pub ten : length tx ≡ 10
  pub version_bytes : IsBytes tx

-- The texts and the payload of an event are bytes, its texts without NUL.
pub record IsAppendable (event : Event) : Type 0 where
  pub type_bytes : IsBytes event.type_name
  pub type_free : NulFree event.type_name
  pub tags_bytes : All IsBytes event.tags
  pub tags_free : All NulFree event.tags
  pub payload_bytes : IsBytes event.payload

-- The pairs of the database, and the version of the last commit.
pub record State : Type 0 where
  pub kvs : List KeyValue
  pub version : Bytes

-- What the database holds before the first event of the namespace: nothing in its
-- index or its primary subspace, and no sentinel.
pub record IsEmpty (c : Codec) (namespace : Text) (s : State) : Type 0 where
  pub ascend : KeysAscend s.kvs
  pub key_bytes : (kv : KeyValue) → In kv s.kvs → IsBytes kv.key
  pub no_entry :
      (kv : KeyValue)
      → In kv s.kvs
      → ¬ StartsWith (c.pack (string namespace ∷ string indexes_sub ∷ [])) kv.key
  pub no_event :
      (kv : KeyValue) → In kv s.kvs → ¬ StartsWith (pack_events_prefix c namespace) kv.key
  pub no_sentinel : lookup (pack_sentinel_key c namespace) s.kvs ≡ none

-- What a client does: a round of `append` that adds its events at a version, that is refused, or
-- that fails; or the commit of a cursor.
pub data Action : Type 0 where
  appended : List Event → List AppendCondition → Bytes → Action
  refused failed : List Event → List AppendCondition → Action
  cursor : Text → Versionstamp → Action

-- How a round can end whose commit took effect at a version: it is told of the version, the future
-- for the version fails, or the commit ends in an error that leaves its outcome open.
module _ (tr : Transaction) (version : Bytes) (round : Round) where
  pub data MayPersist : Type 0 where
    told :
        (position : Versionstamp)
        → round ≡ return (ok position)
        → tr.get_versionstamp ≡ ok version
        → MayPersist
    unstamped : (e : FdbError) → round ≡ return (err (fdb e)) → MayPersist
    unknown : (e : FdbError) → round ≡ retry e → e.maybe_committed ≡ true → MayPersist

module _ (c : Codec) (namespace : Text) where
  -- A round of `append` on a transaction whose reads, its snapshot reads aside, see the state.
  pub record IsRound (s : State) (tr : Transaction) (events : List Event)
      (conds : List AppendCondition) : Type 0 where
    pub sees : Sees false tr s.kvs
    pub idempotent : tr.set_option automatic_idempotency ≡ ok tt
    pub valid : validate events conds ≡ ok tt
    pub appendable : All IsAppendable events
    pub typed : All IsWellTyped conds

  -- The batch of a round is committed from one state to another, at a version above all before.
  pub record Persisted (s s' : State) (events : List Event) : Type 0 where
    pub versioned : IsVersion s'.version
    pub above : lt s.version s'.version ≡ true
    pub commits : Commits c s'.version (batch c namespace events) s.kvs s'.kvs

  -- A step: a round whose commit takes effect, that finds a conflict, or whose commit fails without
  -- effect; or the commit of a cursor.
  pub data Step : Action → State → State → Type 0 where
    appends :
        {s s' : State} (tr : Transaction) (events : List Event) (conds : List AppendCondition)
        → IsRound s tr events conds
        → MayPersist tr s'.version (append_round c tr namespace events conds)
        → Persisted s s' events
        → Step (appended events conds s'.version) s s'
    refuses :
        {s : State} (tr : Transaction) (events : List Event) (conds : List AppendCondition)
        → IsRound s tr events conds
        → append_round c tr namespace events conds ≡ return (err append_condition_failed)
        → Step (refused events conds) s s
    fails :
        {s : State} (tr : Transaction) (events : List Event) (conds : List AppendCondition)
        (e : FdbError)
        → IsRound s tr events conds
        → append_round c tr namespace events conds ≡ retry e
        → Step (failed events conds) s s
    sets_cursor :
        {s s' : State} (name : Text) (position : Versionstamp)
        → IsBytes name
        → length position ≡ 12
        → lt s.version s'.version ≡ true
        → Commits c s'.version
            (cursor_writes (pack_cursor_key c namespace name) position)
            s.kvs
            s'.kvs
        → Step (cursor name position) s s'

  -- From the first state, these actions of any clients lead to the second.
  pub data LeadsTo : List Action → State → State → Type 0 where
    stays : {s : State} → LeadsTo [] s s
    goes_on :
        {actions : List Action} {action : Action} {s t s' : State}
        → LeadsTo actions s t
        → Step action t s'
        → LeadsTo (actions ++ action ∷ []) s s'

  pub data Reachable : State → Type 0 where
    start : {s : State} → IsEmpty c namespace s → Reachable s
    step : {action : Action} {s s' : State} → Reachable s → Step action s s' → Reachable s'

-- The event store that the documentation describes: an append adds its events behind all others,
-- provided no event conflicts with its conditions, and positions ascend; it is refused if some event
-- does, and then, or where the commit fails, nothing changes, as when a cursor is set.
pub data SpecStep : Action → List StoredEvent → List StoredEvent → Type 0 where
  appends :
      {history : List StoredEvent} (events : List Event) (conds : List AppendCondition) (tx : Bytes)
      → ¬ SomeConflict conds history
      → IsOrdered false (map (λ se. se.position) (history ++ positioned tx 0 events))
      → SpecStep (appended events conds tx) history (history ++ positioned tx 0 events)
  refuses :
      {history : List StoredEvent} (events : List Event) (conds : List AppendCondition)
      → SomeConflict conds history
      → SpecStep (refused events conds) history history
  fails :
      {history : List StoredEvent} (events : List Event) (conds : List AppendCondition)
      → SpecStep (failed events conds) history history
  sets_cursor :
      {history : List StoredEvent} (name : Text) (position : Versionstamp)
      → SpecStep (cursor name position) history history

pub data SpecReachable : List StoredEvent → Type 0 where
  start : SpecReachable []
  step :
      {action : Action} {h h' : List StoredEvent}
      → SpecReachable h
      → SpecStep action h h'
      → SpecReachable h'

-- The events that an action adds, and that actions add, at their positions.
abbrev pub added_by : Action → List StoredEvent
added_by (appended events conds tx) = positioned tx 0 events
added_by (refused events conds) = []
added_by (failed events conds) = []
added_by (cursor name position) = []

unfoldable pub additions : List Action → List StoredEvent
additions [] = []
additions (action ∷ actions) = added_by action ++ additions actions
