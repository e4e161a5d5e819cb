-- ===== src/System/Serving.antt =====
-- How the database serves the attempts of a call of `append` of dcb-layer/src/append.rs among other
-- clients, and what the call is for the event store that the documentation describes.
use dcb_layer.Common.{
  ◌≡◌, refl, sym, ap, ◌∙◌, true, ◌∷◌, [], none, some, List, ◌++◌, append_assoc, map, Result, ok,
  err,
}
use dcb_layer.Common.Bytes.{Bytes, Text}
use dcb_layer.Types.{Event, StoredEvent, AppendCondition, Versionstamp}
use dcb_layer.Error.{FdbError, Error, fdb, append_condition_failed}
use dcb_layer.Tuple.{Codec}
use dcb_layer.Fdb.{Transaction, Database, automatic_idempotency, with_option}
use dcb_layer.Append.{return, retry, append_round}
use dcb_layer.Append.Commit.{positioned}
use dcb_layer.Append.Conditions.{SomeConflict}
use dcb_layer.Read.Pages.{last_position}
use dcb_layer.System.{Action, State, IsRound, Persisted, LeadsTo, additions, added_by}

-- What a failed commit leaves of a state: the state itself, or, where the error leaves the outcome
-- open, perhaps a state in which the batch is committed.
module _ (c : Codec) (namespace : Text) (events : List Event) (e : FdbError) where
  pub data Leaves : State → State → Type 0 where
    unchanged : {s : State} → Leaves s s
    changed :
        {s s' : State} → e.maybe_committed ≡ true → Persisted c namespace s s' events → Leaves s s'

module _ (c : Codec) (namespace : Text) (db : Database) (events : List Event)
    (conds : List AppendCondition) where
  -- How the database serves a call that loops on a transaction: before each attempt other clients may
  -- act, as the list of their actions records; then the round commits, finds a conflict, or hands an
  -- error on, which the client retries with another transaction or gives up on. A commit can also
  -- take effect without an answer: the future for its version may fail, and so may the commit.
  pub data Serves
      : State → Transaction → Result Versionstamp Error → List Action → State → Type 0 where
    commits :
        {s t s' : State} {tr : Transaction} {others : List Action} {position : Versionstamp}
        → LeadsTo c namespace others s t
        → IsRound c namespace t tr events conds
        → append_round c tr namespace events conds ≡ return (ok position)
        → tr.get_versionstamp ≡ ok s'.version
        → Persisted c namespace t s' events
        → Serves s tr (ok position) others s'
    unstamped :
        {s t s' : State} {tr : Transaction} {others : List Action} {e : FdbError}
        → LeadsTo c namespace others s t
        → IsRound c namespace t tr events conds
        → append_round c tr namespace events conds ≡ return (err (fdb e))
        → Persisted c namespace t s' events
        → Serves s tr (err (fdb e)) others s'
    refuses :
        {s t : State} {tr : Transaction} {others : List Action}
        → LeadsTo c namespace others s t
        → IsRound c namespace t tr events conds
        → append_round c tr namespace events conds ≡ return (err append_condition_failed)
        → Serves s tr (err append_condition_failed) others t
    retries :
        {s t u s' : State} {tr tr' : Transaction} {before others : List Action} {e : FdbError}
        {r : Result Versionstamp Error}
        → LeadsTo c namespace before s t
        → IsRound c namespace t tr events conds
        → append_round c tr namespace events conds ≡ retry e
        → Leaves c namespace events e t u
        → db.on_error (with_option automatic_idempotency tr) e ≡ ok tr'
        → Serves u tr' r others s'
        → Serves s tr r (before ++ others) s'
    gives_up :
        {s t u : State} {tr : Transaction} {others : List Action} {e e' : FdbError}
        → LeadsTo c namespace others s t
        → IsRound c namespace t tr events conds
        → append_round c tr namespace events conds ≡ retry e
        → Leaves c namespace events e t u
        → db.on_error (with_option automatic_idempotency tr) e ≡ err e'
        → Serves s tr (err (fdb e')) others u

module _ (events : List Event) (conds : List AppendCondition) (history : List StoredEvent) where
  -- A call of append to the event store that the documentation describes, of a history that others
  -- have continued: it adds its events behind, once, if no event conflicts with its conditions, or it
  -- adds nothing. With an error of the client it has added them only if the position of the batch
  -- was not to be had.
  pub data Call : Result Versionstamp Error → List StoredEvent → Type 0 where
    added :
        {position : Versionstamp} (tx : Bytes)
        → ¬ SomeConflict conds history
        → last_position none (map (λ se. se.position) (positioned tx 0 events)) ≡ some position
        → Call (ok position) (history ++ positioned tx 0 events)
    added_unstamped :
        (tx : Bytes) (e : FdbError)
        → ¬ SomeConflict conds history
        → Call (err (fdb e)) (history ++ positioned tx 0 events)
    refused : SomeConflict conds history → Call (err append_condition_failed) history
    failed : (e : FdbError) → Call (err (fdb e)) history

pub additions-append :
    (before others : List Action)
    → additions (before ++ others) ≡ additions before ++ additions others
unfolding additions
additions-append [] others = refl
additions-append (action ∷ before) others =
    ap (◌++◌ (added_by action)) (additions-append before others)
    ∙ sym (append_assoc (added_by action) (additions before) (additions others))
