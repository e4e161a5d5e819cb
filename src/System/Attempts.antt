-- ===== src/System/Attempts.antt =====
-- A call of `append` of dcb-layer/src/append.rs among other clients: the attempts of its retry loop,
-- and what the call is for the event store that the documentation describes.
use dcb_layer.Common.{
  ℕ, zero, suc, ◌+◌, ◌<◌, ◌≤◌, ◌≡◌, refl, sym, ap, ◌∙◌, subst, inl, inr, true≢false, In, none, some,
  List, ◌++◌, append_assoc, map, arith, Result, ok,
}
use dcb_layer.Common.Bytes.{Bytes}
use dcb_layer.Types.{Event, StoredEvent, AppendCondition, Versionstamp, FdbStore}
use dcb_layer.Error.{FdbError, Error}
use dcb_layer.Tuple.{Codec}
use dcb_layer.Tuple.Laws.{CodecLaws}
use dcb_layer.Fdb.{Transaction, Database, retry_limit, automatic_idempotency, with_option}
use dcb_layer.Fdb.Laws.{RetriesAtMost, IdempotentCommits, KnowsOutcome}
use dcb_layer.Append.{
  return, retry, append_retry_limit, append_round, after_round, and_then, append_loop, append,
  batch, validate,
}
use dcb_layer.Append.Checks.{validate-eq_ok_iff}
use dcb_layer.Append.Commit.{positioned}
use dcb_layer.Append.Positions.{last_position-batch, commit_batch-position, commit_batch-retry}
use dcb_layer.Append.Conditions.{SomeConflict}
use dcb_layer.Read.Pages.{last_position}
use dcb_layer.System.{
  Action, State, IsRound, MayPersist, Persisted, SpecReachable, SpecStep, additions,
}
use dcb_layer.System.Invariant.{
  Represents, outcome, committed_Represents, persisted-clear, commit_batch-ne_refused,
}
use dcb_layer.System.Serving.{
  Leaves, unchanged, changed, Serves, commits, unstamped, refuses, retries, gives_up, Call,
  additions-append,
}
use dcb_layer.System.Growth.{LeadsTo_extends}

module _ (c : Codec) (laws : CodecLaws c) (store : FdbStore) (db : Database) (events : List Event)
    (conds : List AppendCondition) (idempotent : IdempotentCommits db) where
  -- A commit that fails leaves the state as it is, since automatic idempotency is set.
  Leaves-unchanged :
      (t u : State) (tr : Transaction) (history : List StoredEvent) (e : FdbError)
      → KnowsOutcome tr
      → Represents c store.namespace history t
      → IsRound c store.namespace t tr events conds
      → append_round c tr store.namespace events conds ≡ retry e
      → Leaves c store.namespace events e t u
      → t ≡ u
  Leaves-unchanged t u tr history e knows inv round run unchanged = refl
  Leaves-unchanged t u tr history e knows inv round run (changed maybe done) =
      elim (outcome c laws store.namespace inv round) [
        | inl (conflict, run') ↦ absurd cc
        | inr (clear, run') ↦
            let tr' = with_option automatic_idempotency tr in
            let failed = commit_batch-retry c tr' store.namespace events (sym run' ∙ run) in
            let known =
              knows tr'.options tr'.watches (batch c store.namespace events) e (inl refl) failed in
            absurd (true≢false (sym maybe ∙ known))
      ]

  -- A batch that took effect continues the history.
  Persisted-extends :
      (t s' : State) (tr : Transaction) (history : List StoredEvent)
      → Represents c store.namespace history t
      → SpecReachable history
      → IsRound c store.namespace t tr events conds
      → MayPersist tr s'.version (append_round c tr store.namespace events conds)
      → Persisted c store.namespace t s' events
      → SpecReachable (history ++ positioned s'.version 0 events)
        × Represents c store.namespace (history ++ positioned s'.version 0 events) s'
        × (¬ SomeConflict conds history)
  Persisted-extends t s' tr history inv spec round ended done =
      let clear = persisted-clear c laws store.namespace inv round s'.version ended in
      let inv' =
        committed_Represents c laws store.namespace inv round s' done.versioned done.above
          done.commits in
      (
        SpecReachable.step spec
            (SpecStep.appends events conds s'.version clear inv'.positions_ascend),
        inv',
        clear,
      )

  -- The position that a round returns is that of the last event of its batch.
  returned_position :
      (t : State) (tr : Transaction) (history : List StoredEvent) (position version : Bytes)
      → Represents c store.namespace history t
      → IsRound c store.namespace t tr events conds
      → append_round c tr store.namespace events conds ≡ return (ok position)
      → tr.get_versionstamp ≡ ok version
      → last_position none (map (λ se. se.position) (positioned version 0 events)) ≡ some position
  returned_position t tr history position version inv round run told =
      elim (outcome c laws store.namespace inv round) [
        | inl (conflict, run') ↦ absurd cc
        | inr (clear, run') ↦
            last_position-batch version events ((validate-eq_ok_iff events conds).0 round.valid).0
            ∙ ap some (
                sym (
                  commit_batch-position c (with_option automatic_idempotency tr) store.namespace
                    events (sym run' ∙ run) told))
      ]

  Serves-Call :
      (s s' : State) (tr : Transaction) (r : Result Versionstamp Error) (others : List Action)
      (history : List StoredEvent)
      → KnowsOutcome tr
      → Represents c store.namespace history s
      → SpecReachable history
      → Serves c store.namespace db events conds s tr r others s'
      → (history' : List StoredEvent) × SpecReachable history'
        × Represents c store.namespace history' s'
        × Call events conds (history ++ additions others) r history'
  Serves-Call s s' tr r others history knows inv spec
        (commits {t = t} {position = position} leads round run told done) =
      let (inv', spec') = LeadsTo_extends c laws store.namespace inv spec leads in
      let (spec'', inv'', clear) =
        Persisted-extends t s' tr _ inv' spec' round (MayPersist.told position run told) done in
      let last = returned_position t tr _ position s'.version inv' round run told in
      (_, spec'', inv'', Call.added s'.version clear last)
  Serves-Call s s' tr r others history knows inv spec
        (unstamped {t = t} {e = e} leads round run done) =
      let (inv', spec') = LeadsTo_extends c laws store.namespace inv spec leads in
      let (spec'', inv'', clear) =
        Persisted-extends t s' tr _ inv' spec' round (MayPersist.unstamped e run) done in
      (_, spec'', inv'', Call.added_unstamped s'.version e clear)
  Serves-Call s s' tr r others history knows inv spec (refuses {t = t} leads round run) =
      let (inv', spec') = LeadsTo_extends c laws store.namespace inv spec leads in
      elim (outcome c laws store.namespace inv' round) [
        | inl (conflict, run') ↦ (history ++ additions others, spec', inv', Call.refused conflict)
        | inr (clear, run') ↦ absurd (
            commit_batch-ne_refused c (with_option automatic_idempotency tr) store.namespace events
              (sym run' ∙ run))
      ]
  Serves-Call s s' tr r others history knows inv spec
        (retries {t = t} {u = u} {tr' = tr'} {before = before} {others = later} {e = e} leads round
          run left next served) =
      let (inv', spec') = LeadsTo_extends c laws store.namespace inv spec leads in
      let same = Leaves-unchanged t u tr _ e knows inv' round run left in
      let knows' = idempotent.next_knows (with_option automatic_idempotency tr) tr' e next in
      let (history', spec'', inv'', call) =
        Serves-Call u s' tr' r later (history ++ additions before) knows'
          (subst (Represents c store.namespace (history ++ additions before)) same inv') spec'
          served in
      let all_others : (history ++ additions before) ++ additions later
          ≡ history ++ additions (before ++ later) =
        append_assoc history (additions before) (additions later)
        ∙ ap (◌++◌ history) (sym (additions-append before later)) in
      (
        history',
        spec'',
        inv'',
        subst (λ (h : List StoredEvent). Call events conds h r history') all_others call,
      )
  Serves-Call s s' tr r others history knows inv spec
        (gives_up {t = t} {e = e} {e' = e'} leads round run left last) =
      let (inv', spec') = LeadsTo_extends c laws store.namespace inv spec leads in
      let same = Leaves-unchanged t s' tr _ e knows inv' round run left in
      (
        history ++ additions others,
        spec',
        subst (Represents c store.namespace (history ++ additions others)) same inv',
        Call.failed e',
      )

  module _ (limit : RetriesAtMost append_retry_limit db) where
    -- The loop gives what the last attempt gave.
    append_loop-Serves :
        (fuel : ℕ) (s s' : State) (tr : Transaction) (r : Result Versionstamp Error)
        (others : List Action)
        → In (retry_limit append_retry_limit) tr.options
        → tr.retries ≤ 100
        → 100 < fuel + tr.retries
        → Serves c store.namespace db events conds s tr r others s'
        → append_loop c fuel db tr store.namespace events conds ≡ some r
    unfolding append_loop after_round and_then
    append_loop-Serves zero s s' tr r others limited few enough served = absurd (omega arith)
    append_loop-Serves (suc fuel) s s' tr r others limited few enough
          (commits leads round run told done) =
        rw run refl
    append_loop-Serves (suc fuel) s s' tr r others limited few enough
          (unstamped leads round run done) =
        rw run refl
    append_loop-Serves (suc fuel) s s' tr r others limited few enough (refuses leads round run) =
        rw run refl
    append_loop-Serves (suc fuel) s s' tr r others limited few enough
          (retries {u = u} {tr' = tr'} {others = later} {e = e} leads round run left next served) =
        let (more, below, limited') =
          limit.counted (with_option automatic_idempotency tr) tr' e (inr limited) next in
        rw (run, next)
          (append_loop-Serves fuel u s' tr' r later limited' (omega (arith, more, below))
            (omega (arith, more, below)) served)
    append_loop-Serves (suc fuel) s s' tr r others limited few enough
          (gives_up leads round run left last) =
        rw (run, last) refl

    -- For a codec that meets the laws, a client that keeps what it documents of two options (a
    -- commit under automatic idempotency does not leave its outcome open; a transaction with a
    -- retry limit keeps it when it is reset, and is given up after that many resets), that creates
    -- a transaction and lets its retry limit be set, a state that holds a history that the
    -- documented event store reaches, input that validation accepts, and a database that serves the
    -- attempts of the call on this transaction with the limit set, others acting between them
    -- (input well typed, texts without NUL), where a failed commit whose error leaves its outcome
    -- open may have taken effect, as may one whose version the client is not told: on any fuel
    -- above 100, `append` returns what the last attempt gave, and the last state holds a history
    -- that the documented store reaches. This is the history of before followed by what the actions
    -- of the others add, and by nothing else or once by the events of the batch at consecutive
    -- positions. If `append` returns a position, the batch is added, none of the events before it
    -- conflicts with the conditions, and the position is that of the batch's last event; if it
    -- returns AppendConditionFailed, some event conflicts and the batch is not added; if it returns
    -- an error of the client, the batch is not added, or it is, and none of the events before it
    -- conflicts.
    pub append-Call :
        (tr : Transaction)
        → db.create_trx ≡ ok tr
        → tr.set_option (retry_limit append_retry_limit) ≡ ok tt
        → (s s' : State) (r : Result Versionstamp Error) (others : List Action)
          (history : List StoredEvent) (fuel : ℕ)
        → Represents c store.namespace history s
        → SpecReachable history
        → Serves c store.namespace db events conds s
            (with_option (retry_limit append_retry_limit) tr)
            r
            others
            s'
        → validate events conds ≡ ok tt
        → 100 < fuel
        → (append c fuel db store events conds ≡ some r)
          × (history' : List StoredEvent) × SpecReachable history'
          × Represents c store.namespace history' s'
          × Call events conds (history ++ additions others) r history'
    unfolding append and_then
    append-Call tr fresh set s s' r others history fuel inv spec served valid enough =
        let tr' = with_option (retry_limit append_retry_limit) tr in
        let first = limit.fresh tr fresh in
        let (history', spec', inv', call) =
          Serves-Call s s' tr' r others history (idempotent.fresh_knows tr fresh) inv spec served in
        (
          simp (valid, fresh, set)
              (append_loop-Serves fuel s s' tr' r others (inl refl) (omega (arith, first))
                (omega (arith, first)) served),
          history',
          spec',
          inv',
          call,
        )
