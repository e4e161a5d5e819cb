-- ===== src/Append/Outcome.antt =====
-- What `append` of dcb-layer/src/append.rs returns where its first round ends the loop.
use dcb_layer.Common.{
  ℕ, suc, ◌-◌, ◌%◌, ◌≡◌, refl, ap₂, ap, ◌⊎◌, inl, inr, ◌>>=◌, ◌∙◌, some, List, [], ◌∷◌, ◌++◌, All,
  length, Result, ok, err, map_err, false,
}
use dcb_layer.Common.Bytes.{Bytes, IsBytes}
use dcb_layer.Types.{Versionstamp, Event, StoredEvent, QueryItem, AppendCondition, FdbStore}
use dcb_layer.Error.{Error, append_condition_failed, fdb}
use dcb_layer.Tuple.{Codec}
use dcb_layer.Tuple.Laws.{CodecLaws, be_bytes}
use dcb_layer.Fdb.{
  KeyValue, FdbResult, Transaction, Database, retry_limit, automatic_idempotency, with_option,
  commit_writes,
}
use dcb_layer.Fdb.Laws.{Sees, with_option-Sees}
use dcb_layer.Store.{Holds}
use dcb_layer.Store.Range.{IsPosition}
use dcb_layer.Store.Queries.{IsQueryItem}
use dcb_layer.Append.{
  return, append_retry_limit, validate, append_round, after_round, and_then, batch, after_commit,
  commit_batch, append_loop, append,
}
use dcb_layer.Append.Checks.{MayAsk, MayCheck, validate-eq_ok_iff}
use dcb_layer.Append.Conditions.{IsCondition, SomeConflict, append_round-Conflict}

-- The texts of an item and the position of a condition, as their types in the source make them.
abbrev pub HasBytes : QueryItem → Type 0
HasBytes item = All IsBytes item.types × All IsBytes item.tags

abbrev pub IsWellTyped : AppendCondition → Type 0
IsWellTyped cond = All HasBytes cond.query.items × IsPosition cond.after

items-IsQueryItem :
    (items : List QueryItem) → All MayAsk items → All HasBytes items → All IsQueryItem items
items-IsQueryItem [] h b = tt
items-IsQueryItem (item ∷ items) h b = (
  record { asks = h.0.0; types_bytes = b.0.0; tags_bytes = b.0.1; tags_unreserved = h.0.1 },
  items-IsQueryItem items h.1 b.1,
)

pub conditions-IsCondition :
    (conds : List AppendCondition)
    → All MayCheck conds
    → All IsWellTyped conds
    → All IsCondition conds
conditions-IsCondition [] h b = tt
conditions-IsCondition (cond ∷ conds) h b = (
  record { items_lem = items-IsQueryItem cond.query.items h.0.1 b.0.0; after_lem = b.0.1 },
  conditions-IsCondition conds h.1 b.1,
)

module _ (c : Codec) (laws : CodecLaws c) {history : List StoredEvent} {kvs : List KeyValue}
    (store : FdbStore) (holds : Holds c store.namespace history kvs) (db : Database)
    (tr : Transaction) (fresh : db.create_trx ≡ ok tr) (sees : Sees false tr kvs)
    (limits : tr.set_option (retry_limit append_retry_limit) ≡ ok tt)
    (idempotent : tr.set_option automatic_idempotency ≡ ok tt) where
  -- Accepted input runs one round on the fresh transaction.
  append-first_round :
      (fuel : ℕ) (events : List Event) (conds : List AppendCondition)
      (r : Result Versionstamp Error)
      → validate events conds ≡ ok tt
      → append_round c
          (with_option (retry_limit append_retry_limit) tr)
          store.namespace
          events
          conds
        ≡ return r
      → append c (suc fuel) db store events conds ≡ some r
  unfolding append append_loop and_then after_round
  append-first_round fuel events conds r valid round = rw (valid, fresh, limits, round) refl

  commit_batch-ok :
      (events : List Event) (version : Bytes)
      → commit_writes
          (with_option automatic_idempotency (with_option (retry_limit append_retry_limit) tr))
          (batch c store.namespace events)
        ≡ ok tt
      → tr.get_versionstamp ≡ ok version
      → commit_batch c
          (with_option automatic_idempotency (with_option (retry_limit append_retry_limit) tr))
          store.namespace
          events
        ≡ return (ok (version ++ be_bytes ((length events - 1) % 65536)))
  unfolding commit_batch after_commit
  commit_batch-ok events version committed stamp = ap₂ after_commit committed (
      ap
        (λ (o : FdbResult Bytes).
          map_err fdb o >>= λ fdb_slice. ok (fdb_slice ++ be_bytes ((length events - 1) % 65536)))
        stamp)

  -- For a codec that meets the laws, a store that holds a history, a fresh transaction whose reads
  -- other than snapshots see its pairs, lets its options be set and, with both of them set, commits
  -- the batch at a version, input that validation accepts, and conditions with texts of bytes and
  -- positions of 12 bytes: on any fuel above 0, either some event of the history matches an item of
  -- a condition after the condition's position and `append` returns AppendConditionFailed, or none
  -- does and it returns the position of the last event, the version followed by the batch's length
  -- less one in two bytes.
  pub append-outcome :
      (fuel : ℕ) (events : List Event) (conds : List AppendCondition) (version : Bytes)
      → validate events conds ≡ ok tt
      → All IsWellTyped conds
      → commit_writes
          (with_option automatic_idempotency (with_option (retry_limit append_retry_limit) tr))
          (batch c store.namespace events)
        ≡ ok tt
      → tr.get_versionstamp ≡ ok version
      → (SomeConflict conds history
          × (append c (suc fuel) db store events conds ≡ some (err append_condition_failed)))
        ⊎ ((¬ SomeConflict conds history)
            × (append c (suc fuel) db store events conds
                ≡ some (ok (version ++ be_bytes ((length events - 1) % 65536)))))
  append-outcome fuel events conds version valid typed committed stamp =
      let checked = (validate-eq_ok_iff events conds).0 valid in
      elim (append_round-Conflict c laws holds (with_option (retry_limit append_retry_limit) tr)
        (with_option-Sees (retry_limit append_retry_limit) false tr kvs sees) events conds
        idempotent (conditions-IsCondition conds checked.3 typed)) [
          | inl (s, e) ↦ inl (s, append-first_round fuel events conds _ valid e)
          | inr (s, e) ↦ inr (
            s,
            append-first_round fuel events conds _ valid
                (e ∙ commit_batch-ok events version committed stamp),
          )
        ]
