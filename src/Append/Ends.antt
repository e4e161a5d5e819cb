-- ===== src/Append/Ends.antt =====
-- The retry loop of `append` ends.
use dcb_layer.Common.{
  ℕ, zero, suc, ◌+◌, ◌<◌, ◌≤◌, ◌≡◌, refl, Option, some, List, In, inl, inr, arith, Result, ok, err,
  map_err,
}
use dcb_layer.Common.Bytes.{Text}
use dcb_layer.Types.{Versionstamp, Event, AppendCondition, FdbStore}
use dcb_layer.Error.{FdbError, Error, fdb}
use dcb_layer.Tuple.{Codec}
use dcb_layer.Fdb.{Transaction, Database, retry_limit, automatic_idempotency, with_option}
use dcb_layer.Fdb.Laws.{RetriesAtMost}
use dcb_layer.Append.{
  Round, return, retry, append_retry_limit, validate, append_round, after_round, and_then,
  append_loop, append,
}

-- The function returns.
abbrev pub Ends : {B : Type 0} → Option (Result B Error) → Type 0
Ends {B} o = (r : Result B Error) × (o ≡ some r)

pub and_then-Ends :
    {A B : Type 0} (a : Result A Error) (k : A → Option (Result B Error))
    → ((x : A) → a ≡ ok x → Ends (k x))
    → Ends (and_then a k)
unfolding and_then
and_then-Ends (err e) k h = (err e, refl)
and_then-Ends (ok x) k h = h x refl

after_round-Ends :
    (r : Round) (k : FdbError → Option (Result Versionstamp Error))
    → ((e : FdbError) → Ends (k e))
    → Ends (after_round r k)
unfolding after_round
after_round-Ends (return r) k h = (r, refl)
after_round-Ends (retry e) k h = h e

pub map_err-eq_ok :
    {A : Type 0} (a : Result A FdbError) (x : A)
    → map_err {E = FdbError} {F = Error} fdb a ≡ ok x
    → a ≡ ok x
map_err-eq_ok (ok y) x h = cc
map_err-eq_ok (err e) x h = absurd cc

module _ (c : Codec) (db : Database) (retries : RetriesAtMost append_retry_limit db)
    (namespace : Text) (events : List Event) (conds : List AppendCondition) where
  append_loop-Ends :
      (fuel : ℕ) (tr : Transaction)
      → In (retry_limit append_retry_limit) tr.options
      → tr.retries ≤ 100
      → 100 < fuel + tr.retries
      → Ends (append_loop c fuel db tr namespace events conds)
  unfolding append_loop
  append_loop-Ends zero tr limited few enough = absurd (omega arith)
  append_loop-Ends (suc fuel) tr limited few enough =
      after_round-Ends (append_round c tr namespace events conds) _ (λ e.
        and_then-Ends (map_err fdb (db.on_error (with_option automatic_idempotency tr) e)) _
          (λ tr' h.
            let counted =
              retries.counted (with_option automatic_idempotency tr) tr' e (inr limited)
                (map_err-eq_ok _ tr' h) in
            append_loop-Ends fuel tr' counted.2 (omega arith) (omega arith)))

-- Where a fresh transaction has no resets, and a client keeps what it documents of a retry limit of
-- 100 (a transaction on which it is set keeps it when it is reset, and is given up after 100
-- resets), `append`, whatever its input, returns a result on any fuel above 100.
pub append-Ends :
    (c : Codec) (db : Database)
    → RetriesAtMost append_retry_limit db
    → (store : FdbStore) (events : List Event) (conds : List AppendCondition) (fuel : ℕ)
    → 100 < fuel
    → Ends (append c fuel db store events conds)
unfolding append
append-Ends c db retries store events conds fuel enough =
    and_then-Ends (validate events conds) _ (λ _ _.
      and_then-Ends (map_err fdb db.create_trx) _ (λ tr h.
        let fresh = retries.fresh tr (map_err-eq_ok _ tr h) in
        and_then-Ends (map_err fdb (tr.set_option (retry_limit append_retry_limit))) _ (λ _ _.
          append_loop-Ends c db retries store.namespace events conds fuel
            (with_option (retry_limit append_retry_limit) tr) (inl refl) (omega arith)
            (omega arith))))
