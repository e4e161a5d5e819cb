-- ===== src/Append.antt =====
-- dcb-layer/src/append.rs: validation, the writes of one event, the condition checks, and the retry
-- loop of `append`.
pub mod Exists
pub mod Conditions
pub mod Ends
pub mod Checks
pub mod Outcome
pub mod Keys
pub mod Commit
pub mod Preserves
pub mod Values
pub mod Stores
pub mod Signals
pub mod Positions
pub mod Writes
use dcb_layer.Common.{
  ℕ, zero, suc, ◌-◌, ◌%◌, Bool, true, false, Option, none, some, List, [], ◌∷◌, ◌++◌, map, length,
  is_empty, any, ltb, if◌then◌else◌, Result, ok, err, ◌>>=◌, ◌>>◌, map_err,
}
use dcb_layer.Common.Bytes.{Bytes, Text, eq}
use dcb_layer.Types.{
  Versionstamp, Event, QueryItem, AppendCondition, FdbStore, has_no_type_nor_tags,
}
use dcb_layer.Error.{
  FdbError, Error, empty_events, append_condition_failed, invalid_query, missing_event_type,
  batch_too_large, too_many_tags, reserved_tag, fdb,
}
use dcb_layer.Tuple.{incomplete, Codec}
use dcb_layer.Tuple.Laws.{be_bytes}
use dcb_layer.Fdb.{
  Mutation, set_versionstamped_key, set_versionstamped_value, small, range_option, retry_limit,
  automatic_idempotency, Transaction, Database, with_option, commit_writes,
}
use dcb_layer.Encoding.Tags.{sort_tags, generate_superset_presorted}
use dcb_layer.Encoding.Keys.{
  events_in_indexes_sub, pack_sentinel_key, pack_event_key_fdb, pack_tag_index_key_fdb,
}
use dcb_layer.Encoding.Values.{encode_event_value}
use dcb_layer.Query.{build_query_ranges}

abbrev pub append_retry_limit : ℕ
append_retry_limit = 100

-- `iter().any(|t| t == "_")`.
unfoldable pub has_reserved : List Text → Bool
unfolding eq
has_reserved tags = any (λ t. eq t events_in_indexes_sub) tags

-- The checks of one event, of one query item, and of the whole call, in the source's order.
unfoldable pub check_event : Event → Result (Unit {0}) Error
unfolding has_reserved
check_event event =
    if is_empty event.type_name
    then err missing_event_type
    else if ltb 10 (length event.tags)
    then err too_many_tags
    else if has_reserved event.tags
    then err reserved_tag
    else ok tt

unfoldable pub check_events : List Event → Result (Unit {0}) Error
unfolding check_event
check_events [] = ok tt
check_events (event ∷ events) = do check_event event; check_events events

unfoldable pub check_item : QueryItem → Result (Unit {0}) Error
unfolding has_reserved has_no_type_nor_tags
check_item item =
    if has_no_type_nor_tags item
    then err invalid_query
    else if has_reserved item.tags
    then err reserved_tag
    else ok tt

unfoldable pub check_items : List QueryItem → Result (Unit {0}) Error
unfolding check_item
check_items [] = ok tt
check_items (item ∷ items) = do check_item item; check_items items

unfoldable pub check_condition : AppendCondition → Result (Unit {0}) Error
unfolding check_items
check_condition cond =
    if is_empty cond.query.items then err invalid_query else check_items cond.query.items

unfoldable pub check_conditions : List AppendCondition → Result (Unit {0}) Error
unfolding check_condition
check_conditions [] = ok tt
check_conditions (cond ∷ conds) = do check_condition cond; check_conditions conds

unfoldable pub validate : List Event → List AppendCondition → Result (Unit {0}) Error
unfolding check_events check_conditions
validate events conditions =
    if is_empty events
    then err empty_events
    else if ltb 65535 (length events)
    then err batch_too_large
    else do check_events events; check_conditions conditions

-- `stream.next()` of the stream of a probe.
unfoldable pub consume_first_kv {ℓ} : {A : Type ℓ} → List (Result A FdbError) → Result Bool Error
consume_first_kv [] = ok false
consume_first_kv (ok kv ∷ stream) = ok true
consume_first_kv (err e ∷ stream) = err (fdb e)

-- `for result in results { if result? { return Ok(true); } } Ok(false)`.
unfoldable pub first_true : List (Result Bool Error) → Result Bool Error
first_true [] = ok false
first_true (result ∷ results) =
    let rest = first_true results in do found ← result; if found then ok true else rest

-- What the results of all probes come to: a match, the first database error, the first other error.
pub record Verdict : Type 0 where
  pub matched : Bool
  pub fdb_err : Option FdbError
  pub app_err : Option Error

-- `opt.get_or_insert(e)`.
unfoldable pub get_or_insert {ℓ} : {A : Type ℓ} → Option A → A → Option A
get_or_insert none a = some a
get_or_insert (some b) a = some b

unfoldable pub note_result : Verdict → Result Bool Error → Verdict
unfolding get_or_insert
note_result v (ok true) = record v { matched = true }
note_result v (ok false) = v
note_result v (err (fdb e)) = record v { fdb_err = get_or_insert v.fdb_err e }
note_result v (err e) = record v { app_err = get_or_insert v.app_err e }

unfoldable pub verdict : Verdict → List (Result Bool Error) → Verdict
unfolding note_result
verdict v [] = v
verdict v (r ∷ rs) = verdict (note_result v r) rs

-- How one round of the loop ends: by a return, or by an error for `on_error`.
pub data Round : Type 0 where
  return : Result Versionstamp Error → Round
  retry : FdbError → Round

unfoldable pub probe : Transaction → Bytes × Bytes → Result Bool Error
unfolding consume_first_kv range_option
probe tr range =
    consume_first_kv
      (tr.get_ranges_keyvalues (record (range_option range) { limit = some 1; mode = small }) false)

-- `?` in a function that runs on fuel: an error ends the function.
unfoldable pub and_then {ℓ} :
    {A : Type ℓ} {B : Type 0}
    → Result A Error
    → (A → Option (Result B Error))
    → Option (Result B Error)
and_then (err e) k = some (err e)
and_then (ok a) k = k a

-- A round either ends the loop or hands an error on.
unfoldable pub after_round :
    Round → (FdbError → Option (Result Versionstamp Error)) → Option (Result Versionstamp Error)
after_round (return r) k = some r
after_round (retry e) k = k e

-- A commit ends the loop or hands its error on.
unfoldable pub after_commit : Result (Unit {0}) FdbError → Result Versionstamp Error → Round
after_commit (ok committed) r = return r
after_commit (err commit_err) r = retry commit_err

-- The sentinel's value is 12 bytes for the commit to fill, then the offset 0 in 4 bytes.
abbrev pub sentinel_val : Bytes
sentinel_val = 0 ∷ 0 ∷ 0 ∷ 0 ∷ 0 ∷ 0 ∷ 0 ∷ 0 ∷ 0 ∷ 0 ∷ 0 ∷ 0 ∷ 0 ∷ 0 ∷ 0 ∷ 0 ∷ []

module _ (c : Codec) where
  -- One event's writes, at the position that the commit gives to this place of the batch.
  unfoldable pub append_single : Text → Event → ℕ → List Mutation
  append_single namespace event batch_index =
      let sorted_tags = sort_tags event.tags in
      set_versionstamped_key (pack_event_key_fdb c namespace (incomplete batch_index))
        (encode_event_value c event)
      ∷ map
          (λ subset.
            set_versionstamped_key
              (pack_tag_index_key_fdb c namespace subset event.type_name (incomplete batch_index))
              [])
          (generate_superset_presorted sorted_tags)

  -- `for (i, event) in events.iter().enumerate()`, from index `i` (`i as u16`) on.
  unfoldable pub append_events : Text → List Event → ℕ → List Mutation
  unfolding append_single
  append_events namespace [] i = []
  append_events namespace (event ∷ events) i =
      append_single namespace event (i % 65536) ++ append_events namespace events (suc i)

  -- What a batch writes: its events, then the sentinel.
  unfoldable pub batch : Text → List Event → List Mutation
  unfolding append_events
  batch namespace events =
      append_events namespace events 0
      ++ set_versionstamped_value (pack_sentinel_key c namespace) sentinel_val ∷ []

  unfoldable pub query_item_exists :
      Transaction → Text → QueryItem → Option Versionstamp → Result Bool Error
  unfolding first_true probe
  query_item_exists tr namespace item after = do
    ranges ← build_query_ranges c tr namespace item after false
    first_true (map (probe tr) ranges)

  -- One result for each item of each condition.
  unfoldable pub check_results :
      Transaction → Text → List AppendCondition → List (Result Bool Error)
  check_results tr namespace [] = []
  check_results tr namespace (cond ∷ conds) =
      map (λ item. query_item_exists tr namespace item cond.after) cond.query.items
      ++ check_results tr namespace conds

  -- The writes, the commit, and the position of the last event of the batch.
  unfoldable pub commit_batch : Transaction → Text → List Event → Round
  unfolding batch after_commit
  commit_batch tr namespace events = after_commit (commit_writes tr (batch namespace events)) (do
    fdb_slice ← map_err fdb tr.get_versionstamp
    ok (fdb_slice ++ be_bytes ((length events - 1) % 65536)))

  -- Database errors come first, then others, then a match.
  unfoldable pub decide :
      Transaction → Text → List Event → Option FdbError → Option Error → Bool → Round
  unfolding commit_batch
  decide tr namespace events (some e) app_err matched = retry e
  decide tr namespace events none (some e) matched = return (err e)
  decide tr namespace events none none true = return (err append_condition_failed)
  decide tr namespace events none none false = commit_batch tr namespace events

  unfoldable pub decide_round : Transaction → Text → List Event → Verdict → Round
  unfolding decide
  decide_round tr namespace events v = decide tr namespace events v.fdb_err v.app_err v.matched

  -- The body of the loop.
  unfoldable pub append_round : Transaction → Text → List Event → List AppendCondition → Round
  unfolding decide_round verdict check_results
  append_round tr namespace events conditions = elim (tr.set_option automatic_idempotency) [
    | err e ↦ return (err (fdb e))
    | ok _ ↦ decide_round (with_option automatic_idempotency tr) namespace events (
        verdict (record { matched = false; fdb_err = none; app_err = none })
          (check_results (with_option automatic_idempotency tr) namespace conditions))
  ]

  -- The loop, on fuel; `none` is a loop that has not ended yet.
  unfoldable pub append_loop :
      ℕ
      → Database
      → Transaction
      → Text
      → List Event
      → List AppendCondition
      → Option (Result Versionstamp Error)
  unfolding append_round after_round and_then
  append_loop zero db tr namespace events conditions = none
  append_loop (suc fuel) db tr namespace events conditions =
      after_round (append_round tr namespace events conditions) (λ e.
        and_then (map_err fdb (db.on_error (with_option automatic_idempotency tr) e))
          (λ tr'. append_loop fuel db tr' namespace events conditions))

  -- `FdbStore::append`.
  unfoldable pub append :
      ℕ
      → Database
      → FdbStore
      → List Event
      → List AppendCondition
      → Option (Result Versionstamp Error)
  unfolding validate append_loop and_then
  append fuel db store events conditions = and_then (validate events conditions) (λ _.
      and_then (map_err fdb db.create_trx) (λ tr.
        and_then (map_err fdb (tr.set_option (retry_limit append_retry_limit))) (λ _.
          append_loop fuel db (with_option (retry_limit append_retry_limit) tr) store.namespace
            events conditions)))
