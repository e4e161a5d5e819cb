-- ===== src/Read.antt =====
-- dcb-layer/src/read.rs: the k-way merge of index ranges, the fetch of events, the full scan.
pub mod Order
pub mod Heap
pub mod Merge
pub mod Keys
pub mod Stored
pub mod Single
pub mod Limits
pub mod Ranges
pub mod Stamps
pub mod Outcome
pub mod Pages
pub mod All
pub mod Reference
pub mod Unique
pub mod Equal
pub mod Public
use dcb_layer.Common.{
  ℕ, zero, suc, ◌+◌, Bool, true, false, ◌&&◌, Option, none, some, List, [], ◌∷◌, ◌++◌, map, length,
  ltb, leb, if◌then◌else◌, Result, ok, err, ◌>>=◌, map_err, collect,
}
use dcb_layer.Common.Bytes.{Bytes, Text}
use dcb_layer.Types.{Versionstamp, Event, StoredEvent, Query, QueryItem, ReadOptions, FdbStore}
use dcb_layer.Error.{FdbError, Error, reserved_tag, event_not_found, fdb}
use dcb_layer.Tuple.{Codec}
use dcb_layer.Fdb.{
  KeyValue, FdbResult, RangeOption, want_all, range_option, Transaction, TransactOption,
}
use dcb_layer.Encoding.Keys.{pack_event_key, pack_events_prefix, versionstamp_to_hex}
use dcb_layer.Encoding.Values.{decode_event_value}
use dcb_layer.Append.{has_reserved, and_then}
use dcb_layer.Query.{prefix_range, build_query_ranges}
use Keys.{extract_vs_from_key}
use Merge.{merge_streams}

abbrev pub read_retry_limit : ℕ
read_retry_limit = 10

unfoldable pub read_transact_option : TransactOption
read_transact_option = record { retry_limit = some read_retry_limit }

-- `Database::transact_boxed` for a read: it runs the function on its transactions, until one of
-- them succeeds or it gives up.
abbrev pub TransactBoxed : Type 0
TransactBoxed =
    (Transaction → Option (Result (List StoredEvent) Error))
    → TransactOption
    → Option (Result (List StoredEvent) Error)

-- `ReadOptions::default()`.
abbrev pub default_options : ReadOptions
default_options = record { limit = 0; after = none; reverse = false }

unfoldable pub unwrap_or_default : Option ReadOptions → ReadOptions
unwrap_or_default none = default_options
unwrap_or_default (some opts) = opts

-- `for item in &query.items { if item.tags.iter().any(|t| t == "_") { ... } }`.
unfoldable pub check_reserved : List QueryItem → Result (Unit {0}) Error
unfolding has_reserved
check_reserved [] = ok tt
check_reserved (item ∷ items) =
    let rest = check_reserved items in if has_reserved item.tags then err reserved_tag else rest

-- The stamps of a single range, read until the limit.
unfoldable pub single_loop :
    ℕ → List (FdbResult KeyValue) → List Versionstamp → Result (List Versionstamp) Error
unfolding extract_vs_from_key
single_loop limit [] ordered = ok ordered
single_loop limit (result ∷ stream) ordered = do
  kv ← map_err fdb result
  vs ← extract_vs_from_key kv.key
  let ordered' = ordered ++ vs ∷ []
  let rest = single_loop limit stream ordered'
  if ltb 0 limit && leb limit (length ordered') then ok ordered' else rest

-- The options of a range read for the fast path, and for one stream of the merge.
unfoldable pub single_option : ReadOptions → Bytes × Bytes → RangeOption
unfolding range_option
single_option opts range =
    if ltb 0 opts.limit
    then record (range_option range) {
      limit = some opts.limit;
      mode = want_all;
      reverse = opts.reverse;
    }
    else record (range_option range) { reverse = opts.reverse }

unfoldable pub stream_option : ReadOptions → Bytes × Bytes → RangeOption
unfolding range_option
stream_option opts range =
    if ltb 0 opts.limit
    then record (range_option range) { limit = some opts.limit; reverse = opts.reverse }
    else record (range_option range) { reverse = opts.reverse }

-- `r.map(|kv| kv.key().to_vec())`.
unfoldable pub key_of : FdbResult KeyValue → FdbResult Bytes
key_of (ok kv) = ok kv.key
key_of (err e) = err e

-- What follows a loop that ended with a result.
unfoldable pub finish :
    {A B : Type 0} → Option (Result A Error) → (A → Result B Error) → Option (Result B Error)
finish none k = none
finish (some r) k = some (r >>= k)

-- The stamps of the events to return: none, those of the one range, or the merge of several.
unfoldable pub ordered_stamps :
    ℕ → Transaction → ReadOptions → List (Bytes × Bytes) → Option (Result (List Versionstamp) Error)
unfolding single_loop single_option stream_option key_of merge_streams
ordered_stamps fuel tr opts [] = some (ok [])
ordered_stamps fuel tr opts (range ∷ []) =
    some (single_loop opts.limit (tr.get_ranges_keyvalues (single_option opts range) true) [])
ordered_stamps fuel tr opts ranges =
    merge_streams fuel opts.limit opts.reverse
      (map (λ range. map key_of (tr.get_ranges_keyvalues (stream_option opts range) true)) ranges)

module _ (c : Codec) where
  -- The event of one position.
  unfoldable pub fetch_event : Transaction → Text → Versionstamp → Result StoredEvent Error
  fetch_event tr namespace vs = do
    maybe_slice ← map_err fdb (tr.get (pack_event_key c namespace vs) true)
    slice ← ok_or maybe_slice (event_not_found (versionstamp_to_hex c vs))
    event ← decode_event_value c slice
    ok (record { event = event; position = vs })
    where
      ok_or : Option Bytes → Error → Result Bytes Error
      ok_or none e = err e
      ok_or (some b) e = ok b

  unfoldable pub fetch_events :
      Transaction → Text → List Versionstamp → Result (List StoredEvent) Error
  unfolding fetch_event
  fetch_events tr namespace ordered_vses = collect (fetch_event tr namespace) ordered_vses

  -- The ranges of all items, in order; the first error wins.
  unfoldable pub all_ranges :
      Transaction
      → Text
      → List QueryItem
      → Option Versionstamp
      → Result (List (Bytes × Bytes)) Error
  all_ranges tr namespace [] after = ok []
  all_ranges tr namespace (item ∷ items) after = do
    ranges ← build_query_ranges c tr namespace item after true
    rest ← all_ranges tr namespace items after
    ok (ranges ++ rest)

  -- `read_events`, the merge on fuel; `none` is a merge that has not ended yet.
  unfoldable pub read_events :
      ℕ → Transaction → Text → Query → ReadOptions → Option (Result (List StoredEvent) Error)
  unfolding check_reserved all_ranges ordered_stamps fetch_events and_then finish
  read_events fuel tr namespace query opts = and_then (check_reserved query.items) (λ _.
      and_then (all_ranges tr namespace query.items opts.after)
        (λ ranges. finish (ordered_stamps fuel tr opts ranges) (fetch_events tr namespace)))

  -- `while let Some(item) = stream.next().await`, over what is left of the stream.
  unfoldable pub scan_loop :
      List (FdbResult KeyValue) → List StoredEvent → Result (List StoredEvent) Error
  unfolding extract_vs_from_key
  scan_loop [] results = ok results
  scan_loop (item ∷ stream) results = do
    kv ← map_err fdb item
    vs ← extract_vs_from_key kv.key
    event ← decode_event_value c kv.value
    scan_loop stream (results ++ record { event = event; position = vs } ∷ [])

  unfoldable pub scan_all_events : Transaction → Text → Result (List StoredEvent) Error
  unfolding scan_loop range_option
  scan_all_events tr namespace = do
    range ← prefix_range (pack_events_prefix c namespace)
    scan_loop (tr.get_ranges_keyvalues (record (range_option range) { mode = want_all }) true) []

  -- `FdbStore::read`.
  unfoldable pub read :
      ℕ
      → TransactBoxed
      → FdbStore
      → Query
      → Option ReadOptions
      → Option (Result (List StoredEvent) Error)
  unfolding read_events read_transact_option unwrap_or_default
  read fuel transact_boxed store query opts =
      transact_boxed (λ tr. read_events fuel tr store.namespace query (unwrap_or_default opts))
        read_transact_option

  -- `FdbStore::read_all`.
  unfoldable pub read_all : TransactBoxed → FdbStore → Option (Result (List StoredEvent) Error)
  unfolding scan_all_events read_transact_option
  read_all transact_boxed store =
      transact_boxed (λ tr. some (scan_all_events tr store.namespace)) read_transact_option
