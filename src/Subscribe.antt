-- ===== src/Subscribe.antt =====
-- The cursors and the watches of dcb-layer/src/subscribe.rs.
pub mod Cursor
pub mod Watch
pub mod Keys
use dcb_layer.Common.{
  ℕ, zero, suc, false, Option, none, some, List, [], ◌∷◌, length, ◌==◌, if◌then◌else◌, Result, ok,
  err, ◌>>=◌, ◌>>◌, map_err,
}
use dcb_layer.Common.Bytes.{Bytes, Text}
use dcb_layer.Types.{Versionstamp, FdbStore}
use dcb_layer.Error.{FdbError, Error, fdb, tuple_decode, cursor_not_12_bytes}
use dcb_layer.Tuple.{Codec}
use dcb_layer.Fdb.{Mutation, set, Transaction, Database, with_watch, commit_writes}
use dcb_layer.Encoding.Keys.{pack_cursor_key, pack_sentinel_key}
use dcb_layer.Append.{and_then}

-- A stored cursor is 12 bytes.
unfoldable pub cursor_value : Option Bytes → Result (Option Versionstamp) Error
cursor_value none = ok none
cursor_value (some val) =
    if length val == 12
    then ok (some val)
    else err (tuple_decode (cursor_not_12_bytes (length val)))

-- A commit ends the loop of `set_cursor` or hands its error on.
unfoldable pub after_set :
    Result (Unit {0}) FdbError
    → (FdbError → Option (Result (Unit {0}) Error))
    → Option (Result (Unit {0}) Error)
after_set (ok committed) k = some (ok tt)
after_set (err e) k = k e

-- What `set_cursor` buffers before it commits.
abbrev pub cursor_writes : Bytes → Versionstamp → List Mutation
cursor_writes key position = set key position ∷ []

module _ (c : Codec) where
  unfoldable pub get_cursor : Database → FdbStore → Text → Result (Option Versionstamp) Error
  unfolding cursor_value
  get_cursor db store name = do
    tr ← map_err fdb db.create_trx
    val ← map_err fdb (tr.get (pack_cursor_key c store.namespace name) false)
    cursor_value val

  -- The loop of `set_cursor`, on fuel; `none` is a loop that has not ended yet.
  unfoldable pub set_cursor_loop :
      ℕ → Database → Transaction → Bytes → Versionstamp → Option (Result (Unit {0}) Error)
  unfolding after_set and_then
  set_cursor_loop zero db tr key position = none
  set_cursor_loop (suc fuel) db tr key position =
      after_set (commit_writes tr (cursor_writes key position)) (λ e.
        and_then (map_err fdb (db.on_error tr e)) (λ tr'. set_cursor_loop fuel db tr' key position))

  unfoldable pub set_cursor :
      ℕ → Database → FdbStore → Text → Versionstamp → Option (Result (Unit {0}) Error)
  unfolding set_cursor_loop and_then
  set_cursor fuel db store name position =
      and_then (map_err fdb db.create_trx)
        (λ tr. set_cursor_loop fuel db tr (pack_cursor_key c store.namespace name) position)

  -- `watch tr key` is the client's future for a change of the key, once the transaction that watches
  -- it is committed.
  module _ {W : Type 0} (watch : Transaction → Bytes → W) where
    unfoldable pub register_sentinel_watch : Database → FdbStore → Result W Error
    register_sentinel_watch db store = do
      tr ← map_err fdb db.create_trx
      let tr' = with_watch (pack_sentinel_key c store.namespace) tr
      map_err fdb (commit_writes tr' [])
      ok (watch tr' (pack_sentinel_key c store.namespace))

    -- The future that is awaited; none where the function returns at once.
    unfoldable pub wait_for_sentinel_change : Database → FdbStore → Option W
    unfolding register_sentinel_watch
    wait_for_sentinel_change db store = awaited (register_sentinel_watch db store)
      where
        awaited : Result W Error → Option W
        awaited (ok w) = some w
        awaited (err e) = none
