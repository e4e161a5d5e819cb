-- ===== src/Nif.antt =====
-- dcb-layer-ex/native/dcb_layer_nif/src/lib.rs: the Elixir binding, its decoders and encoders and
-- the functions that it exports.
pub mod Rustler
pub mod Shapes
pub mod Decode
pub mod Calls
pub mod RoundTrip
pub mod Errors
use dcb_layer.Common.{
  ℕ, ◌==◌, ◌&&◌, Bool, true, false, not, Option, none, some, List, [], ◌∷◌, map, length,
  if◌then◌else◌, Result, ok, err, ◌>>=◌, collect,
}
use dcb_layer.Common.Bytes.{Bytes, Text, text, eq}
use dcb_layer.Types.{
  Versionstamp, Event, new_event, StoredEvent, QueryItem, Query, AppendCondition, ReadOptions,
  FdbStore, new_store,
}
use dcb_layer.Error.{
  FdbError, Message, Error, empty_events, append_condition_failed, invalid_query,
  missing_event_type, batch_too_large, too_many_tags, reserved_tag, all_ff_key, fdb, tuple_encode,
  tuple_decode, event_not_found,
}
use dcb_layer.Tuple.{Codec}
use dcb_layer.Fdb.{FdbResult, Transaction, Database}
use dcb_layer.Append.{append}
use dcb_layer.Read.{TransactBoxed, read, read_all}
use dcb_layer.Subscribe.{get_cursor, set_cursor, register_sentinel_watch}
use Rustler.{NifError, bad_arg, NifResult, Terms}

-- A result of the library, or none where a loop has not ended, given to the encoder of the answer.
unfoldable pub answer :
    {A B : Type 0} → Option (Result A Error) → (Result A Error → Option B) → Option B
answer none k = none
answer (some r) k = k r

-- `match decoded { Ok(v) => v, Err(_) => return .. }`.
unfoldable pub or_return : {A B : Type 0} → NifResult A → B → (A → B) → B
or_return (ok a) b k = k a
or_return (err e) b k = b

-- `.unwrap()`: none is a panic.
unfoldable pub unwrap : {A : Type 0} → NifResult A → Option A
unwrap (ok a) = some a
unwrap (err e) = none

-- `render` is the text of a message, which the model of the errors does not spell out.
module _ (t : Terms) (render : Message → Text) where
  unfoldable pub is_nil : t.Term → Bool
  unfolding eq
  is_nil term = t.is_atom term && unwrap_or (t.atom_to_string term)
    where
      unwrap_or : NifResult Text → Bool
      unwrap_or (ok s) = eq s (text "nil")
      unwrap_or (err e) = false

  unfoldable pub decode_vs : t.Term → NifResult Versionstamp
  decode_vs term = do
    bin ← t.decode_binary term
    if not (length bin == 12) then err bad_arg else ok bin

  unfoldable pub decode_opt_vs : t.Term → NifResult (Option Versionstamp)
  unfolding is_nil decode_vs
  decode_opt_vs term = if is_nil term then ok none else (do vs ← decode_vs term; ok (some vs))

  unfoldable pub decode_event : t.Term → NifResult Event
  unfolding new_event
  decode_event term = do
    type_term ← t.map_get term (t.atom (text "type_name"))
    type_name ← t.decode_string type_term
    tags_term ← t.map_get term (t.atom (text "tags"))
    tags ← t.decode_strings tags_term
    data_term ← t.map_get term (t.atom (text "data"))
    data_bin ← t.decode_binary data_term
    ok (new_event type_name tags data_bin)

  unfoldable pub decode_query_item : t.Term → NifResult QueryItem
  decode_query_item term = do
    types_term ← t.map_get term (t.atom (text "types"))
    types ← t.decode_strings types_term
    tags_term ← t.map_get term (t.atom (text "tags"))
    tags ← t.decode_strings tags_term
    ok (record { types = types; tags = tags })

  unfoldable pub decode_query : t.Term → NifResult Query
  unfolding decode_query_item
  decode_query term = do
    items_term ← t.map_get term (t.atom (text "items"))
    raw ← t.decode_list items_term
    items ← collect decode_query_item raw
    ok (record { items = items })

  unfoldable pub decode_condition : t.Term → NifResult AppendCondition
  unfolding decode_query decode_opt_vs
  decode_condition term = do
    query_term ← t.map_get term (t.atom (text "query"))
    query ← decode_query query_term
    after_term ← t.map_get term (t.atom (text "after"))
    after ← decode_opt_vs after_term
    ok (record { query = query; after = after })

  unfoldable pub decode_read_opts : t.Term → NifResult ReadOptions
  unfolding decode_opt_vs
  decode_read_opts term = do
    limit_term ← t.map_get term (t.atom (text "limit"))
    limit ← t.decode_usize limit_term
    after_term ← t.map_get term (t.atom (text "after"))
    after ← decode_opt_vs after_term
    reverse_term ← t.map_get term (t.atom (text "reverse"))
    reverse ← t.decode_bool reverse_term
    ok (record { limit = limit; after = after; reverse = reverse })

  unfoldable pub vs_to_term : Versionstamp → t.Term
  vs_to_term vs = t.binary vs

  unfoldable pub bytes_to_term : Bytes → t.Term
  bytes_to_term bytes = t.binary bytes

  -- None is a panic.
  unfoldable pub encode_stored_event : StoredEvent → Option t.Term
  unfolding vs_to_term bytes_to_term unwrap
  encode_stored_event se = unwrap (
      t.map_put t.map_new (t.atom (text "type_name")) (t.string se.event.type_name) >>= λ m_1.
      t.map_put m_1 (t.atom (text "tags")) (t.list (map t.string se.event.tags)) >>= λ m_2.
      t.map_put m_2 (t.atom (text "data")) (bytes_to_term se.event.payload) >>= λ m_3.
      t.map_put m_3 (t.atom (text "position")) (vs_to_term se.position))

  unfoldable pub encode_dcb_error : Error → t.Term
  encode_dcb_error empty_events = t.atom (text "empty_events")
  encode_dcb_error append_condition_failed = t.atom (text "append_condition_failed")
  encode_dcb_error invalid_query = t.atom (text "invalid_query")
  encode_dcb_error missing_event_type = t.atom (text "missing_event_type")
  encode_dcb_error batch_too_large = t.atom (text "batch_too_large")
  encode_dcb_error too_many_tags = t.atom (text "too_many_tags")
  encode_dcb_error reserved_tag = t.atom (text "reserved_tag")
  encode_dcb_error all_ff_key = t.atom (text "all_ff_key")
  encode_dcb_error (fdb e) = t.pair (t.atom (text "fdb_error")) (t.integer e.code)
  encode_dcb_error (tuple_encode m) = t.pair (t.atom (text "tuple_encode")) (t.string (render m))
  encode_dcb_error (tuple_decode m) = t.pair (t.atom (text "tuple_decode")) (t.string (render m))
  encode_dcb_error (event_not_found s) = t.pair (t.atom (text "event_not_found")) (t.string s)

  -- `ok(env, val)` and `err(env, reason)`.
  unfoldable pub ok_term : t.Term → t.Term
  ok_term val = t.pair (t.atom (text "ok")) val

  unfoldable pub err_term : t.Term → t.Term
  err_term reason = t.pair (t.atom (text "error")) reason

  -- `decode::<Vec<Term>>().and_then(|ts| ts.into_iter().map(f).collect())`.
  unfoldable pub decode_all : {A : Type 0} → (t.Term → NifResult A) → t.Term → NifResult (List A)
  decode_all f term = do ts ← t.decode_list term; collect f ts

  -- `events.into_iter().map(|se| encode_stored_event(env, se)).collect()`.
  unfoldable pub encode_all : List StoredEvent → Option (List t.Term)
  unfolding encode_stored_event
  encode_all [] = some []
  encode_all (se ∷ ses) = both (encode_stored_event se) (encode_all ses)
    where
      both : Option t.Term → Option (List t.Term) → Option (List t.Term)
      both (some term) (some terms) = some (term ∷ terms)
      both _ _ = none

  -- What the functions answer to a result of the library.
  unfoldable pub vs_answer : Result Versionstamp Error → Option t.Term
  unfolding ok_term err_term vs_to_term encode_dcb_error
  vs_answer (ok vs) = some (ok_term (vs_to_term vs))
  vs_answer (err e) = some (err_term (encode_dcb_error e))

  unfoldable pub events_answer : Result (List StoredEvent) Error → Option t.Term
  unfolding ok_term err_term encode_all encode_dcb_error
  events_answer (ok events) = wrap (encode_all events)
    where
      wrap : Option (List t.Term) → Option t.Term
      wrap none = none
      wrap (some terms) = some (ok_term (t.list terms))
  events_answer (err e) = some (err_term (encode_dcb_error e))

  unfoldable pub cursor_answer : Result (Option Versionstamp) Error → t.Term
  unfolding ok_term err_term vs_to_term encode_dcb_error
  cursor_answer (ok none) = ok_term (t.atom (text "nil"))
  cursor_answer (ok (some vs)) = ok_term (vs_to_term vs)
  cursor_answer (err e) = err_term (encode_dcb_error e)

  unfoldable pub done_answer : Result (Unit {0}) Error → Option t.Term
  unfolding err_term encode_dcb_error
  done_answer (ok u) = some (t.atom (text "ok"))
  done_answer (err e) = some (err_term (encode_dcb_error e))

  -- `Database::default` and `Database::from_path` of the client, and the term of a resource.
  module _ (default_database : FdbResult Database) (database_from_path : Text → FdbResult Database)
      (resource_term : Database × FdbStore → t.Term) where
    unfoldable pub dcb_store_open : t.Term → Text → t.Term
    unfolding is_nil or_return ok_term err_term new_store
    dcb_store_open cluster_file namespace =
        if is_nil cluster_file
        then opened default_database
        else or_return (t.decode_string cluster_file)
            (err_term (t.string (text "invalid_cluster_file")))
            (λ path. opened (database_from_path path))
      where
        opened : FdbResult Database → t.Term
        opened (ok db) = ok_term (resource_term (db, new_store namespace))
        opened (err e) = err_term (t.pair (t.atom (text "fdb_error")) (t.integer e.code))

  module _ (c : Codec) where
    unfoldable pub dcb_store_append : ℕ → Database → FdbStore → t.Term → t.Term → Option t.Term
    unfolding or_return decode_all decode_event decode_condition err_term answer append vs_answer
    dcb_store_append fuel db store events_term conditions_term =
        or_return (decode_all decode_event events_term)
          (some (err_term (t.string (text "invalid_events"))))
          (λ events.
            or_return (decode_all decode_condition conditions_term)
              (some (err_term (t.string (text "invalid_conditions"))))
              (λ conditions. answer (append c fuel db store events conditions) vs_answer))

    unfoldable pub dcb_store_read : ℕ → TransactBoxed → FdbStore → t.Term → t.Term → Option t.Term
    unfolding or_return decode_query decode_read_opts err_term answer read events_answer
    dcb_store_read fuel transact_boxed store query_term opts_term =
        or_return (decode_query query_term) (some (err_term (t.string (text "invalid_query"))))
          (λ query.
            or_return (decode_read_opts opts_term)
              (some (err_term (t.string (text "invalid_opts"))))
              (λ opts. answer (read c fuel transact_boxed store query (some opts)) events_answer))

    unfoldable pub dcb_store_read_all : TransactBoxed → FdbStore → Option t.Term
    unfolding answer read_all events_answer
    dcb_store_read_all transact_boxed store = answer (read_all c transact_boxed store) events_answer

    unfoldable pub dcb_store_get_cursor : Database → FdbStore → Text → t.Term
    unfolding get_cursor cursor_answer
    dcb_store_get_cursor db store name = cursor_answer (get_cursor c db store name)

    unfoldable pub dcb_store_set_cursor : ℕ → Database → FdbStore → Text → t.Term → Option t.Term
    unfolding or_return decode_vs err_term answer set_cursor done_answer
    dcb_store_set_cursor fuel db store name position_term =
        or_return (decode_vs position_term) (some (err_term (t.string (text "invalid_position"))))
          (λ position. answer (set_cursor c fuel db store name position) done_answer)

    -- What is answered, and the task that is spawned, if any: await the future, then send to the pid.
    module _ {W P : Type 0} (watch : Transaction → Bytes → W)
        (decode_pid : t.Term → NifResult P) where
      unfoldable pub dcb_store_watch : Database → FdbStore → t.Term → t.Term × Option (W × P)
      unfolding or_return err_term encode_dcb_error register_sentinel_watch
      dcb_store_watch db store pid_term =
          or_return (decode_pid pid_term) (err_term (t.string (text "invalid_pid")), none)
            (λ pid. armed pid (register_sentinel_watch c watch db store))
        where
          armed : P → Result W Error → t.Term × Option (W × P)
          armed pid (ok w) = (t.atom (text "ok"), some (w, pid))
          armed pid (err e) = (err_term (encode_dcb_error e), none)
