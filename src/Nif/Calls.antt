-- ===== src/Nif/Calls.antt =====
-- The calls of dcb-layer-ex/native/dcb_layer_nif/src/lib.rs as an Elixir caller sees them: documented
-- terms in, and the documented answers out.
use dcb_layer.Common.{
  ℕ, suc, ◌-◌, ◌%◌, ◌<◌, ◌≡◌, refl, ◌∙◌, ◌⊎◌, inl, inr, true, false, some, List, ◌++◌, All, In, map,
  length, ok,
}
use dcb_layer.Common.Bytes.{Bytes, Text, text}
use dcb_layer.Types.{Event, StoredEvent, QueryItem, Query, AppendCondition, ReadOptions, FdbStore}
use dcb_layer.Error.{Message}
use dcb_layer.Tuple.{Codec}
use dcb_layer.Tuple.Laws.{CodecLaws, be_bytes}
use dcb_layer.Fdb.{
  KeyValue, Transaction, Database, retry_limit, automatic_idempotency, with_option, commit_writes,
}
use dcb_layer.Fdb.Laws.{Sees}
use dcb_layer.Store.{Holds, HoldsEvents}
use dcb_layer.Store.Range.{IsPosition}
use dcb_layer.Store.Queries.{IsQueryItem}
use dcb_layer.Append.{append_retry_limit, validate, batch, append}
use dcb_layer.Append.Conditions.{SomeConflict}
use dcb_layer.Append.Outcome.{IsWellTyped, append-outcome}
use dcb_layer.Read.{TransactBoxed, unwrap_or_default, read}
use dcb_layer.Read.Order.{IsFirst}
use dcb_layer.Read.Stamps.{PositionOf}
use dcb_layer.Read.Outcome.{Wanted, keys_given}
use dcb_layer.Read.Public.{BeginsWith, read-IsFirst}
use dcb_layer.Nif.{
  or_return, answer, vs_answer, events_answer, ok_term, err_term, vs_to_term, encode_dcb_error,
  dcb_store_append, dcb_store_read,
}
use dcb_layer.Nif.Rustler.{Terms, TermsLaws}
use dcb_layer.Nif.Shapes.{Each, IsEventTerm, IsStoredTerm, IsQueryTerm, IsConditionTerm, IsOptsTerm}
use dcb_layer.Nif.Decode.{
  decode_event-IsEventTerm, decode_query-IsQueryTerm, decode_condition-IsConditionTerm,
  decode_read_opts-IsOptsTerm, decode_all-Each,
}
use dcb_layer.Nif.RoundTrip.{encode_all-Each}

module _ (t : Terms) (laws : TermsLaws t) (render : Message → Text) (c : Codec) where
  -- On terms of events and conditions as documented, `dcb_store_append` answers with what `append`
  -- of these returns.
  pub dcb_store_append-append :
      (fuel : ℕ) (db : Database) (store : FdbStore) (events : List Event)
      (conds : List AppendCondition) (event_terms cond_terms : List t.Term)
      → Each (IsEventTerm t) events event_terms
      → Each (IsConditionTerm t) conds cond_terms
      → dcb_store_append t render c fuel db store (t.list event_terms) (t.list cond_terms)
        ≡ answer (append c fuel db store events conds) (vs_answer t render)
  unfolding dcb_store_append or_return
  dcb_store_append-append fuel db store events conds event_terms cond_terms es cs =
      rw
        (
          decode_all-Each t laws render _ (decode_event-IsEventTerm t laws render) events
              event_terms es,
          decode_all-Each t laws render _ (decode_condition-IsConditionTerm t laws render) conds
              cond_terms cs,
        )
        refl

  -- On terms of a query and of options as documented, `dcb_store_read` answers with what `read` of
  -- these returns.
  pub dcb_store_read-read :
      (fuel : ℕ) (transact_boxed : TransactBoxed) (store : FdbStore) (query : Query)
      (opts : ReadOptions) (query_term opts_term : t.Term)
      → IsQueryTerm t query query_term
      → IsOptsTerm t opts opts_term
      → dcb_store_read t render c fuel transact_boxed store query_term opts_term
        ≡ answer (read c fuel transact_boxed store query (some opts)) (events_answer t render)
  unfolding dcb_store_read or_return
  dcb_store_read-read fuel transact_boxed store query opts query_term opts_term q o =
      rw
        (
          decode_query-IsQueryTerm t laws render query query_term q,
          decode_read_opts-IsOptsTerm t laws render opts opts_term o,
        )
        refl

  module _ (codec_laws : CodecLaws c) (store : FdbStore) {history : List StoredEvent}
      {kvs : List KeyValue} (holds : Holds c store.namespace history kvs) where
    -- For terms and a codec with the documented laws, a store that holds a history, a fresh
    -- transaction whose reads other than snapshots see its pairs, that lets its options be set and,
    -- with both of them set, commits the batch at a version, events and conditions that validation
    -- accepts, with texts of bytes and positions of 12 bytes, and terms of them as documented: on
    -- any fuel above 0, either some event of the history conflicts with a condition and
    -- `dcb_store_append` answers {:error, :append_condition_failed}, or none does and it answers
    -- {:ok, position} with the position of the batch's last event.
    pub dcb_store_append-outcome :
        (db : Database) (tr : Transaction) (fuel : ℕ) (events : List Event)
        (conds : List AppendCondition) (event_terms cond_terms : List t.Term) (version : Bytes)
        → db.create_trx ≡ ok tr
        → Sees false tr kvs
        → tr.set_option (retry_limit append_retry_limit) ≡ ok tt
        → tr.set_option automatic_idempotency ≡ ok tt
        → validate events conds ≡ ok tt
        → All IsWellTyped conds
        → commit_writes
            (with_option automatic_idempotency (with_option (retry_limit append_retry_limit) tr))
            (batch c store.namespace events)
          ≡ ok tt
        → tr.get_versionstamp ≡ ok version
        → Each (IsEventTerm t) events event_terms
        → Each (IsConditionTerm t) conds cond_terms
        → (SomeConflict conds history
            × (dcb_store_append t render c
                  (suc fuel)
                  db
                  store
                  (t.list event_terms)
                  (t.list cond_terms)
                ≡ some (t.pair (t.atom (text "error")) (t.atom (text "append_condition_failed")))))
          ⊎ ((¬ SomeConflict conds history)
              × (dcb_store_append t render c
                    (suc fuel)
                    db
                    store
                    (t.list event_terms)
                    (t.list cond_terms)
                  ≡ some (
                      t.pair
                        (t.atom (text "ok"))
                        (t.binary (version ++ be_bytes ((length events - 1) % 65536))))))
    unfolding answer vs_answer ok_term err_term vs_to_term encode_dcb_error
    dcb_store_append-outcome db tr fuel events conds event_terms cond_terms version fresh sees
          limits idempotent valid typed committed stamp es cs =
        let call =
          dcb_store_append-append (suc fuel) db store events conds event_terms cond_terms es cs in
        elim (append-outcome c codec_laws store holds db tr fresh sees limits idempotent fuel events
          conds version valid typed committed stamp) [
            | inl (conflict, e) ↦ inl (conflict, call ∙ rw e refl)
            | inr (clear, e) ↦ inr (clear, call ∙ rw e refl)
          ]

    -- For terms and a codec with the documented laws, a store that holds a history in its index and
    -- in its primary subspace, a client whose `transact_boxed` begins with a transaction whose
    -- snapshot reads see its pairs, a query whose items ask for something, with texts of bytes and
    -- no reserved tag, options with a position of 12 bytes if they give one and a limit of 64 bits,
    -- and terms of both as documented: on any fuel above the number of keys that the ranges of the
    -- query give, `dcb_store_read` answers {:ok, events}, a list of terms of events as documented,
    -- positions included, which are the first `limit` events of the history, or all where it is 0,
    -- that match some item and lie after the position, in the order of the read and without
    -- duplicates.
    pub dcb_store_read-IsFirst :
        (tr : Transaction) (transact_boxed : TransactBoxed) (query : Query) (opts : ReadOptions)
        (query_term opts_term : t.Term) (fuel : ℕ)
        → HoldsEvents c store.namespace history kvs
        → Sees true tr kvs
        → BeginsWith transact_boxed tr
        → ((item : QueryItem) → In item query.items → IsQueryItem item)
        → IsPosition opts.after
        → keys_given c tr store.namespace query opts < fuel
        → IsQueryTerm t query query_term
        → IsOptsTerm t opts opts_term
        → (events : List StoredEvent) × (terms : List t.Term) × (dcb_store_read t render c fuel
              transact_boxed store query_term opts_term
            ≡ some (t.pair (t.atom (text "ok")) (t.list terms)))
          × Each (IsStoredTerm t) events terms
          × ((se : StoredEvent) → In se events → In se history × Wanted query.items opts.after se)
          × IsFirst opts.reverse opts.limit
              (PositionOf history (Wanted query.items opts.after))
              (map (λ se. se.position) events)
    unfolding answer events_answer ok_term unwrap_or_default
    dcb_store_read-IsFirst tr transact_boxed query opts query_term opts_term fuel stored sees begins
          asked position enough q o =
        let (events, run, wanted, first) =
          read-IsFirst c codec_laws store tr sees transact_boxed begins holds stored query
            (some opts) asked position fuel enough in
        let (terms, encoded, each) = encode_all-Each t laws render events in
        (
          events,
          terms,
          dcb_store_read-read fuel transact_boxed store query opts query_term opts_term q o
              ∙ rw (run, encoded) refl,
          each,
          wanted,
          first,
        )
