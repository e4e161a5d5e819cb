-- ===== src/System/CursorMap.antt =====
-- The cursors of dcb-layer/src/subscribe.rs as a map from names to positions, which only
-- `set_cursor` changes.
use dcb_layer.Common.{
  ◌≡◌, ◌≢◌, refl, sym, ap, ◌∙◌, subst, inl, inr, true≢false, Bool-cases, if◌then◌else◌, false, none,
  Result, Option, Option-cases, some, List, In, length, ok,
}
use dcb_layer.Common.Bytes.{Bytes, Text, IsBytes, eq, eq_iff}
use dcb_layer.Types.{Event, StoredEvent, FdbStore, Versionstamp}
use dcb_layer.Error.{Error}
use dcb_layer.Tuple.{Codec}
use dcb_layer.Tuple.Laws.{CodecLaws, NulFree}
use dcb_layer.Fdb.{KeyValue, Mutation, Transaction, Database}
use dcb_layer.Fdb.Laws.{lookup, KeysAscend, Sees}
use dcb_layer.Fdb.Lookup.{lookup-In, In-lookup}
use dcb_layer.Encoding.Keys.{pack_cursor_key}
use dcb_layer.Store.{IsStorable}
use dcb_layer.Append.{batch}
use dcb_layer.Append.Checks.{validate-eq_ok_iff}
use dcb_layer.Append.Commit.{written_key, Commits, positioned, batch-split, events_sources}
use dcb_layer.Append.Keys.{
  IsIndexed, index_key-inside, cursor-outside, cursor-ne_event, cursor-ne_sentinel,
}
use dcb_layer.Subscribe.{cursor_value, cursor_writes, get_cursor}
use dcb_layer.Subscribe.Cursor.{get_cursor-Sees, get_cursor-eq_ok_iff}
use dcb_layer.Subscribe.Keys.{pack_cursor_key-injective}
use dcb_layer.System.{Action, cursor, State, Step, appends, refuses, fails, sets_cursor}
use dcb_layer.System.Batches.{positioned-IsStorable}

-- What a commit does not write is looked up as before.
lookup-unwritten :
    {c : Codec} {tx : Bytes} {ms : List Mutation} {kvs kvs' : List KeyValue} (key : Bytes)
    → KeysAscend kvs
    → Commits c tx ms kvs kvs'
    → ((m : Mutation) → In m ms → written_key c tx m ≢ key)
    → lookup key kvs' ≡ lookup key kvs
lookup-unwritten {kvs = kvs} {kvs' = kvs'} key ascend commits other =
    elim (Option-cases (lookup key kvs)) [
      | inl (v, e) ↦
          In-lookup kvs' key v commits.ascend (commits.unwritten _ (lookup-In kvs key v e) other)
          ∙ sym e
      | inr e ↦ elim (Option-cases (lookup key kvs')) [
        | inr e' ↦ e' ∙ sym e
        | inl (v, e') ↦ elim (commits.sources _ (lookup-In kvs' key v e')) [
          | inl m ↦ let found = In-lookup kvs key v ascend m in absurd cc
          | inr (m, k, w) ↦ absurd (other m k (sym w))
        ]
      ]
    ]

module _ (c : Codec) (laws : CodecLaws c) (store : FdbStore)
    (namespace_bytes : IsBytes store.namespace) (free : NulFree store.namespace) where
  -- No write of a batch is at the key of a cursor.
  batch-ne_cursor :
      (tx : Bytes) (events : List Event)
      → length tx ≡ 10
      → ((se : StoredEvent) → In se (positioned tx 0 events) → IsStorable se)
      → (name : Text) (m : Mutation) → In m (batch c store.namespace events)
      → written_key c tx m ≢ pack_cursor_key c store.namespace name
  batch-ne_cursor tx events ten storable name m k e =
      elim (batch-split c store.namespace tx events m k) [
        | inr q ↦ cursor-ne_sentinel c laws store.namespace free name (sym q ∙ e)
        | inl n ↦
            let (se, l, w) =
              events_sources c laws store.namespace namespace_bytes tx ten events 0 storable m n in
            elim w [
              | inl q ↦ cursor-ne_event c laws store.namespace free name se.position (sym e ∙ q)
              | inr (subset, u, q) ↦ cursor-outside c laws store.namespace free name (
                  subst (IsIndexed c laws store.namespace free) (sym q ∙ e)
                    (index_key-inside c laws store.namespace free subset se.event.type_name _))
            ]
      ]

  -- The position of a cursor in a state.
  abbrev pub cursor_of : State → Text → Option Bytes
  cursor_of s name = lookup (pack_cursor_key c store.namespace name) s.kvs

  -- The cursor that an action sets, if it sets one.
  abbrev pub cursor_set : Action → Option (Text × Versionstamp)
  cursor_set (cursor name position) = some (name, position)
  cursor_set _ = none

  -- What a cursor is read as, where it was read so before.
  abbrev pub read_after :
      Option (Text × Versionstamp)
      → Text
      → Result (Option Versionstamp) Error
      → Result (Option Versionstamp) Error
  read_after none name before = before
  read_after (some (set_name, position)) name before =
      if eq name set_name then ok (some position) else before

  pub cursor_of-sets :
      (s s' : State) (name : Text) (position : Versionstamp)
      → IsBytes name
      → KeysAscend s.kvs
      → Commits c s'.version
          (cursor_writes (pack_cursor_key c store.namespace name) position)
          s.kvs
          s'.kvs
      → (cursor_of s' name ≡ some position)
        × ((other : Text) → IsBytes other → other ≢ name → cursor_of s' other ≡ cursor_of s other)
  cursor_of-sets s s' name position bytes ascend commits = (
    In-lookup s'.kvs _ _ commits.ascend
        (commits.given _ (inl refl) (λ m k e. elim k [ inl q ↦ q | inr n ↦ absurd n ])),
    λ other other_bytes ne. lookup-unwritten _ ascend commits (λ m k e. elim k [
      | inl q ↦
          ne
            (pack_cursor_key-injective c laws store.namespace store.namespace other name
              namespace_bytes namespace_bytes other_bytes bytes
              (sym e ∙ ap (written_key c s'.version) q)).1
      | inr n ↦ absurd n
    ]),
  )

  module _ (s s' : State) (db db' : Database) (tr tr' : Transaction) (fresh : db.create_trx ≡ ok tr)
      (sees : Sees false tr s.kvs) (fresh' : db'.create_trx ≡ ok tr')
      (sees' : Sees false tr' s'.kvs) where
    same_cursor :
        (name : Text)
        → cursor_of s' name ≡ cursor_of s name
        → get_cursor c db' store name ≡ get_cursor c db store name
    same_cursor name e =
        get_cursor-Sees c db' store name tr' s'.kvs fresh' sees'
        ∙ ap cursor_value e
        ∙ sym (get_cursor-Sees c db store name tr s.kvs fresh sees)

  -- For a codec that meets the laws, a namespace of bytes without NUL, two states of which the
  -- second comes of the first by a step (a round of `append` with well typed input, texts without
  -- NUL, or the commit of what `set_cursor` writes), and transactions whose reads see them: what
  -- `get_cursor` returns for a name of bytes is in the second state what it returns in the first,
  -- except that after a step that sets the cursor of the name it returns the position that was set.
  -- So the rounds of `append` change no cursor, and setting one changes no other.
  pub Step-get_cursor :
      (s s' : State) (db db' : Database) (tr tr' : Transaction)
      → db.create_trx ≡ ok tr
      → Sees false tr s.kvs
      → db'.create_trx ≡ ok tr'
      → Sees false tr' s'.kvs
      → (action : Action) → Step c store.namespace action s s'
      → (name : Text) → IsBytes name
      → get_cursor c db' store name
        ≡ read_after (cursor_set action) name (get_cursor c db store name)
  Step-get_cursor s s' db db' tr tr' fresh sees fresh' sees' action
        (appends round_tr events conds round ended done) name bytes =
      let checked = (validate-eq_ok_iff events conds).0 round.valid in
      let ready =
        positioned-IsStorable s'.version 0 events done.versioned checked.2 round.appendable in
      same_cursor s s' db db' tr tr' fresh sees fresh' sees' name (
        lookup-unwritten _ sees.keys_ascend done.commits
          (batch-ne_cursor s'.version events done.versioned.ten (λ se m. (ready se m).0) name))
  Step-get_cursor s s' db db' tr tr' fresh sees fresh' sees' action
        (refuses round_tr events conds round run) name bytes =
      same_cursor s s' db db' tr tr' fresh sees fresh' sees' name refl
  Step-get_cursor s s' db db' tr tr' fresh sees fresh' sees' action
        (fails round_tr events conds e round run) name bytes =
      same_cursor s s' db db' tr tr' fresh sees fresh' sees' name refl
  Step-get_cursor s s' db db' tr tr' fresh sees fresh' sees' action
        (sets_cursor set_name position set_bytes long above commits) name bytes =
      let both = cursor_of-sets s s' set_name position set_bytes sees.keys_ascend commits in
      elim (Bool-cases (eq name set_name)) [
        | inl e ↦
            rw (e, (eq_iff name set_name).0 e)
              ((get_cursor-eq_ok_iff c db' store set_name tr' s'.kvs position fresh' sees').1
                (both.0, long))
        | inr n ↦ rw n (
            same_cursor s s' db db' tr tr' fresh sees fresh' sees' name
              (both.1 name bytes (λ q. true≢false (sym ((eq_iff name set_name).1 q) ∙ n))))
      ]
