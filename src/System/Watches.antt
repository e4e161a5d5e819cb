-- ===== src/System/Watches.antt =====
-- The watches of dcb-layer/src/subscribe.rs see every batch that `append` of dcb-layer/src/append.rs
-- commits after they are registered.
use dcb_layer.Common.{
  ◌≡◌, ◌≢◌, sym, ap, ◌∙◌, subst, inl, inr, true, false, true≢false, some, List, [], ◌∷◌, ◌++◌, take,
  take-append, ok,
}
use dcb_layer.Common.Bytes.{Bytes, Text, IsBytes, lt, lt_irrefl, lt_asymm, not_lt_trans}
use dcb_layer.Types.{Event, AppendCondition, FdbStore}
use dcb_layer.Tuple.{Codec}
use dcb_layer.Tuple.Laws.{CodecLaws, NulFree}
use dcb_layer.Fdb.{Transaction, Database, commit_writes, with_watch}
use dcb_layer.Fdb.Laws.{lookup, KeysAscend}
use dcb_layer.Fdb.Lookup.{lookup-In, In-lookup}
use dcb_layer.Encoding.Keys.{pack_sentinel_key}
use dcb_layer.Append.{batch}
use dcb_layer.Append.Checks.{validate-eq_ok_iff}
use dcb_layer.Append.Commit.{written_key, Commits}
use dcb_layer.Append.Keys.{cursor-ne_sentinel}
use dcb_layer.Append.Signals.{sentinel-committed}
use dcb_layer.Subscribe.{register_sentinel_watch}
use dcb_layer.Subscribe.Watch.{register_sentinel_watch-eq_ok}
use dcb_layer.System.{
  Action, State, IsVersion, IsRound, Step, appends, refuses, fails, sets_cursor, LeadsTo, stays,
  goes_on, Reachable, start, step,
}
use dcb_layer.System.Batches.{positioned-IsStorable}

-- The sentinel, if there is one, begins with a version that is not above that of the last commit.
record Signals (c : Codec) (namespace : Text) (s : State) : Type 0 where
  ascend : KeysAscend s.kvs
  not_above :
      (v : Bytes)
      → lookup (pack_sentinel_key c namespace) s.kvs ≡ some v
      → lt s.version (take 10 v) ≡ false

module _ (c : Codec) (laws : CodecLaws c) (namespace : Text) (namespace_bytes : IsBytes namespace)
    (free : NulFree namespace) where
  -- A committed round leaves its version in the sentinel.
  committed_signal :
      {s s' : State} {tr : Transaction} {events : List Event} {conds : List AppendCondition}
      → IsRound c namespace s tr events conds
      → IsVersion s'.version
      → Commits c s'.version (batch c namespace events) s.kvs s'.kvs
      → lookup (pack_sentinel_key c namespace) s'.kvs ≡ some (s'.version ++ 0 ∷ 0 ∷ [])
  committed_signal {s} {s'} {tr} {events} {conds} round v commits =
      let checked = (validate-eq_ok_iff events conds).0 round.valid in
      sentinel-committed c laws namespace namespace_bytes free s'.version v.ten events
        (λ se m. (positioned-IsStorable s'.version 0 events v checked.2 round.appendable se m).0)
        s.kvs s'.kvs commits

  Step-Signals :
      (action : Action) (s s' : State)
      → Signals c namespace s
      → Step c namespace action s s'
      → Signals c namespace s'
  Step-Signals action s s' inv (appends tr events conds round ended done) = record {
    ascend = done.commits.ascend;
    not_above = λ w e.
        let now = committed_signal round done.versioned done.commits in
        let same : w ≡ s'.version ++ 0 ∷ 0 ∷ [] = cc in
        subst (λ (x : Bytes). lt s'.version (take 10 x) ≡ false) (sym same)
          (subst (λ (x : Bytes). lt s'.version x ≡ false)
            (sym (take-append s'.version _ 10 (sym done.versioned.ten))) (lt_irrefl s'.version));
  }
  Step-Signals action s s' inv (refuses tr events conds round run) = inv
  Step-Signals action s s' inv (fails tr events conds e round run) = inv
  Step-Signals action s s' inv (sets_cursor name position bytes long above commits) = record {
    ascend = commits.ascend;
    not_above = λ w e. elim (commits.sources _ (lookup-In s'.kvs _ _ e)) [
      | inl m ↦
          not_lt_trans (take 10 w) s.version s'.version
            (inv.not_above w (In-lookup s.kvs _ _ inv.ascend m))
            (lt_asymm s.version s'.version above)
      | inr (m, inl n, q) ↦
          absurd
            (cursor-ne_sentinel c laws namespace free name (q ∙ ap (written_key c s'.version) n))
      | inr (m, inr n, q) ↦ absurd n
    ];
  }

  Reachable-Signals : (s : State) → Reachable c namespace s → Signals c namespace s
  Reachable-Signals s (start empty) = record {
    ascend = empty.ascend;
    not_above = λ w e. let untouched = empty.no_sentinel in absurd cc;
  }
  Reachable-Signals s (step {action = action} {s = t} before now) =
      Step-Signals action t s (Reachable-Signals t before) now

  Step-version :
      (action : Action) (s s' : State)
      → Step c namespace action s s'
      → lt s'.version s.version ≡ false
  Step-version action s s' (appends tr events conds round ended done) =
      lt_asymm s.version s'.version done.above
  Step-version action s s' (refuses tr events conds round run) = lt_irrefl s.version
  Step-version action s s' (fails tr events conds e round run) = lt_irrefl s.version
  Step-version action s s' (sets_cursor name position bytes long above commits) =
      lt_asymm s.version s'.version above

  -- Versions do not go back.
  LeadsTo-version :
      (actions : List Action) (s s' : State)
      → LeadsTo c namespace actions s s'
      → lt s'.version s.version ≡ false
  LeadsTo-version _ s s' stays = lt_irrefl s.version
  LeadsTo-version _ s s' (goes_on {actions = actions} {action = action} {t = t} before now) =
      not_lt_trans s.version t.version s'.version (LeadsTo-version actions s t before)
        (Step-version action t s' now)

module _ (c : Codec) (laws : CodecLaws c) {W : Type 0} (watch : Transaction → Bytes → W)
    (db : Database) (store : FdbStore) (namespace_bytes : IsBytes store.namespace)
    (free : NulFree store.namespace) where
  -- For a codec that meets the laws, a namespace of bytes without NUL, and a reachable state: where
  -- `register_sentinel_watch` returns a future, it is that of a transaction that was created,
  -- watched a key and then was committed, whose value any later batch of `append` changes: if any
  -- steps of any clients (texts without NUL) lead to another state, and a round of `append` with
  -- accepted input commits there at a version above, the key has this version and two bytes of 0 as
  -- its value, which it did not have in the first state.
  pub register_sentinel_watch_fires :
      (w : W) (actions : List Action) (s t s' : State)
      → register_sentinel_watch c watch db store ≡ ok w
      → Reachable c store.namespace s
      → LeadsTo c store.namespace actions s t
      → (tr : Transaction) (events : List Event) (conds : List AppendCondition)
      → IsRound c store.namespace t tr events conds
      → IsVersion s'.version
      → lt t.version s'.version ≡ true
      → Commits c s'.version (batch c store.namespace events) t.kvs s'.kvs
      → (tr' : Transaction) × (key : Bytes) × (db.create_trx ≡ ok tr')
        × (commit_writes (with_watch key tr') [] ≡ ok tt)
        × (w ≡ watch (with_watch key tr') key)
        × (lookup key s'.kvs ≡ some (s'.version ++ 0 ∷ 0 ∷ []))
        × (lookup key s.kvs ≢ lookup key s'.kvs)
  register_sentinel_watch_fires w actions s t s' made reachable leads tr events conds round v above
        commits =
      let (tr', fresh, registered, watches) =
        register_sentinel_watch-eq_ok c watch db store w made in
      let now = committed_signal c laws store.namespace namespace_bytes free round v commits in
      let inv = Reachable-Signals c laws store.namespace namespace_bytes free s reachable in
      (
        tr',
        pack_sentinel_key c store.namespace,
        fresh,
        registered,
        watches,
        now,
        λ same.
            let low = inv.not_above (s'.version ++ 0 ∷ 0 ∷ []) (same ∙ now) in
            let low' : lt s.version s'.version ≡ false =
              subst (λ (x : Bytes). lt s.version x ≡ false)
                (take-append s'.version (0 ∷ 0 ∷ []) 10 (sym v.ten)) low in
            absurd (
              true≢false (
                sym above
                ∙ not_lt_trans s'.version s.version t.version low' (
                    LeadsTo-version c laws store.namespace namespace_bytes free actions s t
                      leads))),
      )
