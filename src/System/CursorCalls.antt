-- ===== src/System/CursorCalls.antt =====
-- A call of `set_cursor` of dcb-layer/src/subscribe.rs among other clients: the attempts of its retry
-- loop, and what `get_cursor` reads after it.
use dcb_layer.Common.{
  ℕ, zero, suc, ◌<◌, ◌≡◌, refl, sym, ap, ◌∙◌, ◌⊎◌, inl, inr, subst, true, false, some, List, ◌++◌,
  append_assoc, length, arith, Result, ok, err,
}
use dcb_layer.Common.Bytes.{Text, IsBytes, lt}
use dcb_layer.Types.{StoredEvent, Versionstamp, FdbStore}
use dcb_layer.Error.{FdbError, Error, fdb}
use dcb_layer.Tuple.{Codec}
use dcb_layer.Tuple.Laws.{CodecLaws}
use dcb_layer.Fdb.{Transaction, Database, commit_writes}
use dcb_layer.Fdb.Laws.{Sees, lookup}
use dcb_layer.Encoding.Keys.{pack_cursor_key}
use dcb_layer.Append.{and_then}
use dcb_layer.Append.Commit.{Commits}
use dcb_layer.Subscribe.{cursor_writes, after_set, set_cursor_loop, set_cursor, get_cursor}
use dcb_layer.Subscribe.Cursor.{get_cursor-eq_ok_iff}
use dcb_layer.System.{Action, State, LeadsTo, SpecReachable, additions}
use dcb_layer.System.Cursors.{set_cursor-Represents}
use dcb_layer.System.CursorMap.{cursor_of-sets}
use dcb_layer.System.Growth.{LeadsTo_extends}
use dcb_layer.System.Invariant.{Represents}
use dcb_layer.System.Serving.{additions-append}

module _ (c : Codec) (namespace : Text) (name : Text) (position : Versionstamp) where
  -- The transaction commits the write of the cursor from one state to another.
  pub record IsCursorSet (s s' : State) : Type 0 where
    pub above : lt s.version s'.version ≡ true
    pub commits :
        Commits c s'.version
          (cursor_writes (pack_cursor_key c namespace name) position)
          s.kvs
          s'.kvs

  -- What a failed commit leaves of a state: the state itself, or, where the error leaves the outcome
  -- open, perhaps one in which the cursor is set.
  pub data LeavesCursor : FdbError → State → State → Type 0 where
    unchanged : {e : FdbError} {s : State} → LeavesCursor e s s
    changed :
        {e : FdbError} {s s' : State}
        → e.maybe_committed ≡ true
        → IsCursorSet s s'
        → LeavesCursor e s s'

  -- How the database serves a call that loops on a transaction, with some number of retries: before
  -- each attempt other clients may act; then the commit succeeds, or the client retries with
  -- another transaction or gives up.
  module _ (db : Database) where
    pub data SetsCursor
        : ℕ → State → Transaction → Result (Unit {0}) Error → List Action → State → Type 0 where
      commits :
          {s t s' : State} {tr : Transaction} {others : List Action}
          → LeadsTo c namespace others s t
          → commit_writes tr (cursor_writes (pack_cursor_key c namespace name) position) ≡ ok tt
          → IsCursorSet t s'
          → SetsCursor 0 s tr (ok tt) others s'
      retries :
          {n : ℕ} {s t u s' : State} {tr tr' : Transaction} {before others : List Action}
          {e : FdbError} {r : Result (Unit {0}) Error}
          → LeadsTo c namespace before s t
          → commit_writes tr (cursor_writes (pack_cursor_key c namespace name) position) ≡ err e
          → LeavesCursor e t u
          → db.on_error tr e ≡ ok tr'
          → SetsCursor n u tr' r others s'
          → SetsCursor (suc n) s tr r (before ++ others) s'
      gives_up :
          {s t u : State} {tr : Transaction} {others : List Action} {e e' : FdbError}
          → LeadsTo c namespace others s t
          → commit_writes tr (cursor_writes (pack_cursor_key c namespace name) position) ≡ err e
          → LeavesCursor e t u
          → db.on_error tr e ≡ err e'
          → SetsCursor 0 s tr (err (fdb e')) others u

module _ (c : Codec) (laws : CodecLaws c) (store : FdbStore) (name : Text)
    (name_bytes : IsBytes name) (position : Versionstamp) (long : length position ≡ 12) where
  -- Whether it takes effect or not, the commit of a cursor keeps the history.
  LeavesCursor-Represents :
      (history : List StoredEvent) (e : FdbError) (s s' : State)
      → Represents c store.namespace history s
      → LeavesCursor c store.namespace name position e s s'
      → Represents c store.namespace history s'
  LeavesCursor-Represents history e s s' inv unchanged = inv
  LeavesCursor-Represents history e s s' inv (changed maybe done) =
      set_cursor-Represents c laws store.namespace inv s' name position name_bytes done.above
        done.commits

  module _ (db : Database) where
    set_cursor_loop-Serves :
        (n fuel : ℕ) (s s' : State) (tr : Transaction) (r : Result (Unit {0}) Error)
        (others : List Action)
        → n < fuel
        → SetsCursor c store.namespace name position db n s tr r others s'
        → set_cursor_loop c fuel db tr (pack_cursor_key c store.namespace name) position ≡ some r
    unfolding set_cursor_loop after_set and_then
    set_cursor_loop-Serves n zero s s' tr r others enough served = absurd (omega arith)
    set_cursor_loop-Serves n (suc fuel) s s' tr r others enough (commits leads run done) =
        rw run refl
    set_cursor_loop-Serves n (suc fuel) s s' tr r others enough
          (retries {n = m} {u = u} {tr' = tr'} {others = later} leads run left next served) =
        rw (run, next) (set_cursor_loop-Serves m fuel u s' tr' r later (omega arith) served)
    set_cursor_loop-Serves n (suc fuel) s s' tr r others enough (gives_up leads run left last) =
        rw (run, last) refl

    SetsCursor-Represents :
        (n : ℕ) (s s' : State) (tr : Transaction) (r : Result (Unit {0}) Error)
        (others : List Action) (history : List StoredEvent)
        → Represents c store.namespace history s
        → SpecReachable history
        → SetsCursor c store.namespace name position db n s tr r others s'
        → Represents c store.namespace (history ++ additions others) s'
          × ((r ≡ ok tt) × (lookup (pack_cursor_key c store.namespace name) s'.kvs ≡ some position)
              ⊎ ((e : FdbError) × (r ≡ err (fdb e))))
    SetsCursor-Represents n s s' tr r others history inv spec (commits {t = t} leads run done) =
        let (inv', spec') = LeadsTo_extends c laws store.namespace inv spec leads in
        let set =
          cursor_of-sets c laws store inv.holds.namespace_bytes inv.holds.namespace_free t s' name
            position name_bytes inv'.keys_ascend done.commits in
        (
          set_cursor-Represents c laws store.namespace inv' s' name position name_bytes done.above
              done.commits,
          inl (refl, set.0),
        )
    SetsCursor-Represents n s s' tr r others history inv spec
          (retries {n = m} {t = t} {u = u} {tr' = tr'} {before = before} {others = later} {e = e}
            leads run left next served) =
        let (inv', spec') = LeadsTo_extends c laws store.namespace inv spec leads in
        let (inv'', read) =
          SetsCursor-Represents m u s' tr' r later (history ++ additions before)
            (LeavesCursor-Represents _ e t u inv' left) spec' served in
        let same : (history ++ additions before) ++ additions later
            ≡ history ++ additions (before ++ later) =
          append_assoc history (additions before) (additions later)
          ∙ ap (◌++◌ history) (sym (additions-append before later)) in
        (subst (λ (h : List StoredEvent). Represents c store.namespace h s') same inv'', read)
    SetsCursor-Represents n s s' tr r others history inv spec
          (gives_up {t = t} {e = e} {e' = e'} leads run left last) =
        let (inv', spec') = LeadsTo_extends c laws store.namespace inv spec leads in
        (LeavesCursor-Represents _ e t s' inv' left, inr (e', refl))

    -- For a codec that meets the laws, a name of bytes and a position of 12 bytes, a client that
    -- creates the transaction, a state that holds a history that the documented event store
    -- reaches, and a database that serves the attempts of the call from there, with some number of
    -- retries, others acting between them (texts without NUL), where a failed commit whose error
    -- leaves its outcome open may have taken effect; and for a later transaction whose reads see
    -- the last state: on any fuel above the number of retries, `set_cursor` returns what the last
    -- attempt gave, and the last state holds the history continued by what the others add and
    -- nothing else. Either the call succeeded, and `get_cursor` then returns the position, or it
    -- returned an error of the client.
    pub set_cursor_served :
        (n fuel : ℕ) (s s' : State) (tr : Transaction) (r : Result (Unit {0}) Error)
        (others : List Action) (history : List StoredEvent)
        → db.create_trx ≡ ok tr
        → Represents c store.namespace history s
        → SpecReachable history
        → SetsCursor c store.namespace name position db n s tr r others s'
        → n < fuel
        → (db' : Database) (tr' : Transaction) → db'.create_trx ≡ ok tr'
        → Sees false tr' s'.kvs
        → (set_cursor c fuel db store name position ≡ some r)
          × Represents c store.namespace (history ++ additions others) s'
          × ((r ≡ ok tt) × (get_cursor c db' store name ≡ ok (some position))
              ⊎ ((e : FdbError) × (r ≡ err (fdb e))))
    unfolding set_cursor and_then
    set_cursor_served n fuel s s' tr r others history fresh inv spec served enough db' tr' fresh'
          sees' =
        let (inv', read) = SetsCursor-Represents n s s' tr r others history inv spec served in
        (
          simp fresh (set_cursor_loop-Serves n fuel s s' tr r others enough served),
          inv',
          elim read [
            | inl (done, set) ↦ inl (
              done,
              (get_cursor-eq_ok_iff c db' store name tr' s'.kvs position fresh' sees').1
                  (set, long),
            )
            | inr failed ↦ inr failed
          ],
        )
