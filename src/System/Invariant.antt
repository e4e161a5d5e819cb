-- ===== src/System/Invariant.antt =====
-- Every reachable state of the store of dcb-layer/src/append.rs holds the history of a run of the
-- documented event store.
use mathlib.Core.List.{map-append}
use dcb_layer.Common.{
  ℕ, zero, suc, ◌-◌, ◌%◌, ◌≡◌, ◌≢◌, refl, sym, ap, ap₂, ◌∙◌, subst, ◌⊎◌, inl, inr, true, false,
  List, [], ◌∷◌, ◌++◌, In, In-append, In-append_left, In-append_right, In-map_inv, map, length,
  take, drop, take-append, arith, ok, err, map_err, ◌>>=◌,
}
use dcb_layer.Common.Bytes.{Bytes, Text, lt, lt_irrefl, lt_asymm, not_lt_trans}
use dcb_layer.Types.{Event, StoredEvent, AppendCondition, Versionstamp}
use dcb_layer.Error.{fdb, append_condition_failed}
use dcb_layer.Tuple.{Codec}
use dcb_layer.Tuple.Laws.{CodecLaws, be_bytes}
use dcb_layer.Fdb.{
  KeyValue, FdbResult, Transaction, commit_writes, with_option, automatic_idempotency,
}
use dcb_layer.Query.After.{IsVersionstamp}
use dcb_layer.Read.Order.{IsOrdered, IsOrdered-join, before-of_not_before, before-ne}
use dcb_layer.Store.{Holds, HoldsEvents}
use dcb_layer.Append.{return, append_round, after_commit, commit_batch, batch}
use dcb_layer.Append.Checks.{validate-eq_ok_iff}
use dcb_layer.Append.Commit.{Commits, positioned}
use dcb_layer.Append.Conditions.{SomeConflict, append_round-Conflict}
use dcb_layer.Append.Outcome.{conditions-IsCondition}
use dcb_layer.Append.Keys.{IsPrimary, index_key-outside_events, sentinel-outside_events}
use dcb_layer.Append.Preserves.{batch_sources, batch-Holds}
use dcb_layer.Query.Strinc.{StartsWith}
use dcb_layer.Encoding.Keys.{pack_events_prefix, pack_event_key}
use dcb_layer.Fdb.Laws.{KeysAscend}
use dcb_layer.Append.Stores.{batch-HoldsEvents}
use dcb_layer.Append.Values.{place}
use dcb_layer.System.{IsVersion, State, IsRound, MayPersist, told, unstamped, unknown}
use dcb_layer.System.Batches.{positioned-IsStorable, positioned-IsOrdered}

-- The state holds the history, whose positions ascend and are not above the last version.
pub record Represents (c : Codec) (namespace : Text) (history : List StoredEvent) (s : State)
    : Type 0 where
  pub holds : Holds c namespace history s.kvs
  pub stored : HoldsEvents c namespace history s.kvs
  pub positions_ascend : IsOrdered false (map (λ se. se.position) history)
  pub not_above : (se : StoredEvent) → In se history → lt s.version (take 10 se.position) ≡ false
  pub keys_ascend : KeysAscend s.kvs
  pub primary :
      (kv : KeyValue)
      → In kv s.kvs
      → StartsWith (pack_events_prefix c namespace) kv.key
      → (se : StoredEvent) × In se history × (kv.key ≡ pack_event_key c namespace se.position)

-- Of two versions, the stamps of the lower one are below those of the other.
lt-extend : (a b x y : Bytes) → length a ≡ length b → lt a b ≡ true → lt (a ++ x) (b ++ y) ≡ true
unfolding lt
lt-extend [] [] x y h l = absurd cc
lt-extend [] (v ∷ b) x y h l = absurd (omega arith)
lt-extend (u ∷ a) [] x y h l = absurd (omega arith)
lt-extend (u ∷ a) (v ∷ b) x y h l = ground (arith, lt-extend a b x y)

take-drop : (n : ℕ) (l : Bytes) → take n l ++ drop n l ≡ l
take-drop zero l = refl
take-drop (suc n) [] = refl
take-drop (suc n) (x ∷ l) = ap (◌∷◌ x) (take-drop n l)

length-take_stamp : (vs : Versionstamp) → IsVersionstamp vs → length (take 10 vs) ≡ 10
length-take_stamp (a ∷ b ∷ c ∷ d ∷ e ∷ f ∷ g ∷ h ∷ i ∷ j ∷ k ∷ l ∷ []) v = refl
length-take_stamp _ v = absurd (omega (arith, v.length_lem))

pub commit_batch-ne_refused :
    (c : Codec) (tr : Transaction) (namespace : Text) (events : List Event)
    → commit_batch c tr namespace events ≢ return (err append_condition_failed)
unfolding commit_batch after_commit
commit_batch-ne_refused c tr namespace events = go (commit_writes tr _) tr.get_versionstamp
  where
    go :
        (r : FdbResult (Unit {0})) (v : FdbResult Bytes)
        → after_commit r (
            map_err fdb v >>= λ fdb_slice. ok (fdb_slice ++ be_bytes ((length events - 1) % 65536)))
          ≢ return (err append_condition_failed)
    go (ok a) (ok w) e = absurd cc
    go (ok a) (err x) e = absurd cc
    go (err x) v e = absurd cc

module _ (c : Codec) (laws : CodecLaws c) (namespace : Text) where
  module _ {history : List StoredEvent} {s : State} (inv : Represents c namespace history s) where
    -- Positions of a later version are above those of the history.
    new_above :
        (s' : State) (events : List Event)
        → IsVersion s'.version
        → lt s.version s'.version ≡ true
        → (old new : StoredEvent) → In old history
        → In new (positioned s'.version 0 events)
        → lt old.position new.position ≡ true
    new_above s' events v above old new k l =
        let (j, low, high, e) = place s'.version 0 events new l in
        let stamp : IsVersionstamp old.position = (inv.holds.storable old k).stamped in
        subst (λ (x : Bytes). lt x new.position ≡ true) (take-drop 10 old.position)
          (subst (λ (x : Bytes). lt (take 10 old.position ++ drop 10 old.position) x ≡ true) (sym e)
            (lt-extend (take 10 old.position) s'.version (drop 10 old.position) _
              (length-take_stamp old.position stamp ∙ sym v.ten)
              (before-of_not_before false (take 10 old.position) s.version s'.version
                (inv.not_above old k) above)))

    module _ {tr : Transaction} {events : List Event} {conds : List AppendCondition}
        (round : IsRound c namespace s tr events conds) where
      -- What a round does, by the history.
      pub outcome :
          (SomeConflict conds history
            × (append_round c tr namespace events conds ≡ return (err append_condition_failed)))
          ⊎ ((¬ SomeConflict conds history)
              × (append_round c tr namespace events conds
                  ≡ commit_batch c (with_option automatic_idempotency tr) namespace events))
      outcome = append_round-Conflict c laws inv.holds tr round.sees events conds round.idempotent (
          conditions-IsCondition conds ((validate-eq_ok_iff events conds).0 round.valid).3
            round.typed)

      -- A round whose commit may have taken effect found no conflict.
      pub persisted-clear :
          (version : Bytes)
          → MayPersist tr version (append_round c tr namespace events conds)
          → ¬ SomeConflict conds history
      persisted-clear version ended = elim outcome [
        | inl (conflict, run) ↦ absurd (elim ended [
          | told position e stamp ↦ absurd cc
          | unstamped e q ↦ absurd cc
          | unknown e q maybe ↦ absurd cc
        ])
        | inr (clear, run) ↦ clear
      ]

      -- A committed batch continues the history.
      pub committed_Represents :
          (s' : State)
          → IsVersion s'.version
          → lt s.version s'.version ≡ true
          → Commits c s'.version (batch c namespace events) s.kvs s'.kvs
          → Represents c namespace (history ++ positioned s'.version 0 events) s'
      committed_Represents s' v above commits =
          let checked = (validate-eq_ok_iff events conds).0 round.valid in
          let ready = positioned-IsStorable s'.version 0 events v checked.2 round.appendable in
          record {
            holds =
                batch-Holds c laws inv.holds events s'.version v.ten (λ se m. (ready se m).0)
                  commits;
            stored =
                batch-HoldsEvents c laws inv.holds inv.stored events s'.version v.ten
                  (omega (arith, checked.1)) (λ se m. (ready se m).0) (λ se m. (ready se m).1)
                  (λ old new k l e.
                    before-ne false old.position new.position
                      (new_above s' events v above old new k l) (sym e))
                  commits;
            positions_ascend =
                subst (IsOrdered false)
                  (sym (map-append (λ se. se.position) history (positioned s'.version 0 events)))
                  (IsOrdered-join false _ _ inv.positions_ascend
                    (positioned-IsOrdered s'.version 0 events (omega (arith, checked.1)))
                    (λ x y m n.
                      let (old, k, e) = In-map_inv _ x history m in
                      let (new, l, q) = In-map_inv _ y (positioned s'.version 0 events) n in
                      ap₂ lt e q ∙ new_above s' events v above old new k l));
            not_above = λ se m. elim (In-append se history (positioned s'.version 0 events) m) [
              | inl k ↦
                  not_lt_trans (take 10 se.position) s.version s'.version (inv.not_above se k)
                    (lt_asymm s.version s'.version above)
              | inr k ↦
                  let (j, low, high, e) = place s'.version 0 events se k in
                  subst (λ (x : Bytes). lt s'.version x ≡ false)
                    (sym (ap (take 10) e ∙ take-append s'.version _ 10 (sym v.ten)))
                    (lt_irrefl s'.version)
            ];
            keys_ascend = commits.ascend;
            primary = λ kv m starts. elim (commits.sources kv m) [
              | inl k ↦
                  let (se, l, e) = inv.primary kv k starts in
                  (se, In-append_left se history (positioned s'.version 0 events) l, e)
              | inr (w, k, e) ↦
                  let free = inv.holds.namespace_free in
                  let source =
                    batch_sources c laws inv.holds events s'.version v.ten (λ se m. (ready se m).0)
                      commits w k in
                  elim source [
                    | inl (se, l, inl q) ↦
                        (se, In-append_right se history (positioned s'.version 0 events) l, e ∙ q)
                    | inl (se, l, inr (subset, u, q)) ↦ absurd (
                        index_key-outside_events c laws namespace free subset se.event.type_name _
                          (subst (IsPrimary c laws namespace free) (e ∙ q) starts))
                    | inr q ↦ absurd (
                        sentinel-outside_events c laws namespace free
                          (subst (IsPrimary c laws namespace free) (e ∙ q) starts))
                  ]
            ];
          }
