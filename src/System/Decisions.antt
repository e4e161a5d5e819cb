-- ===== src/System/Decisions.antt =====
-- What a client that reads and then appends, or reads on, relies on, whatever others do between its
-- calls: `read` of dcb-layer/src/read.rs and `append` of dcb-layer/src/append.rs together.
use mathlib.Core.List.{map-append}
use dcb_layer.Common.{
  ℕ, ◌<◌, ◌≡◌, refl, sym, subst, ◌↔◌, inl, inr, Bool, true, false, Option, some, List, [], ◌∷◌,
  ◌++◌, In, In-append, length-map, In-map_inv, map, length, ok,
}
use dcb_layer.Common.Bytes.{Text, IsBytes}
use dcb_layer.Types.{
  Event, StoredEvent, QueryItem, Query, ReadOptions, AppendCondition, Versionstamp,
}
use dcb_layer.Tuple.{Codec}
use dcb_layer.Tuple.Laws.{CodecLaws, NulFree}
use dcb_layer.Fdb.{Transaction}
use dcb_layer.Fdb.Laws.{Sees}
use dcb_layer.Query.After.{IsVersionstamp}
use dcb_layer.Store.Range.{IsPosition}
use dcb_layer.Store.Queries.{IsQueryItem}
use dcb_layer.Append.{return, append_round}
use dcb_layer.Read.{read_events}
use dcb_layer.Read.Order.{IsFirst}
use dcb_layer.Read.Pages.{last_position, together, on_page, IsFirst_pages}
use dcb_layer.Read.Stamps.{PositionOf}
use dcb_layer.Read.Outcome.{Wanted, keys_given, read_events-IsFirst}
use dcb_layer.Read.Unique.{same_position}
use dcb_layer.System.{Action, additions, State, IsRound, LeadsTo, Reachable, SpecReachable}
use dcb_layer.System.Invariant.{Represents, outcome}
use dcb_layer.System.Refinement.{Reachable-Represents}
use dcb_layer.System.Growth.{
  Continues, append-Continues, LeadsTo_extends, PositionOf-kept, PositionOf-behind,
}

IsPosition-last_position :
    (after : Option Versionstamp)
    → IsPosition after
    → (vses : List Versionstamp) → ((vs : Versionstamp) → In vs vses → IsVersionstamp vs)
    → IsPosition (last_position after vses)
IsPosition-last_position after p [] h = p
IsPosition-last_position after p (vs ∷ vses) h =
    IsPosition-last_position (some vs) (h vs (inl refl)) vses (λ x m. h x (inr m))

module _ (c : Codec) (laws : CodecLaws c) (namespace : Text) (namespace_bytes : IsBytes namespace)
    (free : NulFree namespace) (s s' : State) (reachable : Reachable c namespace s)
    (actions : List Action) (leads : LeadsTo c namespace actions s s') (tr : Transaction)
    (sees : Sees true tr s.kvs) (query : Query) (opts : ReadOptions)
    (forward : opts.reverse ≡ false)
    (asked : (item : QueryItem) → In item query.items → IsQueryItem item)
    (position : IsPosition opts.after) (fuel : ℕ)
    (enough : keys_given c tr namespace query opts < fuel) (events : List StoredEvent)
    (run : read_events c fuel tr namespace query opts ≡ some (ok events)) where
  -- The options to read on with.
  abbrev next : ℕ → ReadOptions
  next limit' = record {
    limit = limit';
    after = last_position opts.after (map (λ se. se.position) events);
    reverse = false;
  }

  -- What the read gave, and the history that the later state holds.
  seen :
      (history history' : List StoredEvent) × SpecReachable history'
      × Represents c namespace history s
      × Represents c namespace history' s'
      × ((se : StoredEvent) → In se events → In se history × Wanted query.items opts.after se)
      × IsFirst false opts.limit
          (PositionOf history (Wanted query.items opts.after))
          (map (λ se. se.position) events)
      × Continues query.items opts.after (map (λ se. se.position) events) history history'
  seen =
      let (history, spec, inv) =
        Reachable-Represents c laws namespace namespace_bytes free s reachable in
      let more = additions actions in
      let (inv', spec') = LeadsTo_extends c laws namespace inv spec leads in
      let (events', run', wanted, first) =
        read_events-IsFirst c laws inv.holds tr sees inv.stored query opts asked position fuel
          enough in
      let same : events' ≡ events = cc in
      let P = PositionOf history (Wanted query.items opts.after) in
      let first' : IsFirst false opts.limit P (map (λ se. se.position) events) =
        subst (λ (r : Bool). IsFirst r opts.limit P (map (λ se. se.position) events)) forward
          (subst
            (λ (l : List StoredEvent).
              IsFirst opts.reverse opts.limit P (map (λ se. se.position) l))
            same first) in
      (
        history,
        history ++ more,
        spec',
        inv,
        inv',
        subst
            (λ (l : List StoredEvent).
              (se : StoredEvent) → In se l → In se history × Wanted query.items opts.after se)
            same wanted,
        first',
        append-Continues history more inv'.positions_ascend query.items opts.after
            (map (λ se. se.position) events) first'.sound first'.ordered,
      )

  -- For a codec that meets the laws, a namespace of bytes without NUL, a reachable state, a forward
  -- read there (whose snapshot reads see the state's pairs) with a query whose items ask for
  -- something, with texts of bytes and no reserved tag, a position of 12 bytes if one is given, and
  -- fuel above the number of keys that the ranges give; and for a later state, to which any steps
  -- of any clients lead (all texts of events without NUL): if a round of `append` there, with
  -- accepted and well typed input, among its conditions one on the same query after the last
  -- position that was read, returns the position of its batch, then the history of the later state,
  -- which the documented event store reaches, holds no event that the query wants after the read's
  -- position but those that were read, and all of those.
  pub read-append_round :
      (tr' : Transaction) (batch : List Event) (conds : List AppendCondition)
      (committed : Versionstamp)
      → In
          (record {
            query = query;
            after = last_position opts.after (map (λ se. se.position) events);
          })
          conds
      → IsRound c namespace s' tr' batch conds
      → append_round c tr' namespace batch conds ≡ return (ok committed)
      → (history : List StoredEvent) × SpecReachable history
        × Represents c namespace history s'
        × ((se : StoredEvent) → In se events ↔ (In se history × Wanted query.items opts.after se))
  read-append_round tr' batch conds committed guarded round returned =
      let (history, history', spec, inv, inv', wanted, first, continues) = seen in
      elim (outcome c laws namespace inv' round) [
        | inl (conflict, refused) ↦ absurd cc
        | inr (clear, _) ↦ (
          history',
          spec,
          inv',
          λ se. (
            λ m. (continues.kept se (wanted se m).0, (wanted se m).1),
            λ (m, w). elim (on_page first continues.newer se.position (se, m, w, refl)) [
              | inl k ↦
                  let (e, n, same) = In-map_inv (λ se. se.position) se.position events k in
                  subst (λ (x : StoredEvent). In x events)
                    (sym (
                      same_position history' se e inv'.positions_ascend m
                        (continues.kept e (wanted e n).0) same))
                    n
              | inr h ↦
                  let ((item, i, f), a) = (continues.behind se).1 (w, h) in
                  absurd (clear (_, guarded, (item, i, (se, m, f, a))))
            ],
          ),
        )
      ]

  -- For a codec that meets the laws, a namespace of bytes without NUL, a reachable state, a forward
  -- read there (whose snapshot reads see the state's pairs) with a query whose items ask for
  -- something, with texts of bytes and no reserved tag, a position of 12 bytes if one is given, and
  -- fuel above the number of keys that the ranges give; and for a later state, to which any steps
  -- of any clients lead (all texts of events without NUL): a second forward read there with the
  -- same query, after the last position that was read, on enough fuel, returns events such that the
  -- two lists one after the other are the first of all that the query wants, after the first read's
  -- position, of the later history: as many as the first read returned and the second limit
  -- together allow, or all where the second limit is 0, in order, none twice and none missed.
  pub read-read_events :
      (tr' : Transaction) (limit' fuel' : ℕ)
      → Sees true tr' s'.kvs
      → keys_given c tr' namespace query (next limit') < fuel'
      → (history more : List StoredEvent) × SpecReachable history
        × Represents c namespace history s'
        × (read_events c fuel' tr' namespace query (next limit') ≡ some (ok more))
        × ((se : StoredEvent)
            → In se (events ++ more)
            → In se history × Wanted query.items opts.after se)
        × IsFirst false
            (together (length events) limit')
            (PositionOf history (Wanted query.items opts.after))
            (map (λ se. se.position) (events ++ more))
  read-read_events tr' limit' fuel' sees' enough' =
      let (history, history', spec, inv, inv', wanted, first, continues) = seen in
      let stamps = map (λ se. se.position) events in
      let position' = IsPosition-last_position opts.after position stamps (λ vs m.
        let (se, n, _, e) = first.sound vs m in
        subst IsVersionstamp (sym e) (inv.holds.storable se n).stamped) in
      let (more, run', wanted', second) =
        read_events-IsFirst c laws inv'.holds tr' sees' inv'.stored query (next limit') asked
          position' fuel' enough' in
      let P = PositionOf history' (Wanted query.items opts.after) in
      (
        history',
        more,
        spec,
        inv',
        run',
        λ se m. elim (In-append se events more m) [
          | inl k ↦ (continues.kept se (wanted se k).0, (wanted se k).1)
          | inr k ↦ ((wanted' se k).0, ((continues.behind se).0 (wanted' se k).1).0)
        ],
        subst (IsFirst false _ P) (sym (map-append (λ se. se.position) events more)) (
            subst
              (λ (n : ℕ).
                IsFirst false (together n limit') P (stamps ++ map (λ se. se.position) more))
              (length-map (λ se. se.position) events)
              (IsFirst_pages first second (PositionOf-kept continues) continues.newer
                (PositionOf-behind continues))),
      )
