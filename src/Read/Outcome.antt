-- ===== src/Read/Outcome.antt =====
-- `read_events` of dcb-layer/src/read.rs over a store that holds a history.
use dcb_layer.Common.{
  ℕ, ◌<◌, ◌≡◌, refl, sym, ap, ◌∙◌, subst, inl, inr, true, Option, some, List, [], ◌∷◌, ◌++◌, map,
  In, All-of_In, Result, ok, err, ap₂,
}
use dcb_layer.Common.Bytes.{Bytes, Text}
use dcb_layer.Types.{Versionstamp, StoredEvent, QueryItem, Query, ReadOptions}
use dcb_layer.Tuple.{Codec}
use dcb_layer.Tuple.Laws.{CodecLaws}
use dcb_layer.Fdb.{KeyValue, Transaction}
use dcb_layer.Fdb.Laws.{Sees}
use dcb_layer.Append.{and_then}
use dcb_layer.Append.Checks.{has_reserved-NoReserved}
use dcb_layer.Store.{Holds, HoldsEvents, Matches, IsAfter}
use dcb_layer.Store.Range.{IsPosition}
use dcb_layer.Store.Reads.{Reads, Reads-nil, Reads-append, Reads-map}
use dcb_layer.Store.Queries.{IsQueryItem, build_query_ranges-Reads}
use dcb_layer.Read.{check_reserved, all_ranges, finish, fetch_events, read_events}
use dcb_layer.Read.Order.{IsFirst}
use dcb_layer.Error.{Error}
use dcb_layer.Read.Merge.Invariant.{total}
use dcb_layer.Read.Stamps.{PositionOf, streams_of, ordered_stamps-IsFirst}
use dcb_layer.Read.Stored.{fetch_events-events}

-- The event matches some item of the query and lies after the position.
abbrev pub Wanted : List QueryItem → Option Versionstamp → StoredEvent → Type 0
Wanted items after se =
    ((item : QueryItem) × In item items × Matches se.event item) × IsAfter after se.position

-- How many keys the ranges of the query give.
abbrev pub keys_given : Codec → Transaction → Text → Query → ReadOptions → ℕ
keys_given c tr namespace query opts = go (all_ranges c tr namespace query.items opts.after)
  where
    go : Result (List (Bytes × Bytes)) Error → ℕ
    go (ok ranges) = total (streams_of tr opts ranges)
    go (err e) = 0

-- The events at the positions of a list.
events_at :
    (history : List StoredEvent) (P : StoredEvent → Type 0) (vses : List Versionstamp)
    → ((vs : Versionstamp) → In vs vses → PositionOf history P vs)
    → (events : List StoredEvent) × (map (λ se. se.position) events ≡ vses)
      × ((se : StoredEvent) → In se events → In se history × P se)
events_at history P [] h = ([], refl, λ se m. absurd m)
events_at history P (vs ∷ vses) h =
    let (se, n, q, e) = h vs (inl refl) in
    let (events, same, all) = events_at history P vses (λ v m. h v (inr m)) in
    (
      se ∷ events,
      ap₂ (λ (x : Versionstamp). ◌∷◌ x) (sym e) same,
      λ s m. elim m [
        | inl t ↦ subst (λ (x : StoredEvent). In x history × P x) (sym t) (n, q)
        | inr k ↦ all s k
      ],
    )

check_reserved-ok :
    (items : List QueryItem)
    → ((item : QueryItem) → In item items → IsQueryItem item)
    → check_reserved items ≡ ok tt
unfolding check_reserved
check_reserved-ok [] h = refl
check_reserved-ok (item ∷ items) h =
    rw
      (
        (has_reserved-NoReserved item.tags).1 (h item (inl refl)).tags_unreserved,
        check_reserved-ok items (λ x m. h x (inr m)),
      )
      refl

module _ (c : Codec) (laws : CodecLaws c) {namespace : Text} {history : List StoredEvent}
    {kvs : List KeyValue} (holds : Holds c namespace history kvs) (tr : Transaction)
    (sees : Sees true tr kvs) where
  -- The ranges of all items read the events that the query asks for.
  all_ranges-Reads :
      (after : Option Versionstamp)
      → IsPosition after
      → (items : List QueryItem) → ((item : QueryItem) → In item items → IsQueryItem item)
      → (ranges : List (Bytes × Bytes)) × (all_ranges c tr namespace items after ≡ ok ranges)
        × Reads history kvs ranges (Wanted items after)
  unfolding all_ranges
  all_ranges-Reads after position [] h = ([], refl, Reads-nil (λ se q. absurd q.0.1))
  all_ranges-Reads after position (item ∷ items) h =
      let (ranges, run, reads) =
        build_query_ranges-Reads c laws holds after position tr true sees item
          (h item (inl refl)) in
      let (rest, run', reads') = all_ranges-Reads after position items (λ x m. h x (inr m)) in
      (
        ranges ++ rest,
        rw (run, run') refl,
        Reads-map (Reads-append reads reads') (λ se m. (
          λ q. elim q [
            | inl (k, a) ↦ ((item, inl refl, k), a)
            | inr ((x, n, k), a) ↦ ((x, inr n, k), a)
          ],
          λ ((x, n, k), a). elim n [
            | inl e ↦ inl (subst (Matches se.event) e k, a)
            | inr n' ↦ inr ((x, n', k), a)
          ],
        )),
      )

  -- For a codec that meets the laws, a store that holds a history in its index and in its primary
  -- subspace, a transaction whose snapshot reads see its pairs, a query whose items ask for
  -- something, with texts of bytes and no reserved tag, and a position of 12 bytes if one is given:
  -- on any fuel above the number of keys that the ranges of the query give, `read_events` returns
  -- events of the history that match some item and lie after the position. Their positions ascend,
  -- or descend in a reverse read, without duplicates; they are at most `limit` unless it is 0; and
  -- the position of every event that matches and lies after is among them, or comes behind a full
  -- list of `limit`.
  pub read_events-IsFirst :
      HoldsEvents c namespace history kvs
      → (query : Query) (opts : ReadOptions)
      → ((item : QueryItem) → In item query.items → IsQueryItem item)
      → IsPosition opts.after
      → (fuel : ℕ) → keys_given c tr namespace query opts < fuel
      → (events : List StoredEvent) × (read_events c fuel tr namespace query opts
          ≡ some (ok events))
        × ((se : StoredEvent) → In se events → In se history × Wanted query.items opts.after se)
        × IsFirst opts.reverse opts.limit
            (PositionOf history (Wanted query.items opts.after))
            (map (λ se. se.position) events)
  unfolding read_events and_then finish
  read_events-IsFirst stored query opts asked position fuel enough =
      let (ranges, run, reads) = all_ranges-Reads opts.after position query.items asked in
      let stamped = λ (se : StoredEvent) (m : In se history). (holds.storable se m).stamped in
      let (found, run', first) =
        ordered_stamps-IsFirst stamped sees opts ranges reads fuel (rw run at enough) in
      let (events, same, wanted) =
        events_at history (Wanted query.items opts.after) found first.sound in
      let fetched =
        fetch_events-events c laws namespace events
          (All-of_In _ events (λ se m. let k = (wanted se m).0 in ((stored se k).0, stamped se k)))
          tr sees (All-of_In _ events (λ se m. (stored se (wanted se m).0).1)) in
      (
        events,
        rw (check_reserved-ok query.items asked, run, run')
            (ap some (ap (fetch_events c tr namespace) (sym same) ∙ fetched)),
        wanted,
        subst (IsFirst opts.reverse opts.limit (PositionOf history (Wanted query.items opts.after)))
            (sym same) first,
      )
