-- ===== src/Read/Equal.antt =====
-- `read_events` of dcb-layer/src/read.rs is the reference.
use mathlib.Core.List.{reverse}
use dcb_layer.Common.{
  ℕ, ◌<◌, ◌≡◌, refl, sym, ap, ◌∙◌, subst, ◌↔◌, inl, inr, Bool, true, false, Bool-cases, some, List,
  [], ◌∷◌, In, Subset, In-map, In-map_inv, map, All-In, All-of_In, ok, if◌then◌else◌,
}
use dcb_layer.Common.Bytes.{Text, lt}
use dcb_layer.Types.{Versionstamp, StoredEvent, QueryItem, Query, ReadOptions}
use dcb_layer.Tuple.{Codec}
use dcb_layer.Tuple.Laws.{CodecLaws}
use dcb_layer.Fdb.{KeyValue, Transaction}
use dcb_layer.Fdb.Laws.{Sees}
use dcb_layer.Store.{Holds, HoldsEvents}
use dcb_layer.Store.Range.{IsPosition}
use dcb_layer.Store.Queries.{IsQueryItem}
use dcb_layer.Read.{read_events}
use dcb_layer.Read.Order.{IsOrdered, IsFirst}
use dcb_layer.Read.Single.{cut}
use dcb_layer.Read.Limits.{In-cut}
use dcb_layer.Read.Ranges.{In-reverse, IsOrdered-reverse, map-cut, map-reverse}
use dcb_layer.Read.Stamps.{PositionOf, IsFirst-map, one-IsFirst}
use dcb_layer.Read.Outcome.{Wanted, keys_given, read_events-IsFirst}
use dcb_layer.Read.Reference.{chosen, wanted, reference, wanted-Wanted, In-chosen}
use dcb_layer.Read.Unique.{IsFirst_unique, same_events}

abbrev turned : {A : Type 0} → Bool → List A → List A
turned r xs = if r then reverse xs else xs

In-turned : {A : Type 0} (r : Bool) (x : A) (xs : List A) → In x (turned r xs) ↔ In x xs
In-turned true x xs = In-reverse x xs
In-turned false x xs = (λ m. m, λ m. m)

map-turned :
    {A B : Type 0} (f : A → B) (r : Bool) (xs : List A) → map f (turned r xs) ≡ turned r (map f xs)
map-turned f true xs = map-reverse f xs
map-turned f false xs = refl

IsOrdered-turned : (r : Bool) (l : List Versionstamp) → IsOrdered false l → IsOrdered r (turned r l)
IsOrdered-turned true l o = IsOrdered-reverse l o
IsOrdered-turned false l o = o

abbrev positions : List StoredEvent → List Versionstamp
positions ses = map (λ se. se.position) ses

IsOrdered-chosen :
    (p : StoredEvent → Bool) (history : List StoredEvent)
    → IsOrdered false (positions history)
    → IsOrdered false (positions (chosen p history))
unfolding chosen
IsOrdered-chosen p [] o = tt
IsOrdered-chosen p (se ∷ history) o = elim (Bool-cases (p se)) [
  | inr n ↦ rw n (IsOrdered-chosen p history o.1)
  | inl e ↦ rw e (
    All-of_In _ (positions (chosen p history)) (λ vs m.
        let (later, k, q) = In-map_inv (λ se. se.position) vs (chosen p history) m in
        ap (lt se.position) q
        ∙ All-In _ (positions history) o.0 later.position
            (In-map (λ se. se.position) later history ((In-chosen p later history).0 k).0)),
    IsOrdered-chosen p history o.1,
  )
]

module _ (query : Query) (opts : ReadOptions) (history : List StoredEvent)
    (ascend : IsOrdered false (positions history)) where
  reference-Subset : Subset (reference query opts history) history
  unfolding reference
  reference-Subset se m =
      let found = chosen (wanted query.items opts.after) history in
      ((In-chosen (wanted query.items opts.after) se history).0 (
        (In-turned opts.reverse se found).0 (In-cut opts.limit (turned opts.reverse found) se m))).0

  reference-IsFirst :
      IsFirst opts.reverse opts.limit
        (PositionOf history (Wanted query.items opts.after))
        (positions (reference query opts history))
  unfolding reference
  reference-IsFirst =
      let p = wanted query.items opts.after in
      let found = chosen p history in
      let l = turned opts.reverse (positions found) in
      subst (IsFirst opts.reverse opts.limit (PositionOf history (Wanted query.items opts.after)))
        (sym (
          map-cut (λ se. se.position) opts.limit (turned opts.reverse found)
          ∙ ap (cut opts.limit) (map-turned (λ se. se.position) opts.reverse found)))
        (IsFirst-map
          (λ vs. (
            λ (l', m, k). elim m [
              | inr n ↦ absurd n
              | inl e ↦
                  let k' = (In-turned opts.reverse vs (positions found)).0 (subst (In vs) e k) in
                  let (se, n, q) = In-map_inv (λ se. se.position) vs found k' in
                  let (h, w) = (In-chosen p se history).0 n in
                  (se, h, (wanted-Wanted query.items opts.after se).0 w, q)
            ],
            λ (se, h, w, q). (
              l,
              inl refl,
              (In-turned opts.reverse vs (positions found)).1 (
                  subst (λ (v : Versionstamp). In v (positions found)) (sym q)
                    (In-map (λ se. se.position) se found
                      ((In-chosen p se history).1
                        (h, (wanted-Wanted query.items opts.after se).1 w)))),
            ),
          ))
          (one-IsFirst opts.reverse opts.limit l
            (IsOrdered-turned opts.reverse (positions found) (IsOrdered-chosen p history ascend))))

module _ (c : Codec) (laws : CodecLaws c) {namespace : Text} {history : List StoredEvent}
    {kvs : List KeyValue} (holds : Holds c namespace history kvs) (tr : Transaction)
    (sees : Sees true tr kvs) where
  -- For a codec that meets the laws, a store that holds a history with ascending positions in its
  -- index and in its primary subspace, a transaction whose snapshot reads see its pairs, a query
  -- whose items ask for something, with texts of bytes and no reserved tag, and a position of 12
  -- bytes if one is given: on any fuel above the number of keys that the ranges of the query give,
  -- `read_events` returns what the reference computes: every event of the history is tested against
  -- the items and the position, the list is turned around for a reverse read, and the first `limit`
  -- are kept, or all where it is 0.
  pub read_events-reference :
      HoldsEvents c namespace history kvs
      → IsOrdered false (map (λ se. se.position) history)
      → (query : Query) (opts : ReadOptions)
      → ((item : QueryItem) → In item query.items → IsQueryItem item)
      → IsPosition opts.after
      → (fuel : ℕ) → keys_given c tr namespace query opts < fuel
      → read_events c fuel tr namespace query opts ≡ some (ok (reference query opts history))
  read_events-reference stored ascend query opts asked position fuel enough =
      let (events, run, wanted, first) =
        read_events-IsFirst c laws holds tr sees stored query opts asked position fuel enough in
      run
      ∙ ap (λ (l : List StoredEvent). some (ok l))
          (same_events history events (reference query opts history) ascend
            (λ se m. (wanted se m).0) (reference-Subset query opts history ascend)
            (IsFirst_unique opts.reverse _ _ first (reference-IsFirst query opts history ascend)))
