-- ===== src/Read/Stamps.antt =====
-- The stamps that a read of dcb-layer/src/read.rs selects from a store that holds a history.
use dcb_layer.Common.{
  ℕ, zero, suc, ◌≤◌, ◌<◌, ◌≡◌, refl, sym, ap, ◌∙◌, subst, ◌↔◌, inl, inr, Bool, true, some, List, [],
  ◌∷◌, ◌++◌, map, In, In-map, In-map_inv, All, All-In, All-of_In, Subset, ok, take, length, arith,
}
use dcb_layer.Common.Bytes.{Bytes}
use dcb_layer.Types.{Versionstamp, StoredEvent, ReadOptions}
use dcb_layer.Fdb.{KeyValue, FdbResult, Transaction}
use dcb_layer.Fdb.Laws.{slice, Sees}
use dcb_layer.Query.After.{IsVersionstamp}
use dcb_layer.Store.Reads.{Reads}
use dcb_layer.Read.{key_of, stream_option, single_loop, ordered_stamps}
use dcb_layer.Read.Order.{IsOrdered, IsFirst}
use dcb_layer.Read.Limits.{In-cut, IsOrdered-cut, cut-split, IsFirst-cut}
use dcb_layer.Read.Single.{cut, last_stamp, EndsInStamp, last_stamp-append, single_loop-last_stamp}
use dcb_layer.Read.Ranges.{
  given, reads_single, reads_stream, Yields-keys, stamps, stamps-given, In-stamps, stamps-IsOrdered,
  given-EndsInStamp,
}
use dcb_layer.Read.Merge.{KeyStream}
use dcb_layer.Read.Merge.Invariant.{total, Yields}
use dcb_layer.Read.Merge.Streams.{AllYield, Source, merge_streams-IsFirst}

-- The stamp is the position of an event of the history that has the property.
abbrev pub PositionOf : List StoredEvent → (StoredEvent → Type 0) → Versionstamp → Type 0
PositionOf history P vs = (se : StoredEvent) × In se history × P se × (vs ≡ se.position)

pub IsFirst-map :
    {r : Bool} {limit : ℕ} {P Q : Versionstamp → Type 0} {found : List Versionstamp}
    → ((vs : Versionstamp) → P vs ↔ Q vs)
    → IsFirst r limit P found
    → IsFirst r limit Q found
IsFirst-map same first = record {
  ordered = first.ordered;
  sound = λ vs m. (same vs).0 (first.sound vs m);
  complete = λ vs q. first.complete vs ((same vs).1 q);
  within = first.within;
}

module _ {history : List StoredEvent} {kvs : List KeyValue} {ranges : List (Bytes × Bytes)}
    {P : StoredEvent → Type 0} (reads : Reads history kvs ranges P)
    (stamped : (se : StoredEvent) → In se history → IsVersionstamp se.position) {tr : Transaction}
    (sees : Sees true tr kvs) (opts : ReadOptions) where
  -- The keys of a range share what comes before the stamps, which are the positions of events.
  shared :
      (range : Bytes × Bytes)
      → In range ranges
      → (p : Bytes) × ((kv : KeyValue)
          → In kv (slice range kvs)
          → EndsInStamp kv
            × (kv.key ≡ p ++ 0x33 ∷ last_stamp kv)
            × PositionOf history P (last_stamp kv))
  shared range m =
      let (p, h) = reads.entries range m in
      (
        p,
        λ kv k.
            let (se, n, q, e) = h kv k in
            let (ends, same) = last_stamp-append kv p se.position (stamped se n).length_lem e in
            (ends, e ∙ ap (λ (vs : Versionstamp). p ++ 0x33 ∷ vs) (sym same), (se, n, q, same)),
      )

  range-IsOrdered :
      (range : Bytes × Bytes)
      → In range ranges
      → IsOrdered opts.reverse (stamps opts.reverse kvs range)
  range-IsOrdered range m =
      let (p, h) = shared range m in
      stamps-IsOrdered opts.reverse kvs range p sees.keys_ascend (λ kv k. (h kv k).1)

  range-EndsInStamp :
      (range : Bytes × Bytes) → In range ranges → All EndsInStamp (given opts range kvs)
  range-EndsInStamp range m = given-EndsInStamp opts range kvs (λ kv k. ((shared range m).1 kv k).0)

  -- The stamps of all ranges are the positions of the events that the ranges read.
  Source-PositionOf :
      (vs : Versionstamp)
      → Source (map (stamps opts.reverse kvs) ranges) vs ↔ PositionOf history P vs
  Source-PositionOf vs = (
    λ (vses, n, k).
        let (range, m, e) = In-map_inv (stamps opts.reverse kvs) vses ranges n in
        let (kv, l, s) = (In-stamps opts.reverse kvs range vs).0 (subst (In vs) e k) in
        let (se, i, q, t) = ((shared range m).1 kv l).2 in (se, i, q, s ∙ t),
    λ (se, n, q, e).
        let (range, kv, p, m, k, s) = reads.events se n q in
        let (ends, same) = last_stamp-append kv p se.position (stamped se n).length_lem s in
        (
          stamps opts.reverse kvs range,
          In-map (stamps opts.reverse kvs) range ranges m,
          (In-stamps opts.reverse kvs range vs).1 (kv, k, e ∙ sym same),
        ),
  )

length-cut : (n : ℕ) (l : List Versionstamp) → 0 < n → length (cut n l) ≤ n
length-cut zero l pos = absurd (omega arith)
length-cut (suc n) l pos = go (suc n) l
  where
    go : (k : ℕ) (xs : List Versionstamp) → length (take k xs) ≤ k
    go zero xs = omega arith
    go (suc k) [] = omega arith
    go (suc k) (x ∷ xs) = omega (arith, go k xs)

cut-cut : (n : ℕ) (l : List Versionstamp) → cut n (cut n l) ≡ cut n l
cut-cut zero l = refl
cut-cut (suc n) l = go (suc n) l
  where
    go : (k : ℕ) (xs : List Versionstamp) → take k (take k xs) ≡ take k xs
    go zero xs = refl
    go (suc k) [] = refl
    go (suc k) (x ∷ xs) = ap (◌∷◌ x) (go k xs)

-- One ordered list, cut at the limit.
pub one-IsFirst :
    (r : Bool) (limit : ℕ) (l : List Versionstamp)
    → IsOrdered r l
    → IsFirst r limit (Source (l ∷ [])) (cut limit l)
one-IsFirst r limit l o = record {
  ordered = IsOrdered-cut r limit l o;
  sound = λ vs m. (l, inl refl, In-cut limit l vs m);
  complete = λ vs (l', m, k). elim m [
    | inl e ↦ cut-split r limit l vs o (subst (In vs) e k)
    | inr n ↦ absurd n
  ];
  within = length-cut limit l;
}

-- The streams of a merge of the ranges.
abbrev pub streams_of : Transaction → ReadOptions → List (Bytes × Bytes) → List KeyStream
streams_of tr opts ranges =
    map (λ range. map key_of (tr.get_ranges_keyvalues (stream_option opts range) true)) ranges

module _ {history : List StoredEvent} {kvs : List KeyValue} {P : StoredEvent → Type 0}
    (stamped : (se : StoredEvent) → In se history → IsVersionstamp se.position) {tr : Transaction}
    (sees : Sees true tr kvs) (opts : ReadOptions) where
  AllYield-streams :
      {all : List (Bytes × Bytes)} (reads : Reads history kvs all P) (ranges : List (Bytes × Bytes))
      → Subset ranges all
      → AllYield
          (streams_of tr opts ranges)
          (map (cut opts.limit) (map (stamps opts.reverse kvs) ranges))
  AllYield-streams reads [] s = tt
  AllYield-streams reads (range ∷ ranges) s = (
    rw (reads_stream sees opts range) (
        subst (Yields (map key_of (map ok (given opts range kvs)))) (stamps-given opts range kvs) (
          Yields-keys (given opts range kvs)
            (range-EndsInStamp reads stamped sees opts range (s range (inl refl))))),
    AllYield-streams reads ranges (λ x m. s x (inr m)),
  )

  -- On enough fuel, the stamps of the ranges are the first of the positions of the events they read.
  pub ordered_stamps-IsFirst :
      (ranges : List (Bytes × Bytes))
      → Reads history kvs ranges P
      → (fuel : ℕ) → total (streams_of tr opts ranges) < fuel
      → (found : List Versionstamp) × (ordered_stamps fuel tr opts ranges ≡ some (ok found))
        × IsFirst opts.reverse opts.limit (PositionOf history P) found
  unfolding ordered_stamps
  ordered_stamps-IsFirst [] reads fuel enough = (
    [],
    refl,
    record {
      ordered = tt;
      sound = λ vs m. absurd m;
      complete = λ vs (se, n, q, e). absurd (reads.events se n q).3;
      within = λ pos. omega arith;
    },
  )
  ordered_stamps-IsFirst (range ∷ []) reads fuel enough = (
    cut opts.limit (stamps opts.reverse kvs range),
    ap some (
        ap (λ (l : List (FdbResult KeyValue)). single_loop opts.limit l [])
          (reads_single sees opts range)
        ∙ single_loop-last_stamp opts.limit (given opts range kvs)
            (range-EndsInStamp reads stamped sees opts range (inl refl))
        ∙ ap (λ (l : List Versionstamp). ok (cut opts.limit l)) (stamps-given opts range kvs)
        ∙ ap ok (cut-cut opts.limit (stamps opts.reverse kvs range))),
    IsFirst-map (Source-PositionOf reads stamped sees opts) (
        one-IsFirst opts.reverse opts.limit (stamps opts.reverse kvs range)
          (range-IsOrdered reads stamped sees opts range (inl refl))),
  )
  ordered_stamps-IsFirst (range ∷ range' ∷ ranges) reads fuel enough =
      let all = range ∷ range' ∷ ranges in
      let lists = map (stamps opts.reverse kvs) all in
      let ordered = All-of_In (IsOrdered opts.reverse) lists (λ l m.
        let (x, n, e) = In-map_inv (stamps opts.reverse kvs) l all m in
        subst (IsOrdered opts.reverse) (sym e) (range-IsOrdered reads stamped sees opts x n)) in
      let cuts = All-of_In (IsOrdered opts.reverse) (map (cut opts.limit) lists) (λ l m.
        let (x, n, e) = In-map_inv (cut opts.limit) l lists m in
        subst (IsOrdered opts.reverse) (sym e) (
          IsOrdered-cut opts.reverse opts.limit x
            (All-In (IsOrdered opts.reverse) lists ordered x n))) in
      let (found, run, first) =
        merge_streams-IsFirst opts.reverse opts.limit fuel (streams_of tr opts all)
          (map (cut opts.limit) lists) (AllYield-streams reads all (λ x m. m)) cuts enough in
      (
        found,
        run,
        IsFirst-map (Source-PositionOf reads stamped sees opts)
            (IsFirst-cut opts.reverse opts.limit lists found ordered first),
      )
