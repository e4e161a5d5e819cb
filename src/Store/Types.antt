-- ===== src/Store/Types.antt =====
-- The discovery scan of dcb-layer/src/query.rs over a store that holds a history.
use dcb_layer.Common.{
  ℕ, suc, ◌+◌, ◌-◌, ◌≡◌, refl, sym, ap, ◌∙◌, subst, ◌↔◌, inl, inr, Bool, false, ltb, Option, none,
  some, List, [], ◌∷◌, ◌++◌, map, All, All-append, In, In-map, In-map_inv, length, length-append,
  get_elem?, arith, Result, ok, err,
}
use dcb_layer.Common.Bytes.{Bytes, Text, IsBytes}
use dcb_layer.Types.{Versionstamp, StoredEvent}
use dcb_layer.Tuple.{Element, complete, string, versionstamp, Codec}
use dcb_layer.Tuple.Laws.{CodecLaws, IsPackable, IsComplete}
use dcb_layer.Fdb.{KeyValue, FdbResult, Transaction, range_option}
use dcb_layer.Fdb.Laws.{slice, Sees}
use dcb_layer.Encoding.Keys.{vs_to_fdb, tag_sentinel_elems, events_in_tag_prefix}
use dcb_layer.Common.{◌*◌, take, get_or, append-nil}
use dcb_layer.Common.Bytes.{text}
use dcb_layer.Encoding.Keys.Layout.{
  NoReserved, index_elems, index_key, events_in_tag_prefix-match, events_in_tag_prefix-append,
}
use dcb_layer.Query.{prefix_range, range_for, discover_loop, discover_types_in_tag_subspace}
use dcb_layer.Query.Strinc.{StartsWith, prefix_range_lem}
use dcb_layer.Query.After.{IsVersionstamp}
use dcb_layer.Store.{Found, IndexedUnder, Holds}
use dcb_layer.Store.Range.{IsEntry-of_In, in_index, sentinel-ArePackable, not_ff, range_total}
use dcb_layer.Store.Discover.{In-slice, IsTyped, discover_loop-types}

-- The element before the last of a tuple, where it is a text.
text_of : Option Element → Text
text_of (some (string s)) = s
text_of _ = []

type_at : Result (List Element) Bytes → Text
unfolding text_of
type_at (ok es) = text_of (get_elem? es (length es - 2))
type_at (err e) = []

get_elem?-append :
    (xs : List Element) (a : Element) (ys : List Element)
    → get_elem? (xs ++ a ∷ ys) (length xs) ≡ some a
get_elem?-append [] a ys = refl
get_elem?-append (x ∷ xs) a ys = get_elem?-append xs a ys

ltb-eq : (m n : ℕ) → m ≡ n → ltb m n ≡ false
ltb-eq m n h = ground arith

length-map_string : (tags : List Text) → length (map string tags) ≡ length tags
length-map_string [] = refl
length-map_string (t ∷ tags) = ap suc (length-map_string tags)

two_more : (xs : List Element) (a b : Element) → length (xs ++ a ∷ b ∷ []) - 2 ≡ length xs
two_more xs a b = omega (arith, length-append xs (a ∷ b ∷ []))

length-sentinel :
    (namespace : Text) (tags : List Text)
    → length (tag_sentinel_elems namespace tags) ≡ length tags + 3
unfolding tag_sentinel_elems
length-sentinel namespace tags =
    omega (arith, length-append (map string tags) (string (text "_") ∷ []), length-map_string tags)

module _ (namespace : Text) (tags : List Text) (t : Text) (tx : Bytes) (user : ℕ) where
  index_elems-length : length (index_elems namespace tags t (complete tx user)) ≡ length tags + 5
  index_elems-length = omega (
    arith,
    length-append (tag_sentinel_elems namespace tags)
        (string t ∷ versionstamp (complete tx user) ∷ []),
    length-sentinel namespace tags,
  )

  index_elems-type :
      get_elem?
        (index_elems namespace tags t (complete tx user))
        (length (index_elems namespace tags t (complete tx user)) - 2)
      ≡ some (string t)
  index_elems-type =
      ap (λ (k : ℕ). get_elem? (index_elems namespace tags t (complete tx user)) k)
        (two_more (tag_sentinel_elems namespace tags) (string t) (versionstamp (complete tx user)))
      ∙ get_elem?-append (tag_sentinel_elems namespace tags) (string t) _

type_of : Codec → KeyValue → Text
unfolding type_at
type_of c kv = type_at (c.unpack kv.key)

pub vs_to_fdb-IsComplete : (vs : Versionstamp) → IsVersionstamp vs → IsComplete (vs_to_fdb vs)
unfolding vs_to_fdb
vs_to_fdb-IsComplete (a ∷ b ∷ c ∷ d ∷ e ∷ f ∷ g ∷ h ∷ i ∷ j ∷ k ∷ l ∷ []) v =
    (refl, omega (arith, v.bytes_lem), omega (arith, v.bytes_lem))
vs_to_fdb-IsComplete _ v = absurd (omega (arith, v.length_lem))

pub index_elems-ArePackable :
    (namespace : Text) (tags : List Text) (t : Text) (vs : Versionstamp)
    → IsBytes namespace
    → All IsBytes tags
    → IsBytes t
    → IsVersionstamp vs
    → All IsPackable (index_elems namespace tags t (vs_to_fdb vs))
index_elems-ArePackable namespace tags t vs hn hs ht hv =
    All-append _ _ (string t ∷ versionstamp (vs_to_fdb vs) ∷ [])
      (sentinel-ArePackable namespace hn tags hs) (ht, (vs_to_fdb-IsComplete vs hv, tt))

module _ (c : Codec) (laws : CodecLaws c) {namespace : Text} {history : List StoredEvent}
    {kvs : List KeyValue} (holds : Holds c namespace history kvs) (tags : List Text)
    (tags_bytes : All IsBytes tags) (unreserved : NoReserved tags) {range : Bytes × Bytes}
    (range_lem : prefix_range (events_in_tag_prefix c namespace tags) ≡ ok range) where
  -- The pairs of the range are the entries under exactly these tags.
  entry_of_slice :
      (kv : KeyValue)
      → In kv (slice range kvs)
      → (se : StoredEvent) × In se history
        × IndexedUnder tags se.event
        × (kv.key ≡ index_key c namespace tags se.event.type_name (vs_to_fdb se.position))
  unfolding events_in_tag_prefix vs_to_fdb
  entry_of_slice kv m =
      let (n, w) = (In-slice range kv kvs).0 m in
      let p_bytes =
        laws.pack-IsBytes _
          (sentinel-ArePackable namespace holds.namespace_bytes tags tags_bytes) in
      let (rest, e) = (prefix_range_lem _ kv.key p_bytes (holds.key_bytes kv n) range_lem).0 w in
      let (se, subset, k, i, q) = holds.sound kv n (
        in_index c laws holds tags [] kv.key (
          rest,
          ap (λ (x : List Element). c.pack x ++ rest)
                (append-nil (tag_sentinel_elems namespace tags))
              ∙ e,
        )) in
      let same =
        (events_in_tag_prefix-match c laws namespace subset se.event.type_name (take 10 se.position)
          (get_or se.position 10 0 * 256 + get_or se.position 11 0)
          (IsEntry-of_In c laws holds se subset k i) namespace tags unreserved rest (e ∙ q)).1 in
      (
        se,
        k,
        subst (λ (x : List Text). IndexedUnder x se.event) (sym same) i,
        q
            ∙ ap
                (λ (x : List Text).
                  index_key c namespace x se.event.type_name (vs_to_fdb se.position))
                (sym same),
      )

  range_has_entry :
      (se : StoredEvent)
      → In se history
      → IndexedUnder tags se.event
      → (kv : KeyValue) × In kv (slice range kvs)
        × (kv.key ≡ index_key c namespace tags se.event.type_name (vs_to_fdb se.position))
  unfolding events_in_tag_prefix vs_to_fdb
  range_has_entry se m i =
      let (kv, n, k) = holds.complete se tags m i in
      let p_bytes =
        laws.pack-IsBytes _
          (sentinel-ArePackable namespace holds.namespace_bytes tags tags_bytes) in
      let starts : StartsWith (events_in_tag_prefix c namespace tags) kv.key = (
        c.pack (string se.event.type_name ∷ versionstamp (vs_to_fdb se.position) ∷ []),
        events_in_tag_prefix-append c laws namespace tags se.event.type_name (take 10 se.position)
              (get_or se.position 10 0 * 256 + get_or se.position 11 0)
            ∙ sym k,
      ) in
      (
        kv,
        (In-slice range kv kvs).1
            (n, (prefix_range_lem _ kv.key p_bytes (holds.key_bytes kv n) range_lem).1 starts),
        k,
      )

  unpack-entry :
      (kv : KeyValue) (se : StoredEvent)
      → In se history
      → IndexedUnder tags se.event
      → kv.key ≡ index_key c namespace tags se.event.type_name (vs_to_fdb se.position)
      → c.unpack kv.key ≡ ok (index_elems namespace tags se.event.type_name (vs_to_fdb se.position))
  unfolding vs_to_fdb
  unpack-entry kv se m i k =
      let s = holds.storable se m in
      ap c.unpack k
      ∙ laws.unpack-pack _ (
          index_elems-ArePackable namespace tags se.event.type_name se.position
            holds.namespace_bytes tags_bytes s.type_bytes s.stamped)

  type_of-entry :
      (kv : KeyValue) (se : StoredEvent)
      → In se history
      → IndexedUnder tags se.event
      → kv.key ≡ index_key c namespace tags se.event.type_name (vs_to_fdb se.position)
      → type_of c kv ≡ se.event.type_name
  unfolding type_of type_at text_of vs_to_fdb
  type_of-entry kv se m i k =
      ap type_at (unpack-entry kv se m i k)
      ∙ ap text_of (
          index_elems-type namespace tags se.event.type_name (take 10 se.position)
            (get_or se.position 10 0 * 256 + get_or se.position 11 0))

  -- The scan of a slice.
  abbrev IsFound : Text → Type 0
  IsFound t = Found (λ e. (e.type_name ≡ t) × IndexedUnder tags e) history none

  In-types : (t : Text) → In t (map (type_of c) (slice range kvs)) ↔ IsFound t
  In-types t = (
    λ m.
        let (kv, n, e) = In-map_inv (type_of c) t (slice range kvs) m in
        let (se, k, i, q) = entry_of_slice kv n in
        (se, k, (sym (type_of-entry kv se k i q) ∙ sym e, i), tt),
    λ (se, k, (e, i), a).
        let (kv, n, q) = range_has_entry se k i in
        subst (λ (x : Text). In x (map (type_of c) (slice range kvs)))
          (type_of-entry kv se k i q ∙ e) (In-map (type_of c) kv (slice range kvs) n),
  )

  slice-IsTyped :
      (kv : KeyValue) → In kv (slice range kvs) → IsTyped c (length tags + 5) (type_of c) kv
  unfolding vs_to_fdb
  slice-IsTyped kv m =
      let (se, k, i, q) = entry_of_slice kv m in
      let tx = take 10 se.position in
      let user = get_or se.position 10 0 * 256 + get_or se.position 11 0 in
      (
        index_elems namespace tags se.event.type_name (vs_to_fdb se.position),
        unpack-entry kv se k i q,
        ltb-eq _ _ (index_elems-length namespace tags se.event.type_name tx user),
        index_elems-type namespace tags se.event.type_name tx user
            ∙ ap (λ (x : Text). some (string x)) (sym (type_of-entry kv se k i q)),
      )

module _ (c : Codec) (laws : CodecLaws c) {namespace : Text} {history : List StoredEvent}
    {kvs : List KeyValue} (holds : Holds c namespace history kvs) (tr : Transaction)
    (snapshot : Bool) (sees : Sees snapshot tr kvs) (tags : List Text)
    (tags_bytes : All IsBytes tags) (unreserved : NoReserved tags) where
  prefix_range_total :
      (range : Bytes × Bytes) × (prefix_range (events_in_tag_prefix c namespace tags) ≡ ok range)
  unfolding events_in_tag_prefix tag_sentinel_elems range_for
  prefix_range_total =
      range_total c laws (events_in_tag_prefix c namespace tags)
        (laws.pack-IsBytes _ (sentinel-ArePackable namespace holds.namespace_bytes tags tags_bytes))
        none (not_ff c laws namespace _)

  -- For a codec that meets the laws, a store that holds a history, a transaction whose reads,
  -- snapshots or not, see its pairs, and tags of bytes without the reserved one, the discovery scan
  -- succeeds, and a type is in its result exactly if an event of the history has the type and is
  -- indexed under exactly these tags.
  pub discover_types-Found :
      (types : List Text) × (discover_types_in_tag_subspace c tr namespace tags snapshot ≡ ok types)
      × ((t : Text)
          → In t types ↔ Found (λ e. (e.type_name ≡ t) × IndexedUnder tags e) history none)
  unfolding discover_types_in_tag_subspace range_option
  discover_types-Found =
      let (range, r) = prefix_range_total in
      let (types, run, exact) =
        discover_loop-types c (length tags + 5) (type_of c) (slice range kvs) ([], [])
          (λ x. (λ m. m, λ m. m)) (slice-IsTyped c laws holds tags tags_bytes unreserved r) in
      (
        types,
        rw r (
            ap (λ (l : List (FdbResult KeyValue)). discover_loop c (length tags + 5) l ([], []))
              (sees.range_lem (range_option range))
            ∙ run),
        λ t.
            let found = In-types c laws holds tags tags_bytes unreserved r t in
            let step = exact t in
            (
              λ m. elim (step.0 m) [ inl k ↦ absurd k | inr k ↦ found.0 k ],
              λ h. step.1 (inr (found.1 h)),
            ),
      )
