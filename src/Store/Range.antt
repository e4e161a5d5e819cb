-- ===== src/Store/Range.antt =====
-- One range of a query reads exactly the events that it is meant for.
use dcb_layer.Common.{
  ◌+◌, ◌*◌, ◌≡◌, refl, sym, ap, ap₂, ◌∙◌, subst, ◌↔◌, inl, inr, true, Option, none, some, List, [],
  ◌∷◌, ◌++◌, map, append_assoc, All, All-In, All-of_In, All-append, In, take, get_or, arith, ok,
  Result-cases,
}
use dcb_layer.Common.Bytes.{Bytes, Text, IsBytes}
use dcb_layer.Types.{Versionstamp, StoredEvent}
use dcb_layer.Tuple.{Element, string, versionstamp, Codec}
use dcb_layer.Tuple.Laws.{CodecLaws, IsPackable}
use dcb_layer.Fdb.{KeyValue}
use dcb_layer.Fdb.Laws.{in_range}
use dcb_layer.Encoding.Tags.Subsets.{In-generate-Subset}
use dcb_layer.Encoding.Keys.{
  indexes_sub, events_in_indexes_sub, vs_to_fdb, tag_sentinel_elems, tag_type_prefix,
}
use dcb_layer.Encoding.Keys.Layout.{
  NoReserved, IsEntry, index_key, tag_type_prefix-append, tag_type_prefix-match,
}
use dcb_layer.Query.{range_for, strinc}
use dcb_layer.Query.Strinc.{StartsWith, prefix_range_lem, strinc-eq_err_iff}
use dcb_layer.Query.After.{IsVersionstamp, vs_to_fdb-bytes, after_range_lem, after_range-StartsWith}
use dcb_layer.Store.{IsAfter, Found, IndexedUnder, Holds}

-- The position is a versionstamp, if one is given.
abbrev pub IsPosition : Option Versionstamp → Type 0
IsPosition none = Unit
IsPosition (some vs) = IsVersionstamp vs

module _ (c : Codec) (laws : CodecLaws c) (p : Bytes) (p_bytes : IsBytes p) where
  in_range-StartsWith :
      (after : Option Versionstamp) (k : Bytes) {r : Bytes × Bytes}
      → IsPosition after
      → IsBytes k
      → range_for c after p ≡ ok r
      → in_range r k ≡ true
      → StartsWith p k
  unfolding range_for
  in_range-StartsWith none k pos hk range m = (prefix_range_lem p k p_bytes hk range).0 m
  in_range-StartsWith (some vs) k pos hk range m =
      after_range-StartsWith c laws p p_bytes vs pos k hk range m

  in_range-stamp :
      (after : Option Versionstamp) (vs : Versionstamp) {r : Bytes × Bytes}
      → IsPosition after
      → IsVersionstamp vs
      → range_for c after p ≡ ok r
      → (in_range r (p ++ 0x33 ∷ vs) ≡ true) ↔ IsAfter after vs
  unfolding range_for
  in_range-stamp none vs pos hv range = (
    λ _. tt,
    λ _.
        (prefix_range_lem p (p ++ 0x33 ∷ vs) p_bytes
            (All-append _ p (0x33 ∷ vs) p_bytes (omega arith, hv.bytes_lem)) range).1
          (0x33 ∷ vs, refl),
  )
  in_range-stamp (some after) vs pos hv range =
      after_range_lem c laws p p_bytes after pos vs hv range

  -- A prefix that does not consist of 0xFF bytes has a range.
  pub range_total :
      (after : Option Versionstamp)
      → ¬ All (λ b. b ≡ 0xFF) p
      → (r : Bytes × Bytes) × (range_for c after p ≡ ok r)
  unfolding range_for
  range_total after h = elim (Result-cases (strinc p)) [
    | inl (end, e) ↦ bounded after end e
    | inr (e, q) ↦ absurd (h ((strinc-eq_err_iff p e).0 q).0)
  ]
    where
      bounded :
          (after : Option Versionstamp) (end : Bytes)
          → strinc p ≡ ok end
          → (r : Bytes × Bytes) × (range_for c after p ≡ ok r)
      bounded none end e = ((p, end), rw e refl)
      bounded (some vs) end e =
          (((p ++ c.pack (versionstamp (vs_to_fdb vs) ∷ [])) ++ 0x00 ∷ [], end), rw e refl)

module _ (namespace : Text) (namespace_bytes : IsBytes namespace) (tags : List Text)
    (tags_bytes : All IsBytes tags) where
  strings-ArePackable : All IsPackable (map string tags)
  strings-ArePackable = go tags tags_bytes
    where
      go : (ts : List Text) → All IsBytes ts → All IsPackable (map string ts)
      go [] h = tt
      go (t ∷ ts) h = (h.0, go ts h.1)

  pub sentinel-ArePackable : All IsPackable (tag_sentinel_elems namespace tags)
  unfolding tag_sentinel_elems
  sentinel-ArePackable = (
    namespace_bytes,
    (
      omega arith,
      All-append _ (map string tags) (string events_in_indexes_sub ∷ []) strings-ArePackable
          (omega arith),
    ),
  )

  module _ (c : Codec) (laws : CodecLaws c) where
    pub tag_type_prefix-IsBytes :
        (t : Text) → IsBytes t → IsBytes (tag_type_prefix c namespace tags t)
    unfolding tag_type_prefix
    tag_type_prefix-IsBytes t ht =
        laws.pack-IsBytes _ (All-append _ _ (string t ∷ []) sentinel-ArePackable (ht, tt))

-- What is packed behind a namespace begins with the code of a text.
pub not_ff :
    (c : Codec)
    → CodecLaws c
    → (namespace : Text) (es : List Element)
    → ¬ All (λ b. b ≡ 0xFF) (c.pack (string namespace ∷ es))
not_ff c laws namespace es h =
    let (r, e) = laws.pack-string_code namespace in
    let k : c.pack (string namespace ∷ es) ≡ 0x02 ∷ (r ++ c.pack es) =
      laws.pack-append (string namespace ∷ []) es ∙ ap (λ (x : Bytes). x ++ c.pack es) e in
    let first : All (λ b. b ≡ 0xFF) (0x02 ∷ (r ++ c.pack es)) = rw k at h in absurd (omega arith)

-- The key of an entry is the prefix of its subspace, the code of a stamp, and the position.
index_key-position :
    (c : Codec) (laws : CodecLaws c) (namespace : Text) (tags : List Text) (t : Text)
    (vs : Versionstamp)
    → IsVersionstamp vs
    → index_key c namespace tags t (vs_to_fdb vs) ≡ tag_type_prefix c namespace tags t ++ 0x33 ∷ vs
unfolding vs_to_fdb
index_key-position c laws namespace tags t vs hv =
    let user = get_or vs 10 0 * 256 + get_or vs 11 0 in
    sym (tag_type_prefix-append c laws namespace tags t (take 10 vs) user)
    ∙ ap (λ (k : Bytes). tag_type_prefix c namespace tags t ++ 0x33 ∷ k) (vs_to_fdb-bytes vs hv)

module _ (c : Codec) (laws : CodecLaws c) {namespace : Text} {history : List StoredEvent}
    {kvs : List KeyValue} (holds : Holds c namespace history kvs) where
  -- The texts of an entry of the history.
  pub IsEntry-of_In :
      (se : StoredEvent) (subset : List Text)
      → In se history
      → IndexedUnder subset se.event
      → IsEntry namespace subset se.event.type_name
  IsEntry-of_In se subset m i =
      let s = holds.storable se m in
      let within = In-generate-Subset se.event.tags subset s.tags_few i in
      record {
        namespace_free = holds.namespace_free;
        tags_free = All-of_In _ subset (λ t k. All-In _ se.event.tags s.tags_free t (within t k));
        tags_unreserved =
            All-of_In _ subset (λ t k. All-In _ se.event.tags s.tags_unreserved t (within t k));
        type_free = s.type_free;
      }

  -- The keys under a prefix of the index are entries.
  pub in_index :
      (tags : List Text) (es : List Element) (k : Bytes)
      → StartsWith (c.pack (tag_sentinel_elems namespace tags ++ es)) k
      → StartsWith (c.pack (string namespace ∷ string indexes_sub ∷ [])) k
  unfolding tag_sentinel_elems
  in_index tags es k (rest, e) =
      let front = string namespace ∷ string indexes_sub ∷ [] in
      let back = (map string tags ++ string events_in_indexes_sub ∷ []) ++ es in
      (
        c.pack back ++ rest,
        sym (append_assoc (c.pack front) (c.pack back) rest)
            ∙ ap (λ (x : Bytes). x ++ rest) (sym (laws.pack-append front back))
            ∙ e,
      )

  -- An entry whose key begins with the prefix of a subspace belongs there.
  subspace_of :
      (se : StoredEvent) (subset tags : List Text) (t : Text) (rest : Bytes)
      → In se history
      → IndexedUnder subset se.event
      → NoReserved tags
      → tag_type_prefix c namespace tags t ++ rest
        ≡ index_key c namespace subset se.event.type_name (vs_to_fdb se.position)
      → (tags ≡ subset) × (t ≡ se.event.type_name)
  unfolding vs_to_fdb
  subspace_of se subset tags t rest m i unreserved e =
      let vs = se.position in
      let found =
        tag_type_prefix-match c laws namespace subset se.event.type_name (take 10 vs)
          (get_or vs 10 0 * 256 + get_or vs 11 0) (IsEntry-of_In se subset m i) namespace tags
          unreserved rest t e in
      (found.1, found.2)

  module _ (tags : List Text) (tags_bytes : All IsBytes tags) (unreserved : NoReserved tags)
      (t : Text) (t_bytes : IsBytes t) (after : Option Versionstamp) (position : IsPosition after)
      {r : Bytes × Bytes}
      (range : range_for c after (tag_type_prefix c namespace tags t) ≡ ok r) where
    -- The pairs of the range are those of the events that it is meant for.
    pub entry_of_range :
        (kv : KeyValue)
        → In kv kvs
        → in_range r kv.key ≡ true
        → (se : StoredEvent) × In se history
          × ((se.event.type_name ≡ t) × IndexedUnder tags se.event)
          × IsAfter after se.position
          × (kv.key ≡ tag_type_prefix c namespace tags t ++ 0x33 ∷ se.position)
    unfolding tag_type_prefix
    entry_of_range kv m i =
        let p_bytes =
          tag_type_prefix-IsBytes namespace holds.namespace_bytes tags tags_bytes c laws t
            t_bytes in
        let (rest, e) =
          in_range-StartsWith c laws _ p_bytes after kv.key position (holds.key_bytes kv m) range
            i in
        let (se, subset, n, u, k) =
          holds.sound kv m (in_index tags (string t ∷ []) kv.key (rest, e)) in
        let (same_tags, same_type) = subspace_of se subset tags t rest n u unreserved (e ∙ k) in
        let hv = (holds.storable se n).stamped in
        let key : kv.key ≡ tag_type_prefix c namespace tags t ++ 0x33 ∷ se.position =
          k
          ∙ index_key-position c laws namespace subset se.event.type_name se.position hv
          ∙ ap₂
              (λ (x : List Text) (y : Text). tag_type_prefix c namespace x y ++ 0x33 ∷ se.position)
              (sym same_tags) (sym same_type) in
        (
          se,
          n,
          (sym same_type, subst (λ (x : List Text). IndexedUnder x se.event) (sym same_tags) u),
          (in_range-stamp c laws _ p_bytes after se.position position hv range).0
              (subst (λ (x : Bytes). in_range r x ≡ true) key i),
          key,
        )

    pub range_entry :
        (se : StoredEvent)
        → In se history
        → se.event.type_name ≡ t
        → IndexedUnder tags se.event
        → IsAfter after se.position
        → (kv : KeyValue) × In kv kvs
          × (in_range r kv.key ≡ true)
          × (kv.key ≡ tag_type_prefix c namespace tags t ++ 0x33 ∷ se.position)
    range_entry se m e i a =
        let (kv, n, k) = holds.complete se tags m i in
        let hv = (holds.storable se m).stamped in
        let p_bytes =
          tag_type_prefix-IsBytes namespace holds.namespace_bytes tags tags_bytes c laws t
            t_bytes in
        let key : kv.key ≡ tag_type_prefix c namespace tags t ++ 0x33 ∷ se.position =
          k
          ∙ index_key-position c laws namespace tags se.event.type_name se.position hv
          ∙ ap (λ (x : Text). tag_type_prefix c namespace tags x ++ 0x33 ∷ se.position) e in
        (
          kv,
          n,
          rw key ((in_range-stamp c laws _ p_bytes after se.position position hv range).1 a),
          key,
        )

    -- For a codec that meets the laws, a store that holds a history, and tags and a type of bytes
    -- without the reserved tag: every pair of the store in the range of these tags and this type,
    -- after a position of 12 bytes if one is given, is that of an event of this type that is
    -- indexed under these tags and lies after the position.
    pub Found-of_range :
        (kv : KeyValue)
        → In kv kvs
        → in_range r kv.key ≡ true
        → Found (λ e. (e.type_name ≡ t) × IndexedUnder tags e) history after
    Found-of_range kv m i = let (se, n, p, a, k) = entry_of_range kv m i in (se, n, p, a)

    -- For a codec that meets the laws, a store that holds a history, and tags and a type of bytes
    -- without the reserved tag: if some event of this type is indexed under these tags and lies
    -- after the position of 12 bytes, if one is given, then the range of the tags and the type,
    -- after the position, holds a pair of the store.
    pub range_of_Found :
        Found (λ e. (e.type_name ≡ t) × IndexedUnder tags e) history after
        → (kv : KeyValue) × In kv kvs × (in_range r kv.key ≡ true)
    range_of_Found (se, m, (e, i), a) = let (kv, n, w, k) = range_entry se m e i a in (kv, n, w)
