-- ===== src/Encoding/Keys/Layout.antt =====
-- How the keys of the index are laid out: the key of an event begins with the prefix of a subspace
-- exactly if that subspace is its own.
use dcb_layer.Common.{
  ℕ, ◌≡◌, refl, sym, ap, ap₂, ◌∙◌, ◌≢◌, inl, inr, List, [], ◌∷◌, ◌++◌, map, append_assoc,
  append-nil, All, All-In, In-append_right, arith,
}
use dcb_layer.Common.Bytes.{Bytes, Text}
use dcb_layer.Tuple.{FdbVs, complete, Element, string, versionstamp, Codec}
use dcb_layer.Tuple.Laws.{CodecLaws, NulFree, NoEscape, be_bytes}
use dcb_layer.Query.Strinc.{StartsWith}
use dcb_layer.Encoding.Keys.{
  indexes_sub, events_in_indexes_sub, tag_sentinel_elems, tag_type_prefix, events_in_tag_prefix,
}

-- No tag is the reserved text.
abbrev pub NoReserved : List Text → Type 0
NoReserved = All (λ t. t ≢ events_in_indexes_sub)

-- The tuple of an index key.
abbrev pub index_elems : Text → List Text → Text → FdbVs → List Element
index_elems namespace tags type_name vs =
    tag_sentinel_elems namespace tags ++ string type_name ∷ versionstamp vs ∷ []

-- The key that the database holds for an index entry.
abbrev pub index_key : Codec → Text → List Text → Text → FdbVs → Bytes
index_key c namespace tags type_name vs = c.pack (index_elems namespace tags type_name vs)

sentinel_append :
    (namespace : Text) (tags : List Text) (xs : List Element)
    → tag_sentinel_elems namespace tags ++ xs
      ≡ string namespace ∷ string indexes_sub ∷ map string tags ++ string events_in_indexes_sub ∷ xs
unfolding tag_sentinel_elems
sentinel_append namespace tags xs =
    ap (λ (k : List Element). string namespace ∷ string indexes_sub ∷ k)
      (append_assoc (map string tags) (string events_in_indexes_sub ∷ []) xs)

-- A text with no NUL is no text continued by one.
not_nul : (s u t : Text) → NulFree t → t ≢ s ++ 0 ∷ u
not_nul s u t free e =
    All-In (λ b. b ≢ 0) t free 0 (rw e (In-append_right 0 s (0 ∷ u) (inl refl))) refl

module _ (c : Codec) (laws : CodecLaws c) where
  pack-cons : (e : Element) (es : List Element) → c.pack (e ∷ es) ≡ c.pack (e ∷ []) ++ c.pack es
  pack-cons e es = laws.pack-append (e ∷ []) es

  pub NoEscape-string : (s : Text) (es : List Element) → NoEscape (c.pack (string s ∷ es))
  NoEscape-string s es =
      let (r, e) = laws.pack-string_code s in rw (pack-cons (string s) es, e) (omega arith)

  pub NoEscape-versionstamp :
      (tx : Bytes) (user : ℕ) (es : List Element)
      → NoEscape (c.pack (versionstamp (complete tx user) ∷ es))
  NoEscape-versionstamp tx user es =
      rw (pack-cons (versionstamp (complete tx user)) es, laws.pack-versionstamp tx user)
        (omega arith)

  -- Of two packed tuples that begin alike the first texts agree, and what follows them.
  string_match :
      (s t : Text) (xs ys : List Element) (rest : Bytes)
      → NulFree t
      → NoEscape (c.pack ys)
      → c.pack (string s ∷ xs) ++ rest ≡ c.pack (string t ∷ ys)
      → (s ≡ t) × (c.pack xs ++ rest ≡ c.pack ys)
  string_match s t xs ys rest free esc h = elim (laws.pack-string_inj s t _ _ esc split) [
    | inl p ↦ p
    | inr (u, e) ↦ absurd (not_nul s u t free e)
  ]
    where
      split : c.pack (string s ∷ []) ++ (c.pack xs ++ rest) ≡ c.pack (string t ∷ []) ++ c.pack ys
      split =
          sym (append_assoc (c.pack (string s ∷ [])) (c.pack xs) rest)
          ∙ ap (λ (k : Bytes). k ++ rest) (sym (pack-cons (string s) xs))
          ∙ h
          ∙ pack-cons (string t) ys

  NoEscape-tags :
      (tags : List Text) (ys : List Element)
      → NoEscape (c.pack (map string tags ++ string events_in_indexes_sub ∷ ys))
  NoEscape-tags [] ys = NoEscape-string _ _
  NoEscape-tags (t ∷ tags) ys = NoEscape-string _ _

  -- Behind the namespace: equal tags, and equal rests behind the separator.
  tags_match :
      (query_tags tags : List Text) (xs ys : List Element) (rest : Bytes)
      → NoReserved query_tags
      → NoReserved tags
      → All NulFree tags
      → NoEscape (c.pack ys)
      → c.pack (map string query_tags ++ string events_in_indexes_sub ∷ xs) ++ rest
        ≡ c.pack (map string tags ++ string events_in_indexes_sub ∷ ys)
      → (query_tags ≡ tags) × (c.pack xs ++ rest ≡ c.pack ys)
  tags_match [] [] xs ys rest nq nt free esc h =
      (refl, (string_match _ _ xs ys rest (omega arith) esc h).1)
  tags_match [] (t ∷ tags) xs ys rest nq nt free esc h =
      absurd (nt.0 (sym (string_match _ t _ _ rest free.0 (NoEscape-tags tags ys) h).0))
  tags_match (q ∷ qs) [] xs ys rest nq nt free esc h =
      absurd (nq.0 (string_match q _ _ _ rest (omega arith) esc h).0)
  tags_match (q ∷ qs) (t ∷ tags) xs ys rest nq nt free esc h =
      let m = string_match q t _ _ rest free.0 (NoEscape-tags tags ys) h in
      let n = tags_match qs tags xs ys rest nq.1 nt.1 free.1 esc m.1 in (ap₂ ◌∷◌ m.0 n.0, n.1)

  -- The same from the namespace on.
  index_match :
      (namespace namespace' : Text) (query_tags tags : List Text) (xs ys : List Element)
      (rest : Bytes)
      → NulFree namespace'
      → NoReserved query_tags
      → NoReserved tags
      → All NulFree tags
      → NoEscape (c.pack ys)
      → c.pack (tag_sentinel_elems namespace query_tags ++ xs) ++ rest
        ≡ c.pack (tag_sentinel_elems namespace' tags ++ ys)
      → (namespace ≡ namespace') × (query_tags ≡ tags) × (c.pack xs ++ rest ≡ c.pack ys)
  index_match namespace namespace' query_tags tags xs ys rest free_ns nq nt free esc h =
      let h' = simp sentinel_append at h in
      let m = string_match _ _ _ _ rest free_ns (NoEscape-string _ _) h' in
      let n = string_match _ _ _ _ rest (omega arith) (NoEscape-tags tags ys) m.1 in
      let r = tags_match query_tags tags xs ys rest nq nt free esc n.1 in (m.0, r.0, r.1)

  -- A key of one subspace of a namespace does not begin as those of another.
  pub other_subspace :
      (namespace front sub : Text) (es : List Element)
      → NulFree namespace
      → NulFree sub
      → front ≢ sub
      → NoEscape (c.pack es)
      → ¬ StartsWith
          (c.pack (string namespace ∷ string front ∷ []))
          (c.pack (string namespace ∷ string sub ∷ es))
  other_subspace namespace front sub es free sub_free other esc (rest, e) =
      let m =
        string_match namespace namespace (string front ∷ []) (string sub ∷ es) rest free
          (NoEscape-string sub es) e in
      other (string_match front sub [] es rest sub_free esc m.1).0

-- What is written of an entry: its texts hold no NUL, and no tag is the reserved one.
pub record IsEntry (namespace : Text) (tags : List Text) (type_name : Text) : Type 0 where
  pub namespace_free : NulFree namespace
  pub tags_free : All NulFree tags
  pub tags_unreserved : NoReserved tags
  pub type_free : NulFree type_name

-- The bytes of a complete stamp.
abbrev pub stamp_bytes : Bytes → ℕ → Bytes
stamp_bytes tx user = 0x33 ∷ tx ++ be_bytes user

module _ (c : Codec) (laws : CodecLaws c) (namespace : Text) (tags : List Text) (type_name : Text)
    (tx : Bytes) (user : ℕ) where
  -- The key of an entry lies in the subspace of its tags and type, the stamp behind the prefix.
  pub tag_type_prefix-append :
      tag_type_prefix c namespace tags type_name ++ stamp_bytes tx user
      ≡ index_key c namespace tags type_name (complete tx user)
  unfolding tag_type_prefix
  tag_type_prefix-append =
      ap (λ (k : Bytes). tag_type_prefix c namespace tags type_name ++ k)
        (sym (laws.pack-versionstamp tx user))
      ∙ sym (laws.pack-append (tag_sentinel_elems namespace tags ++ string type_name ∷ []) _)
      ∙ ap c.pack (append_assoc (tag_sentinel_elems namespace tags) (string type_name ∷ []) _)

  -- It lies in the subspace of its tags.
  pub events_in_tag_prefix-append :
      events_in_tag_prefix c namespace tags
        ++ c.pack (string type_name ∷ versionstamp (complete tx user) ∷ [])
      ≡ index_key c namespace tags type_name (complete tx user)
  unfolding events_in_tag_prefix
  events_in_tag_prefix-append = sym (laws.pack-append (tag_sentinel_elems namespace tags) _)

  module _ (entry : IsEntry namespace tags type_name) (namespace' : Text) (query_tags : List Text)
      (unreserved : NoReserved query_tags) (rest : Bytes) where
    -- For a codec that meets the laws and an entry of texts without NUL and without the reserved
    -- tag: if the prefix of a namespace, of tags without the reserved one and of a type begins the
    -- key of the entry, then the namespace, the tags and the type are the entry's, and the rest of
    -- the key is the stamp.
    pub tag_type_prefix-match :
        (query_type : Text)
        → tag_type_prefix c namespace' query_tags query_type ++ rest
          ≡ index_key c namespace tags type_name (complete tx user)
        → (namespace' ≡ namespace)
          × (query_tags ≡ tags)
          × (query_type ≡ type_name)
          × (rest ≡ stamp_bytes tx user)
    unfolding tag_type_prefix
    tag_type_prefix-match query_type h =
        let m =
          index_match c laws namespace' namespace query_tags tags _ _ rest entry.namespace_free
            unreserved entry.tags_unreserved entry.tags_free (NoEscape-string c laws _ _) h in
        let n =
          string_match c laws query_type type_name [] _ rest entry.type_free
            (NoEscape-versionstamp c laws tx user []) m.2 in
        (
          m.0,
          m.1,
          n.0,
          ap (λ (k : Bytes). k ++ rest) (sym laws.pack-nil) ∙ n.1 ∙ laws.pack-versionstamp tx user,
        )

    -- It lies in no other subspace of tags.
    pub events_in_tag_prefix-match :
        events_in_tag_prefix c namespace' query_tags ++ rest
          ≡ index_key c namespace tags type_name (complete tx user)
        → (namespace' ≡ namespace) × (query_tags ≡ tags)
    unfolding events_in_tag_prefix
    events_in_tag_prefix-match h =
        let m =
          index_match c laws namespace' namespace query_tags tags []
            (string type_name ∷ versionstamp (complete tx user) ∷ []) rest entry.namespace_free
            unreserved entry.tags_unreserved entry.tags_free (NoEscape-string c laws _ _)
            (rw append-nil h) in
        (m.0, m.1)
