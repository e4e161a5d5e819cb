-- ===== src/Append/Writes.antt =====
-- The pairs that the commit makes of the writes of one event in dcb-layer/src/append.rs.
use dcb_layer.Common.{
  ℕ, ◌<◌, ◌≡◌, refl, sym, ap, ap₂, ◌∙◌, inl, inr, List, [], ◌∷◌, ◌++◌, map, append_assoc, All,
  All-In, All-of_In, All-append, In, length, arith,
}
use dcb_layer.Common.Bytes.{Bytes, Text, IsBytes}
use dcb_layer.Types.{Event}
use dcb_layer.Tuple.{FdbVs, complete, incomplete, Element, string, versionstamp, Codec}
use dcb_layer.Tuple.Laws.{CodecLaws, IsPackable}
use dcb_layer.Fdb.{KeyValue, Mutation, set, set_versionstamped_key, set_versionstamped_value}
use dcb_layer.Encoding.Tags.{sort_tags, generate_superset_presorted}
use dcb_layer.Encoding.Tags.Subsets.{In-generate-Subset}
use dcb_layer.Encoding.Keys.{
  events_sub, indexes_sub, events_in_indexes_sub, pack_event_key_fdb, pack_tag_index_key_fdb,
  tag_sentinel_elems,
}
use dcb_layer.Encoding.Keys.Layout.{index_key}
use dcb_layer.Encoding.Values.{encode_event_value}
use dcb_layer.Store.Range.{sentinel-ArePackable}
use dcb_layer.Append.{append_single}

-- What a commit at a version stores for a write.
abbrev pub committed : Codec → Bytes → Mutation → KeyValue
committed c tx (set_versionstamped_key key value) = record { key = c.stamp tx key; value = value }
committed c tx (set_versionstamped_value key value) = record { key = key; value = c.stamp tx value }
committed c tx (set key value) = record { key = key; value = value }

module _ (c : Codec) (laws : CodecLaws c) (namespace : Text) (namespace_bytes : IsBytes namespace)
    (tx : Bytes) (user : ℕ) where
  stamp-event_key :
      c.stamp tx (pack_event_key_fdb c namespace (incomplete user))
      ≡ c.pack (string namespace ∷ string events_sub ∷ versionstamp (complete tx user) ∷ [])
  unfolding pack_event_key_fdb
  stamp-event_key =
      laws.stamp-pack tx (string namespace ∷ string events_sub ∷ []) user
        (namespace_bytes, (omega arith, tt))

  stamp-index_key :
      (tags : List Text) (t : Text)
      → All IsBytes tags
      → IsBytes t
      → c.stamp tx (pack_tag_index_key_fdb c namespace tags t (incomplete user))
        ≡ index_key c namespace tags t (complete tx user)
  unfolding pack_tag_index_key_fdb tag_sentinel_elems
  stamp-index_key tags t hs ht =
      ap (λ (k : List Element). c.stamp tx (c.pack_with_versionstamp k)) (split (incomplete user))
      ∙ laws.stamp-pack tx (tag_sentinel_elems namespace tags ++ string t ∷ []) user (
          All-append IsPackable (tag_sentinel_elems namespace tags) (string t ∷ [])
            (sentinel-ArePackable namespace namespace_bytes tags hs) (ht, tt))
      ∙ ap c.pack (
          append_assoc (tag_sentinel_elems namespace tags) (string t ∷ [])
            (versionstamp (complete tx user) ∷ []))
    where
      split :
          (vs : FdbVs)
          → string namespace ∷ string indexes_sub ∷ map string tags
              ++ string events_in_indexes_sub ∷ string t ∷ versionstamp vs ∷ []
            ≡ (tag_sentinel_elems namespace tags ++ string t ∷ []) ++ versionstamp vs ∷ []
      split vs =
          ap (λ (k : List Element). string namespace ∷ string indexes_sub ∷ k)
            (sym (
              append_assoc (map string tags ++ string events_in_indexes_sub ∷ []) (string t ∷ [])
                (versionstamp vs ∷ [])
              ∙ append_assoc (map string tags) (string events_in_indexes_sub ∷ [])
                  (string t ∷ versionstamp vs ∷ [])))

  -- For a codec that meets the laws, a namespace and an event with a type and tags of bytes, fewer
  -- than 64 of them distinct: what a commit at a version stores of the writes of the event at a
  -- place of its batch is its encoded value, at the key of the position made of the version and the
  -- place, followed by an index key with no value for every subset of its sorted tags, in the order
  -- of the subsets.
  pub append_single-committed :
      (event : Event)
      → IsBytes event.type_name
      → All IsBytes event.tags
      → length (sort_tags event.tags) < 64
      → map (committed c tx) (append_single c namespace event user)
        ≡ record {
          key =
              c.pack (string namespace ∷ string events_sub ∷ versionstamp (complete tx user) ∷ []);
          value = encode_event_value c event;
        }
          ∷ map
              (λ subset. record {
                key = index_key c namespace subset event.type_name (complete tx user);
                value = [];
              })
              (generate_superset_presorted (sort_tags event.tags))
  unfolding append_single
  append_single-committed event ht hs few =
      ap₂ ◌∷◌
        (ap (λ (k : Bytes). record { key = k; value = encode_event_value c event }) stamp-event_key)
        (go (generate_superset_presorted (sort_tags event.tags)) (λ subset m.
          All-of_In IsBytes subset (λ t k.
            All-In IsBytes event.tags hs t (In-generate-Subset event.tags subset few m t k))))
    where
      go :
          (subsets : List (List Text))
          → ((subset : List Text) → In subset subsets → All IsBytes subset)
          → map (committed c tx) (
              map
                (λ subset.
                  set_versionstamped_key
                    (pack_tag_index_key_fdb c namespace subset event.type_name (incomplete user))
                    [])
                subsets)
            ≡ map
                (λ subset. record {
                  key = index_key c namespace subset event.type_name (complete tx user);
                  value = [];
                })
                subsets
      go [] h = refl
      go (subset ∷ subsets) h =
          ap₂ ◌∷◌
            (ap (λ (k : Bytes). record { key = k; value = [] })
              (stamp-index_key subset event.type_name (h subset (inl refl)) ht))
            (go subsets (λ s m. h s (inr m)))
