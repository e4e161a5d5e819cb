-- ===== src/Append/Keys.antt =====
-- The keys that dcb-layer/src/append.rs writes beside those of the index.
use dcb_layer.Common.{◌≢◌, sym, ◌∙◌, subst, List, [], ◌∷◌, append-nil, arith}
use dcb_layer.Common.Bytes.{Bytes, Text}
use dcb_layer.Types.{Versionstamp}
use dcb_layer.Tuple.{FdbVs, string, Codec}
use dcb_layer.Tuple.Laws.{CodecLaws, NulFree}
use dcb_layer.Encoding.Keys.{
  events_sub, vs_to_fdb, indexes_sub, sentinel_sub, tag_sentinel_elems, pack_event_key,
  pack_sentinel_key, pack_cursor_key, subs_sub, pack_events_prefix,
}
use dcb_layer.Encoding.Keys.Layout.{
  index_key, NoEscape-versionstamp, NoEscape-string, other_subspace,
}
use dcb_layer.Query.Strinc.{StartsWith}

-- The keys of events and the sentinel's are none of the index.
module _ (c : Codec) (laws : CodecLaws c) (namespace : Text) (free : NulFree namespace) where
  abbrev pub IsIndexed : Bytes → Type 0
  IsIndexed key = StartsWith (c.pack (string namespace ∷ string indexes_sub ∷ [])) key

  pub event_key-outside : (vs : Versionstamp) → ¬ IsIndexed (pack_event_key c namespace vs)
  unfolding vs_to_fdb pack_event_key
  event_key-outside vs =
      other_subspace c laws namespace indexes_sub events_sub _ free (omega arith) (ground arith)
        (NoEscape-versionstamp c laws _ _ [])

  pub sentinel-outside : ¬ IsIndexed (pack_sentinel_key c namespace)
  unfolding pack_sentinel_key
  sentinel-outside =
      other_subspace c laws namespace indexes_sub sentinel_sub [] free (omega arith) (ground arith)
        (rw laws.pack-nil tt)

  pub index_key-inside :
      (tags : List Text) (t : Text) (vs : FdbVs) → IsIndexed (index_key c namespace tags t vs)
  unfolding tag_sentinel_elems
  index_key-inside tags t vs =
      (c.pack _, sym (laws.pack-append (string namespace ∷ string indexes_sub ∷ []) _))

  pub event-ne_index :
      (tags : List Text) (t : Text) (v : FdbVs) (vs : Versionstamp)
      → index_key c namespace tags t v ≢ pack_event_key c namespace vs
  event-ne_index tags t v vs e =
      event_key-outside vs (subst IsIndexed e (index_key-inside tags t v))

  pub event-ne_sentinel :
      (vs : Versionstamp) → pack_sentinel_key c namespace ≢ pack_event_key c namespace vs
  unfolding vs_to_fdb pack_event_key pack_sentinel_key
  event-ne_sentinel vs e =
      other_subspace c laws namespace sentinel_sub events_sub _ free (omega arith) (ground arith)
        (NoEscape-versionstamp c laws _ _ []) ([], append-nil _ ∙ e)

  pub cursor-outside : (name : Text) → ¬ IsIndexed (pack_cursor_key c namespace name)
  unfolding pack_cursor_key
  cursor-outside name =
      other_subspace c laws namespace indexes_sub subs_sub _ free (omega arith) (ground arith)
        (NoEscape-string c laws name [])

  pub cursor-ne_event :
      (name : Text) (vs : Versionstamp)
      → pack_cursor_key c namespace name ≢ pack_event_key c namespace vs
  unfolding pack_cursor_key pack_event_key vs_to_fdb
  cursor-ne_event name vs e =
      other_subspace c laws namespace events_sub subs_sub _ free (omega arith) (ground arith)
        (NoEscape-string c laws name [])
        (c.pack _, sym (laws.pack-append (string namespace ∷ string events_sub ∷ []) _) ∙ sym e)

  pub cursor-ne_sentinel :
      (name : Text) → pack_sentinel_key c namespace ≢ pack_cursor_key c namespace name
  unfolding pack_cursor_key pack_sentinel_key
  cursor-ne_sentinel name e =
      other_subspace c laws namespace sentinel_sub subs_sub _ free (omega arith) (ground arith)
        (NoEscape-string c laws name []) ([], append-nil _ ∙ e)

  -- Of what is written only the keys of events lie in the primary subspace.
  abbrev pub IsPrimary : Bytes → Type 0
  IsPrimary key = StartsWith (pack_events_prefix c namespace) key

  pub index_key-outside_events :
      (tags : List Text) (t : Text) (vs : FdbVs) → ¬ IsPrimary (index_key c namespace tags t vs)
  unfolding tag_sentinel_elems pack_events_prefix
  index_key-outside_events [] t vs =
      other_subspace c laws namespace events_sub indexes_sub _ free (omega arith) (ground arith)
        (NoEscape-string c laws _ _)
  index_key-outside_events (x ∷ tags) t vs =
      other_subspace c laws namespace events_sub indexes_sub _ free (omega arith) (ground arith)
        (NoEscape-string c laws _ _)

  pub sentinel-outside_events : ¬ IsPrimary (pack_sentinel_key c namespace)
  unfolding pack_sentinel_key pack_events_prefix
  sentinel-outside_events =
      other_subspace c laws namespace events_sub sentinel_sub [] free (omega arith) (ground arith)
        (rw laws.pack-nil tt)

  pub cursor-outside_events : (name : Text) → ¬ IsPrimary (pack_cursor_key c namespace name)
  unfolding pack_cursor_key pack_events_prefix
  cursor-outside_events name =
      other_subspace c laws namespace events_sub subs_sub _ free (omega arith) (ground arith)
        (NoEscape-string c laws name [])
