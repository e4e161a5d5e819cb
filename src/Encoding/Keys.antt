-- ===== src/Encoding/Keys.antt =====
-- The keys of dcb-layer/src/encoding.rs and the prefix builders of dcb-layer/src/query.rs.
pub mod Layout
use dcb_layer.Common.{ℕ, ◌+◌, ◌*◌, List, [], ◌∷◌, ◌++◌, map, take, get_or}
use dcb_layer.Common.Bytes.{Bytes, Text, text}
use dcb_layer.Types.{Versionstamp}
use dcb_layer.Tuple.{FdbVs, complete, Element, string, versionstamp, Codec}

abbrev pub events_sub : Text
events_sub = text "e"

abbrev pub indexes_sub : Text
indexes_sub = text "i"

abbrev pub events_in_indexes_sub : Text
events_in_indexes_sub = text "_"

abbrev pub sentinel_sub : Text
sentinel_sub = text "lastvs"

abbrev pub subs_sub : Text
subs_sub = text "subs"

-- `u16::from_be_bytes([vs[10], vs[11]])` is the batch index.
unfoldable pub vs_to_fdb : Versionstamp → FdbVs
vs_to_fdb vs = complete (take 10 vs) (get_or vs 10 0 * 256 + get_or vs 11 0)

-- The elements of `[ns, "i", tag1..tagN, "_"]`.
unfoldable pub tag_sentinel_elems : Text → List Text → List Element
tag_sentinel_elems namespace sorted_tags =
    string namespace ∷ string indexes_sub ∷ map string sorted_tags
    ++ string events_in_indexes_sub ∷ []

module _ (c : Codec) where
  unfoldable pub versionstamp_to_hex : Versionstamp → Text
  versionstamp_to_hex vs = c.hex_encode vs

  unfoldable pub pack_sentinel_key : Text → Bytes
  pack_sentinel_key namespace = c.pack (string namespace ∷ string sentinel_sub ∷ [])

  unfoldable pub pack_cursor_key : Text → Text → Bytes
  pack_cursor_key namespace name = c.pack (string namespace ∷ string subs_sub ∷ string name ∷ [])

  unfoldable pub pack_events_prefix : Text → Bytes
  pack_events_prefix namespace = c.pack (string namespace ∷ string events_sub ∷ [])

  unfoldable pub pack_event_key : Text → Versionstamp → Bytes
  pack_event_key namespace vs =
      c.pack (string namespace ∷ string events_sub ∷ versionstamp (vs_to_fdb vs) ∷ [])

  unfoldable pub pack_event_key_fdb : Text → FdbVs → Bytes
  pack_event_key_fdb namespace fdb_vs =
      c.pack_with_versionstamp (string namespace ∷ string events_sub ∷ versionstamp fdb_vs ∷ [])

  unfoldable pub pack_tag_index_key_fdb : Text → List Text → Text → FdbVs → Bytes
  pack_tag_index_key_fdb namespace sorted_tags type_name fdb_vs = c.pack_with_versionstamp (
      string namespace ∷ string indexes_sub ∷ map string sorted_tags
      ++ string events_in_indexes_sub ∷ string type_name ∷ versionstamp fdb_vs ∷ [])

  unfoldable pub tag_type_prefix : Text → List Text → Text → Bytes
  tag_type_prefix namespace sorted_tags type_name =
      c.pack (tag_sentinel_elems namespace sorted_tags ++ string type_name ∷ [])

  unfoldable pub events_in_tag_prefix : Text → List Text → Bytes
  events_in_tag_prefix namespace sorted_tags = c.pack (tag_sentinel_elems namespace sorted_tags)
