-- ===== src/Store/Nul.antt =====
-- The ranges of dcb-layer/src/query.rs and types with a NUL.
use dcb_layer.Common.{◌≡◌, sym, ap, ◌∙◌, true, none, List, [], ◌∷◌, ◌++◌, append_assoc, ok}
use dcb_layer.Common.Bytes.{Bytes, Text, IsBytes}
use dcb_layer.Tuple.{FdbVs, string, versionstamp, Codec}
use dcb_layer.Tuple.Laws.{CodecLaws}
use dcb_layer.Fdb.Laws.{in_range}
use dcb_layer.Encoding.Keys.{tag_type_prefix, tag_sentinel_elems}
use dcb_layer.Encoding.Keys.Layout.{index_key}
use dcb_layer.Query.{range_for}
use dcb_layer.Query.Strinc.{prefix_range_lem}

-- For a codec that meets the laws, where the prefix of a type and the key are of bytes: the range
-- of the type, taken without a position, also holds the index key, under the same tags, of a type
-- that continues it by a NUL.
pub range_for-nul :
    (c : Codec) (laws : CodecLaws c) (namespace : Text) (tags : List Text) (t u : Text) (vs : FdbVs)
    {r : Bytes × Bytes}
    → IsBytes (tag_type_prefix c namespace tags t)
    → IsBytes (index_key c namespace tags (t ++ 0 ∷ u) vs)
    → range_for c none (tag_type_prefix c namespace tags t) ≡ ok r
    → in_range r (index_key c namespace tags (t ++ 0 ∷ u) vs) ≡ true
unfolding range_for tag_type_prefix
range_for-nul c laws namespace tags t u vs hp hk range =
    let front = tag_sentinel_elems namespace tags in
    let v = c.pack (versionstamp vs ∷ []) in
    let (rest, e) = laws.pack-string_nul t u in
    (prefix_range_lem _ _ hp hk range).1 (
      0xFF ∷ rest ++ v,
      ap (λ (k : Bytes). k ++ (0xFF ∷ rest ++ v)) (laws.pack-append front (string t ∷ []))
          ∙ append_assoc (c.pack front) (c.pack (string t ∷ [])) (0xFF ∷ rest ++ v)
          ∙ ap (λ (k : Bytes). c.pack front ++ k)
              (sym (append_assoc (c.pack (string t ∷ [])) (0xFF ∷ rest) v)
                ∙ ap (λ (k : Bytes). k ++ v) (sym e)
                ∙ sym (laws.pack-append (string (t ++ 0 ∷ u) ∷ []) (versionstamp vs ∷ [])))
          ∙ sym (laws.pack-append front (string (t ++ 0 ∷ u) ∷ versionstamp vs ∷ [])),
    )
