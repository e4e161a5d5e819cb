-- ===== src/Encoding/Values.antt =====
-- `encode_event_value` and `decode_event_value` of dcb-layer/src/encoding.rs.
pub mod RoundTrip
use dcb_layer.Common.{List, [], ◌∷◌, map, length, Result, ok, err, ◌>>=◌, map_err, collect}
use dcb_layer.Common.Bytes.{Bytes, Text}
use dcb_layer.Types.{Event}
use dcb_layer.Tuple.{Element, Elements, string, bytes, tuple, of_list, to_list, Codec}
use dcb_layer.Error.{
  Error, tuple_decode, unpack_failed, expected_3_elements, type_not_string, tag_not_string,
  tags_not_tuple, data_not_bytes,
}

decode_type : Element → Result Text Error
decode_type (string s) = ok s
decode_type o = err (tuple_decode (type_not_string o))

decode_tag : Element → Result Text Error
decode_tag (string s) = ok s
decode_tag o = err (tuple_decode (tag_not_string o))

decode_tags : Element → Result (List Text) Error
unfolding decode_tag to_list
decode_tags (tuple t) = collect decode_tag (to_list t)
decode_tags o = err (tuple_decode (tags_not_tuple o))

decode_data : Element → Result Bytes Error
decode_data (bytes b) = ok b
decode_data o = err (tuple_decode (data_not_bytes o))

-- The three fields, decoded in order, where the tuple has three elements.
decode_fields : List Element → Result Event Error
unfolding decode_type decode_tags decode_data
decode_fields (e0 ∷ e1 ∷ e2 ∷ []) = do
  type_name ← decode_type e0
  tags ← decode_tags e1
  payload ← decode_data e2
  ok (record { type_name = type_name; tags = tags; payload = payload })
decode_fields elems = err (tuple_decode (expected_3_elements (length elems)))

module _ (c : Codec) where
  unfoldable pub encode_event_value : Event → Bytes
  unfolding of_list
  encode_event_value event =
      c.pack (
        string event.type_name ∷ tuple (of_list (map string event.tags)) ∷ bytes event.payload ∷ [])

  unfoldable pub decode_event_value : Bytes → Result Event Error
  unfolding decode_fields
  decode_event_value value = do
    elems ← map_err (λ e. tuple_decode (unpack_failed e)) (c.unpack value)
    decode_fields elems
