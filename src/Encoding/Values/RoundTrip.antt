-- ===== src/Encoding/Values/RoundTrip.antt =====
-- Decoding inverts encoding, and accepts nothing but encoded events.
use dcb_layer.Common.{
  ◌≡◌, refl, sym, ap, ◌∙◌, ◌↔◌, List, [], ◌∷◌, map, Result, ok, map_err, collect, >>=-eq_ok, All,
  arith,
}
use dcb_layer.Common.Bytes.{Bytes, Text, IsBytes}
use dcb_layer.Types.{Event}
use dcb_layer.Tuple.{Element, Elements, string, bytes, tuple, nil, cons, of_list, to_list, Codec}
use dcb_layer.Tuple.Laws.{CodecLaws, ArePackable}
use dcb_layer.Error.{Error}
use dcb_layer.Encoding.Values.{
  decode_type, decode_tag, decode_tags, decode_data, decode_fields, encode_event_value,
  decode_event_value,
}

-- The texts and the payload of the event consist of bytes.
pub record IsEvent (e : Event) : Type 0 where
  pub type_bytes : IsBytes e.type_name
  pub tag_bytes : All IsBytes e.tags
  pub payload_bytes : IsBytes e.payload

-- The tuple that stands for an event.
abbrev pub fields : Event → List Element
fields e = string e.type_name ∷ tuple (of_list (map string e.tags)) ∷ bytes e.payload ∷ []

to_list-of_list : (xs : List Element) → to_list (of_list xs) ≡ xs
unfolding to_list of_list
to_list-of_list [] = refl
to_list-of_list (x ∷ xs) = ap (◌∷◌ x) (to_list-of_list xs)

of_list-to_list : (xs : Elements) → of_list (to_list xs) ≡ xs
unfolding to_list of_list
of_list-to_list nil = refl
of_list-to_list (cons x xs) = ap (cons x) (of_list-to_list xs)

decode_tag-strings : (tags : List Text) → collect decode_tag (map string tags) ≡ ok tags
unfolding decode_tag
decode_tag-strings [] = refl
decode_tag-strings (t ∷ ts) = rw (decode_tag-strings ts) refl

decode_tag-eq_ok : (e : Element) (t : Text) → decode_tag e ≡ ok t → e ≡ string t
unfolding decode_tag
decode_tag-eq_ok e t h = ground arith

collect-decode_tag :
    (es : List Element) (tags : List Text) → collect decode_tag es ≡ ok tags → es ≡ map string tags
collect-decode_tag [] tags h = ground arith
collect-decode_tag (e ∷ es) tags h =
    let (t, p, q) = >>=-eq_ok (decode_tag e) _ h in
    let (ts, r, s) = >>=-eq_ok (collect decode_tag es) _ q in
    cc (decode_tag-eq_ok e t p, collect-decode_tag es ts r)

-- Three elements decode exactly if they are the fields of an event.
decode_fields-fields : (e : Event) → decode_fields (fields e) ≡ ok e
unfolding decode_fields
decode_fields-fields e = rw (to_list-of_list (map string e.tags), decode_tag-strings e.tags) refl

ArePackable-strings :
    (tags : List Text) → All IsBytes tags → ArePackable (of_list (map string tags))
unfolding of_list
ArePackable-strings [] h = tt
ArePackable-strings (t ∷ ts) h = (h.0, ArePackable-strings ts h.1)

decode_type-eq_ok : (e : Element) (t : Text) → decode_type e ≡ ok t → e ≡ string t
unfolding decode_type
decode_type-eq_ok e t h = ground arith

decode_tags-eq_ok :
    (e : Element) (ts : List Text) → decode_tags e ≡ ok ts → e ≡ tuple (of_list (map string ts))
unfolding decode_tags
decode_tags-eq_ok (tuple es) ts h =
    ap tuple (sym (of_list-to_list es) ∙ ap of_list (collect-decode_tag (to_list es) ts h))
decode_tags-eq_ok _ ts h = cc

decode_data-eq_ok : (e : Element) (b : Bytes) → decode_data e ≡ ok b → e ≡ bytes b
unfolding decode_data
decode_data-eq_ok e b h = ground arith

fields_of :
    {e0 e1 e2 : Element} {t : Text} {ts : List Text} {b : Bytes} {e : Event}
    → e0 ≡ string t
    → e1 ≡ tuple (of_list (map string ts))
    → e2 ≡ bytes b
    → ◌≡◌ {A = Result Event Error} (ok (record { type_name = t; tags = ts; payload = b })) (ok e)
    → ◌≡◌ {A = List Element} (e0 ∷ e1 ∷ e2 ∷ []) (fields e)
fields_of {t} {ts} {b} {e} p q r h =
    let d : ◌≡◌ {A = Event} (record { type_name = t; tags = ts; payload = b }) e = cc in
    cc (p, q, r, ap fields d)

-- What decodes is the fields of the event.
decode_fields-eq_ok : (es : List Element) (e : Event) → decode_fields es ≡ ok e → es ≡ fields e
unfolding decode_fields
decode_fields-eq_ok (e0 ∷ e1 ∷ e2 ∷ []) e h =
    let (t, p, h1) = >>=-eq_ok (decode_type e0) _ h in
    let (ts, q, h2) = >>=-eq_ok (decode_tags e1) _ h1 in
    let (b, r, h3) = >>=-eq_ok (decode_data e2) _ h2 in
    fields_of (decode_type-eq_ok e0 t p) (decode_tags-eq_ok e1 ts q) (decode_data-eq_ok e2 b r) h3
decode_fields-eq_ok _ e h = cc

module _ (c : Codec) (laws : CodecLaws c) where
  -- For a codec that meets the laws, the encoded value of an event whose type, tags and payload are
  -- bytes decodes to the event.
  pub decode-encode : (e : Event) → IsEvent e → decode_event_value c (encode_event_value c e) ≡ ok e
  unfolding decode_event_value encode_event_value
  decode-encode e h =
      rw
        (laws.unpack-pack (fields e)
          (h.type_bytes, (ArePackable-strings e.tags h.tag_bytes, (h.payload_bytes, tt))))
        (decode_fields-fields e)

  -- For a codec that meets the laws, a value decodes to an event exactly if the codec unpacks it to
  -- the three fields of the event, a text, a tuple of texts and bytes; so every value of another
  -- shape is an error.
  pub decode-eq_ok_iff :
      (value : Bytes) (e : Event)
      → (decode_event_value c value ≡ ok e) ↔ (c.unpack value ≡ ok (fields e))
  unfolding decode_event_value
  decode-eq_ok_iff value e = (to, λ h. rw h (decode_fields-fields e))
    where
      to : decode_event_value c value ≡ ok e → c.unpack value ≡ ok (fields e)
      to h =
          let (es, p, q) = >>=-eq_ok (map_err _ (c.unpack value)) _ h in
          ground (arith, decode_fields-eq_ok es e)
