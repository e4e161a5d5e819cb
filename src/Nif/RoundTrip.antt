-- ===== src/Nif/RoundTrip.antt =====
-- Events across the binding of dcb-layer-ex/native/dcb_layer_nif/src/lib.rs and back.
use dcb_layer.Common.{
  ℕ, ◌≡◌, refl, ◌∙◌, some, List, [], ◌∷◌, map, All, length, arith, ok, ◌>>=◌, collect,
}
use dcb_layer.Common.Bytes.{Text, text}
use dcb_layer.Types.{StoredEvent, FdbStore}
use dcb_layer.Error.{Message}
use dcb_layer.Tuple.{Codec}
use dcb_layer.Fdb.{Database}
use dcb_layer.Append.{append}
use dcb_layer.Nif.{
  decode_vs, decode_event, encode_stored_event, vs_to_term, bytes_to_term, unwrap, decode_all,
  encode_all, or_return, answer, vs_answer, dcb_store_append,
}
use dcb_layer.Nif.Shapes.{Each, IsStoredTerm}
use dcb_layer.Nif.Decode.{decode_event-IsEventTerm}
use dcb_layer.Nif.Rustler.{Terms, TermsLaws}

module _ (t : Terms) (laws : TermsLaws t) (render : Message → Text) where
  -- The term of an event is as documented, with its position.
  pub encode_stored_event-IsStoredTerm :
      (se : StoredEvent)
      → (term : t.Term) × (encode_stored_event t render se ≡ some term) × IsStoredTerm t se term
  unfolding encode_stored_event vs_to_term bytes_to_term unwrap
  encode_stored_event-IsStoredTerm se =
      let type_key = text "type_name" in
      let tags_key = text "tags" in
      let data_key = text "data" in
      let position_key = text "position" in
      let (m_1, e_1, i_1) =
        laws.map_put-IsMap t.map_new type_key (t.string se.event.type_name) laws.map_new-IsMap in
      let (m_2, e_2, i_2) =
        laws.map_put-IsMap m_1 tags_key (t.list (map t.string se.event.tags)) i_1 in
      let (m_3, e_3, i_3) = laws.map_put-IsMap m_2 data_key (t.binary se.event.payload) i_2 in
      let (m_4, e_4, i_4) = laws.map_put-IsMap m_3 position_key (t.binary se.position) i_3 in
      (
        m_4,
        rw (e_1, e_2, e_3, e_4) refl,
        record {
          event_lem = record {
            type_lem =
                laws.map_get-other m_3 position_key _ m_4 type_key e_4 (ground arith)
                ∙ laws.map_get-other m_2 data_key _ m_3 type_key e_3 (ground arith)
                ∙ laws.map_get-other m_1 tags_key _ m_2 type_key e_2 (ground arith)
                ∙ laws.map_get-put t.map_new type_key _ m_1 e_1;
            tags_lem =
                laws.map_get-other m_3 position_key _ m_4 tags_key e_4 (ground arith)
                ∙ laws.map_get-other m_2 data_key _ m_3 tags_key e_3 (ground arith)
                ∙ laws.map_get-put m_1 tags_key _ m_2 e_2;
            data_lem =
                laws.map_get-other m_3 position_key _ m_4 data_key e_4 (ground arith)
                ∙ laws.map_get-put m_2 data_key _ m_3 e_3;
          };
          position_lem = laws.map_get-put m_3 position_key _ m_4 e_4;
        },
      )

  -- For terms with the documented laws and an event at a position of 12 bytes:
  -- `encode_stored_event` does not panic, `decode_event` of the term is the event, and the term's
  -- position decodes to the event's.
  pub decode_event-encode_stored_event :
      (se : StoredEvent)
      → length se.position ≡ 12
      → (term : t.Term) × (encode_stored_event t render se ≡ some term)
        × (decode_event t render term ≡ ok se.event)
        × ((t.map_get term (t.atom (text "position")) >>= decode_vs t render) ≡ ok se.position)
  unfolding decode_vs
  decode_event-encode_stored_event se long =
      let (term, e, is) = encode_stored_event-IsStoredTerm se in
      (
        term,
        e,
        decode_event-IsEventTerm t laws render se.event term is.event_lem,
        rw (is.position_lem, laws.decode-binary se.position, long) refl,
      )

  -- So are the terms of events.
  pub encode_all-Each :
      (ses : List StoredEvent)
      → (terms : List t.Term) × (encode_all t render ses ≡ some terms)
        × Each (IsStoredTerm t) ses terms
  unfolding encode_all
  encode_all-Each [] = ([], refl, tt)
  encode_all-Each (se ∷ ses) =
      let (term, e, is) = encode_stored_event-IsStoredTerm se in
      let (terms, es, each) = encode_all-Each ses in (term ∷ terms, rw (e, es) refl, (is, each))

  -- A list of events across the binding and back.
  events_back :
      (ses : List StoredEvent)
      → All (λ se. length se.position ≡ 12) ses
      → (terms : List t.Term) × (encode_all t render ses ≡ some terms)
        × (collect (decode_event t render) terms ≡ ok (map (λ se. se.event) ses))
  unfolding encode_all
  events_back [] long = ([], refl, refl)
  events_back (se ∷ ses) long =
      let (term, e, d, p) = decode_event-encode_stored_event se long.0 in
      let (terms, es, ds) = events_back ses long.1 in
      (term ∷ terms, rw (e, es) refl, rw (d, ds) refl)

  -- For terms with the documented laws and events at positions of 12 bytes: the terms that a read
  -- answers with can be handed to `dcb_store_append`, which without conditions then answers with
  -- what `append` of these events returns.
  pub dcb_store_append-encode_all :
      (c : Codec) (fuel : ℕ) (db : Database) (store : FdbStore) (ses : List StoredEvent)
      → All (λ se. length se.position ≡ 12) ses
      → (terms : List t.Term) × (encode_all t render ses ≡ some terms)
        × (dcb_store_append t render c fuel db store (t.list terms) (t.list [])
            ≡ answer (append c fuel db store (map (λ se. se.event) ses) []) (vs_answer t render))
  unfolding dcb_store_append decode_all or_return
  dcb_store_append-encode_all c fuel db store ses long =
      let (terms, e, d) = events_back ses long in
      (terms, e, rw (laws.decode-list terms, laws.decode-list [], d) refl)
