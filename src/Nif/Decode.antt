-- ===== src/Nif/Decode.antt =====
-- The decoders of dcb-layer-ex/native/dcb_layer_nif/src/lib.rs on the terms that it documents.
use dcb_layer.Common.{◌≡◌, refl, true, false, Option, none, some, List, [], ◌∷◌, ok, collect}
use dcb_layer.Common.Bytes.{Text, text, eq}
use dcb_layer.Types.{Versionstamp, Event, new_event, QueryItem, Query, AppendCondition, ReadOptions}
use dcb_layer.Error.{Message}
use dcb_layer.Nif.{
  is_nil, decode_vs, decode_opt_vs, decode_event, decode_query_item, decode_query, decode_condition,
  decode_read_opts, decode_all,
}
use dcb_layer.Nif.Rustler.{NifResult, Terms, TermsLaws}
use dcb_layer.Nif.Shapes.{
  Each, IsEventTerm, IsItemTerm, IsQueryTerm, IsAfterTerm, IsConditionTerm, IsOptsTerm,
}

-- What decodes each element decodes the list.
collect-Each :
    {A B : Type 0} {R : A → B → Type 0} (f : B → NifResult A)
    → ((x : A) (y : B) → R x y → f y ≡ ok x)
    → (xs : List A) (ys : List B) → Each R xs ys
    → collect f ys ≡ ok xs
collect-Each f h [] [] r = refl
collect-Each f h [] (y ∷ ys) r = absurd r
collect-Each f h (x ∷ xs) [] r = absurd r
collect-Each f h (x ∷ xs) (y ∷ ys) r = rw (h x y r.0, collect-Each f h xs ys r.1) refl

module _ (t : Terms) (laws : TermsLaws t) (render : Message → Text) where
  is_nil-nil : is_nil t render (t.atom (text "nil")) ≡ true
  unfolding is_nil eq
  is_nil-nil = rw (laws.is_atom-atom (text "nil"), laws.atom_to_string-atom (text "nil")) refl

  is_nil-binary : (vs : Versionstamp) → is_nil t render (t.binary vs) ≡ false
  unfolding is_nil
  is_nil-binary vs = rw (laws.is_atom-binary vs) refl

  pub decode_event-IsEventTerm :
      (event : Event) (m : t.Term) → IsEventTerm t event m → decode_event t render m ≡ ok event
  unfolding decode_event new_event
  decode_event-IsEventTerm event m h =
      rw
        (
          h.type_lem,
          laws.decode-string event.type_name,
          h.tags_lem,
          laws.decode-strings event.tags,
          h.data_lem,
          laws.decode-binary event.payload,
        )
        refl

  decode_query_item-IsItemTerm :
      (item : QueryItem) (m : t.Term) → IsItemTerm t item m → decode_query_item t render m ≡ ok item
  unfolding decode_query_item
  decode_query_item-IsItemTerm item m h =
      rw (h.types_lem, laws.decode-strings item.types, h.tags_lem, laws.decode-strings item.tags)
        refl

  pub decode_query-IsQueryTerm :
      (query : Query) (m : t.Term) → IsQueryTerm t query m → decode_query t render m ≡ ok query
  unfolding decode_query
  decode_query-IsQueryTerm query m h =
      rw
        (
          h.items_lem,
          laws.decode-list h.terms,
          collect-Each (decode_query_item t render) decode_query_item-IsItemTerm query.items h.terms
              h.each_lem,
        )
        refl

  decode_opt_vs-IsAfterTerm :
      (after : Option Versionstamp) (m : t.Term)
      → IsAfterTerm t after m
      → decode_opt_vs t render m ≡ ok after
  unfolding decode_opt_vs decode_vs
  decode_opt_vs-IsAfterTerm none m h = rw h (rw is_nil-nil refl)
  decode_opt_vs-IsAfterTerm (some vs) m h =
      rw h.0 (rw (is_nil-binary vs, laws.decode-binary vs, h.1) refl)

  pub decode_condition-IsConditionTerm :
      (cond : AppendCondition) (m : t.Term)
      → IsConditionTerm t cond m
      → decode_condition t render m ≡ ok cond
  unfolding decode_condition
  decode_condition-IsConditionTerm cond m h =
      rw
        (
          h.query_lem,
          decode_query-IsQueryTerm cond.query h.query_term h.query_is,
          h.after_lem,
          decode_opt_vs-IsAfterTerm cond.after h.after_term h.after_is,
        )
        refl

  pub decode_read_opts-IsOptsTerm :
      (opts : ReadOptions) (m : t.Term)
      → IsOptsTerm t opts m
      → decode_read_opts t render m ≡ ok opts
  unfolding decode_read_opts
  decode_read_opts-IsOptsTerm opts m h =
      rw
        (
          h.limit_lem,
          laws.decode-usize opts.limit h.limit_fits,
          h.after_lem,
          decode_opt_vs-IsAfterTerm opts.after h.after_term h.after_is,
          h.reverse_lem,
          laws.decode-bool opts.reverse,
        )
        refl

  pub decode_all-Each :
      {A : Type 0} {R : A → t.Term → Type 0} (f : t.Term → NifResult A)
      → ((x : A) (y : t.Term) → R x y → f y ≡ ok x)
      → (xs : List A) (terms : List t.Term) → Each R xs terms
      → decode_all t render f (t.list terms) ≡ ok xs
  unfolding decode_all
  decode_all-Each f h xs terms r = rw (laws.decode-list terms, collect-Each f h xs terms r) refl
