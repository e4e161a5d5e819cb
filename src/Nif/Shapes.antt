-- ===== src/Nif/Shapes.antt =====
-- The terms that the functions of dcb-layer-ex/native/dcb_layer_nif/src/lib.rs document: how an
-- Elixir caller writes events, queries, conditions and options.
use dcb_layer.Common.{◌<◌, ◌^◌, ◌≡◌, Option, none, some, List, [], ◌∷◌, map, length, ok}
use dcb_layer.Common.Bytes.{text}
use dcb_layer.Types.{
  Versionstamp, Event, StoredEvent, QueryItem, Query, AppendCondition, ReadOptions,
}
use dcb_layer.Nif.Rustler.{Terms, bool_name}

-- The lists are as long as each other, and their elements are related.
abbrev pub Each : {A B : Type 0} → (A → B → Type 0) → List A → List B → Type 0
Each R [] [] = Unit
Each R (x ∷ xs) (y ∷ ys) = R x y × Each R xs ys
Each R _ _ = ⊥

module _ (t : Terms) where
  -- `%{type_name: binary, tags: [binary], data: binary}`.
  pub record IsEventTerm (event : Event) (m : t.Term) : Type 0 where
    pub type_lem : t.map_get m (t.atom (text "type_name")) ≡ ok (t.string event.type_name)
    pub tags_lem : t.map_get m (t.atom (text "tags")) ≡ ok (t.list (map t.string event.tags))
    pub data_lem : t.map_get m (t.atom (text "data")) ≡ ok (t.binary event.payload)

  -- The same with `position: <<12 bytes>>`.
  pub record IsStoredTerm (se : StoredEvent) (m : t.Term) : Type 0 where
    pub event_lem : IsEventTerm se.event m
    pub position_lem : t.map_get m (t.atom (text "position")) ≡ ok (t.binary se.position)

  -- `%{types: [binary], tags: [binary]}`.
  pub record IsItemTerm (item : QueryItem) (m : t.Term) : Type 0 where
    pub types_lem : t.map_get m (t.atom (text "types")) ≡ ok (t.list (map t.string item.types))
    pub tags_lem : t.map_get m (t.atom (text "tags")) ≡ ok (t.list (map t.string item.tags))

  -- `%{items: [..]}`.
  pub record IsQueryTerm (query : Query) (m : t.Term) : Type 0 where
    pub terms : List t.Term
    pub items_lem : t.map_get m (t.atom (text "items")) ≡ ok (t.list terms)
    pub each_lem : Each IsItemTerm query.items terms

  -- `nil | <<12 bytes>>`.
  abbrev pub IsAfterTerm : Option Versionstamp → t.Term → Type 0
  IsAfterTerm none m = m ≡ t.atom (text "nil")
  IsAfterTerm (some vs) m = (m ≡ t.binary vs) × (length vs ≡ 12)

  -- `%{query: query, after: nil | <<12 bytes>>}`.
  pub record IsConditionTerm (cond : AppendCondition) (m : t.Term) : Type 0 where
    pub query_term : t.Term
    pub after_term : t.Term
    pub query_lem : t.map_get m (t.atom (text "query")) ≡ ok query_term
    pub query_is : IsQueryTerm cond.query query_term
    pub after_lem : t.map_get m (t.atom (text "after")) ≡ ok after_term
    pub after_is : IsAfterTerm cond.after after_term

  -- `%{limit: non_neg_integer, after: nil | <<12 bytes>>, reverse: boolean}`, with a limit of 64
  -- bits.
  pub record IsOptsTerm (opts : ReadOptions) (m : t.Term) : Type 0 where
    pub after_term : t.Term
    pub limit_lem : t.map_get m (t.atom (text "limit")) ≡ ok (t.integer opts.limit)
    pub limit_fits : opts.limit < 2 ^ 64
    pub after_lem : t.map_get m (t.atom (text "after")) ≡ ok after_term
    pub after_is : IsAfterTerm opts.after after_term
    pub reverse_lem : t.map_get m (t.atom (text "reverse")) ≡ ok (t.atom (bool_name opts.reverse))
