-- ===== src/Tests/Calls.antt =====
-- The calls of the binding on concrete terms. Witnesses.
use dcb_layer.Common.{
  ◌≡◌, ◌⊎◌, refl, true, false, none, some, List, [], ◌∷◌, ◌++◌, In, map, ok, arith,
}
use dcb_layer.Common.Bytes.{text, eq}
use dcb_layer.Types.{StoredEvent, FdbStore}
use dcb_layer.Append.{validate}
use dcb_layer.Append.Conditions.{SomeConflict}
use dcb_layer.Read.{TransactBoxed}
use dcb_layer.Read.Order.{IsFirst}
use dcb_layer.Read.Stamps.{PositionOf}
use dcb_layer.Read.Outcome.{Wanted}
use dcb_layer.Types.{has_no_type_nor_tags}
use dcb_layer.Nif.{dcb_store_append, dcb_store_read}
use dcb_layer.Nif.Shapes.{
  Each, IsEventTerm, IsStoredTerm, IsItemTerm, IsQueryTerm, IsConditionTerm, IsOptsTerm,
}
use dcb_layer.Nif.Calls.{dcb_store_append-outcome, dcb_store_read-IsFirst}
use dcb_layer.Tests.Plain.{plain, plain_laws}
use dcb_layer.Tests.Scene.{
  namespace, event_1, history, pairs-Holds, reader, reader-Sees, database, by_tag, condition,
}
use dcb_layer.Tests.Reading.{
  by_type, twice, one_back, twice-IsQueryItem, twice-keys_given, pairs-HoldsEvents,
}
use dcb_layer.Tests.Binding.{
  PlainTerm, atom, binary, integer, pair, list, dict, nil, cons, empty, entry, of_list, terms,
  terms_laws, render,
}

abbrev event_term : PlainTerm
event_term = dict (
    entry (text "type_name") (binary (text "a")) (
      entry (text "tags") (list (cons (binary (text "x")) nil))
        (entry (text "data") (binary (7 ∷ [])) empty)))

event_term-IsEventTerm : IsEventTerm terms event_1 event_term
unfolding eq
event_term-IsEventTerm = record { type_lem = refl; tags_lem = refl; data_lem = refl }

abbrev item_term : List PlainTerm → List PlainTerm → PlainTerm
item_term types tags =
    dict (
      entry (text "types") (list (of_list types)) (entry (text "tags") (list (of_list tags)) empty))

by_tag-IsItemTerm : IsItemTerm terms by_tag (item_term [] (binary (text "x") ∷ []))
unfolding eq
by_tag-IsItemTerm = record { types_lem = refl; tags_lem = refl }

by_type-IsItemTerm : IsItemTerm terms by_type (item_term (binary (text "a") ∷ []) [])
unfolding eq
by_type-IsItemTerm = record { types_lem = refl; tags_lem = refl }

abbrev query_term : List PlainTerm → PlainTerm
query_term items = dict (entry (text "items") (list (of_list items)) empty)

abbrev condition_term : PlainTerm
condition_term = dict (
    entry (text "query") (query_term (item_term [] (binary (text "x") ∷ []) ∷ []))
      (entry (text "after") (atom (text "nil")) empty))

condition_term-IsConditionTerm : IsConditionTerm terms condition condition_term
unfolding eq
condition_term-IsConditionTerm = record {
  query_term = _;
  after_term = _;
  query_lem = refl;
  query_is = record {
    terms = item_term [] (binary (text "x") ∷ []) ∷ [];
    items_lem = refl;
    each_lem = (by_tag-IsItemTerm, tt);
  };
  after_lem = refl;
  after_is = refl;
}

abbrev twice_terms : List PlainTerm
twice_terms = item_term [] (binary (text "x") ∷ []) ∷ item_term (binary (text "a") ∷ []) [] ∷ []

twice-IsQueryTerm : IsQueryTerm terms twice (query_term twice_terms)
unfolding eq
twice-IsQueryTerm = record {
  terms = twice_terms;
  items_lem = refl;
  each_lem = (by_tag-IsItemTerm, (by_type-IsItemTerm, tt));
}

abbrev opts_term : PlainTerm
opts_term = dict (
    entry (text "limit") (integer 1) (
      entry (text "after") (atom (text "nil")) (entry (text "reverse") (atom (text "true")) empty)))

opts_term-IsOptsTerm : IsOptsTerm terms one_back opts_term
unfolding eq
opts_term-IsOptsTerm = record {
  after_term = _;
  limit_lem = refl;
  limit_fits = omega arith;
  after_lem = refl;
  after_is = refl;
  reverse_lem = refl;
}

abbrev store_1 : FdbStore
store_1 = record { namespace = namespace }

-- The batch is accepted.
accepted : validate (event_1 ∷ []) (condition ∷ []) ≡ ok tt
unfolding validate has_no_type_nor_tags
accepted = refl

dcb_store_append-outcome_example :
    (SomeConflict (condition ∷ []) history
      × (dcb_store_append terms render plain 1 database store_1
            (list (cons event_term nil))
            (list (cons condition_term nil))
          ≡ some (pair (atom (text "error")) (atom (text "append_condition_failed")))))
    ⊎ ((¬ SomeConflict (condition ∷ []) history)
        × (dcb_store_append terms render plain 1 database store_1
              (list (cons event_term nil))
              (list (cons condition_term nil))
            ≡ some (
                pair
                  (atom (text "ok"))
                  (binary ((0 ∷ 0 ∷ 0 ∷ 0 ∷ 0 ∷ 0 ∷ 0 ∷ 0 ∷ 0 ∷ 2 ∷ []) ++ 0 ∷ 0 ∷ [])))))
unfolding reader
dcb_store_append-outcome_example =
    dcb_store_append-outcome terms terms_laws render plain plain_laws store_1 pairs-Holds database
      reader 0 (event_1 ∷ []) (condition ∷ []) (event_term ∷ []) (condition_term ∷ [])
      (0 ∷ 0 ∷ 0 ∷ 0 ∷ 0 ∷ 0 ∷ 0 ∷ 0 ∷ 0 ∷ 2 ∷ []) refl (reader-Sees false) refl refl accepted
      (((omega arith, tt), tt), tt) refl refl (event_term-IsEventTerm, tt)
      (condition_term-IsConditionTerm, tt)

-- A client whose first transaction is the reader.
abbrev first_reader : TransactBoxed
first_reader run option = run reader

dcb_store_read-IsFirst_example :
    (events : List StoredEvent) × (answers : List PlainTerm) × (dcb_store_read terms render plain 4
        first_reader store_1
        (query_term twice_terms)
        opts_term
      ≡ some (pair (atom (text "ok")) (list (of_list answers))))
    × Each (IsStoredTerm terms) events answers
    × ((se : StoredEvent) → In se events → In se history × Wanted twice.items none se)
    × IsFirst true 1 (PositionOf history (Wanted twice.items none)) (map (λ se. se.position) events)
dcb_store_read-IsFirst_example =
    dcb_store_read-IsFirst terms terms_laws render plain plain_laws store_1 pairs-Holds reader
      first_reader twice one_back (query_term twice_terms) opts_term 4 pairs-HoldsEvents
      (reader-Sees true) (λ run option events e. e) twice-IsQueryItem tt
      (omega (arith, twice-keys_given)) twice-IsQueryTerm opts_term-IsOptsTerm
