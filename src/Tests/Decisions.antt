-- ===== src/Tests/Decisions.antt =====
-- A read before an append, and reads in pages, while another client appends. Witnesses.
use dcb_layer.Common.{
  ◌≡◌, ◌≢◌, refl, sym, subst, inl, inr, ◌↔◌, false, true, none, some, List, [], ◌∷◌, ◌++◌, In, map,
  ok, arith,
}
use dcb_layer.Common.Bytes.{text, lt, le}
use dcb_layer.Types.{
  StoredEvent, Query, QueryItem, ReadOptions, AppendCondition, has_no_type_nor_tags, has_types_only,
  has_types_and_tags,
}
use dcb_layer.Encoding.Keys.{
  vs_to_fdb, pack_event_key, pack_sentinel_key, tag_type_prefix, tag_sentinel_elems,
  events_in_tag_prefix,
}
use dcb_layer.Encoding.Tags.{sort_tags}
use dcb_layer.Fdb.{range_option}
use dcb_layer.Fdb.Laws.{slice, in_range}
use dcb_layer.Query.{
  build_query_ranges, range_for, prefix_range, strinc, discover_types_in_tag_subspace,
}
use dcb_layer.Store.Queries.{IsQueryItem}
use dcb_layer.Append.{append_round, return, validate, commit_batch, after_commit}
use dcb_layer.Append.Commit.{positioned}
use dcb_layer.Read.{
  all_ranges, stream_option, key_of, read_events, TransactBoxed, unwrap_or_default, read, read_all,
  check_reserved, ordered_stamps, fetch_events, finish,
}
use dcb_layer.Append.{and_then}
use dcb_layer.Append.Conditions.{SomeConflict}
use dcb_layer.Read.Order.{IsFirst}
use dcb_layer.Read.Pages.{together}
use dcb_layer.Read.Stamps.{PositionOf}
use dcb_layer.Read.Outcome.{Wanted, keys_given}
use dcb_layer.Read.Reference.{reference}
use dcb_layer.System.{Action, appended, IsRound, LeadsTo, Reachable, start, SpecReachable}
use dcb_layer.System.Invariant.{Represents, outcome, committed_Represents}
use dcb_layer.System.Decisions.{read-append_round, read-read_events}
use dcb_layer.System.Reads.{Reachable-read}
use dcb_layer.Tests.Plain.{plain, plain_laws}
use dcb_layer.Tests.Scene.{namespace, condition}
use dcb_layer.Tests.Running.{
  version_1, batch_1, pairs_1, state_0, state_1, on_pairs, on_pairs-Sees, pairs_1-KeysAscend,
  state_0-IsRound, state_0-Represents, state_0-IsEmpty, state_0-Step, state_1-Reachable,
  state_1-Sees, batch_1-Commits, version_1-IsVersion, namespace-IsBytes, namespace-NulFree,
}
use dcb_layer.Tests.Reading.{twice, one_back, twice-IsQueryItem, pairs_1-keys_given}

-- The events with the tag y, of which there are none.
abbrev by_y : QueryItem
by_y = record { types = []; tags = text "y" ∷ [] }

abbrev query_y : Query
query_y = record { items = by_y ∷ [] }

by_y-IsQueryItem : (item : QueryItem) → In item query_y.items → IsQueryItem item
unfolding has_no_type_nor_tags
by_y-IsQueryItem item (inl e) = rw e (record {
  asks = refl;
  types_bytes = tt;
  tags_bytes = omega arith;
  tags_unreserved = ground arith;
})
by_y-IsQueryItem item (inr n) = absurd n

abbrev all_forward : ReadOptions
all_forward = record { limit = 0; after = none; reverse = false }

pub state_0-Reachable : Reachable plain namespace state_0
state_0-Reachable = start state_0-IsEmpty

-- What leads to the second state.
abbrev actions_1 : List Action
actions_1 = appended batch_1 (condition ∷ []) version_1 ∷ []

state_0-LeadsTo : LeadsTo plain namespace actions_1 state_0 state_1
state_0-LeadsTo = LeadsTo.goes_on LeadsTo.stays state_0-Step

nothing_given : keys_given plain (on_pairs []) namespace query_y all_forward ≡ 0
unfolding on_pairs plain all_ranges build_query_ranges discover_types_in_tag_subspace range_for
    prefix_range strinc tag_type_prefix tag_sentinel_elems events_in_tag_prefix sort_tags slice
    in_range lt le vs_to_fdb pack_event_key stream_option range_option key_of has_no_type_nor_tags
    has_types_only has_types_and_tags
nothing_given = refl

nothing_read : read_events plain 1 (on_pairs []) namespace query_y all_forward ≡ some (ok [])
unfolding on_pairs plain all_ranges build_query_ranges discover_types_in_tag_subspace range_for
    prefix_range strinc tag_type_prefix tag_sentinel_elems events_in_tag_prefix sort_tags slice
    in_range lt le vs_to_fdb pack_event_key stream_option range_option key_of has_no_type_nor_tags
    has_types_only has_types_and_tags check_reserved ordered_stamps fetch_events finish and_then
    read_events
nothing_read = refl

-- The condition that what was read is still all there is.
abbrev still_nothing : AppendCondition
still_nothing = record { query = query_y; after = none }

pub state_1-Represents : Represents plain namespace ([] ++ positioned version_1 0 batch_1) state_1
unfolding lt
state_1-Represents =
    committed_Represents plain plain_laws namespace state_0-Represents state_0-IsRound state_1
      version_1-IsVersion refl batch_1-Commits

state_1-IsRound : IsRound plain namespace state_1 (on_pairs pairs_1) batch_1 (still_nothing ∷ [])
unfolding on_pairs validate has_no_type_nor_tags
state_1-IsRound = record {
  sees = on_pairs-Sees false pairs_1 pairs_1-KeysAscend;
  idempotent = refl;
  valid = refl;
  appendable = state_0-IsRound.appendable;
  typed = (((omega arith, tt), tt), tt);
}

no_conflict : ¬ SomeConflict (still_nothing ∷ []) (positioned version_1 0 batch_1)
no_conflict (cond, inr absent, conflict) = absurd absent
no_conflict (cond, inl q, (item, k, (se, inr absent, f, a))) = absurd absent
no_conflict (cond, inl q, (item, k, (se, inl r, (_, tags), a))) =
    elim (subst (λ (x : AppendCondition). In item x.query.items) q k) [
      | inr absent ↦ absurd absent
      | inl q' ↦
          let wanted_tag = subst (λ (x : QueryItem). In (text "y") x.tags) (sym q') (inl refl) in
          let found =
            subst (λ (x : StoredEvent). In (text "y") x.event.tags) r
              (tags (text "y") wanted_tag) in
          elim found [ inl e ↦ absurd (different e) | inr absent ↦ absurd absent ]
    ]
  where
    different : text "y" ≢ text "x"
    different = ground arith

state_1-return :
    append_round plain (on_pairs pairs_1) namespace batch_1 (still_nothing ∷ [])
    ≡ return (ok (version_1 ++ 0 ∷ 0 ∷ []))
unfolding commit_batch after_commit on_pairs
state_1-return = elim (outcome plain plain_laws namespace state_1-Represents state_1-IsRound) [
  | inr (clear, e) ↦ e
  | inl (conflict, e) ↦ absurd (no_conflict conflict)
]

read-append_round_example :
    (history : List StoredEvent) × SpecReachable history
    × Represents plain namespace history state_1
    × ((se : StoredEvent) → In se [] ↔ (In se history × Wanted query_y.items none se))
read-append_round_example =
    read-append_round plain plain_laws namespace namespace-IsBytes namespace-NulFree state_0 state_1
      state_0-Reachable actions_1 state_0-LeadsTo (on_pairs []) (on_pairs-Sees true [] tt) query_y
      all_forward refl by_y-IsQueryItem tt 1 (omega (arith, nothing_given)) [] nothing_read
      (on_pairs pairs_1) batch_1 (still_nothing ∷ []) _ (inl refl) state_1-IsRound state_1-return

-- The page after the first, which was empty.
on_next :
    keys_given plain
      (on_pairs pairs_1)
      namespace
      twice
      (record { limit = 5; after = none; reverse = false })
    ≡ 2
unfolding on_pairs plain all_ranges build_query_ranges discover_types_in_tag_subspace range_for
    prefix_range strinc tag_type_prefix tag_sentinel_elems events_in_tag_prefix sort_tags slice
    in_range lt le vs_to_fdb pack_event_key pack_sentinel_key stream_option range_option key_of
    has_no_type_nor_tags has_types_only has_types_and_tags
on_next = refl

twice_before : keys_given plain (on_pairs []) namespace twice all_forward ≡ 0
unfolding on_pairs plain all_ranges build_query_ranges discover_types_in_tag_subspace range_for
    prefix_range strinc tag_type_prefix tag_sentinel_elems events_in_tag_prefix sort_tags slice
    in_range lt le vs_to_fdb pack_event_key stream_option range_option key_of has_no_type_nor_tags
    has_types_only has_types_and_tags
twice_before = refl

twice_read : read_events plain 1 (on_pairs []) namespace twice all_forward ≡ some (ok [])
unfolding on_pairs plain all_ranges build_query_ranges discover_types_in_tag_subspace range_for
    prefix_range strinc tag_type_prefix tag_sentinel_elems events_in_tag_prefix sort_tags slice
    in_range lt le vs_to_fdb pack_event_key stream_option range_option key_of has_no_type_nor_tags
    has_types_only has_types_and_tags check_reserved ordered_stamps fetch_events finish and_then
    read_events
twice_read = refl

read-read_events_example :
    (history more : List StoredEvent) × SpecReachable history
    × Represents plain namespace history state_1
    × (read_events plain 3
          (on_pairs pairs_1)
          namespace
          twice
          (record { limit = 5; after = none; reverse = false })
        ≡ some (ok more))
    × ((se : StoredEvent) → In se ([] ++ more) → In se history × Wanted twice.items none se)
    × IsFirst false
        (together 0 5)
        (PositionOf history (Wanted twice.items none))
        (map (λ se. se.position) ([] ++ more))
read-read_events_example =
    read-read_events plain plain_laws namespace namespace-IsBytes namespace-NulFree state_0 state_1
      state_0-Reachable actions_1 state_0-LeadsTo (on_pairs []) (on_pairs-Sees true [] tt) twice
      all_forward refl twice-IsQueryItem tt 1 (omega (arith, twice_before)) [] twice_read
      (on_pairs pairs_1) 5 3 state_1-Sees (omega (arith, on_next))

-- A client whose first transaction sees the state.
abbrev first_state_1 : TransactBoxed
first_state_1 run option = run (on_pairs pairs_1)

Reachable-read_example :
    (history : List StoredEvent) × SpecReachable history
    × Represents plain namespace history state_1
    × (read_all plain first_state_1 (record { namespace = namespace }) ≡ some (ok history))
    × (read plain 3 first_state_1 (record { namespace = namespace }) twice (some one_back)
        ≡ some (ok (reference twice one_back history)))
unfolding unwrap_or_default
Reachable-read_example =
    Reachable-read plain plain_laws (record { namespace = namespace }) namespace-IsBytes
      namespace-NulFree state_1 (on_pairs pairs_1) first_state_1 twice (some one_back) 3
      state_1-Reachable state_1-Sees (λ run option events e. e) twice-IsQueryItem tt
      (omega (arith, pairs_1-keys_given))
