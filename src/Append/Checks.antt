-- ===== src/Append/Checks.antt =====
-- What the validation of `append` lets through.
use dcb_layer.Common.{
  ℕ, ◌≤◌, ◌≡◌, refl, ◌↔◌, Bool, true, false, true≢false, List, [], ◌∷◌, All, length, is_empty,
  arith, Result, ok, err, ltb, if◌then◌else◌, ◌>>◌,
}
use dcb_layer.Common.Bytes.{Text, eq_iff}
use dcb_layer.Types.{Event, QueryItem, AppendCondition, has_no_type_nor_tags}
use dcb_layer.Error.{
  Error, empty_events, batch_too_large, missing_event_type, too_many_tags, reserved_tag,
  invalid_query,
}
use dcb_layer.Encoding.Keys.{events_in_indexes_sub}
use dcb_layer.Encoding.Keys.Layout.{NoReserved}
use dcb_layer.Append.{
  has_reserved, check_event, check_events, check_item, check_items, check_condition,
  check_conditions, validate,
}

pub has_reserved-NoReserved : (tags : List Text) → (has_reserved tags ≡ false) ↔ NoReserved tags
unfolding has_reserved
has_reserved-NoReserved [] = (λ h. tt, λ h. refl)
has_reserved-NoReserved (t ∷ tags) =
    ground (arith, eq_iff t events_in_indexes_sub, has_reserved-NoReserved tags)

-- An event of a type, with few tags and without the reserved one.
abbrev pub MayAppend : Event → Type 0
MayAppend event =
    (is_empty event.type_name ≡ false) × (length event.tags ≤ 10) × NoReserved event.tags

-- A query item that asks for something, without the reserved tag.
abbrev pub MayAsk : QueryItem → Type 0
MayAsk item = (has_no_type_nor_tags item ≡ false) × NoReserved item.tags

abbrev pub MayCheck : AppendCondition → Type 0
MayCheck cond = (is_empty cond.query.items ≡ false) × All MayAsk cond.query.items

guard :
    (b : Bool) (e : Error) (r : Result (Unit {0}) Error)
    → ((if b then err e else r) ≡ ok tt) ↔ ((b ≡ false) × (r ≡ ok tt))
guard true e r = (λ h. absurd cc, λ h. absurd (true≢false h.0))
guard false e r = (λ h. (refl, h), λ h. h.1)

chain : (r s : Result (Unit {0}) Error) → ((r >> s) ≡ ok tt) ↔ ((r ≡ ok tt) × (s ≡ ok tt))
chain (ok u) s = (λ h. (refl, h), λ h. h.1)
chain (err e) s = (λ h. absurd cc, λ h. absurd cc)

ltb-false : (m n : ℕ) → (ltb m n ≡ false) ↔ (n ≤ m)
ltb-false m n = ground arith

check_event-MayAppend : (event : Event) → (check_event event ≡ ok tt) ↔ MayAppend event
unfolding check_event
check_event-MayAppend event =
    let a = guard (is_empty event.type_name) missing_event_type _ in
    let b = guard (ltb 10 (length event.tags)) too_many_tags _ in
    let d = guard (has_reserved event.tags) reserved_tag (ok tt) in
    let l = ltb-false 10 (length event.tags) in
    let r = has_reserved-NoReserved event.tags in
    (
      λ h. let p = a.0 h in let q = b.0 p.1 in (p.0, l.0 q.0, r.0 (d.0 q.1).0),
      λ (t, few, n). a.1 (t, b.1 (l.1 few, d.1 (r.1 n, refl))),
    )

check_events-MayAppend :
    (events : List Event) → (check_events events ≡ ok tt) ↔ All MayAppend events
unfolding check_events
check_events-MayAppend [] = (λ h. tt, λ h. refl)
check_events-MayAppend (event ∷ events) =
    let one = check_event-MayAppend event in
    let rest = check_events-MayAppend events in
    let both = chain (check_event event) (check_events events) in
    (λ h. (one.0 (both.0 h).0, rest.0 (both.0 h).1), λ h. both.1 (one.1 h.0, rest.1 h.1))

check_item-MayAsk : (item : QueryItem) → (check_item item ≡ ok tt) ↔ MayAsk item
unfolding check_item
check_item-MayAsk item =
    let a = guard (has_no_type_nor_tags item) invalid_query _ in
    let d = guard (has_reserved item.tags) reserved_tag (ok tt) in
    let r = has_reserved-NoReserved item.tags in
    (λ h. let p = a.0 h in (p.0, r.0 (d.0 p.1).0), λ (t, n). a.1 (t, d.1 (r.1 n, refl)))

check_items-MayAsk : (items : List QueryItem) → (check_items items ≡ ok tt) ↔ All MayAsk items
unfolding check_items
check_items-MayAsk [] = (λ h. tt, λ h. refl)
check_items-MayAsk (item ∷ items) =
    let one = check_item-MayAsk item in
    let rest = check_items-MayAsk items in
    let both = chain (check_item item) (check_items items) in
    (λ h. (one.0 (both.0 h).0, rest.0 (both.0 h).1), λ h. both.1 (one.1 h.0, rest.1 h.1))

check_conditions-MayCheck :
    (conds : List AppendCondition) → (check_conditions conds ≡ ok tt) ↔ All MayCheck conds
unfolding check_conditions check_condition
check_conditions-MayCheck [] = (λ h. tt, λ h. refl)
check_conditions-MayCheck (cond ∷ conds) =
    let a = guard (is_empty cond.query.items) invalid_query (check_items cond.query.items) in
    let items = check_items-MayAsk cond.query.items in
    let rest = check_conditions-MayCheck conds in
    let both = chain (check_condition cond) (check_conditions conds) in
    (
      λ h. let p = a.0 (both.0 h).0 in ((p.0, items.0 p.1), rest.0 (both.0 h).1),
      λ h. both.1 (a.1 (h.0.0, items.1 h.0.1), rest.1 h.1),
    )

-- Validation passes exactly for 1 to 65535 events, each with a type, at most 10 tags and no
-- reserved tag, and conditions that each have an item, each item with a type or a tag and with no
-- reserved tag.
pub validate-eq_ok_iff :
    (events : List Event) (conds : List AppendCondition)
    → (validate events conds ≡ ok tt) ↔ (
        (is_empty events ≡ false)
        × (length events ≤ 65535)
        × All MayAppend events
        × All MayCheck conds)
unfolding validate
validate-eq_ok_iff events conds =
    let a = guard (is_empty events) empty_events _ in
    let b = guard (ltb 65535 (length events)) batch_too_large _ in
    let both = chain (check_events events) (check_conditions conds) in
    let l = ltb-false 65535 (length events) in
    let es = check_events-MayAppend events in
    let cs = check_conditions-MayCheck conds in
    (
      λ h.
          let p = a.0 h in
          let q = b.0 p.1 in let r = both.0 q.1 in (p.0, l.0 q.0, es.0 r.0, cs.0 r.1),
      λ (any_event, few, e, d). a.1 (any_event, b.1 (l.1 few, both.1 (es.1 e, cs.1 d))),
    )
