-- ===== src/System/Growth.antt =====
-- The histories of the store of dcb-layer/src/append.rs only grow: what earlier reads saw stays, and
-- what is new lies after it.
use mathlib.Core.List.{map-append, append-nil}
use dcb_layer.Common.{
  ◌≡◌, refl, sym, ◌∙◌, ap, ◌∷◌, subst, ◌↔◌, ◌⊎◌, inl, inr, true, false, Option, List, [], ◌++◌, ap₂,
  append_assoc, In, In-append, In-append_left, In-map, map,
}
use dcb_layer.Common.Bytes.{Text, lt}
use dcb_layer.Types.{Versionstamp, StoredEvent, QueryItem}
use dcb_layer.Tuple.{Codec}
use dcb_layer.Tuple.Laws.{CodecLaws}
use dcb_layer.Store.{IsAfter}
use dcb_layer.Read.Order.{IsOrdered, IsOrdered-append_inv}
use dcb_layer.Read.Pages.{last_position, IsAfter-last_position}
use dcb_layer.Read.Stamps.{PositionOf}
use dcb_layer.Read.Outcome.{Wanted}
use dcb_layer.System.{
  Action, State, LeadsTo, stays, goes_on, SpecStep, SpecReachable, additions, added_by,
}
use dcb_layer.System.SpecStep.{appends, refuses, fails, sets_cursor}
use dcb_layer.System.Invariant.{Represents}
use dcb_layer.System.Refinement.{Step-Represents}

SpecStep-extends :
    {action : Action} {h h' : List StoredEvent} → SpecStep action h h' → h' ≡ h ++ added_by action
SpecStep-extends (appends events conds tx clear ascend) = refl
SpecStep-extends (refuses {history = h} events conds conflict) = sym (append-nil h)
SpecStep-extends (fails {history = h} events conds) = sym (append-nil h)
SpecStep-extends (sets_cursor {history = h} name position) = sym (append-nil h)

additions-goes_on :
    (actions : List Action) (action : Action)
    → additions (actions ++ action ∷ []) ≡ additions actions ++ added_by action
unfolding additions
additions-goes_on [] action = append-nil (added_by action)
additions-goes_on (first ∷ actions) action =
    ap (◌++◌ (added_by first)) (additions-goes_on actions action)
    ∙ sym (append_assoc (added_by first) (additions actions) (added_by action))

-- Whatever clients do, the history is continued by what they add.
pub LeadsTo_extends :
    (c : Codec)
    → CodecLaws c
    → (namespace : Text) {actions : List Action} {s s' : State} {history : List StoredEvent}
    → Represents c namespace history s
    → SpecReachable history
    → LeadsTo c namespace actions s s'
    → Represents c namespace (history ++ additions actions) s'
      × SpecReachable (history ++ additions actions)
unfolding additions
LeadsTo_extends c laws namespace {s = s} {history = history} inv spec stays =
    subst (λ (h : List StoredEvent). Represents c namespace h s × SpecReachable h)
      (sym (append-nil history)) (inv, spec)
LeadsTo_extends c laws namespace {s' = s'} {history = history} inv spec
      (goes_on {actions = actions} {action = action} {t = t} before now) =
    let (inv', spec') = LeadsTo_extends c laws namespace inv spec before in
    let (history', then, inv'') =
      Step-Represents c laws namespace action t s' (history ++ additions actions) inv' now in
    let e : history' ≡ history ++ additions (actions ++ action ∷ []) =
      SpecStep-extends then
      ∙ append_assoc history (additions actions) (added_by action)
      ∙ ap (◌++◌ history) (sym (additions-goes_on actions action)) in
    subst (λ (h : List StoredEvent). Represents c namespace h s' × SpecReachable h) e
      (inv'', SpecReachable.step spec' then)

-- How what is wanted of a history after a position, of which some positions are seen, relates to
-- what is wanted of a later history.
pub record Continues (items : List QueryItem) (after : Option Versionstamp) (xs : List Versionstamp)
    (history history' : List StoredEvent) : Type 0 where
  pub kept : (se : StoredEvent) → In se history → In se history'
  pub newer :
      (vs : Versionstamp)
      → PositionOf history' (Wanted items after) vs
      → PositionOf history (Wanted items after) vs ⊎ ((x : Versionstamp) → In x xs → lt x vs ≡ true)
  pub behind :
      (se : StoredEvent)
      → Wanted items (last_position after xs) se
        ↔ (Wanted items after se × ((x : Versionstamp) → In x xs → lt x se.position ≡ true))

-- What is new lies after what was seen.
pub append-Continues :
    (history more : List StoredEvent)
    → IsOrdered false (map (λ se. se.position) (history ++ more))
    → (items : List QueryItem) (after : Option Versionstamp) (xs : List Versionstamp)
    → ((vs : Versionstamp) → In vs xs → PositionOf history (Wanted items after) vs)
    → IsOrdered false xs
    → Continues items after xs history (history ++ more)
append-Continues history more ascend items after xs sound ordered = record {
  kept = λ se m. In-append_left se history more m;
  newer = λ vs (se, m, w, e). elim (In-append se history more m) [
    | inl n ↦ inl (se, n, w, e)
    | inr n ↦ inr (λ x k.
        let (old, l, _, q) = sound x k in
        ap₂ lt q e
        ∙ IsOrdered-append_inv false _ (map (λ se. se.position) more)
            (subst (IsOrdered false) (map-append (λ se. se.position) history more) ascend)
            old.position se.position (In-map (λ se. se.position) old history l)
            (In-map (λ se. se.position) se more n))
  ];
  behind = λ se.
      let both =
        IsAfter-last_position after xs ordered
          (λ x m. let (old, _, w, q) = sound x m in subst (IsAfter after) (sym q) w.1)
          se.position in
      (λ (k, a). let (a', h) = both.0 a in ((k, a'), h), λ ((k, a), h). (k, both.1 (a, h)));
}

module _ {items : List QueryItem} {after : Option Versionstamp} {xs : List Versionstamp}
    {history history' : List StoredEvent} (continues : Continues items after xs history history')
    (vs : Versionstamp) where
  pub PositionOf-kept :
      PositionOf history (Wanted items after) vs → PositionOf history' (Wanted items after) vs
  PositionOf-kept (se, m, w, e) = (se, continues.kept se m, w, e)

  pub PositionOf-behind : PositionOf history' (Wanted items (last_position after xs)) vs ↔ (
      PositionOf history' (Wanted items after) vs × ((x : Versionstamp) → In x xs → lt x vs ≡ true))
  PositionOf-behind = (
    λ (se, m, w, e).
        let (w', h) = (continues.behind se).0 w in
        ((se, m, w', e), λ x n. subst (λ (y : Versionstamp). lt x y ≡ true) (sym e) (h x n)),
    λ ((se, m, w, e), h).
        let h' = λ (x : Versionstamp) (n : In x xs).
          subst (λ (y : Versionstamp). lt x y ≡ true) e (h x n) in
        (se, m, (continues.behind se).1 (w, h'), e),
  )
