-- ===== src/Append/Conditions.antt =====
-- The condition checks of one round of `append`.
use mathlib.Core.List.{map-append}
use dcb_layer.Common.{
  ◌≡◌, refl, sym, ap, ap₂, ◌∙◌, subst, ◌↔◌, ◌⊎◌, inl, inr, Bool, true, false, true≢false, Option,
  none, List, [], ◌∷◌, ◌++◌, map, All, In, In-append, In-append_left, In-append_right, ok, err,
  Bool-cases,
}
use dcb_layer.Common.Bytes.{Text}
use dcb_layer.Types.{Versionstamp, Event, StoredEvent, QueryItem, AppendCondition}
use dcb_layer.Error.{append_condition_failed, fdb}
use dcb_layer.Tuple.{Codec}
use dcb_layer.Tuple.Laws.{CodecLaws}
use dcb_layer.Fdb.{KeyValue, FdbResult, Transaction, automatic_idempotency, with_option}
use dcb_layer.Fdb.Laws.{Sees, with_option-Sees}
use dcb_layer.Store.{Matches, Found, Holds}
use dcb_layer.Store.Range.{IsPosition}
use dcb_layer.Store.Queries.{IsQueryItem}
use dcb_layer.Append.{
  Verdict, note_result, verdict, return, check_results, query_item_exists, commit_batch, decide,
  decide_round, append_round,
}
use dcb_layer.Append.Exists.{query_item_exists-Found}

-- A condition as validation lets it through.
pub record IsCondition (cond : AppendCondition) : Type 0 where
  pub items_lem : All IsQueryItem cond.query.items
  pub after_lem : IsPosition cond.after

-- Some event matches an item of the condition and lies after its position.
abbrev pub Conflict : AppendCondition → List StoredEvent → Type 0
Conflict cond history =
    (item : QueryItem) × In item cond.query.items × Found (λ e. Matches e item) history cond.after

abbrev pub SomeConflict : List AppendCondition → List StoredEvent → Type 0
SomeConflict conds history = (cond : AppendCondition) × In cond conds × Conflict cond history

-- Answers without an error give a verdict without one.
verdict-answers :
    (v : Verdict) (bs : List Bool)
    → (w : Verdict) × (verdict v (map ok bs) ≡ w)
      × (w.fdb_err ≡ v.fdb_err)
      × (w.app_err ≡ v.app_err)
      × ((w.matched ≡ true) ↔ ((v.matched ≡ true) ⊎ In true bs))
unfolding verdict note_result
verdict-answers v [] =
    (v, refl, refl, refl, (λ h. inl h, λ h. elim h [ inl e ↦ e | inr m ↦ absurd m ]))
verdict-answers v (true ∷ bs) =
    let (w, e, f, g, exact) = verdict-answers (record v { matched = true }) bs in
    (w, e, f, g, (λ h. inr (inl refl), λ h. exact.1 (inl refl)))
verdict-answers v (false ∷ bs) =
    let (w, e, f, g, exact) = verdict-answers v bs in
    (
      w,
      e,
      f,
      g,
      (
        λ h. elim (exact.0 h) [ inl k ↦ inl k | inr m ↦ inr (inr m) ],
        λ h. elim h [
          | inl k ↦ exact.1 (inl k)
          | inr m ↦ elim m [ inl k ↦ absurd (true≢false k) | inr n ↦ exact.1 (inr n) ]
        ],
      ),
    )

round_set :
    (c : Codec) (tr : Transaction) (namespace : Text) (events : List Event)
    (conds : List AppendCondition)
    → tr.set_option automatic_idempotency ≡ ok tt
    → append_round c tr namespace events conds
      ≡ decide_round c (with_option automatic_idempotency tr) namespace events (
          verdict
            (record { matched = false; fdb_err = none; app_err = none })
            (check_results c (with_option automatic_idempotency tr) namespace conds))
unfolding append_round
round_set c tr namespace events conds set =
    ap
      (λ (o : FdbResult (Unit {0})). elim o [
        | err e ↦ return (err (fdb e))
        | ok _ ↦ decide_round c (with_option automatic_idempotency tr) namespace events (
            verdict (record { matched = false; fdb_err = none; app_err = none })
              (check_results c (with_option automatic_idempotency tr) namespace conds))
      ])
      set

module _ (c : Codec) (laws : CodecLaws c) {namespace : Text} {history : List StoredEvent}
    {kvs : List KeyValue} (holds : Holds c namespace history kvs) (tr : Transaction)
    (sees : Sees false tr kvs) where
  item_answers :
      (after : Option Versionstamp)
      → IsPosition after
      → (items : List QueryItem) → All IsQueryItem items
      → (bs : List Bool) × (map (λ item. query_item_exists c tr namespace item after) items
          ≡ map ok bs)
        × (In true bs
            ↔ ((item : QueryItem) × In item items × Found (λ e. Matches e item) history after))
  item_answers after pos [] h = ([], refl, (λ m. absurd m, λ m. absurd m.1))
  item_answers after pos (item ∷ items) h =
      let (b, e, exact) = query_item_exists-Found c laws holds tr sees after pos item h.0 in
      let (bs, f, more) = item_answers after pos items h.1 in
      (
        b ∷ bs,
        ap₂ ◌∷◌ e f,
        (
          λ m. elim m [
            | inl k ↦ (item, inl refl, exact.0 (sym k))
            | inr n ↦ let (i, j, s) = more.0 n in (i, inr j, s)
          ],
          λ (i, m, s). elim m [
            | inl k ↦ inl (
                sym
                  (exact.1 (subst (λ (x : QueryItem). Found (λ e. Matches e x) history after) k s)))
            | inr n ↦ inr (more.1 (i, n, s))
          ],
        ),
      )

  condition_answers :
      (conds : List AppendCondition)
      → All IsCondition conds
      → (bs : List Bool) × (check_results c tr namespace conds ≡ map ok bs)
        × (In true bs ↔ SomeConflict conds history)
  unfolding check_results
  condition_answers [] h = ([], refl, (λ m. absurd m, λ m. absurd m.1))
  condition_answers (cond ∷ conds) h =
      let (answers, e, exact) =
        item_answers cond.after h.0.after_lem cond.query.items h.0.items_lem in
      let (bs, f, more) = condition_answers conds h.1 in
      (
        answers ++ bs,
        ap₂ ◌++◌ e f ∙ sym (map-append ok answers bs),
        (
          λ m. elim (In-append true answers bs m) [
            | inl k ↦ (cond, inl refl, exact.0 k)
            | inr k ↦ let (d, n, s) = more.0 k in (d, inr n, s)
          ],
          λ (d, m, s). elim m [
            | inl k ↦
                In-append_left true answers bs
                  (exact.1 (subst (λ (x : AppendCondition). Conflict x history) k s))
            | inr n ↦ In-append_right true answers bs (more.1 (d, n, s))
          ],
        ),
      )

module _ (c : Codec) (laws : CodecLaws c) {namespace : Text} {history : List StoredEvent}
    {kvs : List KeyValue} (holds : Holds c namespace history kvs) (tr : Transaction)
    (sees : Sees false tr kvs) where
  -- For a codec that meets the laws, a store that holds a history, a transaction whose reads other
  -- than snapshots see the store's pairs, and that lets the idempotency option be set, and
  -- conditions whose items ask for something, with texts of bytes and no reserved tag, and whose
  -- positions are 12 bytes: either some event of the history matches an item of a condition and
  -- lies after the condition's position, and a round of `append` returns AppendConditionFailed, or
  -- none does, and the round goes on to the writes and the commit of the batch, with the option
  -- set.
  pub append_round-Conflict :
      (events : List Event) (conds : List AppendCondition)
      → tr.set_option automatic_idempotency ≡ ok tt
      → All IsCondition conds
      → (SomeConflict conds history
          × (append_round c tr namespace events conds ≡ return (err append_condition_failed)))
        ⊎ ((¬ SomeConflict conds history)
            × (append_round c tr namespace events conds
                ≡ commit_batch c (with_option automatic_idempotency tr) namespace events))
  unfolding decide_round decide
  append_round-Conflict events conds set h =
      let tr' = with_option automatic_idempotency tr in
      let start : Verdict = record { matched = false; fdb_err = none; app_err = none } in
      let (bs, e, exact) =
        condition_answers c laws holds tr'
          (with_option-Sees automatic_idempotency false tr kvs sees) conds h in
      let (w, f, fdb_lem, app_lem, hit) = verdict-answers start bs in
      let same : verdict start (check_results c tr' namespace conds) ≡ w =
        ap (verdict start) e ∙ f in
      let run =
        round_set c tr namespace events conds set ∙ ap (decide_round c tr' namespace events) same in
      elim (Bool-cases w.matched) [
        | inl m ↦ inl (
          exact.0 (elim (hit.0 m) [ inl k ↦ absurd (true≢false (sym k)) | inr n ↦ n ]),
          run ∙ rw (fdb_lem, app_lem, m) refl,
        )
        | inr m ↦ inr (
          λ s. true≢false (sym (hit.1 (inr (exact.1 s))) ∙ m),
          run ∙ rw (fdb_lem, app_lem, m) refl,
        )
      ]
