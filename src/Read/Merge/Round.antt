-- ===== src/Read/Merge/Round.antt =====
-- A round of the merge keeps the invariant, or ends the loop with the first stamps.
use dcb_layer.Common.{
  ℕ, ◌<◌, ◌≡◌, ◌≢◌, refl, sym, ap, ◌∙◌, subst, ◌↔◌, ◌⊎◌, inl, inr, Bool, true, false, true≢false,
  Option, none, some, List, [], ◌∷◌, ◌++◌, In, In-append, In-append_left, In-append_right, length,
  arith,
}
use dcb_layer.Common.Bytes.{eq_iff}
use dcb_layer.Types.{Versionstamp}
use dcb_layer.Read.Order.{
  before, before_irrefl, before_trans, before_trichotomy, before_asymm, before-of_not_before,
  IsOrdered, IsOrdered-append, IsFirst,
}
use dcb_layer.Read.Heap.{HeapItem}
use dcb_layer.Read.Heap.Pop.{Popped}
use dcb_layer.Read.Merge.{Merging, was_emitted}
use dcb_layer.Read.Merge.Invariant.{Pending, IsLast, Inv}

-- Every stream that has stamps left has one in the heap.
abbrev pub None : ℕ → Type 0
None i = ⊥

not_true : (b : Bool) → ¬ (b ≡ true) → b ≡ false
not_true true h = absurd (h refl)
not_true false h = refl

-- The state after a pop, with what was emitted then.
abbrev pub taken : Merging → List HeapItem → List Versionstamp → Option Versionstamp → Merging
taken m left emitted last = record m {
  heap = record (m.heap) { items = left };
  ordered_vses = emitted;
  last_emitted = last;
}

module _ {r : Bool} {P : Versionstamp → Type 0} {m : Merging} {rest : ℕ → List Versionstamp}
    (inv : Inv r P None m rest) (item : HeapItem) (left : List HeapItem)
    (first : Popped r m.heap.items item left) where
  pub item_in : In item m.heap.items
  item_in = (first.members item).1 (inl refl)

  -- What is pending is not before what popped.
  pop_first : (vs : Versionstamp) → Pending m rest vs → before r vs item.vs ≡ false
  pop_first vs (inl (y, n, e)) =
      subst (λ (x : Versionstamp). before r x item.vs ≡ false) (sym e) (first.first y n)
  pop_first vs (inr (i, k)) = elim (inv.covered i vs k) [
    | inl o ↦ absurd o
    | inr (y, n, e) ↦ not_true _ (
        before_asymm r item.vs vs (
          before-of_not_before r item.vs y.vs vs (first.first y n)
            (inv.heads y vs n (subst (λ (j : ℕ). In vs (rest j)) (sym e) k))))
  ]

  Pending-left :
      (emitted : List Versionstamp) (last : Option Versionstamp) (vs : Versionstamp)
      → Pending (taken m left emitted last) rest vs
      → Pending m rest vs
  Pending-left emitted last vs (inl (y, n, e)) = inl (y, (first.members y).1 (inr n), e)
  Pending-left emitted last vs (inr k) = inr k

  -- Where what popped is among the emitted, the invariant holds but for its stream.
  Inv-taken :
      (emitted : List Versionstamp) (last : Option Versionstamp)
      → IsOrdered r emitted
      → IsLast r last emitted
      → ((x : Versionstamp) → In x emitted ↔ (In x m.ordered_vses ⊎ (x ≡ item.vs)))
      → Inv r P (λ j. j ≡ item.iter_idx) (taken m left emitted last) rest
  Inv-taken emitted last ordered is_last members = record {
    direction = inv.direction;
    yields = inv.yields;
    rest_ordered = inv.rest_ordered;
    heads = λ y x n k. inv.heads y x ((first.members y).1 (inr n)) k;
    covered = λ j x k. elim (inv.covered j x k) [
      | inl o ↦ absurd o
      | inr (y, n, e) ↦ elim ((first.members y).0 n) [
        | inl same ↦ inl (sym e ∙ ap (λ (h : HeapItem). h.iter_idx) same)
        | inr l ↦ inr (y, l, e)
      ]
    ];
    emitted_ordered = ordered;
    is_last = is_last;
    late = λ vs x p k. elim ((members x).0 k) [
      | inl n ↦ inv.late vs x (Pending-left emitted last vs p) n
      | inr e ↦
          subst (λ (y : Versionstamp). before r vs y ≡ false) (sym e)
            (pop_first vs (Pending-left emitted last vs p))
    ];
    sources = λ x. (
      λ p. elim ((inv.sources x).0 p) [
        | inl k ↦ inl ((members x).1 (inl k))
        | inr (inl (y, n, e)) ↦ elim ((first.members y).0 n) [
          | inl same ↦ inl ((members x).1 (inr (e ∙ ap (λ (h : HeapItem). h.vs) same)))
          | inr l ↦ inr (inl (y, l, e))
        ]
        | inr (inr k) ↦ inr (inr k)
      ],
      λ q. (inv.sources x).1 (elim q [
        | inl k ↦ elim ((members x).0 k) [ inl n ↦ inl n | inr e ↦ inr (inl (item, item_in, e)) ]
        | inr p ↦ inr (Pending-left emitted last x p)
      ]),
    );
  }

  -- A duplicate is among the emitted.
  In-was_emitted :
      (last : Option Versionstamp)
      → IsLast r last m.ordered_vses
      → was_emitted last item.vs ≡ true
      → In item.vs m.ordered_vses
  unfolding was_emitted
  In-was_emitted none l h = absurd (true≢false (sym h))
  In-was_emitted (some v) l h =
      subst (λ (x : Versionstamp). In x m.ordered_vses) ((eq_iff v item.vs).0 h) l.0

  -- What is no duplicate of the last is none at all.
  fresh :
      (last : Option Versionstamp)
      → IsLast r last m.ordered_vses
      → was_emitted last item.vs ≡ false
      → ¬ In item.vs m.ordered_vses
  unfolding was_emitted
  fresh none l h k = subst (λ (xs : List Versionstamp). In item.vs xs) l k
  fresh (some v) l h k = elim (before_trichotomy r v item.vs) [
    | inl e ↦ true≢false (sym e ∙ l.1 item.vs k)
    | inr (inl e) ↦ true≢false (sym ((eq_iff v item.vs).1 e) ∙ h)
    | inr (inr e) ↦ true≢false (sym e ∙ inv.late item.vs v (inl (item, item_in, refl)) l.0)
  ]

  -- What pops and is no duplicate comes after all that was emitted.
  emitted_before :
      was_emitted m.last_emitted item.vs ≡ false
      → (y : Versionstamp) → In y m.ordered_vses
      → before r y item.vs ≡ true
  emitted_before h y k = elim (before_trichotomy r y item.vs) [
    | inl e ↦ e
    | inr (inl e) ↦
        absurd (
          fresh m.last_emitted inv.is_last h
            (subst (λ (x : Versionstamp). In x m.ordered_vses) e k))
    | inr (inr e) ↦ absurd (true≢false (sym e ∙ inv.late item.vs y (inl (item, item_in, refl)) k))
  ]

  abbrev pub emitted' : List Versionstamp
  emitted' = m.ordered_vses ++ item.vs ∷ []

  In-emitted' : (x : Versionstamp) → In x emitted' ↔ (In x m.ordered_vses ⊎ (x ≡ item.vs))
  In-emitted' x = (
    λ k. elim (In-append x m.ordered_vses (item.vs ∷ []) k) [
      | inl n ↦ inl n
      | inr (inl e) ↦ inr e
      | inr (inr n) ↦ absurd n
    ],
    λ k. elim k [
      | inl n ↦ In-append_left x m.ordered_vses (item.vs ∷ []) n
      | inr e ↦ In-append_right x m.ordered_vses (item.vs ∷ []) (inl e)
    ],
  )

  pub Inv-duplicate :
      was_emitted m.last_emitted item.vs ≡ true
      → Inv r P (λ j. j ≡ item.iter_idx) (taken m left m.ordered_vses m.last_emitted) rest
  Inv-duplicate h = Inv-taken m.ordered_vses m.last_emitted inv.emitted_ordered inv.is_last (λ x. (
    λ k. inl k,
    λ k. elim k [
      | inl n ↦ n
      | inr e ↦
          subst (λ (y : Versionstamp). In y m.ordered_vses) (sym e)
            (In-was_emitted m.last_emitted inv.is_last h)
    ],
  ))

  pub Inv-emit :
      was_emitted m.last_emitted item.vs ≡ false
      → Inv r P (λ j. j ≡ item.iter_idx) (taken m left emitted' (some item.vs)) rest
  Inv-emit h =
      Inv-taken emitted' (some item.vs)
        (IsOrdered-append r m.ordered_vses item.vs inv.emitted_ordered (emitted_before h))
        (
          (In-emitted' item.vs).1 (inr refl),
          λ y k. elim ((In-emitted' y).0 k) [
            | inl n ↦ not_true _ (before_asymm r y item.vs (emitted_before h y n))
            | inr e ↦
                subst (λ (x : Versionstamp). before r item.vs x ≡ false) (sym e)
                  (before_irrefl r item.vs)
          ],
        )
        In-emitted'

  -- A list that is full is first.
  pub IsFirst-full :
      (limit : ℕ)
      → was_emitted m.last_emitted item.vs ≡ false
      → 0 < limit
      → length emitted' ≡ limit
      → IsFirst r limit P emitted'
  IsFirst-full limit h some_limit full =
      let after = Inv-emit h in
      record {
        ordered = after.emitted_ordered;
        sound = λ x k. (after.sources x).1 (inl k);
        complete = λ x p. elim ((after.sources x).0 p) [
          | inl k ↦ inl k
          | inr q ↦ elim (before_trichotomy r item.vs x) [
            | inl e ↦ inr (
              some_limit,
              full,
              λ y k. elim ((In-emitted' y).0 k) [
                | inl n ↦ before_trans r y item.vs x (emitted_before h y n) e
                | inr s ↦ subst (λ (z : Versionstamp). before r z x ≡ true) (sym s) e
              ],
            )
            | inr (inl e) ↦ inl ((In-emitted' x).1 (inr (sym e)))
            | inr (inr e) ↦
                absurd
                  (true≢false (sym e ∙ after.late x item.vs q ((In-emitted' item.vs).1 (inr refl))))
          ]
        ];
        within = λ l. omega arith;
      }

  -- The invariant after the advance of the stream that was popped.
  pub Inv-closed :
      {m' : Merging} {rest' : ℕ → List Versionstamp}
      → Inv r P (λ j. (j ≡ item.iter_idx) × (j ≢ item.iter_idx)) m' rest'
      → Inv r P None m' rest'
  Inv-closed i = record {
    direction = i.direction;
    yields = i.yields;
    rest_ordered = i.rest_ordered;
    heads = i.heads;
    covered = λ j x k. elim (i.covered j x k) [ inl o ↦ absurd (o.1 o.0) | inr s ↦ inr s ];
    emitted_ordered = i.emitted_ordered;
    is_last = i.is_last;
    late = i.late;
    sources = i.sources;
  }
