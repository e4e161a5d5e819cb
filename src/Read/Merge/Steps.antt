-- ===== src/Read/Merge/Steps.antt =====
-- One advance of a stream keeps the invariant of the merge.
use dcb_layer.Common.{
  ℕ, zero, suc, ◌≤◌, ◌<◌, ◌≡◌, ◌≢◌, refl, sym, ap, ◌∙◌, subst, ◌↔◌, ◌⊎◌, inl, inr, Bool, true, none,
  some, List, [], ◌∷◌, All-In, In, length, set, get_or, ◌==◌, ==_iff, Bool-cases, if◌then◌else◌,
  arith, ok,
}
use dcb_layer.Common.Bytes.{Bytes}
use dcb_layer.Types.{Versionstamp}
use dcb_layer.Fdb.{FdbResult}
use dcb_layer.Read.Order.{before, IsOrdered}
use dcb_layer.Read.Heap.{HeapItem, push}
use dcb_layer.Read.Merge.{KeyStream, Merging, next_vs, repush, advance_and_repush}
use dcb_layer.Read.Merge.Invariant.{
  Yields, Pending, Inv, measure, get_or-in_bounds, get_or-set, total-set, next_vs-Yields,
}

length-set : {A : Type 0} (xs : List A) (i : ℕ) (a : A) → length (set xs i a) ≡ length xs
length-set [] i a = refl
length-set (x ∷ xs) zero a = refl
length-set (x ∷ xs) (suc i) a = ap suc (length-set xs i a)

-- What an advance comes to.
abbrev pub Advanced : Bool → (Versionstamp → Type 0) → (ℕ → Type 0) → ℕ → Merging → Type 0
Advanced r P Open idx m =
    (m' : Merging) × (rest : ℕ → List Versionstamp) × (advance_and_repush idx m ≡ ok m')
    × Inv r P (λ j. Open j × (j ≢ idx)) m' rest
    × (measure m' ≤ measure m)
    × (length m'.streams ≡ length m.streams)
    × (m'.ordered_vses ≡ m.ordered_vses)

module _ {r : Bool} {P : Versionstamp → Type 0} {Open : ℕ → Type 0} {m : Merging}
    {rest : ℕ → List Versionstamp} (inv : Inv r P Open m rest) (idx : ℕ) where
  -- The stream is at its end.
  advance-end :
      rest idx ≡ [] → next_vs (get_or m.streams idx []) ≡ ok none → Advanced r P Open idx m
  unfolding advance_and_repush repush
  advance-end empty e = (
    m,
    rest,
    rw e refl,
    record {
      direction = inv.direction;
      yields = inv.yields;
      rest_ordered = inv.rest_ordered;
      heads = inv.heads;
      covered = λ i vs k. elim (Bool-cases (i == idx)) [
        | inl h ↦
            absurd
              (subst (λ (l : List Versionstamp). In vs l) (ap rest ((==_iff i idx).0 h) ∙ empty) k)
        | inr h ↦ elim (inv.covered i vs k) [
          | inl o ↦ inl (o, ground (arith, ==_iff i idx))
          | inr c ↦ inr c
        ]
      ];
      emitted_ordered = inv.emitted_ordered;
      is_last = inv.is_last;
      late = inv.late;
      sources = inv.sources;
    },
    omega arith,
    refl,
    refl,
  )

  module _ (vs : Versionstamp) (key : FdbResult Bytes) (stream : KeyStream)
      (vses : List Versionstamp) (at : get_or m.streams idx [] ≡ key ∷ stream)
      (now : rest idx ≡ vs ∷ vses) (yields : Yields stream vses) where
    abbrev rest' : ℕ → List Versionstamp
    rest' j = if j == idx then vses else rest j

    abbrev item' : HeapItem
    item' = record { vs = vs; iter_idx = idx }

    In-rest :
        (j : ℕ) (x : Versionstamp)
        → In x (rest' j) ↔ (((j ≡ idx) × In x vses) ⊎ ((j ≢ idx) × In x (rest j)))
    In-rest j x = elim (Bool-cases (j == idx)) [
      | inl h ↦ rw h (
        λ k. inl ((==_iff j idx).0 h, k),
        λ k. elim k [ inl p ↦ p.1 | inr p ↦ absurd (p.0 ((==_iff j idx).0 h)) ],
      )
      | inr h ↦ rw h (
        λ k. inr (ground (arith, ==_iff j idx), k),
        λ k. elim k [ inl p ↦ absurd (ground (arith, ==_iff j idx)) | inr p ↦ p.1 ],
      )
    ]

    In-rest_now : (x : Versionstamp) → In x (rest idx) ↔ ((x ≡ vs) ⊎ In x vses)
    In-rest_now x = rw now (λ k. k, λ k. k)

    In-rest_old : (j : ℕ) (x : Versionstamp) → In x (rest' j) → In x (rest j)
    In-rest_old j x k = elim ((In-rest j x).0 k) [
      | inl p ↦ subst (λ (i : ℕ). In x (rest i)) (sym p.0) ((In-rest_now x).1 (inr p.1))
      | inr p ↦ p.1
    ]

    abbrev next_state : Merging
    next_state = record m {
      streams = set m.streams idx stream;
      heap = record (m.heap) { items = item' ∷ m.heap.items };
    }

    in_bounds : idx < length m.streams
    in_bounds = get_or-in_bounds m.streams idx key stream at

    Pending-next : (x : Versionstamp) → Pending next_state rest' x ↔ Pending m rest x
    Pending-next x = (
      λ p. elim p [
        | inl (item, inl e, k) ↦
            inr (idx, (In-rest_now x).1 (inl (k ∙ ap (λ (i : HeapItem). i.vs) e)))
        | inl (item, inr n, k) ↦ inl (item, n, k)
        | inr (j, k) ↦ inr (j, In-rest_old j x k)
      ],
      λ p. elim p [
        | inl (item, n, k) ↦ inl (item, inr n, k)
        | inr (j, k) ↦ elim (Bool-cases (j == idx)) [
          | inl h ↦
              elim ((In-rest_now x).0 (subst (λ (i : ℕ). In x (rest i)) ((==_iff j idx).0 h) k)) [
                | inl e ↦ inl (item', inl refl, e)
                | inr n ↦ inr (idx, (In-rest idx x).1 (inl (refl, n)))
              ]
          | inr h ↦ inr (j, (In-rest j x).1 (inr (ground (arith, ==_iff j idx), k)))
        ]
      ],
    )

    Inv-next : Inv r P (λ j. Open j × (j ≢ idx)) next_state rest'
    Inv-next = record {
      direction = inv.direction;
      yields = λ j.
          rw (get_or-set m.streams idx j stream [] in_bounds)
            (elim (Bool-cases (j == idx)) [ inl h ↦ rw h yields | inr h ↦ rw h (inv.yields j) ]);
      rest_ordered = λ j. elim (Bool-cases (j == idx)) [
        | inl h ↦ rw h (subst (IsOrdered r) now (inv.rest_ordered idx)).1
        | inr h ↦ rw h (inv.rest_ordered j)
      ];
      heads = λ item x k l. elim k [
        | inl e ↦ head_before item x e l
        | inr n ↦ inv.heads item x n (In-rest_old item.iter_idx x l)
      ];
      covered = λ j x k. elim (Bool-cases (j == idx)) [
        | inl h ↦ inr (item', inl refl, sym ((==_iff j idx).0 h))
        | inr h ↦ elim (inv.covered j x (In-rest_old j x k)) [
          | inl o ↦ inl (o, ground (arith, ==_iff j idx))
          | inr (item, n, e) ↦ inr (item, inr n, e)
        ]
      ];
      emitted_ordered = inv.emitted_ordered;
      is_last = inv.is_last;
      late = λ x y p k. inv.late x y ((Pending-next x).0 p) k;
      sources = λ x. (
        λ p. elim ((inv.sources x).0 p) [ inl k ↦ inl k | inr q ↦ inr ((Pending-next x).1 q) ],
        λ q. (inv.sources x).1 (elim q [ inl k ↦ inl k | inr q' ↦ inr ((Pending-next x).0 q') ]),
      );
    }
      where
        head_before :
            (item : HeapItem) (x : Versionstamp)
            → item ≡ item'
            → In x (rest' item.iter_idx)
            → before r item.vs x ≡ true
        head_before item x e l =
            subst (λ (v : Versionstamp). before r v x ≡ true) (sym (ap (λ (i : HeapItem). i.vs) e))
              (All-In (λ y. before r vs y ≡ true) vses
                (subst (IsOrdered r) now (inv.rest_ordered idx)).0 x
                (elim ((In-rest idx x).0 (subst (λ (i : HeapItem). In x (rest' i.iter_idx)) e l)) [
                  | inl p ↦ p.1
                  | inr p ↦ absurd (p.0 refl)
                ]))

    advance-next :
        next_vs (get_or m.streams idx []) ≡ ok (some (vs, stream)) → Advanced r P Open idx m
    unfolding advance_and_repush repush push
    advance-next e = (
      next_state,
      rest',
      rw e refl,
      Inv-next,
      omega (arith, total-set m.streams idx stream in_bounds, ap length at),
      length-set m.streams idx stream,
      refl,
    )

-- An advance of a stream that yields succeeds, and puts the stream's next stamp into the heap.
pub advance-Inv :
    {r : Bool} {P : Versionstamp → Type 0} {Open : ℕ → Type 0} {m : Merging}
    {rest : ℕ → List Versionstamp}
    → Inv r P Open m rest
    → (idx : ℕ) → Advanced r P Open idx m
advance-Inv {m} {rest} inv idx =
    elim (next_vs-Yields (get_or m.streams idx []) (rest idx) (inv.yields idx)) [
      | inl (a, b, e) ↦ advance-end inv idx b e
      | inr (vs, key, stream, vses, a, b, e, y) ↦ advance-next inv idx vs key stream vses a b y e
    ]
