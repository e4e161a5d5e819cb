-- ===== src/Read/Merge/Outcome.antt =====
-- The merge of dcb-layer/src/read.rs ends with the first stamps of its streams.
use dcb_layer.Common.{
  ℕ, zero, suc, ◌+◌, ◌≤◌, ◌<◌, ◌≡◌, refl, sym, ap, ◌∙◌, subst, ◌⊎◌, inl, inr, Bool, true, false,
  ◌&&◌, Option, none, some, List, [], ◌∷◌, ◌++◌, In, length, length-append, get_or, ltb, leb,
  Bool-cases, arith, ok,
}
use dcb_layer.Types.{Versionstamp}
use dcb_layer.Read.Order.{IsFirst}
use dcb_layer.Read.Heap.{HeapItem, MergeHeap, pop, popped, pop_item}
use dcb_layer.Read.Heap.Pop.{Popped, pop_item-Popped}
use dcb_layer.Read.Merge.{
  KeyStream, Merging, stop, go, proceed, was_emitted, emit, after_pop, merge_step, after_step,
  merge_loop, seed, advance_and_repush,
}
use dcb_layer.Read.Merge.Invariant.{Yields, Pending, Inv, measure}
use dcb_layer.Read.Merge.Steps.{advance-Inv}
use dcb_layer.Read.Merge.Round.{None, taken, Inv-duplicate, Inv-emit, IsFirst-full, Inv-closed}

-- The limit is not reached yet.
abbrev pub HasRoom : ℕ → Merging → Type 0
HasRoom limit m = 0 < limit → length m.ordered_vses < limit

-- A heap with no item yields none, any other its first.
pop-cases :
    (heap : MergeHeap)
    → ((heap.items ≡ []) × (pop heap ≡ none))
      ⊎ ((item : HeapItem) × (left : List HeapItem) × (pop heap
            ≡ some (item, record heap { items = left }))
          × Popped heap.backward heap.items item left)
unfolding pop popped pop_item
pop-cases heap = go heap.items refl
  where
    go :
        (items : List HeapItem)
        → heap.items ≡ items
        → ((heap.items ≡ []) × (pop heap ≡ none))
          ⊎ ((item : HeapItem) × (left : List HeapItem) × (pop heap
                ≡ some (item, record heap { items = left }))
              × Popped heap.backward heap.items item left)
    go [] e = inl (e, ap (λ (l : List HeapItem). popped heap (pop_item heap.backward l)) e)
    go (x ∷ xs) e =
        let (item, left, q, p) = pop_item-Popped heap.backward x xs in
        inr (
          item,
          left,
          ap (λ (l : List HeapItem). popped heap (pop_item heap.backward l)) e ∙ ap (popped heap) q,
          subst (λ (l : List HeapItem). Popped heap.backward l item left) (sym e) p,
        )

is_full : (limit n : ℕ) → (ltb 0 limit && leb limit n) ≡ true → (0 < limit) × (limit ≤ n)
is_full limit n h = ground arith

not_full : (limit n : ℕ) → (ltb 0 limit && leb limit n) ≡ false → 0 < limit → n < limit
not_full limit n h l = ground arith

-- A round ends the loop with the first stamps, or goes on.
abbrev RoundEnds : Bool → (Versionstamp → Type 0) → ℕ → Merging → Type 0
RoundEnds r P limit m =
    (found : List Versionstamp) × (merge_step limit m ≡ stop (ok found)) × IsFirst r limit P found

abbrev RoundGoes : Bool → (Versionstamp → Type 0) → ℕ → Merging → Type 0
RoundGoes r P limit m =
    (m' : Merging) × (rest : ℕ → List Versionstamp) × (merge_step limit m ≡ go m')
    × Inv r P None m' rest
    × (measure m' < measure m)
    × HasRoom limit m'

module _ {r : Bool} {P : Versionstamp → Type 0} (limit : ℕ) {m : Merging}
    {rest : ℕ → List Versionstamp} (inv : Inv r P None m rest) (room : HasRoom limit m) where
  round_end : m.heap.items ≡ [] → pop m.heap ≡ none → RoundEnds r P limit m
  unfolding merge_step after_pop
  round_end empty e = (
    m.ordered_vses,
    rw e refl,
    record {
      ordered = inv.emitted_ordered;
      sound = λ x k. (inv.sources x).1 (inl k);
      complete = λ x p. elim ((inv.sources x).0 p) [ inl k ↦ inl k | inr q ↦ absurd (nothing x q) ];
      within = λ l. omega (arith, room l);
    },
  )
    where
      nothing : (x : Versionstamp) → ¬ Pending m rest x
      nothing x (inl (y, n, e)) = subst (λ (l : List HeapItem). In y l) empty n
      nothing x (inr (i, k)) = elim (inv.covered i x k) [
        | inl o ↦ o
        | inr (y, n, e) ↦ subst (λ (l : List HeapItem). In y l) empty n
      ]

  module _ (item : HeapItem) (left : List HeapItem)
      (popped_lem : pop m.heap ≡ some (item, record (m.heap) { items = left }))
      (first : Popped r m.heap.items item left) where
    -- The advance of the popped stream ends the round.
    round_advance :
        (emitted : List Versionstamp) (last : Option Versionstamp)
        → merge_step limit m
          ≡ proceed (advance_and_repush item.iter_idx (taken m left emitted last))
        → Inv r P (λ j. j ≡ item.iter_idx) (taken m left emitted last) rest
        → (0 < limit → length emitted < limit)
        → RoundGoes r P limit m
    unfolding proceed
    round_advance emitted last run i few =
        let (m', rest', e, i', less, same, out) = advance-Inv i item.iter_idx in
        (
          m',
          rest',
          run ∙ ap proceed e,
          Inv-closed inv item left first i',
          omega (arith, first.count),
          λ l. omega (arith, few l, ap length out),
        )

    round_popped : RoundEnds r P limit m ⊎ RoundGoes r P limit m
    unfolding merge_step after_pop emit
    round_popped = elim (Bool-cases (was_emitted m.last_emitted item.vs)) [
      | inl old ↦ inr (
          round_advance m.ordered_vses m.last_emitted (rw (popped_lem, old) refl)
            (Inv-duplicate inv item left first old) room)
      | inr new ↦
          elim (Bool-cases (ltb 0 limit && leb limit (length (m.ordered_vses ++ item.vs ∷ [])))) [
            | inl full ↦ inl (
              m.ordered_vses ++ item.vs ∷ [],
              rw (popped_lem, new, full) refl,
              IsFirst-full inv item left first limit new (is_full limit _ full).0 (
                  omega (
                    arith,
                    is_full limit _ full,
                    room (is_full limit _ full).0,
                    length-append m.ordered_vses (item.vs ∷ []),
                  )),
            )
            | inr more ↦ inr (
                round_advance (m.ordered_vses ++ item.vs ∷ []) (some item.vs)
                  (rw (popped_lem, new, more) refl) (Inv-emit inv item left first new)
                  (λ l. not_full limit _ more l))
          ]
    ]

  round : RoundEnds r P limit m ⊎ RoundGoes r P limit m
  round = elim (pop-cases m.heap) [
    | inl (empty, e) ↦ inl (round_end empty e)
    | inr (item, left, e, p) ↦
        round_popped item left e
          (subst (λ (b : Bool). Popped b m.heap.items item left) inv.direction p)
  ]

-- With more fuel than keys the loop ends with the first stamps.
pub merge_loop-IsFirst :
    {r : Bool} {P : Versionstamp → Type 0} (limit fuel : ℕ) (m : Merging)
    {rest : ℕ → List Versionstamp}
    → Inv r P None m rest
    → HasRoom limit m
    → measure m < fuel
    → (found : List Versionstamp) × (merge_loop fuel limit m ≡ some (ok found))
      × IsFirst r limit P found
unfolding merge_loop after_step
merge_loop-IsFirst limit zero m inv room enough = absurd (omega arith)
merge_loop-IsFirst limit (suc fuel) m inv room enough = elim (round limit inv room) [
  | inl (found, e, first) ↦ (found, rw e refl, first)
  | inr (m', rest', e, inv', less, room') ↦
      let (found, run, first) = merge_loop-IsFirst limit fuel m' inv' room' (omega arith) in
      (found, rw e run, first)
]

pub Inv-Open :
    {r : Bool} {P : Versionstamp → Type 0} {Open Open' : ℕ → Type 0} {m : Merging}
    {rest : ℕ → List Versionstamp}
    → Inv r P Open m rest
    → ((j : ℕ) (vs : Versionstamp) → In vs (rest j) → Open j → Open' j)
    → Inv r P Open' m rest
Inv-Open inv h = record {
  direction = inv.direction;
  yields = inv.yields;
  rest_ordered = inv.rest_ordered;
  heads = inv.heads;
  covered = λ j vs k. elim (inv.covered j vs k) [ inl o ↦ inl (h j vs k o) | inr s ↦ inr s ];
  emitted_ordered = inv.emitted_ordered;
  is_last = inv.is_last;
  late = inv.late;
  sources = inv.sources;
}

-- The seed of the heap covers every stream.
pub seed-Inv :
    {r : Bool} {P : Versionstamp → Type 0} (i : ℕ) (streams : List KeyStream) (m : Merging)
    {rest : ℕ → List Versionstamp}
    → Inv r P (λ j. i ≤ j) m rest
    → i + length streams ≡ length m.streams
    → (m' : Merging) × (rest' : ℕ → List Versionstamp) × (seed i streams m ≡ ok m')
      × Inv r P (λ j. length m'.streams ≤ j) m' rest'
      × (measure m' ≤ measure m)
      × (m'.ordered_vses ≡ m.ordered_vses)
unfolding seed
seed-Inv i [] m {rest} inv e =
    (m, rest, refl, Inv-Open inv (λ j vs k o. omega arith), omega arith, refl)
seed-Inv i (stream ∷ streams) m inv e =
    let (m1, rest1, run, inv1, less, same, out) = advance-Inv inv i in
    let (m2, rest2, run', inv2, less', out') =
      seed-Inv (suc i) streams m1 (Inv-Open inv1 (λ j vs k o. ground (arith, o))) (omega arith) in
    (m2, rest2, rw run run', inv2, omega arith, out' ∙ out)

pub get_or-out : {A : Type 0} (xs : List (List A)) (j : ℕ) → length xs ≤ j → get_or xs j [] ≡ []
get_or-out [] j h = refl
get_or-out (x ∷ xs) zero h = absurd (omega arith)
get_or-out (x ∷ xs) (suc j) h = get_or-out xs j (omega arith)

pub Yields-nil : (vses : List Versionstamp) → Yields [] vses → vses ≡ []
Yields-nil [] h = refl
Yields-nil (v ∷ vses) h = absurd h
