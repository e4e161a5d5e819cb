-- ===== src/Read/Heap/Pop.antt =====
-- What `pop` of the heap of dcb-layer/src/read.rs takes.
use dcb_layer.Common.{
  suc, ◌≡◌, refl, sym, subst, ◌↔◌, ◌⊎◌, inl, inr, Bool, true, false, some, List, [], ◌∷◌, In,
  length, arith, Bool-cases,
}
use dcb_layer.Common.Bytes.{lt, eq_iff, lt_irrefl, lt_asymm}
use dcb_layer.Read.Order.{before, before_irrefl, not_before_trans}
use dcb_layer.Read.Heap.{HeapItem, item_lt, pops_before, pick, pop_item}

item_lt-true : (x y : HeapItem) → item_lt x y ≡ true → lt y.vs x.vs ≡ false
unfolding item_lt
item_lt-true x y h = ground (arith, eq_iff x.vs y.vs, lt_asymm x.vs y.vs, lt_irrefl x.vs)

item_lt-false : (x y : HeapItem) → item_lt x y ≡ false → lt x.vs y.vs ≡ false
unfolding item_lt
item_lt-false x y h = ground (arith, eq_iff x.vs y.vs, lt_irrefl x.vs)

pops_before-true :
    (r : Bool) (x y : HeapItem) → pops_before r x y ≡ true → before r y.vs x.vs ≡ false
unfolding pops_before
pops_before-true false x y h = item_lt-true x y h
pops_before-true true x y h = item_lt-true y x h

pops_before-false :
    (r : Bool) (x y : HeapItem) → pops_before r x y ≡ false → before r x.vs y.vs ≡ false
unfolding pops_before
pops_before-false false x y h = item_lt-false x y h
pops_before-false true x y h = item_lt-false y x h

-- The item is first among the items, and the rest is what else there is.
pub record Popped (r : Bool) (items : List HeapItem) (item : HeapItem) (rest : List HeapItem)
    : Type 0 where
  pub members : (y : HeapItem) → In y items ↔ ((y ≡ item) ⊎ In y rest)
  pub first : (y : HeapItem) → In y items → before r y.vs item.vs ≡ false
  pub count : length items ≡ suc (length rest)

Popped-cons :
    (r : Bool) (x y : HeapItem) (xs ys : List HeapItem)
    → pop_item r xs ≡ some (y, ys)
    → Popped r xs y ys
    → (z : HeapItem) × (zs : List HeapItem) × (pop_item r (x ∷ xs) ≡ some (z, zs))
      × Popped r (x ∷ xs) z zs
unfolding pop_item pick
Popped-cons r x y xs ys e p = elim (Bool-cases (pops_before r x y)) [
  | inl h ↦ (
    x,
    y ∷ ys,
    rw (e, h) refl,
    record {
      members = λ z. ground (arith, p.members z);
      first = λ z m. elim m [
        | inl k ↦
            subst (λ (w : HeapItem). before r w.vs x.vs ≡ false) (sym k) (before_irrefl r x.vs)
        | inr n ↦ not_before_trans r x.vs y.vs z.vs (pops_before-true r x y h) (p.first z n)
      ];
      count = omega (arith, p.count);
    },
  )
  | inr h ↦ (
    y,
    x ∷ ys,
    rw (e, h) refl,
    record {
      members = λ z. ground (arith, p.members z);
      first = λ z m. elim m [
        | inl k ↦
            subst (λ (w : HeapItem). before r w.vs y.vs ≡ false) (sym k) (pops_before-false r x y h)
        | inr n ↦ p.first z n
      ];
      count = omega (arith, p.count);
    },
  )
]

-- A heap with items yields one that is first.
pub pop_item-Popped :
    (r : Bool) (x : HeapItem) (xs : List HeapItem)
    → (y : HeapItem) × (ys : List HeapItem) × (pop_item r (x ∷ xs) ≡ some (y, ys))
      × Popped r (x ∷ xs) y ys
unfolding pop_item pick
pop_item-Popped r x [] = (
  x,
  [],
  refl,
  record {
    members = λ z. (λ m. m, λ m. m);
    first = λ z m. elim m [
      | inl k ↦ subst (λ (w : HeapItem). before r w.vs x.vs ≡ false) (sym k) (before_irrefl r x.vs)
      | inr n ↦ absurd n
    ];
    count = refl;
  },
)
pop_item-Popped r x (w ∷ ws) =
    let (y, ys, e, p) = pop_item-Popped r w ws in Popped-cons r x y (w ∷ ws) ys e p
