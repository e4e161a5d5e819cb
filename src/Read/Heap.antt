-- ===== src/Read/Heap.antt =====
-- `HeapItem` and `MergeHeap` of dcb-layer/src/read.rs. The standard library's `BinaryHeap` is the
-- list of its items in no order; `pop` takes the one that its order puts first.
pub mod Pop
use dcb_layer.Common.{ℕ, Bool, Option, none, some, List, [], ◌∷◌, ltb, if◌then◌else◌}
use dcb_layer.Common.Bytes.{lt, eq}
use dcb_layer.Types.{Versionstamp}

pub record HeapItem : Type 0 where
  pub vs : Versionstamp
  pub iter_idx : ℕ

-- `Ord::cmp` is `Less`: by the stamp, then by the stream.
unfoldable pub item_lt : HeapItem → HeapItem → Bool
unfolding lt eq
item_lt a b = if eq a.vs b.vs then ltb a.iter_idx b.iter_idx else lt a.vs b.vs

-- `Forward` pops the least item first, `Backward` the greatest.
pub record MergeHeap : Type 0 where
  pub backward : Bool
  pub items : List HeapItem

unfoldable pub new_heap : Bool → MergeHeap
new_heap reverse = record { backward = reverse; items = [] }

unfoldable pub push : MergeHeap → HeapItem → MergeHeap
push heap item = record heap { items = item ∷ heap.items }

unfoldable pub pops_before : Bool → HeapItem → HeapItem → Bool
unfolding item_lt
pops_before backward a b = if backward then item_lt b a else item_lt a b

-- Of the new item and what the others yield, the one that pops first.
unfoldable pub pick :
    Bool → HeapItem → Option (HeapItem × List HeapItem) → Option (HeapItem × List HeapItem)
unfolding pops_before
pick backward x none = some (x, [])
pick backward x (some (y, ys)) =
    if pops_before backward x y then some (x, y ∷ ys) else some (y, x ∷ ys)

unfoldable pub pop_item : Bool → List HeapItem → Option (HeapItem × List HeapItem)
unfolding pick
pop_item backward [] = none
pop_item backward (x ∷ xs) = pick backward x (pop_item backward xs)

-- What is left is the heap again.
unfoldable pub popped :
    MergeHeap → Option (HeapItem × List HeapItem) → Option (HeapItem × MergeHeap)
popped heap none = none
popped heap (some (item, rest)) = some (item, record heap { items = rest })

unfoldable pub pop : MergeHeap → Option (HeapItem × MergeHeap)
unfolding pop_item popped
pop heap = popped heap (pop_item heap.backward heap.items)
