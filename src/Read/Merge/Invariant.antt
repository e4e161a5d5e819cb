-- ===== src/Read/Merge/Invariant.antt =====
-- What holds of the merge of dcb-layer/src/read.rs between its rounds.
use dcb_layer.Common.{
  ℕ, zero, suc, ◌+◌, ◌<◌, ◌≡◌, refl, ◌↔◌, ◌⊎◌, inl, inr, Bool, true, false, Option, none, some,
  List, [], ◌∷◌, In, length, set, get_or, ◌==◌, if◌then◌else◌, arith, ok, err,
}
use dcb_layer.Common.Bytes.{Bytes}
use dcb_layer.Types.{Versionstamp}
use dcb_layer.Fdb.{FdbResult}
use dcb_layer.Read.Order.{before, IsOrdered}
use dcb_layer.Read.Keys.{extract_vs_from_key}
use dcb_layer.Read.Heap.{HeapItem}
use dcb_layer.Read.Merge.{KeyStream, Merging, next_vs}

-- The stream yields keys that end in the stamps, and no error.
abbrev pub Yields : KeyStream → List Versionstamp → Type 0
Yields [] [] = Unit
Yields (ok key ∷ stream) (vs ∷ vses) = (extract_vs_from_key key ≡ ok vs) × Yields stream vses
Yields _ _ = ⊥

-- How many keys the streams have left.
abbrev pub total : List KeyStream → ℕ
total [] = 0
total (stream ∷ streams) = length stream + total streams

-- The stamp is in the heap, or behind it in a stream.
abbrev pub Pending : Merging → (ℕ → List Versionstamp) → Versionstamp → Type 0
Pending m rest vs =
    ((item : HeapItem) × In item m.heap.items × (vs ≡ item.vs)) ⊎ ((i : ℕ) × In vs (rest i))

-- What the last emitted stamp is to the emitted ones.
abbrev pub IsLast : Bool → Option Versionstamp → List Versionstamp → Type 0
IsLast r none emitted = emitted ≡ []
IsLast r (some last) emitted =
    In last emitted × ((vs : Versionstamp) → In vs emitted → before r last vs ≡ false)

-- The invariant. `rest i` are the stamps that stream `i` has yet to yield; every stream that has
-- some, but for those in `Open`, has a stamp in the heap.
pub record Inv (r : Bool) (P : Versionstamp → Type 0) (Open : ℕ → Type 0) (m : Merging)
    (rest : ℕ → List Versionstamp) : Type 0 where
  pub direction : m.heap.backward ≡ r
  pub yields : (i : ℕ) → Yields (get_or m.streams i []) (rest i)
  pub rest_ordered : (i : ℕ) → IsOrdered r (rest i)
  pub heads :
      (item : HeapItem) (vs : Versionstamp)
      → In item m.heap.items
      → In vs (rest item.iter_idx)
      → before r item.vs vs ≡ true
  pub covered :
      (i : ℕ) (vs : Versionstamp)
      → In vs (rest i)
      → Open i ⊎ ((item : HeapItem) × In item m.heap.items × (item.iter_idx ≡ i))
  pub emitted_ordered : IsOrdered r m.ordered_vses
  pub is_last : IsLast r m.last_emitted m.ordered_vses
  pub late : (vs x : Versionstamp) → Pending m rest vs → In x m.ordered_vses → before r vs x ≡ false
  pub sources : (vs : Versionstamp) → P vs ↔ (In vs m.ordered_vses ⊎ Pending m rest vs)

-- The keys that the merge has yet to pop.
abbrev pub measure : Merging → ℕ
measure m = length m.heap.items + total m.streams

pub get_or-in_bounds :
    {A : Type 0} (xs : List (List A)) (i : ℕ) (a : A) (l : List A)
    → get_or xs i [] ≡ a ∷ l
    → i < length xs
get_or-in_bounds [] i a l h = absurd cc
get_or-in_bounds (x ∷ xs) zero a l h = omega arith
get_or-in_bounds (x ∷ xs) (suc i) a l h = omega (arith, get_or-in_bounds xs i a l h)

pub get_or-set :
    {A : Type 0} (xs : List A) (i j : ℕ) (a d : A)
    → i < length xs
    → get_or (set xs i a) j d ≡ (if j == i then a else get_or xs j d)
get_or-set [] i j a d h = absurd (omega arith)
get_or-set (x ∷ xs) zero zero a d h = refl
get_or-set (x ∷ xs) zero (suc j) a d h = ground arith
get_or-set (x ∷ xs) (suc i) zero a d h = ground arith
get_or-set (x ∷ xs) (suc i) (suc j) a d h = ground (arith, get_or-set xs i j a d)

pub total-set :
    (streams : List KeyStream) (i : ℕ) (stream : KeyStream)
    → i < length streams
    → total (set streams i stream) + length (get_or streams i []) ≡ total streams + length stream
total-set [] i stream h = absurd (omega arith)
total-set (x ∷ xs) zero stream h = omega arith
total-set (x ∷ xs) (suc i) stream h = omega (arith, total-set xs i stream)

-- The next stamp of a stream.
pub next_vs-Yields :
    (stream : KeyStream) (vses : List Versionstamp)
    → Yields stream vses
    → ((stream ≡ []) × (vses ≡ []) × (next_vs stream ≡ ok none))
      ⊎ ((vs : Versionstamp) × (key : FdbResult Bytes) × (stream' : KeyStream) × (vses' : List
            Versionstamp)
          × (stream ≡ key ∷ stream')
          × (vses ≡ vs ∷ vses')
          × (next_vs stream ≡ ok (some (vs, stream')))
          × Yields stream' vses')
unfolding next_vs
next_vs-Yields [] [] h = inl (refl, refl, refl)
next_vs-Yields [] (v ∷ vs) h = absurd h
next_vs-Yields (err e ∷ st) [] h = absurd h
next_vs-Yields (err e ∷ st) (v ∷ vs) h = absurd h
next_vs-Yields (ok k ∷ st) [] h = absurd h
next_vs-Yields (ok k ∷ st) (v ∷ vs) h = inr (v, ok k, st, vs, refl, refl, rw h.0 refl, h.1)
