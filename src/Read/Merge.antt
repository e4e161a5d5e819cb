-- ===== src/Read/Merge.antt =====
-- The merge of `read_events` in dcb-layer/src/read.rs: streams of keys, the heap of their first
-- stamps, and the loop that emits each stamp once, in order.
pub mod Invariant
pub mod Steps
pub mod Round
pub mod Outcome
pub mod Streams
use dcb_layer.Common.{
  ℕ, zero, suc, Bool, true, false, ◌&&◌, Option, none, some, List, [], ◌∷◌, ◌++◌, length, set,
  get_or, ltb, leb, not, if◌then◌else◌, Result, ok, err, ◌>>=◌,
}
use dcb_layer.Common.Bytes.{Bytes, eq}
use dcb_layer.Types.{Versionstamp}
use dcb_layer.Error.{Error, fdb}
use dcb_layer.Fdb.{FdbResult}
use dcb_layer.Read.Keys.{extract_vs_from_key}
use dcb_layer.Read.Heap.{HeapItem, MergeHeap, new_heap, push, pop}
use dcb_layer.Append.{and_then}

-- What a stream of keys has yet to yield.
abbrev pub KeyStream : Type 0
KeyStream = List (FdbResult Bytes)

-- The next stamp of a stream, and the stream behind it.
unfoldable pub next_vs : KeyStream → Result (Option (Versionstamp × KeyStream)) Error
unfolding extract_vs_from_key
next_vs [] = ok none
next_vs (ok key_bytes ∷ stream) = do vs ← extract_vs_from_key key_bytes; ok (some (vs, stream))
next_vs (err e ∷ stream) = err (fdb e)

-- The loop's variables.
pub record Merging : Type 0 where
  pub streams : List KeyStream
  pub heap : MergeHeap
  pub ordered_vses : List Versionstamp
  pub last_emitted : Option Versionstamp

unfoldable pub repush : ℕ → Merging → Option (Versionstamp × KeyStream) → Merging
unfolding push
repush idx m none = m
repush idx m (some (vs, stream)) = record m {
  streams = set m.streams idx stream;
  heap = push m.heap (record { vs = vs; iter_idx = idx });
}

unfoldable pub advance_and_repush : ℕ → Merging → Result Merging Error
unfolding next_vs repush
advance_and_repush idx m = do next ← next_vs (get_or m.streams idx []); ok (repush idx m next)

-- `for (i, stream) in streams.iter_mut().enumerate()`, from index `i` on, with the streams left.
unfoldable pub seed : ℕ → List KeyStream → Merging → Result Merging Error
unfolding advance_and_repush
seed i [] m = ok m
seed i (stream ∷ streams) m = do m' ← advance_and_repush i m; seed (suc i) streams m'

-- `last_emitted == Some(vs)`.
unfoldable pub was_emitted : Option Versionstamp → Versionstamp → Bool
unfolding eq
was_emitted none vs = false
was_emitted (some last) vs = eq last vs

unfoldable pub emit : Versionstamp → Merging → Merging
emit vs m = record m { ordered_vses = m.ordered_vses ++ vs ∷ []; last_emitted = some vs }

-- How a round of the loop ends: the loop returns, or goes on.
pub data MergeStep : Type 0 where
  stop : Result (List Versionstamp) Error → MergeStep
  go : Merging → MergeStep

-- `advance_and_repush(..).await?`, the last statement of a round.
unfoldable pub proceed : Result Merging Error → MergeStep
proceed (ok m) = go m
proceed (err e) = stop (err e)

-- A round with what the heap popped.
unfoldable pub after_pop : ℕ → Merging → Option (HeapItem × MergeHeap) → MergeStep
unfolding proceed advance_and_repush was_emitted emit
after_pop limit m none = stop (ok m.ordered_vses)
after_pop limit m (some (item, heap)) =
    let m' = record m { heap = heap } in
    let emitted = emit item.vs m' in
    if was_emitted m.last_emitted item.vs
    then proceed (advance_and_repush item.iter_idx m')
    else if ltb 0 limit && leb limit (length emitted.ordered_vses)
    then stop (ok emitted.ordered_vses)
    else proceed (advance_and_repush item.iter_idx emitted)

-- The body of `while let Some(item) = heap.pop()`.
unfoldable pub merge_step : ℕ → Merging → MergeStep
unfolding after_pop pop
merge_step limit m = after_pop limit m (pop m.heap)

unfoldable pub after_step :
    MergeStep
    → (Merging → Option (Result (List Versionstamp) Error))
    → Option (Result (List Versionstamp) Error)
after_step (stop r) k = some r
after_step (go m) k = k m

-- The loop, on fuel; `none` is a loop that has not ended yet.
unfoldable pub merge_loop : ℕ → ℕ → Merging → Option (Result (List Versionstamp) Error)
unfolding merge_step after_step
merge_loop zero limit m = none
merge_loop (suc fuel) limit m = after_step (merge_step limit m) (λ m'. merge_loop fuel limit m')

unfoldable pub initial : Bool → List KeyStream → Merging
unfolding new_heap
initial reverse streams = record {
  streams = streams;
  heap = new_heap reverse;
  ordered_vses = [];
  last_emitted = none;
}

-- The heap is seeded with the first stamp of every stream, then the loop runs.
unfoldable pub merge_streams :
    ℕ → ℕ → Bool → List KeyStream → Option (Result (List Versionstamp) Error)
unfolding seed merge_loop initial and_then
merge_streams fuel limit reverse streams =
    and_then (seed 0 streams (initial reverse streams)) (λ m. merge_loop fuel limit m)
