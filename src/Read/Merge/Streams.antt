-- ===== src/Read/Merge/Streams.antt =====
-- The merge of dcb-layer/src/read.rs as a function of its streams.
use dcb_layer.Common.{
  ℕ, zero, suc, ◌≤◌, ◌<◌, ◌≡◌, refl, ap, subst, inl, inr, Bool, some, List, [], ◌∷◌, All, In,
  length, get_or, arith, ok,
}
use dcb_layer.Types.{Versionstamp}
use dcb_layer.Append.{and_then}
use dcb_layer.Read.Order.{IsOrdered, IsFirst}
use dcb_layer.Read.Heap.{new_heap}
use dcb_layer.Read.Merge.{KeyStream, initial, merge_streams}
use dcb_layer.Read.Merge.Invariant.{Yields, total, Inv}
use dcb_layer.Read.Merge.Round.{None}
use dcb_layer.Read.Merge.Outcome.{merge_loop-IsFirst, Inv-Open, seed-Inv, get_or-out, Yields-nil}

-- Each stream yields its list of stamps.
abbrev pub AllYield : List KeyStream → List (List Versionstamp) → Type 0
AllYield [] [] = Unit
AllYield (stream ∷ streams) (vses ∷ lists) = Yields stream vses × AllYield streams lists
AllYield _ _ = ⊥

-- The stamp is in one of the lists.
abbrev pub Source : List (List Versionstamp) → Versionstamp → Type 0
Source lists vs = (vses : List Versionstamp) × In vses lists × In vs vses

AllYield-get_or :
    (streams : List KeyStream) (lists : List (List Versionstamp))
    → AllYield streams lists
    → (i : ℕ) → Yields (get_or streams i []) (get_or lists i [])
AllYield-get_or [] [] h i = tt
AllYield-get_or [] (l ∷ ls) h i = absurd h
AllYield-get_or (s ∷ ss) [] h i = absurd h
AllYield-get_or (s ∷ ss) (l ∷ ls) h zero = h.0
AllYield-get_or (s ∷ ss) (l ∷ ls) h (suc i) = AllYield-get_or ss ls h.1 i

All-get_or :
    (r : Bool) (lists : List (List Versionstamp))
    → All (IsOrdered r) lists
    → (i : ℕ) → IsOrdered r (get_or lists i [])
All-get_or r [] h i = tt
All-get_or r (l ∷ ls) h zero = h.0
All-get_or r (l ∷ ls) h (suc i) = All-get_or r ls h.1 i

Source-of_get_or :
    (lists : List (List Versionstamp)) (i : ℕ) (vs : Versionstamp)
    → In vs (get_or lists i [])
    → Source lists vs
Source-of_get_or [] i vs k = absurd k
Source-of_get_or (l ∷ ls) zero vs k = (l, inl refl, k)
Source-of_get_or (l ∷ ls) (suc i) vs k =
    let (vses, n, m) = Source-of_get_or ls i vs k in (vses, inr n, m)

Source-get_or :
    (lists : List (List Versionstamp)) (vs : Versionstamp) (vses : List Versionstamp)
    → In vses lists
    → In vs vses
    → (i : ℕ) × In vs (get_or lists i [])
Source-get_or [] vs vses n m = absurd n
Source-get_or (l ∷ ls) vs vses (inl e) m = (0, subst (In vs) e m)
Source-get_or (l ∷ ls) vs vses (inr n) m = let (i, k) = Source-get_or ls vs vses n m in (suc i, k)

initial-Inv :
    (r : Bool) (streams : List KeyStream) (lists : List (List Versionstamp))
    → AllYield streams lists
    → All (IsOrdered r) lists
    → Inv r (Source lists) (λ j. 0 ≤ j) (initial r streams) (λ i. get_or lists i [])
unfolding initial new_heap
initial-Inv r streams lists h o = record {
  direction = refl;
  yields = AllYield-get_or streams lists h;
  rest_ordered = All-get_or r lists o;
  heads = λ item vs k l. absurd k;
  covered = λ i vs k. inl (omega arith);
  emitted_ordered = tt;
  is_last = refl;
  late = λ vs x p k. absurd k;
  sources = λ vs. (
    λ s. inr (inr (Source-get_or lists vs s.0 s.1 s.2)),
    λ q. elim q [
      | inl k ↦ absurd k
      | inr (inl (item, k, e)) ↦ absurd k
      | inr (inr (i, k)) ↦ Source-of_get_or lists i vs k
    ],
  );
}

-- For streams that yield keys ending in stamps, without errors, each in the order of the read: on
-- any fuel above the number of keys, `merge_streams` returns stamps of the streams in the order of
-- the read, without duplicates, at most `limit` unless it is 0, and every stamp of a stream is
-- among them, or comes behind a full list of `limit`.
pub merge_streams-IsFirst :
    (r : Bool) (limit fuel : ℕ) (streams : List KeyStream) (lists : List (List Versionstamp))
    → AllYield streams lists
    → All (IsOrdered r) lists
    → total streams < fuel
    → (found : List Versionstamp) × (merge_streams fuel limit r streams ≡ some (ok found))
      × IsFirst r limit (Source lists) found
unfolding merge_streams and_then initial new_heap
merge_streams-IsFirst r limit fuel streams lists h o enough =
    let start = initial-Inv r streams lists h o in
    let (m, rest, run, inv, less, out) =
      seed-Inv 0 streams (initial r streams) start (omega arith) in
    let all_in : Inv r (Source lists) None m rest = Inv-Open inv (λ j vs k far.
      subst (λ (l : List Versionstamp). In vs l)
        (Yields-nil (rest j) (
          subst (λ (s : KeyStream). Yields s (rest j)) (get_or-out m.streams j far) (inv.yields j)))
        k) in
    let (found, run', first) =
      merge_loop-IsFirst limit fuel m all_in (λ l. omega (arith, ap length out, l)) (omega arith) in
    (found, rw run run', first)
