-- ===== src/System/Batches.antt =====
-- The events of a batch of dcb-layer/src/append.rs at their positions: storable, and in order.
use dcb_layer.Common.{
  ℕ, suc, ◌+◌, ◌%◌, ◌≡◌, ◌≤◌, ◌<◌, sym, ◌∙◌, subst, inl, inr, true, false, List, [], ◌∷◌, ◌++◌, In,
  map, All, All-append, length, length-append, arith,
}
use dcb_layer.Common.Bytes.{Bytes, lt, lt-append}
use dcb_layer.Types.{Event, StoredEvent}
use dcb_layer.Tuple.Laws.{be_bytes}
use dcb_layer.Encoding.Tags.Sorted.{length-sort_tags}
use dcb_layer.Encoding.Values.RoundTrip.{IsEvent}
use dcb_layer.Query.After.{IsVersionstamp}
use dcb_layer.Read.Order.{IsOrdered}
use dcb_layer.Store.{IsStorable}
use dcb_layer.Append.Checks.{MayAppend}
use dcb_layer.Append.Commit.{positioned}
use dcb_layer.System.{IsVersion, IsAppendable}

stamped : (tx : Bytes) (i : ℕ) → IsVersion tx → IsVersionstamp (tx ++ be_bytes (i % 65536))
stamped tx i v = record {
  length_lem = omega (arith, length-append tx (be_bytes (i % 65536)), v.ten);
  bytes_lem = All-append _ tx (be_bytes (i % 65536)) v.version_bytes (omega arith);
}

-- An event that validation accepts can be stored at a position of its batch.
pub positioned-IsStorable :
    (tx : Bytes) (i : ℕ) (events : List Event)
    → IsVersion tx
    → All MayAppend events
    → All IsAppendable events
    → (se : StoredEvent) → In se (positioned tx i events)
    → IsStorable se × IsEvent se.event
positioned-IsStorable tx i [] v may can se m = absurd m
positioned-IsStorable tx i (event ∷ events) v may can se (inl e) =
    subst (λ (s : StoredEvent). IsStorable s × IsEvent s.event) (sym e)
      (
        record {
          type_bytes = can.0.type_bytes;
          type_free = can.0.type_free;
          tags_bytes = can.0.tags_bytes;
          tags_free = can.0.tags_free;
          tags_unreserved = may.0.2;
          tags_few = omega (arith, length-sort_tags event.tags, may.0.1);
          stamped = stamped tx i v;
        },
        record {
          type_bytes = can.0.type_bytes;
          tag_bytes = can.0.tags_bytes;
          payload_bytes = can.0.payload_bytes;
        },
      )
positioned-IsStorable tx i (event ∷ events) v may can se (inr m) =
    positioned-IsStorable tx (suc i) events v may.1 can.1 se m

lt-be_bytes :
    (i j : ℕ) → i < j → j < 65536 → lt (be_bytes (i % 65536)) (be_bytes (j % 65536)) ≡ true
unfolding lt
lt-be_bytes i j h k = ground arith

-- The positions of a batch ascend.
pub positioned-IsOrdered :
    (tx : Bytes) (i : ℕ) (events : List Event)
    → i + length events ≤ 65536
    → IsOrdered false (map (λ se. se.position) (positioned tx i events))
positioned-IsOrdered tx i [] few = tt
positioned-IsOrdered tx i (event ∷ events) few = (
  go (suc i) events (omega arith) (omega arith),
  positioned-IsOrdered tx (suc i) events (omega arith),
)
  where
    go :
        (j : ℕ) (es : List Event)
        → i < j
        → j + length es ≤ 65536
        → All
            (λ vs. lt (tx ++ be_bytes (i % 65536)) vs ≡ true)
            (map (λ se. se.position) (positioned tx j es))
    go j [] l f = tt
    go j (e ∷ es) l f = (
      lt-append tx _ _ ∙ lt-be_bytes i j l (omega arith),
      go (suc j) es (omega arith) (omega arith),
    )
