-- ===== src/Store/Reads.antt =====
-- What a list of ranges reads of a history.
use dcb_layer.Common.{
  ◌≡◌, ◌↔◌, ◌⊎◌, inl, inr, List, [], ◌∷◌, ◌++◌, In, In-append, In-append_left, In-append_right,
}
use dcb_layer.Common.Bytes.{Bytes}
use dcb_layer.Types.{StoredEvent}
use dcb_layer.Fdb.{KeyValue}
use dcb_layer.Fdb.Laws.{slice}

-- Some range holds some pair.
abbrev pub SomeRead : List (Bytes × Bytes) → List KeyValue → Type 0
SomeRead ranges kvs =
    (range : Bytes × Bytes) × (kv : KeyValue) × In range ranges × In kv (slice range kvs)

-- The ranges hold exactly the keys of the events with the property: those of one range are a common
-- prefix, the code of a stamp, and the event's position.
pub record Reads (history : List StoredEvent) (kvs : List KeyValue) (ranges : List (Bytes × Bytes))
    (P : StoredEvent → Type 0) : Type 0 where
  pub entries :
      (range : Bytes × Bytes)
      → In range ranges
      → (p : Bytes) × ((kv : KeyValue)
          → In kv (slice range kvs)
          → (se : StoredEvent) × In se history × P se × (kv.key ≡ p ++ 0x33 ∷ se.position))
  pub events :
      (se : StoredEvent)
      → In se history
      → P se
      → (range : Bytes × Bytes) × (kv : KeyValue) × (p : Bytes) × In range ranges
        × In kv (slice range kvs)
        × (kv.key ≡ p ++ 0x33 ∷ se.position)

module _ {history : List StoredEvent} {kvs : List KeyValue} where
  pub Reads-nil :
      {P : StoredEvent → Type 0} → ((se : StoredEvent) → ¬ P se) → Reads history kvs [] P
  Reads-nil h = record { entries = λ range m. absurd m; events = λ se m p. absurd (h se p) }

  pub Reads-append :
      {rs ss : List (Bytes × Bytes)} {P Q : StoredEvent → Type 0}
      → Reads history kvs rs P
      → Reads history kvs ss Q
      → Reads history kvs (rs ++ ss) (λ se. P se ⊎ Q se)
  Reads-append {rs} {ss} a b = record {
    entries = λ range m. elim (In-append range rs ss m) [
      | inl n ↦
          let (p, h) = a.entries range n in
          (p, λ kv k. let (se, l, q, e) = h kv k in (se, l, inl q, e))
      | inr n ↦
          let (p, h) = b.entries range n in
          (p, λ kv k. let (se, l, q, e) = h kv k in (se, l, inr q, e))
    ];
    events = λ se m p. elim p [
      | inl q ↦
          let (range, kv, pre, n, k, e) = a.events se m q in
          (range, kv, pre, In-append_left range rs ss n, k, e)
      | inr q ↦
          let (range, kv, pre, n, k, e) = b.events se m q in
          (range, kv, pre, In-append_right range rs ss n, k, e)
    ];
  }

  module _ {ranges : List (Bytes × Bytes)} {P : StoredEvent → Type 0}
      (reads : Reads history kvs ranges P) where
    pub Reads-map :
        {Q : StoredEvent → Type 0}
        → ((se : StoredEvent) → In se history → P se ↔ Q se)
        → Reads history kvs ranges Q
    Reads-map same = record {
      entries = λ range m.
          let (p, h) = reads.entries range m in
          (p, λ kv k. let (se, n, q, e) = h kv k in (se, n, (same se n).0 q, e));
      events = λ se m q. reads.events se m ((same se m).1 q);
    }

    -- Some pair is read exactly if there is an event.
    pub SomeRead-Reads : SomeRead ranges kvs ↔ ((se : StoredEvent) × In se history × P se)
    SomeRead-Reads = (
      λ (range, kv, m, k).
          let (p, h) = reads.entries range m in let (se, n, q, e) = h kv k in (se, n, q),
      λ (se, m, q). let (range, kv, p, n, k, e) = reads.events se m q in (range, kv, n, k),
    )
