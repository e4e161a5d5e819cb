-- ===== src/Fdb/Lookup.antt =====
-- Looking up a key among the pairs that a transaction sees.
use dcb_layer.Common.{
  ◌≡◌, sym, ap, ap₂, ◌∙◌, subst, inl, inr, Bool-cases, true, true≢false, some, List, [], ◌∷◌, In,
  All-In,
}
use dcb_layer.Common.Bytes.{Bytes, lt, lt_irrefl, eq, eq_iff}
use dcb_layer.Fdb.{KeyValue}
use dcb_layer.Fdb.Laws.{lookup, KeysAscend}

-- Of ascending keys, a pair of the list is the one that is looked up.
pub lookup-In :
    (kvs : List KeyValue) (key value : Bytes)
    → lookup key kvs ≡ some value
    → In (record { key = key; value = value }) kvs
unfolding lookup
lookup-In [] key value h = absurd cc
lookup-In (kv ∷ kvs) key value h = elim (Bool-cases (eq kv.key key)) [
  | inl e ↦
      let v : some kv.value ≡ some value = rw e at h in
      inl (sym (ap₂ (λ (k w : Bytes). record { key = k; value = w }) ((eq_iff kv.key key).0 e) cc))
  | inr n ↦ inr (lookup-In kvs key value (rw n at h))
]

pub In-lookup :
    (kvs : List KeyValue) (key value : Bytes)
    → KeysAscend kvs
    → In (record { key = key; value = value }) kvs
    → lookup key kvs ≡ some value
unfolding lookup
In-lookup [] key value a m = absurd m
In-lookup (kv ∷ kvs) key value a (inl e) =
    let k : kv.key ≡ key = ap (λ (x : KeyValue). x.key) (sym e) in
    rw ((eq_iff kv.key key).1 k) (ap (λ (x : KeyValue). some x.value) (sym e))
In-lookup (kv ∷ kvs) key value a (inr m) = elim (Bool-cases (eq kv.key key)) [
  | inl e ↦
      let l : lt kv.key key ≡ true =
        All-In (λ k. lt kv.key k.key ≡ true) kvs a.0 (record { key = key; value = value }) m in
      absurd (
        true≢false (
          sym (subst (λ (x : Bytes). lt x key ≡ true) ((eq_iff kv.key key).0 e) l) ∙ lt_irrefl key))
  | inr n ↦ rw n (In-lookup kvs key value a.1 m)
]
