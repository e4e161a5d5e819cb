-- ===== src/Store/Discover.antt =====
-- The discovery scan finds exactly the types of the events that carry the tags.
use dcb_layer.Common.{
  ℕ, ◌-◌, ◌≡◌, refl, sym, ap, ◌∙◌, subst, ◌↔◌, ◌⊎◌, inl, inr, true, false, true≢false, some, List,
  [], ◌∷◌, ◌++◌, map, In, In-append, In-append_left, In-append_right, any, length, get_elem?, ltb,
  arith, if◌then◌else◌, Bool-cases, ok,
}
use dcb_layer.Common.Bytes.{Bytes, Text, eq, eq_iff}
use dcb_layer.Tuple.{Element, string, Codec}
use dcb_layer.Fdb.{KeyValue}
use dcb_layer.Fdb.Laws.{in_range, slice}
use dcb_layer.Query.{note_type, discover_loop}

-- A slice holds the pairs in its range.
pub In-slice :
    (r : Bytes × Bytes) (kv : KeyValue) (kvs : List KeyValue)
    → In kv (slice r kvs) ↔ (In kv kvs × (in_range r kv.key ≡ true))
unfolding slice
In-slice r kv [] = (λ m. absurd m, λ m. absurd m.0)
In-slice r kv (k ∷ kvs) =
    let (to, from) = In-slice r kv kvs in
    elim (Bool-cases (in_range r k.key)) [
      | inl within ↦ rw within (
        λ m. elim m [
          | inl e ↦ (inl e, ap (λ (x : KeyValue). in_range r x.key) e ∙ within)
          | inr n ↦ (inr (to n).0, (to n).1)
        ],
        λ (m, w). elim m [ inl e ↦ inl e | inr n ↦ inr (from (n, w)) ],
      )
      | inr out ↦ rw out (
        λ m. (inr (to m).0, (to m).1),
        λ (m, w). elim m [
          | inl e ↦ absurd (true≢false (sym w ∙ ap (λ (x : KeyValue). in_range r x.key) e ∙ out))
          | inr n ↦ from (n, w)
        ],
      )
    ]

pub any-eq_iff : (t : Text) (seen : List Text) → (any (eq t) seen ≡ true) ↔ In t seen
any-eq_iff t [] = (λ h. cc, λ h. absurd h)
any-eq_iff t (s ∷ seen) = ground (arith, eq_iff t s, any-eq_iff t seen)

-- One more type, unless it was seen.
add_type : Text → List Text × List Text → List Text × List Text
add_type t (types, seen) = if any (eq t) seen then (types, seen) else (types ++ t ∷ [], t ∷ seen)

-- The types and those seen are the same.
abbrev SameTypes : List Text × List Text → Type 0
SameTypes found = (x : Text) → In x found.1 ↔ In x found.0

In-end : (x : Text) (types : List Text) (t : Text) → In x (types ++ t ∷ []) → In x types ⊎ (x ≡ t)
In-end x types t m = ground (arith, In-append x types (t ∷ []) m)

In-add_type :
    (t x : Text) (found : List Text × List Text)
    → SameTypes found
    → In x (add_type t found).0 ↔ (In x found.0 ⊎ (x ≡ t))
unfolding add_type
In-add_type t x (types, seen) same = elim (Bool-cases (any (eq t) seen)) [
  | inl old ↦ rw old (
    λ m. inl m,
    λ m. elim m [
      | inl k ↦ k
      | inr e ↦ (same x).0 (subst (λ (y : Text). In y seen) (sym e) ((any-eq_iff t seen).0 old))
    ],
  )
  | inr new ↦ rw new (
    λ m. In-end x types t m,
    λ m. elim m [
      | inl k ↦ In-append_left x types (t ∷ []) k
      | inr e ↦ In-append_right x types (t ∷ []) (inl e)
    ],
  )
]

add_type-SameTypes :
    (t : Text) (found : List Text × List Text) → SameTypes found → SameTypes (add_type t found)
unfolding add_type
add_type-SameTypes t (types, seen) same x = elim (Bool-cases (any (eq t) seen)) [
  | inl old ↦ rw old (same x)
  | inr new ↦ rw new (
    λ m. elim m [
      | inl e ↦ In-append_right x types (t ∷ []) (inl e)
      | inr k ↦ In-append_left x types (t ∷ []) ((same x).0 k)
    ],
    λ m. elim (In-end x types t m) [ inl k ↦ inr ((same x).1 k) | inr e ↦ inl e ],
  )
]

-- An entry with enough elements and a text before the last adds that text.
note_type-add_type :
    (min_len : ℕ) (elements : List Element) (t : Text) (found : List Text × List Text)
    → ltb (length elements) min_len ≡ false
    → get_elem? elements (length elements - 2) ≡ some (string t)
    → note_type min_len elements found ≡ add_type t found
unfolding note_type add_type
note_type-add_type min_len elements t (types, seen) long e = rw (long, e) refl

module _ (c : Codec) (min_len : ℕ) (type_of : KeyValue → Text) where
  -- The pair is an entry of the given type.
  abbrev pub IsTyped : KeyValue → Type 0
  IsTyped kv =
      (elements : List Element) × (c.unpack kv.key ≡ ok elements)
      × (ltb (length elements) min_len ≡ false)
      × (get_elem? elements (length elements - 2) ≡ some (string (type_of kv)))

  pub discover_loop-types :
      (kvs : List KeyValue) (found : List Text × List Text)
      → SameTypes found
      → ((kv : KeyValue) → In kv kvs → IsTyped kv)
      → (types : List Text) × (discover_loop c min_len (map ok kvs) found ≡ ok types)
        × ((x : Text) → In x types ↔ (In x found.0 ⊎ In x (map type_of kvs)))
  unfolding discover_loop
  discover_loop-types [] found same typed =
      (found.0, refl, λ x. (λ m. inl m, λ m. elim m [ inl k ↦ k | inr n ↦ absurd n ]))
  discover_loop-types (kv ∷ kvs) found same typed =
      let (elements, unpacked, long, e) = typed kv (inl refl) in
      let next = add_type (type_of kv) found in
      let noted = note_type-add_type min_len elements (type_of kv) found long e in
      let (types, run, exact) =
        discover_loop-types kvs next (add_type-SameTypes (type_of kv) found same)
          (λ k m. typed k (inr m)) in
      (
        types,
        rw (unpacked, noted) run,
        λ x. step x found types kvs kv (exact x) (In-add_type (type_of kv) x found same),
      )
    where
      step :
          (x : Text) (found : List Text × List Text) (types : List Text) (kvs : List KeyValue)
          (kv : KeyValue)
          → In x types ↔ (In x (add_type (type_of kv) found).0 ⊎ In x (map type_of kvs))
          → In x (add_type (type_of kv) found).0 ↔ (In x found.0 ⊎ (x ≡ type_of kv))
          → In x types ↔ (In x found.0 ⊎ In x (map type_of (kv ∷ kvs)))
      step x found types kvs kv exact added = ground arith
