-- ===== src/Read/Ranges.antt =====
-- What the ranges of dcb-layer/src/read.rs stream: the stamps of their pairs, in the direction of the
-- read and up to its limit.
use mathlib.Core.List.{reverse, reverse_aux, reverse-cons}
use dcb_layer.Common.{
  ℕ, zero, suc, ◌≡◌, refl, sym, ap, ◌∙◌, subst, ◌↔◌, inl, inr, Bool, true, false, Option, List, [],
  ◌∷◌, ◌++◌, map, In, In-append, In-append_left, In-append_right, In-map, In-map_inv, All, All-In,
  All-of_In, take, ok, Bool-cases, ltb, arith, ap₂,
}
use dcb_layer.Common.Bytes.{Bytes, lt, lt-append}
use dcb_layer.Types.{Versionstamp, ReadOptions}
use dcb_layer.Fdb.{KeyValue, RangeOption, Transaction, range_option}
use dcb_layer.Fdb.Laws.{slice, in_range, limited, directed, KeysAscend, Sees}
use dcb_layer.Read.{key_of, single_option, stream_option}
use dcb_layer.Read.Order.{IsOrdered, IsOrdered-append}
use dcb_layer.Read.Single.{cut, last_stamp, EndsInStamp}
use dcb_layer.Read.Merge.Invariant.{Yields}

pub In-reverse : {A : Type 0} (x : A) (xs : List A) → In x (reverse xs) ↔ In x xs
In-reverse x [] = (λ m. m, λ m. m)
In-reverse {A} x (y ∷ xs) = (
  λ m. elim (In-append x (reverse xs) (y ∷ []) (subst (In x) (reverse-cons y xs) m)) [
    | inl n ↦ inr ((In-reverse x xs).0 n)
    | inr (inl e) ↦ inl e
    | inr (inr n) ↦ absurd n
  ],
  λ m. subst (In x) (sym (reverse-cons y xs)) (elim m [
    | inl e ↦ In-append_right x (reverse xs) (y ∷ []) (inl e)
    | inr n ↦ In-append_left x (reverse xs) (y ∷ []) ((In-reverse x xs).1 n)
  ]),
)

pub In-directed :
    (r : Bool) (kv : KeyValue) (kvs : List KeyValue) → In kv (directed r kvs) ↔ In kv kvs
In-directed false kv kvs = (λ m. m, λ m. m)
In-directed true kv kvs = In-reverse kv kvs

pub map-cut : {A B : Type 0} (f : A → B) (n : ℕ) (xs : List A) → map f (cut n xs) ≡ cut n (map f xs)
map-cut f zero xs = refl
map-cut {A} f (suc n) xs = go (suc n) xs
  where
    go : (k : ℕ) (l : List A) → map f (take k l) ≡ take k (map f l)
    go zero l = refl
    go (suc k) [] = refl
    go (suc k) (x ∷ l) = ap (◌∷◌ (f x)) (go k l)

positive : (n : ℕ) → ltb 0 (suc n) ≡ true
positive n = ground arith

-- The pairs that a range of the options gives: in their direction, up to their limit.
abbrev pub given : ReadOptions → Bytes × Bytes → List KeyValue → List KeyValue
given opts range kvs = cut opts.limit (directed opts.reverse (slice range kvs))

abbrev seen : RangeOption → List KeyValue → List KeyValue
seen o kvs = limited o.limit (directed o.reverse (slice (o.begin, o.end) kvs))

seen-single :
    (opts : ReadOptions) (range : Bytes × Bytes) (kvs : List KeyValue)
    → seen (single_option opts range) kvs ≡ given opts range kvs
unfolding single_option range_option
seen-single opts range kvs = go opts.limit opts.after opts.reverse
  where
    go :
        (limit : ℕ) (after : Option Versionstamp) (r : Bool)
        → seen (single_option (record { limit = limit; after = after; reverse = r }) range) kvs
          ≡ given (record { limit = limit; after = after; reverse = r }) range kvs
    go zero after r = refl
    go (suc n) after r = rw (positive n) refl

seen-stream :
    (opts : ReadOptions) (range : Bytes × Bytes) (kvs : List KeyValue)
    → seen (stream_option opts range) kvs ≡ given opts range kvs
unfolding stream_option range_option
seen-stream opts range kvs = go opts.limit opts.after opts.reverse
  where
    go :
        (limit : ℕ) (after : Option Versionstamp) (r : Bool)
        → seen (stream_option (record { limit = limit; after = after; reverse = r }) range) kvs
          ≡ given (record { limit = limit; after = after; reverse = r }) range kvs
    go zero after r = refl
    go (suc n) after r = rw (positive n) refl

module _ {tr : Transaction} {kvs : List KeyValue} (sees : Sees true tr kvs) (opts : ReadOptions)
    (range : Bytes × Bytes) where
  pub reads_single :
      tr.get_ranges_keyvalues (single_option opts range) true ≡ map ok (given opts range kvs)
  reads_single =
      sees.range_lem (single_option opts range)
      ∙ ap (λ (l : List KeyValue). map ok l) (seen-single opts range kvs)

  pub reads_stream :
      tr.get_ranges_keyvalues (stream_option opts range) true ≡ map ok (given opts range kvs)
  reads_stream =
      sees.range_lem (stream_option opts range)
      ∙ ap (λ (l : List KeyValue). map ok l) (seen-stream opts range kvs)

pub Yields-keys :
    (kvs : List KeyValue)
    → All EndsInStamp kvs
    → Yields (map key_of (map ok kvs)) (map last_stamp kvs)
unfolding key_of
Yields-keys [] h = tt
Yields-keys (kv ∷ kvs) h = (h.0, Yields-keys kvs h.1)

-- The stamps of a range in the direction of a read.
abbrev pub stamps : Bool → List KeyValue → Bytes × Bytes → List Versionstamp
stamps r kvs range = map last_stamp (directed r (slice range kvs))

pub stamps-given :
    (opts : ReadOptions) (range : Bytes × Bytes) (kvs : List KeyValue)
    → map last_stamp (given opts range kvs) ≡ cut opts.limit (stamps opts.reverse kvs range)
stamps-given opts range kvs =
    map-cut last_stamp opts.limit (directed opts.reverse (slice range kvs))

pub In-stamps :
    (r : Bool) (kvs : List KeyValue) (range : Bytes × Bytes) (vs : Versionstamp)
    → In vs (stamps r kvs range)
      ↔ ((kv : KeyValue) × In kv (slice range kvs) × (vs ≡ last_stamp kv))
In-stamps r kvs range vs = (
  λ m.
      let (kv, k, e) = In-map_inv last_stamp vs (directed r (slice range kvs)) m in
      (kv, (In-directed r kv (slice range kvs)).0 k, e),
  λ (kv, k, e).
      subst (λ (x : Versionstamp). In x (stamps r kvs range)) (sym e)
        (In-map last_stamp kv (directed r (slice range kvs))
          ((In-directed r kv (slice range kvs)).1 k)),
)

All-slice :
    (P : KeyValue → Type 0) (range : Bytes × Bytes) (kvs : List KeyValue)
    → All P kvs
    → All P (slice range kvs)
unfolding slice
All-slice P range [] h = tt
All-slice P range (kv ∷ kvs) h = elim (Bool-cases (in_range range kv.key)) [
  | inl i ↦ rw i (h.0, All-slice P range kvs h.1)
  | inr o ↦ rw o (All-slice P range kvs h.1)
]

pub KeysAscend-slice :
    (range : Bytes × Bytes) (kvs : List KeyValue) → KeysAscend kvs → KeysAscend (slice range kvs)
unfolding slice
KeysAscend-slice range [] h = tt
KeysAscend-slice range (kv ∷ kvs) h = elim (Bool-cases (in_range range kv.key)) [
  | inl i ↦ rw i (All-slice _ range kvs h.0, KeysAscend-slice range kvs h.1)
  | inr o ↦ rw o (KeysAscend-slice range kvs h.1)
]

-- Keys that share what comes before their stamps ascend as their stamps do.
module _ (p : Bytes) where
  abbrev Shares : KeyValue → Type 0
  Shares kv = kv.key ≡ p ++ 0x33 ∷ last_stamp kv

  lt-last_stamp :
      (a b : KeyValue) → Shares a → Shares b → lt a.key b.key ≡ lt (last_stamp a) (last_stamp b)
  unfolding lt
  lt-last_stamp a b h k = ap₂ lt h k ∙ lt-append p (0x33 ∷ last_stamp a) (0x33 ∷ last_stamp b)

  IsOrdered-stamps :
      (kvs : List KeyValue) → All Shares kvs → KeysAscend kvs → IsOrdered false (map last_stamp kvs)
  IsOrdered-stamps [] s h = tt
  IsOrdered-stamps (kv ∷ kvs) s h = (go kvs s.1 h.0, IsOrdered-stamps kvs s.1 h.1)
    where
      go :
          (l : List KeyValue)
          → All Shares l
          → All (λ k. lt kv.key k.key ≡ true) l
          → All (λ vs. lt (last_stamp kv) vs ≡ true) (map last_stamp l)
      go [] t a = tt
      go (k ∷ l) t a = (sym (lt-last_stamp kv k s.0 t.0) ∙ a.0, go l t.1 a.1)

pub map-reverse : {A B : Type 0} (f : A → B) (xs : List A) → map f (reverse xs) ≡ reverse (map f xs)
map-reverse {A} f xs = go xs []
  where
    go : (l acc : List A) → map f (reverse_aux l acc) ≡ reverse_aux (map f l) (map f acc)
    go [] acc = refl
    go (x ∷ l) acc = go l (x ∷ acc)

pub IsOrdered-reverse : (l : List Versionstamp) → IsOrdered false l → IsOrdered true (reverse l)
IsOrdered-reverse [] o = tt
IsOrdered-reverse (x ∷ l) o = subst (IsOrdered true) (sym (reverse-cons x l)) (
    IsOrdered-append true (reverse l) x (IsOrdered-reverse l o.1)
      (λ y m. All-In _ l o.0 y ((In-reverse y l).0 m)))

-- The stamps of a range whose keys share what comes before them are in the order of the read.
pub stamps-IsOrdered :
    (r : Bool) (kvs : List KeyValue) (range : Bytes × Bytes) (p : Bytes)
    → KeysAscend kvs
    → ((kv : KeyValue) → In kv (slice range kvs) → kv.key ≡ p ++ 0x33 ∷ last_stamp kv)
    → IsOrdered r (stamps r kvs range)
stamps-IsOrdered false kvs range p ascend shares =
    IsOrdered-stamps p (slice range kvs) (All-of_In _ (slice range kvs) shares)
      (KeysAscend-slice range kvs ascend)
stamps-IsOrdered true kvs range p ascend shares =
    subst (IsOrdered true) (sym (map-reverse last_stamp (slice range kvs))) (
      IsOrdered-reverse (map last_stamp (slice range kvs)) (
        IsOrdered-stamps p (slice range kvs) (All-of_In _ (slice range kvs) shares)
          (KeysAscend-slice range kvs ascend)))

-- What a range gives ends in stamps, if its pairs do.
pub given-EndsInStamp :
    (opts : ReadOptions) (range : Bytes × Bytes) (kvs : List KeyValue)
    → ((kv : KeyValue) → In kv (slice range kvs) → EndsInStamp kv)
    → All EndsInStamp (given opts range kvs)
given-EndsInStamp opts range kvs ends = go opts.limit (directed opts.reverse (slice range kvs)) (
    All-of_In EndsInStamp (directed opts.reverse (slice range kvs))
      (λ kv m. ends kv ((In-directed opts.reverse kv (slice range kvs)).0 m)))
  where
    few : (n : ℕ) (l : List KeyValue) → All EndsInStamp l → All EndsInStamp (take n l)
    few zero l h = tt
    few (suc n) [] h = tt
    few (suc n) (kv ∷ l) h = (h.0, few n l h.1)

    go : (n : ℕ) (l : List KeyValue) → All EndsInStamp l → All EndsInStamp (cut n l)
    go zero l h = h
    go (suc n) l h = few (suc n) l h
