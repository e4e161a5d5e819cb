-- ===== src/Read/Single.antt =====
-- The fast path of `read_events` in dcb-layer/src/read.rs.
use dcb_layer.Common.{
  ℕ, zero, suc, ◌==◌, ◌+◌, ◌≡◌, refl, sym, ap, ◌∙◌, false, List, [], ◌∷◌, ◌++◌, map, append_assoc,
  append-nil, length, length-append, take, All, ltb, leb, ◌&&◌, arith, Result, ok, err, ap₂,
}
use dcb_layer.Common.Bytes.{Bytes}
use dcb_layer.Types.{Versionstamp}
use dcb_layer.Error.{Error}
use dcb_layer.Fdb.{KeyValue}
use dcb_layer.Read.{single_loop}
use dcb_layer.Read.Keys.{extract_vs_from_key, extract-append}

-- The first `limit` of a list, or all of it where the limit is 0.
abbrev pub cut {ℓ} : {A : Type ℓ} → ℕ → List A → List A
cut zero xs = xs
cut (suc n) xs = take (suc n) xs

-- Some key that ends in the stamp.
abbrev pub stamp_pair : Bytes × Versionstamp → KeyValue
stamp_pair (p, vs) = record { key = p ++ 0x33 ∷ vs; value = [] }

-- The stamp that the key of a pair ends in, and that it ends in one.
abbrev pub last_stamp : KeyValue → Versionstamp
last_stamp kv = get_ok (extract_vs_from_key kv.key)
  where
    get_ok : Result Versionstamp Error → Versionstamp
    get_ok (ok vs) = vs
    get_ok (err e) = []

abbrev pub EndsInStamp : KeyValue → Type 0
EndsInStamp kv = extract_vs_from_key kv.key ≡ ok (last_stamp kv)

-- The limit is reached by the next stamp, or not yet.
at_limit :
    (limit room : ℕ) (ordered : List Versionstamp) (vs : Versionstamp)
    → limit ≡ length ordered + suc room
    → (ltb 0 limit && leb limit (length (ordered ++ vs ∷ []))) ≡ (room == 0)
at_limit limit room ordered vs e = ground (arith, length-append ordered (vs ∷ []))

suc-ne_zero : (n : ℕ) → (suc n == 0) ≡ false
suc-ne_zero n = ground arith

limited_loop :
    (limit room : ℕ) (kvs : List KeyValue) (ordered : List Versionstamp)
    → All EndsInStamp kvs
    → limit ≡ length ordered + suc room
    → single_loop limit (map ok kvs) ordered ≡ ok (ordered ++ take (suc room) (map last_stamp kvs))
unfolding single_loop
limited_loop limit room [] ordered h e = ap ok (sym (append-nil ordered))
limited_loop limit zero (kv ∷ kvs) ordered h e =
    rw (h.0, at_limit limit zero ordered (last_stamp kv) e) refl
limited_loop limit (suc room) (kv ∷ kvs) ordered h e =
    let vs = last_stamp kv in
    rw (h.0, at_limit limit (suc room) ordered vs e ∙ suc-ne_zero room)
      (limited_loop limit room kvs (ordered ++ vs ∷ []) h.1
          (omega (arith, length-append ordered (vs ∷ [])))
        ∙ ap ok (append_assoc ordered (vs ∷ []) _))

unlimited_loop :
    (kvs : List KeyValue) (ordered : List Versionstamp)
    → All EndsInStamp kvs
    → single_loop 0 (map ok kvs) ordered ≡ ok (ordered ++ map last_stamp kvs)
unfolding single_loop
unlimited_loop [] ordered h = ap ok (sym (append-nil ordered))
unlimited_loop (kv ∷ kvs) ordered h = rw h.0 (
    unlimited_loop kvs (ordered ++ last_stamp kv ∷ []) h.1
    ∙ ap ok (append_assoc ordered (last_stamp kv ∷ []) _))

-- The fast path over pairs whose keys end in stamps.
pub single_loop-last_stamp :
    (limit : ℕ) (kvs : List KeyValue)
    → All EndsInStamp kvs
    → single_loop limit (map ok kvs) [] ≡ ok (cut limit (map last_stamp kvs))
single_loop-last_stamp zero kvs h = unlimited_loop kvs [] h
single_loop-last_stamp (suc room) kvs h = limited_loop (suc room) room kvs [] h (omega arith)

-- A key that ends in a stamp ends in that stamp.
pub last_stamp-append :
    (kv : KeyValue) (p : Bytes) (vs : Versionstamp)
    → length vs ≡ 12
    → kv.key ≡ p ++ 0x33 ∷ vs
    → EndsInStamp kv × (last_stamp kv ≡ vs)
last_stamp-append kv p vs h e = rw (e, extract-append p vs h) (refl, refl)

stamp_pairs :
    (entries : List (Bytes × Versionstamp))
    → All (λ entry. length entry.1 ≡ 12) entries
    → All EndsInStamp (map stamp_pair entries)
      × (map last_stamp (map stamp_pair entries) ≡ map (λ entry. entry.1) entries)
stamp_pairs [] h = (tt, refl)
stamp_pairs ((p, vs) ∷ entries) h =
    let one = last_stamp-append (stamp_pair (p, vs)) p vs h.0 refl in
    let rest = stamp_pairs entries h.1 in
    ((one.0, rest.0), ap₂ (λ (x : Versionstamp). ◌∷◌ x) one.1 rest.1)

-- Of a stream of keys that each end in the code 0x33 and a stamp of 12 bytes, without errors, the
-- fast path of `read_events` returns the stamps in the stream's order: the first `limit` of them,
-- or all if the limit is 0.
pub single_loop-cut :
    (limit : ℕ) (entries : List (Bytes × Versionstamp))
    → All (λ entry. length entry.1 ≡ 12) entries
    → single_loop limit (map ok (map stamp_pair entries)) []
      ≡ ok (cut limit (map (λ entry. entry.1) entries))
single_loop-cut limit entries h =
    let both = stamp_pairs entries h in
    single_loop-last_stamp limit (map stamp_pair entries) both.0
    ∙ ap (λ (l : List Versionstamp). ok (cut limit l)) both.1
