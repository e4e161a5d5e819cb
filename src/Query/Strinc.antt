-- ===== src/Query/Strinc.antt =====
-- `strinc` is the exclusive upper bound of the keys with a prefix.
use dcb_layer.Common.{
  ℕ, zero, suc, ◌+◌, ◌%◌, ◌<◌, ◌≡◌, ◌≢◌, refl, ap₂, ◌↔◌, inl, inr, true, [], ◌∷◌, ◌++◌, length, All,
  arith, ◌==◌, if◌then◌else◌, Result, ok, err, Result-cases, >>=-eq_ok,
}
use dcb_layer.Common.Bytes.{Bytes, IsBytes, lt, le}
use dcb_layer.Error.{Error, all_ff_key}
use dcb_layer.Fdb.Laws.{in_range}
use dcb_layer.Query.{strinc_from, strinc, prefix_range}

-- A byte in front changes nothing unless the rest is all 0xFF.
abbrev in_front : ℕ → Bytes → Result Bytes Error → Result Bytes Error
in_front x xs (ok ys) = ok (x ∷ ys)
in_front x xs (err e) = if x == 0xFF then err all_ff_key else ok (((x + 1) % 256) ∷ [])

strinc_from-cons :
    (i x : ℕ) (xs : Bytes) → strinc_from (suc i) (x ∷ xs) ≡ in_front x xs (strinc_from i xs)
unfolding strinc_from
strinc_from-cons zero x xs = refl
strinc_from-cons (suc i) x xs = ground (arith, strinc_from-cons i x xs)

strinc-cons : (x : ℕ) (xs : Bytes) → strinc (x ∷ xs) ≡ in_front x xs (strinc xs)
unfolding strinc
strinc-cons x xs = strinc_from-cons (length xs) x xs

strinc-nil : strinc [] ≡ err all_ff_key
unfolding strinc strinc_from
strinc-nil = refl

-- A byte in front of a key fails if the key does and the byte is 0xFF.
in_front_err :
    (x : ℕ) (xs : Bytes) (e : Error)
    → in_front x xs (err all_ff_key) ≡ err e
    → (x ≡ 0xFF) × (e ≡ all_ff_key)
in_front_err x xs e h = ground arith

-- `strinc` fails exactly on the keys of 0xFF bytes alone, the empty one included, and only by
-- AllFfKey.
pub strinc-eq_err_iff :
    (key : Bytes) (e : Error) → (strinc key ≡ err e) ↔ (All (λ b. b ≡ 0xFF) key × (e ≡ all_ff_key))
strinc-eq_err_iff [] e = (λ h. (tt, cc strinc-nil), λ (_, h). rw h strinc-nil)
strinc-eq_err_iff (x ∷ xs) e = elim (Result-cases (strinc xs)) [
  | inl (ys, p) ↦ (
    λ h. cc (strinc-cons x xs, p),
    λ ((_, ff), _). cc ((strinc-eq_err_iff xs all_ff_key).1 (ff, refl), p),
  )
  | inr (d, p) ↦
      let (ff, q) = (strinc-eq_err_iff xs d).0 p in
      (
        λ h. let (b, r) = in_front_err x xs e (cc (strinc-cons x xs, p, q, h)) in ((b, ff), r),
        λ ((b, _), r). rw (strinc-cons x xs, p) (ground arith),
      )
]

-- The key has the prefix.
abbrev pub StartsWith : Bytes → Bytes → Type 0
StartsWith p k = (rest : Bytes) × (p ++ rest ≡ k)

-- A prefix relation behind equal bytes.
StartsWith-cons : (x y : ℕ) (p k : Bytes) → StartsWith (x ∷ p) (y ∷ k) ↔ ((x ≡ y) × StartsWith p k)
StartsWith-cons x y p k = (λ (r, e). (cc, (r, cc)), λ (e, (r, q)). (r, ap₂ ◌∷◌ e q))

-- Above a prefix of 0xFF bytes there are only the keys that begin with it.
above_ff : (p k : Bytes) → All (λ b. b ≡ 0xFF) p → IsBytes k → (le p k ≡ true) ↔ StartsWith p k
unfolding le lt
above_ff [] k ff h = (λ _. (k, refl), λ _. refl)
above_ff (x ∷ p) [] ff h = (λ e. cc, λ (r, e). cc)
above_ff (x ∷ p) (y ∷ k) ff h =
    let (to, from) = above_ff p k ff.1 h.1 in
    (
      λ e. (StartsWith-cons x y p k).1 (ground arith, to (ground arith)),
      λ s. let (same, t) = (StartsWith-cons x y p k).0 s in ground (arith, from t),
    )

-- The bound of a prefix, taken apart at its first byte.
data Bound (x : ℕ) (p e : Bytes) : Type 0 where
  deeper : (e' : Bytes) → strinc p ≡ ok e' → e ≡ x ∷ e' → Bound x p e
  here : All (λ b. b ≡ 0xFF) p → x ≢ 0xFF → e ≡ ((x + 1) % 256) ∷ [] → Bound x p e

Bound-at : (x : ℕ) (p e : Bytes) → strinc (x ∷ p) ≡ ok e → Bound x p e
Bound-at x p e s = elim (Result-cases (strinc p)) [
  | inl (e', q) ↦ deeper e' q (cc (strinc-cons x p, q, s))
  | inr (d, q) ↦
      let h : in_front x p (err d) ≡ ok e = cc (strinc-cons x p, q, s) in
      here ((strinc-eq_err_iff p d).0 q).0 (ground arith) (ground arith)
]

in_range-cons :
    (x y : ℕ) (p e k : Bytes)
    → (in_range (x ∷ p, x ∷ e) (y ∷ k) ≡ true) ↔ ((x ≡ y) × (in_range (p, e) k ≡ true))
unfolding in_range le lt
in_range-cons x y p e k = ground arith

in_range-here :
    (x y : ℕ) (p k : Bytes)
    → x < 256
    → y < 256
    → x ≢ 0xFF
    → (in_range (x ∷ p, ((x + 1) % 256) ∷ []) (y ∷ k) ≡ true) ↔ ((x ≡ y) × (le p k ≡ true))
unfolding in_range le lt
in_range-here x y p k hx hy ne = ground arith

-- For a prefix and a key of bytes, where `strinc` of the prefix succeeds, the key lies from the
-- prefix up to the result, the result excluded, exactly if it begins with the prefix.
pub strinc_lem :
    (p k : Bytes) {e : Bytes}
    → IsBytes p
    → IsBytes k
    → strinc p ≡ ok e
    → (in_range (p, e) k ≡ true) ↔ StartsWith p k
unfolding in_range le lt
strinc_lem [] k hp h s = absurd (cc strinc-nil)
strinc_lem (x ∷ p) [] hp h s = (λ r. cc, λ (r, e). cc)
strinc_lem (x ∷ p) (y ∷ k) {e} hp h s = elim (Bound-at x p e s) [
  | deeper e' q r ↦
      let (to, from) = strinc_lem p k hp.1 h.1 q in
      (
        λ m.
            let (same, n) = (in_range-cons x y p e' k).0 (rw r at m) in
            (StartsWith-cons x y p k).1 (same, to n),
        λ t.
            let (same, u) = (StartsWith-cons x y p k).0 t in
            rw r ((in_range-cons x y p e' k).1 (same, from u)),
      )
  | here ff ne r ↦
      let (to, from) = above_ff p k ff h.1 in
      let (into, back) = in_range-here x y p k hp.0 h.0 ne in
      (
        λ m. let (same, above) = into (rw r at m) in (StartsWith-cons x y p k).1 (same, to above),
        λ t. let (same, u) = (StartsWith-cons x y p k).0 t in rw r (back (same, from u)),
      )
]

-- The same of `prefix_range`.
pub prefix_range_lem :
    (p k : Bytes) {r : Bytes × Bytes}
    → IsBytes p
    → IsBytes k
    → prefix_range p ≡ ok r
    → (in_range r k ≡ true) ↔ StartsWith p k
unfolding prefix_range
prefix_range_lem p k {r} hp hk s =
    let (e, q, t) = >>=-eq_ok (strinc p) _ s in
    let u : ◌≡◌ {A = Bytes × Bytes} (p, e) r = cc in rw (← u) (strinc_lem p k hp hk q)
