-- ===== src/Encoding/Tags/Subsets.antt =====
-- `generate_superset_presorted` enumerates the sublists of its argument, each mask one of them.
use mathlib.Core.List.{Sublistᴰ}
use native.Mathlib.Nat.{div-div-eq-div-mul, pow-succ'}
use dcb_layer.Common.{
  ℕ, zero, suc, ◌+◌, ◌*◌, ◌/◌, ◌%◌, ◌^◌, ◌≤◌, ◌<◌, ◌≡◌, refl, ap, ◌∙◌, ◌↔◌, inl, inr, true, List,
  [], ◌∷◌, map, length, length-map, In, In-map, In-map_inv, Subset, All-In, arith, ◌==◌,
  if◌then◌else◌, Bool-cases,
}
use dcb_layer.Common.Bytes.{Text, lt, lt_irrefl, lt_trans}
use dcb_layer.Encoding.Tags.{
  bit, select, range_from, mask_limit, generate_superset_presorted, sort_tags,
}
use dcb_layer.Encoding.Tags.Sorted.{IsAscending, tail_Subset, sort_tags-IsAscending, In-sort_tags}

bit-suc : (m i : ℕ) → bit m (suc i) ≡ bit (m / 2) i
unfolding bit
bit-suc m i = rw (pow-succ' 2 i, ← div-div-eq-div-mul m 2 (2 ^ i)) refl

select-suc : (m i : ℕ) (ts : List Text) → select m (suc i) ts ≡ select (m / 2) i ts
unfolding select
select-suc m i [] = refl
select-suc m i (t ∷ ts) = rw (bit-suc m i, select-suc m (suc i) ts) refl

-- The lowest bit of the mask decides on the first tag, the others on the rest.
select-cons :
    (m : ℕ) (t : Text) (ts : List Text)
    → select m 0 (t ∷ ts) ≡ (if m % 2 == 1 then t ∷ select (m / 2) 0 ts else select (m / 2) 0 ts)
unfolding select bit
select-cons m t ts = let e : m / 1 ≡ m = omega arith in rw (select-suc m 0 ts, e) refl

-- Each mask selects a sublist.
select-Sublistᴰ : (m i : ℕ) (ts : List Text) → Sublistᴰ (select m i ts) ts
unfolding select
select-Sublistᴰ m i [] = Sublistᴰ.slnil
select-Sublistᴰ m i (t ∷ ts) = elim (Bool-cases (bit m i)) [
  | inl on ↦ rw on (Sublistᴰ.cons-cons refl (select-Sublistᴰ m (suc i) ts))
  | inr off ↦ rw off (Sublistᴰ.cons (select-Sublistᴰ m (suc i) ts))
]

double_bound : (m n : ℕ) → m < 2 ^ n → (2 * m + 1 < 2 ^ suc n) × (2 * m < 2 ^ suc n)
double_bound m n h = rw (pow-succ' 2 n) (omega arith, omega arith)

-- Each sublist is selected by a mask within the bound.
mask_of : {s ts : List Text} → Sublistᴰ s ts → (m : ℕ) × (m < 2 ^ length ts) × (select m 0 ts ≡ s)
unfolding select
mask_of Sublistᴰ.slnil = (0, omega arith, refl)
mask_of (Sublistᴰ.cons {a = t} {l₂ = ts} p) =
    let (m, h, e) = mask_of p in
    let half : (2 * m) / 2 ≡ m = omega arith in
    (2 * m, (double_bound m (length ts) h).1, rw (select-cons (2 * m) t ts, half) (ground arith))
mask_of (Sublistᴰ.cons-cons {a = x} {b = t} {l₂ = ts} q p) =
    let (m, h, e) = mask_of p in
    let half : (2 * m + 1) / 2 ≡ m = omega arith in
    (
      2 * m + 1,
      (double_bound m (length ts) h).0,
      rw (select-cons (2 * m + 1) t ts, half) (ground arith),
    )

In-range_from : (m from n : ℕ) → from ≤ m → m < from + n → In m (range_from from n)
unfolding range_from
In-range_from m from zero h k = absurd (omega arith)
In-range_from m from (suc n) h k = ground (arith, In-range_from m (suc from) n)

In-range_from_inv : (m from n : ℕ) → In m (range_from from n) → m < from + n
unfolding range_from
In-range_from_inv m from zero h = absurd h
In-range_from_inv m from (suc n) h = ground (arith, In-range_from_inv m (suc from) n)

length-range_from : (from n : ℕ) → length (range_from from n) ≡ n
unfolding range_from
length-range_from from zero = refl
length-range_from from (suc n) = ap suc (length-range_from (suc from) n)

pow_pos : (n : ℕ) → 0 < 2 ^ n
pow_pos zero = omega arith
pow_pos (suc n) = rw (pow-succ' 2 n) (omega (arith, pow_pos n))

mask_limit_lem : (n : ℕ) → n < 64 → mask_limit n + 1 ≡ 2 ^ n
unfolding mask_limit
mask_limit_lem n h = let e : n % 64 ≡ n = omega arith in rw e (omega (arith, pow_pos n))

module _ (tags : List Text) (few : length tags < 64) where
  generate_lem :
      generate_superset_presorted tags ≡ map (λ m. select m 0 tags) (range_from 0 (2 ^ length tags))
  unfolding generate_superset_presorted
  generate_lem = rw (mask_limit_lem (length tags) few) refl

  -- Of n tags, n being less than 64, `generate_superset_presorted` makes 2^n subsets.
  pub length-generate : length (generate_superset_presorted tags) ≡ 2 ^ length tags
  length-generate =
      rw generate_lem (length-map _ (range_from 0 (2 ^ length tags)) ∙ length-range_from 0 _)

  -- The subsets are the sublists of the tags, and all of them.
  pub In-generate : (s : List Text) → In s (generate_superset_presorted tags) ↔ Sublistᴰ s tags
  In-generate s = (to, from)
    where
      to : In s (generate_superset_presorted tags) → Sublistᴰ s tags
      to m =
          let (k, h, e) = In-map_inv _ s (range_from 0 (2 ^ length tags)) (rw generate_lem at m) in
          rw e (select-Sublistᴰ k 0 tags)

      from : Sublistᴰ s tags → In s (generate_superset_presorted tags)
      from p =
          let (k, h, e) = mask_of p in
          rw (generate_lem, ← e)
            (In-map (λ m. select m 0 tags) k _
              (In-range_from k 0 (2 ^ length tags) (omega arith) (omega arith)))

Sublistᴰ-In : {s t : List Text} → Sublistᴰ s t → Subset s t
Sublistᴰ-In Sublistᴰ.slnil x m = m
Sublistᴰ-In (Sublistᴰ.cons p) x m = inr (Sublistᴰ-In p x m)
Sublistᴰ-In (Sublistᴰ.cons-cons e p) x (inl q) = inl (q ∙ e)
Sublistᴰ-In (Sublistᴰ.cons-cons e p) x (inr m) = inr (Sublistᴰ-In p x m)

Sublistᴰ-nil : (t : List Text) → Sublistᴰ [] t
Sublistᴰ-nil [] = Sublistᴰ.slnil
Sublistᴰ-nil (x ∷ t) = Sublistᴰ.cons (Sublistᴰ-nil t)

-- Of ascending lists, one that is contained in the other is a sublist of it.
Sublistᴰ-of_Subset : (s t : List Text) → IsAscending s → IsAscending t → Subset s t → Sublistᴰ s t
Sublistᴰ-of_Subset [] t sa ta f = Sublistᴰ-nil t
Sublistᴰ-of_Subset (x ∷ s) [] sa ta f = absurd (f x (inl refl))
Sublistᴰ-of_Subset (x ∷ s) (y ∷ t) sa ta f = elim (f x (inl refl)) [
  | inl e ↦ Sublistᴰ.cons-cons e (Sublistᴰ-of_Subset s t sa.1 ta.1 (tail_Subset x y s t sa e f))
  | inr m ↦ Sublistᴰ.cons (Sublistᴰ-of_Subset (x ∷ s) t sa ta.1 (drop_head (All-In _ t ta.0 x m)))
]
  where
    drop_head : lt y x ≡ true → Subset (x ∷ s) t
    drop_head below z n = elim (f z n) [
      | inl e ↦ elim n [
        | inl p ↦ absurd (ground (arith, lt_irrefl y))
        | inr k ↦
            absurd
              (ground (arith, lt_irrefl y, lt_trans y x z, All-In (λ v. lt x v ≡ true) s sa.0 z k))
      ]
      | inr k ↦ k
    ]

-- Of fewer than 64 distinct tags, a strictly ascending list is one of the subsets that
-- `generate_superset_presorted` makes of the sorted tags exactly if all its elements are among the
-- tags.
pub In-generate-sort_tags :
    (tags s : List Text)
    → length (sort_tags tags) < 64
    → IsAscending s
    → In s (generate_superset_presorted (sort_tags tags)) ↔ Subset s tags
In-generate-sort_tags tags s few sa = (
  λ m z k. (In-sort_tags z tags).0 (Sublistᴰ-In ((In-generate (sort_tags tags) few s).0 m) z k),
  λ f. (In-generate (sort_tags tags) few s).1 (
      Sublistᴰ-of_Subset s (sort_tags tags) sa (sort_tags-IsAscending tags)
        (λ z k. (In-sort_tags z tags).1 (f z k))),
)

-- The subsets of an event's tags hold nothing else.
pub In-generate-Subset :
    (tags s : List Text)
    → length (sort_tags tags) < 64
    → In s (generate_superset_presorted (sort_tags tags))
    → Subset s tags
In-generate-Subset tags s few m z k =
    (In-sort_tags z tags).0 (Sublistᴰ-In ((In-generate (sort_tags tags) few s).0 m) z k)
