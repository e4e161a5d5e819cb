-- ===== src/Encoding/Tags.antt =====
-- `sort_tags` and `generate_superset_presorted` of dcb-layer/src/encoding.rs. Tags are texts.
-- `sort_unstable` is an insertion sort: equal texts cannot be told apart, so every sort agrees.
pub mod Sorted
pub mod Subsets
use dcb_layer.Common.{
  ℕ, zero, suc, ◌+◌, ◌-◌, ◌/◌, ◌%◌, ◌^◌, Bool, List, [], ◌∷◌, map, length, ◌==◌, if◌then◌else◌,
}
use dcb_layer.Common.Bytes.{Text, lt, eq}

insert : Text → List Text → List Text
insert x [] = x ∷ []
insert x (y ∷ ys) = if lt y x then y ∷ insert x ys else x ∷ y ∷ ys

sort_unstable : List Text → List Text
sort_unstable [] = []
sort_unstable (x ∷ xs) = insert x (sort_unstable xs)

-- `Vec::dedup`: of consecutive equal elements the first stays.
dedup : List Text → List Text
dedup [] = []
dedup (x ∷ []) = x ∷ []
dedup (x ∷ y ∷ l) = let rest = dedup (y ∷ l) in if eq x y then rest else x ∷ rest

unfoldable pub sort_tags : List Text → List Text
unfolding insert sort_unstable dedup lt eq
sort_tags tags = dedup (sort_unstable tags)

-- `mask & (1 << i) != 0`.
bit : ℕ → ℕ → Bool
bit mask i = (mask / 2 ^ i) % 2 == 1

-- `(0..n).filter(|&i| mask & (1 << i) != 0).map(|i| sorted_tags[i].clone())`, from index `i` on.
select : ℕ → ℕ → List Text → List Text
select mask i [] = []
select mask i (t ∷ ts) = let rest = select mask (suc i) ts in if bit mask i then t ∷ rest else rest

-- `from..from + n`.
range_from : ℕ → ℕ → List ℕ
range_from from zero = []
range_from from (suc n) = from ∷ range_from (suc from) n

-- `(1usize << n).saturating_sub(1)`: a 64-bit shift, whose amount is taken modulo 64.
mask_limit : ℕ → ℕ
mask_limit n = 2 ^ (n % 64) - 1

-- One subset for each mask of `0..=total`.
unfoldable pub generate_superset_presorted : List Text → List (List Text)
unfolding bit select range_from mask_limit
generate_superset_presorted sorted_tags =
    let total = mask_limit (length sorted_tags) in
    map (λ mask. select mask 0 sorted_tags) (range_from 0 (total + 1))
