-- ===== src/Encoding/Tags/Sorted.antt =====
-- `sort_tags` returns the one strictly ascending list of its tags.
use dcb_layer.Common.{
  suc, ◌≤◌, length, ap, ◌≡◌, refl, sym, ◌∙◌, ap₂, true≢false, ◌⊎◌, inl, inr, ◌↔◌, true, false, List,
  [], ◌∷◌, In, Subset, All, All-In, All-of_In, arith, Bool-cases,
}
use dcb_layer.Common.Bytes.{
  Text, lt, eq, eq_iff, lt_irrefl, lt_asymm, lt_trichotomy, lt-of_lt_not_lt, not_lt_trans,
}
use dcb_layer.Encoding.Tags.{insert, sort_unstable, dedup, sort_tags}

-- Every element is below all later ones, so none occurs twice.
abbrev pub IsAscending : List Text → Type 0
IsAscending [] = Unit
IsAscending (x ∷ xs) = All (λ y. lt x y ≡ true) xs × IsAscending xs

-- No element is above a later one.
abbrev IsSorted : List Text → Type 0
IsSorted [] = Unit
IsSorted (x ∷ xs) = All (λ y. lt y x ≡ false) xs × IsSorted xs

In-insert : (z x : Text) (l : List Text) → In z (insert x l) → (z ≡ x) ⊎ In z l
unfolding insert
In-insert z x [] h = h
In-insert z x (y ∷ ys) h = ground (arith, In-insert z x ys)

In-insert_of : (z x : Text) (l : List Text) → (z ≡ x) ⊎ In z l → In z (insert x l)
unfolding insert
In-insert_of z x [] h = h
In-insert_of z x (y ∷ ys) h = ground (arith, In-insert_of z x ys)

In-sort_unstable : (z : Text) (l : List Text) → In z (sort_unstable l) → In z l
unfolding sort_unstable
In-sort_unstable z [] h = h
In-sort_unstable z (x ∷ xs) h =
    ground (arith, In-insert z x (sort_unstable xs), In-sort_unstable z xs)

In-sort_unstable_of : (z : Text) (l : List Text) → In z l → In z (sort_unstable l)
unfolding sort_unstable
In-sort_unstable_of z [] h = h
In-sort_unstable_of z (x ∷ xs) h =
    ground (arith, In-insert_of z x (sort_unstable xs), In-sort_unstable_of z xs)

In-dedup : (z : Text) (l : List Text) → In z (dedup l) → In z l
unfolding dedup
In-dedup z [] h = h
In-dedup z (x ∷ []) h = h
In-dedup z (x ∷ y ∷ l) h = ground (arith, In-dedup z (y ∷ l))

In-dedup_of : (z : Text) (l : List Text) → In z l → In z (dedup l)
unfolding dedup
In-dedup_of z [] h = h
In-dedup_of z (x ∷ []) h = h
In-dedup_of z (x ∷ y ∷ l) h = ground (arith, In-dedup_of z (y ∷ l), eq_iff x y)

insert-IsSorted : (x : Text) (l : List Text) → IsSorted l → IsSorted (insert x l)
unfolding insert
insert-IsSorted x [] s = (tt, tt)
insert-IsSorted x (y ∷ ys) s = elim (Bool-cases (lt y x)) [
  | inl below ↦ rw below (
    All-of_In _ _ (λ z m. elim (In-insert z x ys m) [
      | inl e ↦ rw e (lt_asymm y x below)
      | inr k ↦ All-In _ ys s.0 z k
    ]),
    insert-IsSorted x ys s.1,
  )
  | inr above ↦
      rw above ((above, All-of_In _ ys (λ z m. not_lt_trans x y z above (All-In _ ys s.0 z m))), s)
]

sort_unstable-IsSorted : (l : List Text) → IsSorted (sort_unstable l)
unfolding sort_unstable
sort_unstable-IsSorted [] = tt
sort_unstable-IsSorted (x ∷ xs) = insert-IsSorted x (sort_unstable xs) (sort_unstable-IsSorted xs)

-- The head of a sorted list that differs from its neighbour is below all that follows.
head_below :
    (x y z : Text) (l : List Text)
    → IsSorted (x ∷ y ∷ l)
    → eq x y ≡ false
    → In z (y ∷ l)
    → lt x z ≡ true
head_below x y z l s ne m = lt-of_lt_not_lt x y z x_lt_y (from m)
  where
    x_lt_y : lt x y ≡ true
    x_lt_y = ground (arith, lt_trichotomy x y, eq_iff x y, s.0.0)

    from : In z (y ∷ l) → lt z y ≡ false
    from (inl e) = rw e (lt_irrefl y)
    from (inr k) = All-In _ l s.1.0 z k

dedup-IsAscending : (l : List Text) → IsSorted l → IsAscending (dedup l)
unfolding dedup
dedup-IsAscending [] s = tt
dedup-IsAscending (x ∷ []) s = (tt, tt)
dedup-IsAscending (x ∷ y ∷ l) s = elim (Bool-cases (eq x y)) [
  | inl same ↦ rw same (dedup-IsAscending (y ∷ l) s.1)
  | inr ne ↦ rw ne (
    All-of_In _ (dedup (y ∷ l)) (λ z m. head_below x y z l s ne (In-dedup z (y ∷ l) m)),
    dedup-IsAscending (y ∷ l) s.1,
  )
]

-- The result of `sort_tags` is strictly ascending in the order of bytes: sorted and without
-- duplicates.
pub sort_tags-IsAscending : (tags : List Text) → IsAscending (sort_tags tags)
unfolding sort_tags
sort_tags-IsAscending tags = dedup-IsAscending _ (sort_unstable-IsSorted tags)

-- A text is in the result of `sort_tags` exactly if it is one of the given tags.
pub In-sort_tags : (z : Text) (tags : List Text) → In z (sort_tags tags) ↔ In z tags
unfolding sort_tags
In-sort_tags z tags = (
  λ m. In-sort_unstable z tags (In-dedup z (sort_unstable tags) m),
  λ m. In-dedup_of z (sort_unstable tags) (In-sort_unstable_of z tags m),
)

heads_eq :
    (x y : Text) (xs ys : List Text)
    → IsAscending (x ∷ xs)
    → IsAscending (y ∷ ys)
    → Subset (x ∷ xs) (y ∷ ys)
    → Subset (y ∷ ys) (x ∷ xs)
    → x ≡ y
heads_eq x y xs ys sx sy f g = elim (f x (inl refl)) [
  | inl e ↦ e
  | inr m ↦ elim (g y (inl refl)) [
    | inl e ↦ sym e
    | inr k ↦ absurd (true≢false (sym (All-In _ xs sx.0 y k) ∙ lt_asymm y x (All-In _ ys sy.0 x m)))
  ]
]

length-insert : (x : Text) (ys : List Text) → length (insert x ys) ≡ suc (length ys)
unfolding insert
length-insert x [] = refl
length-insert x (y ∷ ys) = ground (arith, length-insert x ys)

length-sort_unstable : (tags : List Text) → length (sort_unstable tags) ≡ length tags
unfolding sort_unstable
length-sort_unstable [] = refl
length-sort_unstable (t ∷ tags) =
    length-insert t (sort_unstable tags) ∙ ap suc (length-sort_unstable tags)

length-dedup : (tags : List Text) → length (dedup tags) ≤ length tags
unfolding dedup
length-dedup [] = omega arith
length-dedup (t ∷ []) = omega arith
length-dedup (t ∷ u ∷ tags) = ground (arith, length-dedup (u ∷ tags))

-- Sorting makes no list longer.
pub length-sort_tags : (tags : List Text) → length (sort_tags tags) ≤ length tags
unfolding sort_tags
length-sort_tags tags = omega (arith, length-dedup (sort_unstable tags), length-sort_unstable tags)

pub tail_Subset :
    (x y : Text) (xs ys : List Text)
    → IsAscending (x ∷ xs)
    → x ≡ y
    → Subset (x ∷ xs) (y ∷ ys)
    → Subset xs ys
tail_Subset x y xs ys s e f z m = elim (f z (inr m)) [
  | inl p ↦ absurd (ground (arith, All-In (λ v. lt x v ≡ true) xs s.0 z m, lt_irrefl x))
  | inr k ↦ k
]

-- Ascending lists with the same elements are one list.
pub IsAscending-unique :
    (xs ys : List Text) → IsAscending xs → IsAscending ys → Subset xs ys → Subset ys xs → xs ≡ ys
IsAscending-unique [] [] sx sy f g = refl
IsAscending-unique [] (y ∷ ys) sx sy f g = absurd (g y (inl refl))
IsAscending-unique (x ∷ xs) [] sx sy f g = absurd (f x (inl refl))
IsAscending-unique (x ∷ xs) (y ∷ ys) sx sy f g =
    let e = heads_eq x y xs ys sx sy f g in
    ap₂ ◌∷◌ e (
      IsAscending-unique xs ys sx.1 sy.1 (tail_Subset x y xs ys sx e f)
        (tail_Subset y x ys xs sy (sym e) g))

-- Tag lists with the same elements, in whatever order and however often, sort to the same list.
pub sort_tags-canonical :
    (tags others : List Text)
    → Subset tags others
    → Subset others tags
    → sort_tags tags ≡ sort_tags others
sort_tags-canonical tags others f g =
    IsAscending-unique (sort_tags tags) (sort_tags others) (sort_tags-IsAscending tags)
      (sort_tags-IsAscending others)
      (λ z m. (In-sort_tags z others).1 (f z ((In-sort_tags z tags).0 m)))
      (λ z m. (In-sort_tags z tags).1 (g z ((In-sort_tags z others).0 m)))
