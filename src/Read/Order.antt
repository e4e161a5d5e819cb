-- ===== src/Read/Order.antt =====
-- The order of the stamps of a read of dcb-layer/src/read.rs, by its direction, and the lists that
-- are first in it.
use dcb_layer.Common.{
  ℕ, ◌≤◌, ◌<◌, ◌≡◌, refl, sym, ap, ◌∙◌, subst, ◌⊎◌, inl, inr, Bool, true, false, true≢false, List,
  [], ◌∷◌, ◌++◌, All, All-In, All-append, All-of_In, In, In-append_right, Subset, length, arith,
}
use dcb_layer.Common.Bytes.{lt, lt_irrefl, lt_trans, lt_trichotomy, not_lt_trans}
use dcb_layer.Types.{Versionstamp}

-- The first stamp comes before the second: it is below it, or above it in a reverse read.
abbrev pub before : Bool → Versionstamp → Versionstamp → Bool
before false a b = lt a b
before true a b = lt b a

pub before_irrefl : (r : Bool) (a : Versionstamp) → before r a a ≡ false
before_irrefl false a = lt_irrefl a
before_irrefl true a = lt_irrefl a

pub before_trans :
    (r : Bool) (a b c : Versionstamp)
    → before r a b ≡ true
    → before r b c ≡ true
    → before r a c ≡ true
before_trans false a b c h k = lt_trans a b c h k
before_trans true a b c h k = lt_trans c b a k h

pub before_trichotomy :
    (r : Bool) (a b : Versionstamp) → (before r a b ≡ true) ⊎ ((a ≡ b) ⊎ (before r b a ≡ true))
before_trichotomy false a b = lt_trichotomy a b
before_trichotomy true a b = ground (arith, lt_trichotomy b a)

-- What is not before the earlier of two is not before it by way of the other.
pub before-of_not_before :
    (r : Bool) (a b c : Versionstamp)
    → before r b a ≡ false
    → before r b c ≡ true
    → before r a c ≡ true
before-of_not_before r a b c h k = elim (before_trichotomy r a b) [
  | inl e ↦ before_trans r a b c e k
  | inr (inl e) ↦ subst (λ (x : Versionstamp). before r x c ≡ true) (sym e) k
  | inr (inr e) ↦ absurd (true≢false (sym e ∙ h))
]

pub not_before_trans :
    (r : Bool) (a b c : Versionstamp)
    → before r b a ≡ false
    → before r c b ≡ false
    → before r c a ≡ false
not_before_trans false a b c h k = not_lt_trans a b c h k
not_before_trans true a b c h k = not_lt_trans c b a k h

pub before-ne : (r : Bool) (a b : Versionstamp) → before r a b ≡ true → ¬ (a ≡ b)
before-ne r a b h e =
    true≢false (sym h ∙ ap (λ (x : Versionstamp). before r x b) e ∙ before_irrefl r b)

pub before_asymm : (r : Bool) (a b : Versionstamp) → before r a b ≡ true → ¬ (before r b a ≡ true)
before_asymm r a b h k = true≢false (sym (before_trans r a b a h k) ∙ before_irrefl r a)

-- Each stamp is before all later ones.
abbrev pub IsOrdered : Bool → List Versionstamp → Type 0
IsOrdered r [] = Unit
IsOrdered r (x ∷ xs) = All (λ y. before r x y ≡ true) xs × IsOrdered r xs

pub IsOrdered-append :
    (r : Bool) (xs : List Versionstamp) (x : Versionstamp)
    → IsOrdered r xs
    → ((y : Versionstamp) → In y xs → before r y x ≡ true)
    → IsOrdered r (xs ++ x ∷ [])
IsOrdered-append r [] x h k = (tt, tt)
IsOrdered-append r (y ∷ xs) x h k = (go xs h.0, IsOrdered-append r xs x h.1 (λ z m. k z (inr m)))
  where
    go :
        (zs : List Versionstamp)
        → All (λ z. before r y z ≡ true) zs
        → All (λ z. before r y z ≡ true) (zs ++ x ∷ [])
    go [] a = (k y (inl refl), tt)
    go (z ∷ zs) a = (a.0, go zs a.1)

pub IsOrdered-join :
    (r : Bool) (xs ys : List Versionstamp)
    → IsOrdered r xs
    → IsOrdered r ys
    → ((x y : Versionstamp) → In x xs → In y ys → before r x y ≡ true)
    → IsOrdered r (xs ++ ys)
IsOrdered-join r [] ys hx hy h = hy
IsOrdered-join r (x ∷ xs) ys hx hy h = (
  All-append _ xs ys hx.0 (All-of_In _ ys (λ y m. h x y (inl refl) m)),
  IsOrdered-join r xs ys hx.1 hy (λ u v m n. h u v (inr m) n),
)

-- Of two ordered lists one after the other, each of the first is before each of the second.
pub IsOrdered-append_inv :
    (r : Bool) (xs ys : List Versionstamp)
    → IsOrdered r (xs ++ ys)
    → (x y : Versionstamp) → In x xs
    → In y ys
    → before r x y ≡ true
IsOrdered-append_inv r [] ys h x y m n = absurd m
IsOrdered-append_inv r (z ∷ xs) ys h x y (inl e) n =
    subst (λ (u : Versionstamp). before r u y ≡ true) (sym e)
      (All-In _ (xs ++ ys) h.0 y (In-append_right y xs ys n))
IsOrdered-append_inv r (z ∷ xs) ys h x y (inr m) n = IsOrdered-append_inv r xs ys h.1 x y m n

-- An ordered list that is contained in another is no longer.
pub length-le_of_Subset :
    (r : Bool) (xs ys : List Versionstamp)
    → IsOrdered r xs
    → IsOrdered r ys
    → Subset xs ys
    → length xs ≤ length ys
length-le_of_Subset r [] ys hx hy s = omega arith
length-le_of_Subset r (x ∷ xs) [] hx hy s = absurd (s x (inl refl))
length-le_of_Subset r (x ∷ xs) (y ∷ ys) hx hy s = elim (s x (inl refl)) [
  | inl e ↦ omega (
    arith,
    length-le_of_Subset r xs ys hx.1 hy.1 (λ z m. elim (s z (inr m)) [
      | inl k ↦ absurd (before-ne r x z (All-In _ xs hx.0 z m) (e ∙ sym k))
      | inr k ↦ k
    ]),
  )
  | inr n ↦ omega (
    arith,
    length-le_of_Subset r (x ∷ xs) ys hx hy.1
        (λ z m. elim (s z m) [ inl k ↦ absurd (first n z m k) | inr k ↦ k ]),
  )
]
  where
    first : In x ys → (z : Versionstamp) → In z (x ∷ xs) → ¬ (z ≡ y)
    first n z (inl e) k = before-ne r y x (All-In _ ys hy.0 x n) (sym k ∙ e)
    first n z (inr m) k =
        before-ne r y z (before_trans r y x z (All-In _ ys hy.0 x n) (All-In _ xs hx.0 z m)) (sym k)

-- The list is the first `limit` of the stamps with the property, or all where the limit is 0: in
-- order, without duplicates, and what is left out comes after a full list.
pub record IsFirst (r : Bool) (limit : ℕ) (P : Versionstamp → Type 0) (found : List Versionstamp)
    : Type 0 where
  pub ordered : IsOrdered r found
  pub sound : (vs : Versionstamp) → In vs found → P vs
  pub complete :
      (vs : Versionstamp)
      → P vs
      → In vs found
        ⊎ ((0 < limit)
            × (length found ≡ limit)
            × ((x : Versionstamp) → In x found → before r x vs ≡ true))
  pub within : 0 < limit → length found ≤ limit
