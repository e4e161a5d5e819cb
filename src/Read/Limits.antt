-- ===== src/Read/Limits.antt =====
-- Streams that are cut at the limit have the same first stamps.
use dcb_layer.Common.{
  ℕ, zero, suc, ◌≤◌, ◌<◌, ◌≡◌, refl, sym, ap, subst, ◌⊎◌, inl, inr, Bool, true, List, [], ◌∷◌, ◌++◌,
  map, All, All-In, In, In-append, In-map, In-map_inv, Subset, length, length-append, take, arith,
}
use dcb_layer.Types.{Versionstamp}
use dcb_layer.Read.Order.{
  before, before_trans, before_trichotomy, IsOrdered, IsOrdered-append, length-le_of_Subset,
  IsFirst,
}
use dcb_layer.Read.Single.{cut}
use dcb_layer.Read.Merge.Streams.{Source}

pub In-take : {A : Type 0} (n : ℕ) (l : List A) (x : A) → In x (take n l) → In x l
In-take zero l x k = absurd k
In-take (suc n) [] x k = absurd k
In-take (suc n) (y ∷ l) x (inl e) = inl e
In-take (suc n) (y ∷ l) x (inr k) = inr (In-take n l x k)

All-take : (P : Versionstamp → Type 0) (n : ℕ) (l : List Versionstamp) → All P l → All P (take n l)
All-take P zero l h = tt
All-take P (suc n) [] h = tt
All-take P (suc n) (y ∷ l) h = (h.0, All-take P n l h.1)

IsOrdered-take : (r : Bool) (n : ℕ) (l : List Versionstamp) → IsOrdered r l → IsOrdered r (take n l)
IsOrdered-take r zero l h = tt
IsOrdered-take r (suc n) [] h = tt
IsOrdered-take r (suc n) (y ∷ l) h = (All-take _ n l h.0, IsOrdered-take r n l h.1)

-- What a cut leaves out comes after what it keeps.
take-split :
    (r : Bool) (n : ℕ) (l : List Versionstamp) (x : Versionstamp)
    → IsOrdered r l
    → In x l
    → In x (take n l)
      ⊎ ((length (take n l) ≡ n) × ((y : Versionstamp) → In y (take n l) → before r y x ≡ true))
take-split r zero l x o k = inr (refl, λ y m. absurd m)
take-split r (suc n) [] x o k = absurd k
take-split r (suc n) (z ∷ l) x o (inl e) = inl (inl e)
take-split r (suc n) (z ∷ l) x o (inr k) = elim (take-split r n l x o.1 k) [
  | inl m ↦ inl (inr m)
  | inr (e, h) ↦ inr (
    ap suc e,
    λ y m. elim m [
      | inl s ↦ subst (λ (v : Versionstamp). before r v x ≡ true) (sym s) (All-In _ l o.0 x k)
      | inr m' ↦ h y m'
    ],
  )
]

pub In-cut : {A : Type 0} (n : ℕ) (l : List A) (x : A) → In x (cut n l) → In x l
In-cut zero l x k = k
In-cut (suc n) l x k = In-take (suc n) l x k

pub IsOrdered-cut :
    (r : Bool) (n : ℕ) (l : List Versionstamp) → IsOrdered r l → IsOrdered r (cut n l)
IsOrdered-cut r zero l o = o
IsOrdered-cut r (suc n) l o = IsOrdered-take r (suc n) l o

pub cut-split :
    (r : Bool) (n : ℕ) (l : List Versionstamp) (x : Versionstamp)
    → IsOrdered r l
    → In x l
    → In x (cut n l)
      ⊎ ((0 < n)
          × (length (cut n l) ≡ n)
          × ((y : Versionstamp) → In y (cut n l) → before r y x ≡ true))
cut-split r zero l x o k = inl k
cut-split r (suc n) l x o k = elim (take-split r (suc n) l x o k) [
  | inl m ↦ inl m
  | inr (e, h) ↦ inr (omega arith, e, h)
]

-- Either all elements have the first property, or one has the second.
all_or_some :
    {A B : Versionstamp → Type 0} (xs : List Versionstamp)
    → ((x : Versionstamp) → In x xs → A x ⊎ B x)
    → ((x : Versionstamp) → In x xs → A x) ⊎ ((x : Versionstamp) × In x xs × B x)
all_or_some [] h = inl (λ x m. absurd m)
all_or_some {A} (y ∷ xs) h = elim (h y (inl refl)) [
  | inr b ↦ inr (y, inl refl, b)
  | inl a ↦ elim (all_or_some xs (λ x m. h x (inr m))) [
    | inl all ↦ inl (λ x m. elim m [ inl e ↦ subst A (sym e) a | inr n ↦ all x n ])
    | inr (x, m, b) ↦ inr (x, inr m, b)
  ]
]

-- A list that holds a full cut of an ordered list holds nothing at or behind what the cut left out.
module _ (r : Bool) (n : ℕ) (l found : List Versionstamp) (x : Versionstamp) (o : IsOrdered r l)
    (found_ordered : IsOrdered r found) (full : length (cut n l) ≡ n)
    (later : (y : Versionstamp) → In y (cut n l) → before r y x ≡ true)
    (subset : Subset (cut n l) found) (within : length found ≤ n) where
  not_behind :
      (y : Versionstamp)
      → In y found
      → ((z : Versionstamp) → In z (cut n l) → before r z y ≡ true)
      → ⊥
  not_behind y k h = absurd (
      omega (
        arith,
        length-le_of_Subset r (cut n l ++ y ∷ []) found
            (IsOrdered-append r (cut n l) y (IsOrdered-cut r n l o) h) found_ordered
            (λ z m. elim (In-append z (cut n l) (y ∷ []) m) [
              | inl c ↦ subset z c
              | inr (inl e) ↦ subst (λ (v : Versionstamp). In v found) (sym e) k
              | inr (inr c) ↦ absurd c
            ]),
        length-append (cut n l) (y ∷ []),
        full,
        within,
      ))

  all_before : (y : Versionstamp) → In y found → before r y x ≡ true
  all_before y k = elim (before_trichotomy r y x) [
    | inl e ↦ e
    | inr (inl e) ↦ absurd (
        not_behind y k
          (λ z m. subst (λ (v : Versionstamp). before r z v ≡ true) (sym e) (later z m)))
    | inr (inr e) ↦ absurd (not_behind y k (λ z m. before_trans r z x y (later z m) e))
  ]

  all_full : length found ≡ n
  all_full = omega (
    arith,
    length-le_of_Subset r (cut n l) found (IsOrdered-cut r n l o) found_ordered subset,
    full,
    within,
  )

pub IsFirst-cut :
    (r : Bool) (limit : ℕ) (lists : List (List Versionstamp)) (found : List Versionstamp)
    → All (IsOrdered r) lists
    → IsFirst r limit (Source (map (cut limit) lists)) found
    → IsFirst r limit (Source lists) found
IsFirst-cut r limit lists found o first = record {
  ordered = first.ordered;
  sound = λ x k.
      let (l', m, n) = first.sound x k in
      let (l, m', e) = In-map_inv (cut limit) l' lists m in
      (l, m', In-cut limit l x (subst (In x) e n));
  complete = λ x (l, m, k). elim (cut-split r limit l x (ordered l m) k) [
    | inl c ↦ first.complete x (cut limit l, In-map (cut limit) l lists m, c)
    | inr (some_limit, full, later) ↦
        elim (all_or_some (cut limit l)
          (λ t c. first.complete t (cut limit l, In-map (cut limit) l lists m, c))) [
            | inl subset ↦ inr (
              some_limit,
              all_full r limit l found x (ordered l m) first.ordered full later subset
                  (first.within some_limit),
              all_before r limit l found x (ordered l m) first.ordered full later subset
                  (first.within some_limit),
            )
            | inr (t, c, (p, e, h)) ↦ inr (p, e, λ y q. before_trans r y t x (h y q) (later t c))
          ]
  ];
  within = first.within;
}
  where
    ordered : (l : List Versionstamp) → In l lists → IsOrdered r l
    ordered l m = All-In (IsOrdered r) lists o l m
