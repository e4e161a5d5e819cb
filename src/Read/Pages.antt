-- ===== src/Read/Pages.antt =====
-- Reading page by page, each page after the last position of those before it: what a client of
-- `read` of dcb-layer/src/read.rs puts together.
use dcb_layer.Common.{
  ℕ, zero, suc, ◌+◌, ◌<◌, ◌≡◌, ◌↔◌, ◌⊎◌, inl, inr, true, false, Option, none, some, List, [], ◌∷◌,
  ◌++◌, All-In, In, In-append, In-append_left, In-append_right, length, length-append, arith, refl,
  sym, subst,
}
use dcb_layer.Common.Bytes.{lt, lt_trans}
use dcb_layer.Types.{Versionstamp}
use dcb_layer.Store.{IsAfter}
use dcb_layer.Read.Order.{IsOrdered, IsOrdered-join, IsFirst}

-- The position to go on after: the last one seen, or the one that the read began after.
abbrev pub last_position : Option Versionstamp → List Versionstamp → Option Versionstamp
last_position after [] = after
last_position after (vs ∷ vses) = last_position (some vs) vses

-- What two limits allow together, the second being 0 for none.
abbrev pub together : ℕ → ℕ → ℕ
together n zero = zero
together n (suc limit) = n + suc limit

together-limited :
    (n limit : ℕ) → (0 < limit → together n limit ≡ n + limit) × (0 < together n limit → 0 < limit)
together-limited n zero = (λ h. absurd (omega arith), λ h. h)
together-limited n (suc limit) = (λ h. refl, λ h. omega arith)

IsAfter-trans :
    (after : Option Versionstamp) (vs later : Versionstamp)
    → IsAfter after vs
    → lt vs later ≡ true
    → IsAfter after later
IsAfter-trans none vs later a h = tt
IsAfter-trans (some p) vs later a h = lt_trans p vs later a h

-- To lie after the last position is to lie after the first one and after all that were seen.
pub IsAfter-last_position :
    (after : Option Versionstamp) (vses : List Versionstamp)
    → IsOrdered false vses
    → ((vs : Versionstamp) → In vs vses → IsAfter after vs)
    → (later : Versionstamp)
    → IsAfter (last_position after vses) later
      ↔ (IsAfter after later × ((vs : Versionstamp) → In vs vses → lt vs later ≡ true))
IsAfter-last_position after [] o h later = (λ a. (a, λ vs m. absurd m), λ a. a.0)
IsAfter-last_position after (vs ∷ vses) o h later =
    let both = IsAfter-last_position (some vs) vses o.1 (λ x m. All-In _ vses o.0 x m) later in
    (
      λ a.
          let (now, rest) = both.0 a in
          (
            IsAfter-trans after vs later (h vs (inl refl)) now,
            λ x m. elim m [
              | inl e ↦ subst (λ (y : Versionstamp). lt y later ≡ true) (sym e) now
              | inr n ↦ rest x n
            ],
          ),
      λ a. both.1 (a.1 vs (inl refl), λ x m. a.1 x (inr m)),
    )

-- What is not on the first page of what there is by then lies after the page, provided that what
-- was not there before does.
pub on_page :
    {limit : ℕ} {P Q : Versionstamp → Type 0} {xs : List Versionstamp}
    → IsFirst false limit P xs
    → ((vs : Versionstamp) → Q vs → P vs ⊎ ((x : Versionstamp) → In x xs → lt x vs ≡ true))
    → (vs : Versionstamp) → Q vs
    → In vs xs ⊎ ((x : Versionstamp) → In x xs → lt x vs ≡ true)
on_page first newer vs q = elim (newer vs q) [
  | inl p ↦ elim (first.complete vs p) [ inl m ↦ inl m | inr (l, full, h) ↦ inr h ]
  | inr h ↦ inr h
]

-- The first page is the first `limit` of what there is; the second the first `limit'` of what lies
-- after it, by then; and what there is by then and was not before lies after the first page. Then
-- the two pages are the first of what there is by then.
module _ {limit limit' : ℕ} {P Q R : Versionstamp → Type 0} {xs ys : List Versionstamp}
    (first : IsFirst false limit P xs) (second : IsFirst false limit' R ys)
    (kept : (vs : Versionstamp) → P vs → Q vs)
    (newer : (vs : Versionstamp) → Q vs → P vs ⊎ ((x : Versionstamp) → In x xs → lt x vs ≡ true))
    (after : (vs : Versionstamp)
      → R vs ↔ (Q vs × ((x : Versionstamp) → In x xs → lt x vs ≡ true))) where
  pub IsFirst_pages : IsFirst false (together (length xs) limit') Q (xs ++ ys)
  IsFirst_pages = record {
    ordered =
        IsOrdered-join false xs ys first.ordered second.ordered
          (λ x y m n. ((after y).0 (second.sound y n)).1 x m);
    sound = λ vs m. elim (In-append vs xs ys m) [
      | inl k ↦ kept vs (first.sound vs k)
      | inr k ↦ ((after vs).0 (second.sound vs k)).0
    ];
    complete = λ vs q. elim (on_page first newer vs q) [
      | inl m ↦ inl (In-append_left vs xs ys m)
      | inr h ↦ elim (second.complete vs ((after vs).1 (q, h))) [
        | inl n ↦ inl (In-append_right vs xs ys n)
        | inr (l, full, k) ↦ inr (
          omega (arith, (together-limited (length xs) limit').0 l),
          omega (arith, (together-limited (length xs) limit').0 l, length-append xs ys),
          λ x m. elim (In-append x xs ys m) [ inl n ↦ h x n | inr n ↦ k x n ],
        )
      ]
    ];
    within = λ l.
        let limited = (together-limited (length xs) limit').1 l in
        omega (
          arith,
          (together-limited (length xs) limit').0 limited,
          second.within limited,
          length-append xs ys,
        );
  }
