-- ===== src/Common/Collect.antt =====
-- What a collected list of results holds.
use mathlib.Core.Path.{◌≡◌, refl, sym, ap, ◌∙◌, subst}
use mathlib.Core.Logic.{inl, inr}
use mathlib.Core.List.{List, [], ◌∷◌}
use dcb_layer.Common.Lists.{In}
use dcb_layer.Common.Results.{Result, ok, collect, >>=-eq_ok}

module _ {A B E : Type 0} (f : A → Result B E) where
  pub collect_total :
      (xs : List A)
      → ((x : A) → In x xs → (y : B) × (f x ≡ ok y))
      → (ys : List B) × (collect f xs ≡ ok ys)
  collect_total [] h = ([], refl)
  collect_total (x ∷ xs) h =
      let (y, p) = h x (inl refl) in
      let (ys, q) = collect_total xs (λ z m. h z (inr m)) in (y ∷ ys, rw (p, q) refl)

  collect_parts :
      (x : A) (xs : List A) (ys : List B)
      → collect f (x ∷ xs) ≡ ok ys
      → (y : B) × (zs : List B) × (f x ≡ ok y) × (collect f xs ≡ ok zs) × (ys ≡ y ∷ zs)
  collect_parts x xs ys h =
      let (y, p, q) = >>=-eq_ok (f x) _ h in
      let (zs, r, s) = >>=-eq_ok (collect f xs) _ q in (y, zs, p, r, cc)

  -- Each element of the result comes from an element that was collected, and the other way round.
  pub In-collect :
      (xs : List A) (ys : List B) (y : B)
      → collect f xs ≡ ok ys
      → In y ys
      → (x : A) × In x xs × (f x ≡ ok y)
  In-collect [] ys y h m = absurd (subst (In y) (empty h) m)
    where
      empty : ◌≡◌ {A = Result (List B) E} (ok []) (ok ys) → ys ≡ []
      empty e = cc
  In-collect (x ∷ xs) ys y h m =
      let (z, zs, p, q, r) = collect_parts x xs ys h in
      let n : In y (z ∷ zs) = subst (In y) r m in
      elim n [
        | inl e ↦ (x, inl refl, p ∙ ap ok (sym e))
        | inr k ↦ let (w, l, s) = In-collect xs zs y q k in (w, inr l, s)
      ]

  pub In-collect_of :
      (xs : List A) (ys : List B) (x : A)
      → collect f xs ≡ ok ys
      → In x xs
      → (y : B) × In y ys × (f x ≡ ok y)
  In-collect_of [] ys x h m = absurd m
  In-collect_of (z ∷ xs) ys x h m =
      let (y, zs, p, q, r) = collect_parts z xs ys h in
      elim m [
        | inl e ↦ (y, subst (In y) (sym r) (inl refl), ap f e ∙ p)
        | inr n ↦ let (w, k, s) = In-collect_of xs zs x q n in (w, subst (In w) (sym r) (inr k), s)
      ]
