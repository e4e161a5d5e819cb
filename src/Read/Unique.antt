-- ===== src/Read/Unique.antt =====
-- What a read of dcb-layer/src/read.rs returns is determined by what it is asked for.
use dcb_layer.Common.{
  ℕ, ◌≤◌, ◌≡◌, refl, sym, ap, ap₂, ◌∙◌, subst, inl, inr, Bool, false, ◌≢◌, true≢false, map, In-map,
  List, [], ◌∷◌, ◌++◌, In, In-append, Subset, All-In, length, length-append, arith,
}
use dcb_layer.Types.{Versionstamp, StoredEvent}
use dcb_layer.Read.Order.{
  before-ne, before_irrefl, before_asymm, IsOrdered, IsOrdered-append, length-le_of_Subset, IsFirst,
}

module _ (r : Bool) where
  apart : (x : Versionstamp) (xs : List Versionstamp) → IsOrdered r (x ∷ xs) → ¬ In x xs
  apart x xs o m = true≢false (sym (All-In _ xs o.0 x m) ∙ before_irrefl r x)

  -- Ordered lists with the same elements are equal.
  ordered_unique :
      (xs ys : List Versionstamp)
      → IsOrdered r xs
      → IsOrdered r ys
      → Subset xs ys
      → Subset ys xs
      → xs ≡ ys
  ordered_unique [] [] hx hy s t = refl
  ordered_unique [] (y ∷ ys) hx hy s t = absurd (t y (inl refl))
  ordered_unique (x ∷ xs) [] hx hy s t = absurd (s x (inl refl))
  ordered_unique (x ∷ xs) (y ∷ ys) hx hy s t =
      let same : x ≡ y = first (s x (inl refl)) (t y (inl refl)) in
      ap₂ ◌∷◌ same (
        ordered_unique xs ys hx.1 hy.1
          (λ z m. elim (s z (inr m)) [
            | inl e ↦
                absurd (apart x xs hx (subst (λ (v : Versionstamp). In v xs) (e ∙ sym same) m))
            | inr n ↦ n
          ])
          (λ z m. elim (t z (inr m)) [
            | inl e ↦ absurd (apart y ys hy (subst (λ (v : Versionstamp). In v ys) (e ∙ same) m))
            | inr n ↦ n
          ]))
    where
      first : In x (y ∷ ys) → In y (x ∷ xs) → x ≡ y
      first (inl e) n = e
      first (inr m) (inl e) = sym e
      first (inr m) (inr n) =
          absurd (before_asymm r x y (All-In _ xs hx.0 y n) (All-In _ ys hy.0 x m))

  module _ {limit : ℕ} {P : Versionstamp → Type 0} where
    -- What is first is in every list that is first.
    first-Subset :
        (xs ys : List Versionstamp) → IsFirst r limit P xs → IsFirst r limit P ys → Subset xs ys
    first-Subset xs ys hx hy x m = elim (hy.complete x (hx.sound x m)) [
      | inl n ↦ n
      | inr (some_limit, full, behind) ↦
          let inside : Subset ys xs = λ y n. elim (hx.complete y (hy.sound y n)) [
            | inl k ↦ k
            | inr (_, _, behind') ↦ absurd (before_asymm r x y (behind' x m) (behind y n))
          ] in
          let more : length (ys ++ x ∷ []) ≤ length xs =
            length-le_of_Subset r (ys ++ x ∷ []) xs (IsOrdered-append r ys x hy.ordered behind)
              hx.ordered
              (λ z k. elim (In-append z ys (x ∷ []) k) [
                | inl n ↦ inside z n
                | inr (inl e) ↦ subst (λ (v : Versionstamp). In v xs) (sym e) m
                | inr (inr n) ↦ absurd n
              ]) in
          absurd (omega (arith, more, length-append ys (x ∷ []), full, hx.within some_limit))
    ]

    -- There is only one list of the first ones.
    pub IsFirst_unique :
        (xs ys : List Versionstamp) → IsFirst r limit P xs → IsFirst r limit P ys → xs ≡ ys
    IsFirst_unique xs ys hx hy =
        ordered_unique xs ys hx.ordered hy.ordered (first-Subset xs ys hx hy)
          (first-Subset ys xs hy hx)

earlier_position :
    (se : StoredEvent) (history : List StoredEvent)
    → IsOrdered false (map (λ se. se.position) (se ∷ history))
    → (later : StoredEvent) → In later history
    → se.position ≢ later.position
earlier_position se history o later m = before-ne false se.position later.position (
    All-In _ (map (λ se. se.position) history) o.0 later.position
      (In-map (λ se. se.position) later history m))

-- An event of a history is the one at its position.
pub same_position :
    (history : List StoredEvent) (a b : StoredEvent)
    → IsOrdered false (map (λ se. se.position) history)
    → In a history
    → In b history
    → a.position ≡ b.position
    → a ≡ b
same_position [] a b o m n e = absurd m
same_position (se ∷ history) a b o (inl m) (inl n) e = m ∙ sym n
same_position (se ∷ history) a b o (inl m) (inr n) e =
    absurd (earlier_position se history o b n (ap (λ (x : StoredEvent). x.position) (sym m) ∙ e))
same_position (se ∷ history) a b o (inr m) (inl n) e =
    absurd
      (earlier_position se history o a m (ap (λ (x : StoredEvent). x.position) (sym n) ∙ sym e))
same_position (se ∷ history) a b o (inr m) (inr n) e = same_position history a b o.1 m n e

-- Events of a history are those at their positions.
pub same_events :
    (history xs ys : List StoredEvent)
    → IsOrdered false (map (λ se. se.position) history)
    → Subset xs history
    → Subset ys history
    → map (λ se. se.position) xs ≡ map (λ se. se.position) ys
    → xs ≡ ys
same_events history [] [] o s t e = refl
same_events history [] (y ∷ ys) o s t e = absurd cc
same_events history (x ∷ xs) [] o s t e = absurd cc
same_events history (x ∷ xs) (y ∷ ys) o s t e =
    let here : x.position ≡ y.position = cc in
    let rest : map (λ se. se.position) xs ≡ map (λ se. se.position) ys = cc in
    ap₂ ◌∷◌ (same_position history x y o (s x (inl refl)) (t y (inl refl)) here)
      (same_events history xs ys o (λ z m. s z (inr m)) (λ z m. t z (inr m)) rest)
