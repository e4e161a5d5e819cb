-- ===== src/Read/Reference.antt =====
-- The reference for `read_events` of dcb-layer/src/read.rs: test every event of the history, turn the
-- list around for a reverse read, and keep the first ones up to the limit.
use mathlib.Core.List.{reverse}
use dcb_layer.Common.{
  ◌≡◌, refl, sym, ap, ◌∙◌, subst, ◌↔◌, ◌⊎◌, inl, inr, Bool, true, true≢false, ◌&&◌, ◌||◌,
  Bool-cases, Option, none, some, List, [], ◌∷◌, In, any, all, is_empty, if◌then◌else◌, arith,
}
use dcb_layer.Common.Bytes.{Text, eq, eq_iff, lt}
use dcb_layer.Types.{Versionstamp, Event, StoredEvent, QueryItem, Query, ReadOptions}
use dcb_layer.Store.{Matches, IsAfter}
use dcb_layer.Read.Single.{cut}
use dcb_layer.Read.Outcome.{Wanted}

abbrev has : Text → List Text → Bool
has x xs = any (eq x) xs

-- One of the types, if any are given, and all of the tags.
unfoldable pub matches : Event → QueryItem → Bool
matches event item =
    (is_empty item.types || has event.type_name item.types)
    && all (λ tag. has tag event.tags) item.tags

unfoldable pub is_after : Option Versionstamp → Versionstamp → Bool
is_after none vs = true
is_after (some after) vs = lt after vs

unfoldable pub wanted : List QueryItem → Option Versionstamp → StoredEvent → Bool
unfolding matches is_after
wanted items after se = any (matches se.event) items && is_after after se.position

-- The elements that pass the test.
unfoldable pub chosen : (StoredEvent → Bool) → List StoredEvent → List StoredEvent
chosen p [] = []
chosen p (x ∷ xs) = let rest = chosen p xs in if p x then x ∷ rest else rest

unfoldable pub reference : Query → ReadOptions → List StoredEvent → List StoredEvent
unfolding chosen wanted
reference query opts history =
    let found = chosen (wanted query.items opts.after) history in
    cut opts.limit (if opts.reverse then reverse found else found)

module _ {A : Type 0} where
  any-In : (p : A → Bool) (xs : List A) → (any p xs ≡ true) ↔ ((x : A) × In x xs × (p x ≡ true))
  any-In p [] = (λ h. absurd cc, λ h. absurd h.1)
  any-In p (x ∷ xs) = elim (Bool-cases (p x)) [
    | inl e ↦ rw e (λ h. (x, inl refl, e), λ h. refl)
    | inr n ↦ rw n (
      λ h. let (y, m, e) = (any-In p xs).0 h in (y, inr m, e),
      λ (y, m, e). elim m [
        | inl q ↦ absurd (true≢false (sym e ∙ ap p q ∙ n))
        | inr k ↦ (any-In p xs).1 (y, k, e)
      ],
    )
  ]

  all-In : (p : A → Bool) (xs : List A) → (all p xs ≡ true) ↔ ((x : A) → In x xs → p x ≡ true)
  all-In p [] = (λ h x m. absurd m, λ h. refl)
  all-In p (x ∷ xs) = elim (Bool-cases (p x)) [
    | inr n ↦ rw n (λ h. absurd cc, λ h. absurd (true≢false (sym (h x (inl refl)) ∙ n)))
    | inl e ↦ rw e (
      λ h y m. elim m [ inl q ↦ ap p q ∙ e | inr k ↦ (all-In p xs).0 h y k ],
      λ h. (all-In p xs).1 (λ y k. h y (inr k)),
    )
  ]

has-In : (x : Text) (xs : List Text) → (has x xs ≡ true) ↔ In x xs
has-In x xs = (
  λ h.
      let (y, m, e) = (any-In (eq x) xs).0 h in
      subst (λ (z : Text). In z xs) (sym ((eq_iff x y).0 e)) m,
  λ m. (any-In (eq x) xs).1 (x, m, (eq_iff x x).1 refl),
)

and_iff : (a b : Bool) → ((a && b) ≡ true) ↔ ((a ≡ true) × (b ≡ true))
and_iff a b = ground arith

or_iff : (a b : Bool) → ((a || b) ≡ true) ↔ ((a ≡ true) ⊎ (b ≡ true))
or_iff a b = ground arith

is_empty_iff : (xs : List Text) → (is_empty xs ≡ true) ↔ (xs ≡ [])
is_empty_iff [] = (λ h. refl, λ h. refl)
is_empty_iff (x ∷ xs) = (λ h. absurd cc, λ h. absurd cc)

matches-Matches :
    (event : Event) (item : QueryItem) → (matches event item ≡ true) ↔ Matches event item
unfolding matches
matches-Matches event item =
    let both =
      and_iff (is_empty item.types || has event.type_name item.types)
        (all (λ tag. has tag event.tags) item.tags) in
    let one = or_iff (is_empty item.types) (has event.type_name item.types) in
    let tags = all-In (λ tag. has tag event.tags) item.tags in
    (
      λ h. (
        elim (one.0 (both.0 h).0) [
          | inl e ↦ inl ((is_empty_iff item.types).0 e)
          | inr e ↦ inr ((has-In event.type_name item.types).0 e)
        ],
        λ x m. (has-In x event.tags).0 (tags.0 (both.0 h).1 x m),
      ),
      λ (t, s). both.1 (
        one.1 (elim t [
          | inl e ↦ inl ((is_empty_iff item.types).1 e)
          | inr m ↦ inr ((has-In event.type_name item.types).1 m)
        ]),
        tags.1 (λ x m. (has-In x event.tags).1 (s x m)),
      ),
    )

is_after-IsAfter :
    (after : Option Versionstamp) (vs : Versionstamp)
    → (is_after after vs ≡ true) ↔ IsAfter after vs
unfolding is_after
is_after-IsAfter none vs = (λ h. tt, λ h. refl)
is_after-IsAfter (some after) vs = (λ h. h, λ h. h)

-- The tests are those of the documentation.
pub wanted-Wanted :
    (items : List QueryItem) (after : Option Versionstamp) (se : StoredEvent)
    → (wanted items after se ≡ true) ↔ Wanted items after se
unfolding wanted
wanted-Wanted items after se =
    let both = and_iff (any (matches se.event) items) (is_after after se.position) in
    let some_item = any-In (matches se.event) items in
    let later = is_after-IsAfter after se.position in
    (
      λ h.
          let (item, m, e) = some_item.0 (both.0 h).0 in
          ((item, m, (matches-Matches se.event item).0 e), later.0 (both.0 h).1),
      λ ((item, m, e), a).
          both.1 (some_item.1 (item, m, (matches-Matches se.event item).1 e), later.1 a),
    )

-- A selected event is one of the list that passes the test.
pub In-chosen :
    (p : StoredEvent → Bool) (se : StoredEvent) (xs : List StoredEvent)
    → In se (chosen p xs) ↔ (In se xs × (p se ≡ true))
unfolding chosen
In-chosen p se [] = (λ m. absurd m, λ m. absurd m.0)
In-chosen p se (x ∷ xs) = elim (Bool-cases (p x)) [
  | inl e ↦ rw e (
    λ m. elim m [
      | inl q ↦ (inl q, ap p q ∙ e)
      | inr k ↦ let (n, h) = (In-chosen p se xs).0 k in (inr n, h)
    ],
    λ (m, h). elim m [ inl q ↦ inl q | inr n ↦ inr ((In-chosen p se xs).1 (n, h)) ],
  )
  | inr n ↦ rw n (
    λ k. let (m, h) = (In-chosen p se xs).0 k in (inr m, h),
    λ (m, h). elim m [
      | inl q ↦ absurd (true≢false (sym h ∙ ap p q ∙ n))
      | inr k ↦ (In-chosen p se xs).1 (k, h)
    ],
  )
]
