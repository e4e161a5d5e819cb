-- ===== src/Common/Bytes.antt =====
-- Byte strings: `Vec<u8>`, `&[u8]`, `String` (its UTF-8 bytes) and `[u8; N]`, with Rust's
-- lexicographic order, which is also the order of the database's keys.
use Prim.Native.Char.{code}
use Prim.Native.Nat.{ℕ, ◌<◌}
use Prim.Native.String.{String}
use mathlib.Core.Path.{◌≡◌, refl}
use mathlib.Core.Logic.{◌↔◌, ◌⊎◌, inl, inr}
use mathlib.Core.Bool.{Bool, true, false, ◌&&◌, not}
use mathlib.Core.List.{List, [], ◌∷◌, ◌++◌}
use native.Mathlib.Omega.{arith}
use dcb_layer.Common.Tests.{ltb, ◌==◌, if◌then◌else◌}
use dcb_layer.Common.Lists.{All}

abbrev pub Bytes : Type 0
Bytes = List ℕ

-- A `String` or `&str`, by its UTF-8 bytes.
abbrev pub Text : Type 0
Text = List ℕ

-- A text literal (of ASCII characters).
abbrev pub text : String → Text
text String.[] = []
text (String.◌∷◌ c s) = code c ∷ text s

-- Every element is a byte.
abbrev pub IsBytes : Bytes → Type 0
IsBytes = All (λ b. b < 256)

-- `a < b`, lexicographically.
unfoldable pub lt : Bytes → Bytes → Bool
lt xs [] = false
lt [] (y ∷ ys) = true
lt (x ∷ xs) (y ∷ ys) = if x == y then lt xs ys else ltb x y

-- `a == b`.
unfoldable pub eq : Bytes → Bytes → Bool
eq [] [] = true
eq (x ∷ xs) (y ∷ ys) = x == y && eq xs ys
eq _ _ = false

-- `a <= b`.
unfoldable pub le : Bytes → Bytes → Bool
unfolding lt
le a b = not (lt b a)

pub eq_iff : (a b : Bytes) → (eq a b ≡ true) ↔ (a ≡ b)
unfolding eq
eq_iff [] [] = ground arith
eq_iff [] (y ∷ ys) = ground arith
eq_iff (x ∷ xs) [] = ground arith
eq_iff (x ∷ xs) (y ∷ ys) = ground (arith, eq_iff xs ys)

pub lt_irrefl : (a : Bytes) → lt a a ≡ false
unfolding lt
lt_irrefl [] = refl
lt_irrefl (x ∷ xs) = ground (arith, lt_irrefl xs)

pub lt_trans : (a b c : Bytes) → lt a b ≡ true → lt b c ≡ true → lt a c ≡ true
unfolding lt
lt_trans [] [] [] p q = p
lt_trans [] [] (z ∷ c) p q = refl
lt_trans [] (y ∷ b) [] p q = q
lt_trans [] (y ∷ b) (z ∷ c) p q = refl
lt_trans (x ∷ a) [] c p q = ground arith
lt_trans (x ∷ a) (y ∷ b) [] p q = q
lt_trans (x ∷ a) (y ∷ b) (z ∷ c) p q = ground (arith, lt_trans a b c)

pub lt_trichotomy : (a b : Bytes) → (lt a b ≡ true) ⊎ ((a ≡ b) ⊎ (lt b a ≡ true))
unfolding lt
lt_trichotomy [] [] = inr (inl refl)
lt_trichotomy [] (y ∷ b) = inl refl
lt_trichotomy (x ∷ a) [] = inr (inr refl)
lt_trichotomy (x ∷ a) (y ∷ b) = ground (arith, lt_trichotomy a b)

-- A common prefix does not change the order.
pub lt-append : (p a b : Bytes) → lt (p ++ a) (p ++ b) ≡ lt a b
unfolding lt
lt-append [] a b = refl
lt-append (x ∷ p) a b = ground (arith, lt-append p a b)

pub lt_asymm : (a b : Bytes) → lt a b ≡ true → lt b a ≡ false
lt_asymm a b h = ground (arith, lt_trans a b a, lt_irrefl a)

pub lt-of_lt_not_lt : (a b c : Bytes) → lt a b ≡ true → lt c b ≡ false → lt a c ≡ true
lt-of_lt_not_lt a b c h k = ground (arith, lt_trichotomy c b, lt_trans a b c)

pub not_lt_trans : (a b c : Bytes) → lt b a ≡ false → lt c b ≡ false → lt c a ≡ false
not_lt_trans a b c h k = ground (arith, lt_trichotomy a b, lt_trans c a b)
