-- ===== src/Prelude/Order.antt =====
-- Total orders on lists, compared element by element, and sorting.
use Prim.Native.Nat.{ℕ}
use mathlib.Core.Path.{◌≡◌}
use mathlib.Core.Bool.{Bool, true, false}
use mathlib.Core.List.{List, [], ◌∷◌}
use native.Mathlib.Omega.{arith}
use hick.Prelude.Tests.{ltb, ◌==◌, if◌then◌else◌}

-- `core::cmp::Ordering`
pub data Ordering : Type 0 where
  less equal greater : Ordering

abbrev pub reverse : Ordering → Ordering
reverse less = greater
reverse equal = equal
reverse greater = less

abbrev pub is_greater : Ordering → Bool
is_greater greater = true
is_greater _ = false

unfoldable pub cmp_nat : ℕ → ℕ → Ordering
cmp_nat a b = if ltb a b then less else if a == b then equal else greater

-- A total order.
pub record IsOrder {A : Type 0} (cmp : A → A → Ordering) : Type 0 where
  pub same : (a : A) → cmp a a ≡ equal
  pub unique : (a b : A) → cmp a b ≡ equal → a ≡ b
  pub swap : (a b : A) → cmp b a ≡ reverse (cmp a b)
  pub trans : (a b c : A) → cmp a b ≡ less → cmp b c ≡ less → cmp a c ≡ less

pub cmp_nat-IsOrder : IsOrder cmp_nat
unfolding cmp_nat
cmp_nat-IsOrder = record {
  same = λ a. ground arith;
  unique = λ a b h. ground arith;
  swap = λ a b. ground arith;
  trans = λ a b c p q. ground arith;
}

module _ {A : Type 0} (cmp : A → A → Ordering) where
  abbrev pub or_then : Ordering → Ordering → Ordering
  or_then equal rest = rest
  or_then less rest = less
  or_then greater rest = greater

  -- The order of `[A]` and of `Vec<A>`: by the first elements that differ, and the shorter first.
  unfoldable pub cmp_lists : List A → List A → Ordering
  cmp_lists [] [] = equal
  cmp_lists [] (b ∷ ys) = less
  cmp_lists (a ∷ xs) [] = greater
  cmp_lists (a ∷ xs) (b ∷ ys) = or_then (cmp a b) (cmp_lists xs ys)

  -- An element behind all that are at most it.
  unfoldable pub insert : A → List A → List A
  insert e [] = e ∷ []
  insert e (x ∷ xs) =
      let rest = insert e xs in if is_greater (cmp x e) then e ∷ x ∷ xs else x ∷ rest

  -- `sort`, for an order in which equal elements are the same.
  unfoldable pub sort : List A → List A
  unfolding insert
  sort [] = []
  sort (x ∷ xs) = insert x (sort xs)
