-- ===== src/Prelude/Lists.antt =====
-- Lists measured and indexed by native numbers, and the checked slices of the source.
use Prim.Native.Nat.{ℕ, zero, suc, ◌+◌, ◌-◌, ◌≤◌, ◌<◌, min}
use mathlib.Core.Path.{◌≡◌, refl, sym, ap, ◌∙◌, subst}
use mathlib.Core.Bool.{◌&&◌}
use mathlib.Core.List.{List, [], ◌∷◌, ◌++◌, append_assoc}
use mathlib.Core.Option.{Option, none, some}
use native.Mathlib.Omega.{arith}
use hick.Prelude.Tests.{leb, le→leb, if◌then◌else◌}

module _ {ℓ} {A : Type ℓ} where
  abbrev pub length : List A → ℕ
  length [] = 0
  length (x ∷ xs) = suc (length xs)

  abbrev pub get_elem? : List A → ℕ → Option A
  get_elem? [] i = none
  get_elem? (x ∷ xs) zero = some x
  get_elem? (x ∷ xs) (suc i) = get_elem? xs i

  abbrev pub take : ℕ → List A → List A
  take zero xs = []
  take (suc n) [] = []
  take (suc n) (x ∷ xs) = x ∷ take n xs

  abbrev pub drop : ℕ → List A → List A
  drop zero xs = xs
  drop (suc n) [] = []
  drop (suc n) (x ∷ xs) = drop n xs

  abbrev pub All {κ} : (A → Type κ) → List A → Type κ
  All P [] = Unit {κ}
  All P (x ∷ xs) = P x × All P xs

  pub length-append : (xs ys : List A) → length (xs ++ ys) ≡ length xs + length ys
  length-append [] ys = omega arith
  length-append (x ∷ xs) ys = omega (arith, length-append xs ys)

  pub length-take : (n : ℕ) (xs : List A) → length (take n xs) ≡ min n (length xs)
  length-take zero xs = omega arith
  length-take (suc n) [] = omega arith
  length-take (suc n) (x ∷ xs) = omega (arith, length-take n xs)

  pub length-drop : (n : ℕ) (xs : List A) → length (drop n xs) ≡ length xs - n
  length-drop zero xs = omega arith
  length-drop (suc n) [] = omega arith
  length-drop (suc n) (x ∷ xs) = omega (arith, length-drop n xs)

  pub take-length_append : (xs ys : List A) → take (length xs) (xs ++ ys) ≡ xs
  take-length_append [] ys = refl
  take-length_append (x ∷ xs) ys = ap (◌∷◌ x) (take-length_append xs ys)

  pub drop-length_append : (xs ys : List A) → drop (length xs) (xs ++ ys) ≡ ys
  drop-length_append [] ys = refl
  drop-length_append (x ∷ xs) ys = drop-length_append xs ys

  pub take-append-drop : (n : ℕ) (xs : List A) → take n xs ++ drop n xs ≡ xs
  take-append-drop zero xs = refl
  take-append-drop (suc n) [] = refl
  take-append-drop (suc n) (x ∷ xs) = ap (◌∷◌ x) (take-append-drop n xs)

  -- An index that is answered lies within the list.
  pub get_elem?-lt : (xs : List A) (i : ℕ) {x : A} → get_elem? xs i ≡ some x → i < length xs
  get_elem?-lt [] i e = cc
  get_elem?-lt (x ∷ xs) zero e = omega arith
  get_elem?-lt (x ∷ xs) (suc i) e = omega (arith, get_elem?-lt xs i e)

  pub get_elem?-append :
      (xs ys : List A) (i : ℕ) → get_elem? (xs ++ ys) (length xs + i) ≡ get_elem? ys i
  get_elem?-append [] ys i = ap (get_elem? ys) (omega arith)
  get_elem?-append (x ∷ xs) ys i =
      let e : suc (length xs) + i ≡ suc (length xs + i) = omega arith in
      rw e (get_elem?-append xs ys i)

-- `s.get(a..b)`: `None` where the range is inverted or runs past the end.
abbrev pub slice? {ℓ} : {A : Type ℓ} → List A → ℕ → ℕ → Option (List A)
slice? xs a b = if leb a b && leb b (length xs) then some (take (b - a) (drop a xs)) else none

pub length-slice? {ℓ} :
    {A : Type ℓ} (xs : List A) (a b : ℕ) {l : List A}
    → slice? xs a b ≡ some l
    → (a + length l ≡ b) × (b ≤ length xs) × (l ≡ take (b - a) (drop a xs))
length-slice? xs a b e = ground (arith, length-take (b - a) (drop a xs), length-drop a xs)

module _ {ℓ} {A : Type ℓ} where
  pub get_elem?-length :
      (xs : List A) (x : A) (ys : List A) → get_elem? (xs ++ x ∷ ys) (length xs) ≡ some x
  get_elem?-length [] x ys = refl
  get_elem?-length (y ∷ xs) x ys = get_elem?-length xs x ys

  pub slice?_in :
      (xs : List A) (a b : ℕ)
      → a ≤ b
      → b ≤ length xs
      → slice? xs a b ≡ some (take (b - a) (drop a xs))
  slice?_in xs a b p q = rw (le→leb a b p, le→leb b (length xs) q)

  pub slice?-append :
      (xs l ys : List A) → slice? (xs ++ (l ++ ys)) (length xs) (length xs + length l) ≡ some l
  slice?-append xs l ys =
      let e : length xs + length l - length xs ≡ length l = omega arith in
      slice?_in (xs ++ (l ++ ys)) (length xs) (length xs + length l) (omega arith)
        (omega (arith, length-append xs (l ++ ys), length-append l ys))
      ∙ rw (e, drop-length_append xs (l ++ ys), take-length_append l ys)

  pub slice?-append_cons :
      (xs : List A) (x : A) (l ys : List A) (n : ℕ)
      → n ≡ length l
      → slice? (xs ++ x ∷ (l ++ ys)) (length xs + 1) (length xs + 1 + n) ≡ some l
  slice?-append_cons xs x l ys n e =
      let p : length (xs ++ x ∷ []) ≡ length xs + 1 = length-append xs (x ∷ []) ∙ omega arith in
      let q : length (xs ++ x ∷ []) + length l ≡ length xs + 1 + n = omega arith in
      sym (λ i. slice? (append_assoc xs (x ∷ []) (l ++ ys) i) (p i) (q i))
      ∙ slice?-append (xs ++ x ∷ []) l ys

  pub All-append {κ} : (P : A → Type κ) (xs ys : List A) → All P xs → All P ys → All P (xs ++ ys)
  All-append P [] ys a b = b
  All-append P (x ∷ xs) ys a b = (a.0, All-append P xs ys a.1 b)

  pub All-append_left {κ} : (P : A → Type κ) (xs ys : List A) → All P (xs ++ ys) → All P xs
  All-append_left P [] ys a = tt
  All-append_left P (x ∷ xs) ys a = (a.0, All-append_left P xs ys a.1)

  pub All-append_right {κ} : (P : A → Type κ) (xs ys : List A) → All P (xs ++ ys) → All P ys
  All-append_right P [] ys a = a
  All-append_right P (x ∷ xs) ys a = All-append_right P xs ys a.1

  pub All-take {κ} : (P : A → Type κ) (n : ℕ) (xs : List A) → All P xs → All P (take n xs)
  All-take P zero xs a = tt
  All-take P (suc n) [] a = tt
  All-take P (suc n) (x ∷ xs) a = (a.0, All-take P n xs a.1)

  pub All-drop {κ} : (P : A → Type κ) (n : ℕ) (xs : List A) → All P xs → All P (drop n xs)
  All-drop P zero xs a = a
  All-drop P (suc n) [] a = tt
  All-drop P (suc n) (x ∷ xs) a = All-drop P n xs a.1

  pub All-slice? {κ} :
      (P : A → Type κ) (xs : List A) (a b : ℕ) (l : List A)
      → All P xs
      → slice? xs a b ≡ some l
      → All P l
  All-slice? P xs a b l all e =
      let (_, _, eq) = length-slice? xs a b e in
      subst (All P) (sym eq) (All-take P (b - a) (drop a xs) (All-drop P a xs all))
