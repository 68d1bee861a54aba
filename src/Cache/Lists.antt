-- ===== src/Cache/Lists.antt =====
-- Keyed pairs, as the iterator of a pool yields them.
pub mod Pruned
use hick.Prelude.{
  ℕ, ◌≤◌, ◌<◌, ◌≡◌, refl, arith, Bool, false, List, [], ◌∷◌, Option, none, some, length, All, ◌==◌,
  if◌then◌else◌, Bool-cases, inl, inr, ap, true,
}

module _ {V : Type 0} where
  -- No pair has the key `k`.
  abbrev pub Lacks : ℕ → List (ℕ × V) → Type 0
  Lacks k = All (λ e. (k == e.0) ≡ false)

  abbrev pub Distinct : List (ℕ × V) → Type 0
  Distinct [] = Unit {0}
  Distinct (e ∷ l) = Lacks e.0 l × Distinct l

  abbrev pub lookup : ℕ → List (ℕ × V) → Option V
  lookup k [] = none
  lookup k (e ∷ l) = if k == e.0 then some e.1 else lookup k l

  -- `f` applied at the key `k`.
  abbrev pub adjust : ℕ → (V → V) → List (ℕ × V) → List (ℕ × V)
  adjust k f [] = []
  adjust k f (e ∷ l) = (if k == e.0 then (e.0, f e.1) else e) ∷ adjust k f l

  -- The pairs whose key is not `k`.
  abbrev pub without : ℕ → List (ℕ × V) → List (ℕ × V)
  without k [] = []
  without k (e ∷ l) = let rest = without k l in if k == e.0 then rest else e ∷ rest

  -- The pairs whose value passes the test, and their keys.
  abbrev pub keep : (V → Bool) → List (ℕ × V) → List (ℕ × V)
  keep test [] = []
  keep test (e ∷ l) = let rest = keep test l in if test e.1 then e ∷ rest else rest

  abbrev pub keys_where : (V → Bool) → List (ℕ × V) → List ℕ
  keys_where test [] = []
  keys_where test (e ∷ l) = let rest = keys_where test l in if test e.1 then e.0 ∷ rest else rest

  -- `f` applied to every value.
  abbrev pub values : (V → V) → List (ℕ × V) → List (ℕ × V)
  values f [] = []
  values f (e ∷ l) = (e.0, f e.1) ∷ values f l

  -- The first key whose value passes the test: a loop that breaks.
  abbrev pub first_key : (V → Bool) → List (ℕ × V) → Option ℕ
  first_key test [] = none
  first_key test (e ∷ l) = if test e.1 then some e.0 else first_key test l

  pub without-Lacks : (k : ℕ) (l : List (ℕ × V)) → Lacks k l → without k l ≡ l
  without-Lacks k [] h = refl
  without-Lacks k (e ∷ l) h = rw (h.0, without-Lacks k l h.1)

  pub length-without : (k : ℕ) (l : List (ℕ × V)) → length (without k l) ≤ length l
  length-without k [] = omega arith
  length-without k (e ∷ l) = ground (arith, length-without k l)

  pub length-without-lookup :
      (k : ℕ) (v : V) (l : List (ℕ × V)) → lookup k l ≡ some v → length (without k l) < length l
  length-without-lookup k v [] h = cc
  length-without-lookup k v (e ∷ l) h =
      ground (arith, length-without k l, length-without-lookup k v l)

  pub length-adjust : (k : ℕ) (f : V → V) (l : List (ℕ × V)) → length (adjust k f l) ≡ length l
  length-adjust k f [] = refl
  length-adjust k f (e ∷ l) = omega (arith, length-adjust k f l)

  -- The keys of the pairs that pass a test are among the keys.
  pub Lacks-keys :
      (test : V → Bool) (k : ℕ) (l : List (ℕ × V))
      → Lacks k l
      → All (λ k'. (k' == k) ≡ false) (keys_where test l)
  Lacks-keys test k [] h = tt
  Lacks-keys test k (e ∷ l) h =
      let s : (e.0 == k) ≡ false = ground (arith, h.0) in
      elim (Bool-cases (test e.1)) [
        | inl p ↦ rw (p) (s, Lacks-keys test k l h.1)
        | inr p ↦ rw (p) (Lacks-keys test k l h.1)
      ]

  pub adjust-Lacks : (k : ℕ) (f : V → V) (l : List (ℕ × V)) → Lacks k l → adjust k f l ≡ l
  adjust-Lacks k f [] h = refl
  adjust-Lacks k f (e ∷ l) h = rw (h.0) (ap (◌∷◌ e) (adjust-Lacks k f l h.1))

  pub adjust-head :
      (e : ℕ × V) (f : V → V) (l : List (ℕ × V))
      → Lacks e.0 l
      → adjust e.0 f (e ∷ l) ≡ (e.0, f e.1) ∷ l
  adjust-head e f l h =
      let self : (e.0 == e.0) ≡ true = ground arith in
      rw (self) (ap (◌∷◌ (e.0, f e.1)) (adjust-Lacks e.0 f l h))
