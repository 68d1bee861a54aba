-- ===== src/Cache/Lists/Pruned.antt =====
-- Removals from keyed pairs, one key after another.
use hick.Prelude.{
  ℕ, suc, ◌≤◌, ◌≡◌, refl, sym, ap, ◌∙◌, arith, Bool, true, false, not, List, [], ◌∷◌, none, some,
  length, All, ◌==◌, inl, inr, Bool-cases,
}
use mathlib.Core.Path.{subst}
use hick.Cache.Lists.{Lacks, Distinct, lookup, without, keep, keys_where, without-Lacks, Lacks-keys}

module _ {V : Type 0} where
  pub without-head : (e : ℕ × V) (l : List (ℕ × V)) → Lacks e.0 l → without e.0 (e ∷ l) ≡ l
  without-head e l h =
      let self : (e.0 == e.0) ≡ true = ground arith in rw (self) (without-Lacks e.0 l h)

  -- A removal takes the pair away that it answers, and no other.
  pub length-without-found :
      (k : ℕ) (v : V) (l : List (ℕ × V))
      → Distinct l
      → lookup k l ≡ some v
      → suc (length (without k l)) ≡ length l
  length-without-found k v [] d h = cc
  length-without-found k v (e ∷ l) d h = elim (Bool-cases (k == e.0)) [
    | inl p ↦
        let q : k ≡ e.0 = ground arith in
        let lacks : Lacks k l = subst (λ i. Lacks i l) (sym q) d.0 in
        rw (p) (ap (λ l'. suc (length l')) (without-Lacks k l lacks))
    | inr p ↦
        let s : lookup k (e ∷ l) ≡ lookup k l = rw (p) refl in
        rw (p) (ap suc (length-without-found k v l d.1 (sym s ∙ h)))
  ]

  pub length-without-missing :
      (k : ℕ) (l : List (ℕ × V)) → lookup k l ≡ none → length (without k l) ≡ length l
  length-without-missing k [] h = refl
  length-without-missing k (e ∷ l) h = elim (Bool-cases (k == e.0)) [
    | inl p ↦ let s : lookup k (e ∷ l) ≡ some e.1 = rw (p) refl in cc
    | inr p ↦
        let s : lookup k (e ∷ l) ≡ lookup k l = rw (p) refl in
        rw (p) (ap suc (length-without-missing k l (sym s ∙ h)))
  ]

  -- What the removals of a sweep leave.
  unfoldable pub pruned : List ℕ → List (ℕ × V) → List (ℕ × V)
  pruned [] l = l
  pruned (k ∷ ks) l = pruned ks (without k l)

  -- A key that no removal asks for stays.
  pruned-Lacks :
      (ks : List ℕ) (e : ℕ × V) (l : List (ℕ × V))
      → All (λ k. (k == e.0) ≡ false) ks
      → pruned ks (e ∷ l) ≡ e ∷ pruned ks l
  unfolding pruned
  pruned-Lacks [] e l h = refl
  pruned-Lacks (k ∷ ks) e l h = rw (h.0) (pruned-Lacks ks e (without k l) h.1)

  pub pruned-keys_where :
      (test : V → Bool) (l : List (ℕ × V))
      → Distinct l
      → pruned (keys_where test l) l ≡ keep (λ e. not (test e)) l
  unfolding pruned
  pruned-keys_where test [] h = refl
  pruned-keys_where test (e ∷ l) h =
      let gone : without e.0 (e ∷ l) ≡ l = without-head e l h.0 in
      elim (Bool-cases (test e.1)) [
        | inl p ↦ rw (p) (ap (pruned (keys_where test l)) gone ∙ pruned-keys_where test l h.1)
        | inr p ↦ rw (p) (
            pruned-Lacks (keys_where test l) e l (Lacks-keys test e.0 l h.0)
            ∙ ap (◌∷◌ e) (pruned-keys_where test l h.1))
      ]

  pub length-keys_where :
      (test : V → Bool) (l : List (ℕ × V)) → length (keys_where test l) ≤ length l
  length-keys_where test [] = omega arith
  length-keys_where test (e ∷ l) = ground (arith, length-keys_where test l)
