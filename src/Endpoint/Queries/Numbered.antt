-- ===== src/Endpoint/Queries/Numbered.antt =====
-- Queries whose handles are apart and below the next one.
use mathlib.Core.Path.{subst}
use hick.Prelude.{
  ℕ, ◌<◌, ◌≡◌, sym, arith, Bool, false, List, [], ◌∷◌, ◌++◌, All, Bool-cases, inl, inr, ◌==◌,
}
use hick.Cache.Lists.{without, keep, adjust}
use hick.Query.{Query}
use hick.Endpoint.Queries.Laws.{KeepsHandle}
use hick.Endpoint.Queries.Start.{Below}
use hick.Endpoint.Queries.Removal.{Unique}

module _ {V : Type 0} where
  pub All-without : (P : ℕ × V → Type 0) (k : ℕ) (l : List (ℕ × V)) → All P l → All P (without k l)
  All-without P k [] a = tt
  All-without P k (e ∷ l) a = elim (Bool-cases (k == e.0)) [
    | inl p ↦ rw (p) (All-without P k l a.1)
    | inr p ↦ rw (p) (a.0, All-without P k l a.1)
  ]

  pub All-keep :
      (P : ℕ × V → Type 0) (test : V → Bool) (l : List (ℕ × V)) → All P l → All P (keep test l)
  All-keep P test [] a = tt
  All-keep P test (e ∷ l) a = elim (Bool-cases (test e.1)) [
    | inl p ↦ rw (p) (a.0, All-keep P test l a.1)
    | inr p ↦ rw (p) (All-keep P test l a.1)
  ]

module _ {AN EV : Type 0} where
  -- The handles are below the next one and apart.
  abbrev pub IsNumbered : ℕ → List (ℕ × Query AN EV) → Type 0
  IsNumbered n l = Below n l × Unique l

  pub All-adjust :
      (P : Query AN EV → Type 0) (k : ℕ) (f : Query AN EV → Query AN EV)
      (l : List (ℕ × Query AN EV))
      → ((q : Query AN EV) → P q → P (f q))
      → All (λ e. P e.1) l
      → All (λ e. P e.1) (adjust k f l)
  All-adjust P k f [] keeps a = tt
  All-adjust P k f (e ∷ l) keeps a = elim (Bool-cases (k == e.0)) [
    | inl p ↦ rw (p) (keeps e.1 a.0, All-adjust P k f l keeps a.1)
    | inr p ↦ rw (p) (a.0, All-adjust P k f l keeps a.1)
  ]

  -- What holds of a handle holds behind a function that keeps it.
  pub by_handle_keeps :
      (P : ℕ → Type 0) (f : Query AN EV → Query AN EV)
      → KeepsHandle f
      → (q : Query AN EV) → P q.handle
      → P (f q).handle
  by_handle_keeps P f keeps q p = subst P (sym (keeps q)) p

  pub Unique-adjust :
      (k : ℕ) (f : Query AN EV → Query AN EV) (l : List (ℕ × Query AN EV))
      → KeepsHandle f
      → Unique l
      → Unique (adjust k f l)
  Unique-adjust k f [] keeps u = tt
  Unique-adjust k f (e ∷ l) keeps u =
      let apart =
        All-adjust (λ q. (q.handle == e.1.handle) ≡ false) k f l
          (by_handle_keeps (λ h. (h == e.1.handle) ≡ false) f keeps) u.0 in
      let rest = Unique-adjust k f l keeps u.1 in
      elim (Bool-cases (k == e.0)) [
        | inl p ↦ rw (p) (
          subst (λ h. All (λ (e' : ℕ × Query AN EV). (e'.1.handle == h) ≡ false) (adjust k f l))
              (sym (keeps e.1)) apart,
          rest,
        )
        | inr p ↦ rw (p) (apart, rest)
      ]

  pub Unique-without : (k : ℕ) (l : List (ℕ × Query AN EV)) → Unique l → Unique (without k l)
  Unique-without k [] u = tt
  Unique-without k (e ∷ l) u = elim (Bool-cases (k == e.0)) [
    | inl p ↦ rw (p) (Unique-without k l u.1)
    | inr p ↦ rw (p) (All-without _ k l u.0, Unique-without k l u.1)
  ]

  pub Unique-keep :
      (test : Query AN EV → Bool) (l : List (ℕ × Query AN EV)) → Unique l → Unique (keep test l)
  Unique-keep test [] u = tt
  Unique-keep test (e ∷ l) u = elim (Bool-cases (test e.1)) [
    | inl p ↦ rw (p) (All-keep _ test l u.0, Unique-keep test l u.1)
    | inr p ↦ rw (p) (Unique-keep test l u.1)
  ]

  above :
      (q : Query AN EV) (l : List (ℕ × Query AN EV))
      → Below q.handle l
      → All (λ e. (e.1.handle == q.handle) ≡ false) l
  above q [] b = tt
  above q (e ∷ l) b = (ground (arith, b.0), above q l b.1)

  apart_placed :
      (e : ℕ × Query AN EV) (k : ℕ) (q : Query AN EV) (l l' : List (ℕ × Query AN EV))
      → e.1.handle < q.handle
      → All (λ e'. (e'.1.handle == e.1.handle) ≡ false) (l ++ l')
      → All (λ e'. (e'.1.handle == e.1.handle) ≡ false) (l ++ (k, q) ∷ l')
  apart_placed e k q [] l' lt a = (ground arith, a)
  apart_placed e k q (e' ∷ l) l' lt a = (a.0, apart_placed e k q l l' lt a.1)

  pub Unique-placed :
      (k : ℕ) (q : Query AN EV) (l l' : List (ℕ × Query AN EV))
      → Below q.handle (l ++ l')
      → Unique (l ++ l')
      → Unique (l ++ (k, q) ∷ l')
  Unique-placed k q [] l' b u = (above q l' b, u)
  Unique-placed k q (e ∷ l) l' b u =
      (apart_placed e k q l l' b.0 u.0, Unique-placed k q l l' b.1 u.1)
