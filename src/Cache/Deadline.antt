-- ===== src/Cache/Deadline.antt =====
-- `Cache::next_expiration` of mdns-proto/src/cache.rs.
use hick.Prelude.{
  ℕ, ◌≤◌, ◌≡◌, refl, arith, List, [], ◌∷◌, Option, none, some, All, ltb, Bool-cases, ltb→lt, ltb→ge,
  sym, ◌⊎◌, inl, inr,
}
use hick.Cache.{CacheEntry, Cache, best_of, next_expiration}
use hick.Cache.Backing.{Pool}

-- Some entry expires at `t`.
abbrev Expires : ℕ → List (ℕ × CacheEntry) → Type 0
Expires t [] = ⊥
Expires t (e ∷ l) = (e.1.expires_at ≡ t) ⊎ Expires t l

-- `best` is the soonest expiry: none is sooner, and one is as soon, unless there is none at all.
abbrev pub IsSoonest : List (ℕ × CacheEntry) → Option ℕ → Type 0
IsSoonest l none = l ≡ []
IsSoonest l (some t) = All (λ e. t ≤ e.1.expires_at) l × Expires t l

module _ {P : Type 0} (pool : Pool P CacheEntry) where
  best_of-some :
      (l : List (ℕ × CacheEntry)) (t : ℕ)
      → (t' : ℕ) × (best_of pool l (some t) ≡ some t')
        × (t' ≤ t)
        × All (λ e. t' ≤ e.1.expires_at) l
        × ((t' ≡ t) ⊎ Expires t' l)
  unfolding best_of
  best_of-some [] t = (t, refl, omega arith, tt, inl refl)
  best_of-some ((k, e) ∷ l) t = elim (Bool-cases (ltb t e.expires_at)) [
    | inl p ↦
        let (t', eq, le, all, or) = best_of-some l t in
        rw (p) (
          t',
          eq,
          le,
          (omega (arith, ltb→lt t e.expires_at p), all),
          elim or [ inl same ↦ inl same | inr there ↦ inr (inr there) ],
        )
    | inr p ↦
        let (t', eq, le, all, or) = best_of-some l e.expires_at in
        rw (p) (
          t',
          eq,
          omega (arith, ltb→ge t e.expires_at p),
          (le, all),
          elim or [ inl same ↦ inr (inl (sym same)) | inr there ↦ inr (inr there) ],
        )
  ]

  -- The deadline that the cache reports is the soonest expiry of its entries: no entry expires
  -- sooner, one expires then, and there is no deadline only where there is no entry.
  pub next_expiration-IsSoonest :
      (c : Cache P) → IsSoonest (pool.iter c.entries) (next_expiration pool c)
  unfolding next_expiration best_of
  next_expiration-IsSoonest c = first (pool.iter c.entries)
    where
      first : (l : List (ℕ × CacheEntry)) → IsSoonest l (best_of pool l none)
      first [] = refl
      first ((k, e) ∷ l) =
          let (t', eq, le, all, or) = best_of-some l e.expires_at in
          rw (eq) ((le, all), elim or [ inl same ↦ inl (sym same) | inr there ↦ inr there ])
