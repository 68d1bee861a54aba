-- ===== src/Cache/Goodbye.antt =====
-- mdns-proto/src/cache.rs: the branch of `ttl == Duration::ZERO` in `Cache::try_insert`.
use hick.Prelude.{
  ℕ, ◌≤◌, ◌≡◌, refl, sym, ap, ◌∙◌, arith, Bool, true, false, List, [], ◌∷◌, none, some, All, ltb,
  ltb→lt, ltb→ge, ◌==◌, if◌then◌else◌, inl, inr, Bool-cases, Option-cases, min,
}
use mathlib.Core.Path.{subst}
use hick.Wire.ResourceType
use hick.Wire.ResourceType.{ResourceType}
use hick.Wire.ResourceClass.{ResourceClass}
use hick.Time.{Clock, one_second}
use hick.Cache.{
  CacheEntry, Cache, same_type, same_class, same_bytes, same_key, same_record, clamp, goodbye,
  try_insert,
}
use hick.Cache.Lists.{Lacks, Distinct, adjust, first_key, values, adjust-head}
use hick.Cache.Backing.{Pool, IsPool}
use hick.Cache.Identity.{is, Unique}

-- The equalities of the source decide equality.
same_bytes_eq : (xs ys : List ℕ) → same_bytes xs ys ≡ true → xs ≡ ys
same_bytes_eq [] [] h = refl
same_bytes_eq [] (y ∷ ys) h = cc
same_bytes_eq (x ∷ xs) [] h = cc
same_bytes_eq (x ∷ xs) (y ∷ ys) h =
    let head : x ≡ y = ground arith in
    let tail : same_bytes xs ys ≡ true = ground arith in λ i. head i ∷ same_bytes_eq xs ys tail i

same_class_eq : (c d : ResourceClass) → same_class c d ≡ true → c ≡ d
same_class_eq ResourceClass.in_class ResourceClass.in_class h = refl
same_class_eq ResourceClass.any ResourceClass.any h = refl
same_class_eq (ResourceClass.unknown v) (ResourceClass.unknown w) h =
    ap ResourceClass.unknown (ground arith)
same_class_eq _ _ h = cc

same_type_eq : (t u : ResourceType) → same_type t u ≡ true → t ≡ u
unfolding ResourceType.to_u16
same_type_eq ResourceType.a ResourceType.a h = refl
same_type_eq ResourceType.aaaa ResourceType.aaaa h = refl
same_type_eq ResourceType.ptr ResourceType.ptr h = refl
same_type_eq ResourceType.srv ResourceType.srv h = refl
same_type_eq ResourceType.txt ResourceType.txt h = refl
same_type_eq ResourceType.nsec ResourceType.nsec h = refl
same_type_eq ResourceType.hinfo ResourceType.hinfo h = refl
same_type_eq ResourceType.cname ResourceType.cname h = refl
same_type_eq ResourceType.any ResourceType.any h = refl
same_type_eq (ResourceType.unknown v) (ResourceType.unknown w) h =
    ap ResourceType.unknown (ground arith)
same_type_eq _ _ h = cc

module _ (name : List ℕ) (rtype : ResourceType) (rc : ResourceClass) (rdata : List ℕ) where
  abbrev the : CacheEntry → Bool
  the = same_record name rtype rc rdata

  -- An entry that is the record has its identity.
  is-the : (e g : CacheEntry) → the e ≡ true → is e g ≡ the g
  unfolding same_record same_key
  is-the e g h =
      let t : same_type e.rtype rtype ≡ true = ground arith in
      let c : same_class e.rclass rc ≡ true = ground arith in
      let n : same_bytes e.name name ≡ true = ground arith in
      let d : same_bytes e.rdata rdata ≡ true = ground arith in
      λ i.
        same_record (same_bytes_eq e.name name n i) (same_type_eq e.rtype rtype t i)
          (same_class_eq e.rclass rc c i) (same_bytes_eq e.rdata rdata d i) g

  module _ (f : CacheEntry → CacheEntry) where
    abbrev at_the : CacheEntry → CacheEntry
    at_the e = if the e then f e else e

    values-none : (l : List (ℕ × CacheEntry)) → All (λ e. the e.1 ≡ false) l → values at_the l ≡ l
    values-none [] h = refl
    values-none (e ∷ l) h = rw (h.0) (ap (◌∷◌ e) (values-none l h.1))

    first_key-none : (l : List (ℕ × CacheEntry)) → first_key the l ≡ none → values at_the l ≡ l
    first_key-none [] h = refl
    first_key-none (e ∷ l) h = elim (Bool-cases (the e.1)) [
      | inl p ↦ let s : first_key the (e ∷ l) ≡ some e.0 = rw (p) refl in cc
      | inr p ↦
          let s : first_key the (e ∷ l) ≡ first_key the l = rw (p) refl in
          rw (p) (ap (◌∷◌ e) (first_key-none l (sym s ∙ h)))
    ]

    first_key-Lacks :
        (k0 k : ℕ) (l : List (ℕ × CacheEntry))
        → Lacks k0 l
        → first_key the l ≡ some k
        → (k == k0) ≡ false
    first_key-Lacks k0 k [] h e = cc
    first_key-Lacks k0 k (e ∷ l) h eq = elim (Bool-cases (the e.1)) [
      | inl p ↦
          let s : first_key the (e ∷ l) ≡ some e.0 = rw (p) refl in
          let same : k ≡ e.0 = cc in ground (arith, h.0)
      | inr p ↦
          let s : first_key the (e ∷ l) ≡ first_key the l = rw (p) refl in
          first_key-Lacks k0 k l h.1 (sym s ∙ eq)
    ]

    -- Where the record is there once, an assignment at its first key is one at the record.
    first_key-adjust :
        (k : ℕ) (l : List (ℕ × CacheEntry))
        → Distinct l
        → Unique l
        → first_key the l ≡ some k
        → adjust k f l ≡ values at_the l
    first_key-adjust k [] d u h = cc
    first_key-adjust k (e ∷ l) d u h = elim (Bool-cases (the e.1)) [
      | inl p ↦
          let s : first_key the (e ∷ l) ≡ some e.0 = rw (p) refl in
          let same : e.0 ≡ k = cc in
          let others : All (λ x. the x.1 ≡ false) l =
            subst (λ (test : CacheEntry → Bool). All (λ x. test x.1 ≡ false) l)
              (λ i g. is-the e.1 g p i) u.0 in
          subst (λ k'. adjust k' f (e ∷ l) ≡ values at_the (e ∷ l)) same
            (adjust-head e f l d.0 ∙ (rw (p) (ap (◌∷◌ (e.0, f e.1)) (sym (values-none l others)))))
      | inr p ↦
          let s : first_key the (e ∷ l) ≡ first_key the l = rw (p) refl in
          let h' = sym s ∙ h in
          let other : (k == e.0) ≡ false = first_key-Lacks e.0 k l d.0 h' in
          rw (p, other) (ap (◌∷◌ e) (first_key-adjust k l d.1 u.1 h'))
    ]

  -- RFC 6762, §10.1, for one entry: the record itself expires at `deadline` or sooner.
  abbrev pub leaving : ℕ → CacheEntry → CacheEntry
  leaving deadline = at_the (λ e. record e { expires_at = min e.expires_at deadline })

  leaving-clamp :
      (d : ℕ) (e : CacheEntry) → clamp d e ≡ record e { expires_at = min e.expires_at d }
  leaving-clamp d e =
      let set : ℕ → CacheEntry = λ t. record e { expires_at = t } in
      elim (Bool-cases (ltb d e.expires_at)) [
        | inl t ↦ rw (t) (ap set (omega (arith, ltb→lt d e.expires_at t)))
        | inr t ↦ rw (t) (ap set (omega (arith, ltb→ge d e.expires_at t)))
      ]

  module _ {P : Type 0} (pool : Pool P CacheEntry) (laws : IsPool pool) (clock : Clock) where
    iter-goodbye :
        (entries : P) (now d : ℕ)
        → Unique (pool.iter entries)
        → clock.checked_add_duration now one_second ≡ some d
        → pool.iter (goodbye pool clock entries name rtype rc rdata now)
          ≡ values (leaving d) (pool.iter entries)
    unfolding goodbye
    iter-goodbye entries now d u h =
        let l = pool.iter entries in
        let f : CacheEntry → CacheEntry = λ e. record e { expires_at = min e.expires_at d } in
        elim (Option-cases (first_key the l)) [
          | inl e ↦ rw (goodbye, h, e) (sym (first_key-none f l e))
          | inr (k, e) ↦
              rw (goodbye, h, e)
                (laws.iter-modify entries k (clamp d)
                  ∙ first_key-adjust (clamp d) k l (laws.iter-Distinct entries) u e
                  ∙ ap (λ g. values (at_the g) l) (λ i x. leaving-clamp d x i))
        ]

    -- Where the cache is not disabled, no record is in it twice and the clock can add a second, a
    -- record with a TTL of zero lets the entry of the same name, type, class and rdata expire in
    -- one second or as soon as it would have; it leaves the rest as it was, and inserts nothing.
    pub try_insert-leaving :
        (c : Cache P) (now deadline : ℕ) (cache_flush : Bool)
        → 1 ≤ c.max_entries
        → Unique (pool.iter c.entries)
        → clock.checked_add_duration now one_second ≡ some deadline
        → let (c', inserted) = try_insert pool clock c name rtype rc rdata 0 now cache_flush in
          (pool.iter c'.entries ≡ values (leaving deadline) (pool.iter c.entries))
          × (inserted ≡ some none)
    unfolding try_insert goodbye
    try_insert-leaving c now d cache_flush pos u h =
        let enabled : (c.max_entries == 0) ≡ false = ground arith in
        rw (try_insert, enabled) (iter-goodbye c.entries now d u h, refl)
