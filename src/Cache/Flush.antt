-- ===== src/Cache/Flush.antt =====
-- mdns-proto/src/cache.rs: the branch of `cache_flush` in `Cache::try_insert`.
use hick.Prelude.{
  ℕ, ◌≡◌, refl, ap, ◌∙◌, arith, Bool, false, not, ◌&&◌, List, [], ◌∷◌, some, All, ltb, ltb→lt,
  ltb→ge, ◌==◌, if◌then◌else◌, inl, inr, Bool-cases, min,
}
use hick.Wire.ResourceType.{ResourceType}
use hick.Wire.ResourceClass.{ResourceClass}
use hick.Time.{Clock, one_second}
use hick.Cache.{CacheEntry, recent, same_key, same_bytes, is_stale, expire_at, flush}
use hick.Cache.Lists.{Distinct, adjust, keys_where, values, Lacks-keys, adjust-head}
use hick.Cache.Backing.{Pool, IsPool}

module _ (test : CacheEntry → Bool) (f : CacheEntry → CacheEntry) where
  -- Assignments at keys, one after the other.
  adjusted : List ℕ → List (ℕ × CacheEntry) → List (ℕ × CacheEntry)
  adjusted [] l = l
  adjusted (k ∷ ks) l = adjusted ks (adjust k f l)

  adjusted-Lacks :
      (ks : List ℕ) (e : ℕ × CacheEntry) (l : List (ℕ × CacheEntry))
      → All (λ k. (k == e.0) ≡ false) ks
      → adjusted ks (e ∷ l) ≡ e ∷ adjusted ks l
  unfolding adjusted
  adjusted-Lacks [] e l h = refl
  adjusted-Lacks (k ∷ ks) e l h = rw (h.0) (adjusted-Lacks ks e (adjust k f l) h.1)

  abbrev where_test : CacheEntry → CacheEntry
  where_test e = if test e then f e else e

  -- Assigning at the keys that pass a test is assigning to the values that pass it.
  adjusted-keys_where :
      (l : List (ℕ × CacheEntry))
      → Distinct l
      → adjusted (keys_where test l) l ≡ values where_test l
  unfolding adjusted
  adjusted-keys_where [] h = refl
  adjusted-keys_where (e ∷ l) h =
      let ks = keys_where test l in
      let lacks = Lacks-keys test e.0 l h.0 in
      let rest = adjusted-keys_where l h.1 in
      elim (Bool-cases (test e.1)) [
        | inl p ↦ rw (p) (
            ap (adjusted ks) (adjust-head e f l h.0)
            ∙ adjusted-Lacks ks (e.0, f e.1) l lacks
            ∙ ap (◌∷◌ (e.0, f e.1)) rest)
        | inr p ↦ rw (p) (adjusted-Lacks ks e l lacks ∙ ap (◌∷◌ e) rest)
      ]

module _ (clock : Clock) (name : List ℕ) (rtype : ResourceType) (rc : ResourceClass)
    (rdata : List ℕ) (now : ℕ) where
  -- RFC 6762, §10.2, for one entry: one with the same key and other rdata, received a second ago
  -- or earlier, expires at `deadline` or sooner.
  abbrev pub flushed : ℕ → CacheEntry → CacheEntry
  flushed deadline e =
      if same_key name rtype rc e && not (recent clock now e) && not (same_bytes e.rdata rdata)
      then record e { expires_at = min e.expires_at deadline }
      else e

  abbrev stale_test : ℕ → CacheEntry → CacheEntry
  stale_test d =
      where_test (is_stale clock now d name rtype rc rdata)
        (λ entry. record entry { expires_at = d })

  -- The test of the source leaves the entries out that expire sooner anyway.
  flushed-is_stale : (d : ℕ) (e : CacheEntry) → stale_test d e ≡ flushed d e
  unfolding is_stale
  flushed-is_stale d e =
      let set : ℕ → CacheEntry = λ t. record e { expires_at = t } in
      elim (Bool-cases (same_key name rtype rc e)) [
        | inr k ↦ rw (k) refl
        | inl k ↦ elim (Bool-cases (recent clock now e)) [
          | inl r ↦ rw (k, r) refl
          | inr r ↦ elim (Bool-cases (same_bytes e.rdata rdata)) [
            | inl b ↦ rw (k, r, b) refl
            | inr b ↦ elim (Bool-cases (ltb d e.expires_at)) [
              | inl t ↦ rw (k, r, b, t) (ap set (omega (arith, ltb→lt d e.expires_at t)))
              | inr t ↦ rw (k, r, b, t) (ap set (omega (arith, ltb→ge d e.expires_at t)))
            ]
          ]
        ]
      ]

module _ {P : Type 0} (pool : Pool P CacheEntry) (laws : IsPool pool) where
  iter-expire_at :
      (test : CacheEntry → Bool) (d : ℕ) (ks : List ℕ) (entries : P)
      → pool.iter (expire_at pool d ks entries)
        ≡ adjusted test (λ entry. record entry { expires_at = d }) ks (pool.iter entries)
  unfolding expire_at adjusted
  iter-expire_at test d [] entries = refl
  iter-expire_at test d (k ∷ ks) entries =
      let f : CacheEntry → CacheEntry = λ entry. record entry { expires_at = d } in
      iter-expire_at test d ks (pool.modify entries k f)
      ∙ ap (adjusted test f ks) (laws.iter-modify entries k f)

  module _ (clock : Clock) (name : List ℕ) (rtype : ResourceType) (rc : ResourceClass)
      (rdata : List ℕ) (now : ℕ) where
    -- Where the clock can add a second, a flush lets every sibling that is not recent (the same
    -- name, type and class, other rdata, received a second ago or earlier) expire in one second or
    -- as soon as it would have; it leaves the other entries and the order as they were.
    pub flush-flushed :
        (entries : P) (deadline : ℕ)
        → clock.checked_add_duration now one_second ≡ some deadline
        → pool.iter (flush pool clock entries name rtype rc rdata now)
          ≡ values (flushed clock name rtype rc rdata now deadline) (pool.iter entries)
    unfolding flush
    flush-flushed entries d h =
        let f : CacheEntry → CacheEntry = λ entry. record entry { expires_at = d } in
        let test = is_stale clock now d name rtype rc rdata in
        let l = pool.iter entries in
        rw (flush, h)
          (iter-expire_at test d (keys_where test l) entries
            ∙ adjusted-keys_where test f l (laws.iter-Distinct entries)
            ∙ values-ext l)
      where
        values-ext :
            (l : List (ℕ × CacheEntry))
            → values (stale_test clock name rtype rc rdata now d) l
              ≡ values (flushed clock name rtype rc rdata now d) l
        values-ext [] = refl
        values-ext (e ∷ l) =
            λ i. (e.0, flushed-is_stale clock name rtype rc rdata now d e.1 i) ∷ values-ext l i
