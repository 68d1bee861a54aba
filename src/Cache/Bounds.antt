-- ===== src/Cache/Bounds.antt =====
-- mdns-proto/src/cache.rs: `max_entries`, the cap of the cache.
use hick.Prelude.{
  ℕ, ◌+◌, ◌-◌, ◌≤◌, ◌<◌, ◌≡◌, refl, ap, ◌∙◌, arith, Bool, true, List, [], ◌∷◌, none, some, length,
  length-append, leb, ◌==◌, ◌⊎◌, inl, inr, Option-cases, Bool-cases,
}
use hick.Wire.ResourceType.{ResourceType}
use hick.Wire.ResourceClass.{ResourceClass}
use hick.Time.{Clock, one_second}
use hick.Cache.{
  CacheEntry, Cache, soonest, evict, make_room, bounded_insert, expire_at, goodbye, flush,
  refresh_or_insert, try_insert, same_record, is_stale, clamp, expiry,
}
use hick.Cache.Lists.{without, first_key, keys_where, length-without, length-adjust}
use hick.Cache.Backing.{Pool, IsPool}

==_refl : (k : ℕ) → (k == k) ≡ true
==_refl k = ground arith

-- The key that the search for a victim settles on.
soonest-key :
    (l : List (ℕ × CacheEntry)) (k t : ℕ)
    → (k' : ℕ) × (t' : ℕ) × (soonest l (some (k, t)) ≡ some (k', t'))
      × ((k' ≡ k) ⊎ (length (without k' l) < length l))
unfolding soonest
soonest-key [] k t = (k, t, refl, inl refl)
soonest-key ((key, e) ∷ l) k t =
    let (k1, t1, e1, w1) = soonest-key l k t in
    let (k2, t2, e2, w2) = soonest-key l key e.expires_at in
    let n1 = length-without k1 l in
    let n2 = length-without k2 l in
    elim (Bool-cases (leb t e.expires_at)) [
      | inl p ↦ (k1, t1, rw (p, e1), ground (arith, n1))
      | inr p ↦ (k2, t2, rw (p, e2), ground (arith, n2))
    ]

-- Without its victim a list is shorter, and a list without a victim is empty.
soonest-without :
    (l : List (ℕ × CacheEntry)) (k t : ℕ)
    → soonest l none ≡ some (k, t)
    → length (without k l) < length l
unfolding soonest
soonest-without [] k t h = cc
soonest-without ((key, e) ∷ l) k t h =
    let (k', t', e', w) = soonest-key l key e.expires_at in
    let n = length-without key l in ground (arith, n, length-without k l, ==_refl k)

soonest-none : (l : List (ℕ × CacheEntry)) → soonest l none ≡ none → length l ≡ 0
unfolding soonest
soonest-none [] h = refl
soonest-none ((key, e) ∷ l) h = let (k', t', e', w) = soonest-key l key e.expires_at in cc

module _ {P : Type 0} (pool : Pool P CacheEntry) (laws : IsPool pool) where
  abbrev size : P → ℕ
  size entries = length (pool.iter entries)

  -- An eviction removes an entry, where there is one.
  size-evict : (entries : P) → size (evict pool entries) ≤ size entries - 1
  unfolding evict
  size-evict entries = elim (Option-cases (soonest (pool.iter entries) none)) [
    | inl e ↦ rw (evict, e) (omega (arith, soonest-none (pool.iter entries) e))
    | inr ((k, t), e) ↦
        rw (evict, e)
          (omega (
            arith,
            ap length (laws.try_remove-iter entries k),
            soonest-without (pool.iter entries) k t e,
          ))
  ]

  size-insert : (entries : P) (v : CacheEntry) → size (pool.insert entries v).0 ≤ size entries + 1
  size-insert entries v = elim (Option-cases (pool.insert entries v).1) [
    | inl e ↦ omega (arith, ap length (laws.insert-err entries v e))
    | inr (k, e) ↦
        let i = laws.insert-ok entries v k e in
        omega (
          arith,
          ap length i.old,
          ap length i.new,
          length-append i.before i.after,
          length-append i.before ((k, v) ∷ i.after),
        )
  ]

  size-make_room :
      (c : Cache P)
      → 1 ≤ c.max_entries
      → size c.entries ≤ c.max_entries
      → size (make_room pool c) + 1 ≤ c.max_entries
  unfolding make_room
  size-make_room c pos le = ground (arith, laws.len-iter c.entries, size-evict c.entries)

  size-bounded_insert :
      (c : Cache P) (entry : CacheEntry)
      → 1 ≤ c.max_entries
      → size c.entries ≤ c.max_entries
      → size (bounded_insert pool c entry).0.entries ≤ c.max_entries
  unfolding bounded_insert
  size-bounded_insert c entry pos le =
      let room = make_room pool c in
      let first = (pool.insert room entry).0 in
      let h = size-make_room c pos le in
      let i = size-insert room entry in
      elim (Option-cases (pool.insert room entry).1) [
        | inl e ↦
            rw (bounded_insert, e)
              (omega (arith, h, i, size-evict first, size-insert (evict pool first) entry))
        | inr (k, e) ↦ rw (bounded_insert, e) (omega (arith, h, i))
      ]

  size-expire_at :
      (deadline : ℕ) (keys : List ℕ) (entries : P)
      → size (expire_at pool deadline keys entries) ≡ size entries
  unfolding expire_at
  size-expire_at deadline [] entries = refl
  size-expire_at deadline (key ∷ keys) entries =
      let f : CacheEntry → CacheEntry = λ entry. record entry { expires_at = deadline } in
      size-expire_at deadline keys (pool.modify entries key f)
      ∙ ap length (laws.iter-modify entries key f)
      ∙ length-adjust key f (pool.iter entries)

  module _ (clock : Clock) (name : List ℕ) (rtype : ResourceType) (rclass : ResourceClass)
      (rdata : List ℕ) (now : ℕ) where
    size-goodbye :
        (entries : P) → size (goodbye pool clock entries name rtype rclass rdata now) ≡ size entries
    unfolding goodbye
    size-goodbye entries = elim (Option-cases (clock.checked_add_duration now one_second)) [
      | inl e ↦ rw (goodbye, e) refl
      | inr (d, e) ↦
          let test = same_record name rtype rclass rdata in
          elim (Option-cases (first_key test (pool.iter entries))) [
            | inl e' ↦ rw (goodbye, e, e') refl
            | inr (k, e') ↦
                rw (goodbye, e, e')
                  (ap length (laws.iter-modify entries k (clamp d))
                    ∙ length-adjust k (clamp d) (pool.iter entries))
          ]
    ]

    size-flush :
        (entries : P) → size (flush pool clock entries name rtype rclass rdata now) ≡ size entries
    unfolding flush
    size-flush entries = elim (Option-cases (clock.checked_add_duration now one_second)) [
      | inl e ↦ rw (flush, e) refl
      | inr (d, e) ↦
          rw (flush, e)
            (size-expire_at d
              (keys_where (is_stale clock now d name rtype rclass rdata) (pool.iter entries))
              entries)
    ]

  size-refresh_or_insert :
      (c : Cache P) (name : List ℕ) (rtype : ResourceType) (rclass : ResourceClass) (rdata : List ℕ)
      (expires_at now : ℕ)
      → 1 ≤ c.max_entries
      → size c.entries ≤ c.max_entries
      → size (refresh_or_insert pool c name rtype rclass rdata expires_at now).0.entries
        ≤ c.max_entries
  unfolding refresh_or_insert
  size-refresh_or_insert c name rtype rclass rdata expires_at now pos le =
      elim (Option-cases (first_key (same_record name rtype rclass rdata) (pool.iter c.entries))) [
        | inl e ↦ rw (refresh_or_insert, e) (size-bounded_insert c _ pos le)
        | inr (k, e) ↦
            let f : CacheEntry → CacheEntry =
              λ entry. record entry { expires_at = expires_at; received_at = now } in
            rw (refresh_or_insert, e)
              (omega (
                arith,
                ap length (laws.iter-modify c.entries k f),
                length-adjust k f (pool.iter c.entries),
              ))
      ]

  -- An observation never takes a cache above its cap that was not above it before.
  pub try_insert_bound :
      (clock : Clock) (c : Cache P) (name : List ℕ) (rtype : ResourceType) (rclass : ResourceClass)
      (rdata : List ℕ) (ttl now : ℕ) (cache_flush : Bool)
      → size c.entries ≤ c.max_entries
      → size (try_insert pool clock c name rtype rclass rdata ttl now cache_flush).0.entries
        ≤ c.max_entries
  unfolding try_insert
  try_insert_bound clock c name rtype rc rdata ttl now cache_flush le =
      let fresh : (entries : P)
          → 1 ≤ c.max_entries
          → size entries ≤ c.max_entries
          → size
              (refresh_or_insert pool (record c { entries = entries }) name rtype rc rdata
                (expiry clock now ttl) now).0.entries
            ≤ c.max_entries =
        λ entries pos h.
          size-refresh_or_insert (record c { entries = entries }) name rtype rc rdata
            (expiry clock now ttl) now pos h in
      elim (Bool-cases (c.max_entries == 0)) [
        | inl z ↦ rw (try_insert, z) le
        | inr z ↦ elim (Bool-cases (ttl == 0)) [
          | inl g ↦
              rw (try_insert, z, g)
                (omega (arith, size-goodbye clock name rtype rc rdata now c.entries))
          | inr g ↦ elim (Bool-cases cache_flush) [
            | inl f ↦
                rw (try_insert, z, g, f)
                  (fresh (flush pool clock c.entries name rtype rc rdata now) (ground arith)
                    (omega (arith, size-flush clock name rtype rc rdata now c.entries)))
            | inr f ↦ rw (try_insert, z, g, f) (fresh c.entries (ground arith) le)
          ]
        ]
      ]
