-- ===== src/Cache/Tests.antt =====
-- The theorems of the cache on a pool of two slots.
use hick.Prelude.{
  ℕ, ◌+◌, ◌-◌, ◌≤◌, ◌≡◌, refl, arith, true, false, not, [], ◌∷◌, none, some, length, leb,
  if◌then◌else◌, ap,
}
use hick.Wire.ResourceType
use hick.Wire.ResourceClass
use hick.Time.{Clock}
use hick.Cache.{
  CacheEntry, Cache, same_key, same_record, is_stale, recent, expiry, soonest, evict, make_room,
  bounded_insert, expire_at, goodbye, flush, refresh_or_insert, try_insert, remove_all,
  sweep_expired, best_of, next_expiration,
}
use hick.Cache.Lists.{keep, values}
use hick.Cache.Backing.Slots.{Slots, pairs, two_slots, two_slots-IsPool}
use hick.Cache.Bounds.{try_insert_bound}
use hick.Cache.Sweep.{sweep_expired-keep}
use hick.Cache.Deadline.{IsSoonest, next_expiration-IsSoonest}
use hick.Cache.Others.{Spared, flushed_if, try_insert-Spared}
use hick.Cache.Goodbye.{leaving, try_insert-leaving}
use hick.Cache.Lookup.{IsThere, try_insert-IsThere}
use hick.Cache.Identity.{Unique, try_insert-Unique}

abbrev clock : Clock
clock = record {
  checked_add_duration = λ t d. some (t + d);
  checked_duration_since = λ t earlier. if leb earlier t then some (t - earlier) else none;
}

-- Two addresses of the host `h`, the first of them older than a second at 5 s.
abbrev first : CacheEntry
first = record {
  name = b'h' ∷ [];
  rtype = ResourceType.a;
  rclass = ResourceClass.in_class;
  rdata = 10 ∷ 0 ∷ 0 ∷ 1 ∷ [];
  expires_at = 120000000000;
  received_at = 0;
}

abbrev second : CacheEntry
second = record first {
  rdata = 10 ∷ 0 ∷ 0 ∷ 2 ∷ [];
  expires_at = 4000000000;
  received_at = 4500000000;
}

abbrev cache : Cache (Slots CacheEntry)
cache = record { entries = (some first, some second); max_entries = 2 }

program : Unit {0}
unfolding same_key same_record is_stale recent expiry soonest evict make_room bounded_insert
    expire_at goodbye flush refresh_or_insert try_insert remove_all sweep_expired best_of
    next_expiration ResourceType.to_u16
program = tt

-- A third address with the cache-flush bit: the first is clamped to 6 s, the second, which is
-- recent, is evicted as the soonest to expire.
third_inserted :
    try_insert two_slots clock cache
      (b'h' ∷ [])
      ResourceType.a
      ResourceClass.in_class
      (10 ∷ 0 ∷ 0 ∷ 3 ∷ [])
      60000000000
      5000000000
      true
    ≡ (
      record {
        entries = (
          some (record first { expires_at = 6000000000 }),
          some (record first {
            rdata = 10 ∷ 0 ∷ 0 ∷ 3 ∷ [];
            expires_at = 65000000000;
            received_at = 5000000000;
          }),
        );
        max_entries = 2;
      },
      some (some 1),
    )
unfolding program
third_inserted = refl

try_insert_bound_example :
    length (
      pairs
        (try_insert two_slots clock cache
          (b'h' ∷ [])
          ResourceType.a
          ResourceClass.in_class
          (10 ∷ 0 ∷ 0 ∷ 3 ∷ [])
          60000000000
          5000000000
          true).0.entries)
    ≤ 2
try_insert_bound_example =
    try_insert_bound two_slots two_slots-IsPool clock cache (b'h' ∷ []) ResourceType.a
      ResourceClass.in_class (10 ∷ 0 ∷ 0 ∷ 3 ∷ []) 60000000000 5000000000 true (omega arith)

cache-Unique : Unique (pairs cache.entries)
unfolding program
cache-Unique = ((refl, tt), (tt, tt))

try_insert-Unique_example : Unique (
    pairs
      (try_insert two_slots clock cache
        (b'h' ∷ [])
        ResourceType.a
        ResourceClass.in_class
        (10 ∷ 0 ∷ 0 ∷ 3 ∷ [])
        60000000000
        5000000000
        true).0.entries)
try_insert-Unique_example =
    try_insert-Unique two_slots two_slots-IsPool clock (b'h' ∷ []) ResourceType.a
      ResourceClass.in_class (10 ∷ 0 ∷ 0 ∷ 3 ∷ []) 5000000000 cache 60000000000 true cache-Unique

sweep_expired-keep_example :
    let (c', removed) = sweep_expired two_slots cache 5000000000 in
    (pairs c'.entries ≡ keep (λ e. not (leb e.expires_at 5000000000)) (pairs cache.entries))
    × (removed + length (pairs c'.entries) ≡ 2)
    × (c'.max_entries ≡ 2)
sweep_expired-keep_example =
    sweep_expired-keep two_slots two_slots-IsPool cache 5000000000 (omega arith)

next_expiration-IsSoonest_example :
    IsSoonest (pairs cache.entries) (next_expiration two_slots cache)
next_expiration-IsSoonest_example = next_expiration-IsSoonest two_slots cache

-- What becomes of the first address when the third arrives.
try_insert-Spared_example :
    Spared two_slots 2 0
      (values
        (flushed_if clock
          (b'h' ∷ [])
          ResourceType.a
          ResourceClass.in_class
          (10 ∷ 0 ∷ 0 ∷ 3 ∷ [])
          5000000000
          true
          6000000000)
        (pairs cache.entries))
      (try_insert two_slots clock cache
        (b'h' ∷ [])
        ResourceType.a
        ResourceClass.in_class
        (10 ∷ 0 ∷ 0 ∷ 3 ∷ [])
        60000000000
        5000000000
        true).0.entries
try_insert-Spared_example =
    try_insert-Spared two_slots two_slots-IsPool clock (b'h' ∷ []) ResourceType.a
      ResourceClass.in_class (10 ∷ 0 ∷ 0 ∷ 3 ∷ []) 5000000000 cache 60000000000 6000000000 0 true
      refl refl refl
      (λ h.
        let e = ap (λ r. r.1) third_inserted in
        let zero_is_one : ◌≡◌ {A = ℕ} 1 0 = cc in absurd (omega (arith, zero_is_one)))

try_insert-leaving_example :
    let (c', inserted) =
      try_insert two_slots clock cache
        (b'h' ∷ [])
        ResourceType.a
        ResourceClass.in_class
        (10 ∷ 0 ∷ 0 ∷ 1 ∷ [])
        0
        5000000000
        false in
    (pairs c'.entries
      ≡ values
          (leaving
            (b'h' ∷ [])
            ResourceType.a
            ResourceClass.in_class
            (10 ∷ 0 ∷ 0 ∷ 1 ∷ [])
            6000000000)
          (pairs cache.entries))
    × (inserted ≡ some none)
try_insert-leaving_example =
    try_insert-leaving (b'h' ∷ []) ResourceType.a ResourceClass.in_class (10 ∷ 0 ∷ 0 ∷ 1 ∷ [])
      two_slots two_slots-IsPool clock cache 5000000000 6000000000 false (omega arith) cache-Unique
      refl

try_insert-IsThere_example :
    IsThere two_slots two_slots-IsPool
      (b'h' ∷ [])
      ResourceType.a
      ResourceClass.in_class
      (10 ∷ 0 ∷ 0 ∷ 3 ∷ [])
      5000000000
      1
      (expiry clock 5000000000 60000000000)
      (try_insert two_slots clock cache
        (b'h' ∷ [])
        ResourceType.a
        ResourceClass.in_class
        (10 ∷ 0 ∷ 0 ∷ 3 ∷ [])
        60000000000
        5000000000
        true).0.entries
try_insert-IsThere_example =
    try_insert-IsThere two_slots two_slots-IsPool (b'h' ∷ []) ResourceType.a ResourceClass.in_class
      (10 ∷ 0 ∷ 0 ∷ 3 ∷ []) 5000000000 clock cache 60000000000 1 true (ap (λ r. r.1) third_inserted)
