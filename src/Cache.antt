-- ===== src/Cache.antt =====
-- mdns-proto/src/cache.rs: the records observed on the network, until they expire.
use hick.Prelude.{
  ℕ, ◌+◌, Bool, true, false, not, ◌&&◌, ◌||◌, List, [], ◌∷◌, Option, none, some, ltb, leb, ◌==◌,
  if◌then◌else◌, saturating_add, length,
}
use hick.Wire.ResourceType
use hick.Wire.ResourceType.{ResourceType}
use hick.Wire.ResourceClass
use hick.Wire.ResourceClass.{ResourceClass}
use hick.Cache.Lists.{keys_where, first_key, keep}
use hick.Cache.Backing.{Pool}
use hick.Time.{Clock, one_second}
pub mod Lists
pub mod Bounds
pub mod Sweep
pub mod Deadline
pub mod Flush
pub mod Others
pub mod Identity
pub mod Goodbye
pub mod Lookup
mod Tests
pub mod Backing

-- The derived `==` of the enums, and of bytes.
abbrev pub same_type : ResourceType → ResourceType → Bool
same_type (ResourceType.unknown v) (ResourceType.unknown w) = v == w
same_type (ResourceType.unknown v) t = false
same_type t (ResourceType.unknown w) = false
same_type t t' = ResourceType.to_u16 t == ResourceType.to_u16 t'

abbrev pub same_class : ResourceClass → ResourceClass → Bool
same_class ResourceClass.in_class ResourceClass.in_class = true
same_class ResourceClass.any ResourceClass.any = true
same_class (ResourceClass.unknown v) (ResourceClass.unknown w) = v == w
same_class _ _ = false

abbrev pub same_bytes : List ℕ → List ℕ → Bool
same_bytes [] [] = true
same_bytes (x ∷ xs) (y ∷ ys) = (x == y) && same_bytes xs ys
same_bytes _ _ = false

-- The name is its canonical text, in bytes; instants are nanoseconds of one clock.
pub record CacheEntry : Type 0 where
  pub name : List ℕ
  pub rtype : ResourceType
  pub rclass : ResourceClass
  pub rdata : List ℕ
  pub expires_at : ℕ
  pub received_at : ℕ

pub record Cache (P : Type 0) : Type 0 where
  pub entries : P
  pub max_entries : ℕ

abbrev pub default_max_entries : ℕ
default_max_entries = 1024

-- The key `(name, rtype, rclass)`, and with the rdata the identity of a record.
unfoldable pub same_key : List ℕ → ResourceType → ResourceClass → CacheEntry → Bool
same_key name rtype rclass entry =
    same_type entry.rtype rtype && same_class entry.rclass rclass && same_bytes entry.name name

unfoldable pub same_record : List ℕ → ResourceType → ResourceClass → List ℕ → CacheEntry → Bool
same_record name rtype rclass rdata entry =
    same_key name rtype rclass entry && same_bytes entry.rdata rdata

-- `if entry.expires_at() > deadline { entry.expires_at = deadline; }`
abbrev pub clamp : ℕ → CacheEntry → CacheEntry
clamp deadline entry =
    if ltb deadline entry.expires_at then record entry { expires_at = deadline } else entry

-- The victim of an eviction: the first of the entries that expire soonest.
unfoldable pub soonest : List (ℕ × CacheEntry) → Option (ℕ × ℕ) → Option (ℕ × ℕ)
soonest [] victim = victim
soonest ((key, e) ∷ l) none = soonest l (some (key, e.expires_at))
soonest ((key, e) ∷ l) (some (k, prev_exp)) =
    let kept = soonest l (some (k, prev_exp)) in
    let taken = soonest l (some (key, e.expires_at)) in
    if leb prev_exp e.expires_at then kept else taken

-- Received within the last second, or in the future.
unfoldable pub recent : Clock → ℕ → CacheEntry → Bool
recent clock now entry = elim (clock.checked_duration_since now entry.received_at) [
  | some d ↦ ltb d one_second
  | none ↦ true
]

-- `now.checked_add_duration(ttl).unwrap_or(now)`
unfoldable pub expiry : Clock → ℕ → ℕ → ℕ
expiry clock now ttl = elim (clock.checked_add_duration now ttl) [ some t ↦ t | none ↦ now ]

-- The test of the cache-flush loop: a sibling that is not recent, is not the record itself, and
-- would outlive the deadline.
unfoldable pub is_stale :
    Clock → ℕ → ℕ → List ℕ → ResourceType → ResourceClass → List ℕ → CacheEntry → Bool
is_stale clock now deadline name rtype rclass rdata entry =
    same_key name rtype rclass entry
    && not (recent clock now entry || same_bytes entry.rdata rdata)
    && ltb deadline entry.expires_at

module _ {P : Type 0} (pool : Pool P CacheEntry) where
  unfoldable pub with_max_entries : ℕ → Cache P
  with_max_entries max = record { entries = pool.new; max_entries = max }

  unfoldable pub new : Cache P
  new = record { entries = pool.new; max_entries = default_max_entries }

  unfoldable pub evict : P → P
  evict entries = elim (soonest (pool.iter entries) none) [
    | some (vk, _) ↦ (pool.try_remove entries vk).0
    | none ↦ entries
  ]

  -- The proactive eviction of `bounded_insert`.
  unfoldable pub make_room : Cache P → P
  make_room c = if leb c.max_entries (pool.len c.entries) then evict c.entries else c.entries

  unfoldable pub bounded_insert : Cache P → CacheEntry → Cache P × Option ℕ
  bounded_insert c entry =
      let (entries', inserted) = pool.insert (make_room c) entry in
      let (entries'', retried) = pool.insert (evict entries') entry in
      elim inserted [
        | some k ↦ (record c { entries = entries' }, some k)
        | none ↦ (record c { entries = entries'' }, retried)
      ]

  -- `for key in to_clamp { … entry.expires_at = deadline; … }`
  unfoldable pub expire_at : ℕ → List ℕ → P → P
  expire_at deadline [] entries = entries
  expire_at deadline (key ∷ keys) entries =
      expire_at deadline keys
        (pool.modify entries key (λ entry. record entry { expires_at = deadline }))

  -- The deduplication, and the insertion of a record that is new; `expires_at` is given.
  unfoldable pub refresh_or_insert :
      Cache P → List ℕ → ResourceType → ResourceClass → List ℕ → ℕ → ℕ → Cache P × Option (Option ℕ)
  refresh_or_insert c name rtype rclass rdata expires_at now =
      elim (first_key (same_record name rtype rclass rdata) (pool.iter c.entries)) [
        | some key ↦ (
          record c {
            entries =
                pool.modify c.entries key
                  (λ entry. record entry { expires_at = expires_at; received_at = now });
          },
          some (some key),
        )
        | none ↦
            let (c', inserted) = bounded_insert c (record {
              name = name;
              rtype = rtype;
              rclass = rclass;
              rdata = rdata;
              expires_at = expires_at;
              received_at = now;
            }) in
            (c', elim inserted [ some k ↦ some (some k) | none ↦ none ])
      ]

  module _ (clock : Clock) where
    -- The branch of `ttl == 0`.
    unfoldable pub goodbye : P → List ℕ → ResourceType → ResourceClass → List ℕ → ℕ → P
    goodbye entries name rtype rclass rdata now = elim (clock.checked_add_duration now one_second) [
      | none ↦ entries
      | some deadline ↦ elim (first_key (same_record name rtype rclass rdata) (pool.iter entries)) [
        | none ↦ entries
        | some key ↦ pool.modify entries key (clamp deadline)
      ]
    ]

    -- The branch of `cache_flush`.
    unfoldable pub flush : P → List ℕ → ResourceType → ResourceClass → List ℕ → ℕ → P
    flush entries name rtype rclass rdata now = elim (clock.checked_add_duration now one_second) [
      | none ↦ entries
      | some deadline ↦
          expire_at deadline
            (keys_where (is_stale clock now deadline name rtype rclass rdata) (pool.iter entries))
            entries
    ]

    -- The outer `none` is the error of the pool.
    unfoldable pub try_insert :
        Cache P
        → List ℕ
        → ResourceType
        → ResourceClass
        → List ℕ
        → ℕ
        → ℕ
        → Bool
        → Cache P × Option (Option ℕ)
    try_insert c name rtype rclass rdata ttl now cache_flush =
        if c.max_entries == 0
        then (c, some none)
        else if ttl == 0
        then (record c { entries = goodbye c.entries name rtype rclass rdata now }, some none)
        else let entries =
            if cache_flush then flush c.entries name rtype rclass rdata now else c.entries in
          refresh_or_insert (record c { entries = entries }) name rtype rclass rdata
            (expiry clock now ttl) now

  -- `for key in to_remove`, which counts what it removed.
  unfoldable pub remove_all : List ℕ → P → ℕ → P × ℕ
  remove_all [] entries removed = (entries, removed)
  remove_all (key ∷ keys) entries removed =
      let (entries', found) = pool.try_remove entries key in
      remove_all keys entries' (elim found [ some _ ↦ saturating_add removed 1 | none ↦ removed ])

  unfoldable pub sweep_expired : Cache P → ℕ → Cache P × ℕ
  sweep_expired c now =
      let to_remove = keys_where (λ entry. leb entry.expires_at now) (pool.iter c.entries) in
      let (entries, removed) = remove_all to_remove c.entries 0 in
      (record c { entries = entries }, removed)

  -- The loop of `next_expiration`.
  unfoldable pub best_of : List (ℕ × CacheEntry) → Option ℕ → Option ℕ
  best_of [] best = best
  best_of ((_, entry) ∷ l) none = best_of l (some entry.expires_at)
  best_of ((_, entry) ∷ l) (some prev) =
      best_of l (some (if ltb prev entry.expires_at then prev else entry.expires_at))

  unfoldable pub next_expiration : Cache P → Option ℕ
  next_expiration c = best_of (pool.iter c.entries) none

  unfoldable pub contains : Cache P → List ℕ → ResourceType → ResourceClass → Bool
  contains c name rtype rclass =
      elim (first_key (same_key name rtype rclass) (pool.iter c.entries)) [
        | some _ ↦ true
        | none ↦ false
      ]

  unfoldable pub count_matching : Cache P → List ℕ → ResourceType → ResourceClass → ℕ
  count_matching c name rtype rclass =
      length (keep (same_key name rtype rclass) (pool.iter c.entries))
