-- ===== src/Cache/Identity.antt =====
-- The identity `(name, rtype, rclass, rdata)` of the entries of mdns-proto/src/cache.rs.
use hick.Prelude.{
  ℕ, ◌≡◌, refl, sym, ◌∙◌, arith, Bool, false, ◌&&◌, List, [], ◌∷◌, ◌++◌, none, some, leb, All,
  All-append, All-append_left, All-append_right, ltb, ◌==◌, inl, inr, Bool-cases, Option-cases,
}
use mathlib.Core.Path.{subst, ap₂}
use hick.Wire.ResourceType
use hick.Wire.ResourceType.{ResourceType}
use hick.Wire.ResourceClass.{ResourceClass}
use hick.Time.{Clock, one_second}
use hick.Cache.{
  CacheEntry, Cache, same_type, same_class, same_bytes, same_key, same_record, clamp, evict,
  soonest, make_room, bounded_insert, expire_at, goodbye, flush, refresh_or_insert, try_insert,
  expiry, is_stale,
}
use hick.Cache.Lists.{adjust, without, first_key, keys_where}
use hick.Cache.Backing.{Pool, IsPool}

-- The equalities of the source are symmetric.
==_comm : (v w : ℕ) → (v == w) ≡ (w == v)
==_comm v w = ground arith

same_bytes_comm : (xs ys : List ℕ) → same_bytes xs ys ≡ same_bytes ys xs
same_bytes_comm [] [] = refl
same_bytes_comm [] (y ∷ ys) = refl
same_bytes_comm (x ∷ xs) [] = refl
same_bytes_comm (x ∷ xs) (y ∷ ys) = ap₂ ◌&&◌ (==_comm x y) (same_bytes_comm xs ys)

same_class_comm : (c d : ResourceClass) → same_class c d ≡ same_class d c
same_class_comm ResourceClass.in_class ResourceClass.in_class = refl
same_class_comm ResourceClass.any ResourceClass.any = refl
same_class_comm (ResourceClass.unknown v) (ResourceClass.unknown w) = ==_comm v w
same_class_comm _ _ = refl

same_type_comm : (t u : ResourceType) → same_type t u ≡ same_type u t
same_type_comm (ResourceType.unknown v) (ResourceType.unknown w) = ==_comm v w
same_type_comm (ResourceType.unknown v) _ = refl
same_type_comm _ (ResourceType.unknown w) = refl
same_type_comm t u = ==_comm (ResourceType.to_u16 t) (ResourceType.to_u16 u)

-- Whether `e` is the record `f`, with whatever times.
abbrev pub is : CacheEntry → CacheEntry → Bool
is f e = same_record f.name f.rtype f.rclass f.rdata e

is_comm : (e f : CacheEntry) → is e f ≡ is f e
unfolding same_record same_key
is_comm e f =
    ap₂ ◌&&◌
      (ap₂ ◌&&◌ (ap₂ ◌&&◌ (same_type_comm f.rtype e.rtype) (same_class_comm f.rclass e.rclass))
        (same_bytes_comm f.name e.name))
      (same_bytes_comm f.rdata e.rdata)

-- No value of the pairs is the record `f`.
abbrev Missing : CacheEntry → List (ℕ × CacheEntry) → Type 0
Missing f = All (λ e. is f e.1 ≡ false)

abbrev pub Unique : List (ℕ × CacheEntry) → Type 0
Unique [] = Unit {0}
Unique (e ∷ l) = Missing e.1 l × Unique l

Missing-same :
    (g g' : CacheEntry)
    → ((e : CacheEntry) → is g e ≡ is g' e)
    → (l : List (ℕ × CacheEntry)) → Missing g l
    → Missing g' l
Missing-same g g' s [] h = tt
Missing-same g g' s (e ∷ l) h = (sym (s e.1) ∙ h.0, Missing-same g g' s l h.1)

module _ (f : CacheEntry → CacheEntry) (keeps : (g e : CacheEntry) → (is g (f e) ≡ is g e)) where
  Missing-adjust :
      (g : CacheEntry) (k : ℕ) (l : List (ℕ × CacheEntry)) → Missing g l → Missing g (adjust k f l)
  Missing-adjust g k [] h = tt
  Missing-adjust g k (e ∷ l) h =
      let rest = Missing-adjust g k l h.1 in
      elim (Bool-cases (k == e.0)) [
        | inl p ↦ rw (p) (keeps g e.1 ∙ h.0, rest)
        | inr p ↦ rw (p) (h.0, rest)
      ]

  Unique-adjust : (k : ℕ) (l : List (ℕ × CacheEntry)) → Unique l → Unique (adjust k f l)
  Unique-adjust k [] h = tt
  Unique-adjust k (e ∷ l) h =
      let there = Missing-adjust e.1 k l h.0 in
      let rest = Unique-adjust k l h.1 in
      let same : (g : CacheEntry) → is e.1 g ≡ is (f e.1) g =
        λ g. is_comm e.1 g ∙ sym (keeps g e.1) ∙ is_comm g (f e.1) in
      elim (Bool-cases (k == e.0)) [
        | inl p ↦ rw (p) (Missing-same e.1 (f e.1) same (adjust k f l) there, rest)
        | inr p ↦ rw (p) (there, rest)
      ]

Missing-without :
    (g : CacheEntry) (k : ℕ) (l : List (ℕ × CacheEntry)) → Missing g l → Missing g (without k l)
Missing-without g k [] h = tt
Missing-without g k (e ∷ l) h =
    let rest = Missing-without g k l h.1 in
    elim (Bool-cases (k == e.0)) [ inl p ↦ rw (p) rest | inr p ↦ rw (p) (h.0, rest) ]

Unique-without : (k : ℕ) (l : List (ℕ × CacheEntry)) → Unique l → Unique (without k l)
Unique-without k [] h = tt
Unique-without k (e ∷ l) h =
    let rest = Unique-without k l h.1 in
    elim (Bool-cases (k == e.0)) [
      | inl p ↦ rw (p) rest
      | inr p ↦ rw (p) (Missing-without e.1 k l h.0, rest)
    ]

first_key-Missing :
    (g : CacheEntry) (l : List (ℕ × CacheEntry)) → first_key (is g) l ≡ none → Missing g l
first_key-Missing g [] h = tt
first_key-Missing g (e ∷ l) h = elim (Bool-cases (is g e.1)) [
  | inl p ↦ let found : first_key (is g) (e ∷ l) ≡ some e.0 = rw (p) refl in cc
  | inr p ↦
      let next : first_key (is g) (e ∷ l) ≡ first_key (is g) l = rw (p) refl in
      (p, first_key-Missing g l (sym next ∙ h))
]

-- A record that was missing may go anywhere.
Unique-between :
    (k : ℕ) (g : CacheEntry) (l l' : List (ℕ × CacheEntry))
    → Missing g (l ++ l')
    → Unique (l ++ l')
    → Unique (l ++ (k, g) ∷ l')
Unique-between k g [] l' m u = (m, u)
Unique-between k g (e ∷ l) l' m u =
    let left = All-append_left (λ a. is e.1 a.1 ≡ false) l l' u.0 in
    let right = All-append_right (λ a. is e.1 a.1 ≡ false) l l' u.0 in
    (
      All-append (λ a. is e.1 a.1 ≡ false) l ((k, g) ∷ l') left (is_comm e.1 g ∙ m.0, right),
      Unique-between k g l l' m.1 u.1,
    )

module _ {P : Type 0} (pool : Pool P CacheEntry) (laws : IsPool pool) where
  -- What the entries of the pool satisfy.
  abbrev pub IsUnique : P → Type 0
  IsUnique p = Unique (pool.iter p)

  abbrev IsMissing : CacheEntry → P → Type 0
  IsMissing g p = Missing g (pool.iter p)

  Unique-insert :
      (p : P) (g : CacheEntry) → IsMissing g p → IsUnique p → IsUnique (pool.insert p g).0
  Unique-insert p g m u = elim (Option-cases (pool.insert p g).1) [
    | inl e ↦ subst Unique (sym (laws.insert-err p g e)) u
    | inr (k, e) ↦
        let i = laws.insert-ok p g k e in
        subst Unique (sym i.new)
          (Unique-between k g i.before i.after (subst (Missing g) i.old m) (subst Unique i.old u))
  ]

  -- An eviction leaves a part of the entries.
  evict-part :
      (Q : List (ℕ × CacheEntry) → Type 0)
      → ((k : ℕ) (l : List (ℕ × CacheEntry)) → Q l → Q (without k l))
      → (p : P) → Q (pool.iter p)
      → Q (pool.iter (evict pool p))
  unfolding evict
  evict-part Q part p q = elim (Option-cases (soonest (pool.iter p) none)) [
    | inl e ↦ rw (evict, e) q
    | inr ((k, t), e) ↦
        rw (evict, e) (subst Q (sym (laws.try_remove-iter p k)) (part k (pool.iter p) q))
  ]

  Unique-evict : (p : P) → IsUnique p → IsUnique (evict pool p)
  Unique-evict = evict-part Unique Unique-without

  Missing-evict : (g : CacheEntry) (p : P) → IsMissing g p → IsMissing g (evict pool p)
  Missing-evict g = evict-part (Missing g) (Missing-without g)

  make_room-part :
      (Q : List (ℕ × CacheEntry) → Type 0)
      → ((k : ℕ) (l : List (ℕ × CacheEntry)) → Q l → Q (without k l))
      → (c : Cache P) → Q (pool.iter c.entries)
      → Q (pool.iter (make_room pool c))
  unfolding make_room
  make_room-part Q part c q = elim (Bool-cases (leb c.max_entries (pool.len c.entries))) [
    | inl e ↦ rw (make_room, e) (evict-part Q part c.entries q)
    | inr e ↦ rw (make_room, e) q
  ]

  Unique-bounded_insert :
      (c : Cache P) (g : CacheEntry)
      → IsMissing g c.entries
      → IsUnique c.entries
      → IsUnique (bounded_insert pool c g).0.entries
  unfolding bounded_insert
  Unique-bounded_insert c g m u =
      let room = make_room pool c in
      let m1 = make_room-part (Missing g) (Missing-without g) c m in
      let u1 = make_room-part Unique Unique-without c u in
      let first = (pool.insert room g).0 in
      elim (Option-cases (pool.insert room g).1) [
        | inl e ↦
            let same = sym (laws.insert-err room g e) in
            rw (bounded_insert, e)
              (Unique-insert (evict pool first) g
                (Missing-evict g first (subst (Missing g) same m1))
                (Unique-evict first (subst Unique same u1)))
        | inr (k, e) ↦ rw (bounded_insert, e) (Unique-insert room g m1 u1)
      ]

  -- An assignment that leaves the identity alone.
  Unique-modify :
      (f : CacheEntry → CacheEntry)
      → ((g e : CacheEntry) → is g (f e) ≡ is g e)
      → (p : P) (k : ℕ) → IsUnique p
      → IsUnique (pool.modify p k f)
  Unique-modify f keeps p k u =
      subst Unique (sym (laws.iter-modify p k f)) (Unique-adjust f keeps k (pool.iter p) u)

  Unique-expire_at : (d : ℕ) (ks : List ℕ) (p : P) → IsUnique p → IsUnique (expire_at pool d ks p)
  unfolding expire_at same_record same_key
  Unique-expire_at d [] p u = u
  Unique-expire_at d (k ∷ ks) p u =
      let f : CacheEntry → CacheEntry = λ entry. record entry { expires_at = d } in
      Unique-expire_at d ks (pool.modify p k f) (Unique-modify f (λ g e. refl) p k u)

  module _ (clock : Clock) (name : List ℕ) (rtype : ResourceType) (rc : ResourceClass)
      (rdata : List ℕ) (now : ℕ) where
    is-clamp : (d : ℕ) (g e : CacheEntry) → is g (clamp d e) ≡ is g e
    unfolding same_record same_key
    is-clamp d g e = elim (Bool-cases (ltb d e.expires_at)) [
      | inl p ↦ rw (p) refl
      | inr p ↦ rw (p) refl
    ]

    Unique-goodbye : (p : P) → IsUnique p → IsUnique (goodbye pool clock p name rtype rc rdata now)
    unfolding goodbye
    Unique-goodbye p u = elim (Option-cases (clock.checked_add_duration now one_second)) [
      | inl e ↦ rw (goodbye, e) u
      | inr (d, e) ↦
          elim (Option-cases (first_key (same_record name rtype rc rdata) (pool.iter p))) [
            | inl e' ↦ rw (goodbye, e, e') u
            | inr (k, e') ↦ rw (goodbye, e, e') (Unique-modify (clamp d) (is-clamp d) p k u)
          ]
    ]

    Unique-flush : (p : P) → IsUnique p → IsUnique (flush pool clock p name rtype rc rdata now)
    unfolding flush
    Unique-flush p u = elim (Option-cases (clock.checked_add_duration now one_second)) [
      | inl e ↦ rw (flush, e) u
      | inr (d, e) ↦
          rw (flush, e)
            (Unique-expire_at d
              (keys_where (is_stale clock now d name rtype rc rdata) (pool.iter p)) p u)
    ]

    Unique-refresh_or_insert :
        (c : Cache P) (expires_at : ℕ)
        → IsUnique c.entries
        → IsUnique (refresh_or_insert pool c name rtype rc rdata expires_at now).0.entries
    unfolding refresh_or_insert same_record same_key
    Unique-refresh_or_insert c expires_at u =
        let new : CacheEntry = record {
          name = name;
          rtype = rtype;
          rclass = rc;
          rdata = rdata;
          expires_at = expires_at;
          received_at = now;
        } in
        let l = pool.iter c.entries in
        elim (Option-cases (first_key (same_record name rtype rc rdata) l)) [
          | inl e ↦
              rw (refresh_or_insert, e) (Unique-bounded_insert c new (first_key-Missing new l e) u)
          | inr (k, e) ↦
              let f : CacheEntry → CacheEntry =
                λ entry. record entry { expires_at = expires_at; received_at = now } in
              rw (refresh_or_insert, e) (Unique-modify f (λ g x. refl) c.entries k u)
        ]

    -- Where no two entries have the same name, type, class and rdata, there are no two after any
    -- observation: a goodbye, a refresh, a flush or a new record, with the evictions it takes.
    pub try_insert-Unique :
        (c : Cache P) (ttl : ℕ) (cache_flush : Bool)
        → Unique (pool.iter c.entries)
        → Unique
            (pool.iter (try_insert pool clock c name rtype rc rdata ttl now cache_flush).0.entries)
    unfolding try_insert
    try_insert-Unique c ttl cache_flush u =
        let fresh : (entries : P)
            → IsUnique entries
            → IsUnique
                (refresh_or_insert pool (record c { entries = entries }) name rtype rc rdata
                  (expiry clock now ttl) now).0.entries =
          λ entries h.
            Unique-refresh_or_insert (record c { entries = entries }) (expiry clock now ttl) h in
        elim (Bool-cases (c.max_entries == 0)) [
          | inl z ↦ rw (try_insert, z) u
          | inr z ↦ elim (Bool-cases (ttl == 0)) [
            | inl g ↦ rw (try_insert, z, g) (Unique-goodbye c.entries u)
            | inr g ↦ elim (Bool-cases cache_flush) [
              | inl f ↦ rw (try_insert, z, g, f) (fresh _ (Unique-flush c.entries u))
              | inr f ↦ rw (try_insert, z, g, f) (fresh c.entries u)
            ]
          ]
        ]
