-- ===== src/Cache/Lookup.antt =====
-- mdns-proto/src/cache.rs: the entry behind the key that `Cache::try_insert` answers.
use hick.Prelude.{
  ℕ, ◌≡◌, refl, sym, ap, ◌∙◌, arith, Bool, true, false, List, [], ◌∷◌, ◌++◌, none, some,
  All-append_right, ◌==◌, if◌then◌else◌, inl, inr, Bool-cases, Option-cases,
}
use mathlib.Core.Path.{subst}
use hick.Wire.ResourceType
use hick.Wire.ResourceType.{ResourceType}
use hick.Wire.ResourceClass.{ResourceClass}
use hick.Time.{Clock}
use hick.Cache.{
  CacheEntry, Cache, same_type, same_class, same_bytes, same_key, same_record, make_room, evict,
  bounded_insert, refresh_or_insert, try_insert, expiry, flush,
}
use hick.Cache.Lists.{Lacks, Distinct, lookup, adjust, first_key}
use hick.Cache.Backing.{Pool, IsPool}

-- The equalities of the source hold of each value and itself.
==_self : (v : ℕ) → (v == v) ≡ true
==_self v = ground arith

same_bytes_self : (xs : List ℕ) → same_bytes xs xs ≡ true
same_bytes_self [] = refl
same_bytes_self (x ∷ xs) = rw (==_self x) (same_bytes_self xs)

same_class_self : (c : ResourceClass) → same_class c c ≡ true
same_class_self ResourceClass.in_class = refl
same_class_self ResourceClass.any = refl
same_class_self (ResourceClass.unknown v) = ==_self v

same_type_self : (t : ResourceType) → same_type t t ≡ true
same_type_self (ResourceType.unknown v) = ==_self v
same_type_self t = ==_self (ResourceType.to_u16 t)

lookup-Inserted :
    (k : ℕ) (v : CacheEntry) (l l' : List (ℕ × CacheEntry))
    → Distinct (l ++ (k, v) ∷ l')
    → lookup k (l ++ (k, v) ∷ l') ≡ some v
lookup-Inserted k v [] l' d = rw (==_self k) refl
lookup-Inserted k v (e ∷ l) l' d =
    let later = All-append_right (λ x. (e.0 == x.0) ≡ false) l ((k, v) ∷ l') d.0 in
    let other : (k == e.0) ≡ false = ground (arith, later.0) in
    rw (other) (lookup-Inserted k v l l' d.1)

lookup-adjust :
    (k : ℕ) (f : CacheEntry → CacheEntry) (l : List (ℕ × CacheEntry)) {e : CacheEntry}
    → lookup k l ≡ some e
    → lookup k (adjust k f l) ≡ some (f e)
lookup-adjust k f [] h = cc
lookup-adjust k f (x ∷ l) {e} h = elim (Bool-cases (k == x.0)) [
  | inl p ↦
      let s : lookup k (x ∷ l) ≡ some x.1 = rw (p) refl in
      let same : x.1 ≡ e = cc in rw (p, p) (ap (λ y. some (f y)) same)
  | inr p ↦
      let s : lookup k (x ∷ l) ≡ lookup k l = rw (p) refl in
      rw (p, p) (lookup-adjust k f l (sym s ∙ h))
]

lookup-Lacks : (k : ℕ) (l : List (ℕ × CacheEntry)) → Lacks k l → lookup k l ≡ none
lookup-Lacks k [] h = refl
lookup-Lacks k (e ∷ l) h = rw (h.0) (lookup-Lacks k l h.1)

-- A pair behind another has another key.
lookup-other :
    (k : ℕ) (x : ℕ × CacheEntry) (l : List (ℕ × CacheEntry)) {e : CacheEntry}
    → Lacks x.0 l
    → lookup k l ≡ some e
    → lookup k (x ∷ l) ≡ some e
lookup-other k x l lacks found = elim (Bool-cases (k == x.0)) [
  | inl q ↦
      let same : x.0 ≡ k = ground arith in
      let none_there : lookup k l ≡ none = lookup-Lacks k l (subst (λ i. Lacks i l) same lacks) in
      cc
  | inr q ↦ rw (q) found
]

-- The entry that a search stopped at.
first_key-lookup :
    (test : CacheEntry → Bool) (k : ℕ) (l : List (ℕ × CacheEntry))
    → Distinct l
    → first_key test l ≡ some k
    → (e : CacheEntry) × (lookup k l ≡ some e) × (test e ≡ true)
first_key-lookup test k [] d h = cc
first_key-lookup test k (x ∷ l) d h = elim (Bool-cases (test x.1)) [
  | inl p ↦
      let s : first_key test (x ∷ l) ≡ some x.0 = rw (p) refl in
      let same : x.0 ≡ k = cc in
      let here : (k == x.0) ≡ true = ground arith in (x.1, rw (here) refl, p)
  | inr p ↦
      let s : first_key test (x ∷ l) ≡ first_key test l = rw (p) refl in
      let (e, found, t) = first_key-lookup test k l d.1 (sym s ∙ h) in
      (e, lookup-other k x l d.0 found, t)
]

module _ {P : Type 0} (pool : Pool P CacheEntry) (laws : IsPool pool) where
  lookup-insert :
      (p : P) (v : CacheEntry) (k : ℕ)
      → (pool.insert p v).1 ≡ some k
      → lookup k (pool.iter (pool.insert p v).0) ≡ some v
  lookup-insert p v k h =
      let i = laws.insert-ok p v k h in
      let d = subst Distinct i.new (laws.iter-Distinct (pool.insert p v).0) in
      ap (lookup k) i.new ∙ lookup-Inserted k v i.before i.after d

  lookup-bounded_insert :
      (c : Cache P) (v : CacheEntry) (k : ℕ)
      → (bounded_insert pool c v).1 ≡ some k
      → lookup k (pool.iter (bounded_insert pool c v).0.entries) ≡ some v
  unfolding bounded_insert
  lookup-bounded_insert c v k h =
      let room = make_room pool c in
      let again = evict pool (pool.insert room v).0 in
      elim (Option-cases (pool.insert room v).1) [
        | inl e ↦
            let s : (bounded_insert pool c v).1 ≡ (pool.insert again v).1 =
              rw (bounded_insert, e) refl in
            rw (bounded_insert, e) (lookup-insert again v k (sym s ∙ h))
        | inr (k', e) ↦
            let s : (bounded_insert pool c v).1 ≡ some k' = rw (bounded_insert, e) refl in
            rw (bounded_insert, e) (lookup-insert room v k (e ∙ sym s ∙ h))
      ]

  module _ (name : List ℕ) (rtype : ResourceType) (rc : ResourceClass) (rdata : List ℕ)
      (now : ℕ) where
    -- The entry under `k` is the record, received now, until `expires_at`.
    abbrev pub IsThere : ℕ → ℕ → P → Type 0
    IsThere k expires_at p =
        (e : CacheEntry) × (lookup k (pool.iter p) ≡ some e)
        × (same_record name rtype rc rdata e ≡ true)
        × (e.expires_at ≡ expires_at)
        × (e.received_at ≡ now)

    refreshed-IsThere :
        (p : P) (expires_at k : ℕ)
        → first_key (same_record name rtype rc rdata) (pool.iter p) ≡ some k
        → IsThere k expires_at
            (pool.modify p k (λ entry. record entry { expires_at = expires_at; received_at = now }))
    unfolding same_record same_key
    refreshed-IsThere p expires_at k h =
        let f : CacheEntry → CacheEntry =
          λ entry. record entry { expires_at = expires_at; received_at = now } in
        let (e, found, is_it) =
          first_key-lookup (same_record name rtype rc rdata) k (pool.iter p) (laws.iter-Distinct p)
            h in
        (
          f e,
          ap (lookup k) (laws.iter-modify p k f) ∙ lookup-adjust k f (pool.iter p) found,
          is_it,
          refl,
          refl,
        )

    same_record_self :
        (expires_at : ℕ)
        → same_record name rtype rc rdata (record {
          name = name;
          rtype = rtype;
          rclass = rc;
          rdata = rdata;
          expires_at = expires_at;
          received_at = now;
        })
          ≡ true
    unfolding same_record same_key
    same_record_self expires_at =
        rw (same_type_self rtype, same_class_self rc, same_bytes_self name, same_bytes_self rdata)
          refl

    refresh_or_insert-IsThere :
        (c : Cache P) (expires_at k : ℕ)
        → (refresh_or_insert pool c name rtype rc rdata expires_at now).1 ≡ some (some k)
        → IsThere k expires_at
            (refresh_or_insert pool c name rtype rc rdata expires_at now).0.entries
    unfolding refresh_or_insert
    refresh_or_insert-IsThere c expires_at k h =
        let new : CacheEntry = record {
          name = name;
          rtype = rtype;
          rclass = rc;
          rdata = rdata;
          expires_at = expires_at;
          received_at = now;
        } in
        elim (Option-cases (first_key (same_record name rtype rc rdata) (pool.iter c.entries))) [
          | inl e ↦ elim (Option-cases (bounded_insert pool c new).1) [
            | inl full ↦
                let s : (refresh_or_insert pool c name rtype rc rdata expires_at now).1 ≡ none =
                  rw (refresh_or_insert, e, full) refl in
                cc
            | inr (k', done) ↦
                let s : (refresh_or_insert pool c name rtype rc rdata expires_at now).1
                    ≡ some (some k') =
                  rw (refresh_or_insert, e, done) refl in
                let same : k' ≡ k = cc in
                rw (refresh_or_insert, e)
                  (
                    new,
                    lookup-bounded_insert c new k (done ∙ ap some same),
                    same_record_self expires_at,
                    refl,
                    refl,
                  )
          ]
          | inr (k', e) ↦
              let s : (refresh_or_insert pool c name rtype rc rdata expires_at now).1
                  ≡ some (some k') =
                rw (refresh_or_insert, e) refl in
              let same : k' ≡ k = cc in
              rw (refresh_or_insert, e)
                (subst
                  (λ i. IsThere k expires_at (
                    pool.modify c.entries i
                      (λ entry. record entry { expires_at = expires_at; received_at = now })))
                  (sym same) (refreshed-IsThere c.entries expires_at k (e ∙ ap some same)))
        ]

    -- Where an observation answers a key, the entry under that key is the record that was observed,
    -- received now, and it expires when its TTL has passed (or now, where the clock cannot add it).
    pub try_insert-IsThere :
        (clock : Clock) (c : Cache P) (ttl k : ℕ) (cache_flush : Bool)
        → (try_insert pool clock c name rtype rc rdata ttl now cache_flush).1 ≡ some (some k)
        → IsThere k
            (expiry clock now ttl)
            (try_insert pool clock c name rtype rc rdata ttl now cache_flush).0.entries
    unfolding try_insert
    try_insert-IsThere clock c ttl k cache_flush h = elim (Bool-cases (c.max_entries == 0)) [
      | inl z ↦
          let s : (try_insert pool clock c name rtype rc rdata ttl now cache_flush).1 ≡ some none =
            rw (try_insert, z) refl in
          cc
      | inr z ↦ elim (Bool-cases (ttl == 0)) [
        | inl g ↦
            let s : (try_insert pool clock c name rtype rc rdata ttl now cache_flush).1
                ≡ some none =
              rw (try_insert, z, g) refl in
            cc
        | inr g ↦
            let entries =
              if cache_flush
              then flush pool clock c.entries name rtype rc rdata now
              else c.entries in
            let s : try_insert pool clock c name rtype rc rdata ttl now cache_flush
                ≡ refresh_or_insert pool (record c { entries = entries }) name rtype rc rdata
                    (expiry clock now ttl) now =
              rw (try_insert, z, g) refl in
            subst (λ r. IsThere k (expiry clock now ttl) r.0.entries) (sym s)
              (refresh_or_insert-IsThere (record c { entries = entries }) (expiry clock now ttl) k
                (sym (ap (λ r. r.1) s) ∙ h))
      ]
    ]
