-- ===== src/Cache/Others.antt =====
-- mdns-proto/src/cache.rs: what `Cache::try_insert` makes of the entries that it does not answer.
use mathlib.Core.Path.{subst}
use hick.Prelude.{
  ℕ, ◌≤◌, ◌≡◌, ◌≢◌, ◌⊎◌, refl, sym, ap, ◌∙◌, arith, Bool, true, false, List, [], ◌∷◌, ◌++◌, none,
  some, length, leb, ◌==◌, if◌then◌else◌, inl, inr, Bool-cases, Option-cases,
}
use hick.Wire.ResourceType.{ResourceType}
use hick.Wire.ResourceClass.{ResourceClass}
use hick.Time.{Clock, one_second}
use hick.Cache.{
  CacheEntry, Cache, same_record, soonest, evict, make_room, bounded_insert, refresh_or_insert,
  flush, try_insert, expiry,
}
use hick.Cache.Flush.{flushed, flush-flushed}
use hick.Cache.Lists.{lookup, adjust, without, first_key, values}
use hick.Cache.Backing.{Pool, IsPool}

abbrev Pairs : Type 0
Pairs = List (ℕ × CacheEntry)

lookup-adjust_other :
    (k key : ℕ) (f : CacheEntry → CacheEntry) (l : Pairs)
    → (k == key) ≡ false
    → lookup k (adjust key f l) ≡ lookup k l
lookup-adjust_other k key f [] apart = refl
lookup-adjust_other k key f (e ∷ l) apart =
    ground (arith, apart, lookup-adjust_other k key f l apart)

lookup-placed_other :
    (k key : ℕ) (v : CacheEntry) (l l' : Pairs)
    → (k == key) ≡ false
    → lookup k (l ++ (key, v) ∷ l') ≡ lookup k (l ++ l')
lookup-placed_other k key v [] l' apart = rw (apart) refl
lookup-placed_other k key v (e ∷ l) l' apart =
    ap (λ o. if k == e.0 then some e.1 else o) (lookup-placed_other k key v l l' apart)

-- What is under `k` in `l` is there in `l'`, or nothing is.
abbrev Kept : ℕ → Pairs → Pairs → Type 0
Kept k l l' = (lookup k l' ≡ lookup k l) ⊎ (lookup k l' ≡ none)

Kept-trans : (k : ℕ) (l l' l'' : Pairs) → Kept k l l' → Kept k l' l'' → Kept k l l''
Kept-trans k l l' l'' (inl same) (inl same') = inl (same' ∙ same)
Kept-trans k l l' l'' (inr gone) (inl same') = inr (same' ∙ gone)
Kept-trans k l l' l'' h (inr gone) = inr gone

lookup-without :
    (k key : ℕ) (l : Pairs) → lookup k (without key l) ≡ (if k == key then none else lookup k l)
lookup-without k key [] = ground arith
lookup-without k key (e ∷ l) = ground (arith, lookup-without k key l)

Kept-without : (k key : ℕ) (l : Pairs) → Kept k l (without key l)
Kept-without k key l = elim (Bool-cases (k == key)) [
  | inl same ↦ inr (lookup-without k key l ∙ rw (same) refl)
  | inr apart ↦ inl (lookup-without k key l ∙ rw (apart) refl)
]

-- An entry as the cache-flush bit leaves it.
abbrev pub flushed_if :
    Clock → List ℕ → ResourceType → ResourceClass → List ℕ → ℕ → Bool → ℕ → CacheEntry → CacheEntry
flushed_if clock name rtype rc rdata now cache_flush deadline e =
    if cache_flush then flushed clock name rtype rc rdata now deadline e else e

module _ {P : Type 0} (pool : Pool P CacheEntry) where
  -- A pool with exactly these entries refuses one more.
  abbrev pub Refuses : Pairs → Type 0
  Refuses l = (p : P) × (v : CacheEntry) × (pool.iter p ≡ l) × ((pool.insert p v).1 ≡ none)

  -- Under `k` is what was in `l`; or it was evicted, where `max` entries were there or the pool
  -- took no more.
  abbrev pub Spared : ℕ → ℕ → Pairs → P → Type 0
  Spared max k l p =
      (lookup k (pool.iter p) ≡ lookup k l)
      ⊎ ((lookup k (pool.iter p) ≡ none) × ((max ≤ length l) ⊎ Refuses l))

module _ {P : Type 0} (pool : Pool P CacheEntry) (laws : IsPool pool) where
  spared :
      (max k : ℕ) (l : Pairs) (p : P)
      → (max ≤ length l) ⊎ Refuses pool l
      → Kept k l (pool.iter p)
      → Spared pool max k l p
  spared max k l p why (inl same) = inl same
  spared max k l p why (inr gone) = inr (gone, why)

  evict-Kept : (k : ℕ) (p : P) → Kept k (pool.iter p) (pool.iter (evict pool p))
  unfolding evict
  evict-Kept k p = elim (Option-cases (soonest (pool.iter p) none)) [
    | inl e ↦ rw (evict, e) (inl refl)
    | inr ((key, s), e) ↦
        rw (evict, e, laws.try_remove-iter p key) (Kept-without k key (pool.iter p))
  ]

  -- An insertion, whether it succeeds or not, of a key other than `k`.
  lookup-insert_other :
      (p : P) (v : CacheEntry) (k : ℕ)
      → (pool.insert p v).1 ≢ some k
      → lookup k (pool.iter (pool.insert p v).0) ≡ lookup k (pool.iter p)
  lookup-insert_other p v k other = elim (Option-cases (pool.insert p v).1) [
    | inl e ↦ ap (lookup k) (laws.insert-err p v e)
    | inr (key, e) ↦
        let i = laws.insert-ok p v key e in
        elim (Bool-cases (k == key)) [
          | inl same ↦ let eq : key ≡ k = ground arith in absurd (other (e ∙ ap some eq))
          | inr apart ↦
              ap (lookup k) i.new
              ∙ lookup-placed_other k key v i.before i.after apart
              ∙ ap (lookup k) (sym i.old)
        ]
  ]

  make_room-Kept :
      (k : ℕ) (c : Cache P) → Kept k (pool.iter c.entries) (pool.iter (make_room pool c))
  unfolding make_room
  make_room-Kept k c = elim (Bool-cases (leb c.max_entries (pool.len c.entries))) [
    | inl full ↦ rw (make_room, full) (evict-Kept k c.entries)
    | inr free ↦ rw (make_room, free) (inl refl)
  ]

  make_room_free :
      (c : Cache P)
      → (c.max_entries ≤ length (pool.iter c.entries)) ⊎ (make_room pool c ≡ c.entries)
  unfolding make_room
  make_room_free c = elim (Bool-cases (leb c.max_entries (pool.len c.entries))) [
    | inl full ↦ let size = laws.len-iter c.entries in inl (ground arith)
    | inr free ↦ inr (rw (make_room, free) refl)
  ]

  bounded_insert-Spared :
      (c : Cache P) (v : CacheEntry) (k : ℕ)
      → (bounded_insert pool c v).1 ≢ some k
      → Spared pool c.max_entries k (pool.iter c.entries) (bounded_insert pool c v).0.entries
  unfolding bounded_insert
  bounded_insert-Spared c v k other =
      let l = pool.iter c.entries in
      let room = make_room pool c in
      let tried = (pool.insert room v).0 in
      let again = evict pool tried in
      let roomy = make_room-Kept k c in
      elim (Option-cases (pool.insert room v).1) [
        | inl e ↦
            let answer : (bounded_insert pool c v).1 ≡ (pool.insert again v).1 =
              rw (bounded_insert, e) refl in
            let kept =
              Kept-trans k l (pool.iter room) (pool.iter tried) roomy
                (inl (ap (lookup k) (laws.insert-err room v e))) in
            let kept' =
              Kept-trans k l (pool.iter tried) (pool.iter again) kept (evict-Kept k tried) in
            let last = lookup-insert_other again v k (λ h. other (answer ∙ h)) in
            let why : (c.max_entries ≤ length l) ⊎ Refuses pool l = elim (make_room_free c) [
              | inl full ↦ inl full
              | inr free ↦ inr (c.entries, v, refl, subst (λ p. (pool.insert p v).1 ≡ none) free e)
            ] in
            rw (bounded_insert, e)
              (spared c.max_entries k l (pool.insert again v).0 why (
                Kept-trans k l (pool.iter again) (pool.iter (pool.insert again v).0) kept'
                  (inl last)))
        | inr (key, e) ↦
            let answer : (bounded_insert pool c v).1 ≡ some key = rw (bounded_insert, e) refl in
            let last = lookup-insert_other room v k (λ h. other (answer ∙ sym e ∙ h)) in
            elim (make_room_free c) [
              | inl full ↦
                  rw (bounded_insert, e)
                    (spared c.max_entries k l tried (inl full)
                      (Kept-trans k l (pool.iter room) (pool.iter tried) roomy (inl last)))
              | inr free ↦
                  rw (bounded_insert, e) (inl (last ∙ ap (λ p. lookup k (pool.iter p)) free))
            ]
      ]

  module _ (clock : Clock) (name : List ℕ) (rtype : ResourceType) (rc : ResourceClass)
      (rdata : List ℕ) (now : ℕ) where
    refresh_or_insert-Spared :
        (c : Cache P) (expires_at k : ℕ)
        → (refresh_or_insert pool c name rtype rc rdata expires_at now).1 ≢ some (some k)
        → Spared pool c.max_entries k
            (pool.iter c.entries)
            (refresh_or_insert pool c name rtype rc rdata expires_at now).0.entries
    unfolding refresh_or_insert
    refresh_or_insert-Spared c expires_at k other =
        let new : CacheEntry = record {
          name = name;
          rtype = rtype;
          rclass = rc;
          rdata = rdata;
          expires_at = expires_at;
          received_at = now;
        } in
        let f : CacheEntry → CacheEntry =
          λ entry. record entry { expires_at = expires_at; received_at = now } in
        elim (Option-cases (first_key (same_record name rtype rc rdata) (pool.iter c.entries))) [
          | inl e ↦
              rw (refresh_or_insert, e)
                (bounded_insert-Spared c new k (λ h. other (rw (refresh_or_insert, e, h) refl)))
          | inr (key, e) ↦
              let answer : (refresh_or_insert pool c name rtype rc rdata expires_at now).1
                  ≡ some (some key) =
                rw (refresh_or_insert, e) refl in
              elim (Bool-cases (k == key)) [
                | inl same ↦
                    let eq : key ≡ k = ground arith in
                    absurd (other (answer ∙ ap (λ i. some (some i)) eq))
                | inr apart ↦
                    rw (refresh_or_insert, e, laws.iter-modify c.entries key f)
                      (inl (lookup-adjust_other k key f (pool.iter c.entries) apart))
              ]
        ]

    flushed_entries :
        (c : Cache P) (deadline : ℕ) (cache_flush : Bool)
        → clock.checked_add_duration now one_second ≡ some deadline
        → pool.iter
            (if cache_flush then flush pool clock c.entries name rtype rc rdata now else c.entries)
          ≡ values
              (flushed_if clock name rtype rc rdata now cache_flush deadline)
              (pool.iter c.entries)
    flushed_entries c deadline true adds =
        flush-flushed pool laws clock name rtype rc rdata now c.entries deadline adds
    flushed_entries c deadline false adds = sym (values_same (pool.iter c.entries))
      where
        values_same : (l : Pairs) → values (λ e. e) l ≡ l
        values_same [] = refl
        values_same (e ∷ l) = ap (◌∷◌ e) (values_same l)

    -- An observation with a TTL, in a cache that may hold anything and with a clock that can add a
    -- second. Under every key but the one that is answered is what was there, where the cache-flush bit
    -- is not set; where it is set, every sibling (the same name, type and class, other rdata) that was
    -- received a second ago or earlier expires in one second at most, and the other entries are what
    -- they were. Only an eviction may have taken an entry away, where the cache had reached its cap or
    -- the pool took no more than it had.
    pub try_insert-Spared :
        (c : Cache P) (ttl deadline k : ℕ) (cache_flush : Bool)
        → (c.max_entries == 0) ≡ false
        → (ttl == 0) ≡ false
        → clock.checked_add_duration now one_second ≡ some deadline
        → (try_insert pool clock c name rtype rc rdata ttl now cache_flush).1 ≢ some (some k)
        → Spared pool c.max_entries k
            (values
              (flushed_if clock name rtype rc rdata now cache_flush deadline)
              (pool.iter c.entries))
            (try_insert pool clock c name rtype rc rdata ttl now cache_flush).0.entries
    unfolding try_insert
    try_insert-Spared c ttl deadline k cache_flush some_room lives adds other =
        let entries =
          if cache_flush then flush pool clock c.entries name rtype rc rdata now else c.entries in
        let s : try_insert pool clock c name rtype rc rdata ttl now cache_flush
            ≡ refresh_or_insert pool (record c { entries = entries }) name rtype rc rdata
                (expiry clock now ttl) now =
          rw (try_insert, some_room, lives) refl in
        let rest =
          refresh_or_insert-Spared (record c { entries = entries }) (expiry clock now ttl) k
            (λ h. other (ap (λ r. r.1) s ∙ h)) in
        subst
          (λ l.
            Spared pool c.max_entries k l
              (try_insert pool clock c name rtype rc rdata ttl now cache_flush).0.entries)
          (flushed_entries c deadline cache_flush adds)
          (subst (λ r. Spared pool c.max_entries k (pool.iter entries) r.0.entries) (sym s) rest)
