-- ===== src/Query/Collect/Capacity.antt =====
-- How many answers a query can hold: its own cap, and the capacity of the pool where it has one.
use hick.Prelude.{
  ℕ, min, true, false, ◌||◌, Option, ◌≤◌, ◌<◌, ◌≡◌, inl, inr, ap, arith, ◌∷◌, none, some,
  Bool-cases, Option-cases, length, leb, ◌==◌, length-append,
}
use hick.Cache.Backing.{Pool, IsPool}
use hick.Query.Collect.{CollectedAnswer}

-- A pool that refuses nothing, as `Slab` does, or one with room for so many values, which takes a value
-- as long as there is room.
abbrev pub Capacity : {P V : Type 0} → Pool P V → Option ℕ → Type 0
Capacity {P} {V} pool none = (p : P) (v : V) → (k : ℕ) × ((pool.insert p v).1 ≡ some k)
Capacity {P} {V} pool (some c) =
    (p : P)
    → (length (pool.iter p) ≤ c)
      × ((v : V) → length (pool.iter p) < c → (k : ℕ) × ((pool.insert p v).1 ≡ some k))

-- How many answers a query can hold.
abbrev pub limit : ℕ → Option ℕ → ℕ
limit max none = max
limit max (some c) = min max c

module _ {P V : Type 0} (pool : Pool P V) (laws : IsPool pool) where
  -- An insertion that succeeds had room, and one that fails had none.
  pub has_room :
      (c : ℕ)
      → Capacity pool (some c)
      → (p : P) (v : V) (k : ℕ) → (pool.insert p v).1 ≡ some k
      → length (pool.iter p) < c
  has_room c cap p v k e =
      let i = laws.insert-ok p v k e in
      let bound = (cap (pool.insert p v).0).0 in
      omega (
        arith,
        bound,
        ap length i.old,
        ap length i.new,
        length-append i.before i.after,
        length-append i.before ((k, v) ∷ i.after),
      )

  has_none :
      (c : ℕ)
      → Capacity pool (some c)
      → (p : P) (v : V) → (pool.insert p v).1 ≡ none
      → c ≤ length (pool.iter p)
  has_none c cap p v e = elim (Bool-cases (leb c (length (pool.iter p)))) [
    | inl full ↦ ground arith
    | inr free ↦ let (k, e') = (cap p).1 v (ground arith) in absurd (cc)
  ]

pub limit_zero : (max : ℕ) (cap : Option ℕ) → (max == 0) ≡ true → (limit max cap == 0) ≡ true
limit_zero max none z = z
limit_zero max (some c) z = ground arith

pub limit_positive : (most n : ℕ) → leb most n ≡ false → (most == 0) ≡ false
limit_positive most n free = ground arith

module _ {AN : Type 0} (store : Pool AN CollectedAnswer) (laws : IsPool store) where
  pub accepts :
      (cap : Option ℕ)
      → Capacity store cap
      → (max : ℕ) (a : AN) (v : CollectedAnswer)
      → leb (limit max cap) (length (store.iter a)) ≡ false
      → (k : ℕ) × ((store.insert a v).1 ≡ some k)
  accepts none holds max a v free = holds a v
  accepts (some c) holds max a v free = (holds a).1 v (ground arith)

  pub vacancy :
      (cap : Option ℕ)
      → Capacity store cap
      → (max : ℕ) (a : AN) (v : CollectedAnswer)
      → (leb max (length (store.iter a))
          || elim (store.insert a v).1 [ none ↦ true | some _ ↦ false ])
        ≡ leb (limit max cap) (length (store.iter a))
  vacancy none holds max a v = let (k, e) = holds a v in rw (e) (ground arith)
  vacancy (some c) holds max a v = elim (Option-cases (store.insert a v).1) [
    | inl e ↦ rw (e) (let full = has_none store laws c holds a v e in ground arith)
    | inr (k, e) ↦ rw (e) (let free = has_room store laws c holds a v k e in ground arith)
  ]

  -- A pool without room for anything holds nothing and takes nothing.
  pub nothing_held :
      (cap : Option ℕ)
      → Capacity store cap
      → (max : ℕ) (a : AN) (v : CollectedAnswer) → (max == 0) ≡ false
      → (limit max cap == 0) ≡ true
      → (length (store.iter a) ≡ 0) × ((store.insert a v).1 ≡ none)
  nothing_held none holds max a v some_room no_room = cc
  nothing_held (some c) holds max a v some_room no_room =
      let fits = (holds a).0 in
      let zero_room : c ≡ 0 = ground arith in
      (
        omega arith,
        elim (Option-cases (store.insert a v).1) [
          | inl e ↦ e
          | inr (k, e) ↦
              let free = has_room store laws c holds a v k e in
              absurd (omega (arith, free, zero_room))
        ],
      )
