-- ===== src/Cache/Backing.antt =====
-- mdns-proto/src/pool.rs: the trait `Pool`, the storage that the protocol state stands on. Its
-- implementations, `slab::Slab` and those of a caller, are not code of this repository: they are a
-- parameter, with what the documentation of the trait promises.
pub mod Cells
pub mod Slots
use hick.Prelude.{ℕ, ◌≡◌, List, [], ◌∷◌, ◌++◌, Option, none, some, length}
use hick.Cache.Lists.{Distinct, lookup, adjust, without}

-- The methods that are called. `modify` is `get_mut` and the assignment through the reference;
-- an
-- insertion and `vacant_key` answer `none` where the source has an error.
pub record Pool (P V : Type 0) : Type 0 where
  pub new : P
  pub vacant_key : P → Option ℕ
  pub len : P → ℕ
  pub iter : P → List (ℕ × V)
  pub get : P → ℕ → Option V
  pub modify : P → ℕ → (V → V) → P
  pub insert : P → V → P × Option ℕ
  pub try_remove : P → ℕ → P × Option V

-- What a successful insertion of `v` under `k` makes of the pairs `l`: one more pair, anywhere.
pub record Inserted {V : Type 0} (k : ℕ) (v : V) (l l' : List (ℕ × V)) : Type 0 where
  pub before : List (ℕ × V)
  pub after : List (ℕ × V)
  pub old : l ≡ before ++ after
  pub new : l' ≡ before ++ (k, v) ∷ after

-- The behaviour that the documentation of the trait promises, by the pairs that `iter` yields.
pub record IsPool {P V : Type 0} (pool : Pool P V) : Type 0 where
  pub iter-new : pool.iter pool.new ≡ []
  pub len-iter : (p : P) → pool.len p ≡ length (pool.iter p)
  pub iter-Distinct : (p : P) → Distinct (pool.iter p)
  pub get-iter : (p : P) (k : ℕ) → pool.get p k ≡ lookup k (pool.iter p)
  pub iter-modify :
      (p : P) (k : ℕ) (f : V → V) → pool.iter (pool.modify p k f) ≡ adjust k f (pool.iter p)
  pub insert-ok :
      (p : P) (v : V) (k : ℕ)
      → (pool.insert p v).1 ≡ some k
      → Inserted k v (pool.iter p) (pool.iter (pool.insert p v).0)
  pub insert-err :
      (p : P) (v : V) → (pool.insert p v).1 ≡ none → pool.iter (pool.insert p v).0 ≡ pool.iter p
  pub vacant_key-insert : (p : P) (v : V) → pool.vacant_key p ≡ (pool.insert p v).1
  pub try_remove-iter :
      (p : P) (k : ℕ) → pool.iter (pool.try_remove p k).0 ≡ without k (pool.iter p)
  pub try_remove-lookup : (p : P) (k : ℕ) → (pool.try_remove p k).1 ≡ lookup k (pool.iter p)
