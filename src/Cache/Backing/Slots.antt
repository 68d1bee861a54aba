-- ===== src/Cache/Backing/Slots.antt =====
-- A pool of two slots, which refuses a third value.
use mathlib.Core.Option
use hick.Prelude.{
  ℕ, ◌≡◌, refl, arith, List, [], ◌∷◌, ◌++◌, Option, none, some, length, ◌==◌, if◌then◌else◌, ap,
}
use hick.Cache.Lists.{Distinct, adjust, lookup, without}
use hick.Cache.Backing.{Pool, Inserted, IsPool}

abbrev pub Slots : Type 0 → Type 0
Slots V = Option V × Option V

module _ {V : Type 0} where
  abbrev slot : ℕ → Option V → List (ℕ × V)
  slot i none = []
  slot i (some e) = (i, e) ∷ []

  abbrev pub pairs : Slots V → List (ℕ × V)
  pairs p = slot 0 p.0 ++ slot 1 p.1

  abbrev put : Slots V → V → Slots V × Option ℕ
  put (none, b) v = ((some v, b), some 0)
  put (some a, none) v = ((some a, some v), some 1)
  put (some a, some b) v = ((some a, some b), none)

  abbrev change : Slots V → ℕ → (V → V) → Slots V
  change p k f =
      (if k == 0 then Option.map f p.0 else p.0, if k == 1 then Option.map f p.1 else p.1)

  abbrev take_out : Slots V → ℕ → Slots V × Option V
  take_out p k =
      if k == 0 then ((none, p.1), p.0) else if k == 1 then ((p.0, none), p.1) else (p, none)

  abbrev pub two_slots : Pool (Slots V) V
  two_slots = record {
    new = (none, none);
    vacant_key =
        λ p. elim p.0 [ none ↦ some 0 | some _ ↦ elim p.1 [ none ↦ some 1 | some _ ↦ none ] ];
    len = λ p. length (pairs p);
    iter = pairs;
    get = λ p k. if k == 0 then p.0 else if k == 1 then p.1 else none;
    modify = change;
    insert = put;
    try_remove = take_out;
  }

  change-adjust : (p : Slots V) (k : ℕ) (f : V → V) → pairs (change p k f) ≡ adjust k f (pairs p)
  change-adjust (none, none) k f = ground arith
  change-adjust (none, some b) k f = ground arith
  change-adjust (some a, none) k f = ground arith
  change-adjust (some a, some b) k f = ground arith

  put-Inserted :
      (p : Slots V) (v : V) (k : ℕ)
      → (put p v).1 ≡ some k
      → Inserted k v (pairs p) (pairs (put p v).0)
  put-Inserted (none, b) v k h =
      let e : 0 ≡ k = cc in
      record { before = []; after = slot 1 b; old = refl; new = ap (λ i. (i, v) ∷ slot 1 b) e }
  put-Inserted (some a, none) v k h =
      let e : 1 ≡ k = cc in
      record {
        before = (0, a) ∷ [];
        after = [];
        old = refl;
        new = ap (λ i. (0, a) ∷ (i, v) ∷ []) e;
      }
  put-Inserted (some a, some b) v k h = cc

  put_full : (p : Slots V) (v : V) → (put p v).1 ≡ none → pairs (put p v).0 ≡ pairs p
  put_full (none, b) v h = cc
  put_full (some a, none) v h = cc
  put_full (some a, some b) v h = refl

  take_out-without : (p : Slots V) (k : ℕ) → pairs (take_out p k).0 ≡ without k (pairs p)
  take_out-without (none, none) k = ground arith
  take_out-without (none, some b) k = ground arith
  take_out-without (some a, none) k = ground arith
  take_out-without (some a, some b) k = ground arith

  take_out-lookup : (p : Slots V) (k : ℕ) → (take_out p k).1 ≡ lookup k (pairs p)
  take_out-lookup (none, none) k = ground arith
  take_out-lookup (none, some b) k = ground arith
  take_out-lookup (some a, none) k = ground arith
  take_out-lookup (some a, some b) k = ground arith

  pairs-Distinct : (p : Slots V) → Distinct (pairs p)
  pairs-Distinct (none, none) = tt
  pairs-Distinct (none, some b) = (tt, tt)
  pairs-Distinct (some a, none) = (tt, tt)
  pairs-Distinct (some a, some b) = ((refl, tt), (tt, tt))

  get-pairs : (p : Slots V) (k : ℕ) → two_slots.get p k ≡ lookup k (pairs p)
  get-pairs (none, none) k = ground arith
  get-pairs (none, some b) k = ground arith
  get-pairs (some a, none) k = ground arith
  get-pairs (some a, some b) k = ground arith

  vacant : (p : Slots V) (v : V) → two_slots.vacant_key p ≡ (put p v).1
  vacant (none, b) v = refl
  vacant (some a, none) v = refl
  vacant (some a, some b) v = refl

  pub two_slots-IsPool : IsPool two_slots
  two_slots-IsPool = record {
    iter-new = refl;
    len-iter = λ p. refl;
    iter-Distinct = pairs-Distinct;
    get-iter = get-pairs;
    iter-modify = change-adjust;
    insert-ok = put-Inserted;
    insert-err = put_full;
    vacant_key-insert = vacant;
    try_remove-iter = take_out-without;
    try_remove-lookup = take_out-lookup;
  }
