-- ===== src/Cache/Backing/Cells.antt =====
-- A pool that refuses nothing: a list of cells, of which a removal leaves one empty.
use mathlib.Core.Option
use mathlib.Core.List.{append-nil}
use hick.Prelude.{
  ℕ, suc, ◌+◌, ◌<◌, ◌≡◌, refl, sym, ◌∙◌, ap, arith, true, List, [], ◌∷◌, ◌++◌, Option, none, some,
  Bool-cases, inl, inr, length, if◌then◌else◌, ◌==◌,
}
use hick.Cache.Lists.{Lacks, Distinct, lookup, adjust, without, without-Lacks, adjust-Lacks}
use hick.Cache.Backing.{Pool, IsPool, Inserted}

module _ {V : Type 0} where
  -- The pairs, where the first cell has the key `i`.
  abbrev pairs : ℕ → List (Option V) → List (ℕ × V)
  pairs i [] = []
  pairs i (none ∷ cells) = pairs (suc i) cells
  pairs i (some v ∷ cells) = (i, v) ∷ pairs (suc i) cells

  abbrev change : ℕ → List (Option V) → ℕ → (V → V) → List (Option V)
  change i [] k f = []
  change i (c ∷ cells) k f =
      let rest = change (suc i) cells k f in if k == i then Option.map f c ∷ cells else c ∷ rest

  abbrev take_out : ℕ → List (Option V) → ℕ → List (Option V) × Option V
  take_out i [] k = ([], none)
  take_out i (c ∷ cells) k =
      let (rest, v) = take_out (suc i) cells k in
      if k == i then (none ∷ cells, c) else (c ∷ rest, v)

  abbrev pub cells : Pool (List (Option V)) V
  cells = record {
    new = [];
    vacant_key = λ p. some (length p);
    len = λ p. length (pairs 0 p);
    iter = pairs 0;
    get = λ p k. lookup k (pairs 0 p);
    modify = change 0;
    insert = λ p v. (p ++ some v ∷ [], some (length p));
    try_remove = take_out 0;
  }

  -- The keys of later cells are higher.
  later : (j i : ℕ) (p : List (Option V)) → j < i → Lacks j (pairs i p)
  later j i [] lt = tt
  later j i (none ∷ p) lt = later j (suc i) p (omega arith)
  later j i (some v ∷ p) lt = (ground arith, later j (suc i) p (omega arith))

  pairs-Distinct : (i : ℕ) (p : List (Option V)) → Distinct (pairs i p)
  pairs-Distinct i [] = tt
  pairs-Distinct i (none ∷ p) = pairs-Distinct (suc i) p
  pairs-Distinct i (some v ∷ p) = (later i (suc i) p (omega arith), pairs-Distinct (suc i) p)

  pairs-append :
      (i : ℕ) (p : List (Option V)) (v : V)
      → pairs i (p ++ some v ∷ []) ≡ pairs i p ++ (i + length p, v) ∷ []
  pairs-append i [] v = ap (λ k. (k, v) ∷ []) (omega arith)
  pairs-append i (none ∷ p) v =
      pairs-append (suc i) p v ∙ ap (λ k. pairs (suc i) p ++ (k, v) ∷ []) (omega arith)
  pairs-append i (some u ∷ p) v =
      ap (◌∷◌ (i, u))
        (pairs-append (suc i) p v ∙ ap (λ k. pairs (suc i) p ++ (k, v) ∷ []) (omega arith))

  -- The key of a cell is not in the later ones.
  first_key : (k i : ℕ) (p : List (Option V)) → (k == i) ≡ true → Lacks k (pairs (suc i) p)
  first_key k i p e = later k (suc i) p (ground arith)

  lookup-Lacks : (k : ℕ) (l : List (ℕ × V)) → Lacks k l → lookup k l ≡ none
  lookup-Lacks k [] h = refl
  lookup-Lacks k (e ∷ l) h = rw (h.0) (lookup-Lacks k l h.1)

  pairs-change :
      (i : ℕ) (p : List (Option V)) (k : ℕ) (f : V → V)
      → pairs i (change i p k f) ≡ adjust k f (pairs i p)
  pairs-change i [] k f = refl
  pairs-change i (none ∷ p) k f = elim (Bool-cases (k == i)) [
    | inl e ↦ rw (e) (sym (adjust-Lacks k f (pairs (suc i) p) (first_key k i p e)))
    | inr e ↦ rw (e) (pairs-change (suc i) p k f)
  ]
  pairs-change i (some v ∷ p) k f = elim (Bool-cases (k == i)) [
    | inl e ↦
        rw (e) (ap (◌∷◌ (i, f v)) (sym (adjust-Lacks k f (pairs (suc i) p) (first_key k i p e))))
    | inr e ↦ rw (e) (ap (◌∷◌ (i, v)) (pairs-change (suc i) p k f))
  ]

  pairs-take_out :
      (i : ℕ) (p : List (Option V)) (k : ℕ) → pairs i (take_out i p k).0 ≡ without k (pairs i p)
  pairs-take_out i [] k = refl
  pairs-take_out i (none ∷ p) k = elim (Bool-cases (k == i)) [
    | inl e ↦ rw (e) (sym (without-Lacks k (pairs (suc i) p) (first_key k i p e)))
    | inr e ↦ rw (e) (pairs-take_out (suc i) p k)
  ]
  pairs-take_out i (some v ∷ p) k = elim (Bool-cases (k == i)) [
    | inl e ↦ rw (e) (sym (without-Lacks k (pairs (suc i) p) (first_key k i p e)))
    | inr e ↦ rw (e) (ap (◌∷◌ (i, v)) (pairs-take_out (suc i) p k))
  ]

  lookup-take_out :
      (i : ℕ) (p : List (Option V)) (k : ℕ) → (take_out i p k).1 ≡ lookup k (pairs i p)
  lookup-take_out i [] k = refl
  lookup-take_out i (none ∷ p) k = elim (Bool-cases (k == i)) [
    | inl e ↦ rw (e) (sym (lookup-Lacks k (pairs (suc i) p) (first_key k i p e)))
    | inr e ↦ rw (e) (lookup-take_out (suc i) p k)
  ]
  lookup-take_out i (some v ∷ p) k = elim (Bool-cases (k == i)) [
    | inl e ↦ rw (e) (refl)
    | inr e ↦ rw (e) (lookup-take_out (suc i) p k)
  ]

  insert-cells :
      (p : List (Option V)) (v : V) (k : ℕ)
      → some (length p) ≡ some k
      → Inserted k v (pairs 0 p) (pairs 0 (p ++ some v ∷ []))
  insert-cells p v k e = record {
    before = pairs 0 p;
    after = [];
    old = sym (append-nil (pairs 0 p));
    new =
        pairs-append 0 p v
        ∙ ap (λ j. pairs 0 p ++ (j, v) ∷ []) (let n : length p ≡ k = cc in omega arith);
  }

  pub cells-IsPool : IsPool cells
  cells-IsPool = record {
    iter-new = refl;
    len-iter = λ p. refl;
    iter-Distinct = pairs-Distinct 0;
    get-iter = λ p k. refl;
    iter-modify = pairs-change 0;
    insert-ok = insert-cells;
    insert-err = λ p v e. absurd (let f : some (length p) ≡ none = e in cc);
    vacant_key-insert = λ p v. refl;
    try_remove-iter = pairs-take_out 0;
    try_remove-lookup = lookup-take_out 0;
  }
