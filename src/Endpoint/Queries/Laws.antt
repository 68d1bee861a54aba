-- ===== src/Endpoint/Queries/Laws.antt =====
-- An endpoint is a map from handles to queries.
use mathlib.Core.Option
use hick.Prelude.{
  ℕ, ◌≡◌, refl, ◌∙◌, ap, arith, true, false, List, [], ◌∷◌, Option, none, some, Bool-cases, inl,
  inr, if◌then◌else◌, ◌==◌,
}
use hick.Cache.Lists.{Lacks, Distinct, lookup, adjust, first_key, adjust-head}
use hick.Cache.Backing.{Pool, IsPool}
use hick.Query.{Query}
use hick.Endpoint.Queries.{Queries, query_key, with_query}

module _ {AN EV : Type 0} where
  -- The first query of a handle.
  unfoldable pub by_handle : ℕ → List (ℕ × Query AN EV) → Option (Query AN EV)
  by_handle h [] = none
  by_handle h (e ∷ l) = if e.1.handle == h then some e.1 else by_handle h l

  abbrev pub KeepsHandle : (Query AN EV → Query AN EV) → Type 0
  KeepsHandle g = (q : Query AN EV) → (g q).handle ≡ q.handle

  -- What the search for a handle finds.
  data Search (h : ℕ) (l : List (ℕ × Query AN EV)) (key : Option ℕ) : Type 0 where
    missing : key ≡ none → by_handle h l ≡ none → Search h l key
    found :
        (k : ℕ) (q : Query AN EV)
        → key ≡ some k
        → by_handle h l ≡ some q
        → lookup k l ≡ some q
        → ((j : ℕ) → Lacks j l → (k == j) ≡ false)
        → ((g : Query AN EV → Query AN EV) (h' : ℕ)
            → KeepsHandle g
            → by_handle h' (adjust k g l) ≡ (if h' == h then some (g q) else by_handle h' l))
        → Search h l key

  front :
      (h : ℕ) (e : ℕ × Query AN EV) (l : List (ℕ × Query AN EV)) (g : Query AN EV → Query AN EV)
      (h' : ℕ)
      → (e.1.handle == h) ≡ true
      → Lacks e.0 l
      → KeepsHandle g
      → by_handle h' (adjust e.0 g (e ∷ l))
        ≡ (if h' == h then some (g e.1) else by_handle h' (e ∷ l))
  unfolding by_handle
  front h e l g h' is lacks keeps =
      ap (by_handle h') (adjust-head e g l lacks) ∙ ground (arith, keeps e.1)

  behind :
      (h : ℕ) (e : ℕ × Query AN EV) (l : List (ℕ × Query AN EV)) (k : ℕ) (q : Query AN EV)
      (g : Query AN EV → Query AN EV) (h' : ℕ)
      → (e.1.handle == h) ≡ false
      → (k == e.0) ≡ false
      → by_handle h' (adjust k g l) ≡ (if h' == h then some (g q) else by_handle h' l)
      → by_handle h' (adjust k g (e ∷ l)) ≡ (if h' == h then some (g q) else by_handle h' (e ∷ l))
  unfolding by_handle
  behind h e l k q g h' isnt apart ih = rw (apart) (ground (arith, ih))

  query_key-Search :
      (h : ℕ) (l : List (ℕ × Query AN EV))
      → Distinct l
      → Search h l (first_key (λ q. q.handle == h) l)
  unfolding by_handle
  query_key-Search h [] d = missing refl refl
  query_key-Search h (e ∷ l) d = elim (Bool-cases (e.1.handle == h)) [
    | inl is ↦
        let self : (e.0 == e.0) ≡ true = ground arith in
        found e.0 e.1 (rw (is) refl) (rw (is) refl) (rw (self) refl)
          (λ j lacks. ground (arith, lacks.0)) (λ g h' keeps. front h e l g h' is d.0 keeps)
    | inr isnt ↦ elim (query_key-Search h l d.1) [
      | missing nokey nothing ↦ missing (rw (isnt) nokey) (rw (isnt) nothing)
      | found k q key first there apart change ↦
          found k q (rw (isnt) key) (rw (isnt) first) (rw (apart e.0 d.0) there)
            (λ j lacks. apart j lacks.1)
            (λ g h' keeps. behind h e l k q g h' isnt (apart e.0 d.0) (change g h' keeps))
    ]
  ]

module _ {AN EV QS : Type 0} (pool : Pool QS (Query AN EV)) where
  -- The query of a handle.
  abbrev pub find : Queries QS → ℕ → Option (Query AN EV)
  find s h = by_handle h (pool.iter s.queries)

module _ {AN EV QS : Type 0} (pool : Pool QS (Query AN EV)) (laws : IsPool pool) where
  -- A function on the query of a handle answers what it answers of that query, and changes that query
  -- alone.
  pub with_query-find :
      {R : Type 0} (f : Query AN EV → Query AN EV × R) (otherwise : R) (s : Queries QS) (h h' : ℕ)
      → KeepsHandle (λ q. (f q).0)
      → let (s', r) = with_query pool f otherwise s h in
        (r ≡ elim (find pool s h) [ none ↦ otherwise | some q ↦ (f q).1 ])
        × (find pool s' h'
            ≡ (if h' == h then Option.map (λ q. (f q).0) (find pool s h) else find pool s h'))
  unfolding with_query query_key
  with_query-find f otherwise s h h' keeps =
      let l = pool.iter s.queries in
      elim (query_key-Search h l (laws.iter-Distinct s.queries)) [
        | missing nokey nothing ↦
            rw (with_query, query_key, nokey, nothing)
              (
                refl,
                elim (Bool-cases (h' == h)) [
                  | inl same ↦ let e : h' ≡ h = ground arith in rw (same, e) nothing
                  | inr other ↦ rw (other) refl
                ],
              )
        | found k q key first there apart change ↦
            let got : pool.get s.queries k ≡ some q = laws.get-iter s.queries k ∙ there in
            rw (with_query, query_key, key, got, first, laws.iter-modify s.queries k (λ q. (f q).0))
              (refl, change (λ q. (f q).0) h' keeps)
      ]
