-- ===== src/Endpoint/Queries/Removal.antt =====
-- How an endpoint gives queries up: `cancel_query` and `sweep_terminated_queries`.

use mathlib.Core.Path.{subst}
use hick.Prelude.{
  ℕ, ◌+◌, ◌≡◌, refl, sym, ◌∙◌, ap, arith, Bool, true, false, not, List, [], ◌∷◌, none, some, length,
  All, Bool-cases, Option-cases, inl, inr, if◌then◌else◌, ◌==◌,
}
use hick.Cache.Lists.{Lacks, Distinct, without, keep, keys_where, first_key}
use hick.Cache.Lists.Pruned.{pruned, pruned-keys_where, without-head}
use hick.Cache.Backing.{Pool, IsPool}
use hick.Query.{Query}
use hick.Endpoint.Queries.{Queries, query_key, remove_each, sweep_terminated_queries, cancel_query}
use hick.Endpoint.Queries.Laws.{by_handle, find}

module _ {V : Type 0} (test : V → Bool) where
  first_key-apart :
      (j k : ℕ) (l : List (ℕ × V)) → Lacks j l → first_key test l ≡ some k → (k == j) ≡ false
  first_key-apart j k [] lacks e = cc
  first_key-apart j k (e ∷ l) lacks first = elim (Bool-cases (test e.1)) [
    | inl is ↦
        let here : first_key test (e ∷ l) ≡ some e.0 = rw (is) refl in
        let same : e.0 ≡ k = cc in ground (arith, same, lacks.0)
    | inr isnt ↦
        let behind : first_key test (e ∷ l) ≡ first_key test l = rw (isnt) refl in
        first_key-apart j k l lacks.1 (sym behind ∙ first)
  ]

  length-keep :
      (l : List (ℕ × V))
      → length (keys_where test l) + length (keep (λ e. not (test e)) l) ≡ length l
  length-keep [] = refl
  length-keep (e ∷ l) = ground (arith, length-keep l)

module _ {AN EV : Type 0} where
  -- No two queries have the same handle.
  abbrev pub Unique : List (ℕ × Query AN EV) → Type 0
  Unique [] = Unit {0}
  Unique (e ∷ l) = All (λ e'. (e'.1.handle == e.1.handle) ≡ false) l × Unique l

  by_handle-Unique :
      (h : ℕ) (l : List (ℕ × Query AN EV))
      → All (λ e. (e.1.handle == h) ≡ false) l
      → by_handle h l ≡ none
  unfolding by_handle
  by_handle-Unique h [] a = refl
  by_handle-Unique h (e ∷ l) a = rw (a.0) (by_handle-Unique h l a.1)

  -- What is left where the query of a handle is taken away.
  by_handle-without :
      (h k h' : ℕ) (l : List (ℕ × Query AN EV))
      → Distinct l
      → Unique l
      → first_key (λ q. q.handle == h) l ≡ some k
      → by_handle h' (without k l) ≡ (if h' == h then none else by_handle h' l)
  unfolding by_handle
  by_handle-without h k h' [] d u e = cc
  by_handle-without h k h' (e ∷ l) d u first = elim (Bool-cases (e.1.handle == h)) [
    | inl is ↦
        let here : first_key (λ (q : Query AN EV). q.handle == h) (e ∷ l) ≡ some e.0 =
          rw (is) refl in
        let same : e.0 ≡ k = cc in
        let left : without k (e ∷ l) ≡ l =
          subst (λ j. without j (e ∷ l) ≡ l) same (without-head e l d.0) in
        let gone = by_handle-Unique e.1.handle l u.0 in
        let handle : e.1.handle ≡ h = ground arith in
        ap (by_handle h') left ∙ elim (Bool-cases (h' == h)) [
          | inl p ↦
              let asked : e.1.handle ≡ h' = ground arith in
              rw (p) (subst (λ j. by_handle j l ≡ none) asked gone)
          | inr p ↦ let other : (e.1.handle == h') ≡ false = ground arith in rw (p, other) refl
        ]
    | inr isnt ↦
        let behind : first_key (λ (q : Query AN EV). q.handle == h) (e ∷ l)
            ≡ first_key (λ q. q.handle == h) l =
          rw (isnt) refl in
        let there = sym behind ∙ first in
        let apart = first_key-apart (λ (q : Query AN EV). q.handle == h) e.0 k l d.0 there in
        let ih = by_handle-without h k h' l d.1 u.1 there in rw (apart) (ground (arith, ih))
  ]

  key_missing :
      (h : ℕ) (l : List (ℕ × Query AN EV))
      → first_key (λ q. q.handle == h) l ≡ none
      → by_handle h l ≡ none
  unfolding by_handle
  key_missing h [] none_there = refl
  key_missing h (e ∷ l) none_there = elim (Bool-cases (e.1.handle == h)) [
    | inl is ↦
        let here : first_key (λ (q : Query AN EV). q.handle == h) (e ∷ l) ≡ some e.0 =
          rw (is) refl in
        cc
    | inr isnt ↦
        let behind : first_key (λ (q : Query AN EV). q.handle == h) (e ∷ l)
            ≡ first_key (λ q. q.handle == h) l =
          rw (isnt) refl in
        rw (isnt) (key_missing h l (sym behind ∙ none_there))
  ]

  key_found :
      (h k : ℕ) (l : List (ℕ × Query AN EV))
      → first_key (λ q. q.handle == h) l ≡ some k
      → elim (by_handle h l) [ none ↦ false | some _ ↦ true ] ≡ true
  unfolding by_handle
  key_found h k [] first = cc
  key_found h k (e ∷ l) first = elim (Bool-cases (e.1.handle == h)) [
    | inl is ↦ rw (is) refl
    | inr isnt ↦
        let behind : first_key (λ (q : Query AN EV). q.handle == h) (e ∷ l)
            ≡ first_key (λ q. q.handle == h) l =
          rw (isnt) refl in
        rw (isnt) (key_found h k l (sym behind ∙ first))
  ]

module _ {AN EV QS : Type 0} (pool : Pool QS (Query AN EV)) (laws : IsPool pool) where
  iter-remove_each :
      (ks : List ℕ) (queries : QS)
      → pool.iter (remove_each pool ks queries) ≡ pruned ks (pool.iter queries)
  unfolding remove_each pruned
  iter-remove_each [] queries = refl
  iter-remove_each (k ∷ ks) queries =
      iter-remove_each ks (pool.try_remove queries k).0
      ∙ ap (pruned ks) (laws.try_remove-iter queries k)

  -- A sweep takes away exactly the queries whose end the caller was told, answers how many these are,
  -- and leaves the counters.
  pub sweep-keep :
      (s : Queries QS)
      → let (s', count) = sweep_terminated_queries pool s in
        (pool.iter s'.queries ≡ keep (λ q. not q.terminal_emitted) (pool.iter s.queries))
        × (count + length (pool.iter s'.queries) ≡ length (pool.iter s.queries))
        × (s'.next_query_handle ≡ s.next_query_handle)
        × (s'.next_txid ≡ s.next_txid)
  unfolding sweep_terminated_queries
  sweep-keep s =
      let test : Query AN EV → Bool = λ q. q.terminal_emitted in
      let l = pool.iter s.queries in
      let left =
        iter-remove_each (keys_where test l) s.queries
        ∙ pruned-keys_where test l (laws.iter-Distinct s.queries) in
      (
        left,
        ap (λ l'. length (keys_where test l) + length l') left ∙ length-keep test l,
        refl,
        refl,
      )

  -- Where no two queries have the same handle, a cancellation takes the query of its handle away and
  -- no other, and answers whether there was one.
  pub cancel_query-find :
      (s : Queries QS) (h h' : ℕ)
      → Unique (pool.iter s.queries)
      → let (s', found) = cancel_query pool s h in
        (found ≡ elim (find pool s h) [ none ↦ false | some _ ↦ true ])
        × (find pool s' h' ≡ (if h' == h then none else find pool s h'))
  unfolding cancel_query query_key
  cancel_query-find s h h' unique =
      let l = pool.iter s.queries in
      elim (Option-cases (first_key (λ (q : Query AN EV). q.handle == h) l)) [
        | inl nokey ↦
            let nothing = key_missing h l nokey in
            rw (cancel_query, query_key, nokey, nothing)
              (
                refl,
                elim (Bool-cases (h' == h)) [
                  | inl p ↦ let e : h' ≡ h = ground arith in rw (p, e) nothing
                  | inr p ↦ rw (p) refl
                ],
              )
        | inr (k, key) ↦
            rw (cancel_query, query_key, key)
              (
                sym (key_found h k l key),
                ap (by_handle h') (laws.try_remove-iter s.queries k)
                    ∙ by_handle-without h k h' l (laws.iter-Distinct s.queries) unique key,
              )
      ]
