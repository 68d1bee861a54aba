-- ===== src/Endpoint/Queries/Deeds.antt =====
-- The handles of an endpoint's queries, in whatever order it starts, calls and gives up queries.
use mathlib.Core.Path.{subst}
use hick.Prelude.{
  ℕ, ◌+◌, ◌<◌, ◌≡◌, refl, sym, arith, Bool, not, List, [], ◌∷◌, Option-cases, inl, inr,
}
use hick.Time.{Clock}
use hick.Cache.Backing.{Pool, IsPool}
use hick.Query.{Query, QueryUpdate}
use hick.Query.Run.{call}
use hick.Query.Collect.{CollectedAnswer}
use hick.Endpoint.Queries.{
  Queries, QuerySpec, query_key, query_of, try_start_query, cancel_query, sweep_terminated_queries,
}
use hick.Endpoint.Queries.Map.{HandleCall, call_of, apply, call-KeepsHandle}
use hick.Endpoint.Queries.Adjusted.{as_it_was, at_key, apply-Adjusted}
use hick.Endpoint.Queries.Start.{Below, query_of-handle, try_start_query-Starts}
use hick.Endpoint.Queries.Removal.{Unique, sweep-keep}
use hick.Endpoint.Queries.Numbered.{
  IsNumbered, All-without, All-keep, All-adjust, by_handle_keeps, Unique-adjust, Unique-without,
  Unique-keep, Unique-placed,
}

-- What happens to the queries of an endpoint.
pub data Deed : Type 0 where
  start : QuerySpec → ℕ → Deed
  about : ℕ → HandleCall → Deed
  cancel : ℕ → Deed
  sweep : Deed

-- How many queries were to be started.
unfoldable pub starts : List Deed → ℕ
starts [] = 0
starts (start spec now ∷ ds) = starts ds + 1
starts (about h c ∷ ds) = starts ds
starts (cancel h ∷ ds) = starts ds
starts (sweep ∷ ds) = starts ds

module _ {AN EV QS : Type 0} (pool : Pool QS (Query AN EV)) (store : Pool AN CollectedAnswer)
    (queue : Pool EV QueryUpdate) (clock : Clock) where
  unfoldable pub deed : Queries QS → Deed → Queries QS
  unfolding apply try_start_query cancel_query sweep_terminated_queries
  deed s (start spec now) = (try_start_query pool queue store clock s spec now).0
  deed s (about h c) = apply pool store queue clock s h c
  deed s (cancel h) = (cancel_query pool s h).0
  deed s sweep = (sweep_terminated_queries pool s).0

  unfoldable pub deeds : Queries QS → List Deed → Queries QS
  unfolding deed
  deeds s [] = s
  deeds s (d ∷ ds) = deeds (deed s d) ds

module _ {AN EV QS : Type 0} (pool : Pool QS (Query AN EV)) (laws : IsPool pool) where
  cancel_query-Numbered :
      (s : Queries QS) (h : ℕ)
      → IsNumbered s.next_query_handle (pool.iter s.queries)
      → let s' = (cancel_query pool s h).0 in
        (s'.next_query_handle ≡ s.next_query_handle)
        × IsNumbered s.next_query_handle (pool.iter s'.queries)
  unfolding cancel_query
  cancel_query-Numbered s h numbered = elim (Option-cases (query_key pool s h)) [
    | inl nokey ↦ rw (cancel_query, nokey) (refl, numbered)
    | inr (k, key) ↦
        let l = pool.iter s.queries in
        rw (cancel_query, key, laws.try_remove-iter s.queries k)
          (refl, (All-without _ k l numbered.0, Unique-without k l numbered.1))
  ]

module _ {AN EV QS : Type 0} (pool : Pool QS (Query AN EV)) (laws : IsPool pool)
    (store : Pool AN CollectedAnswer) (queue : Pool EV QueryUpdate) (clock : Clock) where
  try_start_query-Unique :
      (s : Queries QS) (spec : QuerySpec) (now : ℕ)
      → IsNumbered s.next_query_handle (pool.iter s.queries)
      → Unique (pool.iter (try_start_query pool queue store clock s spec now).0.queries)
  unfolding try_start_query
  try_start_query-Unique s spec now numbered =
      let q = query_of pool queue store clock s spec now in
      let named = query_of-handle pool laws store queue clock s spec now in
      elim (Option-cases (pool.insert s.queries q).1) [
        | inl e ↦ subst Unique (sym (laws.insert-err s.queries q e)) numbered.1
        | inr (k, e) ↦
            let i = laws.insert-ok s.queries q k e in
            let below = subst (λ n. Below n (pool.iter s.queries)) (sym named) numbered.0 in
            subst Unique (sym i.new) (
              Unique-placed k q i.before i.after (subst (Below q.handle) i.old below)
                (subst Unique i.old numbered.1))
      ]

  apply-Numbered :
      (s : Queries QS) (h : ℕ) (c : HandleCall)
      → IsNumbered s.next_query_handle (pool.iter s.queries)
      → let s' = apply pool store queue clock s h c in
        (s'.next_query_handle ≡ s.next_query_handle)
        × IsNumbered s.next_query_handle (pool.iter s'.queries)
  apply-Numbered s h c (below, unique) =
      let n = s.next_query_handle in
      let g : Query AN EV → Query AN EV = λ q. call clock store queue q (call_of c) in
      let keeps = call-KeepsHandle pool laws store queue clock c in
      elim (apply-Adjusted pool laws store queue clock s h c) [
        | as_it_was next same ↦ (next, subst (IsNumbered n) (sym same) (below, unique))
        | at_key k next there ↦
            let l = pool.iter s.queries in
            (
              next,
              subst (IsNumbered n) (sym there) (
                All-adjust (λ q. q.handle < n) k g l (by_handle_keeps (λ h. h < n) g keeps) below,
                Unique-adjust k g l keeps unique,
              ),
            )
      ]

  deed-Numbered :
      (s : Queries QS) (d : Deed)
      → s.next_query_handle + starts (d ∷ []) < 0x100000000
      → IsNumbered s.next_query_handle (pool.iter s.queries)
      → let s' = deed pool store queue clock s d in
        (s'.next_query_handle ≡ s.next_query_handle + starts (d ∷ []))
        × IsNumbered s'.next_query_handle (pool.iter s'.queries)
  unfolding deed starts try_start_query sweep_terminated_queries
  deed-Numbered s (start spec now) room numbered = (
    omega arith,
    (
      (try_start_query-Starts pool laws store queue clock s spec now (omega arith) numbered.0).1,
      try_start_query-Unique s spec now numbered,
    ),
  )
  deed-Numbered s (about h c) room numbered =
      let (same, kept) = apply-Numbered s h c numbered in
      (
        omega arith,
        subst (λ n. IsNumbered n (pool.iter (apply pool store queue clock s h c).queries))
            (sym same) kept,
      )
  deed-Numbered s (cancel h) room numbered =
      let (same, kept) = cancel_query-Numbered pool laws s h numbered in
      (
        omega arith,
        subst (λ n. IsNumbered n (pool.iter (cancel_query pool s h).0.queries)) (sym same) kept,
      )
  deed-Numbered s sweep room numbered =
      let test : Query AN EV → Bool = λ q. not q.terminal_emitted in
      let l = pool.iter s.queries in
      (
        omega arith,
        subst (IsNumbered s.next_query_handle) (sym (sweep-keep pool laws s).0)
            (All-keep _ test l numbered.0, Unique-keep test l numbered.1),
      )

  starts_cons : (d : Deed) (ds : List Deed) → starts (d ∷ ds) ≡ starts (d ∷ []) + starts ds
  unfolding starts
  starts_cons (start spec now) ds = omega arith
  starts_cons (about h c) ds = omega arith
  starts_cons (cancel h) ds = omega arith
  starts_cons sweep ds = omega arith

  -- In whatever order queries are started, called, reached by datagrams, cancelled and swept, no two of an
  -- endpoint have the same handle and all handles are below the next one, as long as they were so before and the starts
  -- do not take the counter of 32 bits to its end.
  pub deeds-IsNumbered :
      (ds : List Deed) (s : Queries QS)
      → s.next_query_handle + starts ds < 0x100000000
      → IsNumbered s.next_query_handle (pool.iter s.queries)
      → let s' = deeds pool store queue clock s ds in
        IsNumbered s'.next_query_handle (pool.iter s'.queries)
  unfolding deeds
  deeds-IsNumbered [] s room numbered = numbered
  deeds-IsNumbered (d ∷ ds) s room numbered =
      let one = starts_cons d ds in
      let (next, step) = deed-Numbered s d (omega (arith, one)) numbered in
      deeds-IsNumbered ds (deed pool store queue clock s d) (omega (arith, one, next)) step
