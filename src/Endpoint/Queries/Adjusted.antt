-- ===== src/Endpoint/Queries/Adjusted.antt =====
-- A call about one of the queries changes that query, by what the call makes of it, and nothing else.
use hick.Prelude.{ℕ, ◌≡◌, refl, Option-cases, inl, inr}
use hick.Time.{Clock}
use hick.Cache.Lists.{adjust}
use hick.Cache.Backing.{Pool, IsPool}
use hick.Query.{Query, QueryUpdate}
use hick.Query.Run.{call}
use hick.Query.Collect.{CollectedAnswer}
use hick.Endpoint.Queries.{Queries, query_key, with_query}
use hick.Endpoint.Queries.Map.{
  HandleCall, transmit, outcome, time_out, ask, retire, event, duplicate, call_of, apply,
}

module _ {AN EV QS : Type 0} (pool : Pool QS (Query AN EV)) where
  pub data Adjusted (g : Query AN EV → Query AN EV) (s s' : Queries QS) : Type 0 where
    as_it_was :
        s'.next_query_handle ≡ s.next_query_handle
        → pool.iter s'.queries ≡ pool.iter s.queries
        → Adjusted g s s'
    at_key :
        (k : ℕ)
        → s'.next_query_handle ≡ s.next_query_handle
        → pool.iter s'.queries ≡ adjust k g (pool.iter s.queries)
        → Adjusted g s s'

module _ {AN EV QS : Type 0} (pool : Pool QS (Query AN EV)) (laws : IsPool pool) where
  with_query-Adjusted :
      {R : Type 0} (f : Query AN EV → Query AN EV × R) (missing : R) (s : Queries QS) (h : ℕ)
      → Adjusted pool (λ q. (f q).0) s (with_query pool f missing s h).0
  unfolding with_query query_key
  with_query-Adjusted f missing s h = elim (Option-cases (query_key pool s h)) [
    | inl nokey ↦ rw (with_query, nokey) (as_it_was refl refl)
    | inr (k, key) ↦ elim (Option-cases (pool.get s.queries k)) [
      | inl gone ↦ rw (with_query, key, gone) (as_it_was refl refl)
      | inr (q, got) ↦
          rw (with_query, key, got) (at_key k refl (laws.iter-modify s.queries k (λ q. (f q).0)))
    ]
  ]

  pub apply-Adjusted :
      (store : Pool AN CollectedAnswer) (queue : Pool EV QueryUpdate) (clock : Clock)
      (s : Queries QS) (h : ℕ) (c : HandleCall)
      → Adjusted pool
          (λ q. call clock store queue q (call_of c))
          s
          (apply pool store queue clock s h c)
  unfolding apply call
  apply-Adjusted store queue clock s h (transmit now buf) = with_query-Adjusted _ _ s h
  apply-Adjusted store queue clock s h (outcome now v4 v6) = with_query-Adjusted _ _ s h
  apply-Adjusted store queue clock s h (time_out now) = with_query-Adjusted _ _ s h
  apply-Adjusted store queue clock s h ask = with_query-Adjusted _ _ s h
  apply-Adjusted store queue clock s h retire = with_query-Adjusted _ _ s h
  apply-Adjusted store queue clock s h (event e now) = with_query-Adjusted _ _ s h
  apply-Adjusted store queue clock s h (duplicate now) = with_query-Adjusted _ _ s h
