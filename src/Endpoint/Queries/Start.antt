-- ===== src/Endpoint/Queries/Start.antt =====
-- How an endpoint starts a query and gives it up.
use mathlib.Core.Path.{subst}
use hick.Prelude.{
  ℕ, suc, ◌+◌, ◌<◌, ◌≡◌, refl, sym, ◌∙◌, ap, arith, List, [], ◌∷◌, ◌++◌, Option, none, some,
  Option-cases, inl, inr, if◌then◌else◌, ◌==◌, All,
}
use hick.Time.{Clock}
use hick.Cache.Backing.{Pool, IsPool}
use hick.Query.{Query, QueryUpdate, with_max_answers, saturating_add_u32}
use hick.Query.Collect.{CollectedAnswer, new_query}
use hick.Endpoint.Queries.{Queries, QuerySpec, query_of, try_start_query, following_txid}
use hick.Endpoint.Queries.Laws.{by_handle, find}

module _ {AN EV : Type 0} where
  -- The handles of the queries are below a number.
  abbrev pub Below : ℕ → List (ℕ × Query AN EV) → Type 0
  Below n = All (λ e. e.1.handle < n)

  Below-later : (n : ℕ) (l : List (ℕ × Query AN EV)) → Below n l → Below (suc n) l
  Below-later n [] h = tt
  Below-later n (e ∷ l) h = (omega (arith, h.0), Below-later n l h.1)

  by_handle-Below : (n : ℕ) (l : List (ℕ × Query AN EV)) → Below n l → by_handle n l ≡ none
  unfolding by_handle
  by_handle-Below n [] h = refl
  by_handle-Below n (e ∷ l) h = ground (arith, h.0, by_handle-Below n l h.1)

  -- Wherever the pool puts a query with a new handle, it is found.
  by_handle-insert :
      (k : ℕ) (q : Query AN EV) (l l' : List (ℕ × Query AN EV)) (h : ℕ)
      → Below q.handle (l ++ l')
      → by_handle h (l ++ (k, q) ∷ l') ≡ (if h == q.handle then some q else by_handle h (l ++ l'))
  unfolding by_handle
  by_handle-insert k q [] l' h b = ground arith
  by_handle-insert k q (e ∷ l) l' h b = ground (arith, b.0, by_handle-insert k q l l' h b.1)

  placed :
      (n k : ℕ) (q : Query AN EV) (l l' : List (ℕ × Query AN EV))
      → q.handle < n
      → Below n (l ++ l')
      → Below n (l ++ (k, q) ∷ l')
  placed n k q [] l' lt b = (lt, b)
  placed n k q (e ∷ l) l' lt b = (b.0, placed n k q l l' lt b.1)

module _ {AN EV QS : Type 0} (pool : Pool QS (Query AN EV)) where
  -- What a start makes of the endpoint.
  abbrev pub Starts : Queries QS → Query AN EV → Queries QS → Option ℕ → Type 0
  Starts s q s' none = (h : ℕ) → find pool s' h ≡ find pool s h
  Starts s q s' (some n) =
      (n ≡ s.next_query_handle)
      × (find pool s n ≡ none)
      × ((h : ℕ) → find pool s' h ≡ (if h == n then some q else find pool s h))

module _ {AN EV QS : Type 0} (pool : Pool QS (Query AN EV)) (laws : IsPool pool)
    (store : Pool AN CollectedAnswer) (queue : Pool EV QueryUpdate) (clock : Clock) where
  pub query_of-handle :
      (s : Queries QS) (spec : QuerySpec) (now : ℕ)
      → (query_of pool queue store clock s spec now).handle ≡ s.next_query_handle
  unfolding query_of new_query with_max_answers
  query_of-handle s spec now = ground arith

  pub try_start_query-Starts :
      (s : Queries QS) (spec : QuerySpec) (now : ℕ)
      → s.next_query_handle < 4294967295
      → Below s.next_query_handle (pool.iter s.queries)
      → let (s', started) = try_start_query pool queue store clock s spec now in
        Starts pool s (query_of pool queue store clock s spec now) s' started
        × Below s'.next_query_handle (pool.iter s'.queries)
        × (s'.next_query_handle ≡ s.next_query_handle + 1)
        × (s'.next_txid ≡ following_txid s.next_txid)
  unfolding try_start_query
  try_start_query-Starts s spec now room below =
      let q = query_of pool queue store clock s spec now in
      let n = s.next_query_handle in
      let named = query_of-handle s spec now in
      let more : saturating_add_u32 n 1 ≡ suc n = omega arith in
      let fits : (l : List (ℕ × Query AN EV)) → Below (suc n) l → Below (saturating_add_u32 n 1) l =
        λ l b. subst (λ m. Below m l) (sym more) b in
      elim (Option-cases (pool.insert s.queries q).1) [
        | inl e ↦
            let same = laws.insert-err s.queries q e in
            rw (e) (
              λ h. ap (by_handle h) same,
              fits (pool.iter (pool.insert s.queries q).0)
                  (subst (Below (suc n)) (sym same) (Below-later n (pool.iter s.queries) below)),
              omega arith,
              refl,
            )
        | inr (k, e) ↦
            let i = laws.insert-ok s.queries q k e in
            let old : Below n (i.before ++ i.after) = subst (Below n) i.old below in
            let old' : Below q.handle (i.before ++ i.after) =
              subst (λ m. Below m (i.before ++ i.after)) (sym named) old in
            let there : (h : ℕ)
                → find pool (record s { queries = (pool.insert s.queries q).0 }) h
                  ≡ (if h == n then some q else find pool s h) =
              λ h.
                ap (by_handle h) i.new
                ∙ by_handle-insert k q i.before i.after h old'
                ∙ ap (λ m. if h == m then some q else by_handle h (i.before ++ i.after)) named
                ∙ ap (λ l. if h == n then some q else by_handle h l) (sym i.old) in
            rw (e) (
              (refl, by_handle-Below n (pool.iter s.queries) below, there),
              fits (pool.iter (pool.insert s.queries q).0) (
                  subst (Below (suc n)) (sym i.new) (
                    placed (suc n) k q i.before i.after (omega (arith, named))
                      (Below-later n (i.before ++ i.after) old))),
              omega arith,
              refl,
            )
      ]
