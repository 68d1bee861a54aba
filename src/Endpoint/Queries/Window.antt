-- ===== src/Endpoint/Queries/Window.antt =====
-- `QuerySpec::with_timeout` of mdns-proto/src/config.rs: when an endpoint asks no more.
use hick.Prelude.{
  ℕ, ◌+◌, ◌≤◌, ◌<◌, ◌≡◌, refl, sym, ◌∙◌, ap, arith, not, List, [], ◌∷◌, ◌++◌, Option, none, some,
  Option-cases, Bool-cases, inl, inr, ok, Result, All, ◌==◌,
}
use mathlib.Core.Path.{subst}
use hick.Time.{Clock, IsClock}
use hick.Transmit.{Transmit}
use hick.Cache.Backing.{Pool, IsPool}
use hick.Query.{Query, QueryUpdate, with_max_answers}
use hick.Query.Sending
use hick.Query.Sending.{TransmitError}
use hick.Query.Collect.{CollectedAnswer, new_query}
use hick.Query.Run.{call}
use hick.Query.Window.{Windowed, call-Windowed, shut, poll_transmit-shut}
use hick.Endpoint.Queries.{
  Queries, QuerySpec, timeout_of, query_key, poll_query_transmit, query_of, try_start_query,
  cancel_query, sweep_terminated_queries,
}
use hick.Endpoint.Queries.Laws.{by_handle, find, with_query-find}
use hick.Endpoint.Queries.Map.{HandleCall, transmit, call_of, apply, call-KeepsHandle}
use hick.Endpoint.Queries.Adjusted.{as_it_was, at_key, apply-Adjusted}
use hick.Endpoint.Queries.Numbered.{All-without, All-keep, All-adjust}
use hick.Endpoint.Queries.Removal.{sweep-keep}
use hick.Endpoint.Queries.Deeds.{Deed, start, about, cancel, sweep, deed, deeds}
use hick.Endpoint.Queries.Start.{Below, Starts, query_of-handle, try_start_query-Starts}

module _ {AN EV QS : Type 0} (pool : Pool QS (Query AN EV)) (laws : IsPool pool)
    (store : Pool AN CollectedAnswer) (queue : Pool EV QueryUpdate) (clock : Clock) where
  query_of-window :
      (s : Queries QS) (spec : QuerySpec) (now : ℕ)
      → (query_of pool queue store clock s spec now).timeout_deadline
        ≡ timeout_of clock now spec.timeout
  unfolding query_of new_query with_max_answers
  query_of-window s spec now = elim (Option-cases spec.max_answers) [
    | inl e ↦ rw (query_of, e) refl
    | inr (m, e) ↦ rw (query_of, e) refl
  ]

  -- The window of the query of `n`, if there is one, ends at `d`.
  abbrev Closes : ℕ → ℕ → List (ℕ × Query AN EV) → Type 0
  Closes n d = All (λ e. e.1.handle ≡ n → Windowed d e.1)

  Closes-placed :
      (n d k : ℕ) (q : Query AN EV) (l l' : List (ℕ × Query AN EV))
      → (q.handle ≡ n → Windowed d q)
      → Closes n d (l ++ l')
      → Closes n d (l ++ (k, q) ∷ l')
  Closes-placed n d k q [] l' is old = (is, old)
  Closes-placed n d k q (e ∷ l) l' is old = (old.0, Closes-placed n d k q l l' is old.1)

  -- Handles below `n` are not `n`.
  Closes-Below : (n d : ℕ) (l : List (ℕ × Query AN EV)) → Below n l → Closes n d l
  Closes-Below n d [] b = tt
  Closes-Below n d (e ∷ l) b =
      (λ is. absurd (let lt = b.0 in omega (arith, is, lt)), Closes-Below n d l b.1)

  -- A start keeps the windows, as long as its own query has that window or another handle.
  started-Closes :
      (s : Queries QS) (spec : QuerySpec) (now n d : ℕ)
      → (s.next_query_handle ≡ n → Windowed d (query_of pool queue store clock s spec now))
      → Closes n d (pool.iter s.queries)
      → Closes n d (pool.iter (try_start_query pool queue store clock s spec now).0.queries)
  unfolding try_start_query
  started-Closes s spec now n d is old =
      let q = query_of pool queue store clock s spec now in
      let named = query_of-handle pool laws store queue clock s spec now in
      elim (Option-cases (pool.insert s.queries q).1) [
        | inl e ↦ subst (Closes n d) (sym (laws.insert-err s.queries q e)) old
        | inr (k, e) ↦
            let i = laws.insert-ok s.queries q k e in
            subst (Closes n d) (sym i.new) (
              Closes-placed n d k q i.before i.after (λ h. is (sym named ∙ h))
                (subst (Closes n d) i.old old))
      ]

  apply-Closes :
      (s : Queries QS) (h : ℕ) (c : HandleCall) (n d : ℕ)
      → n < s.next_query_handle
      → Closes n d (pool.iter s.queries)
      → let s' = apply pool store queue clock s h c in
        (n < s'.next_query_handle) × Closes n d (pool.iter s'.queries)
  apply-Closes s h c n d given old =
      let g : Query AN EV → Query AN EV = λ q. call clock store queue q (call_of c) in
      let keeps = call-KeepsHandle pool laws store queue clock c in
      elim (apply-Adjusted pool laws store queue clock s h c) [
        | as_it_was next same ↦ (omega (arith, next), subst (Closes n d) (sym same) old)
        | at_key k next there ↦ (
          omega (arith, next),
          subst (Closes n d) (sym there) (
              All-adjust (λ q. q.handle ≡ n → Windowed d q) k g (pool.iter s.queries)
                (λ q w is. call-Windowed clock store queue d q (call_of c) (w (sym (keeps q) ∙ is)))
                old),
        )
      ]

  deed-Closes :
      (s : Queries QS) (x : Deed) (n d : ℕ)
      → n < s.next_query_handle
      → n < 4294967295
      → Closes n d (pool.iter s.queries)
      → let s' = deed pool store queue clock s x in
        (n < s'.next_query_handle) × Closes n d (pool.iter s'.queries)
  unfolding deed try_start_query cancel_query sweep_terminated_queries
  deed-Closes s (start spec now) n d given room old =
      (omega arith, started-Closes s spec now n d (λ is. absurd (omega (arith, is))) old)
  deed-Closes s (about h c) n d given room old = apply-Closes s h c n d given old
  deed-Closes s (cancel h) n d given room old = elim (Option-cases (query_key pool s h)) [
    | inl nokey ↦ rw (deed, cancel_query, nokey) (given, old)
    | inr (k, key) ↦
        rw (deed, cancel_query, key, laws.try_remove-iter s.queries k)
          (given, All-without _ k (pool.iter s.queries) old)
  ]
  deed-Closes s sweep n d given room old = (
    given,
    subst (Closes n d) (sym (sweep-keep pool laws s).0)
        (All-keep _ (λ q. not q.terminal_emitted) (pool.iter s.queries) old),
  )

  deeds-Closes :
      (xs : List Deed) (s : Queries QS) (n d : ℕ)
      → n < s.next_query_handle
      → n < 4294967295
      → Closes n d (pool.iter s.queries)
      → Closes n d (pool.iter (deeds pool store queue clock s xs).queries)
  unfolding deeds
  deeds-Closes [] s n d given room old = old
  deeds-Closes (x ∷ xs) s n d given room old =
      let (given', new) = deed-Closes s x n d given room old in
      deeds-Closes xs (deed pool store queue clock s x) n d given' room new

  found-Windowed :
      (n d : ℕ) (l : List (ℕ × Query AN EV)) (q : Query AN EV)
      → Closes n d l
      → by_handle n l ≡ some q
      → Windowed d q
  unfolding by_handle
  found-Windowed n d [] q closes e = cc
  found-Windowed n d (x ∷ l) q closes e = elim (Bool-cases (x.1.handle == n)) [
    | inl is ↦
        let here : by_handle n (x ∷ l) ≡ some x.1 = rw (is) refl in
        let same : x.1 ≡ q = cc in
        subst (Windowed d) same (closes.0 (let h : x.1.handle ≡ n = ground arith in h))
    | inr isnt ↦
        let behind : by_handle n (x ∷ l) ≡ by_handle n l = rw (isnt) refl in
        found-Windowed n d l q closes.1 (sym behind ∙ e)
  ]

  -- What the turn of a handle answers behind the end of its window.
  turn :
      (s : Queries QS) (n d now : ℕ) (buf : List ℕ)
      → Closes n d (pool.iter s.queries)
      → d ≤ now
      → (poll_query_transmit pool s n now buf).1 ≡ (buf, ok none)
  unfolding poll_query_transmit call
  turn s n d now buf closes late =
      let f : Query AN EV → Query AN EV × (List ℕ × Result TransmitError (Option Transmit)) =
        λ q. let (q', buf', sent) = Sending.poll_transmit q now buf in (q', (buf', sent)) in
      let kept =
        with_query-find pool laws f (buf, ok none) s n n
          (call-KeepsHandle pool laws store queue clock (transmit now buf)) in
      let answer : Option (Query AN EV) → List ℕ × Result TransmitError (Option Transmit) =
        λ o. elim o [ none ↦ (buf, ok none) | some q ↦ (f q).1 ] in
      elim (Option-cases (find pool s n)) [
        | inl gone ↦ kept.0 ∙ ap answer gone
        | inr (q, there) ↦
            let window = found-Windowed n d (pool.iter s.queries) q closes there in
            kept.0
            ∙ ap answer there
            ∙ ap (λ p. (p.1, p.2))
                (poll_transmit-shut clock store queue q now buf
                  (shut clock store queue d q now window late))
      ]

  -- A query that was started with a timeout hands out no question from the end of it on, whatever has
  -- happened to it and to the other queries since, and at what times: calls by handle, answers and
  -- questions that datagrams bring, starts, cancellations and sweeps. The endpoint is as
  -- `try_start_query-Starts` asks for, and the clock can add the timeout.
  pub start-shut :
      (s : Queries QS) (spec : QuerySpec) (now timeout d n : ℕ) (xs : List Deed) (later : ℕ)
      (buf : List ℕ)
      → IsClock clock
      → s.next_query_handle < 4294967295
      → Below s.next_query_handle (pool.iter s.queries)
      → spec.timeout ≡ some timeout
      → clock.checked_add_duration now timeout ≡ some d
      → now + timeout ≤ later
      → (try_start_query pool queue store clock s spec now).1 ≡ some n
      → let s' = (try_start_query pool queue store clock s spec now).0 in
        (poll_query_transmit pool (deeds pool store queue clock s' xs) n later buf).1
        ≡ (buf, ok none)
  start-shut s spec now timeout d n xs later buf clock_laws room below given adds late answered =
      let s' = (try_start_query pool queue store clock s spec now).0 in
      let starts = try_start_query-Starts pool laws store queue clock s spec now room below in
      let first : n ≡ s.next_query_handle =
        (subst (Starts pool s (query_of pool queue store clock s spec now) s') answered
          starts.0).0 in
      let window = query_of-window s spec now ∙ ap (timeout_of clock now) given ∙ adds in
      let next = starts.2 in
      let below' = subst (λ m. Below m (pool.iter s.queries)) (sym first) below in
      let closes =
        started-Closes s spec now n d (λ is live. window)
          (Closes-Below n d (pool.iter s.queries) below') in
      let sum = clock_laws.add now timeout adds in
      turn (deeds pool store queue clock s' xs) n d later buf
        (deeds-Closes xs s' n d (omega (arith, first, next)) (omega (arith, first)) closes)
        (omega (arith, sum))
