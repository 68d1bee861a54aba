-- ===== src/Endpoint/Queries/Map.antt =====
-- Calls on the queries of an endpoint, in any order, by their handles.
use mathlib.Core.Option
use hick.Prelude.{
  ℕ, ◌≡◌, refl, ◌∙◌, ap, arith, true, false, List, [], ◌∷◌, Option, none, some, Bool-cases, inl,
  inr, if◌then◌else◌, ◌==◌,
}
use hick.Time.{Clock}
use hick.Transmit.{FamilyAttempt}
use hick.Cache.Backing.{Pool, IsPool}
use hick.Query
use hick.Query.{Query, QueryUpdate}
use hick.Query.Sending
use hick.Query.Sending.{on_advance}
use hick.Query.Cases.{outcome_cases}
use hick.Query.Collect.{CollectedAnswer, QueryEvent, handle_event}
use hick.Query.Collect.Frame.{stores, handle_event-Stores}
use hick.Query.Run
use hick.Query.Run.{Call, sent, confirmed, woken, polled, retired, call, calls}
use hick.Endpoint.Queries.{
  with_query, Queries, poll_query_transmit, note_query_transmit_outcome, poll_query,
  handle_query_timeout, retire_query,
}
use hick.Endpoint.Queries.Laws.{KeepsHandle, find, with_query-find}

-- A call about one of the queries: of the endpoint by the handle, or, where a datagram is received, of
-- the query itself (`event`, `duplicate`).
pub data HandleCall : Type 0 where
  transmit : ℕ → List ℕ → HandleCall
  outcome : ℕ → FamilyAttempt → FamilyAttempt → HandleCall
  time_out : ℕ → HandleCall
  ask retire : HandleCall
  event : QueryEvent → ℕ → HandleCall
  duplicate : ℕ → HandleCall

-- The call of the query that it comes to.
abbrev pub call_of : HandleCall → Call
call_of (transmit now buf) = sent now buf
call_of (outcome now v4 v6) = confirmed now v4 v6
call_of (time_out now) = woken now
call_of ask = polled
call_of retire = retired
call_of (event e now) = Run.event e now
call_of (duplicate now) = Run.duplicate now

as_it_was : {A : Type 0} (o : Option A) → o ≡ Option.map (λ a. a) o
as_it_was none = refl
as_it_was (some a) = refl

map-map :
    {A : Type 0} (f g : A → A) (o : Option A)
    → Option.map f (Option.map g o) ≡ Option.map (λ a. f (g a)) o
map-map f g none = refl
map-map f g (some a) = refl

-- Of calls on several handles those on one.
unfoldable pub calls_of : ℕ → List (ℕ × HandleCall) → List Call
calls_of h [] = []
calls_of h ((h', c) ∷ cs) = let rest = calls_of h cs in if h == h' then call_of c ∷ rest else rest

module _ {AN EV QS : Type 0} (pool : Pool QS (Query AN EV)) (store : Pool AN CollectedAnswer)
    (queue : Pool EV QueryUpdate) (clock : Clock) where
  unfoldable pub apply : Queries QS → ℕ → HandleCall → Queries QS
  unfolding poll_query_transmit note_query_transmit_outcome handle_query_timeout poll_query
      retire_query with_query
  apply s h (transmit now buf) = (poll_query_transmit pool s h now buf).0
  apply s h (outcome now v4 v6) = (note_query_transmit_outcome pool clock s h now v4 v6).0
  apply s h (time_out now) = handle_query_timeout pool queue s h now
  apply s h ask = (poll_query pool queue s h).0
  apply s h retire = retire_query pool queue s h
  apply s h (event e now) = (with_query pool (λ q. (handle_event store q e now, true)) false s h).0
  apply s h (duplicate now) =
      (with_query pool (λ q. Query.note_duplicate_question queue clock q now) false s h).0

  unfoldable pub apply_all : Queries QS → List (ℕ × HandleCall) → Queries QS
  unfolding apply
  apply_all s [] = s
  apply_all s ((h, c) ∷ cs) = apply_all (apply s h c) cs

module _ {AN EV QS : Type 0} (pool : Pool QS (Query AN EV)) (laws : IsPool pool)
    (store : Pool AN CollectedAnswer) (queue : Pool EV QueryUpdate) (clock : Clock) where
  pub call-KeepsHandle : (c : HandleCall) → KeepsHandle (λ q. call clock store queue q (call_of c))
  unfolding call Sending.poll_transmit Query.handle_timeout Query.poll_query Query.retire on_advance
      Query.note_duplicate_question
  call-KeepsHandle (transmit now buf) q = ground arith
  call-KeepsHandle (outcome now v4 v6) q =
      outcome_cases (λ q'. q'.handle ≡ q.handle) clock q now v4 v6 (λ idle. refl)
        (λ flying over. refl) (λ flying live. ground arith)
  call-KeepsHandle (time_out now) q = ground arith
  call-KeepsHandle ask q = ground arith
  call-KeepsHandle retire q = ground arith
  call-KeepsHandle (event e now) q = elim (handle_event-Stores store q e now) [
    | stores a n same ↦ ap (λ (q' : Query AN EV). q'.handle) same
  ]
  call-KeepsHandle (duplicate now) q = ground arith

  apply-find :
      (s : Queries QS) (h h' : ℕ) (c : HandleCall)
      → find pool (apply pool store queue clock s h c) h' ≡ (
          if h' == h
          then Option.map (λ q. call clock store queue q (call_of c)) (find pool s h)
          else find pool s h')
  unfolding apply call
  apply-find s h h' (transmit now buf) =
      (with_query-find pool laws _ _ s h h' (call-KeepsHandle (transmit now buf))).1
  apply-find s h h' (outcome now v4 v6) =
      (with_query-find pool laws _ _ s h h' (call-KeepsHandle (outcome now v4 v6))).1
  apply-find s h h' (time_out now) =
      (with_query-find pool laws _ _ s h h' (call-KeepsHandle (time_out now))).1
  apply-find s h h' ask = (with_query-find pool laws _ _ s h h' (call-KeepsHandle ask)).1
  apply-find s h h' retire = (with_query-find pool laws _ _ s h h' (call-KeepsHandle retire)).1
  apply-find s h h' (event e now) =
      (with_query-find pool laws _ _ s h h' (call-KeepsHandle (event e now))).1
  apply-find s h h' (duplicate now) =
      (with_query-find pool laws _ _ s h h' (call-KeepsHandle (duplicate now))).1

  -- Whatever is called on whatever handles, the query of each handle is afterwards what the calls on
  -- that handle alone make of it, in their order; where a handle had no query it has none.
  pub apply_all-find :
      (cs : List (ℕ × HandleCall)) (s : Queries QS) (h : ℕ)
      → find pool (apply_all pool store queue clock s cs) h
        ≡ Option.map (λ q. calls clock store queue q (calls_of h cs)) (find pool s h)
  unfolding apply_all calls calls_of
  apply_all-find [] s h = as_it_was (find pool s h)
  apply_all-find ((h', c) ∷ cs) s h =
      let s' = apply pool store queue clock s h' c in
      let cs' = calls_of h ((h', c) ∷ cs) in
      let run : List Call → Query AN EV → Query AN EV = λ l q. calls clock store queue q l in
      let ih = apply_all-find cs s' h in
      elim (Bool-cases (h == h')) [
        | inl same ↦
            let e : h ≡ h' = ground arith in
            let first : Query AN EV → Query AN EV = λ q. call clock store queue q (call_of c) in
            let step : find pool s' h ≡ Option.map first (find pool s h) =
              apply-find s h' h c ∙ rw (same, e) refl in
            let l : call_of c ∷ calls_of h cs ≡ cs' = rw (same) refl in
            ih
            ∙ ap (Option.map (run (calls_of h cs))) step
            ∙ map-map (run (calls_of h cs)) first (find pool s h)
            ∙ ap (λ l. Option.map (run l) (find pool s h)) l
        | inr other ↦
            let step : find pool s' h ≡ find pool s h = apply-find s h' h c ∙ rw (other) refl in
            let l : calls_of h cs ≡ cs' = rw (other) refl in
            ih
            ∙ ap (Option.map (run (calls_of h cs))) step
            ∙ ap (λ l. Option.map (run l) (find pool s h)) l
      ]
