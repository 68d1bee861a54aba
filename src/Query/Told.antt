-- ===== src/Query/Told.antt =====
-- The end of a query is told once.
use mathlib.Core.Path.{subst}
use hick.Prelude.{
  ℕ, ◌≡◌, refl, sym, ◌∙◌, ap, arith, Bool, true, false, not, ◌&&◌, ◌||◌, List, [], ◌∷◌, ◌++◌,
  Option, none, some, All, All-append, All-append_left, All-append_right, Bool-cases, Option-cases,
  inl, inr, if◌then◌else◌, ◌==◌,
}
use hick.Owner.{Name}
use hick.Wire.ResourceType.{ResourceType}
use hick.Wire.ResourceClass.{ResourceClass}
use hick.Time.{Clock}
use hick.Transmit.{FamilyAttempt}
use hick.Cache.Backing.{Pool, IsPool}
use hick.Cache.Lists.{lookup, without}
use hick.Query.{
  Query, QueryUpdate, timeout, handle_timeout, retire, terminate, note_duplicate_question,
  poll_query,
}
use hick.Query.Sending.{poll_transmit, note_transmit_outcome, on_advance}
use hick.Query.Cases.{outcome_cases}
use hick.Query.Collect.{CollectedAnswer, QueryEvent, new_query, handle_event}
use hick.Query.Collect.Frame.{stores, handle_event-Stores}
use hick.Query.Run.{
  Call, event, woken, sent, confirmed, duplicate, polled, retired, call, calls, tells, told,
}

module _ {EV : Type 0} (queue : Pool EV QueryUpdate) (laws : IsPool queue) where
  -- Every update that waits is the end.
  abbrev Ends : EV → Type 0
  Ends pending = All (λ e. e.1 ≡ timeout) (queue.iter pending)

  insert-Ends : (pending : EV) → Ends pending → Ends (queue.insert pending timeout).0
  insert-Ends pending h = elim (Option-cases (queue.insert pending timeout).1) [
    | inl e ↦ subst (All (λ e. e.1 ≡ timeout)) (sym (laws.insert-err pending timeout e)) h
    | inr (k, e) ↦
        let i = laws.insert-ok pending timeout k e in
        let l = subst (All (λ e. e.1 ≡ timeout)) i.old h in
        subst (All (λ e. e.1 ≡ timeout)) (sym i.new) (
          All-append (λ e. e.1 ≡ timeout) i.before ((k, timeout) ∷ i.after)
            (All-append_left (λ e. e.1 ≡ timeout) i.before i.after l)
            (refl, All-append_right (λ e. e.1 ≡ timeout) i.before i.after l))
  ]

  without-timeout :
      (key : ℕ) (l : List (ℕ × QueryUpdate))
      → All (λ e. e.1 ≡ timeout) l
      → All (λ e. e.1 ≡ timeout) (without key l)
  without-timeout key [] h = tt
  without-timeout key (e ∷ l) h = elim (Bool-cases (key == e.0)) [
    | inl p ↦ rw (p) (without-timeout key l h.1)
    | inr p ↦ rw (p) (h.0, without-timeout key l h.1)
  ]

  module _ {AN : Type 0} where
    -- As long as the query lives nothing waits and nothing has been told.
    record Tells (q : Query AN EV) : Type 0 where
      waiting : Ends q.pending_updates
      living : q.done ≡ false → (queue.iter q.pending_updates ≡ []) × (q.terminal_emitted ≡ false)

    terminate-Tells : (q : Query AN EV) → Tells q → Tells (terminate queue q timeout)
    unfolding terminate
    terminate-Tells q h = ground (arith, insert-Ends q.pending_updates, h.living)

    handle_timeout-Tells :
        (q : Query AN EV) (now : ℕ) → Tells q → Tells (handle_timeout queue q now)
    unfolding handle_timeout
    handle_timeout-Tells q now h =
        ground (arith, terminate-Tells q, h.living, insert-Ends q.pending_updates)

    duplicate-Tells :
        (clock : Clock) (q : Query AN EV) (now : ℕ)
        → Tells q
        → Tells (note_duplicate_question queue clock q now).0
    unfolding note_duplicate_question
    duplicate-Tells clock q now h = ground (arith, h.living, insert-Ends q.pending_updates)

    sent-Tells :
        (q : Query AN EV) (now : ℕ) (buf : List ℕ) → Tells q → Tells (poll_transmit q now buf).0
    unfolding poll_transmit
    sent-Tells q now buf h = ground (arith, h.living)

    confirmed-Tells :
        (clock : Clock) (q : Query AN EV) (now : ℕ) (v4 v6 : FamilyAttempt)
        → Tells q
        → Tells (note_transmit_outcome clock q now v4 v6).0
    unfolding on_advance
    confirmed-Tells clock q now v4 v6 h =
        outcome_cases Tells clock q now v4 v6 (λ idle. h) (λ flying over. ground (arith, h.living))
          (λ flying live. ground (arith, h.living))

    -- What one question of the caller does.
    record Polls (q q' : Query AN EV) (update : Option QueryUpdate) : Type 0 where
      tells : Tells q'
      same_end : q'.done ≡ q.done
      answer : update ≡ (if q.done && not q.terminal_emitted then some timeout else none)
      marks : q'.terminal_emitted ≡ q.terminal_emitted || q.done

    first-Polls :
        (q : Query AN EV) (key : ℕ) (u : QueryUpdate) (l : List (ℕ × QueryUpdate))
        → queue.iter q.pending_updates ≡ (key, u) ∷ l
        → Tells q
        → ((queue.try_remove q.pending_updates key).1 ≡ some timeout)
          × Ends (queue.try_remove q.pending_updates key).0
          × (q.done ≡ true)
    first-Polls q key u l e h =
        let ends = subst (All (λ x. x.1 ≡ timeout)) e h.waiting in
        let self : (key == key) ≡ true = ground arith in
        let found : lookup key (queue.iter q.pending_updates) ≡ some u = rw (e, self) refl in
        (
          laws.try_remove-lookup q.pending_updates key ∙ found ∙ ap some ends.0,
          subst (All (λ x. x.1 ≡ timeout)) (sym (laws.try_remove-iter q.pending_updates key))
              (without-timeout key (queue.iter q.pending_updates) h.waiting),
          elim (Bool-cases q.done) [
            | inl over ↦ over
            | inr live ↦ let empty = (h.living live).0 in cc
          ],
        )

    poll_query-Polls :
        (q : Query AN EV) → Tells q → let (q', update) = poll_query queue q in Polls q q' update
    unfolding poll_query
    poll_query-Polls q h = by_first (queue.iter q.pending_updates) refl
      where
        by_first :
            (l : List (ℕ × QueryUpdate))
            → queue.iter q.pending_updates ≡ l
            → Polls q (poll_query queue q).0 (poll_query queue q).1
        by_first [] e = ground (arith, h.living)
        by_first ((key, u) ∷ l) e = let (f, rest, over) = first-Polls q key u l e h in ground arith

  module _ {AN : Type 0} (clock : Clock) (store : Pool AN CollectedAnswer) where
    -- A call that says nothing.
    record Silent (q q' : Query AN EV) : Type 0 where
      tells : Tells q'
      marks : q'.terminal_emitted ≡ q.terminal_emitted

    event-Silent :
        (q : Query AN EV) (e : QueryEvent) (now : ℕ)
        → Tells q
        → Silent q (handle_event store q e now)
    event-Silent q e now h = elim (handle_event-Stores store q e now) [
      | stores a s same ↦ subst (Silent q) (sym same) (ground (arith, h.living))
    ]

    woken-Silent : (q : Query AN EV) (now : ℕ) → Tells q → Silent q (handle_timeout queue q now)
    unfolding handle_timeout
    woken-Silent q now h = record { tells = handle_timeout-Tells q now h; marks = ground arith }

    sent-Silent :
        (q : Query AN EV) (now : ℕ) (buf : List ℕ) → Tells q → Silent q (poll_transmit q now buf).0
    unfolding poll_transmit
    sent-Silent q now buf h = record { tells = sent-Tells q now buf h; marks = ground arith }

    confirmed-Silent :
        (q : Query AN EV) (now : ℕ) (v4 v6 : FamilyAttempt)
        → Tells q
        → Silent q (note_transmit_outcome clock q now v4 v6).0
    unfolding on_advance
    confirmed-Silent q now v4 v6 h = record {
      tells = confirmed-Tells clock q now v4 v6 h;
      marks =
          outcome_cases (λ q'. q'.terminal_emitted ≡ q.terminal_emitted) clock q now v4 v6
            (λ idle. refl) (λ flying over. refl) (λ flying live. ground arith);
    }

    duplicate-Silent :
        (q : Query AN EV) (now : ℕ)
        → Tells q
        → Silent q (note_duplicate_question queue clock q now).0
    unfolding note_duplicate_question
    duplicate-Silent q now h = record {
      tells = duplicate-Tells clock q now h;
      marks = ground arith;
    }

    retired-Silent : (q : Query AN EV) → Tells q → Silent q (retire queue q)
    unfolding retire
    retired-Silent q h = record { tells = terminate-Tells q h; marks = ground arith }

    -- One call: it tells the end, or nothing, and marks what it has told.
    record Says (q : Query AN EV) (c : Call) : Type 0 where
      tells_on : Tells (call clock store queue q c)
      says : tells clock store queue q c ≡ (
          if (call clock store queue q c).terminal_emitted && not q.terminal_emitted
          then some timeout
          else none)
      keeps : q.terminal_emitted ≡ true → (call clock store queue q c).terminal_emitted ≡ true

    by_silence :
        (q : Query AN EV) (c : Call)
        → tells clock store queue q c ≡ none
        → Silent q (call clock store queue q c)
        → Says q c
    by_silence q c e s = ground arith

    call-Says : (q : Query AN EV) (c : Call) → Tells q → Says q c
    unfolding call tells
    call-Says q (event e now) h = by_silence q (event e now) refl (event-Silent q e now h)
    call-Says q (woken now) h = by_silence q (woken now) refl (woken-Silent q now h)
    call-Says q (sent now buf) h = by_silence q (sent now buf) refl (sent-Silent q now buf h)
    call-Says q (confirmed now v4 v6) h =
        by_silence q (confirmed now v4 v6) refl (confirmed-Silent q now v4 v6 h)
    call-Says q (duplicate now) h = by_silence q (duplicate now) refl (duplicate-Silent q now h)
    call-Says q polled h = let p = poll_query-Polls q h in ground arith
    call-Says q retired h = by_silence q retired refl (retired-Silent q h)

    told_lem :
        (cs : List Call) (q : Query AN EV)
        → Tells q
        → let q' = calls clock store queue q cs in
          Tells q'
          × (q.terminal_emitted ≡ true → q'.terminal_emitted ≡ true)
          × (told clock store queue q cs
              ≡ (if q'.terminal_emitted && not q.terminal_emitted then timeout ∷ [] else []))
    unfolding calls told
    told_lem [] q h = (h, λ e. e, ground arith)
    told_lem (c ∷ cs) q h =
        let s = call-Says q c h in
        let (t, k, e) = told_lem cs (call clock store queue q c) s.tells_on in
        (t, λ m. k (s.keeps m), ground (arith, s.keeps, k))

    calls-polled :
        (cs : List Call) (q : Query AN EV)
        → calls clock store queue q (cs ++ polled ∷ [])
          ≡ (poll_query queue (calls clock store queue q cs)).0
    unfolding calls call
    calls-polled [] q = refl
    calls-polled (c ∷ cs) q = calls-polled cs (call clock store queue q c)

    new_query-Tells :
        (handle : ℕ) (qname : Name) (qtype : ResourceType) (qclass : ResourceClass) (txid : ℕ)
        (unicast_response : Bool) (timeout_deadline : Option ℕ)
        → Tells
            (new_query store queue handle qname qtype qclass txid unicast_response timeout_deadline)
    unfolding new_query
    new_query-Tells handle qname qtype qc txid unicast_response timeout_deadline = record {
      waiting = subst (All (λ e. e.1 ≡ timeout)) (sym laws.iter-new) tt;
      living = λ e. (laws.iter-new, refl);
    }

    -- Whatever is called in whatever order, and then the caller asks what is new: the caller has been
    -- told exactly once that the query has timed out, where it is done, and nothing else; where it is
    -- not done the caller has been told nothing.
    pub told_once :
        (handle : ℕ) (qname : Name) (qtype : ResourceType) (qclass : ResourceClass) (txid : ℕ)
        (unicast_response : Bool) (timeout_deadline : Option ℕ) (cs : List Call)
        → let q =
            new_query store queue handle qname qtype qclass txid unicast_response
              timeout_deadline in
          told clock store queue q (cs ++ polled ∷ [])
          ≡ (if (calls clock store queue q cs).done then timeout ∷ [] else [])
    unfolding new_query
    told_once handle qname qtype qc txid unicast_response timeout_deadline cs =
        let q =
          new_query store queue handle qname qtype qc txid unicast_response timeout_deadline in
        let fresh = new_query-Tells handle qname qtype qc txid unicast_response timeout_deadline in
        let last = calls clock store queue q cs in
        let (before, k, e) = told_lem cs q fresh in
        let p = poll_query-Polls last before in
        let (after, k', e') = told_lem (cs ++ polled ∷ []) q fresh in
        let same = calls-polled cs q in e' ∙ (rw (same, p.marks) (ground (arith, before.living)))
