-- ===== src/Query/Ended.antt =====
-- Nothing follows the end of a query.
use hick.Prelude.{ℕ, ◌≡◌, refl, arith, true, List, [], ◌∷◌, none, ok}
use hick.Time.{Clock}
use hick.Transmit.{FamilyAttempt}
use hick.Cache.Backing.{Pool}
use hick.Query.{Query, QueryUpdate, handle_timeout, retire, note_duplicate_question, poll_query}
use hick.Query.Sending.{poll_transmit, note_transmit_outcome}
use hick.Query.Cases.{outcome_cases}
use hick.Query.Collect.{CollectedAnswer, QueryEvent, answer, truncated, handle_event}
use hick.Query.Run.{Call, event, woken, sent, confirmed, duplicate, polled, retired, call, calls}

module _ {AN EV : Type 0} where
  -- What is left of a query that is done.
  pub record Frozen (q q' : Query AN EV) : Type 0 where
    pub over : q'.done ≡ true
    pub answers : q'.answers ≡ q.answers
    pub accepted : q'.next_seq ≡ q.next_seq
    pub budget : q'.retry_count ≡ q.retry_count

  poll_transmit-done :
      (q : Query AN EV) (now : ℕ) (buf : List ℕ)
      → q.done ≡ true
      → poll_transmit q now buf ≡ (q, buf, ok none)
  unfolding poll_transmit
  poll_transmit-done q now buf over = ground arith

  confirmed-Frozen :
      (clock : Clock) (q q' : Query AN EV) (now : ℕ) (v4 v6 : FamilyAttempt)
      → Frozen q q'
      → Frozen q (note_transmit_outcome clock q' now v4 v6).0
  confirmed-Frozen clock q q' now v4 v6 h =
      outcome_cases (Frozen q) clock q' now v4 v6 (λ idle. h) (λ flying over. ground arith)
        (λ flying live. absurd (let e = h.over in cc))

handle_event-done :
    {AN EV : Type 0} (store : Pool AN CollectedAnswer) (q : Query AN EV) (e : QueryEvent) (now : ℕ)
    → q.done ≡ true
    → handle_event store q e now ≡ q
unfolding handle_event
handle_event-done store q truncated now over = refl
handle_event-done store q (answer r) now over = ground arith

module _ {AN EV : Type 0} (clock : Clock) (store : Pool AN CollectedAnswer)
    (queue : Pool EV QueryUpdate) where
  call-Frozen :
      (q q' : Query AN EV) (c : Call) → Frozen q q' → Frozen q (call clock store queue q' c)
  unfolding call handle_event handle_timeout retire note_duplicate_question poll_query
  call-Frozen q q' (event e now) h = rw (call, handle_event-done store q' e now h.over) h
  call-Frozen q q' (woken now) h = ground arith
  call-Frozen q q' (sent now buf) h = rw (call, poll_transmit-done q' now buf h.over) h
  call-Frozen q q' (confirmed now v4 v6) h = confirmed-Frozen clock q q' now v4 v6 h
  call-Frozen q q' (duplicate now) h = ground arith
  call-Frozen q q' polled h = ground arith
  call-Frozen q q' retired h = ground arith

  calls-Frozen :
      (cs : List Call) (q q' : Query AN EV) → Frozen q q' → Frozen q (calls clock store queue q' cs)
  unfolding calls
  calls-Frozen [] q q' h = h
  calls-Frozen (c ∷ cs) q q' h =
      calls-Frozen cs q (call clock store queue q' c) (call-Frozen q q' c h)

  -- Behind its end a query stands still: whatever is called, it stays done, it hands out no datagram,
  -- and neither its answers nor its budget change.
  pub calls-done :
      (q : Query AN EV) (cs : List Call) (now : ℕ) (buf : List ℕ)
      → q.done ≡ true
      → let q' = calls clock store queue q cs in
        Frozen q q' × (poll_transmit q' now buf ≡ (q', buf, ok none))
  calls-done q cs now buf over =
      let h =
        calls-Frozen cs q q
          (record { over = over; answers = refl; accepted = refl; budget = refl }) in
      (h, poll_transmit-done (calls clock store queue q cs) now buf h.over)
