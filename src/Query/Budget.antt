-- ===== src/Query/Budget.antt =====
-- How often a query asks.
use hick.Prelude.{
  ℕ, ◌+◌, ◌*◌, ◌≤◌, ◌≡◌, refl, arith, Bool, ◌&&◌, ap, sym, true, false, List, [], ◌∷◌, Option, none,
  All, if◌then◌else◌,
}
use mathlib.Core.Path.{subst}
use hick.Time.{Clock}
use hick.Owner.{Name}
use hick.Wire.ResourceType.{ResourceType}
use hick.Wire.ResourceClass.{ResourceClass}
use hick.Transmit.{TransmitDelivery, FamilyAttempt, project, any_delivered, anchor}
use hick.Service.Patience.{PhaseAdvance, classify_advance, advances}
use hick.Service.Patience.Laws.{Patience, owed, owed-step, owed-le, Kept}
use hick.Cache.Backing.{Pool}
use hick.Query.{Query, QueryUpdate, retire, handle_timeout, note_duplicate_question, poll_query}
use hick.Query.Sending.{poll_transmit, on_advance, note_transmit_outcome}
use hick.Query.Cases.{outcome_cases}
use hick.Query.Collect.{CollectedAnswer, new_query}
use hick.Query.Collect.Frame.{stores, handle_event-Stores}
use hick.Query.Run.{
  Call, event, woken, sent, confirmed, duplicate, polled, retired, Steadfast, call, calls, asks,
  questions,
}

-- A round pays for its question out of the patience, or out of the budget.
round_paid :
    (has_v4 has_v6 : Bool) (p : Patience) (d : TransmitDelivery) (n r : ℕ)
    → Kept has_v4 has_v6 d
    → n + owed (has_v4 && has_v6) p ≤ 3 * r + 2
    → let (p', advance) = classify_advance p d in
      (if any_delivered d then n + 1 else n) + owed (has_v4 && has_v6) p'
      ≤ (if advances advance then 3 * r + 5 else 3 * r + 2)
unfolding advances
round_paid has_v4 has_v6 p d n r kept h =
    let step = owed-step has_v4 has_v6 p d kept in ground arith

shift :
    (more n : ℕ) (b : Bool) → more + (if b then n + 1 else n) ≡ (if b then more + 1 else more) + n
shift more n true = omega arith
shift more n false = refl

module _ {AN EV : Type 0} (has_v4 has_v6 : Bool) where
  -- Where a query stands, after `n` questions that reached a wire: its budget is not overdrawn, and
  -- at most one of a question that is due, one in flight and a deadline is there.
  pub record InBudget (n : ℕ) (q : Query AN EV) : Type 0 where
    pub paid : q.done ≡ false → n + owed (has_v4 && has_v6) q.partial_rounds ≤ 3 * q.retry_count + 2
    pub capped : n ≤ 29
    pub due :
        q.transmit_pending ≡ true
        → (q.done ≡ false)
          × (q.retry_count ≤ 8)
          × (q.deadline ≡ none)
          × (q.awaiting_send_confirm ≡ false)
    pub in_flight :
        q.awaiting_send_confirm ≡ true
        → (n ≤ 28) × (q.done ≡ false → q.retry_count ≤ 8) × (q.deadline ≡ none)

  on_advance-InBudget :
      (clock : Clock) (q : Query AN EV) (now n : ℕ) (a : PhaseAdvance)
      → q.transmit_pending ≡ false
      → q.awaiting_send_confirm ≡ false
      → q.retry_count ≤ 8
      → n ≤ 29
      → n + owed (has_v4 && has_v6) q.partial_rounds
        ≤ (if advances a then 3 * q.retry_count + 5 else 3 * q.retry_count + 2)
      → InBudget n (on_advance clock q now a)
  unfolding on_advance advances
  on_advance-InBudget clock q now n PhaseAdvance.delivered p a r c h = ground arith
  on_advance-InBudget clock q now n PhaseAdvance.covered p a r c h = ground arith
  on_advance-InBudget clock q now n PhaseAdvance.excused p a r c h = ground arith
  on_advance-InBudget clock q now n PhaseAdvance.partial p a r c h = ground arith
  on_advance-InBudget clock q now n PhaseAdvance.failed p a r c h = ground arith

  counted :
      (q : Query AN EV) (now n : ℕ) (v4 v6 : FamilyAttempt) {b : Bool}
      → q.awaiting_send_confirm ≡ b
      → (if asks q (confirmed now v4 v6) then n + 1 else n)
        ≡ (if b && any_delivered (project v4 v6) then n + 1 else n)
  counted q now n v4 v6 e = ap (λ b. if b && any_delivered (project v4 v6) then n + 1 else n) e

  -- A confirm that was not awaited counts for nothing.
  confirmed-InBudget :
      (clock : Clock) (q : Query AN EV) (now n : ℕ) (v4 v6 : FamilyAttempt)
      → Kept has_v4 has_v6 (project v4 v6)
      → InBudget n q
      → InBudget
          (if asks q (confirmed now v4 v6) then n + 1 else n)
          (note_transmit_outcome clock q now v4 v6).0
  confirmed-InBudget clock q now n v4 v6 kept h =
      let d = project v4 v6 in
      let p = classify_advance q.partial_rounds d in
      outcome_cases (InBudget (if asks q (confirmed now v4 v6) then n + 1 else n)) clock q now v4 v6
        (λ idle. subst (λ m. InBudget m q) (sym (counted q now n v4 v6 idle)) h)
        (λ flying over. ground (arith, h.due, h.in_flight flying))
        (λ flying live.
          subst
            (λ m. InBudget m (
              on_advance clock (record q { awaiting_send_confirm = false; partial_rounds = p.0 })
                (anchor v4 v6 now) p.1))
            (sym (counted q now n v4 v6 flying))
            (on_advance-InBudget clock
              (record q { awaiting_send_confirm = false; partial_rounds = p.0 }) (anchor v4 v6 now)
              (if any_delivered d then n + 1 else n) p.1 (ground (arith, h.due)) refl
              (ground (arith, h.in_flight flying)) (ground (arith, h.in_flight flying))
              (round_paid has_v4 has_v6 q.partial_rounds d n q.retry_count kept (h.paid live))))

module _ {AN EV : Type 0} (has_v4 has_v6 : Bool) (queue : Pool EV QueryUpdate) where
  handle_timeout-InBudget :
      (q : Query AN EV) (now n : ℕ)
      → InBudget has_v4 has_v6 n q
      → InBudget has_v4 has_v6 n (handle_timeout queue q now)
  unfolding handle_timeout
  handle_timeout-InBudget q now n h =
      ground (arith, h.due, h.in_flight, h.paid, owed-le (has_v4 && has_v6) q.partial_rounds)

  duplicate-InBudget :
      (clock : Clock) (q : Query AN EV) (now n : ℕ)
      → InBudget has_v4 has_v6 n q
      → InBudget has_v4 has_v6 n (note_duplicate_question queue clock q now).0
  unfolding note_duplicate_question
  duplicate-InBudget clock q now n h =
      ground (arith, h.due, h.in_flight, h.paid, owed-le (has_v4 && has_v6) q.partial_rounds)

  poll-InBudget :
      (q : Query AN EV) (n : ℕ)
      → InBudget has_v4 has_v6 n q
      → InBudget has_v4 has_v6 n (poll_query queue q).0
  unfolding poll_query
  poll-InBudget q n h =
      ground (arith, h.due, h.in_flight, h.paid, owed-le (has_v4 && has_v6) q.partial_rounds)

  retire-InBudget :
      (q : Query AN EV) (n : ℕ)
      → InBudget has_v4 has_v6 n q
      → InBudget has_v4 has_v6 n (retire queue q)
  unfolding retire
  retire-InBudget q n h =
      ground (arith, h.due, h.in_flight, h.paid, owed-le (has_v4 && has_v6) q.partial_rounds)

poll_transmit-InBudget :
    {AN EV : Type 0} (has_v4 has_v6 : Bool) (q : Query AN EV) (now n : ℕ) (buf : List ℕ)
    → InBudget has_v4 has_v6 n q
    → InBudget has_v4 has_v6 n (poll_transmit q now buf).0
unfolding poll_transmit
poll_transmit-InBudget has_v4 has_v6 q now n buf h =
    ground (arith, h.due, h.in_flight, h.paid, owed-le (has_v4 && has_v6) q.partial_rounds)

module _ {AN EV : Type 0} (has_v4 has_v6 : Bool) (clock : Clock) (store : Pool AN CollectedAnswer)
    (queue : Pool EV QueryUpdate) where
  pub call-InBudget :
      (q : Query AN EV) (c : Call) (n : ℕ)
      → Steadfast has_v4 has_v6 c
      → InBudget has_v4 has_v6 n q
      → InBudget has_v4 has_v6 (if asks q c then n + 1 else n) (call clock store queue q c)
  unfolding call
  call-InBudget q (event e now) n kept h = elim (handle_event-Stores store q e now) [
    | stores a s same ↦
        subst (InBudget has_v4 has_v6 n) (sym same) (ground (arith, h.due, h.in_flight, h.paid))
  ]
  call-InBudget q (woken now) n kept h = handle_timeout-InBudget has_v4 has_v6 queue q now n h
  call-InBudget q (sent now buf) n kept h = poll_transmit-InBudget has_v4 has_v6 q now n buf h
  call-InBudget q (confirmed now v4 v6) n kept h =
      confirmed-InBudget has_v4 has_v6 clock q now n v4 v6 kept h
  call-InBudget q (duplicate now) n kept h = duplicate-InBudget has_v4 has_v6 queue clock q now n h
  call-InBudget q polled n kept h = poll-InBudget has_v4 has_v6 queue q n h
  call-InBudget q retired n kept h = retire-InBudget has_v4 has_v6 queue q n h

  calls-InBudget :
      (cs : List Call) (q : Query AN EV) (n : ℕ)
      → All (Steadfast has_v4 has_v6) cs
      → InBudget has_v4 has_v6 n q
      → InBudget has_v4 has_v6 (questions clock store queue q cs + n) (calls clock store queue q cs)
  unfolding calls questions
  calls-InBudget [] q n kept h =
      let e : n ≡ 0 + n = omega arith in subst (λ m. InBudget has_v4 has_v6 m q) e h
  calls-InBudget (c ∷ cs) q n kept h =
      let ih =
        calls-InBudget cs (call clock store queue q c) (if asks q c then n + 1 else n) kept.1
          (call-InBudget q c n kept.0 h) in
      let more = questions clock store queue (call clock store queue q c) cs in
      subst
        (λ m. InBudget has_v4 has_v6 m (calls clock store queue (call clock store queue q c) cs))
        (shift more n (asks q c)) ih

  pub new_query-InBudget :
      (handle : ℕ) (qname : Name) (qtype : ResourceType) (qclass : ResourceClass) (txid : ℕ)
      (unicast_response : Bool) (timeout_deadline : Option ℕ)
      → InBudget has_v4 has_v6 0
          (new_query store queue handle qname qtype qclass txid unicast_response timeout_deadline)
  unfolding new_query
  new_query-InBudget handle qname qtype qc txid unicast_response timeout_deadline = ground arith

  -- Whatever is called in whatever order, also out of the order that the driver owes, at most 29
  -- questions of a query reach a wire: on a host with sockets for both families, for one or for none,
  -- where a family that the host has misses every question that no family delivers, and a family that
  -- it does not have is never obligated.
  pub calls_bound :
      (handle : ℕ) (qname : Name) (qtype : ResourceType) (qclass : ResourceClass) (txid : ℕ)
      (unicast_response : Bool) (timeout_deadline : Option ℕ) (cs : List Call)
      → All (Steadfast has_v4 has_v6) cs
      → questions clock store queue
          (new_query store queue handle qname qtype qclass txid unicast_response timeout_deadline)
          cs
        ≤ 29
  calls_bound handle qname qtype qclass txid unicast_response timeout_deadline cs kept =
      let start =
        new_query store queue handle qname qtype qclass txid unicast_response timeout_deadline in
      let fresh =
        new_query-InBudget handle qname qtype qclass txid unicast_response timeout_deadline in
      omega (arith, (calls-InBudget cs start 0 kept fresh).capped)
