-- ===== src/Query/Drive.antt =====
-- A query that is driven to its end: one round after the other, each of which asks, reports what
-- became of the question, and waits.
use mathlib.Core.Path.{subst}
use hick.Prelude.{
  ℕ, ◌+◌, ◌≤◌, ◌≡◌, ◌⊎◌, inl, inr, refl, ap, arith, Bool, true, false, List, [], ◌∷◌, Option, All,
  Bool-cases, if◌then◌else◌, length,
}
use hick.Owner.{Name}
use hick.Wire.ResourceType.{ResourceType}
use hick.Wire.ResourceClass.{ResourceClass}
use hick.Time.{Clock, from_secs}
use hick.Transmit.{project, anchor}
use hick.Service.Patience.{classify_advance}
use hick.Cache.Backing.{Pool}
use hick.Query.{Query, QueryUpdate, caller_window_shut}
use hick.Query.Sending.{on_advance, note_transmit_outcome}
use hick.Query.Cases.{outcome_cases}
use hick.Query.Budget.{InBudget, new_query-InBudget, call-InBudget}
use hick.Query.Ended.{calls-done}
use hick.Query.Steps.{
  Asks, Round, Unbounded, Waits, SameQuestion, sent-open, sent-shut, woken-open, woken-shut,
  on_advance-Waits, on_advance-SameQuestion,
}
use hick.Query.Collect.{CollectedAnswer, new_query}
use hick.Query.Run.{sent, confirmed, woken, asks, call, calls}

module _ {AN EV : Type 0} (clock : Clock) (store : Pool AN CollectedAnswer)
    (queue : Pool EV QueryUpdate) where
  unfoldable pub round : Query AN EV → Round → Query AN EV
  unfolding call
  round q r =
      call clock store queue
        (call clock store queue (call clock store queue q (sent r.sent_at r.buffer))
          (confirmed r.confirmed_at r.v4 r.v6))
        (woken r.woken_at)

  unfoldable pub drive : Query AN EV → List Round → Query AN EV
  unfolding round
  drive q [] = q
  drive q (r ∷ rs) = drive (round q r) rs

  -- A query that lives stands at the beginning of a round, after `n` questions.
  record Live (q0 : Query AN EV) (n : ℕ) (q : Query AN EV) : Type 0 where
    budget : InBudget true true n q
    pending : q.transmit_pending ≡ true
    same : SameQuestion q0 q

  confirmed-open :
      (q q' : Query AN EV) (r : Round)
      → Unbounded clock
      → anchor r.v4 r.v6 r.confirmed_at + from_secs 60 ≤ r.woken_at
      → q' ≡ record q { transmit_pending = false; awaiting_send_confirm = true }
      → q.done ≡ false
      → let q'' = (note_transmit_outcome clock q' r.confirmed_at r.v4 r.v6).0 in
        (q''.done ≡ false) × Waits r.woken_at q'' × SameQuestion q q''
  unfolding on_advance
  confirmed-open q q' r total patient e live =
      outcome_cases (λ q''. (q''.done ≡ false) × Waits r.woken_at q'' × SameQuestion q q'') clock q'
        r.confirmed_at r.v4 r.v6 (λ idle. absurd (ground arith))
        (λ flying over. absurd (ground arith))
        (λ flying live'.
          let p = classify_advance q'.partial_rounds (project r.v4 r.v6) in
          let next : Query AN EV = record q' {
            awaiting_send_confirm = false;
            partial_rounds = p.0;
          } in
          let now = anchor r.v4 r.v6 r.confirmed_at in
          (
            ground arith,
            on_advance-Waits clock next now r.woken_at p.1 total patient,
            ground (arith, on_advance-SameQuestion clock next now p.1),
          ))

  -- Where a round leads, from a query that lived.
  abbrev Onwards : Query AN EV → ℕ → Query AN EV → Type 0
  Onwards q0 n q = (q.done ≡ true) ⊎ ((q.done ≡ false) × Live q0 n q)

  round-shut :
      (q : Query AN EV) (r : Round)
      → q.awaiting_send_confirm ≡ false
      → caller_window_shut q r.sent_at ≡ true
      → r.sent_at ≤ r.woken_at
      → (round q r).done ≡ true
  unfolding round call note_transmit_outcome
  round-shut q r idle shut forward =
      let e = sent-shut q r.sent_at r.buffer shut in
      let e' : (note_transmit_outcome clock q r.confirmed_at r.v4 r.v6).0 ≡ q = ground arith in
      rw (round, call, e, e') (woken-shut queue q r.sent_at r.woken_at forward shut)

  round-open :
      (q0 q : Query AN EV) (n : ℕ) (r : Round)
      → Unbounded clock
      → q.done ≡ false
      → Live q0 n q
      → caller_window_shut q r.sent_at ≡ false
      → Asks q0 r
      → Onwards q0 (n + 1) (round q r)
  unfolding round call
  round-open q0 q n r total live l open_window a =
      let s = l.same in
      let e =
        sent-open q r.sent_at r.buffer live l.pending open_window
          (rw (s.name, s.type, s.class, s.unicast, s.id) a.room) in
      let q1 = call clock store queue q (sent r.sent_at r.buffer) in
      let q2 = call clock store queue q1 (confirmed r.confirmed_at r.v4 r.v6) in
      let (live', waiting, same) = confirmed-open q q1 r total a.patient e live in
      let b1 =
        call-InBudget true true clock store queue q (sent r.sent_at r.buffer) n tt l.budget in
      let b2 =
        call-InBudget true true clock store queue q1 (confirmed r.confirmed_at r.v4 r.v6) n
          (inl a.delivered, inl a.delivered) b1 in
      let flying : q1.awaiting_send_confirm ≡ true =
        ap (λ (x : Query AN EV). x.awaiting_send_confirm) e in
      let counted : (if asks q1 (confirmed r.confirmed_at r.v4 r.v6) then n + 1 else n) ≡ n + 1 =
        rw (asks, flying, a.delivered) refl in
      let b3 =
        call-InBudget true true clock store queue q2 (woken r.woken_at) (n + 1) tt
          (subst (λ m. InBudget true true m q2) counted b2) in
      elim (woken-open queue q2 r.woken_at live' waiting) [
        | inl over ↦ inl over
        | inr (more, pending, same') ↦
            inr (more, record { budget = b3; pending = pending; same = ground arith })
      ]

  round-done : (q : Query AN EV) (r : Round) → q.done ≡ true → (round q r).done ≡ true
  unfolding round calls call
  round-done q r over =
      let cs =
        sent r.sent_at r.buffer ∷ confirmed r.confirmed_at r.v4 r.v6 ∷ woken r.woken_at ∷ [] in
      (calls-done clock store queue q cs 0 [] over).0.over

  round-Onwards :
      (q0 q : Query AN EV) (n : ℕ) (r : Round)
      → Unbounded clock
      → Asks q0 r
      → Onwards q0 n q
      → Onwards q0 (n + 1) (round q r)
  round-Onwards q0 q n r total a (inl over) = inl (round-done q r over)
  round-Onwards q0 q n r total a (inr (live, l)) =
      elim (Bool-cases (caller_window_shut q r.sent_at)) [
        | inl shut ↦ inl (round-shut q r (l.budget.due l.pending).3 shut a.forward)
        | inr open_window ↦ round-open q0 q n r total live l open_window a
      ]

  drive-Onwards :
      (q0 : Query AN EV) (rs : List Round) (q : Query AN EV) (n : ℕ)
      → Unbounded clock
      → All (Asks q0) rs
      → Onwards q0 n q
      → Onwards q0 (n + length rs) (drive q rs)
  unfolding drive
  drive-Onwards q0 [] q n total asked h =
      let e : n ≡ n + length {A = Round} [] = omega arith in subst (λ m. Onwards q0 m q) e h
  drive-Onwards q0 (r ∷ rs) q n total asked h =
      let e : (n + 1) + length rs ≡ n + length (r ∷ rs) = omega arith in
      subst (λ m. Onwards q0 m (drive (round q r) rs)) e
        (drive-Onwards q0 rs (round q r) (n + 1) total asked.1
          (round-Onwards q0 q n r total asked.0 h))

  -- With a clock that does not overflow, whatever deadline the caller has set: a query that is driven
  -- through 27 rounds is done, where in each of them the buffer has room for the question, some family
  -- carries it if it is handed out, and the query is woken no earlier than the question was asked for
  -- and a minute or more after the time that its confirm is anchored to.
  pub drive-done :
      (handle : ℕ) (qname : Name) (qtype : ResourceType) (qclass : ResourceClass) (txid : ℕ)
      (unicast_response : Bool) (timeout_deadline : Option ℕ) (rs : List Round)
      → let q =
          new_query store queue handle qname qtype qclass txid unicast_response timeout_deadline in
        Unbounded clock → All (Asks q) rs → length rs ≡ 27 → (drive q rs).done ≡ true
  unfolding new_query
  drive-done handle qname qtype qc txid unicast_response timeout_deadline rs total asked long =
      let q = new_query store queue handle qname qtype qc txid unicast_response timeout_deadline in
      let fresh =
        new_query-InBudget true true clock store queue handle qname qtype qc txid unicast_response
          timeout_deadline in
      let start : Live q 0 q = record { budget = fresh; pending = refl; same = ground arith } in
      elim (drive-Onwards q rs q 0 total asked (inr (refl, start))) [
        | inl over ↦ over
        | inr (live, l) ↦
            let b = l.budget in
            let (_, low, _, _) = b.due l.pending in let paid = b.paid live in absurd (omega arith)
      ]
