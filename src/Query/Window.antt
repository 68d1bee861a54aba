-- ===== src/Query/Window.antt =====
-- The window that a caller gives a query: its absolute timeout.
use hick.Prelude.{
  ℕ, ◌≤◌, ◌≡◌, refl, sym, arith, true, false, ◌||◌, Bool-cases, inl, inr, List, [], ◌∷◌, none, some,
  ok,
}
use mathlib.Core.Path.{subst}
use hick.Time.{Clock}
use hick.Service.Patience.{PhaseAdvance, delivered, covered, excused, partial, failed}
use hick.Cache.Backing.{Pool}
use hick.Query.{
  Query, QueryUpdate, caller_window_shut, handle_timeout, retire, note_duplicate_question,
  poll_query,
}
use hick.Query.Sending.{on_advance, poll_transmit}
use hick.Query.Cases.{outcome_cases}
use hick.Query.Collect.{CollectedAnswer, QueryEvent, answer, truncated, handle_event}
use hick.Query.Collect.Frame.{stores, handle_event-Stores}
use hick.Query.Run.{Call, event, woken, sent, confirmed, duplicate, polled, retired, call, calls}

module _ {AN EV : Type 0} where
  -- The query's window ends at `d`, unless it is done.
  abbrev pub Windowed : ℕ → Query AN EV → Type 0
  Windowed d q = q.done ≡ false → q.timeout_deadline ≡ some d

  on_advance-Windowed :
      (clock : Clock) (d : ℕ) (q : Query AN EV) (now : ℕ) (advance : PhaseAdvance)
      → Windowed d q
      → Windowed d (on_advance clock q now advance)
  unfolding on_advance
  on_advance-Windowed clock d q now delivered h = h
  on_advance-Windowed clock d q now covered h = h
  on_advance-Windowed clock d q now excused h = h
  on_advance-Windowed clock d q now partial h = h
  on_advance-Windowed clock d q now failed h = h

module _ {AN EV : Type 0} (clock : Clock) (store : Pool AN CollectedAnswer)
    (queue : Pool EV QueryUpdate) where
  pub call-Windowed :
      (d : ℕ) (q : Query AN EV) (c : Call) → Windowed d q → Windowed d (call clock store queue q c)
  unfolding call handle_timeout retire note_duplicate_question poll_query poll_transmit
  call-Windowed d q (event e now) h = elim (handle_event-Stores store q e now) [
    | stores a s same ↦ subst (Windowed d) (sym same) h
  ]
  call-Windowed d q (woken now) h = λ live. ground (arith, h)
  call-Windowed d q (sent now buf) h = λ live. ground (arith, h)
  call-Windowed d q (confirmed now v4 v6) h =
      outcome_cases (Windowed d) clock q now v4 v6 (λ idle. h) (λ flying over. h)
        (λ flying live. on_advance-Windowed clock d _ _ _ h)
  call-Windowed d q (duplicate now) h = λ live. ground (arith, h)
  call-Windowed d q polled h = λ live. ground (arith, h)
  call-Windowed d q retired h = λ live. ground (arith, h)

  calls-Windowed :
      (cs : List Call) (d : ℕ) (q : Query AN EV)
      → Windowed d q
      → Windowed d (calls clock store queue q cs)
  unfolding calls
  calls-Windowed [] d q h = h
  calls-Windowed (c ∷ cs) d q h =
      calls-Windowed cs d (call clock store queue q c) (call-Windowed d q c h)

  pub shut :
      (d : ℕ) (q : Query AN EV) (now : ℕ)
      → Windowed d q
      → d ≤ now
      → q.done || caller_window_shut q now ≡ true
  unfolding caller_window_shut
  shut d q now h late = elim (Bool-cases q.done) [
    | inl over ↦ rw (over) refl
    | inr live ↦ let window = h live in rw (live, window) (ground arith)
  ]

  pub poll_transmit-shut :
      (q : Query AN EV) (now : ℕ) (buf : List ℕ)
      → q.done || caller_window_shut q now ≡ true
      → poll_transmit q now buf ≡ (q, buf, ok none)
  unfolding poll_transmit
  poll_transmit-shut q now buf s = ground arith

  handle_event-shut :
      (q : Query AN EV) (e : QueryEvent) (now : ℕ)
      → q.done || caller_window_shut q now ≡ true
      → handle_event store q e now ≡ q
  unfolding handle_event
  handle_event-shut q truncated now s = refl
  handle_event-shut q (answer r) now s = ground arith

  note_duplicate_question-shut :
      (q : Query AN EV) (now : ℕ)
      → q.done || caller_window_shut q now ≡ true
      → note_duplicate_question queue clock q now ≡ (q, false)
  unfolding note_duplicate_question
  note_duplicate_question-shut q now s = ground arith

  -- At the end of its window or later, whatever was called before and whenever, a query hands out no
  -- question, takes no answer and gives no slot to the question of another host.
  pub calls-shut :
      (q : Query AN EV) (cs : List Call) (d now : ℕ) (buf : List ℕ) (e : QueryEvent)
      → q.timeout_deadline ≡ some d
      → d ≤ now
      → let q' = calls clock store queue q cs in
        (poll_transmit q' now buf ≡ (q', buf, ok none))
        × (handle_event store q' e now ≡ q')
        × (note_duplicate_question queue clock q' now ≡ (q', false))
  calls-shut q cs d now buf e window late =
      let q' = calls clock store queue q cs in
      let s = shut d q' now (calls-Windowed cs d q (λ live. window)) late in
      (
        poll_transmit-shut q' now buf s,
        handle_event-shut q' e now s,
        note_duplicate_question-shut q' now s,
      )
