-- ===== src/Query/Run.antt =====
-- A query of mdns-proto/src/query/mod.rs over any sequence of calls, in any order.
use hick.Prelude.{Option, none, some, ℕ, ◌+◌, Bool, false, ◌&&◌, List, [], ◌∷◌, if◌then◌else◌}
use hick.Time.{Clock}
use hick.Transmit.{FamilyAttempt, project, any_delivered}
use hick.Service.Patience.Laws.{Kept}
use hick.Cache.Backing.{Pool}
use hick.Query.{Query, QueryUpdate, handle_timeout, retire, note_duplicate_question, poll_query}
use hick.Query.Sending.{poll_transmit, note_transmit_outcome}
use hick.Query.Collect.{CollectedAnswer, QueryEvent, handle_event}

-- A call of an entry point, with the time and what it is handed.
pub data Call : Type 0 where
  event : QueryEvent → ℕ → Call
  woken : ℕ → Call
  sent : ℕ → List ℕ → Call
  confirmed : ℕ → FamilyAttempt → FamilyAttempt → Call
  duplicate : ℕ → Call
  polled : Call
  retired : Call

-- A confirm of a host that has sockets for these families.
abbrev pub Steadfast : Bool → Bool → Call → Type 0
Steadfast has_v4 has_v6 (confirmed now v4 v6) = Kept has_v4 has_v6 (project v4 v6)
Steadfast has_v4 has_v6 _ = Unit {0}

module _ {AN EV : Type 0} (clock : Clock) (store : Pool AN CollectedAnswer)
    (queue : Pool EV QueryUpdate) where
  unfoldable pub call : Query AN EV → Call → Query AN EV
  call q (event e now) = handle_event store q e now
  call q (woken now) = handle_timeout queue q now
  call q (sent now buf) = (poll_transmit q now buf).0
  call q (confirmed now v4 v6) = (note_transmit_outcome clock q now v4 v6).0
  call q (duplicate now) = (note_duplicate_question queue clock q now).0
  call q polled = (poll_query queue q).0
  call q retired = retire queue q

  unfoldable pub calls : Query AN EV → List Call → Query AN EV
  unfolding call
  calls q [] = q
  calls q (c ∷ cs) = calls (call q c) cs

  -- What a call tells the caller.
  unfoldable pub tells : Query AN EV → Call → Option QueryUpdate
  unfolding poll_query
  tells q polled = (poll_query queue q).1
  tells q _ = none

  unfoldable pub told : Query AN EV → List Call → List QueryUpdate
  unfolding call tells
  told q [] = []
  told q (c ∷ cs) =
      let rest = told (call q c) cs in elim (tells q c) [ some u ↦ u ∷ rest | none ↦ rest ]

-- Whether a call reports a question that some family has carried.
abbrev pub asks : {AN EV : Type 0} → Query AN EV → Call → Bool
asks q (confirmed now v4 v6) = q.awaiting_send_confirm && any_delivered (project v4 v6)
asks q _ = false

-- How many questions reached a wire, by the confirms of the calls.
unfoldable pub questions :
    {AN EV : Type 0}
    → Clock
    → Pool AN CollectedAnswer
    → Pool EV QueryUpdate
    → Query AN EV
    → List Call
    → ℕ
unfolding call
questions clock store queue q [] = 0
questions clock store queue q (c ∷ cs) =
    let rest = questions clock store queue (call clock store queue q c) cs in
    if asks q c then rest + 1 else rest
