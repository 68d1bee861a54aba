-- ===== src/Query.antt =====
-- mdns-proto/src/query: the questions that are asked, when, and what was answered. A `&mut self`
-- goes in and comes out. What is recorded for tests, statistics and traces is left out; the
-- assertions of debug builds are left out, and the code behind them runs, as in a release build.
use hick.Prelude.{
  ℕ, ◌+◌, ◌≤◌, Bool, true, false, not, ◌&&◌, ◌||◌, List, [], ◌∷◌, Option, none, some, Result, ok,
  err, stuck, min, ltb, leb, ◌==◌, if◌then◌else◌, length,
}
use hick.Time.{Clock, from_secs}
use hick.Owner.{Name}
use hick.Wire.Error.{EncodeError}
use hick.Wire.Flags
use hick.Wire.Header.{Header, header_size}
use hick.Wire.ResourceType
use hick.Wire.ResourceType.{ResourceType}
use hick.Wire.ResourceClass
use hick.Wire.ResourceClass.{ResourceClass}
use hick.Wire.Builder.{Build, MessageBuilder, ◌>>◌, try_new, finish}
use hick.Wire.Builder.Push.{push_question}
use hick.Transmit.{
  FamilyAttempt, Transmit, TransmitConfirm, sustained, project, any_delivered, anchor,
  undeliverable, nothing_confirmed, multicast_dst,
}
use hick.Service.Patience.{FamilyPatience, PhaseAdvance, fresh, classify_advance}
use hick.Cache.Backing.{Pool}
use hick.Query.Retry.{initial_secs, next_deadline}
pub mod Retry
pub mod Collect
pub mod Run
pub mod Sending
pub mod Cases
pub mod Budget
pub mod Ended
pub mod Told
pub mod Window
pub mod Steps
pub mod Drive
mod Tests

abbrev pub max_retries : ℕ
max_retries = 8

abbrev pub default_max_answers : ℕ
default_max_answers = 256

-- `u32::saturating_add`
abbrev pub saturating_add_u32 : ℕ → ℕ → ℕ
saturating_add_u32 a b = min (a + b) 4294967295

pub data QueryUpdate : Type 0 where
  timeout finished : QueryUpdate

-- `AN` holds the answers, `EV` the updates that wait for the caller; `deadline` is `next_deadline`.
pub record Query (AN EV : Type 0) : Type 0 where
  pub handle : ℕ
  pub qname : Name
  pub qtype : ResourceType
  pub qclass : ResourceClass
  pub txid : ℕ
  pub retry_count : ℕ
  pub deadline : Option ℕ
  pub answers : AN
  pub pending_updates : EV
  pub done : Bool
  pub terminal_emitted : Bool
  pub max_answers : ℕ
  pub next_seq : ℕ
  pub transmit_pending : Bool
  pub awaiting_send_confirm : Bool
  pub partial_send_streak : ℕ
  pub partial_rounds : FamilyPatience × FamilyPatience
  pub unicast_response : Bool
  pub timeout_deadline : Option ℕ

-- `deadline.is_some_and(|d| now >= d)`
abbrev pub reached : Option ℕ → ℕ → Bool
reached none now = false
reached (some d) now = leb d now

module _ {AN EV : Type 0} where
  unfoldable pub with_max_answers : Query AN EV → ℕ → Query AN EV
  with_max_answers q max = record q { max_answers = max }

  unfoldable pub caller_window_shut : Query AN EV → ℕ → Bool
  caller_window_shut q now = reached q.timeout_deadline now

  unfoldable pub poll_timeout : Query AN EV → Option ℕ
  poll_timeout q = elim q.deadline [
    | some n ↦ elim q.timeout_deadline [ some t ↦ some (if ltb n t then n else t) | none ↦ some n ]
    | none ↦ q.timeout_deadline
  ]

  unfoldable pub mark_terminal_emitted : Query AN EV → Query AN EV
  mark_terminal_emitted q = record q { terminal_emitted = true }

module _ {AN EV : Type 0} (queue : Pool EV QueryUpdate) where
  unfoldable pub terminate : Query AN EV → QueryUpdate → Query AN EV
  terminate q update = if q.done then q else record q {
    done = true;
    transmit_pending = false;
    pending_updates = (queue.insert q.pending_updates update).0;
    deadline = none;
    timeout_deadline = none;
  }

  -- It answers `Ok(())` on every path.
  unfoldable pub handle_timeout : Query AN EV → ℕ → Query AN EV
  unfolding terminate
  handle_timeout q now =
      if q.done
      then q
      else if reached q.timeout_deadline now
      then terminate q timeout
      else elim q.deadline [
        | none ↦ q
        | some due ↦
            if ltb now due
            then q
            else if ltb max_retries q.retry_count
            then terminate q timeout
            else record q { transmit_pending = true; deadline = none }
      ]

  unfoldable pub retire : Query AN EV → Query AN EV
  unfolding terminate
  retire q = terminate q timeout

  -- The slot of a question that another host has asked.
  unfoldable pub consume_slot : Clock → Query AN EV → ℕ → Query AN EV
  unfolding terminate
  consume_slot clock q now =
      let q' = record q {
        transmit_pending = false;
        retry_count = saturating_add_u32 q.retry_count 1;
        partial_send_streak = 0;
        partial_rounds = (fresh, fresh);
      } in
      if ltb max_retries q'.retry_count
      then terminate q' timeout
      else record q' { deadline = next_deadline clock now q'.retry_count }

  unfoldable pub note_duplicate_question : Clock → Query AN EV → ℕ → Query AN EV × Bool
  unfolding consume_slot caller_window_shut
  note_duplicate_question clock q now =
      if q.done || q.awaiting_send_confirm
      then (q, false)
      else if caller_window_shut q now
      then (q, false)
      else if q.transmit_pending || reached q.deadline now
      then (consume_slot clock q now, true)
      else (q, false)

  -- The first update that waits.
  unfoldable pub poll : Query AN EV → Query AN EV × Option QueryUpdate
  poll q = elim (queue.iter q.pending_updates) [
    | [] ↦ (q, none)
    | (key, _) ∷ _ ↦
        let (pending, update) = queue.try_remove q.pending_updates key in
        (record q { pending_updates = pending }, update)
  ]

  -- `Endpoint::poll_query` for the query of the handle.
  unfoldable pub poll_query : Query AN EV → Query AN EV × Option QueryUpdate
  unfolding poll mark_terminal_emitted
  poll_query q =
      let (q', update) = poll q in
      if q.terminal_emitted then (q, none) else elim update [
        | some u ↦ (mark_terminal_emitted q', some u)
        | none ↦ if q'.done then (mark_terminal_emitted q', some timeout) else (q', none)
      ]
