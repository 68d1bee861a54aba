-- ===== src/Query/Sending.antt =====
-- mdns-proto/src/query/mod.rs: the question that is sent, and what became of it.
use hick.Prelude.{
  ℕ, true, false, not, ◌&&◌, ◌||◌, List, Option, none, some, Result, ok, err, stuck, if◌then◌else◌,
  length,
}
use hick.Time.{Clock, from_secs}
use hick.Wire.Error.{EncodeError}
use hick.Wire.Header.{Header, header_size}
use hick.Wire.Builder.{Build, MessageBuilder, ◌>>◌, try_new, finish}
use hick.Wire.Builder.Push.{push_question}
use hick.Transmit.{
  FamilyAttempt, Transmit, TransmitConfirm, sustained, project, any_delivered, anchor,
  undeliverable, nothing_confirmed, multicast_dst,
}
use hick.Service.Patience.{PhaseAdvance, classify_advance}
use hick.Query.Retry.{initial_secs, next_deadline}
use hick.Query.{Query, caller_window_shut, saturating_add_u32}

abbrev pub default_compression_table : ℕ
default_compression_table = 32

-- The header of a question: `Header::new().with_id(txid)`.
abbrev pub question_header : ℕ → Header
question_header txid = record {
  id = txid;
  flags = record { bits = 0 };
  question_count = 0;
  answer_count = 0;
  authority_count = 0;
  additional_count = 0;
}

abbrev pub min_query_gap : ℕ
min_query_gap = from_secs initial_secs

-- `TransmitError::BufferTooSmall`
pub data TransmitError : Type 0 where
  buffer_too_small : (needed have : ℕ) → TransmitError

module _ {AN EV : Type 0} where
  -- What becomes of the builder behind `push_question` and `finish`: the query, the buffer, and the
  -- answer.
  abbrev pub transmitted :
      Query AN EV
      → MessageBuilder × Result EncodeError ℕ
      → Query AN EV × List ℕ × Result TransmitError (Option Transmit)
  transmitted q (b, ok n) = (
    record q { transmit_pending = false; awaiting_send_confirm = true },
    b.out,
    ok (
        some (record {
          dst = multicast_dst;
          src_ip = none;
          size = n;
          obligation = sustained;
          min_family_gap = min_query_gap;
        })),
  )
  transmitted q (b, err _) = (q, b.out, err (buffer_too_small 0 0))
  transmitted q (b, stuck) = (q, b.out, stuck)

  -- `push_question`, then `finish`.
  abbrev pub write_question : Query AN EV → Build ℕ
  write_question q = push_question q.qname q.qtype q.qclass q.unicast_response >> finish

  -- `now` is what the clock reads. What is behind the guards.
  unfoldable pub encode :
      Query AN EV → List ℕ → Query AN EV × List ℕ × Result TransmitError (Option Transmit)
  encode q buf = elim (try_new default_compression_table buf (question_header q.txid)) [
    | ok b ↦ transmitted q (write_question q b)
    | err _ ↦ (q, buf, err (buffer_too_small header_size (length buf)))
    | stuck ↦ (q, buf, stuck)
  ]

  unfoldable pub poll_transmit :
      Query AN EV → ℕ → List ℕ → Query AN EV × List ℕ × Result TransmitError (Option Transmit)
  unfolding encode caller_window_shut
  poll_transmit q now buf =
      if q.done || not q.transmit_pending
      then (q, buf, ok none)
      else if caller_window_shut q now
      then (q, buf, ok none)
      else encode q buf

  -- The arms of `note_transmit_outcome`, at the anchored instant.
  unfoldable pub on_advance : Clock → Query AN EV → ℕ → PhaseAdvance → Query AN EV
  on_advance clock q now PhaseAdvance.delivered =
      let retry_count = saturating_add_u32 q.retry_count 1 in
      record q {
        retry_count = retry_count;
        partial_send_streak = 0;
        deadline = next_deadline clock now retry_count;
      }
  on_advance clock q now PhaseAdvance.covered =
      let retry_count = saturating_add_u32 q.retry_count 1 in
      record q {
        retry_count = retry_count;
        deadline = next_deadline clock now (saturating_add_u32 retry_count q.partial_send_streak);
        partial_send_streak = saturating_add_u32 q.partial_send_streak 1;
      }
  on_advance clock q now PhaseAdvance.excused =
      let retry_count = saturating_add_u32 q.retry_count 1 in
      record q {
        retry_count = retry_count;
        deadline = next_deadline clock now (saturating_add_u32 retry_count q.partial_send_streak);
        partial_send_streak = saturating_add_u32 q.partial_send_streak 1;
      }
  on_advance clock q now PhaseAdvance.partial = record q {
    deadline =
        next_deadline clock now
          (saturating_add_u32 (saturating_add_u32 q.retry_count 1) q.partial_send_streak);
    partial_send_streak = saturating_add_u32 q.partial_send_streak 1;
  }
  on_advance clock q now PhaseAdvance.failed = record q {
    deadline = next_deadline clock now (saturating_add_u32 q.retry_count 1);
  }

  unfoldable pub note_transmit_outcome :
      Clock → Query AN EV → ℕ → FamilyAttempt → FamilyAttempt → Query AN EV × TransmitConfirm
  unfolding on_advance
  note_transmit_outcome clock q now v4 v6 =
      let delivery = project v4 v6 in
      let q' = record q { awaiting_send_confirm = false } in
      let confirm : TransmitConfirm = record {
        any_delivered = any_delivered delivery;
        retire_producer = not q.done && undeliverable v4 v6;
      } in
      let (rounds, advance) = classify_advance q.partial_rounds delivery in
      if not q.awaiting_send_confirm
      then (q, nothing_confirmed)
      else if q.done
      then (q', confirm)
      else (
        on_advance clock (record q' { partial_rounds = rounds }) (anchor v4 v6 now) advance,
        confirm,
      )
