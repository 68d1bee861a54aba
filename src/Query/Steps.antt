-- ===== src/Query/Steps.antt =====
-- The three steps of a round in which a query asks, reports what became of the question, and waits.
use hick.Prelude.{
  ℕ, Result, ◌+◌, ◌≤◌, ◌≡◌, ◌⊎◌, inl, inr, ap, arith, Bool, true, false, List, some, ok, Bool-cases,
}
use hick.Owner.{Name}
use hick.Wire.ResourceType.{ResourceType}
use hick.Wire.ResourceClass.{ResourceClass}
use hick.Wire.Error.{EncodeError}
use hick.Wire.Builder.{MessageBuilder, ◌>>◌, try_new, finish}
use hick.Wire.Builder.Push.{push_question}
use hick.Time.{Clock, from_secs}
use hick.Transmit.{FamilyAttempt, anchor, any_delivered, project}
use hick.Service.Patience.{PhaseAdvance}
use hick.Cache.Backing.{Pool}
use hick.Query.{Query, QueryUpdate, caller_window_shut, handle_timeout}
use hick.Query.Retry.{retry_secs, next_deadline}
use hick.Query.Sending.{
  transmitted, default_compression_table, question_header, encode, poll_transmit, on_advance,
}

pub record Round : Type 0 where
  pub sent_at : ℕ
  pub buffer : List ℕ
  pub confirmed_at : ℕ
  pub v4 : FamilyAttempt
  pub v6 : FamilyAttempt
  pub woken_at : ℕ

-- The clock does not overflow.
abbrev pub Unbounded : Clock → Type 0
Unbounded clock = (t d : ℕ) → clock.checked_add_duration t d ≡ some (t + d)

-- The buffer has room for the question.
abbrev pub HasRoom : Name → ResourceType → ResourceClass → Bool → ℕ → List ℕ → Type 0
HasRoom qname qtype qclass unicast_response txid buf =
    (b : MessageBuilder) × (b' : MessageBuilder) × (n : ℕ) × (try_new default_compression_table buf
        (question_header txid)
      ≡ ok b)
    × ((push_question qname qtype qclass unicast_response >> finish) b ≡ (b', ok n))

next_deadline-due :
    (clock : Clock) (now sends due : ℕ)
    → Unbounded clock
    → now + from_secs 60 ≤ due
    → (d : ℕ) × (next_deadline clock now sends ≡ some d) × (d ≤ due)
unfolding next_deadline retry_secs
next_deadline-due clock now sends due total late =
    (now + from_secs (retry_secs sends), total now (from_secs (retry_secs sends)), omega arith)

module _ {AN EV : Type 0} where
  -- A question is due, in flight, or the query waits for a deadline that is past at `due`.
  pub data Waits (due : ℕ) (q : Query AN EV) : Type 0 where
    waits : (d : ℕ) → q.deadline ≡ some d → d ≤ due → Waits due q

  pub on_advance-Waits :
      (clock : Clock) (q : Query AN EV) (now due : ℕ) (a : PhaseAdvance)
      → Unbounded clock
      → now + from_secs 60 ≤ due
      → Waits due (on_advance clock q now a)
  unfolding on_advance
  on_advance-Waits clock q now due PhaseAdvance.delivered total late =
      let (d, e, le) = next_deadline-due clock now _ due total late in waits d e le
  on_advance-Waits clock q now due PhaseAdvance.covered total late =
      let (d, e, le) = next_deadline-due clock now _ due total late in waits d e le
  on_advance-Waits clock q now due PhaseAdvance.excused total late =
      let (d, e, le) = next_deadline-due clock now _ due total late in waits d e le
  on_advance-Waits clock q now due PhaseAdvance.partial total late =
      let (d, e, le) = next_deadline-due clock now _ due total late in waits d e le
  on_advance-Waits clock q now due PhaseAdvance.failed total late =
      let (d, e, le) = next_deadline-due clock now _ due total late in waits d e le

  -- What the rounds leave as it is.
  pub record SameQuestion (q q' : Query AN EV) : Type 0 where
    pub name : q'.qname ≡ q.qname
    pub type : q'.qtype ≡ q.qtype
    pub class : q'.qclass ≡ q.qclass
    pub unicast : q'.unicast_response ≡ q.unicast_response
    pub id : q'.txid ≡ q.txid
    pub window : q'.timeout_deadline ≡ q.timeout_deadline

  pub on_advance-SameQuestion :
      (clock : Clock) (q : Query AN EV) (now : ℕ) (a : PhaseAdvance)
      → SameQuestion q (on_advance clock q now a)
  unfolding on_advance
  on_advance-SameQuestion clock q now a = ground arith

  -- A round that asks the question of `q`, reaches a wire, and waits long enough.
  pub record Asks (q : Query AN EV) (r : Round) : Type 0 where
    pub room : HasRoom q.qname q.qtype q.qclass q.unicast_response q.txid r.buffer
    pub delivered : any_delivered (project r.v4 r.v6) ≡ true
    pub patient : anchor r.v4 r.v6 r.confirmed_at + from_secs 60 ≤ r.woken_at
    pub forward : r.sent_at ≤ r.woken_at

  -- The question is handed out.
  encode-open :
      (q : Query AN EV) (buf : List ℕ)
      → HasRoom q.qname q.qtype q.qclass q.unicast_response q.txid buf
      → (encode q buf).0 ≡ record q { transmit_pending = false; awaiting_send_confirm = true }
  unfolding encode
  encode-open q buf (b, b', n, started, wrote) =
      rw (encode, started)
        (ap (λ (r : MessageBuilder × Result EncodeError ℕ). (transmitted q r).0) wrote)

  pub sent-open :
      (q : Query AN EV) (now : ℕ) (buf : List ℕ)
      → q.done ≡ false
      → q.transmit_pending ≡ true
      → caller_window_shut q now ≡ false
      → HasRoom q.qname q.qtype q.qclass q.unicast_response q.txid buf
      → (poll_transmit q now buf).0
        ≡ record q { transmit_pending = false; awaiting_send_confirm = true }
  unfolding poll_transmit
  sent-open q now buf live pending open_window room = let e = encode-open q buf room in ground arith

  pub sent-shut :
      (q : Query AN EV) (now : ℕ) (buf : List ℕ)
      → caller_window_shut q now ≡ true
      → (poll_transmit q now buf).0 ≡ q
  unfolding poll_transmit
  sent-shut q now buf shut = ground arith

module _ {AN EV : Type 0} (queue : Pool EV QueryUpdate) where
  pub woken-open :
      (q : Query AN EV) (due : ℕ)
      → q.done ≡ false
      → Waits due q
      → let q' = handle_timeout queue q due in
        (q'.done ≡ true) ⊎ ((q'.done ≡ false) × (q'.transmit_pending ≡ true) × SameQuestion q q')
  unfolding handle_timeout
  woken-open q due live (waits d e le) = elim (Bool-cases (handle_timeout queue q due).done) [
    | inl over ↦ inl over
    | inr more ↦ inr (more, ground arith, ground arith)
  ]

  pub woken-shut :
      (q : Query AN EV) (now due : ℕ)
      → now ≤ due
      → caller_window_shut q now ≡ true
      → (handle_timeout queue q due).done ≡ true
  unfolding handle_timeout caller_window_shut
  woken-shut q now due le shut = ground arith
