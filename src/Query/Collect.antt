-- ===== src/Query/Collect.antt =====
-- mdns-proto/src/query/mod.rs: the answers that a query has collected, and `handle_event`.
pub mod Frame
pub mod Fifo
pub mod Capacity
pub mod Queued
pub mod Arrivals
use hick.Prelude.{
  ℕ, Bool, true, false, not, ◌&&◌, ◌||◌, List, [], ◌∷◌, Option, none, some, ok, leb, ◌==◌,
  if◌then◌else◌, saturating_add,
}
use hick.Wire.ResourceType.{ResourceType}
use hick.Wire.ResourceClass.{ResourceClass}
use hick.Wire.Record.{Ref}
use hick.Wire.Rdata.Canonical.{canonical_rdata, canonical_rdata_folded}
use hick.Cache.{same_type, same_class, same_bytes}
use hick.Cache.Lists.{first_key}
use hick.Cache.Backing.{Pool}
use hick.Owner.{Name}
use hick.Service.Patience.{fresh}
use hick.Query.{Query, QueryUpdate, default_max_answers, caller_window_shut}

pub record CollectedAnswer : Type 0 where
  pub rtype : ResourceType
  pub rclass : ResourceClass
  pub rdata : List ℕ
  pub folded : Option (List ℕ)
  pub seq : ℕ

-- `self.rdata_key.as_deref().unwrap_or(self.rdata.as_ref())`; the field `rdata_key` is `folded`.
abbrev pub rdata_key : CollectedAnswer → List ℕ
rdata_key a = elim a.folded [ none ↦ a.rdata | some key ↦ key ]

pub data QueryEvent : Type 0 where
  answer : Ref → QueryEvent
  truncated : QueryEvent

-- `t.is_any()`
abbrev pub any_type : ResourceType → Bool
any_type ResourceType.any = true
any_type _ = false

abbrev pub any_class : ResourceClass → Bool
any_class ResourceClass.any = true
any_class _ = false

-- `!t.is_any() && record.rtype() != t`, and so for the class.
unfoldable pub other_type : ResourceType → ResourceType → Bool
other_type qtype rtype = not (any_type qtype) && not (same_type rtype qtype)

unfoldable pub other_class : ResourceClass → ResourceClass → Bool
other_class qclass rclass = not (any_class qclass) && not (same_class rclass qclass)

-- The test of the loop that looks for a duplicate.
unfoldable pub is_same : CollectedAnswer → CollectedAnswer → Bool
is_same new existing =
    same_type existing.rtype new.rtype
    && same_class existing.rclass new.rclass
    && same_bytes (rdata_key existing) (rdata_key new)

-- The victim of an eviction: the first of those with the lowest number.
unfoldable pub oldest : List (ℕ × CollectedAnswer) → Option (ℕ × ℕ) → Option (ℕ × ℕ)
oldest [] victim = victim
oldest ((key, entry) ∷ l) none = oldest l (some (key, entry.seq))
oldest ((key, entry) ∷ l) (some (k, s)) =
    let kept = oldest l (some (k, s)) in
    let taken = oldest l (some (key, entry.seq)) in if leb s entry.seq then kept else taken

-- The answer that a record makes: `owned` and `folded` are its two canonical forms.
abbrev pub answer_of : Ref → List ℕ → List ℕ → ℕ → CollectedAnswer
answer_of record_ref owned folded_rdata seq = record {
  rtype = record_ref.rtype;
  rclass = record_ref.rclass;
  rdata = owned;
  folded = if same_bytes folded_rdata owned then none else some folded_rdata;
  seq = seq;
}

unfoldable pub evict_oldest : {AN : Type 0} → Pool AN CollectedAnswer → AN → AN
evict_oldest store answers = elim (oldest (store.iter answers) none) [
  | some (victim_key, _) ↦ (store.try_remove answers victim_key).0
  | none ↦ answers
]

module _ {AN EV : Type 0} (store : Pool AN CollectedAnswer) where
  -- `self.answers.len() >= self.max_answers || self.answers.vacant_key().is_err()`
  unfoldable pub is_full : Query AN EV → Bool
  is_full q =
      leb q.max_answers (store.len q.answers)
      || elim (store.vacant_key q.answers) [ none ↦ true | some _ ↦ false ]

  -- The insertion, where there is room.
  unfoldable pub insert_answer : Query AN EV → CollectedAnswer → Query AN EV
  insert_answer q new =
      let (answers, inserted) = store.insert q.answers new in
      elim inserted [
        | some _ ↦ record q { answers = answers; next_seq = saturating_add q.next_seq 1 }
        | none ↦ record q { answers = answers }
      ]

  -- What is behind the two canonical forms.
  unfoldable pub collect : Query AN EV → CollectedAnswer → Query AN EV
  unfolding evict_oldest is_full insert_answer
  collect q new = elim (first_key (is_same new) (store.iter q.answers)) [
    | some _ ↦ q
    | none ↦
        if q.max_answers == 0
        then q
        else if is_full q
        then insert_answer (record q { answers = evict_oldest store q.answers }) new
        else insert_answer q new
  ]

  -- A record that is an answer to the question.
  unfoldable pub on_answer : Query AN EV → Ref → Query AN EV
  unfolding other_type other_class collect
  on_answer q r =
      if r.ttl == 0
      then q
      else if other_type q.qtype r.rtype
      then q
      else if other_class q.qclass r.rclass
      then q
      else elim (canonical_rdata r) [
        | ok owned ↦ elim (canonical_rdata_folded r) [
          | ok folded ↦ collect q (answer_of r owned folded q.next_seq)
          | _ ↦ q
        ]
        | _ ↦ q
      ]

  unfoldable pub handle_event : Query AN EV → QueryEvent → ℕ → Query AN EV
  unfolding on_answer caller_window_shut
  handle_event q truncated now = q
  handle_event q (answer r) now =
      if q.done then q else if caller_window_shut q now then q else on_answer q r

-- `Query::try_new`
unfoldable pub new_query :
    {AN EV : Type 0}
    → Pool AN CollectedAnswer
    → Pool EV QueryUpdate
    → ℕ
    → Name
    → ResourceType
    → ResourceClass
    → ℕ
    → Bool
    → Option ℕ
    → Query AN EV
new_query store queue handle qname qtype qclass txid unicast_response timeout_deadline = record {
  handle = handle;
  qname = qname;
  qtype = qtype;
  qclass = qclass;
  txid = txid;
  retry_count = 0;
  deadline = none;
  answers = store.new;
  pending_updates = queue.new;
  done = false;
  terminal_emitted = false;
  max_answers = default_max_answers;
  next_seq = 0;
  transmit_pending = true;
  awaiting_send_confirm = false;
  partial_send_streak = 0;
  partial_rounds = (fresh, fresh);
  unicast_response = unicast_response;
  timeout_deadline = timeout_deadline;
}
