-- ===== src/Query/Collect/Frame.antt =====
-- What an event leaves alone in a query: everything but the answers and their number.
use hick.Wire.Error.{Parsed}
use hick.Prelude.{
  ◌==◌, List, saturating_add, ℕ, ◌≡◌, refl, Bool, true, false, Option-cases, inl, inr, ok, err,
  stuck, if◌then◌else◌,
}
use hick.Wire.Record.{Ref}
use hick.Wire.Rdata.Canonical.{canonical_rdata, canonical_rdata_folded}
use hick.Cache.Lists.{first_key}
use hick.Cache.Backing.{Pool}
use hick.Query.{Query}
use hick.Query.Collect.{
  other_type, other_class, CollectedAnswer, QueryEvent, answer, truncated, is_same, answer_of,
  insert_answer, collect, on_answer, handle_event,
}

module _ {AN EV : Type 0} (store : Pool AN CollectedAnswer) where
  -- The query with some answers and some number.
  pub data Stores (q : Query AN EV) : Query AN EV → Type 0 where
    stores :
        (a : AN) (s : ℕ) {q' : Query AN EV}
        → q' ≡ record q { answers = a; next_seq = s }
        → Stores q q'

  if-Stores :
      (q : Query AN EV) (b : Bool) (x y : Query AN EV)
      → Stores q x
      → Stores q y
      → Stores q (if b then x else y)
  if-Stores q true x y h k = h
  if-Stores q false x y h k = k

  same : (q : Query AN EV) → Stores q q
  same q = stores q.answers q.next_seq refl

  insert_answer-Stores :
      (q : Query AN EV) (a : AN) (new : CollectedAnswer)
      → Stores q (insert_answer store (record q { answers = a }) new)
  unfolding insert_answer
  insert_answer-Stores q a new = elim (Option-cases (store.insert a new).1) [
    | inl e ↦ stores (store.insert a new).0 q.next_seq (rw (insert_answer, e) refl)
    | inr (k, e) ↦
        stores (store.insert a new).0 (saturating_add q.next_seq 1) (rw (insert_answer, e) refl)
  ]

  collect-Stores : (q : Query AN EV) (new : CollectedAnswer) → Stores q (collect store q new)
  unfolding collect
  collect-Stores q new = elim (Option-cases (first_key (is_same new) (store.iter q.answers))) [
    | inr (k, e) ↦ rw (collect, e) (same q)
    | inl e ↦
        rw (collect, e)
          (if-Stores q _ _ _ (same q) (
            if-Stores q _ _ _ (insert_answer-Stores q _ new)
              (insert_answer-Stores q q.answers new)))
  ]

  by_forms-Stores :
      (q : Query AN EV) (r : Ref) (owned folded : Parsed (List ℕ))
      → Stores q (elim owned [
        | ok o ↦ elim folded [ ok f ↦ collect store q (answer_of r o f q.next_seq) | _ ↦ q ]
        | _ ↦ q
      ])
  by_forms-Stores q r (ok o) (ok f) = collect-Stores q (answer_of r o f q.next_seq)
  by_forms-Stores q r (ok o) (err x) = same q
  by_forms-Stores q r (ok o) stuck = same q
  by_forms-Stores q r (err x) folded = same q
  by_forms-Stores q r stuck folded = same q

  on_answer-Stores : (q : Query AN EV) (r : Ref) → Stores q (on_answer store q r)
  unfolding on_answer
  on_answer-Stores q r = if-Stores q (r.ttl == 0) _ _ (same q) (
      if-Stores q (other_type q.qtype r.rtype) _ _ (same q) (
        if-Stores q (other_class q.qclass r.rclass) _ _ (same q)
          (by_forms-Stores q r (canonical_rdata r) (canonical_rdata_folded r))))

  pub handle_event-Stores :
      (q : Query AN EV) (e : QueryEvent) (now : ℕ) → Stores q (handle_event store q e now)
  unfolding handle_event
  handle_event-Stores q truncated now = same q
  handle_event-Stores q (answer r) now =
      if-Stores q _ _ _ (same q) (if-Stores q _ _ _ (same q) (on_answer-Stores q r))
