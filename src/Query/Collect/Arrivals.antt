-- ===== src/Query/Collect/Arrivals.antt =====
-- What a query has collected, by the records that arrived.
use mathlib.Core.Path.{subst}
use hick.Prelude.{
  Bool-cases, ℕ, suc, ◌+◌, ◌≤◌, ◌<◌, ◌≡◌, inl, inr, refl, sym, ◌∙◌, ap, arith, Bool, true, false,
  ◌||◌, List, [], ◌∷◌, ◌++◌, map, Option, none, some, ok, err, stuck, if◌then◌else◌, length, leb,
  ◌==◌, drop, usize_max,
}
use mathlib.Core.List.{map-append}
use hick.Wire.Error.{Parsed}
use hick.Wire.ResourceType.{ResourceType}
use hick.Wire.ResourceClass.{ResourceClass}
use hick.Wire.Record.{Ref}
use hick.Wire.Rdata.Canonical.{canonical_rdata, canonical_rdata_folded}
use hick.Cache.Backing.{Pool, IsPool}
use hick.Query.{Query, reached, caller_window_shut}
use hick.Query.Collect.{
  CollectedAnswer, QueryEvent, answer, truncated, is_same, answer_of, other_type, other_class,
  collect, on_answer, handle_event,
}
use hick.Query.Collect.Frame.{stores, handle_event-Stores}
use hick.Query.Collect.Fifo.{holds, fifo, Numbered}
use hick.Query.Collect.Capacity.{Capacity, limit}
use hick.Query.Collect.Queued.{queue_of, collect-Fits}

-- An answer without its number.
abbrev pub forget : CollectedAnswer → CollectedAnswer
forget a = record a { seq = 0 }

-- The answer that an event brings to a question, if any.
unfoldable pub by_forms : Ref → Parsed (List ℕ) → Parsed (List ℕ) → Option CollectedAnswer
by_forms r (ok owned) (ok folded) = some (answer_of r owned folded 0)
by_forms r _ _ = none

unfoldable pub brings :
    ResourceType → ResourceClass → Option ℕ → QueryEvent → ℕ → Option CollectedAnswer
unfolding other_type other_class by_forms
brings qtype qc deadline truncated now = none
brings qtype qc deadline (answer r) now =
    if reached deadline now
    then none
    else if r.ttl == 0
    then none
    else if other_type qtype r.rtype
    then none
    else if other_class qc r.rclass
    then none
    else by_forms r (canonical_rdata r) (canonical_rdata_folded r)

-- The queue after the events: each answer in turn.
unfoldable pub expected :
    ℕ
    → ResourceType
    → ResourceClass
    → Option ℕ
    → List (QueryEvent × ℕ)
    → List CollectedAnswer
    → List CollectedAnswer
unfolding brings fifo
expected max qtype qc deadline [] l = l
expected max qtype qc deadline ((e, now) ∷ es) l =
    expected max qtype qc deadline es
      (elim (brings qtype qc deadline e now) [ some a ↦ fifo max l a | none ↦ l ])

-- The number plays no part.
holds-forget :
    (new : CollectedAnswer) (l : List CollectedAnswer)
    → holds (forget new) (map forget l) ≡ holds new l
unfolding holds is_same
holds-forget new [] = refl
holds-forget new (a ∷ l) = ap (λ b. is_same new a || b) (holds-forget new l)

length-map : (l : List CollectedAnswer) → length (map forget l) ≡ length l
length-map [] = refl
length-map (a ∷ l) = ap suc (length-map l)

map-drop : (l : List CollectedAnswer) → map forget (drop 1 l) ≡ drop 1 (map forget l)
map-drop [] = refl
map-drop (a ∷ l) = refl

fifo-forget :
    (max : ℕ) (l : List CollectedAnswer) (new : CollectedAnswer)
    → map forget (fifo max l new) ≡ fifo max (map forget l) (forget new)
unfolding fifo
fifo-forget max l new =
    let same = ap (λ b. b || max == 0) (holds-forget new l) in
    let size = ap (leb max) (length-map l) in
    elim (Bool-cases (holds new l || max == 0)) [
      | inl p ↦ rw (fifo, p, same ∙ p) refl
      | inr p ↦ elim (Bool-cases (leb max (length l))) [
        | inl f ↦
            rw (fifo, p, same ∙ p, f, size ∙ f)
              (map-append forget (drop 1 l) (new ∷ [])
                ∙ ap (λ k. k ++ forget new ∷ []) (map-drop l))
        | inr f ↦ rw (fifo, p, same ∙ p, f, size ∙ f) (map-append forget l (new ∷ []))
      ]
    ]

module _ {AN EV : Type 0} (store : Pool AN CollectedAnswer) where
  -- The answers in the order of their arrival, without their numbers.
  abbrev pub collected : Query AN EV → List CollectedAnswer
  collected q = map forget (queue_of store q.answers)

  unfoldable pub events : Query AN EV → List (QueryEvent × ℕ) → Query AN EV
  unfolding handle_event
  events q [] = q
  events q ((e, now) ∷ es) = events (handle_event store q e now) es

module _ {AN EV : Type 0} (store : Pool AN CollectedAnswer) (laws : IsPool store) (cap : Option ℕ)
    (bounded : Capacity store cap) where
  -- A step that brings an answer or nothing.
  abbrev Takes : Query AN EV → Query AN EV → Option CollectedAnswer → Type 0
  Takes q q' brought =
      (collected store q' ≡ elim brought [
        | some a ↦ fifo (limit q.max_answers cap) (collected store q) a
        | none ↦ collected store q
      ])
      × Numbered q'.next_seq (store.iter q'.answers)
      × (q'.next_seq ≤ q.next_seq + 1)

  if-Takes :
      (q q' : Query AN EV) (b : Bool) (brought : Option CollectedAnswer)
      → Takes q q none
      → Takes q q' brought
      → Takes q (if b then q else q') (if b then none else brought)
  if-Takes q q' true brought s h = s
  if-Takes q q' false brought s h = h

  forms-Takes :
      (q : Query AN EV) (r : Ref) (owned folded : Parsed (List ℕ))
      → q.next_seq < usize_max
      → Numbered q.next_seq (store.iter q.answers)
      → Takes q
          (elim owned [
            | ok o ↦ elim folded [ ok f ↦ collect store q (answer_of r o f q.next_seq) | _ ↦ q ]
            | _ ↦ q
          ])
          (by_forms r owned folded)
  unfolding by_forms
  forms-Takes q r (ok o) (ok f) room h =
      let c = collect-Fits store laws cap bounded q (answer_of r o f q.next_seq) refl room h in
      (
        ap (map forget) c.queue
            ∙ fifo-forget (limit q.max_answers cap) (queue_of store q.answers)
                (answer_of r o f q.next_seq),
        c.numbered,
        c.counted,
      )
  forms-Takes q r (ok o) (err x) room h = (refl, h, omega arith)
  forms-Takes q r (ok o) stuck room h = (refl, h, omega arith)
  forms-Takes q r (err x) folded room h = (refl, h, omega arith)
  forms-Takes q r stuck folded room h = (refl, h, omega arith)

  on_answer-Takes :
      (q : Query AN EV) (r : Ref) (now : ℕ)
      → q.next_seq < usize_max
      → Numbered q.next_seq (store.iter q.answers)
      → Takes q
          (if caller_window_shut q now then q else on_answer store q r)
          (brings q.qtype q.qclass q.timeout_deadline (answer r) now)
  unfolding on_answer brings caller_window_shut
  on_answer-Takes q r now room h =
      let s : Takes q q none = (refl, h, omega arith) in
      if-Takes q _ (caller_window_shut q now) _ s (
        if-Takes q _ (r.ttl == 0) _ s (
          if-Takes q _ (other_type q.qtype r.rtype) _ s (
            if-Takes q _ (other_class q.qclass r.rclass) _ s
              (forms-Takes q r (canonical_rdata r) (canonical_rdata_folded r) room h))))

  handle_event-Takes :
      (q : Query AN EV) (e : QueryEvent) (now : ℕ)
      → q.done ≡ false
      → q.next_seq < usize_max
      → Numbered q.next_seq (store.iter q.answers)
      → Takes q (handle_event store q e now) (brings q.qtype q.qclass q.timeout_deadline e now)
  unfolding handle_event brings
  handle_event-Takes q truncated now live room h = (refl, h, omega arith)
  handle_event-Takes q (answer r) now live room h =
      let shut : Query AN EV = if caller_window_shut q now then q else on_answer store q r in
      let e : handle_event store q (answer r) now ≡ shut = ap (λ b. if b then q else shut) live in
      subst (λ q'. Takes q q' (brings q.qtype q.qclass q.timeout_deadline (answer r) now)) (sym e)
        (on_answer-Takes q r now room h)

  -- A pool that refuses nothing, or one of a fixed capacity, and fewer answers than 2^64: whatever
  -- events reach a query that is not done, the answers that it holds, in the order of their arrival, are
  -- those that the events bring, one after the other into a queue without duplicates that drops its
  -- first where it is full, by the cap of the query or by the capacity of the pool.
  pub events-expected :
      (es : List (QueryEvent × ℕ)) (q : Query AN EV)
      → q.done ≡ false
      → q.next_seq + length es ≤ usize_max
      → Numbered q.next_seq (store.iter q.answers)
      → collected store (events store q es)
        ≡ expected
            (limit q.max_answers cap)
            q.qtype
            q.qclass
            q.timeout_deadline
            es
            (collected store q)
  unfolding events expected
  events-expected [] q live room h = refl
  events-expected ((e, now) ∷ es) q live room h =
      let (queue, numbered, counted) = handle_event-Takes q e now live (omega arith) h in
      elim (handle_event-Stores store q e now) [
        | stores a s same ↦
            let q' = handle_event store q e now in
            let ih =
              events-expected es q' (ap (λ (x : Query AN EV). x.done) same ∙ live) (omega arith)
                numbered in
            ih
            ∙ ap
                (λ (x : Query AN EV).
                  expected (limit x.max_answers cap) x.qtype x.qclass x.timeout_deadline es
                    (collected store q'))
                same
            ∙ ap (expected (limit q.max_answers cap) q.qtype q.qclass q.timeout_deadline es) queue
      ]
