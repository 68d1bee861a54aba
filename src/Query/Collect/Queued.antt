-- ===== src/Query/Collect/Queued.antt =====
-- A new answer in the queue of those that a query has collected.
use mathlib.Core.Path.{subst}
use hick.Prelude.{
  ℕ, suc, ◌+◌, ◌-◌, true, false, ◌||◌, Option, ◌≤◌, ◌<◌, ◌≡◌, inl, inr, refl, sym, ◌∙◌, ap, arith,
  List, [], ◌∷◌, ◌++◌, none, some, All-append, All-append_left, All-append_right, Bool-cases,
  Option-cases, length, leb, ◌==◌, drop, saturating_add, usize_max, length-drop,
}
use hick.Cache.Lists.{without, first_key}
use hick.Cache.Backing.{Pool, IsPool}
use hick.Query.{Query}
use hick.Query.Collect.{
  CollectedAnswer, is_same, oldest, evict_oldest, is_full, insert_answer, collect,
}
use hick.Query.Collect.Capacity.{
  Capacity, limit, limit_zero, limit_positive, accepts, vacancy, nothing_held,
}
use hick.Query.Collect.Fifo.{
  arrange, fifo, Numbered, arrange-insert, length-arrange, arrange-oldest, first_key-arrange,
}

length-nil : (l : List (ℕ × CollectedAnswer)) → length l ≡ 0 → l ≡ []
length-nil [] e = refl
length-nil (a ∷ l) e = absurd (omega arith)

without-Numbered :
    (n k : ℕ) (l : List (ℕ × CollectedAnswer)) → Numbered n l → Numbered n (without k l)
without-Numbered n k [] h = tt
without-Numbered n k (e ∷ l) h = elim (Bool-cases (k == e.0)) [
  | inl p ↦ rw (p) (without-Numbered n k l h.1)
  | inr p ↦ rw (p) (h.0, without-Numbered n k l h.1)
]

Numbered-later : (n : ℕ) (l : List (ℕ × CollectedAnswer)) → Numbered n l → Numbered (suc n) l
Numbered-later n [] h = tt
Numbered-later n (e ∷ l) h = (omega (arith, h.0), Numbered-later n l h.1)

module _ {AN : Type 0} (store : Pool AN CollectedAnswer) where
  -- The answers in the order of their numbers.
  abbrev pub queue_of : AN → List CollectedAnswer
  queue_of a = arrange (store.iter a)

module _ {AN : Type 0} (store : Pool AN CollectedAnswer) (laws : IsPool store) where
  evict_oldest-queue : (a : AN) → queue_of store (evict_oldest store a) ≡ drop 1 (queue_of store a)
  unfolding evict_oldest
  evict_oldest-queue a = elim (Option-cases (oldest (store.iter a) none)) [
    | inl e ↦ rw (evict_oldest, e) (rw e at (arrange-oldest (store.iter a) (laws.iter-Distinct a)))
    | inr ((k, s), e) ↦
        rw (evict_oldest, e, laws.try_remove-iter a k)
          (rw e at (arrange-oldest (store.iter a) (laws.iter-Distinct a)))
  ]

  evict_oldest-Numbered :
      (a : AN) (n : ℕ) → Numbered n (store.iter a) → Numbered n (store.iter (evict_oldest store a))
  unfolding evict_oldest
  evict_oldest-Numbered a n h = elim (Option-cases (oldest (store.iter a) none)) [
    | inl e ↦ rw (evict_oldest, e) h
    | inr ((k, s), e) ↦
        rw (evict_oldest, e, laws.try_remove-iter a k) (without-Numbered n k (store.iter a) h)
  ]

  length-evict_oldest :
      (a : AN) → length (store.iter (evict_oldest store a)) ≡ length (store.iter a) - 1
  length-evict_oldest a =
      let less = ap length (evict_oldest-queue a) in
      omega (
        arith,
        less,
        length-drop 1 (queue_of store a),
        length-arrange (store.iter a),
        length-arrange (store.iter (evict_oldest store a)),
      )

  -- Where there is room at all, there is room where one answer fewer is held.
  accepts_behind :
      (cap : Option ℕ)
      → Capacity store cap
      → (max : ℕ) (a : AN) (v : CollectedAnswer) → (limit max cap == 0) ≡ false
      → (k : ℕ) × ((store.insert (evict_oldest store a) v).1 ≡ some k)
  accepts_behind none holds max a v some_room = holds (evict_oldest store a) v
  accepts_behind (some c) holds max a v some_room =
      (holds (evict_oldest store a)).1 v
        (let fits = (holds a).0 in let less = length-evict_oldest a in ground arith)

module _ {AN EV : Type 0} (store : Pool AN CollectedAnswer) (laws : IsPool store) where
  -- What a step makes of a query: its queue, and numbers that are still below the next.
  pub record Fits (q q' : Query AN EV) (l : List CollectedAnswer) : Type 0 where
    pub queue : queue_of store q'.answers ≡ l
    pub numbered : Numbered q'.next_seq (store.iter q'.answers)
    pub counted : q'.next_seq ≤ q.next_seq + 1

  insert_answer-Fits :
      (q : Query AN EV) (new : CollectedAnswer) (k : ℕ)
      → (store.insert q.answers new).1 ≡ some k
      → new.seq ≡ q.next_seq
      → q.next_seq < usize_max
      → Numbered q.next_seq (store.iter q.answers)
      → Fits q (insert_answer store q new) (queue_of store q.answers ++ new ∷ [])
  unfolding insert_answer
  insert_answer-Fits q new k e same room h =
      let i = laws.insert-ok q.answers new k e in
      let apart : Numbered q.next_seq (i.before ++ i.after) = subst (Numbered q.next_seq) i.old h in
      let below : Numbered new.seq (i.before ++ i.after) =
        subst (λ n. Numbered n (i.before ++ i.after)) (sym same) apart in
      let later = Numbered-later q.next_seq (i.before ++ i.after) apart in
      let more : saturating_add q.next_seq 1 ≡ suc q.next_seq = omega arith in
      let P : ℕ × CollectedAnswer → Type 0 = λ x. x.1.seq < suc q.next_seq in
      let all : Numbered (suc q.next_seq) (store.iter (store.insert q.answers new).0) =
        subst (Numbered (suc q.next_seq)) (sym i.new) (
          All-append P i.before ((k, new) ∷ i.after) (All-append_left P i.before i.after later)
            (omega arith, All-append_right P i.before i.after later)) in
      rw (insert_answer, e)
        (record {
          queue =
              ap arrange i.new
              ∙ arrange-insert k new i.before i.after below
              ∙ ap (λ l. arrange l ++ new ∷ []) (sym i.old);
          numbered =
              subst (λ n. Numbered n (store.iter (store.insert q.answers new).0)) (sym more) all;
          counted = omega arith;
        })

  pub stays :
      (q : Query AN EV)
      → Numbered q.next_seq (store.iter q.answers)
      → Fits q q (queue_of store q.answers)
  stays q h = record { queue = refl; numbered = h; counted = omega arith }

  is_full-eq :
      (cap : Option ℕ)
      → Capacity store cap
      → (q : Query AN EV) (new : CollectedAnswer)
      → is_full store q ≡ leb (limit q.max_answers cap) (length (store.iter q.answers))
  unfolding is_full
  is_full-eq cap holds q new =
      let size = laws.len-iter q.answers in
      let vacant = laws.vacant_key-insert q.answers new in
      ap
        (λ n.
          leb q.max_answers n || elim (store.vacant_key q.answers) [ none ↦ true | some _ ↦ false ])
        size
      ∙ ap
          (λ o.
            leb q.max_answers (length (store.iter q.answers))
            || elim o [ none ↦ true | some _ ↦ false ])
          vacant
      ∙ vacancy store laws cap holds q.max_answers q.answers new

  -- Where nothing can be held, nothing is.
  refused-Fits :
      (cap : Option ℕ)
      → Capacity store cap
      → (q : Query AN EV) (new : CollectedAnswer) → (q.max_answers == 0) ≡ false
      → (limit q.max_answers cap == 0) ≡ true
      → Numbered q.next_seq (store.iter q.answers)
      → Fits q
          (insert_answer store (record q { answers = evict_oldest store q.answers }) new)
          (queue_of store q.answers)
  unfolding insert_answer
  refused-Fits cap holds q new some_room no_room h =
      let left = evict_oldest store q.answers in
      let (here, _) =
        nothing_held store laws cap holds q.max_answers q.answers new some_room no_room in
      let (empty, refused) =
        nothing_held store laws cap holds q.max_answers left new some_room no_room in
      let same = laws.insert-err left new refused in
      let none_left : store.iter (store.insert left new).0 ≡ store.iter q.answers =
        same ∙ length-nil (store.iter left) empty ∙ sym (length-nil (store.iter q.answers) here) in
      rw (insert_answer, refused)
        (record {
          queue = ap arrange none_left;
          numbered = subst (Numbered q.next_seq) (sym none_left) h;
          counted = omega arith;
        })

  pub collect-Fits :
      (cap : Option ℕ)
      → Capacity store cap
      → (q : Query AN EV) (new : CollectedAnswer) → new.seq ≡ q.next_seq
      → q.next_seq < usize_max
      → Numbered q.next_seq (store.iter q.answers)
      → Fits q (collect store q new) (fifo (limit q.max_answers cap) (queue_of store q.answers) new)
  unfolding collect fifo
  collect-Fits cap holds q new same room h =
      let old = store.iter q.answers in
      let l = queue_of store q.answers in
      let most = limit q.max_answers cap in
      let size : leb most (length l) ≡ leb most (length old) = ap (leb most) (length-arrange old) in
      elim (Option-cases (first_key (is_same new) old)) [
        | inr (k, e) ↦
            let known = rw e at (first_key-arrange new old) in
            rw (collect, e) (rw (fifo, sym known) (stays q h))
        | inl e ↦
            let fresh = rw e at (first_key-arrange new old) in
            elim (Bool-cases (q.max_answers == 0)) [
              | inl z ↦
                  let no_room = limit_zero q.max_answers cap z in
                  rw (collect, e, z) (rw (fifo, sym fresh, no_room) (stays q h))
              | inr z ↦ elim (Bool-cases (is_full store q)) [
                | inl f ↦
                    let full = size ∙ sym (is_full-eq cap holds q new) ∙ f in
                    elim (Bool-cases (most == 0)) [
                      | inl no_room ↦
                          rw (collect, e, z, f)
                            (rw (fifo, sym fresh, no_room)
                              (refused-Fits cap holds q new z no_room h))
                      | inr some_room ↦
                          let rest : Query AN EV = record q {
                            answers = evict_oldest store q.answers;
                          } in
                          let (k, taken) =
                            accepts_behind store laws cap holds q.max_answers q.answers new
                              some_room in
                          let i =
                            insert_answer-Fits rest new k taken same room
                              (evict_oldest-Numbered store laws q.answers q.next_seq h) in
                          rw (collect, e, z, f)
                            (rw (fifo, sym fresh, some_room, full)
                              (record {
                                queue =
                                    i.queue
                                    ∙ ap (λ l. l ++ new ∷ [])
                                        (evict_oldest-queue store laws q.answers);
                                numbered = i.numbered;
                                counted = i.counted;
                              }))
                    ]
                | inr f ↦
                    let free = sym (is_full-eq cap holds q new) ∙ f in
                    let some_room = limit_positive most (length old) free in
                    let (k, taken) =
                      accepts store laws cap holds q.max_answers q.answers new free in
                    rw (collect, e, z, f)
                      (rw (fifo, sym fresh, some_room, size ∙ free)
                        (insert_answer-Fits q new k taken same room h))
              ]
            ]
      ]
