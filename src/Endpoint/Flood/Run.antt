-- ===== src/Endpoint/Flood/Run.antt =====
-- The conflict flood over any number of conflicts.
use hick.Prelude.{
  ℕ, ◌+◌, ◌-◌, ◌%◌, ◌≤◌, ◌≡◌, ◌↔◌, inl, inr, refl, arith, Bool, true, false, not, List, [], ◌∷◌,
  Option, none, some, ltb, leb, if◌then◌else◌, Bool-cases, Option-cases,
}
use hick.Time.{Clock, IsClock}
use hick.Owner.{Name}
use hick.Endpoint.Flood.{
  ConflictFlood, conflict_burst_window, empty, newest, is_none, accept, latch_epoch, in_force,
}
use hick.Endpoint.Flood.History.{quiet, burst, latch, epoch_at, Past}
use hick.Endpoint.Flood.Ring.{Entry, Refines, newest-Refines, entry-none_of}
use hick.Endpoint.Flood.Latch.{accept-Refines, if-lem}

-- A classified conflict: when its datagram was received, which datagram that was, and the name.
pub record Conflict : Type 0 where
  pub received_at : ℕ
  pub datagram : ℕ
  pub owner : Name

-- Conflicts in the order of their arrival, from an instant on, and until another one.
abbrev pub InOrder : ℕ → List Conflict → ℕ → Type 0
InOrder from [] until = from ≤ until
InOrder from (c ∷ cs) until = (from ≤ c.received_at) × InOrder c.received_at cs until

-- No conflict yet.
start-Refines : Refines empty []
unfolding latch Entry
start-Refines = record {
  ring = record {
    cursor = omega arith;
    size = refl;
    entries = λ i lt. inl (entry-none_of 15 ((0 + 14 - i) % 15));
  };
  latched = refl;
}

Past-later : (hist : List ℕ) (now later : ℕ) → now ≤ later → Past hist now → Past hist later
unfolding Past
Past-later [] now later le past = tt
Past-later (t ∷ ts) now later le past = (omega (arith, past.0), past.1)

-- The endpoint after the conflicts, and the instants of those that it counted, the newest first.
unfoldable pub run : Clock → List Conflict → ConflictFlood × List ℕ → ConflictFlood × List ℕ
unfolding accept
run clock [] (f, hist) = (f, hist)
run clock (c ∷ cs) (f, hist) =
    let (f', counted) = accept clock f c.received_at c.datagram c.owner in
    run clock cs (f', if counted then c.received_at ∷ hist else hist)

-- The limit engaged, and no quiet window has released it: fifteen conflicts fell within a window,
-- and from there on no gap between two conflicts was longer than a window.
pub data Engaged : List ℕ → Type 0 where
  fifteen : {t : ℕ} {ts : List ℕ} → burst t ts ≡ true → Engaged (t ∷ ts)
  still : {t : ℕ} {ts : List ℕ} → quiet t ts ≡ false → Engaged ts → Engaged (t ∷ ts)

latch-Engaged : (ts : List ℕ) {epoch : ℕ} → latch ts ≡ some epoch → Engaged ts
unfolding latch
latch-Engaged [] h = cc
latch-Engaged (t ∷ ts) {epoch} h = elim (Bool-cases (quiet t ts)) [
  | inl q ↦ elim (Bool-cases (burst t ts)) [
    | inl b ↦ fifteen b
    | inr b ↦ let e : latch (t ∷ ts) ≡ none = rw (latch, q, b) refl in cc
  ]
  | inr q ↦ elim (Option-cases (latch ts)) [
    | inr (x, e) ↦ still q (latch-Engaged ts e)
    | inl n ↦ elim (Bool-cases (burst t ts)) [
      | inl b ↦ fifteen b
      | inr b ↦ let e : latch (t ∷ ts) ≡ none = rw (latch, q, n, b) refl in cc
    ]
  ]
]

or_now :
    (held : Option ℕ) (b : Bool) (t : ℕ)
    → b ≡ true
    → (x : ℕ) × ((elim held [ some e ↦ some e | none ↦ if b then some t else none ]) ≡ some x)
or_now none b t h = (t, rw (h) refl)
or_now (some e) b t h = (e, refl)

Engaged-latch : {ts : List ℕ} → Engaged ts → (epoch : ℕ) × (latch ts ≡ some epoch)
unfolding latch
Engaged-latch (fifteen {t} {ts} b) = or_now (if quiet t ts then none else latch ts) (burst t ts) t b
Engaged-latch (still {t} {ts} q more) =
    let (x, e) = Engaged-latch more in (x, rw (latch, q, e) refl)

epoch_at_iff :
    (hist : List ℕ) (now : ℕ)
    → (not (is_none (epoch_at hist now)) ≡ true) ↔ ((quiet now hist ≡ false) × Engaged hist)
unfolding epoch_at
epoch_at_iff hist now = elim (Bool-cases (quiet now hist)) [
  | inl q ↦ rw (epoch_at, q) (λ h. cc, λ c. cc)
  | inr q ↦ elim (Option-cases (latch hist)) [
    | inl e ↦ rw (epoch_at, q, e) (λ h. cc, λ c. let (x, held) = Engaged-latch c.1 in cc)
    | inr (x, e) ↦ rw (epoch_at, q, e) (λ h. (refl, latch-Engaged hist e), λ c. refl)
  ]
]

module _ (clock : Clock) (laws : IsClock clock) where
  run-Refines :
      (cs : List Conflict) (f : ConflictFlood) (hist : List ℕ) (from now : ℕ)
      → Refines f hist
      → Past hist from
      → InOrder from cs now
      → let (f', hist') = run clock cs (f, hist) in Refines f' hist' × Past hist' now
  unfolding run Past
  run-Refines [] f hist from now r past order = (r, Past-later hist from now order past)
  run-Refines (c ∷ cs) f hist from now r past order =
      let past' = Past-later hist from c.received_at order.0 past in
      let step = accept clock f c.received_at c.datagram c.owner in
      run-Refines cs step.0 (if step.1 then c.received_at ∷ hist else hist) c.received_at now
        (accept-Refines clock laws f hist c.received_at c.datagram c.owner r past')
        (if-lem (λ h. Past h c.received_at) step.1 (omega arith, past') past') order.1

  latch_epoch-eq :
      (f : ConflictFlood) (now t since : ℕ) (held : Option ℕ)
      → f.latched_at ≡ held
      → newest f ≡ some t
      → clock.checked_duration_since now t ≡ some since
      → latch_epoch clock f now ≡ (if ltb conflict_burst_window since then none else held)
  unfolding latch_epoch
  latch_epoch-eq f now t since none h new d =
      rw (latch_epoch, h)
        (if-lem (λ (x : Option ℕ). none ≡ x) (ltb conflict_burst_window since) {x = none} {y = none}
          refl refl)
  latch_epoch-eq f now t since (some x) h new d =
      elim (Bool-cases (ltb conflict_burst_window since)) [
        | inl p ↦
            let q : leb since conflict_burst_window ≡ false = ground arith in
            rw (latch_epoch, h, new, d, q, p) refl
        | inr p ↦
            let q : leb since conflict_burst_window ≡ true = ground arith in
            rw (latch_epoch, h, new, d, q, p) refl
      ]

  Refines-epoch :
      (f : ConflictFlood) (hist : List ℕ) (now : ℕ)
      → Refines f hist
      → Past hist now
      → latch_epoch clock f now ≡ epoch_at hist now
  unfolding epoch_at Past latch_epoch latch
  Refines-epoch f [] now r past = rw (latch_epoch, r.latched) refl
  Refines-epoch f (t ∷ ts) now r past =
      latch_epoch-eq f now t (now - t) (latch (t ∷ ts)) r.latched (newest-Refines f (t ∷ ts) r.ring)
        (laws.since now t past.0)

  -- Over conflicts that arrive in the order of the clock, from a fresh endpoint on, the ring of fifteen
  -- instants and the latch answer at every later instant what all the conflicts that were counted
  -- answer.
  pub run-latch_epoch :
      (cs : List Conflict) (now : ℕ)
      → InOrder 0 cs now
      → let (f, hist) = run clock cs (empty, []) in latch_epoch clock f now ≡ epoch_at hist now
  unfolding Past
  run-latch_epoch cs now order =
      let (f, hist) = run clock cs (empty, []) in
      let (r, past) = run-Refines cs empty [] 0 now start-Refines tt order in
      Refines-epoch f hist now r past

  -- Over conflicts that arrive in the order of the clock, from a fresh endpoint on: the limit is in
  -- force at a later instant exactly when no more than ten seconds lie behind the last conflict that
  -- was counted, and some fifteen counted conflicts fell within ten seconds, and no gap between
  -- counted conflicts was longer since.
  pub run-in_force_iff :
      (cs : List Conflict) (now : ℕ)
      → InOrder 0 cs now
      → let (f, hist) = run clock cs (empty, []) in
        (in_force clock f now ≡ true) ↔ ((quiet now hist ≡ false) × Engaged hist)
  unfolding in_force
  run-in_force_iff cs now order =
      let (f, hist) = run clock cs (empty, []) in
      rw (in_force, run-latch_epoch cs now order) (epoch_at_iff hist now)
