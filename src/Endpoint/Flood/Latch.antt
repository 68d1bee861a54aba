-- ===== src/Endpoint/Flood/Latch.antt =====
-- A conflict that comes in, against the list of all the conflicts.
use hick.Prelude.{
  ℕ, ◌+◌, ◌-◌, ◌%◌, ◌≤◌, ◌≡◌, inl, inr, refl, sym, ap, ◌∙◌, arith, Bool, true, false, List, [], ◌∷◌,
  ◌++◌, Option, none, some, get_elem?, ltb, if◌then◌else◌, Bool-cases, Option-cases,
}
use mathlib.Core.Path.{subst}
use hick.Time.{Clock, IsClock}
use hick.Owner.{Name}
use hick.Endpoint.Flood.{
  ConflictFlood, conflict_burst_window, entry, stamp, longer, within, is_none, is_datagram,
  on_datagram, any_same_owner, release, write, engage, accept,
}
use hick.Endpoint.Flood.History.{quiet, close, burst, latch, Past, Past-get, Past-now}
use hick.Endpoint.Flood.Ring.{
  Entry, Entries, Refines, newest-Refines, write-Entries, Entries-quiet, Entries-later,
}

pub if-lem : {A : Type 0} (P : A → Type 0) (b : Bool) {x y : A} → P x → P y → P (if b then x else y)
if-lem P true p q = p
if-lem P false p q = q

stamped :
    (f : ConflictFlood) (hist : List ℕ) (now : ℕ) (held : Option ℕ) (b : Bool)
    → Entries f (now ∷ hist) now
    → f.latched_at ≡ held
    → let f' =
        if b then if is_none f.latched_at then record f { latched_at = some now } else f else f in
      Entries f' (now ∷ hist) now
      × (f'.latched_at
          ≡ (elim held [ some epoch ↦ some epoch | none ↦ if b then some now else none ]))
stamped f hist now none true e h =
    rw (h) (record { cursor = e.cursor; size = e.size; entries = e.entries }, refl)
stamped f hist now (some epoch) true e h =
    let engaged : is_none f.latched_at ≡ false = ap is_none h in rw (engaged) (e, h)
stamped f hist now none false e h = (e, h)
stamped f hist now (some epoch) false e h = (e, h)

module _ (clock : Clock) (laws : IsClock clock) where
  since-longer :
      (now t : ℕ)
      → t ≤ now
      → longer conflict_burst_window (clock.checked_duration_since now t)
        ≡ ltb conflict_burst_window (now - t)
  since-longer now t le = rw (laws.since now t le) refl

  -- What is left when a conflict comes in: a quiet window releases the latch.
  release-Refines :
      (f : ConflictFlood) (hist : List ℕ) (now : ℕ)
      → Refines f hist
      → Past hist now
      → Entries (release clock f now) hist now
        × ((release clock f now).latched_at ≡ (if quiet now hist then none else latch hist))
  unfolding release Past
  release-Refines f [] now r past =
      let q = newest-Refines f [] r.ring in
      rw (release, q) (Entries-later f [] 0 now (omega arith) r.ring, r.latched)
  release-Refines f (t ∷ ts) now r past =
      let q = newest-Refines f (t ∷ ts) r.ring in
      elim (Bool-cases (ltb conflict_burst_window (now - t))) [
        | inl gap ↦
            rw (release, q, since-longer now t past.0, gap)
              (Entries-quiet f (t ∷ ts) t now (Past-now ts t past.1) (ground arith), refl)
        | inr none_so ↦
            rw (release, q, since-longer now t past.0, none_so)
              (Entries-later f (t ∷ ts) t now past.0 r.ring, r.latched)
      ]

  -- The entry under the cursor answers whether fifteen conflicts fell within a window.
  oldest-burst :
      (hist : List ℕ) (now : ℕ) (r : Option ℕ)
      → Past hist now
      → Entry (now ∷ hist) now 14 r
      → (elim r [
        | none ↦ false
        | some oldest ↦ within conflict_burst_window (clock.checked_duration_since now oldest)
      ])
        ≡ burst now hist
  unfolding Entry
  oldest-burst hist now none past (inl e) = ap (close now) e
  oldest-burst hist now (some t) past (inl e) =
      let le = Past-get (now ∷ hist) now 14 (Past-now hist now past) (sym e) in
      rw (laws.since now t le) (ap (close now) e)
  oldest-burst hist now r past (inr (e, old)) = elim (Option-cases (get_elem? (now ∷ hist) 14)) [
    | inl q ↦ rw (e) (ap (close now) (sym q))
    | inr (t, q) ↦
        let gap = old t q in
        let far : close now (some t) ≡ false = ground arith in
        rw (e) (sym far ∙ ap (close now) (sym q))
  ]

  engage-eq :
      (f : ConflictFlood) (now : ℕ)
      → engage clock f now ≡ (
          if (elim (entry f.ring f.slot) [
            | none ↦ false
            | some oldest ↦ within conflict_burst_window (clock.checked_duration_since now oldest)
          ])
          then if is_none f.latched_at then record f { latched_at = some now } else f
          else f)
  unfolding engage
  engage-eq f now = elim (Option-cases (entry f.ring f.slot)) [
    | inl e ↦ rw (engage, e) refl
    | inr (t, e) ↦ rw (engage, e) refl
  ]

  -- The last test, for whatever the latch held before.
  engage-latched :
      (f : ConflictFlood) (hist : List ℕ) (now : ℕ) (held : Option ℕ)
      → Entries f (now ∷ hist) now
      → Past hist now
      → f.latched_at ≡ held
      → Entries (engage clock f now) (now ∷ hist) now
        × ((engage clock f now).latched_at ≡ (elim held [
          | some epoch ↦ some epoch
          | none ↦ if burst now hist then some now else none
        ]))
  engage-latched f hist now held e past h =
      let at : (f.slot + 14 - 14) % 15 ≡ f.slot = omega (arith, e.cursor) in
      let under =
        subst (Entry (now ∷ hist) now 14) (ap (entry f.ring) at) (e.entries 14 (omega arith)) in
      let test = oldest-burst hist now (entry f.ring f.slot) past under in
      rw (engage-eq f now, test) (stamped f hist now held (burst now hist) e h)

  -- A conflict that is counted.
  count-Refines :
      (f : ConflictFlood) (hist : List ℕ) (now : ℕ)
      → Refines f hist
      → Past hist now
      → Refines (engage clock (write (release clock f now) now) now) (now ∷ hist)
  unfolding latch
  count-Refines f hist now r past =
      let (ring, held) = release-Refines f hist now r past in
      let (ring', same) = write-Entries (release clock f now) hist now ring in
      let (ring'', stamp) =
        engage-latched (write (release clock f now) now) hist now
          (if quiet now hist then none else latch hist) ring' past (same ∙ held) in
      record { ring = ring''; latched = stamp }

  -- The names and the datagram are no part of it.
  Refines-names :
      (f : ConflictFlood) (hist : List ℕ) (datagram : Option ℕ) (names : List Name)
      → Refines f hist
      → Refines (record f { datagram = datagram; accepted = names }) hist
  Refines-names f hist datagram names r = record {
    ring = record { cursor = r.ring.cursor; size = r.ring.size; entries = r.ring.entries };
    latched = r.latched;
  }

  on_datagram-Refines :
      (f : ConflictFlood) (hist : List ℕ) (datagram : ℕ)
      → Refines f hist
      → Refines (on_datagram f datagram) hist
  unfolding on_datagram
  on_datagram-Refines f hist datagram r =
      if-lem (λ f'. Refines f' hist) (is_datagram f.datagram datagram) r
        (Refines-names f hist (some datagram) [] r)

  pub accept-Refines :
      (f : ConflictFlood) (hist : List ℕ) (now datagram : ℕ) (owner : Name)
      → Refines f hist
      → Past hist now
      → let (f', counted) = accept clock f now datagram owner in
        Refines f' (if counted then now ∷ hist else hist)
  unfolding accept
  accept-Refines f hist now datagram owner r past =
      let f' = on_datagram f datagram in
      let r' = on_datagram-Refines f hist datagram r in
      elim (Bool-cases (any_same_owner f'.accepted owner)) [
        | inl p ↦ rw (accept, p) r'
        | inr p ↦
            rw (accept, p)
              (count-Refines (record f' { accepted = f'.accepted ++ (owner ∷ []) }) hist now
                (Refines-names f' hist f'.datagram (f'.accepted ++ (owner ∷ [])) r') past)
      ]
