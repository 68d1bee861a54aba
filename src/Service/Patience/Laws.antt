-- ===== src/Service/Patience/Laws.antt =====
-- When a phase advances, and how long that takes.
use hick.Prelude.{
  ℕ, ◌+◌, ◌-◌, ◌*◌, ◌≤◌, ◌≡◌, ◌≢◌, ◌↔◌, ◌⊎◌, inl, inr, refl, sym, arith, Bool, true, false, ◌&&◌,
  List, [], ◌∷◌, if◌then◌else◌, All,
}
use mathlib.Core.Path.{subst}
use hick.Transmit.{FamilyDelivery, TransmitDelivery, any_delivered, any_missed}
use hick.Service.Patience.{FamilyPatience, failed, advances, classify_advance}

abbrev pub Patience : Type 0
Patience = FamilyPatience × FamilyPatience

-- A family that may hold no phase in this round: it did not miss the datagram, it has carried it
-- since the last advance, it has missed it twice before, or it has been written off already.
abbrev pub Excusable : FamilyPatience → FamilyDelivery → Type 0
Excusable p d =
    (d ≢ FamilyDelivery.missed) ⊎ (p.covered ≡ true) ⊎ (2 ≤ p.missed) ⊎ (p.stalled ≡ true)

earned :
    (p4 p6 : FamilyPatience) (v4 v6 : FamilyDelivery)
    → advances (classify_advance (p4, p6) (record { v4 = v4; v6 = v6 })).1 ≡ true
    → (any_delivered (record { v4 = v4; v6 = v6 }) ≡ true) × Excusable p4 v4 × Excusable p6 v6
unfolding advances classify_advance any_delivered any_missed
earned p4 p6 FamilyDelivery.unobligated FamilyDelivery.unobligated h = ground arith
earned p4 p6 FamilyDelivery.unobligated FamilyDelivery.delivered h = ground arith
earned p4 p6 FamilyDelivery.unobligated FamilyDelivery.missed h = ground arith
earned p4 p6 FamilyDelivery.delivered FamilyDelivery.unobligated h = ground arith
earned p4 p6 FamilyDelivery.delivered FamilyDelivery.delivered h = ground arith
earned p4 p6 FamilyDelivery.delivered FamilyDelivery.missed h = ground arith
earned p4 p6 FamilyDelivery.missed FamilyDelivery.unobligated h = ground arith
earned p4 p6 FamilyDelivery.missed FamilyDelivery.delivered h = ground arith
earned p4 p6 FamilyDelivery.missed FamilyDelivery.missed h = ground arith

unearned :
    (p4 p6 : FamilyPatience) (v4 v6 : FamilyDelivery)
    → any_delivered (record { v4 = v4; v6 = v6 }) ≡ true
    → Excusable p4 v4
    → Excusable p6 v6
    → advances (classify_advance (p4, p6) (record { v4 = v4; v6 = v6 })).1 ≡ true
unfolding advances classify_advance any_delivered any_missed
unearned p4 p6 FamilyDelivery.unobligated FamilyDelivery.unobligated h x4 x6 = ground arith
unearned p4 p6 FamilyDelivery.unobligated FamilyDelivery.delivered h x4 x6 = ground arith
unearned p4 p6 FamilyDelivery.unobligated FamilyDelivery.missed h x4 x6 = ground arith
unearned p4 p6 FamilyDelivery.delivered FamilyDelivery.unobligated h x4 x6 = ground arith
unearned p4 p6 FamilyDelivery.delivered FamilyDelivery.delivered h x4 x6 = ground arith
unearned p4 p6 FamilyDelivery.delivered FamilyDelivery.missed h x4 x6 = ground arith
unearned p4 p6 FamilyDelivery.missed FamilyDelivery.unobligated h x4 x6 = ground arith
unearned p4 p6 FamilyDelivery.missed FamilyDelivery.delivered h x4 x6 = ground arith
unearned p4 p6 FamilyDelivery.missed FamilyDelivery.missed h x4 x6 = ground arith

-- A phase advances in exactly the rounds in which some family carried the datagram, and no family
-- that missed it is still owed a wait. So silence never advances a phase.
pub classify_advance_iff :
    (p4 p6 : FamilyPatience) (d : TransmitDelivery)
    → (advances (classify_advance (p4, p6) d).1 ≡ true)
      ↔ ((any_delivered d ≡ true) × Excusable p4 d.v4 × Excusable p6 d.v6)
classify_advance_iff p4 p6 d =
    (λ h. earned p4 p6 d.v4 d.v6 h, λ h. unearned p4 p6 d.v4 d.v6 h.0 h.1 h.2)

-- The rounds of a producer, one confirm after the other: the patience after them, how many of them
-- advanced the phase, and how many reached a wire.
unfoldable pub rounds : List TransmitDelivery → Patience → Patience × ℕ × ℕ
rounds [] p = (p, 0, 0)
rounds (d ∷ ds) p =
    let (p', advance) = classify_advance p d in
    let (q, advanced, reached) = rounds ds p' in
    (
      q,
      (if advances advance then advanced + 1 else advanced),
      (if any_delivered d then reached + 1 else reached),
    )

-- What a family does in a round: one that the host has a socket for misses the datagram where no family
-- delivers it, and may do anything where one does; one without a socket is never obligated.
abbrev pub KeptBy : Bool → Bool → FamilyDelivery → Type 0
KeptBy true live v = (live ≡ true) ⊎ (v ≡ FamilyDelivery.missed)
KeptBy false live v = v ≡ FamilyDelivery.unobligated

abbrev pub Kept : Bool → Bool → TransmitDelivery → Type 0
Kept has_v4 has_v6 d = KeptBy has_v4 (any_delivered d) d.v4 × KeptBy has_v6 (any_delivered d) d.v6

-- How many rounds may reach a wire before the phase advances, with `both` families: with one of
-- them each does.
abbrev pub owed : Bool → Patience → ℕ
owed false p = 2
owed true (p4, p6) =
    if p4.covered
    then (if p6.covered then 2 else 2 - p6.missed)
    else if p6.covered
    then 2 - p4.missed
    else 2

owed-live :
    (p4 p6 : FamilyPatience) (v4 v6 : FamilyDelivery)
    → any_delivered (record { v4 = v4; v6 = v6 }) ≡ true
    → let (p', advance) = classify_advance (p4, p6) (record { v4 = v4; v6 = v6 }) in
      1 + owed true p' ≤ (if advances advance then 3 + owed true (p4, p6) else owed true (p4, p6))
unfolding advances classify_advance any_delivered any_missed
owed-live p4 p6 FamilyDelivery.unobligated FamilyDelivery.unobligated h = ground arith
owed-live p4 p6 FamilyDelivery.unobligated FamilyDelivery.delivered h = ground arith
owed-live p4 p6 FamilyDelivery.unobligated FamilyDelivery.missed h = ground arith
owed-live p4 p6 FamilyDelivery.delivered FamilyDelivery.unobligated h = ground arith
owed-live p4 p6 FamilyDelivery.delivered FamilyDelivery.delivered h = ground arith
owed-live p4 p6 FamilyDelivery.delivered FamilyDelivery.missed h = ground arith
owed-live p4 p6 FamilyDelivery.missed FamilyDelivery.unobligated h = ground arith
owed-live p4 p6 FamilyDelivery.missed FamilyDelivery.delivered h = ground arith
owed-live p4 p6 FamilyDelivery.missed FamilyDelivery.missed h = ground arith

-- A round of silence that both families miss leaves the patience as it was.
silent :
    (p4 p6 : FamilyPatience) (v4 v6 : FamilyDelivery)
    → v4 ≡ FamilyDelivery.missed
    → v6 ≡ FamilyDelivery.missed
    → (classify_advance (p4, p6) (record { v4 = v4; v6 = v6 }) ≡ ((p4, p6), failed))
      × (any_delivered (record { v4 = v4; v6 = v6 }) ≡ false)
unfolding classify_advance any_delivered
silent p4 p6 v4 v6 h4 h6 = rw (h4, h6) (refl, refl)

pub owed-le : (both : Bool) (p : Patience) → owed both p ≤ 2
owed-le false p = omega arith
owed-le true p = ground arith

-- What a round costs, where it reaches a wire, is paid by its advance or out of what is owed.
abbrev pub Paid : Bool → Patience → TransmitDelivery → Type 0
Paid both p d =
    let (p', advance) = classify_advance p d in
    (if any_delivered d then 1 else 0) + owed both p'
    ≤ (if advances advance then 3 + owed both p else owed both p)

missed_live :
    (p : Patience) (v4 v6 : FamilyDelivery)
    → any_delivered (record { v4 = v4; v6 = v6 }) ≡ true
    → Paid true p (record { v4 = v4; v6 = v6 })
missed_live (p4, p6) v4 v6 live = rw (live) (owed-live p4 p6 v4 v6 live)

missed_both :
    (p : Patience) (v4 v6 : FamilyDelivery)
    → v4 ≡ FamilyDelivery.missed
    → v6 ≡ FamilyDelivery.missed
    → Paid true p (record { v4 = v4; v6 = v6 })
unfolding advances
missed_both (p4, p6) v4 v6 m4 m6 =
    let (same, quiet) = silent p4 p6 v4 v6 m4 m6 in rw (quiet, same) (omega arith)

-- With one family at most, a round that reaches a wire advances.
alone_v4 :
    (p : Patience) (v4 : FamilyDelivery)
    → Paid false p (record { v4 = v4; v6 = FamilyDelivery.unobligated })
unfolding advances classify_advance any_delivered any_missed
alone_v4 (p4, p6) FamilyDelivery.unobligated = ground arith
alone_v4 (p4, p6) FamilyDelivery.delivered = ground arith
alone_v4 (p4, p6) FamilyDelivery.missed = ground arith

alone_v6 :
    (p : Patience) (v6 : FamilyDelivery)
    → Paid false p (record { v4 = FamilyDelivery.unobligated; v6 = v6 })
unfolding advances classify_advance any_delivered any_missed
alone_v6 (p4, p6) FamilyDelivery.unobligated = ground arith
alone_v6 (p4, p6) FamilyDelivery.delivered = ground arith
alone_v6 (p4, p6) FamilyDelivery.missed = ground arith

pub owed-step :
    (has_v4 has_v6 : Bool) (p : Patience) (d : TransmitDelivery)
    → Kept has_v4 has_v6 d
    → Paid (has_v4 && has_v6) p d
owed-step true true p d (inl live, _) = missed_live p d.v4 d.v6 live
owed-step true true p d (inr m4, inl live) = missed_live p d.v4 d.v6 live
owed-step true true p d (inr m4, inr m6) = missed_both p d.v4 d.v6 m4 m6
owed-step true false p d (_, never) =
    subst (λ v. Paid false p (record { v4 = d.v4; v6 = v })) (sym never) (alone_v4 p d.v4)
owed-step false has_v6 p d (never, _) =
    subst (λ v. Paid false p (record { v4 = v; v6 = d.v6 })) (sym never) (alone_v6 p d.v6)

owed-rounds :
    (has_v4 has_v6 : Bool) (ds : List TransmitDelivery) (p : Patience)
    → All (Kept has_v4 has_v6) ds
    → let (_, advanced, reached) = rounds ds p in reached ≤ 3 * advanced + owed (has_v4 && has_v6) p
unfolding rounds advances
owed-rounds has_v4 has_v6 [] p h = omega arith
owed-rounds has_v4 has_v6 (d ∷ ds) p h =
    let ih = owed-rounds has_v4 has_v6 ds (classify_advance p d).0 h.1 in
    let step = owed-step has_v4 has_v6 p d h.0 in ground arith

-- On a host with sockets for both families, for one or for none: of any three rounds that reach a
-- wire one advances the phase. Over a run in which a family that the host has misses every datagram
-- that no family delivers, and a family that it does not have is never obligated, the rounds that
-- reach a wire are at most three for each advance, and two more. So a family that never delivers
-- holds no phase for ever.
pub rounds_bound :
    (has_v4 has_v6 : Bool) (ds : List TransmitDelivery) (p : Patience)
    → All (Kept has_v4 has_v6) ds
    → let (_, advanced, reached) = rounds ds p in reached ≤ 3 * advanced + 2
rounds_bound has_v4 has_v6 ds p h =
    omega (arith, owed-rounds has_v4 has_v6 ds p h, owed-le (has_v4 && has_v6) p)
