-- ===== src/Service/Patience.antt =====
-- mdns-proto/src/service/schedule.rs: how long the core waits for an address family that misses a
-- datagram which another family carries.
pub mod Laws
use hick.Prelude.{ℕ, ◌+◌, Bool, true, false, not, ◌&&◌, ◌||◌, ltb, min, if◌then◌else◌}
use hick.Transmit.{FamilyDelivery, TransmitDelivery, any_delivered, any_missed}

abbrev pub max_partial_rounds : ℕ
max_partial_rounds = 2

pub record FamilyPatience : Type 0 where
  pub missed : ℕ
  pub covered : Bool
  pub stalled : Bool

abbrev pub fresh : FamilyPatience
fresh = record { missed = 0; covered = false; stalled = false }

unfoldable pub in_good_standing : FamilyPatience → Bool
in_good_standing p = not p.stalled

pub data PhaseAdvance : Type 0 where
  delivered covered excused partial failed : PhaseAdvance

unfoldable pub advances : PhaseAdvance → Bool
advances delivered = true
advances covered = true
advances excused = true
advances _ = false

unfoldable pub advances_without_delivery : PhaseAdvance → Bool
advances_without_delivery covered = true
advances_without_delivery excused = true
advances_without_delivery _ = false

-- The loop of a round in which nothing was delivered, for one family.
unfoldable pub on_silence : FamilyPatience → FamilyDelivery → FamilyPatience
on_silence p FamilyDelivery.unobligated = fresh
on_silence p _ = p

-- The loop of a round that reached a wire, for one family: its patience, and whether the family
-- leaves the round excusable.
unfoldable pub fold_family : FamilyPatience → FamilyDelivery → FamilyPatience × Bool
fold_family p FamilyDelivery.delivered =
    (record { missed = 0; covered = true; stalled = false }, true)
fold_family p FamilyDelivery.unobligated =
    (record { missed = 0; covered = true; stalled = false }, true)
fold_family p FamilyDelivery.missed = if p.covered then (p, true) else (
  record p { missed = min (p.missed + 1) 255 },
  not (ltb p.missed max_partial_rounds && not p.stalled),
)

-- The loop behind an advance, for one family.
unfoldable pub settle : FamilyPatience → FamilyPatience
settle p = record { stalled = p.stalled || not p.covered; missed = 0; covered = false }

unfoldable pub advance_of : TransmitDelivery → FamilyPatience × FamilyPatience → Bool → PhaseAdvance
advance_of d p excusable =
    if not (any_missed d)
    then delivered
    else if p.0.covered && p.1.covered
    then covered
    else if excusable
    then excused
    else partial

unfoldable pub classify_advance :
    FamilyPatience × FamilyPatience
    → TransmitDelivery
    → (FamilyPatience × FamilyPatience) × PhaseAdvance
unfolding on_silence fold_family settle advance_of
classify_advance (p4, p6) d =
    if not (any_delivered d)
    then ((on_silence p4 d.v4, on_silence p6 d.v6), failed)
    else let (q4, e4) = fold_family p4 d.v4 in
      let (q6, e6) = fold_family p6 d.v6 in
      let advance = advance_of d (q4, q6) (e4 && e6) in
      if advances advance then ((settle q4, settle q6), advance) else ((q4, q6), advance)
