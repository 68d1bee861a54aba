-- ===== src/Endpoint/Flood.antt =====
-- mdns-proto/src/endpoint/flood.rs: the conflicts that an endpoint counts, and the latch that slows
-- its probes down. A datagram's identifier is its number.
use hick.Prelude.{
  ℕ, zero, suc, ◌+◌, ◌-◌, ◌*◌, ◌%◌, Bool, true, false, not, ◌||◌, List, [], ◌∷◌, ◌++◌, Option, none,
  some, get_elem?, ltb, leb, ◌==◌, if◌then◌else◌, saturating_add,
}
use hick.Time.{Clock, from_secs}
use hick.Owner.{Name, same_owner}
pub mod History
pub mod Ring
pub mod Latch
pub mod Run
pub mod Dedupe

abbrev pub conflict_burst_len : ℕ
conflict_burst_len = 15

abbrev pub conflict_burst_window : ℕ
conflict_burst_window = from_secs 10

-- The ring holds `conflict_burst_len` entries.
pub record ConflictFlood : Type 0 where
  pub ring : List (Option ℕ)
  pub slot : ℕ
  pub latched_at : Option ℕ
  pub datagram : Option ℕ
  pub accepted : List Name

-- `[None; n]`
abbrev pub none_of : ℕ → List (Option ℕ)
none_of zero = []
none_of (suc n) = none ∷ none_of n

abbrev pub empty : ConflictFlood
empty = record {
  ring = none_of conflict_burst_len;
  slot = 0;
  latched_at = none;
  datagram = none;
  accepted = [];
}

-- `ring.get(i).copied().flatten()`
abbrev pub entry : List (Option ℕ) → ℕ → Option ℕ
entry ring i = elim (get_elem? ring i) [ none ↦ none | some x ↦ x ]

-- `if let Some(slot) = ring.get_mut(i) { *slot = Some(t) }`
unfoldable pub stamp : List (Option ℕ) → ℕ → ℕ → List (Option ℕ)
stamp [] i t = []
stamp (x ∷ xs) zero t = some t ∷ xs
stamp (x ∷ xs) (suc i) t = x ∷ stamp xs i t

-- `slot.checked_sub(1).unwrap_or(n - 1)`
abbrev pub before : ℕ → ℕ
before zero = conflict_burst_len - 1
before (suc i) = i

unfoldable pub newest : ConflictFlood → Option ℕ
newest f = entry f.ring (before f.slot)

-- `since.is_some_and(|since| since > window)`
abbrev pub longer : ℕ → Option ℕ → Bool
longer window none = false
longer window (some since) = ltb window since

-- `span.is_some_and(|span| span <= window)`
abbrev pub within : ℕ → Option ℕ → Bool
within window none = false
within window (some span) = leb span window

-- `since.is_none_or(|since| since <= window)`
abbrev pub not_longer : ℕ → Option ℕ → Bool
not_longer window none = true
not_longer window (some since) = leb since window

abbrev pub is_none : Option ℕ → Bool
is_none none = true
is_none (some x) = false

-- `self.datagram == Some(datagram)`
abbrev pub is_datagram : Option ℕ → ℕ → Bool
is_datagram none datagram = false
is_datagram (some d) datagram = d == datagram

-- The first test of `accept`: the names of another datagram are forgotten.
unfoldable pub on_datagram : ConflictFlood → ℕ → ConflictFlood
on_datagram f datagram =
    if is_datagram f.datagram datagram
    then f
    else record f { datagram = some datagram; accepted = [] }

-- `accepted.iter().any(|n| n.same_owner(owner))`
unfoldable pub any_same_owner : List Name → Name → Bool
any_same_owner [] owner = false
any_same_owner (n ∷ ns) owner = same_owner n owner || any_same_owner ns owner

-- The write of `accept`: `self.slot` is always within the ring.
unfoldable pub write : ConflictFlood → ℕ → ConflictFlood
unfolding stamp
write f now = elim (get_elem? f.ring f.slot) [
  | none ↦ f
  | some _ ↦ record f {
    ring = stamp f.ring f.slot now;
    slot = saturating_add f.slot 1 % conflict_burst_len;
  }
]

module _ (clock : Clock) where
  -- What `accept` does where a quiet window lies behind the newest conflict.
  unfoldable pub release : ConflictFlood → ℕ → ConflictFlood
  unfolding newest
  release f now = elim (newest f) [
    | none ↦ f
    | some t ↦
        if longer conflict_burst_window (clock.checked_duration_since now t)
        then record f { ring = none_of conflict_burst_len; slot = 0; latched_at = none }
        else f
  ]

  -- The last test of `accept`.
  unfoldable pub engage : ConflictFlood → ℕ → ConflictFlood
  engage f now = elim (entry f.ring f.slot) [
    | none ↦ f
    | some oldest ↦
        if within conflict_burst_window (clock.checked_duration_since now oldest)
        then if is_none f.latched_at then record f { latched_at = some now } else f
        else f
  ]

  unfoldable pub accept : ConflictFlood → ℕ → ℕ → Name → ConflictFlood × Bool
  unfolding on_datagram any_same_owner release write engage
  accept f now datagram owner =
      let f' = on_datagram f datagram in
      if any_same_owner f'.accepted owner then (f', false) else (
        engage (write (release (record f' { accepted = f'.accepted ++ (owner ∷ []) }) now) now) now,
        true,
      )

  unfoldable pub latch_epoch : ConflictFlood → ℕ → Option ℕ
  unfolding newest
  latch_epoch f now = elim f.latched_at [
    | none ↦ none
    | some epoch ↦ elim (newest f) [
      | none ↦ none
      | some t ↦
          if not_longer conflict_burst_window (clock.checked_duration_since now t)
          then some epoch
          else none
    ]
  ]

  unfoldable pub in_force : ConflictFlood → ℕ → Bool
  unfolding latch_epoch
  in_force f now = not (is_none (latch_epoch f now))
