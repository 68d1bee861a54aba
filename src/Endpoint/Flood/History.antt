-- ===== src/Endpoint/Flood/History.antt =====
-- The conflicts that an endpoint counted, as the list of their instants.
use hick.Prelude.{
  ℕ, zero, suc, ◌-◌, ◌≤◌, ◌≡◌, arith, Bool, false, List, [], ◌∷◌, Option, none, some, get_elem?,
  ltb, leb, if◌then◌else◌,
}
use hick.Endpoint.Flood.{conflict_burst_window}

-- The specification: the instants of the counted conflicts, the newest first, and no ring.
-- More than a window lies between an instant and the newest conflict.
abbrev pub quiet : ℕ → List ℕ → Bool
quiet now [] = false
quiet now (t ∷ ts) = ltb conflict_burst_window (now - t)

-- The fifteenth conflict, counted back from the newest, lies within a window of it.
abbrev pub close : ℕ → Option ℕ → Bool
close now none = false
close now (some t) = leb (now - t) conflict_burst_window

abbrev pub burst : ℕ → List ℕ → Bool
burst now ts = close now (get_elem? (now ∷ ts) 14)

-- When the limit engaged.
unfoldable pub latch : List ℕ → Option ℕ
latch [] = none
latch (now ∷ ts) =
    let held = latch ts in
    elim (if quiet now ts then none else held) [
      | some epoch ↦ some epoch
      | none ↦ if burst now ts then some now else none
    ]

unfoldable pub epoch_at : List ℕ → ℕ → Option ℕ
unfolding latch
epoch_at ts now = if quiet now ts then none else latch ts

-- The list is in order, and no instant of it is after `now`.
unfoldable pub Past : List ℕ → ℕ → Type 0
Past [] now = Unit {0}
Past (t ∷ ts) now = (t ≤ now) × Past ts t

pub Past-get : (ts : List ℕ) (now i : ℕ) {t : ℕ} → Past ts now → get_elem? ts i ≡ some t → t ≤ now
unfolding Past
Past-get [] now i p e = cc
Past-get (x ∷ ts) now zero p e = ground arith
Past-get (x ∷ ts) now (suc i) p e = let q = Past-get ts x i p.1 e in omega (arith, p.0)

pub Past-now : (hist : List ℕ) (now : ℕ) → Past hist now → Past (now ∷ hist) now
unfolding Past
Past-now hist now past = (omega arith, past)
