-- ===== src/Wire/Name/Compare.antt =====
-- mdns-proto/src/wire/name.rs: `NameRef::equals_ignoring_case`.
pub mod Laws
use hick.Prelude.{
  ℕ, zero, suc, ◌+◌, Bool, true, false, List, Option, none, some, ok, ◌==◌, if◌then◌else◌, length,
  get_elem?, to_ascii_lowercase,
}
use hick.Wire.Name.{NameRef, NameLabels, Label, Yield, next, labels}

-- `a.eq_ignore_ascii_case(b)`
abbrev pub eq_ignore_ascii_case : ℕ → ℕ → Bool
eq_ignore_ascii_case a b = to_ascii_lowercase a == to_ascii_lowercase b

-- `while i < la.len()`, by the rounds left.
unfoldable pub bytes_match : ℕ → Label → Label → ℕ → Bool
bytes_match zero la lb i = true
bytes_match (suc rounds) la lb i =
    let rest = bytes_match rounds la lb (i + 1) in
    elim (get_elem? la i) [
      | none ↦ false
      | some ca ↦ elim (get_elem? lb i) [
        | none ↦ false
        | some cb ↦ if eq_ignore_ascii_case ca cb then rest else false
      ]
    ]

-- The arm of two labels, without what follows it.
unfoldable pub labels_match : Label → Label → Bool
labels_match la lb = if length la == length lb then bytes_match (length la) la lb 0 else false

-- One round of the loop, for what the two iterators answered.
unfoldable pub compare_round : Yield → Yield → (NameLabels → NameLabels → Option Bool) → Option Bool
compare_round (a, none) (b, none) continue = some true
compare_round (a, some (ok la)) (b, some (ok lb)) continue =
    if labels_match la lb then continue a b else some false
compare_round _ _ continue = some false

-- `none` means that the fuel ran out.
unfoldable pub compare_loop : ℕ → NameLabels → NameLabels → Option Bool
compare_loop zero a b = none
compare_loop (suc fuel) a b = compare_round (next a) (next b) (compare_loop fuel)

-- A label takes two octets at least, so 128 rounds are enough for a name of 255.
unfoldable pub equals_ignoring_case : NameRef → NameRef → Option Bool
equals_ignoring_case name other = compare_loop 128 (labels name) (labels other)
