-- ===== src/Wire/Name/Parse.antt =====
-- `NameRef::try_parse` of mdns-proto/src/wire/name.rs.
use hick.Prelude.{
  ℕ, zero, suc, ◌+◌, ◌-◌, ◌≤◌, ◌<◌, ◌≡◌, ◌≢◌, ◌∙◌, arith, List, some, ok, stuck, length, get_elem?,
  get_elem?-lt, length-slice?, IsSlice, bit_and_tag, Option-cases, inl, inr,
}
use hick.Wire.Error.{Parsed}
use hick.Wire.Name.{NameRef, Label, parse_round, parse_loop, try_parse}
use hick.Wire.Name.Spells.{Spells, root, label, pointer}

-- What a successful parse at `offset` answers: the reference at `offset`, and a length that is
-- positive and stays within the message.
abbrev pub Inline : List ℕ → ℕ → NameRef × ℕ → Type 0
Inline message offset (name, consumed) =
    (name ≡ record { message = message; start = offset })
    × (offset < 0x10000)
    × (1 ≤ consumed)
    × (offset + consumed ≤ length message)

parse_round-Inline :
    (m : List ℕ) (offset c : ℕ) (continue : ℕ → Parsed (NameRef × ℕ)) (name : NameRef) (n : ℕ)
    → IsSlice m
    → offset ≤ c
    → ((c' : ℕ) → c < c' → c' ≤ length m → continue c' ≡ ok (name, n) → Inline m offset (name, n))
    → parse_round m offset c continue ≡ ok (name, n)
    → Inline m offset (name, n)
unfolding parse_round
parse_round-Inline m offset c continue name n fits le ih e = elim (Option-cases (get_elem? m c)) [
  | inl out ↦ ground arith
  | inr (b, at_c) ↦ elim (Option-cases (get_elem? m (c + 1))) [
    | inl out ↦ ground (arith, get_elem?-lt m c at_c, ih (c + 1 + b))
    | inr (lo, at_lo) ↦
        ground (arith, get_elem?-lt m c at_c, get_elem?-lt m (c + 1) at_lo, ih (c + 1 + b))
  ]
]

parse_loop-Inline :
    (fuel : ℕ) (m : List ℕ) (offset c : ℕ) (name : NameRef) (n : ℕ)
    → IsSlice m
    → offset ≤ c
    → parse_loop fuel m offset c ≡ ok (name, n)
    → Inline m offset (name, n)
unfolding parse_loop
parse_loop-Inline zero m offset c name n fits le e = cc
parse_loop-Inline (suc fuel) m offset c name n fits le e =
    parse_round-Inline m offset c (parse_loop fuel m offset) name n fits le
      (λ c' more _. parse_loop-Inline fuel m offset c' name n fits (omega arith)) e

-- In a message whose length fits in an isize, a name that `try_parse` accepts starts at the offset asked for, takes up at least one byte, and
-- ends within the message.
pub try_parse-Inline :
    (m : List ℕ) (offset : ℕ) (name : NameRef) (n : ℕ)
    → IsSlice m
    → try_parse m offset ≡ ok (name, n)
    → Inline m offset (name, n)
unfolding try_parse
try_parse-Inline m offset name n fits e =
    parse_loop-Inline (suc (length m)) m offset offset name n fits (omega arith) e

parse_round-ne-stuck :
    (m : List ℕ) (offset c : ℕ) (continue : ℕ → Parsed (NameRef × ℕ))
    → IsSlice m
    → ((c' : ℕ) → c < c' → c' ≤ length m → continue c' ≢ stuck)
    → parse_round m offset c continue ≢ stuck
unfolding parse_round
parse_round-ne-stuck m offset c continue fits ih e = elim (Option-cases (get_elem? m c)) [
  | inl out ↦ ground arith
  | inr (b, at_c) ↦ elim (Option-cases (get_elem? m (c + 1))) [
    | inl out ↦ ground (arith, get_elem?-lt m c at_c, ih (c + 1 + b))
    | inr (lo, at_lo) ↦ ground (arith, get_elem?-lt m c at_c, ih (c + 1 + b))
  ]
]

parse_loop-ne-stuck :
    (fuel : ℕ) (m : List ℕ) (offset c : ℕ)
    → IsSlice m
    → 0 < fuel
    → length m < c + fuel
    → parse_loop fuel m offset c ≢ stuck
unfolding parse_loop
parse_loop-ne-stuck zero m offset c fits some_fuel enough = absurd (omega arith)
parse_loop-ne-stuck (suc fuel) m offset c fits some_fuel enough =
    parse_round-ne-stuck m offset c (parse_loop fuel m offset) fits
      (λ c' more inside. parse_loop-ne-stuck fuel m offset c' fits (omega arith) (omega arith))

-- The loop of `try_parse` ends on every message whose length fits in an isize.
pub try_parse-ne-stuck : (m : List ℕ) (offset : ℕ) → IsSlice m → try_parse m offset ≢ stuck
unfolding try_parse
try_parse-ne-stuck m offset fits =
    parse_loop-ne-stuck (suc (length m)) m offset offset fits (omega arith) (omega arith)

-- The rounds of `try_parse` on the bytes that a name can stand on.
module _ (m : List ℕ) (fits : IsSlice m) (offset : ℕ) (near : offset < 0x10000) where
  module _ (continue : ℕ → Parsed (NameRef × ℕ)) (c : ℕ) (le : offset ≤ c) where
    round_root :
        get_elem? m c ≡ some 0
        → parse_round m offset c continue
          ≡ ok (record { message = m; start = offset }, c - offset + 1)
    unfolding parse_round
    round_root e = ground (arith, get_elem?-lt m c e)

    round_label :
        (b : ℕ)
        → get_elem? m c ≡ some b
        → 0 < b
        → b < 64
        → c + 1 + b ≤ length m
        → parse_round m offset c continue ≡ continue (c + 1 + b)
    unfolding parse_round
    round_label b e p q inside = ground (arith, bit_and_tag b)

    round_pointer :
        (hi lo : ℕ)
        → get_elem? m c ≡ some (192 + hi)
        → hi < 64
        → get_elem? m (c + 1) ≡ some lo
        → parse_round m offset c continue
          ≡ ok (record { message = m; start = offset }, c + 2 - offset)
    unfolding parse_round
    round_pointer hi lo e p e' = ground (arith, bit_and_tag (192 + hi), get_elem?-lt m (c + 1) e')

  parse_loop-Spells :
      (fuel : ℕ) {h c : ℕ} {ls : List Label}
      → offset ≤ c
      → length m < c + fuel
      → Spells m h c ls
      → (n : ℕ) × (parse_loop fuel m offset c ≡ ok (record { message = m; start = offset }, n))
  unfolding parse_loop
  parse_loop-Spells zero {c = c} le enough (root e) = absurd (omega (arith, get_elem?-lt m c e))
  parse_loop-Spells zero {c = c} le enough (label b l e p q s near' sp) =
      absurd (omega (arith, get_elem?-lt m c e))
  parse_loop-Spells zero {c = c} le enough (pointer hi lo e p e' q sp) =
      absurd (omega (arith, get_elem?-lt m c e))
  parse_loop-Spells (suc fuel) {c = c} le enough (root e) = (c - offset + 1, round_root _ c le e)
  parse_loop-Spells (suc fuel) {c = c} le enough (label b l e p q slice near' sp) =
      let (_, inside, _) = length-slice? m (c + 1) (c + 1 + b) slice in
      let (n, parses) = parse_loop-Spells fuel (omega arith) (omega arith) sp in
      (n, round_label _ c le b e p q inside ∙ parses)
  parse_loop-Spells (suc fuel) {c = c} le enough (pointer hi lo e p e' q sp) =
      (c + 2 - offset, round_pointer _ c le hi lo e p e')

-- Every offset below 2^16 at which a message whose length fits in an isize spells a name is accepted.
pub try_parse-Spells :
    (m : List ℕ) (offset : ℕ) {h : ℕ} {ls : List Label}
    → IsSlice m
    → offset < 0x10000
    → Spells m h offset ls
    → (n : ℕ) × (try_parse m offset ≡ ok (record { message = m; start = offset }, n))
unfolding try_parse
try_parse-Spells m offset fits near sp =
    parse_loop-Spells m fits offset near (suc (length m)) (omega arith) (omega arith) sp
