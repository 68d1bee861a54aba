-- ===== src/Wire/Record/Laws.antt =====
-- Where a record ends, and what its rdata is.
use hick.Prelude.{
  ℕ, ◌+◌, ◌≤◌, ◌≡◌, ◌≢◌, sym, ap, ◌∙◌, arith, List, [], some, ok, stuck, length, slice?, slice?_in,
  length-slice?, IsSlice, saturating_add, Result-Cases, is_ok, is_err, is_stuck,
}
use mathlib.Core.Path.{ap₂}
use hick.Wire.Name
use hick.Wire.Name.{NameRef}
use hick.Wire.Name.Parse.{try_parse-Inline, try_parse-ne-stuck}
use hick.Wire.Record.{Ref, fixed_part, two_bytes, four_bytes, bounded, after_name, try_parse, rdata}

-- A record in place: its rdata lies in the message.
pub record IsPlaced (m : List ℕ) (r : Ref) : Type 0 where
  pub message : r.message ≡ m
  pub inside : r.rdata_start + r.rdata_len ≤ length m

fixed_part_inside :
    (m : List ℕ) (at : ℕ) {hdr : List ℕ} → IsSlice m → fixed_part m at ≡ ok hdr → at + 10 ≤ length m
unfolding fixed_part
fixed_part_inside m at fits e = ground (arith, length-slice? m at (at + 10))

after_name-IsPlaced :
    (m : List ℕ) (name : NameRef) (at : ℕ) (r : Ref) (next : ℕ)
    → IsSlice m
    → after_name m name at ≡ ok (r, next)
    → IsPlaced m r
      × (r.name ≡ name)
      × (r.rdata_start ≡ at + 10)
      × (next ≡ r.rdata_start + r.rdata_len)
unfolding after_name bounded
after_name-IsPlaced m name at r next fits e = elim (Result-Cases (fixed_part m at)) [
  | is_err x a ↦ ground arith
  | is_stuck a ↦ ground arith
  | is_ok hdr a ↦ ground (arith, fixed_part_inside m at fits a)
]

-- In a message whose length fits in an isize, a record that parses has its name at the offset asked for and its rdata in the message; the next
-- offset is the end of the rdata, at least eleven bytes further on, and it stays in the message.
pub record-IsPlaced :
    (m : List ℕ) (offset : ℕ) (r : Ref) (next : ℕ)
    → IsSlice m
    → try_parse m offset ≡ ok (r, next)
    → IsPlaced m r
      × (r.name ≡ record { message = m; start = offset })
      × (next ≡ r.rdata_start + r.rdata_len)
      × (offset + 11 ≤ next)
unfolding try_parse
record-IsPlaced m offset r next fits e = elim (Result-Cases (Name.try_parse m offset)) [
  | is_err x a ↦ ground arith
  | is_stuck a ↦ ground arith
  | is_ok (name, n) a ↦
      let (same, near, some_bytes, inside) = try_parse-Inline m offset name n fits a in
      ground (arith, after_name-IsPlaced m name (saturating_add offset n) r next fits)
]

parts-ne-stuck :
    (m hdr : List ℕ) (at i : ℕ)
    → (fixed_part m at ≢ stuck) × (two_bytes hdr at i ≢ stuck) × (four_bytes hdr at i ≢ stuck)
unfolding fixed_part two_bytes four_bytes
parts-ne-stuck m hdr at i = (λ e. ground arith, λ e. ground arith, λ e. ground arith)

after_name-ne-stuck : (m : List ℕ) (name : NameRef) (at : ℕ) → after_name m name at ≢ stuck
unfolding after_name bounded
after_name-ne-stuck m name at e = elim (Result-Cases (fixed_part m at)) [
  | is_err x a ↦ ground arith
  | is_stuck a ↦ (parts-ne-stuck m [] at 0).0 a
  | is_ok hdr a ↦
      let part = λ (i : ℕ). parts-ne-stuck m hdr at i in
      ground (arith, (part 0).1, (part 2).1, (part 4).2, (part 8).1)
]

-- Parsing a record of a message whose length fits in an isize ends.
pub record-ne-stuck : (m : List ℕ) (offset : ℕ) → IsSlice m → try_parse m offset ≢ stuck
unfolding try_parse
record-ne-stuck m offset fits e = elim (Result-Cases (Name.try_parse m offset)) [
  | is_err x a ↦ ground arith
  | is_stuck a ↦ try_parse-ne-stuck m offset fits a
  | is_ok (name, n) a ↦ ground (arith, after_name-ne-stuck m name (saturating_add offset n))
]

rdata_of_slice :
    (r : Ref) {l : List ℕ}
    → slice? r.message r.rdata_start (saturating_add r.rdata_start r.rdata_len) ≡ some l
    → rdata r ≡ l
unfolding rdata
rdata_of_slice r e = rw (e, rdata)

-- In a message whose length fits in an isize, the rdata of a record in place is the slice of the message that the record declares.
pub rdata-slice :
    (m : List ℕ) (r : Ref)
    → IsSlice m
    → IsPlaced m r
    → (slice? m r.rdata_start (r.rdata_start + r.rdata_len) ≡ some (rdata r))
      × (length (rdata r) ≡ r.rdata_len)
rdata-slice m r fits placed =
    let start = r.rdata_start in
    let len = r.rdata_len in
    let end : saturating_add start len ≡ start + len = omega arith in
    let e = slice?_in m start (start + len) (omega arith) placed.inside in
    let same = rdata_of_slice r (ap₂ (λ xs b. slice? xs start b) placed.message end ∙ e) in
    (e ∙ ap some (sym same), omega (arith, ap length same, length-slice? m start (start + len) e))
