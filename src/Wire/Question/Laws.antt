-- ===== src/Wire/Question/Laws.antt =====
-- Where a question ends.
use hick.Prelude.{
  ℕ, ◌+◌, ◌≤◌, ◌≡◌, ◌≢◌, arith, List, ok, stuck, length, length-slice?, IsSlice, saturating_add,
  Result-Cases, is_ok, is_err, is_stuck,
}
use hick.Wire.Name
use hick.Wire.Name.{NameRef}
use hick.Wire.Name.Parse.{try_parse-Inline, try_parse-ne-stuck}
use hick.Wire.Question.{QuestionRef, slot, after_name, try_parse}

-- A slot that is read lies within the message.
slot_inside : (m : List ℕ) (at : ℕ) {v : ℕ} → IsSlice m → slot m at ≡ ok v → at + 2 ≤ length m
unfolding slot
slot_inside m at fits e = ground (arith, length-slice? m at (at + 2))

slot-ne-stuck : (m : List ℕ) (at : ℕ) → slot m at ≢ stuck
unfolding slot
slot-ne-stuck m at e = ground arith

after_name_inside :
    (m : List ℕ) (qname : NameRef) (at : ℕ) (q : QuestionRef) (next : ℕ)
    → IsSlice m
    → after_name m qname at ≡ ok (q, next)
    → (q.qname ≡ qname) × (next ≡ at + 4) × (next ≤ length m)
unfolding after_name
after_name_inside m qname at q next fits e = elim (Result-Cases (slot m at)) [
  | is_err x a ↦ ground arith
  | is_stuck a ↦ ground arith
  | is_ok t a ↦ elim (Result-Cases (slot m (saturating_add at 2))) [
    | is_err x b ↦ ground arith
    | is_stuck b ↦ ground arith
    | is_ok r b ↦
        ground (arith, slot_inside m at fits a, slot_inside m (saturating_add at 2) fits b)
  ]
]

-- In a message whose length fits in an isize, a question that parses has its name at the offset asked for, takes five bytes at least, and ends
-- within the message.
pub question_inside :
    (m : List ℕ) (offset : ℕ) (q : QuestionRef) (next : ℕ)
    → IsSlice m
    → try_parse m offset ≡ ok (q, next)
    → (q.qname ≡ record { message = m; start = offset }) × (offset + 5 ≤ next) × (next ≤ length m)
unfolding try_parse
question_inside m offset q next fits e = elim (Result-Cases (Name.try_parse m offset)) [
  | is_err x a ↦ ground arith
  | is_stuck a ↦ ground arith
  | is_ok (name, n) a ↦
      let (same, near, some_bytes, inside) = try_parse-Inline m offset name n fits a in
      ground (arith, after_name_inside m name (saturating_add offset n) q next fits)
]

-- Parsing a question of a message whose length fits in an isize ends.
pub question-ne-stuck : (m : List ℕ) (offset : ℕ) → IsSlice m → try_parse m offset ≢ stuck
unfolding try_parse after_name
question-ne-stuck m offset fits e = elim (Result-Cases (Name.try_parse m offset)) [
  | is_err x a ↦ ground arith
  | is_stuck a ↦ try_parse-ne-stuck m offset fits a
  | is_ok (name, n) a ↦
      let at = saturating_add offset n in
      ground (arith, slot-ne-stuck m at, slot-ne-stuck m (saturating_add at 2))
]
