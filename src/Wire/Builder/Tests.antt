-- ===== src/Wire/Builder/Tests.antt =====
-- The theorems of the builder on a question and an answer.
use hick.Prelude.{ℕ, ◌≤◌, ◌≡◌, refl, arith, true, List, [], ◌∷◌, ok, length, drop}
use hick.Wire.ResourceType
use hick.Wire.ResourceClass
use hick.Wire.Header
use hick.Wire.Header.{Header}
use hick.Wire.Header.Laws.{IsHeader}
use hick.Owner.{Name}
use hick.Wire.Builder.{MessageBuilder, try_new, new_table, checkpoint, restore, finish}
use hick.Wire.Builder.Extends.{Fits}
use hick.Wire.Builder.Rollback.{
  Push, question, a_answer, pushes, SameMessage, restore-pushes, pushes-bounds,
}
use hick.Wire.Builder.Counted.{with_more}
use hick.Wire.Builder.Finish.{tally, finish-pushes}

abbrev lan : Name
lan = record { text = b'h' ∷ b'.' ∷ b'l' ∷ b'a' ∷ b'n' ∷ [] }

abbrev header : Header
header = record {
  id = 0;
  flags = record { bits = 0x8400 };
  question_count = 0;
  answer_count = 0;
  authority_count = 0;
  additional_count = 0;
}

header-IsHeader : IsHeader header
header-IsHeader = record {
  id = omega arith;
  flags = omega arith;
  question_count = omega arith;
  answer_count = omega arith;
  authority_count = omega arith;
  additional_count = omega arith;
}

-- A buffer of forty bytes: the answer does not fit.
abbrev buffer : List ℕ
buffer =
    0 ∷ 0 ∷ 0 ∷ 0 ∷ 0 ∷ 0 ∷ 0 ∷ 0 ∷ 0 ∷ 0 ∷ 0 ∷ 0 ∷ 0 ∷ 0 ∷ 0 ∷ 0 ∷ 0 ∷ 0 ∷ 0 ∷ 0 ∷ 0 ∷ 0 ∷ 0 ∷ 0
    ∷ 0 ∷ 0 ∷ 0 ∷ 0 ∷ 0 ∷ 0 ∷ 0 ∷ 0 ∷ 0 ∷ 0 ∷ 0 ∷ 0 ∷ 0 ∷ 0 ∷ 0 ∷ 0 ∷ []

abbrev start : MessageBuilder
start = record { out = buffer; cursor = 12; header = header; compression = new_table 4 }

start-Fits : Fits start
start-Fits = record {
  slice = omega arith;
  cursor = omega arith;
  used = omega arith;
  table = omega arith;
}

abbrev both : List Push
both =
    question lan ResourceType.a ResourceClass.in_class true
    ∷ a_answer lan 120 (192 ∷ 168 ∷ 0 ∷ 1 ∷ []) true
    ∷ []

restore-pushes_example : SameMessage (restore (pushes both start) (checkpoint start)) start
restore-pushes_example = restore-pushes start both start-Fits

pushes-bounds_example :
    let b' = pushes both start in
    (12 ≤ b'.cursor)
    × (b'.cursor ≤ length b'.out)
    × (length b'.out ≡ 40)
    × (b'.compression.used ≤ 4)
unfolding try_new
pushes-bounds_example = pushes-bounds 4 buffer header both (omega arith) (omega arith) refl

finish-pushes_example :
    let b' = pushes both start in
    ((finish b').1 ≡ ok b'.cursor)
    × (Header.try_parse (finish b').0.out
        ≡ ok (with_more header (tally both start), drop 12 b'.out))
unfolding try_new
finish-pushes_example =
    finish-pushes 4 buffer header both (omega arith) (omega arith) header-IsHeader refl
