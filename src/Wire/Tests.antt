-- ===== src/Wire/Tests.antt =====
-- Runs of the message reader on one message, and the theorems of the record layer there: a question
-- for `a`, a PTR answer whose owner and target are pointers to that name, an A record in the
-- authority section.
use hick.Prelude.{ℕ, ◌+◌, ◌≤◌, ◌≡◌, refl, arith, true, false, List, [], ◌∷◌, ◌++◌, some, ok}
use hick.Wire.Name
use hick.Wire.Name.{NameRef, parse_loop, parse_round, labels, next, next_loop, next_round}
use hick.Wire.Name.Write.{write_wire, write_loop, write_item}
use hick.Wire.Header
use hick.Wire.Header.{Header}
use hick.Wire.Header.Laws.{parse-write}
use hick.Wire.Question
use hick.Wire.Question.{QuestionRef}
use hick.Wire.Record
use hick.Wire.Record.{Ref, rdata}
use hick.Wire.Record.Laws.{IsPlaced, record-IsPlaced}
use hick.Wire.ResourceType
use hick.Wire.ResourceType.{ResourceType, ptr}
use hick.Wire.ResourceClass
use hick.Wire.ResourceClass.{ResourceClass, in_class}
use hick.Wire.Rdata.{rdata_view, ptr_try_from_message, view_as}
use hick.Wire.Rdata.Canonical.{
  write_canonical_rdata, write_view, as_sent, folded_form, write_segments, canonical_rdata,
}
use hick.Wire.Rdata.Segments.{next_segment}
use hick.Wire.Rdata.Canonical.Agreement.{canonical_agreement}
use hick.Wire.Reader
use hick.Wire.Reader.{
  MessageReader, skip_questions, skip_records, skip_items, answers, authority, additional,
  at_or_empty,
}
use hick.Wire.Reader.Laws.{advance}

program : Unit {0}
unfolding parse_loop parse_round Name.try_parse labels next next_loop next_round write_wire
    write_loop write_item Header.try_parse Header.write Question.slot Question.after_name
    Question.try_parse Record.fixed_part Record.two_bytes Record.four_bytes Record.bounded
    Record.after_name Record.try_parse rdata ResourceType.from_u16 ResourceClass.from_u16
    ResourceClass.from_u16_raw view_as rdata_view ptr_try_from_message write_view
    write_canonical_rdata canonical_rdata Reader.try_parse skip_questions skip_records skip_items
    answers authority additional at_or_empty advance next_segment write_segments
program = tt

abbrev header : Header
header = record {
  id = 0;
  flags = record { bits = 0x8400 };
  question_count = 1;
  answer_count = 1;
  authority_count = 1;
  additional_count = 0;
}

abbrev header_part : List ℕ
header_part = 0 ∷ 0 ∷ 0x84 ∷ 0 ∷ 0 ∷ 1 ∷ 0 ∷ 1 ∷ 0 ∷ 1 ∷ 0 ∷ 0 ∷ []

abbrev body : List ℕ
body =
    1 ∷ b'a' ∷ 0 ∷ 0 ∷ 1 ∷ 0 ∷ 1 ∷ 0xc0 ∷ 12 ∷ 0 ∷ 12 ∷ 0x80 ∷ 1 ∷ 0 ∷ 0 ∷ 0 ∷ 120 ∷ 0 ∷ 2 ∷ 0xc0
    ∷ 12 ∷ 0xc0 ∷ 12 ∷ 0 ∷ 1 ∷ 0 ∷ 1 ∷ 0 ∷ 0 ∷ 0 ∷ 120 ∷ 0 ∷ 4 ∷ 10 ∷ 0 ∷ 0 ∷ 1 ∷ []

abbrev message : List ℕ
message = header_part ++ body

abbrev reader : MessageReader
reader = record { message = message; header = header }

abbrev answer : Ref
answer = record {
  message = message;
  name = record { message = message; start = 19 };
  rtype = ptr;
  rclass = in_class;
  cache_flush = true;
  ttl = 120;
  rdata_start = 31;
  rdata_len = 2;
}

header_read : Header.try_parse message ≡ ok (header, body)
unfolding program
header_read = refl

answer_read : Record.try_parse message 19 ≡ ok (answer, 33)
unfolding program
answer_read = refl

questions_skipped : skip_questions message header ≡ some 19
unfolding program
questions_skipped = refl

answers_skipped : skip_records message 19 1 ≡ some 33
unfolding program
answers_skipped = refl

-- The target of the answer, decompressed.
answer_canonical : write_canonical_rdata answer as_sent [] ≡ (1 ∷ b'a' ∷ 0 ∷ [], ok tt)
unfolding program
answer_canonical = refl

parse-write_example :
    ((Header.write header (header_part ++ 7 ∷ [])).1 ≡ ok 12)
    × (Header.try_parse (Header.write header (header_part ++ 7 ∷ [])).0 ≡ ok (header, 7 ∷ []))
parse-write_example = parse-write header (header_part ++ 7 ∷ []) (omega arith) (omega arith)

question_read : (q : QuestionRef) × (Question.try_parse message 12 ≡ ok (q, 19))
unfolding program
question_read = (_, refl)

record-IsPlaced_example :
    IsPlaced message answer
    × (answer.name ≡ record { message = message; start = 19 })
    × (33 ≡ answer.rdata_start + answer.rdata_len)
    × (19 + 11 ≤ 33)
record-IsPlaced_example = record-IsPlaced message 19 answer 33 (omega arith) answer_read

canonical_agreement_example :
    (write_canonical_rdata answer as_sent []).1
    ≡ (write_canonical_rdata answer folded_form (7 ∷ [])).1
canonical_agreement_example =
    canonical_agreement answer (omega arith) (omega arith) as_sent folded_form [] (7 ∷ [])

strings_written :
    write_segments 4 (2 ∷ b'k' ∷ b'v' ∷ []) false (9 ∷ []) ≡ (9 ∷ 2 ∷ b'k' ∷ b'v' ∷ [], ok true)
unfolding program
strings_written = refl
