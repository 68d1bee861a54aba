-- ===== src/Wire/Reader.antt =====
-- mdns-proto/src/wire/reader.rs: `MessageReader` and its lazy iterators over the sections.
pub mod Laws
pub mod Items
use hick.Prelude.{
  ℕ, zero, suc, ◌-◌, List, [], ◌∷◌, Option, none, some, ok, err, stuck, ◌>>=◌, ◌==◌, if◌then◌else◌,
  saturating_sub,
}
use hick.Wire.Error.{Parsed}
use hick.Wire.Header
use hick.Wire.Header.{Header, header_size}
use hick.Wire.Question
use hick.Wire.Question.{QuestionRef}
use hick.Wire.Record
use hick.Wire.Record.{Ref}

pub record MessageReader : Type 0 where
  pub message : List ℕ
  pub header : Header

unfoldable pub try_parse : List ℕ → Parsed MessageReader
try_parse message = do
  (header, _) ← Header.try_parse message
  ok (record { message = message; header = header })

-- `Questions` and `Records`: where the next item stands, and how many are left.
pub record Cursor : Type 0 where
  pub message : List ℕ
  pub cursor : ℕ
  pub remaining : ℕ

-- `Iterator::next` of both, over the parser of an item.
module _ {A : Type 0} (parse : List ℕ → ℕ → Parsed (A × ℕ)) where
  unfoldable pub next_item : Cursor → Cursor × Option (Parsed A)
  next_item s = if s.remaining == 0 then (s, none) else elim (parse s.message s.cursor) [
    | ok (item, next) ↦
        (record s { cursor = next; remaining = saturating_sub s.remaining 1 }, some (ok item))
    | err e ↦ (record s { remaining = 0 }, some (err e))
    | stuck ↦ (s, some stuck)
  ]

  -- `skip_questions` and `skip_records`, by the items left. The parsers are never `stuck`.
  unfoldable pub skip_items : List ℕ → ℕ → ℕ → Option ℕ
  skip_items message cursor zero = some cursor
  skip_items message cursor (suc count) = elim (parse message cursor) [
    | ok (_, next) ↦ skip_items message next count
    | err e ↦ none
    | stuck ↦ none
  ]

  -- What is left of an iterator, for a `for` loop: each item makes fewer left, so `remaining` rounds
  -- are enough.
  unfoldable pub items : ℕ → Cursor → List (Parsed A)
  unfolding next_item
  items zero s = []
  items (suc fuel) s =
      let rest = items fuel (next_item s).0 in
      elim (next_item s).1 [ none ↦ [] | some item ↦ item ∷ rest ]

unfoldable pub question_items : Cursor → List (Parsed QuestionRef)
question_items s = items Question.try_parse s.remaining s

unfoldable pub record_items : Cursor → List (Parsed Ref)
record_items s = items Record.try_parse s.remaining s

unfoldable pub questions_next : Cursor → Cursor × Option (Parsed QuestionRef)
questions_next = next_item Question.try_parse

unfoldable pub records_next : Cursor → Cursor × Option (Parsed Ref)
records_next = next_item Record.try_parse

unfoldable pub skip_questions : List ℕ → Header → Option ℕ
skip_questions message header =
    skip_items Question.try_parse message header_size header.question_count

unfoldable pub skip_records : List ℕ → ℕ → ℕ → Option ℕ
skip_records = skip_items Record.try_parse

-- `Records::at_or_empty`
unfoldable pub at_or_empty : List ℕ → ℕ → Option ℕ → Cursor
at_or_empty message count (some cursor) = record {
  message = message;
  cursor = cursor;
  remaining = count;
}
at_or_empty message count none = record { message = message; cursor = header_size; remaining = 0 }

unfoldable pub questions : MessageReader → Cursor
questions r = record {
  message = r.message;
  cursor = header_size;
  remaining = r.header.question_count;
}

-- `Option::and_then`
abbrev pub and_then : Option ℕ → (ℕ → Option ℕ) → Option ℕ
and_then none f = none
and_then (some c) f = f c

-- `new_after_questions`
unfoldable pub answers : MessageReader → Cursor
answers r = at_or_empty r.message r.header.answer_count (skip_questions r.message r.header)

-- `new_after_answers`
unfoldable pub authority : MessageReader → Cursor
authority r = at_or_empty r.message r.header.authority_count (
    and_then (skip_questions r.message r.header)
      (λ c. skip_records r.message c r.header.answer_count))

-- `new_after_authority`
unfoldable pub additional : MessageReader → Cursor
additional r = at_or_empty r.message r.header.additional_count (
    and_then
      (and_then (skip_questions r.message r.header)
        (λ c. skip_records r.message c r.header.answer_count))
      (λ c. skip_records r.message c r.header.authority_count))
