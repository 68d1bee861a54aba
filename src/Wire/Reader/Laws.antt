-- ===== src/Wire/Reader/Laws.antt =====
-- The iterators of the reader against the functions that skip a section.
use hick.Prelude.{
  ℕ, zero, suc, ◌+◌, ◌*◌, ◌≤◌, ◌≡◌, refl, sym, ap, ◌∙◌, arith, List, length, Option, none, some, ok,
  IsSlice, Result-Cases, is_ok, is_err, is_stuck,
}
use mathlib.Core.Option
use hick.Wire.Error.{Parsed}
use hick.Wire.Question
use hick.Wire.Question.Laws.{question_inside}
use hick.Wire.Record
use hick.Wire.Record.Laws.{record-IsPlaced}
use hick.Wire.Reader.{
  MessageReader, Cursor, next_item, skip_items, skip_questions, skip_records, at_or_empty, answers,
  authority, additional,
}

abbrev pub cursor_at : List ℕ → ℕ → ℕ → Cursor
cursor_at m c n = record { message = m; cursor = c; remaining = n }

cursor_back :
    (m : List ℕ) (o : Option ℕ)
    → Option.map (λ s. s.cursor) (Option.map (λ c'. cursor_at m c' 0) o) ≡ o
cursor_back m none = refl
cursor_back m (some c) = refl

module _ {A : Type 0} (parse : List ℕ → ℕ → Parsed (A × ℕ)) where
  -- The state after `n` calls of `next` that each gave an item.
  unfoldable pub advance : ℕ → Cursor → Option Cursor
  advance zero s = some s
  advance (suc n) s =
      let (s', item) = next_item parse s in
      let rest = advance n s' in elim item [ some (ok _) ↦ rest | _ ↦ none ]

  -- `n` calls of `next` on an iterator with `n` items left or more come to where `n` items skipped
  -- come to, and fail together.
  pub advance-skip :
      (n k : ℕ) (m : List ℕ) (c : ℕ)
      → advance n (cursor_at m c (n + k))
        ≡ Option.map (λ c'. cursor_at m c' k) (skip_items parse m c n)
  unfolding advance next_item skip_items
  advance-skip zero k m c = ground arith
  advance-skip (suc n) k m c = elim (Result-Cases (parse m c)) [
    | is_err e a ↦ ground arith
    | is_stuck a ↦ ground arith
    | is_ok (x, next) a ↦ ground (arith, advance-skip n k m next)
  ]

  pub advance_all :
      (n : ℕ) (m : List ℕ) (c : ℕ)
      → Option.map (λ s. s.cursor) (advance n (cursor_at m c n)) ≡ skip_items parse m c n
  advance_all n m c =
      let whole : n ≡ n + 0 = omega arith in
      ap (λ k. Option.map (λ s. s.cursor) (advance n (cursor_at m c k))) whole
      ∙ ap (Option.map (λ s. s.cursor)) (advance-skip n 0 m c)
      ∙ cursor_back m (skip_items parse m c n)

  -- Each item that is skipped takes up at least `least` bytes of the message.
  skip_items_bound :
      (least : ℕ) (m : List ℕ)
      → ((c : ℕ) (x : A) (next : ℕ)
          → parse m c ≡ ok (x, next)
          → (c + least ≤ next) × (next ≤ length m))
      → (n c c' : ℕ) → c ≤ length m
      → skip_items parse m c n ≡ some c'
      → (c + least * n ≤ c') × (c' ≤ length m)
  unfolding skip_items
  skip_items_bound least m grows zero c c' h e = ground arith
  skip_items_bound least m grows (suc n) c c' h e = elim (Result-Cases (parse m c)) [
    | is_err x a ↦ ground arith
    | is_stuck a ↦ ground arith
    | is_ok (x, next) a ↦
        let g = grows c x next a in grind (arith, skip_items_bound least m grows n next c' g.1)
  ]

-- Where the answers are located, the authority section starts where the iteration over the answers
-- ends, and it is empty where an answer does not parse.
pub authority-answers :
    (r : MessageReader) {c : ℕ}
    → skip_questions r.message r.header ≡ some c
    → authority r
      ≡ at_or_empty r.message r.header.authority_count
          (Option.map (λ s. s.cursor) (advance Record.try_parse r.header.answer_count (answers r)))
unfolding authority answers at_or_empty skip_records
authority-answers r {c} e = rw e (
    ap (at_or_empty r.message r.header.authority_count)
      (sym (advance_all Record.try_parse r.header.answer_count r.message c)))

-- Where the answers and the authority section are located, the additional section starts where the
-- iteration over the authority section ends, and it is empty where a record of that does not parse.
pub additional-authority :
    (r : MessageReader) {c c' : ℕ}
    → skip_questions r.message r.header ≡ some c
    → skip_records r.message c r.header.answer_count ≡ some c'
    → additional r
      ≡ at_or_empty r.message r.header.additional_count (
          Option.map
            (λ s. s.cursor)
            (advance Record.try_parse r.header.authority_count (authority r)))
unfolding authority additional at_or_empty
additional-authority r {c} {c'} e e' = rw e (
    rw e' (
      ap (at_or_empty r.message r.header.additional_count) (
        unfold skip_records in
        (sym (advance_all Record.try_parse r.header.authority_count r.message c')))))

-- In a message of twelve bytes or more whose length fits in an isize, a located authority section
-- stands behind twelve bytes of header, at least five for each question
-- and eleven for each answer, all of them in the message.
pub authority_bound :
    (r : MessageReader) {c c' : ℕ}
    → IsSlice r.message
    → 12 ≤ length r.message
    → skip_questions r.message r.header ≡ some c
    → skip_records r.message c r.header.answer_count ≡ some c'
    → (12 + 5 * r.header.question_count + 11 * r.header.answer_count ≤ c') × (c' ≤ length r.message)
unfolding skip_questions skip_records
authority_bound r {c} {c'} fits header e e' =
    let (qs, in_qs) =
      skip_items_bound Question.try_parse 5 r.message
        (λ at x next p.
          let (_, low, high) = question_inside r.message at x next fits p in (low, high))
        r.header.question_count 12 c header e in
    let (as', in_as) =
      skip_items_bound Record.try_parse 11 r.message
        (λ at x next p.
          let (placed, _, end, low) = record-IsPlaced r.message at x next fits p in
          (low, omega (arith, placed.inside)))
        r.header.answer_count c c' in_qs e' in
    (omega arith, in_as)
