-- ===== src/Wire/Builder/Finish.antt =====
-- What `finish` leaves in the buffer.
use hick.Prelude.{
  ℕ, zero, suc, ◌≤◌, ◌≡◌, Result, refl, ap, ◌∙◌, arith, List, [], ◌∷◌, ◌++◌, ok, length, take, drop,
  slice?_in, length-take, IsSlice, ◌<◌, ◌^◌, ◌+◌, sym, Bool-cases, inl, inr, if◌then◌else◌,
}
use mathlib.Core.Path.{subst}
use hick.Wire.Error.{EncodeError}
use hick.Wire.Header
use hick.Wire.Header.{Header}
use hick.Wire.Header.Laws.{IsHeader, header_bytes, write-bytes, parse-bytes}
use hick.Wire.Builder.{MessageBuilder, try_new, finished, write_header, finish}
use hick.Wire.Builder.Push.{Section, add_one}
use hick.Wire.Builder.Extends.{Fits}
use hick.Wire.Builder.Counted.{
  succeeds, same_section, with_more, with_more_none, with_more-add_one, with_more-IsHeader,
  add_one-IsHeader, Behind-Fits,
}
use hick.Wire.Builder.Rollback.{
  Push, push, section_of, push-Pushes, pushes, pushes-Behind, started, started-Fits,
  try_new-started,
}

drop-take : (n : ℕ) (xs : List ℕ) → drop n (take n xs) ≡ []
drop-take zero xs = refl
drop-take (suc n) [] = refl
drop-take (suc n) (x ∷ xs) = drop-take n xs

-- A builder with room for a header, whose header's fields are in range, finishes with the length of
-- the message, and the buffer then parses as that header, with what was written behind it unchanged.
pub finish-parse :
    (b : MessageBuilder)
    → IsHeader b.header
    → 12 ≤ length b.out
    → ((finish b).1 ≡ ok b.cursor)
      × (Header.try_parse (finish b).0.out ≡ ok (b.header, drop 12 b.out))
unfolding finish
finish-parse b known room =
    let head = take 12 b.out in
    let size : 12 ≤ length head = omega (arith, length-take 12 b.out) in
    let slice = slice?_in b.out 0 12 (omega arith) room in
    let wrote =
      write-bytes b.header head size
      ∙ ap (λ (r : List ℕ). (header_bytes b.header ++ r, ok 12)) (drop-take 12 b.out) in
    let e : finish b ≡ (record b { out = header_bytes b.header ++ drop 12 b.out }, ok b.cursor) =
      ap (λ o. write_header o b) slice ∙ ap (λ r. finished r b) wrote in
    (
      ap (λ (r : MessageBuilder × Result EncodeError ℕ). r.1) e,
      ap (λ (r : MessageBuilder × Result EncodeError ℕ). Header.try_parse r.0.out) e
          ∙ parse-bytes b.header (drop 12 b.out) known,
    )

-- How many of the pushes into a section succeed.
unfoldable pub tally : List Push → MessageBuilder → Section → ℕ
tally [] b s = 0
tally (p ∷ ps) b s =
    let rest = tally ps (push p b).0 s in
    if succeeds (push p b).1
    then (if same_section s (section_of p) then rest + 1 else rest)
    else rest

pushes-header :
    (ps : List Push) (b : MessageBuilder)
    → Fits b
    → IsHeader b.header
    → (pushes ps b).header ≡ with_more b.header (tally ps b)
unfolding tally
pushes-header [] b fits known = sym (with_more_none b.header known)
pushes-header (p ∷ ps) b fits known =
    let b' = (push p b).0 in
    let e = push-Pushes p b fits in
    let fits' = Behind-Fits b b' e.behind in
    elim (Bool-cases (succeeds (push p b).1)) [
      | inl done ↦
          let one : b'.header ≡ add_one (section_of p) b.header =
            e.header ∙ ap (λ t. if t then add_one (section_of p) b.header else b.header) done in
          let known' = subst IsHeader (sym one) (add_one-IsHeader (section_of p) b.header known) in
          pushes-header ps b' fits' known'
          ∙ ap (λ h. with_more h (tally ps b')) one
          ∙ with_more-add_one (section_of p) b.header (tally ps b')
          ∙ rw (done) refl
      | inr failed ↦
          let same : b'.header ≡ b.header =
            e.header ∙ ap (λ t. if t then add_one (section_of p) b.header else b.header) failed in
          pushes-header ps b' fits' (subst IsHeader (sym same) known)
          ∙ ap (λ h. with_more h (tally ps b')) same
          ∙ rw (failed) refl
    ]

Finishes : Header → List Push → MessageBuilder → Type 0
Finishes header ps b =
    let b' = pushes ps b in
    ((finish b').1 ≡ ok b'.cursor)
    × (Header.try_parse (finish b').0.out ≡ ok (with_more header (tally ps b), drop 12 b'.out))

-- A builder over a buffer and a table that fit in an isize, made with a header of fields in range:
-- whatever is pushed, and whether it fails or not, `finish` does not fail. It answers the length of
-- the message, and the buffer then parses as the header that was given, with one more in the count of
-- a section for each push into it that succeeded (65535 at most), and with what was written behind it
-- unchanged.
pub finish-pushes :
    (comp_n : ℕ) (out : List ℕ) (header : Header) (ps : List Push) {b : MessageBuilder}
    → IsSlice out
    → comp_n < 2 ^ 63
    → IsHeader header
    → try_new comp_n out header ≡ ok b
    → let b' = pushes ps b in
      ((finish b').1 ≡ ok b'.cursor)
      × (Header.try_parse (finish b').0.out ≡ ok (with_more header (tally ps b), drop 12 b'.out))
unfolding Finishes started
finish-pushes comp_n out header ps {b} fits few known h =
    let (room, same) = try_new-started comp_n out header h in
    let s = started comp_n out header in
    let s' = pushes ps s in
    let ready = started-Fits comp_n out header fits few room in
    let e = pushes-Behind ps s ready in
    let counts = pushes-header ps s ready known in
    let (length_answered, parsed) =
      finish-parse s' (subst IsHeader (sym counts) (with_more-IsHeader header (tally ps s) known))
        (omega (arith, e.size)) in
    subst (Finishes header ps) same
      (length_answered, parsed ∙ ap (λ h. ok (h, drop 12 s'.out)) counts)
