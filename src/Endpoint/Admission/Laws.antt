-- ===== src/Endpoint/Admission/Laws.antt =====
-- Which records a proposal is compared over.
use hick.Prelude.{
  ◌≡◌, ◌↔◌, ◌⊎◌, sym, ◌∙◌, inl, inr, refl, ap, arith, Bool, true, false, not, List, [], ◌∷◌, none,
  some, ok, err, stuck, if◌then◌else◌, Bool-cases, Option-cases,
}
use hick.Wire.Error.{Parsed}
use hick.Wire.ResourceClass.{ResourceClass}
use hick.Wire.Question.{QuestionRef}
use hick.Wire.Record.{Ref}
use hick.Owner.{Name}
use hick.Cache.{same_class}
use hick.Endpoint.Matching.{names_match_record, name_fully_decodes, question_is_about}
use hick.Endpoint.Admission.{
  different_class, different_owner, Admission, not_ours, ours, questions_unreadable, Readable,
  read_questions_loop, read_questions, ProposalScope, within_scope, admits,
}

-- The admission of a record, with the questions read again for each of them.
unfoldable pub admission : List (Parsed QuestionRef) → Name → Ref → Readable Admission
admission questions name r =
    if not (same_class r.rclass ResourceClass.in_class)
    then ok (not_ours different_class)
    else if not (names_match_record name r)
    then ok (not_ours different_owner)
    else within_scope (read_questions questions name)

-- What the scope remembers is what it read.
unfoldable pub Known : ProposalScope → Type 0
Known s = (s.scoped ≡ none) ⊎ (s.scoped ≡ some (read_questions s.questions s.name))

-- The questions are read once, and every record is admitted as if they were read again.
pub admits-admission :
    (s : ProposalScope) (r : Ref)
    → Known s
    → let (s', answer) = admits s r in
      (answer ≡ admission s.questions s.name r)
      × Known s'
      × (s'.questions ≡ s.questions)
      × (s'.name ≡ s.name)
unfolding admits admission Known
admits-admission s r known = elim (Bool-cases (same_class r.rclass ResourceClass.in_class)) [
  | inr p ↦ rw (admits, admission, p) (refl, known, refl, refl)
  | inl p ↦ elim (Bool-cases (names_match_record s.name r)) [
    | inr q ↦ rw (admits, admission, p, q) (refl, known, refl, refl)
    | inl q ↦ elim known [
      | inl e ↦ rw (admits, admission, p, q, e) (refl, inr refl, refl, refl)
      | inr e ↦ rw (admits, admission, p, q, e) (refl, inr e, refl, refl)
    ]
  ]
]

-- Every question parses, and its name decodes.
pub data Legible : List (Parsed QuestionRef) → Type 0 where
  done : Legible []
  next :
      {q : QuestionRef} {qs : List (Parsed QuestionRef)}
      → name_fully_decodes q.qname ≡ some true
      → Legible qs
      → Legible (ok q ∷ qs)

-- Some question is about the name.
pub data Asked (name : Name) : List (Parsed QuestionRef) → Type 0 where
  here :
      {q : QuestionRef} {qs : List (Parsed QuestionRef)}
      → question_is_about q name ≡ true
      → Asked name (ok q ∷ qs)
  behind :
      {x : Parsed QuestionRef} {qs : List (Parsed QuestionRef)}
      → Asked name qs
      → Asked name (x ∷ qs)

before :
    (q : QuestionRef) (qs : List (Parsed QuestionRef)) (name : Name) (admitted : Bool)
    → ((if question_is_about q name then true else admitted) ≡ true) ⊎ Asked name qs
    → (admitted ≡ true) ⊎ Asked name (ok q ∷ qs)
before q qs name admitted (inr a) = inr (behind a)
before q qs name admitted (inl h) = elim (Bool-cases (question_is_about q name)) [
  | inl p ↦ inr (here p)
  | inr p ↦ inl (rw (p) at h)
]

behind_first :
    (q : QuestionRef) (qs : List (Parsed QuestionRef)) (name : Name) (admitted : Bool)
    → (admitted ≡ true) ⊎ Asked name (ok q ∷ qs)
    → ((if question_is_about q name then true else admitted) ≡ true) ⊎ Asked name qs
behind_first q qs name admitted (inr (behind a)) = inr a
behind_first q qs name admitted (inr (here p)) = inl (rw (p) refl)
behind_first q qs name admitted (inl h) = inl (ground arith)

loop-ok :
    (qs : List (Parsed QuestionRef)) (name : Name) (admitted : Bool)
    → read_questions_loop qs name admitted ≡ ok true
    → Legible qs × ((admitted ≡ true) ⊎ Asked name qs)
unfolding read_questions_loop
loop-ok [] name admitted h = (done, inl cc)
loop-ok (err e ∷ qs) name admitted h = cc
loop-ok (stuck ∷ qs) name admitted h = cc
loop-ok (ok q ∷ qs) name admitted h = elim (Option-cases (name_fully_decodes q.qname)) [
  | inl e ↦
      let x : read_questions_loop (ok q ∷ qs) name admitted ≡ stuck =
        rw (read_questions_loop, e) refl in
      cc
  | inr (true, e) ↦
      let (legible, asked) =
        loop-ok qs name (if question_is_about q name then true else admitted)
          (rw (read_questions_loop, e) at h) in
      (next e legible, before q qs name admitted asked)
  | inr (false, e) ↦
      let x : read_questions_loop (ok q ∷ qs) name admitted ≡ err questions_unreadable =
        rw (read_questions_loop, e) refl in
      cc
]

ok-loop :
    (qs : List (Parsed QuestionRef)) (name : Name) (admitted : Bool)
    → Legible qs
    → (admitted ≡ true) ⊎ Asked name qs
    → read_questions_loop qs name admitted ≡ ok true
unfolding read_questions_loop
ok-loop [] name admitted done (inl a) = ap ok a
ok-loop [] name admitted done (inr a) = elim a [ ]
ok-loop (err _ ∷ qs) name admitted legible asked = elim legible [ ]
ok-loop (stuck ∷ qs) name admitted legible asked = elim legible [ ]
ok-loop (ok q ∷ qs) name admitted (next e legible) asked =
    rw (read_questions_loop, e)
      (ok-loop qs name (if question_is_about q name then true else admitted) legible
        (behind_first q qs name admitted asked))

scope_ok : (x : Readable Bool) → within_scope x ≡ ok ours → x ≡ ok true
unfolding within_scope
scope_ok (ok true) h = refl
scope_ok (ok false) h = cc
scope_ok (err e) h = cc
scope_ok stuck h = cc

admission_iff :
    (qs : List (Parsed QuestionRef)) (name : Name) (r : Ref)
    → (admission qs name r ≡ ok ours) ↔ (
        (same_class r.rclass ResourceClass.in_class ≡ true)
        × (names_match_record name r ≡ true)
        × Legible qs
        × Asked name qs)
unfolding admission read_questions within_scope
admission_iff qs name r = elim (Bool-cases (same_class r.rclass ResourceClass.in_class)) [
  | inr p ↦ rw (admission, p) (λ h. cc, λ c. let same = c.0 in cc)
  | inl p ↦ elim (Bool-cases (names_match_record name r)) [
    | inr q ↦ rw (admission, p, q) (λ h. cc, λ c. let same = c.1 in cc)
    | inl q ↦
        rw (admission, p, q)
          (
            λ h.
                let (legible, asked) =
                  loop-ok qs name false (scope_ok (read_questions qs name) h) in
                (refl, refl, legible, elim asked [ inl never ↦ cc | inr a ↦ a ]),
            λ c. ap within_scope (ok-loop qs name false c.2 (inr c.3)),
          )
  ]
]

-- Under a scope that has read the questions, or has not yet, a record is admitted exactly where it
-- is of class IN and its owner matches the name, every question of the message parses and has a
-- name that decodes, and some question is about the name.
pub admits_iff :
    (s : ProposalScope) (r : Ref)
    → Known s
    → ((admits s r).1 ≡ ok ours) ↔ (
        (same_class r.rclass ResourceClass.in_class ≡ true)
        × (names_match_record s.name r ≡ true)
        × Legible s.questions
        × Asked s.name s.questions)
admits_iff s r known =
    let (answer, _, _, _) = admits-admission s r known in
    let (to, from) = admission_iff s.questions s.name r in
    (λ h. to (sym answer ∙ h), λ c. answer ∙ from c)
