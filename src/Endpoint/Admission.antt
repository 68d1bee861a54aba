-- ===== src/Endpoint/Admission.antt =====
-- mdns-proto/src/endpoint/matching.rs: whether a record of a proposal concerns a name of ours.
use hick.Prelude.{
  ℕ, Bool, true, false, not, List, [], ◌∷◌, Option, none, some, Result, ok, err, stuck,
  if◌then◌else◌,
}
use hick.Wire.Error.{Parsed}
use hick.Wire.ResourceClass.{ResourceClass}
use hick.Wire.Question.{QuestionRef}
use hick.Wire.Record.{Ref}
use hick.Owner.{Name}
use hick.Cache.{same_class}
use hick.Endpoint.Matching.{names_match_record, name_fully_decodes, question_is_about}
pub mod Laws

pub data NotOurs : Type 0 where
  different_class different_owner name_out_of_question_scope : NotOurs

pub data Admission : Type 0 where
  not_ours : NotOurs → Admission
  ours : Admission

pub data QuestionsUnreadable : Type 0 where
  questions_unreadable : QuestionsUnreadable

abbrev pub Readable : Type 0 → Type 0
Readable A = Result QuestionsUnreadable A

-- The loop of `read_questions` over what `(self.questions)()` yields.
unfoldable pub read_questions_loop : List (Parsed QuestionRef) → Name → Bool → Readable Bool
read_questions_loop [] name admitted = ok admitted
read_questions_loop (err _ ∷ qs) name admitted = err questions_unreadable
read_questions_loop (stuck ∷ qs) name admitted = stuck
read_questions_loop (ok q ∷ qs) name admitted =
    let rest = read_questions_loop qs name (if question_is_about q name then true else admitted) in
    elim (name_fully_decodes q.qname) [
      | none ↦ stuck
      | some decodes ↦ if decodes then rest else err questions_unreadable
    ]

unfoldable pub read_questions : List (Parsed QuestionRef) → Name → Readable Bool
unfolding read_questions_loop
read_questions questions name = read_questions_loop questions name false

pub record ProposalScope : Type 0 where
  pub questions : List (Parsed QuestionRef)
  pub name : Name
  pub scoped : Option (Readable Bool)

unfoldable pub new_scope : List (Parsed QuestionRef) → Name → ProposalScope
new_scope questions name = record { questions = questions; name = name; scoped = none }

-- `Ok(if scoped? { .. } else { .. })`
unfoldable pub within_scope : Readable Bool → Readable Admission
within_scope (ok scoped) = ok (if scoped then ours else not_ours name_out_of_question_scope)
within_scope (err e) = err e
within_scope stuck = stuck

unfoldable pub admits : ProposalScope → Ref → ProposalScope × Readable Admission
unfolding read_questions within_scope
admits s r =
    if not (same_class r.rclass ResourceClass.in_class)
    then (s, ok (not_ours different_class))
    else if not (names_match_record s.name r)
    then (s, ok (not_ours different_owner))
    else elim s.scoped [
      | some scoped ↦ (s, within_scope scoped)
      | none ↦
          let scoped = read_questions s.questions s.name in
          (record s { scoped = some scoped }, within_scope scoped)
    ]
