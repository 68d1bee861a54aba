-- ===== src/Service/Adjudicate/Ends.antt =====
-- The adjudication of a datagram ends.
use hick.Prelude.{
  ℕ, zero, suc, ◌≡◌, ◌≢◌, refl, sym, ap, ◌∙◌, arith, Bool, true, false, List, [], ◌∷◌, Option, none,
  some, Result, ok, err, stuck, ◌>>=◌, ◌==◌, if◌then◌else◌, IsSlice, AreBytes, All, saturating_sub,
  Bool-cases, Option-cases, Result-Cases, is_ok, is_err, is_stuck, inl, inr, is_greater, sort,
}
use mathlib.Core.Path.{subst}
use hick.Wire.Error.{Parsed}
use hick.Wire.ResourceType
use hick.Wire.Name.{NameRef, NameLabels, Label, Yield, next, labels}
use hick.Wire.Name.Decode.{collect_item, collect, decode, decode-ne-stuck}
use hick.Wire.Question
use hick.Wire.Question.{QuestionRef}
use hick.Wire.Question.Laws.{question_inside, question-ne-stuck}
use hick.Wire.Record
use hick.Wire.Record.{Ref}
use hick.Wire.Record.Laws.{record-IsPlaced, record-ne-stuck}
use hick.Wire.Reader.{
  Cursor, next_item, items, MessageReader, questions, authority, at_or_empty, question_items,
  record_items,
}
use hick.Wire.Reader.Items.{items-end, items-next}
use hick.Wire.Rdata.Canonical.{as_sent, write_canonical_rdata, be_bytes}
use hick.Wire.Rdata.Ends.{write_canonical_rdata-ne-stuck}
use hick.Owner.{Name}
use hick.Endpoint.Matching.{decodes_round, decodes_loop, name_fully_decodes, question_is_about}
use hick.Endpoint.Admission.{
  Admission, ours, not_ours, Readable, read_questions_loop, read_questions, within_scope,
}
use hick.Endpoint.Admission.Laws.{admission}
use hick.Service.Proposal.{cmp_bytes}
use hick.Service.Proposal.Fold.{cmp_proposals}
use hick.Service.Adjudicate.{
  Abandon, peer_wins_it, we_hold, undecodable_rdata, ServiceRecords, our_proposal, element,
  adjudicate,
}
use hick.Service.Adjudicate.Laws.{by_admission, elements, adjudicate-elements}

-- A name that the loop over its labels does not finish is one that the reading of them does not.
round-stuck :
    (y : Yield) (f : NameLabels → Option Bool) (g : NameLabels → Parsed (List Label))
    → ((s : NameLabels) → f s ≡ none → g s ≡ stuck)
    → decodes_round y f ≡ none
    → collect_item y g ≡ stuck
unfolding decodes_round collect_item
round-stuck (s, none) f g k h = cc
round-stuck (s, some (ok l)) f g k h = ap (λ r. r >>= λ ls. ok (l ∷ ls)) (k s h)
round-stuck (s, some (err e)) f g k h = cc
round-stuck (s, some stuck) f g k h = cc

loop-stuck : (fuel : ℕ) (s : NameLabels) → decodes_loop fuel s ≡ none → collect fuel s ≡ stuck
unfolding decodes_loop collect
loop-stuck zero s h = refl
loop-stuck (suc fuel) s h =
    round-stuck (next s) (decodes_loop fuel) (collect fuel) (loop-stuck fuel) h

module _ (m : List ℕ) (bytes : AreBytes m) (fits : IsSlice m) where
  name_ends : (name : NameRef) → name.message ≡ m → name_fully_decodes name ≢ none
  unfolding name_fully_decodes decode
  name_ends name same h =
      decode-ne-stuck name (subst AreBytes (sym same) bytes)
        (subst (λ (xs : List ℕ). IsSlice xs) (sym same) fits) (loop-stuck 128 (labels name) h)

  -- An item that was read without running out of fuel, from this message.
  abbrev WasRead : {A : Type 0} → (A → Type 0) → Parsed A → Type 0
  WasRead P (ok a) = P a
  WasRead P (err e) = Unit {0}
  WasRead P stuck = 0 ≡ suc 0

  items-All :
      {A : Type 0} (parse : List ℕ → ℕ → Parsed (A × ℕ)) (P : A → Type 0) (fuel : ℕ) (s : Cursor)
      → ((c : ℕ) → parse m c ≢ stuck)
      → ((c : ℕ) (a : A) (n : ℕ) → parse m c ≡ ok (a, n) → P a)
      → s.message ≡ m
      → All (WasRead P) (items parse fuel s)
  unfolding items next_item
  items-All parse P zero s ends holds same = tt
  items-All parse P (suc fuel) s ends holds same = elim (Bool-cases (s.remaining == 0)) [
    | inl p ↦
        let n : next_item parse s ≡ (s, none) = rw (next_item, p) refl in
        subst (All (WasRead P)) (sym (items-end parse fuel s n)) tt
    | inr p ↦ elim (Result-Cases (parse s.message s.cursor)) [
      | is_stuck e ↦ absurd (ends s.cursor (ap (λ x. parse x s.cursor) (sym same) ∙ e))
      | is_err e h ↦
          let s' = record s { remaining = 0 } in
          let n : next_item parse s ≡ (s', some (err e)) = rw (next_item, p, h) refl in
          subst (All (WasRead P)) (sym (items-next parse fuel s n))
            (tt, items-All parse P fuel s' ends holds same)
      | is_ok r h ↦
          let s' = record s { cursor = r.1; remaining = saturating_sub s.remaining 1 } in
          let n : next_item parse s ≡ (s', some (ok r.0)) = rw (next_item, p, h) refl in
          subst (All (WasRead P)) (sym (items-next parse fuel s n)) (
            holds s.cursor r.0 r.1 (ap (λ x. parse x s.cursor) (sym same) ∙ h),
            items-All parse P fuel s' ends holds same,
          )
    ]
  ]

  abbrev InQuestion : QuestionRef → Type 0
  InQuestion q = q.qname.message ≡ m

  abbrev InRecord : Ref → Type 0
  InRecord r = (r.message ≡ m) × (r.name.message ≡ m)

  read_loop-ne-stuck :
      (qs : List (Parsed QuestionRef)) (name : Name) (admitted : Bool)
      → All (WasRead InQuestion) qs
      → read_questions_loop qs name admitted ≢ stuck
  unfolding read_questions_loop
  read_loop-ne-stuck [] name admitted all = λ h. cc
  read_loop-ne-stuck (err e ∷ qs) name admitted all = λ h. cc
  read_loop-ne-stuck (stuck ∷ qs) name admitted all = λ h. absurd (omega (arith, all.0))
  read_loop-ne-stuck (ok q ∷ qs) name admitted all =
      elim (Option-cases (name_fully_decodes q.qname)) [
        | inl e ↦ absurd (name_ends q.qname all.0 e)
        | inr (true, e) ↦
            rw (read_questions_loop, e)
              (read_loop-ne-stuck qs name (if question_is_about q name then true else admitted)
                all.1)
        | inr (false, e) ↦ rw (read_questions_loop, e) (λ h. cc)
      ]

  admission-ne-stuck :
      (qs : List (Parsed QuestionRef)) (name : Name) (r : Ref)
      → All (WasRead InQuestion) qs
      → admission qs name r ≢ stuck
  unfolding admission read_questions within_scope
  admission-ne-stuck qs name r all =
      λ h. let ends = read_loop-ne-stuck qs name false all in ground (arith, ends)

  written-ne-stuck :
      (x : List ℕ × Parsed (Unit {0}))
      → x.1 ≢ stuck
      → (elim x.1 [ ok _ ↦ ok x.0 | err _ ↦ err undecodable_rdata | stuck ↦ stuck ]) ≢ stuck
  written-ne-stuck (out, ok v) h = λ q. cc
  written-ne-stuck (out, err e) h = λ q. cc
  written-ne-stuck (out, stuck) h = λ q. h refl

  element-ne-stuck : (r : Ref) → InRecord r → element r ≢ stuck
  unfolding element
  element-ne-stuck r here =
      let prefix = be_bytes (ResourceType.to_u16 r.rtype) in
      written-ne-stuck (write_canonical_rdata r as_sent prefix) (
        write_canonical_rdata-ne-stuck r (subst AreBytes (sym here.0) bytes)
          (subst (λ (xs : List ℕ). IsSlice xs) (sym here.0) fits) as_sent prefix)

  by_admission-ne-stuck :
      (a : Readable Admission) (elem : Result Abandon (List ℕ))
      (rest : Result Abandon (List (List ℕ)))
      → a ≢ stuck
      → elem ≢ stuck
      → rest ≢ stuck
      → by_admission a elem rest ≢ stuck
  by_admission-ne-stuck (ok (not_ours _)) elem rest p q t = t
  by_admission-ne-stuck (ok ours) (ok e) (ok es) p q t = λ h. cc
  by_admission-ne-stuck (ok ours) (ok e) (err why) p q t = λ h. cc
  by_admission-ne-stuck (ok ours) (ok e) stuck p q t = λ h. t refl
  by_admission-ne-stuck (ok ours) (err why) rest p q t = λ h. cc
  by_admission-ne-stuck (ok ours) stuck rest p q t = λ h. q refl
  by_admission-ne-stuck (err _) elem rest p q t = λ h. cc
  by_admission-ne-stuck stuck elem rest p q t = λ h. p refl

  elements-ne-stuck :
      (rs : List (Parsed Ref)) (qs : List (Parsed QuestionRef)) (name : Name)
      → All (WasRead InRecord) rs
      → All (WasRead InQuestion) qs
      → elements rs qs name ≢ stuck
  unfolding elements
  elements-ne-stuck [] qs name all asked = λ h. cc
  elements-ne-stuck (err e ∷ rs) qs name all asked = λ h. cc
  elements-ne-stuck (stuck ∷ rs) qs name all asked = λ h. absurd (omega (arith, all.0))
  elements-ne-stuck (ok r ∷ rs) qs name all asked =
      elim (Option-cases (name_fully_decodes r.name)) [
        | inl e ↦ absurd (name_ends r.name all.0.1 e)
        | inr (true, e) ↦
            rw (elements, e)
              (by_admission-ne-stuck (admission qs name r) (element r) (elements rs qs name)
                (admission-ne-stuck qs name r asked) (element-ne-stuck r all.0)
                (elements-ne-stuck rs qs name all.1 asked))
        | inr (false, e) ↦ rw (elements, e) (λ h. cc)
      ]

authority_message : (pp : MessageReader) → (authority pp).message ≡ pp.message
unfolding authority at_or_empty
authority_message pp = ground arith

decided-ne-stuck :
    (x : Result Abandon (List (List ℕ))) (our : List (List ℕ))
    → x ≢ stuck
    → (x >>= λ es.
        ok (if is_greater (cmp_proposals (sort cmp_bytes es) our) then peer_wins_it else we_hold))
      ≢ stuck
decided-ne-stuck (ok es) our h = λ q. cc
decided-ne-stuck (err why) our h = λ q. cc
decided-ne-stuck stuck our h = λ q. h refl

-- The verdict on a datagram of bytes, where the datagram and our proposal fit in an isize, is
-- reached: the walk over its questions and records, the decoding of every name and the writing of
-- the rdata all end.
pub adjudicate-ne-stuck :
    (pp : MessageReader) (our_records : ServiceRecords)
    → AreBytes pp.message
    → IsSlice pp.message
    → IsSlice (our_proposal our_records)
    → adjudicate pp our_records ≢ stuck
unfolding questions question_items record_items
adjudicate-ne-stuck pp our_records bytes fits few = λ h.
    let m = pp.message in
    let rs =
      items-All m bytes fits Record.try_parse (InRecord m bytes fits) (authority pp).remaining
        (authority pp) (λ c. record-ne-stuck m c fits)
        (λ c r n e.
          let (placed, name, _, _) = record-IsPlaced m c r n fits e in
          (placed.message, ap (λ (x : NameRef). x.message) name))
        (authority_message pp) in
    let qs =
      items-All m bytes fits Question.try_parse (InQuestion m bytes fits) pp.header.question_count
        (questions pp) (λ c. question-ne-stuck m c fits)
        (λ c q n e. ap (λ (x : NameRef). x.message) (question_inside m c q n fits e).0) refl in
    let ends =
      elements-ne-stuck m bytes fits (record_items (authority pp)) (question_items (questions pp))
        our_records.instance_name rs qs in
    decided-ne-stuck
      (elements (record_items (authority pp)) (question_items (questions pp))
        our_records.instance_name)
      (our_proposal our_records) ends (sym (adjudicate-elements pp our_records few) ∙ h)
