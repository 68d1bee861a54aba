-- ===== src/Service/Adjudicate/Laws.antt =====
-- The verdict on a datagram, against the list of its records that concern the name.
use hick.Prelude.{
  ◌≡◌, refl, ap, ◌∙◌, ℕ, Bool, true, false, List, [], ◌∷◌, none, some, Result, ok, err, stuck,
  ◌>>=◌, if◌then◌else◌, is_greater, sort, length, IsSlice, Option-cases, inl, inr,
}
use hick.Wire.Error.{Parsed}
use hick.Wire.Question.{QuestionRef}
use hick.Wire.Record.{Ref}
use hick.Wire.Reader.{MessageReader, questions, authority, question_items, record_items}
use hick.Owner.{Name}
use hick.Endpoint.Matching.{name_fully_decodes}
use hick.Endpoint.Admission.{Admission, ours, not_ours, ProposalScope, new_scope, admits, Readable}
use hick.Endpoint.Admission.Laws.{admission, Known, admits-admission}
use hick.Service.Proposal.{cmp_bytes, ProposalFold, fold_new, offer, peer_wins}
use hick.Service.Proposal.Fold.{cmp_proposals, offers}
use hick.Service.Proposal.Verdict.{decide}
use hick.Service.Adjudicate.{
  peer_wins_it, we_hold, Abandon, unparseable_authority, undecodable_owner_name,
  unreadable_questions, ServiceRecords, our_proposal, element, offer_then, on_admission, fold_loop,
  adjudicate,
}

-- An element in front of those that follow, where both are there.
abbrev pub in_front :
    Result Abandon (List ℕ) → Result Abandon (List (List ℕ)) → Result Abandon (List (List ℕ))
in_front elem rest = elem >>= λ e. rest >>= λ es. ok (e ∷ es)

abbrev pub by_admission :
    Readable Admission
    → Result Abandon (List ℕ)
    → Result Abandon (List (List ℕ))
    → Result Abandon (List (List ℕ))
by_admission (ok (not_ours _)) elem rest = rest
by_admission (ok ours) elem rest = in_front elem rest
by_admission (err _) elem rest = err unreadable_questions
by_admission stuck elem rest = stuck

-- The elements of the records that are admitted, in order; there are none at all where a record
-- does not parse, an owner does not decode, the questions are not readable, or the rdata of a
-- record that is admitted does not decode.
unfoldable pub elements :
    List (Parsed Ref) → List (Parsed QuestionRef) → Name → Result Abandon (List (List ℕ))
unfolding admission
elements [] qs name = ok []
elements (err _ ∷ rs) qs name = err unparseable_authority
elements (stuck ∷ rs) qs name = stuck
elements (ok r ∷ rs) qs name =
    let rest = elements rs qs name in
    elim (name_fully_decodes r.name) [
      | none ↦ stuck
      | some true ↦ by_admission (admission qs name r) (element r) rest
      | some false ↦ err undecodable_owner_name
    ]

abbrev offered : ProposalFold → Result Abandon (List (List ℕ)) → Result Abandon ProposalFold
offered f es = es >>= λ xs. ok (offers f xs)

on_admission-offered :
    (a : Readable Admission) (elem : Result Abandon (List ℕ)) (f : ProposalFold)
    (continue : ProposalFold → Result Abandon ProposalFold) (rest : Result Abandon (List (List ℕ)))
    → ((g : ProposalFold) → continue g ≡ offered g rest)
    → on_admission a elem f continue ≡ offered f (by_admission a elem rest)
unfolding on_admission offer_then offers
on_admission-offered (ok (not_ours _)) elem f continue rest h = h f
on_admission-offered (ok ours) (ok e) f continue (ok es) h = h (offer f e)
on_admission-offered (ok ours) (ok e) f continue (err why) h = h (offer f e)
on_admission-offered (ok ours) (ok e) f continue stuck h = h (offer f e)
on_admission-offered (ok ours) (err why) f continue rest h = refl
on_admission-offered (ok ours) stuck f continue rest h = refl
on_admission-offered (err _) elem f continue rest h = refl
on_admission-offered stuck elem f continue rest h = refl

fold_loop-offered :
    (rs : List (Parsed Ref)) (s : ProposalScope) (f : ProposalFold)
    → Known s
    → fold_loop rs s f ≡ offered f (elements rs s.questions s.name)
unfolding fold_loop elements offers
fold_loop-offered [] s f known = refl
fold_loop-offered (err e ∷ rs) s f known = refl
fold_loop-offered (stuck ∷ rs) s f known = refl
fold_loop-offered (ok r ∷ rs) s f known = elim (Option-cases (name_fully_decodes r.name)) [
  | inl e ↦ rw (fold_loop, elements, e) refl
  | inr (false, e) ↦ rw (fold_loop, elements, e) refl
  | inr (true, e) ↦
      let s' = (admits s r).0 in
      let (answer, known', qs, name) = admits-admission s r known in
      let rest : (g : ProposalFold)
          → fold_loop rs s' g ≡ offered g (elements rs s.questions s.name) =
        λ g.
          fold_loop-offered rs s' g known'
          ∙ ap (offered g)
              (ap (λ n. elements rs s'.questions n) name ∙ ap (λ q. elements rs q s.name) qs) in
      rw (fold_loop, elements, e)
        (on_admission-offered (admits s r).1 (element r) f (fold_loop rs s')
            (elements rs s.questions s.name) rest
          ∙ ap (λ a. offered f (by_admission a (element r) (elements rs s.questions s.name)))
              answer)
]

verdict-offered :
    (our : List (List ℕ))
    → IsSlice our
    → (x : Result Abandon (List (List ℕ)))
    → (offered (fold_new (length our)) x >>= λ fold.
        ok (if peer_wins fold our then peer_wins_it else we_hold))
      ≡ (x >>= λ es.
          ok (if is_greater (cmp_proposals (sort cmp_bytes es) our) then peer_wins_it else we_hold))
verdict-offered our fits (ok es) =
    ap (λ (b : Bool). ok (if b then peer_wins_it else we_hold)) (decide our es fits)
verdict-offered our fits (err why) = refl
verdict-offered our fits stuck = refl

-- The verdict on a datagram, where our proposal fits in an isize, is the comparison of two sorted
-- lists in full: the elements of all the records of its authority section that are admitted, and
-- ours. Where one of the records cannot be read it is abandoned, for the reason of the first.
pub adjudicate-elements :
    (pp : MessageReader) (our_records : ServiceRecords)
    → IsSlice (our_proposal our_records)
    → let our = our_proposal our_records in
      adjudicate pp our_records ≡ (
        elements
          (record_items (authority pp))
          (question_items (questions pp))
          our_records.instance_name
        >>= λ es.
            ok (
              if is_greater (cmp_proposals (sort cmp_bytes es) our) then peer_wins_it else we_hold))
unfolding adjudicate new_scope Known
adjudicate-elements pp our_records fits =
    let our = our_proposal our_records in
    let qs = question_items (questions pp) in
    let rs = record_items (authority pp) in
    let name = our_records.instance_name in
    rw (fold_loop-offered rs (new_scope qs name) (fold_new (length our)) (inl refl))
      (verdict-offered our fits (elements rs qs name))
