-- ===== src/Service/Adjudicate.antt =====
-- mdns-proto/src/service/proposal.rs: the two proposals, and the verdict on a datagram.
use hick.Prelude.{
  ℕ, ◌/◌, ◌%◌, Bool, true, false, List, [], ◌∷◌, ◌++◌, Option, none, some, Result, ok, err, stuck,
  ◌>>=◌, length, sort, leb, if◌then◌else◌,
}
use hick.Wire.Error.{Parsed}
use hick.Wire.Name.{NameRef}
use hick.Wire.ResourceType
use hick.Wire.ResourceType.{ResourceType}
use hick.Wire.Question.{QuestionRef}
use hick.Wire.Record.{Ref}
use hick.Wire.Reader.{MessageReader, questions, authority, question_items, record_items}
use hick.Wire.Rdata.Canonical.{RdataForm, as_sent, write_canonical_rdata}
use hick.Owner.{Name, same_owner}
use hick.Endpoint.Matching.{name_fully_decodes}
use hick.Endpoint.Admission.{Admission, ours, not_ours, ProposalScope, new_scope, admits, Readable}
use hick.Service.Proposal.{
  cmp_bytes, ProposalFold, fold_new, offer, peer_wins, write_canonical_wire_name,
}
pub mod Laws
pub mod Ends

pub data Verdict : Type 0 where
  peer_wins_it we_hold : Verdict

pub data Abandon : Type 0 where
  unparseable_authority undecodable_owner_name undecodable_rdata unreadable_questions : Abandon

-- What the comparison reads of the records of a service. An address is the list of its octets.
pub record ServiceRecords : Type 0 where
  pub instance_name : Name
  pub host : Name
  pub port : ℕ
  pub priority : ℕ
  pub weight : ℕ
  pub a_addrs : List (List ℕ)
  pub aaaa_addrs : List (List ℕ)
  pub txt_segments : List (List ℕ)

-- The loop of `write_canonical_txt` in mdns-proto/src/service/respond.rs, with `wrote_any`.
unfoldable pub canonical_segments : List (List ℕ) → List ℕ × Bool
canonical_segments [] = ([], false)
canonical_segments (seg ∷ segments) =
    let (out, wrote_any) = canonical_segments segments in
    if leb (length seg) 255 then (length seg ∷ (seg ++ out), true) else (out, wrote_any)

unfoldable pub write_canonical_txt : List (List ℕ) → List ℕ
unfolding canonical_segments
write_canonical_txt segments =
    let (out, wrote_any) = canonical_segments segments in if wrote_any then out else 0 ∷ []

-- `to_be_bytes` of 16 bits.
abbrev pub be_bytes : ℕ → List ℕ
be_bytes v = v / 256 ∷ v % 256 ∷ []

abbrev pub typed : ResourceType → List ℕ → List ℕ
typed rtype rdata = be_bytes (ResourceType.to_u16 rtype) ++ rdata

abbrev pub typed_all : ResourceType → List (List ℕ) → List (List ℕ)
typed_all rtype [] = []
typed_all rtype (a ∷ addrs) = typed rtype a ∷ typed_all rtype addrs

unfoldable pub our_proposal : ServiceRecords → List (List ℕ)
unfolding write_canonical_txt
our_proposal our = sort cmp_bytes (
    typed ResourceType.srv (
      be_bytes our.priority
      ++ (be_bytes our.weight ++ (be_bytes our.port ++ write_canonical_wire_name our.host.text)))
    ∷ typed ResourceType.txt (write_canonical_txt our.txt_segments)
    ∷ (if same_owner our.instance_name our.host
        then typed_all ResourceType.a our.a_addrs ++ typed_all ResourceType.aaaa our.aaaa_addrs
        else []))

-- `elem`, with what `write_canonical_rdata` appends.
unfoldable pub element : Ref → Result Abandon (List ℕ)
element r =
    let (elem, wrote) = write_canonical_rdata r as_sent (be_bytes (ResourceType.to_u16 r.rtype)) in
    elim wrote [ ok _ ↦ ok elem | err _ ↦ err undecodable_rdata | stuck ↦ stuck ]

-- `fold.offer(elem)`, and the rest of the loop.
unfoldable pub offer_then :
    Result Abandon (List ℕ)
    → ProposalFold
    → (ProposalFold → Result Abandon ProposalFold)
    → Result Abandon ProposalFold
offer_then (ok elem) fold continue = continue (offer fold elem)
offer_then (err why) fold continue = err why
offer_then stuck fold continue = stuck

-- The match on what `scope.admits(&r)` answered.
unfoldable pub on_admission :
    Readable Admission
    → Result Abandon (List ℕ)
    → ProposalFold
    → (ProposalFold → Result Abandon ProposalFold)
    → Result Abandon ProposalFold
unfolding offer_then
on_admission (ok (not_ours _)) elem fold continue = continue fold
on_admission (ok ours) elem fold continue = offer_then elem fold continue
on_admission (err _) elem fold continue = err unreadable_questions
on_admission stuck elem fold continue = stuck

-- The loop of `fold` over the authority section.
unfoldable pub fold_loop :
    List (Parsed Ref) → ProposalScope → ProposalFold → Result Abandon ProposalFold
unfolding on_admission
fold_loop [] scope fold = ok fold
fold_loop (err _ ∷ rs) scope fold = err unparseable_authority
fold_loop (stuck ∷ rs) scope fold = stuck
fold_loop (ok r ∷ rs) scope fold = elim (name_fully_decodes r.name) [
  | none ↦ stuck
  | some decodes ↦
      if decodes
      then (let (scope', admission) = admits scope r in
          on_admission admission (element r) fold (fold_loop rs scope'))
      else err undecodable_owner_name
]

-- The answer of `adjudicate`; an `err` stands for `Verdict::Abandoned`.
unfoldable pub adjudicate : MessageReader → ServiceRecords → Result Abandon Verdict
unfolding fold_loop our_proposal
adjudicate pp our_records =
    let our = our_proposal our_records in
    let scope = new_scope (question_items (questions pp)) our_records.instance_name in
    fold_loop (record_items (authority pp)) scope (fold_new (length our)) >>= λ fold.
    ok (if peer_wins fold our then peer_wins_it else we_hold)
