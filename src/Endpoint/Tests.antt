-- ===== src/Endpoint/Tests.antt =====
-- The theorems of the endpoint on a name, and on fifteen conflicts about it.
use hick.Prelude.{
  ◌⊎◌, ◌≢◌, not, inl, ℕ, zero, suc, ◌+◌, ◌*◌, ◌≡◌, ◌↔◌, refl, arith, true, false, false, List, [],
  ◌∷◌, map, some, ok,
}
use hick.Time.{from_secs}
use hick.Time.Steady.{steady, steady-IsClock}
use hick.Wire.Name.{NameRef, Label, next, next_loop, next_round, labels}
use hick.Wire.Name.Decode.{decode}
use hick.Wire.Error.{Parsed}
use hick.Wire.ResourceType
use hick.Wire.ResourceClass
use hick.Wire.Question.{QuestionRef}
use hick.Wire.Record.{Ref}
use hick.Cache.{same_class}
use hick.Endpoint.Admits.{Provenance, Answering, for_datagram, all_denied, for_datagram_lem}
use hick.Endpoint.Admission.{Admission, admits, new_scope}
use hick.Endpoint.Admission.Laws.{Known, Legible, Asked, admits_iff}
use hick.Owner.{Name, trim, split, wire_length, validate_name}
use hick.Owner.Text.{lower}
use hick.Owner.Labels.{name_labels, IsName}
use hick.Endpoint.Matching.{
  names_match, names_match_record, names_match_str, match_loop, match_round, label_match, zip_match,
}
use hick.Endpoint.Matching.Names.{names_match_iff}
use hick.Endpoint.Flood.{
  empty, stamp, newest, on_datagram, any_same_owner, release, write, engage, accept, latch_epoch,
  in_force,
}
use hick.Endpoint.Flood.History.{quiet, epoch_at}
use hick.Endpoint.Flood.Run.{Conflict, Engaged, run, run-latch_epoch, run-in_force_iff}

abbrev ours : Name
ours = record { text = b'h' ∷ b'.' ∷ b'l' ∷ b'a' ∷ b'n' ∷ b'.' ∷ [] }

ours-IsName : IsName ours
unfolding validate_name trim split wire_length
ours-IsName = record { valid = refl; folded = refl }

-- `H.LAN` at the front of a message.
abbrev theirs : NameRef
theirs = record { message = 1 ∷ b'H' ∷ 3 ∷ b'L' ∷ b'A' ∷ b'N' ∷ 0 ∷ []; start = 0 }

it_matches : names_match ours theirs ≡ true
unfolding names_match names_match_str match_loop match_round label_match zip_match trim split next
    next_loop next_round labels
it_matches = refl

names_match_iff_example :
    (names_match ours theirs ≡ true)
    ↔ ((ls : List Label) × (decode theirs ≡ ok ls) × (map lower ls ≡ name_labels ours))
unfolding trim
names_match_iff_example = names_match_iff ours theirs ours-IsName refl

-- Conflicts that arrive half a second apart, each in a datagram of its own.
abbrev burst_from : ℕ → ℕ → List Conflict
burst_from i zero = []
burst_from i (suc n) =
    record { received_at = i * 500000000; datagram = i; owner = ours } ∷ burst_from (i + 1) n

abbrev fifteen : List Conflict
fifteen = burst_from 1 15

-- The limit engages at the fifteenth.
engaged : latch_epoch steady (run steady fifteen (empty, [])).0 (from_secs 12) ≡ some 7500000000
unfolding run accept on_datagram any_same_owner release write engage stamp newest latch_epoch
engaged = refl

run-latch_epoch_example :
    let (f, hist) = run steady fifteen (empty, []) in
    latch_epoch steady f (from_secs 12) ≡ epoch_at hist (from_secs 12)
run-latch_epoch_example = run-latch_epoch steady steady-IsClock fifteen (from_secs 12) (omega arith)

run-in_force_iff_example :
    let (f, hist) = run steady fifteen (empty, []) in
    (in_force steady f (from_secs 12) ≡ true) ↔ ((quiet (from_secs 12) hist ≡ false) × Engaged hist)
run-in_force_iff_example =
    run-in_force_iff steady steady-IsClock fifteen (from_secs 12) (omega arith)

-- A question about the name, and a record of it.
abbrev asked : List (Parsed QuestionRef)
asked =
    ok (record {
      qname = theirs;
      qtype = ResourceType.any;
      qclass = ResourceClass.in_class;
      unicast_response = false;
    })
    ∷ []

abbrev proposed : Ref
proposed = record {
  message = theirs.message;
  name = theirs;
  rtype = ResourceType.txt;
  rclass = ResourceClass.in_class;
  cache_flush = false;
  ttl = 120;
  rdata_start = 7;
  rdata_len = 0;
}

admits_iff_example : ((admits (new_scope asked ours) proposed).1 ≡ ok Admission.ours) ↔ (
    (same_class ResourceClass.in_class ResourceClass.in_class ≡ true)
    × (names_match_record ours proposed ≡ true)
    × Legible asked
    × Asked ours asked)
unfolding new_scope Known
admits_iff_example = admits_iff (new_scope asked ours) proposed (inl refl)

for_datagram_lem_example :
    let a = for_datagram Provenance.own_echo_likely false true false in
    ((all_denied a ≡ true) ↔ ((Provenance.own_echo_likely ≡ Provenance.own_echo) ⊎ (false ≡ true)))
    × (a.adjudication ≡ not (all_denied a))
    × (a.quieting ≡ a.observation)
    × ((a.observation ≡ true) ⊎ (a.answering ≢ Answering.all))
for_datagram_lem_example = for_datagram_lem Provenance.own_echo_likely false true false
