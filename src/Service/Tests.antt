-- ===== src/Service/Tests.antt =====
-- The theorems of the service on rounds, deadlines and proposals that are written out.
use hick.Prelude.{
  stuck, ◌≢◌, ℕ, ◌+◌, ◌*◌, ◌≤◌, ◌≡◌, ◌↔◌, inl, refl, arith, true, false, List, [], ◌∷◌, none, some,
  is_greater, sort, insert, ok, ◌>>=◌, if◌then◌else◌, cmp_lists, cmp_nat,
}
use mathlib.Core.List.{Permᴰ}
use hick.Time.{one_second}
use hick.Time.Steady.{steady, steady-IsClock}
use hick.Transmit.{FamilyDelivery, TransmitDelivery, any_delivered, any_missed}
use hick.Service.Patience.{fresh, in_good_standing, advances, classify_advance}
use hick.Service.Patience.Laws.{Excusable, classify_advance_iff, rounds, rounds_bound}
use hick.Service.Schedule.{
  periodic_refresh_secs, partial_announce_secs, partial_announce_deadline, re_announce_secs,
  refresh_due, stalest_refresh_due, compose_announce_deadline, announce_deadline,
  re_announce_deadline,
}
use hick.Service.Schedule.Laws.{InTime, refresh_interval, next_announcement_bounds}
use hick.Wire.ResourceType
use hick.Wire.Reader.{MessageReader, questions, authority, question_items, record_items}
use hick.Owner.{same_owner, eq_ignore_ascii_case, trim, split}
use hick.Service.Adjudicate.{
  ServiceRecords, our_proposal, adjudicate, peer_wins_it, we_hold, write_canonical_txt,
  canonical_segments,
}
use hick.Service.Adjudicate.Ends.{adjudicate-ne-stuck}
use hick.Service.Adjudicate.Laws.{elements, adjudicate-elements}
use hick.Service.Proposal.{write_canonical_wire_name, write_labels, cmp_bytes, fold_new, peer_wins}
use hick.Service.Proposal.Fold.{cmp_proposals, offers}
use hick.Service.Proposal.Verdict.{peer_wins-sorted, yields}

-- IPv4 carries a datagram, IPv6 misses it.
abbrev half : TransmitDelivery
half = record { v4 = FamilyDelivery.delivered; v6 = FamilyDelivery.missed }

half_is_partial : advances (classify_advance (fresh, fresh) half).1 ≡ false
unfolding advances classify_advance any_delivered any_missed
half_is_partial = refl

classify_advance_iff_example :
    (advances (classify_advance (fresh, fresh) half).1 ≡ true)
    ↔ ((any_delivered half ≡ true) × Excusable fresh half.v4 × Excusable fresh half.v6)
classify_advance_iff_example = classify_advance_iff fresh fresh half

third_advances :
    let (_, advanced, reached) = rounds (half ∷ half ∷ half ∷ []) (fresh, fresh) in
    (advanced ≡ 1) × (reached ≡ 3)
unfolding rounds advances classify_advance any_delivered any_missed
third_advances = (refl, refl)

rounds_bound_example :
    let (_, advanced, reached) = rounds (half ∷ half ∷ half ∷ []) (fresh, fresh) in
    reached ≤ 3 * advanced + 2
unfolding any_delivered
rounds_bound_example =
    rounds_bound true true (half ∷ half ∷ half ∷ []) (fresh, fresh)
      ((inl refl, inl refl), ((inl refl, inl refl), ((inl refl, inl refl), tt)))

-- After three partial announcements of records that live two minutes: eight seconds.
eight_seconds : partial_announce_secs 3 120 ≡ 8
unfolding partial_announce_secs periodic_refresh_secs
eight_seconds = refl

next_announcement_bounds_example :
    (1000 + one_second ≤ 8000001000)
    × (8000001000 ≤ 1000 + refresh_interval steady steady-IsClock 1000 120)
    × InTime steady steady-IsClock 1000 120 (some 1000) fresh 8000001000
    × InTime steady steady-IsClock 1000 120 none fresh 8000001000
unfolding partial_announce_deadline partial_announce_secs periodic_refresh_secs re_announce_secs
    stalest_refresh_due compose_announce_deadline announce_deadline refresh_due in_good_standing
    re_announce_deadline
next_announcement_bounds_example =
    next_announcement_bounds steady steady-IsClock 1000 120 3 8000001000 (some 1000) none fresh
      fresh refl refl tt refl

-- Three records of a peer, in the order of their arrival and in another.
abbrev theirs : List (List ℕ)
theirs = (0 ∷ 33 ∷ 9 ∷ []) ∷ (0 ∷ 16 ∷ 0 ∷ []) ∷ (0 ∷ 33 ∷ 1 ∷ []) ∷ []

abbrev arrived : List (List ℕ)
arrived = (0 ∷ 16 ∷ 0 ∷ []) ∷ (0 ∷ 33 ∷ 9 ∷ []) ∷ (0 ∷ 33 ∷ 1 ∷ []) ∷ []

abbrev ours : List (List ℕ)
ours = (0 ∷ 16 ∷ 0 ∷ []) ∷ (0 ∷ 33 ∷ 2 ∷ []) ∷ []

we_keep : yields ours theirs ≡ false
unfolding yields sort peer_wins fold_new cmp_lists cmp_nat
we_keep = refl

peer_wins-sorted_example :
    peer_wins (offers (fold_new 2) arrived) ours
    ≡ is_greater (cmp_proposals (sort cmp_bytes theirs) ours)
peer_wins-sorted_example = peer_wins-sorted ours theirs arrived (omega arith) (Permᴰ.swap refl refl)

-- A probe for `h.lan` with a TXT record, and the service of that name.
abbrev probe : MessageReader
probe = record {
  message =
      0 ∷ 0 ∷ 0 ∷ 0 ∷ 0 ∷ 1 ∷ 0 ∷ 0 ∷ 0 ∷ 1 ∷ 0 ∷ 0 ∷ 1 ∷ b'h' ∷ 3 ∷ b'l' ∷ b'a' ∷ b'n' ∷ 0 ∷ 0
      ∷ 255 ∷ 0 ∷ 1 ∷ 192 ∷ 12 ∷ 0 ∷ 16 ∷ 0 ∷ 1 ∷ 0 ∷ 0 ∷ 0 ∷ 120 ∷ 0 ∷ 1 ∷ 0 ∷ [];
  header = record {
    id = 0;
    flags = record { bits = 0 };
    question_count = 1;
    answer_count = 0;
    authority_count = 1;
    additional_count = 0;
  };
}

abbrev our_service : ServiceRecords
our_service = record {
  instance_name = record { text = b'h' ∷ b'.' ∷ b'l' ∷ b'a' ∷ b'n' ∷ [] };
  host = record { text = b'x' ∷ [] };
  port = 80;
  priority = 0;
  weight = 0;
  a_addrs = [];
  aaaa_addrs = [];
  txt_segments = [];
}

adjudicate-elements_example : adjudicate probe our_service ≡ (
    elements
      (record_items (authority probe))
      (question_items (questions probe))
      our_service.instance_name
    >>= λ es. ok (
        if is_greater (cmp_proposals (sort cmp_bytes es) (our_proposal our_service))
        then peer_wins_it
        else we_hold))
unfolding our_proposal sort insert cmp_lists cmp_nat same_owner eq_ignore_ascii_case trim
    write_canonical_wire_name write_labels split write_canonical_txt canonical_segments
    ResourceType.to_u16
adjudicate-elements_example = adjudicate-elements probe our_service (omega arith)

adjudicate-ne-stuck_example : adjudicate probe our_service ≢ stuck
unfolding our_proposal sort insert cmp_lists cmp_nat same_owner eq_ignore_ascii_case trim
    write_canonical_wire_name write_labels split write_canonical_txt canonical_segments
    ResourceType.to_u16
adjudicate-ne-stuck_example =
    adjudicate-ne-stuck probe our_service (omega arith) (omega arith) (omega arith)
