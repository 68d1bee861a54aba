-- ===== src/Query/Tests.antt =====
-- The theorems of a query on concrete calls, rounds and records.
use hick.Prelude.{
  ℕ, zero, map, suc, Result, ◌+◌, ◌*◌, ◌≤◌, ◌≡◌, inl, refl, arith, true, false, List, [], ◌∷◌, some,
  ◌++◌, Option, none, ok, if◌then◌else◌, All,
}
use hick.Time.{from_secs}
use hick.Time.Steady.{steady}
use hick.Owner.{Name, split, trim}
use hick.Wire.ResourceType
use hick.Wire.ResourceClass
use hick.Wire.Record.{Ref, rdata}
use hick.Transmit.{FamilyAttempt, project, any_delivered, anchor}
use hick.Wire.Error.{EncodeError}
use hick.Wire.Builder.{
  MessageBuilder, ◌>>◌, new_table, lookup, try_new, finish, write_u16, write_byte, write_each,
}
use hick.Wire.Builder.Name.{
  write_name, write_labels, write_prefix, write_target, enter, remember, find_suffix,
}
use hick.Wire.Header
use hick.Wire.Builder.Push.{push_question}
use hick.Cache.Backing.Cells.{cells, cells-IsPool}
use hick.Cache.Backing.Slots.{Slots, two_slots, two_slots-IsPool}
use hick.Query.Collect.Capacity.{Capacity}
use hick.Query.{Query, QueryUpdate, timeout, retire, note_duplicate_question}
use hick.Query.Sending.{default_compression_table, question_header, poll_transmit}
use hick.Query.Collect.{
  is_same, other_type, other_class, CollectedAnswer, QueryEvent, answer, new_query, handle_event,
}
use hick.Query.Collect.Fifo.{arrange, fifo, holds}
use hick.Wire.Rdata.Canonical.{
  canonical_rdata, canonical_rdata_folded, canonical_rdata_inner, write_canonical_rdata, write_view,
}
use hick.Wire.Rdata.{rdata_view, a_try_from_rdata}
use hick.Query.Collect.Arrivals.{brings, by_forms, collected, events, expected, events-expected}
use hick.Query.Run.{
  Call, sent, confirmed, woken, retired, polled, duplicate, calls, questions, told,
}
use hick.Query.Budget.{calls_bound}
use hick.Query.Ended.{Frozen, calls-done}
use hick.Query.Told.{told_once}
use hick.Query.Window.{calls-shut}
use hick.Query.Steps.{HasRoom, Round, Asks}
use hick.Query.Drive.{drive, drive-done}

-- A question for the address of `h`.
abbrev host : Name
host = record { text = b'h' ∷ [] }

abbrev Stored : Type 0
Stored = Query (List (Option CollectedAnswer)) (List (Option QueryUpdate))

abbrev question : Stored
question = new_query cells cells 7 host ResourceType.a ResourceClass.in_class 1 false none

abbrev zeros : ℕ → List ℕ
zeros zero = []
zeros (suc n) = 0 ∷ zeros n

abbrev buffer : List ℕ
buffer = zeros 20

-- One question that v4 carries, one that another host asks in its place, and a retirement.
abbrev some_calls : List Call
some_calls =
    sent 0 buffer
    ∷ confirmed 0 (FamilyAttempt.accepted 0) FamilyAttempt.no_socket
    ∷ woken (from_secs 1)
    ∷ duplicate (from_secs 1)
    ∷ retired
    ∷ []

calls_bound_example : questions steady cells cells question some_calls ≤ 29
unfolding any_delivered project
calls_bound_example =
    calls_bound true false steady cells cells 7 host ResourceType.a ResourceClass.in_class 1 false
      none some_calls (tt, ((inl refl, refl), (tt, (tt, (tt, tt)))))

told_once_example :
    told steady cells cells question (some_calls ++ polled ∷ [])
    ≡ (if (calls steady cells cells question some_calls).done then timeout ∷ [] else [])
told_once_example =
    told_once cells cells-IsPool steady cells 7 host ResourceType.a ResourceClass.in_class 1 false
      none some_calls

abbrev over : Stored
over = retire cells question

calls-done_example :
    let q' = calls steady cells cells over some_calls in
    Frozen over q' × (poll_transmit q' 5 buffer ≡ (q', buffer, ok none))
unfolding retire new_query
calls-done_example = calls-done steady cells cells over some_calls 5 buffer refl

-- Rounds a hundred seconds apart, each of which v4 carries and v6 misses.
abbrev rounds_from : ℕ → ℕ → List Round
rounds_from i zero = []
rounds_from i (suc n) =
    record {
      sent_at = from_secs (i * 100);
      buffer = buffer;
      confirmed_at = from_secs (i * 100);
      v4 = FamilyAttempt.accepted (from_secs (i * 100));
      v6 = FamilyAttempt.would_block;
      woken_at = from_secs (i * 100 + 60);
    }
    ∷ rounds_from (i + 1) n

abbrev started : MessageBuilder
started = record {
  out = buffer;
  cursor = 12;
  header = question_header 1;
  compression = new_table default_compression_table;
}

abbrev wrote : MessageBuilder × Result EncodeError ℕ
wrote = (push_question host ResourceType.a ResourceClass.in_class false >> finish) started

has_room : HasRoom host ResourceType.a ResourceClass.in_class false 1 buffer
unfolding try_new push_question write_name write_byte write_each write_u16 finish find_suffix enter
    remember write_prefix write_target write_labels split trim ResourceType.to_u16
    ResourceClass.to_u16 Header.write lookup
has_room = (started, wrote.0, 19, refl, refl)

rounds_from-Asks : (i n : ℕ) → All (Asks question) (rounds_from i n)
unfolding any_delivered project anchor new_query
rounds_from-Asks i zero = tt
rounds_from-Asks i (suc n) = (
  record { room = has_room; delivered = refl; patient = omega arith; forward = omega arith },
  rounds_from-Asks (i + 1) n,
)

drive-done_example : (drive steady cells cells question (rounds_from 0 27)).done ≡ true
drive-done_example =
    drive-done steady cells cells 7 host ResourceType.a ResourceClass.in_class 1 false none
      (rounds_from 0 27) (λ t d. refl) (rounds_from-Asks 0 27) refl

-- The addresses 10.0.0.1 to 10.0.0.3 of the host, each in a message of its own.
abbrev address : ℕ → Ref
address n = record {
  message = 10 ∷ 0 ∷ 0 ∷ n ∷ [];
  name = record { message = 10 ∷ 0 ∷ 0 ∷ n ∷ []; start = 0 };
  rtype = ResourceType.a;
  rclass = ResourceClass.in_class;
  cache_flush = true;
  ttl = 120;
  rdata_start = 0;
  rdata_len = 4;
}

abbrev arrivals : List (QueryEvent × ℕ)
arrivals =
    (answer (address 1), 1)
    ∷ (answer (address 2), 2)
    ∷ (answer (address 1), 3)
    ∷ (answer (address 3), 4)
    ∷ []

-- A question that may keep many answers, in a pool with room for two.
abbrev short_memory : Query (Slots CollectedAnswer) (List (Option QueryUpdate))
short_memory = new_query two_slots cells 7 host ResourceType.a ResourceClass.in_class 1 false none

two_slots-Capacity : Capacity (two_slots {V = CollectedAnswer}) (some 2)
two_slots-Capacity (none, none) = (omega arith, λ v free. (0, refl))
two_slots-Capacity (none, some b) = (omega arith, λ v free. (0, refl))
two_slots-Capacity (some a, none) = (omega arith, λ v free. (1, refl))
two_slots-Capacity (some a, some b) = (omega arith, λ v free. absurd (omega (arith, free)))

events-expected_example :
    collected two_slots (events two_slots short_memory arrivals)
    ≡ expected 2 ResourceType.a ResourceClass.in_class none arrivals []
unfolding new_query arrange
events-expected_example =
    events-expected two_slots two_slots-IsPool (some 2) two_slots-Capacity arrivals short_memory
      refl (omega arith) tt

-- The first address has made room for the third.
kept :
    map (λ a. a.rdata) (expected 2 ResourceType.a ResourceClass.in_class none arrivals [])
    ≡ (10 ∷ 0 ∷ 0 ∷ 2 ∷ []) ∷ (10 ∷ 0 ∷ 0 ∷ 3 ∷ []) ∷ []
unfolding expected brings by_forms fifo holds is_same other_type other_class canonical_rdata
    canonical_rdata_folded canonical_rdata_inner write_canonical_rdata write_view rdata_view
    ResourceType.to_u16 a_try_from_rdata rdata
kept = refl

-- A question with a window of five seconds.
abbrev windowed : Stored
windowed =
    new_query cells cells 7 host ResourceType.a ResourceClass.in_class 1 false (some (from_secs 5))

calls-shut_example :
    let q' = calls steady cells cells windowed some_calls in
    (poll_transmit q' (from_secs 6) buffer ≡ (q', buffer, ok none))
    × (handle_event cells q' (answer (address 1)) (from_secs 6) ≡ q')
    × (note_duplicate_question cells steady q' (from_secs 6) ≡ (q', false))
unfolding new_query
calls-shut_example =
    calls-shut steady cells cells windowed some_calls (from_secs 5) (from_secs 6) buffer
      (answer (address 1)) refl (omega arith)
