-- ===== src/Endpoint/Queries/Tests.antt =====
-- The theorems of the queries of an endpoint, on an endpoint with two queries.
use mathlib.Core.Option
use hick.Prelude.{
  ℕ, ◌+◌, ◌≡◌, arith, true, false, refl, if◌then◌else◌, ◌==◌, List, [], ◌∷◌, Option, none, some, ok,
}
use hick.Time.{from_secs}
use hick.Time.Steady.{steady, steady-IsClock}
use hick.Owner.{Name}
use hick.Wire.ResourceType
use hick.Wire.ResourceClass
use hick.Transmit.{FamilyAttempt}
use hick.Cache.Backing.Cells.{cells, cells-IsPool}
use hick.Query.{Query, QueryUpdate}
use hick.Query.Collect.{CollectedAnswer, answer, new_query}
use hick.Wire.Record.{Ref}
use hick.Query.Run.{calls}
use hick.Endpoint.Queries.{Queries, QuerySpec, try_start_query, poll_query_transmit, cancel_query}
use hick.Endpoint.Queries.Removal.{cancel_query-find}
use hick.Endpoint.Queries.Numbered.{IsNumbered}
use hick.Endpoint.Queries.Deeds.{Deed, start, about, cancel, sweep, starts, deeds, deeds-IsNumbered}
use hick.Endpoint.Queries.Laws.{find}
use hick.Endpoint.Queries.Map.{
  HandleCall, transmit, outcome, time_out, ask, retire, event, duplicate, calls_of, apply_all,
  apply_all-find,
}
use hick.Endpoint.Queries.Window.{start-shut}

abbrev Stored : Type 0
Stored = Query (List (Option CollectedAnswer)) (List (Option QueryUpdate))

abbrev host : Name
host = record { text = b'h' ∷ [] }

abbrev question : ℕ → Stored
question handle =
    new_query cells cells handle host ResourceType.a ResourceClass.in_class (handle + 1) false none

abbrev two : Queries (List (Option Stored))
two = record {
  next_query_handle = 2;
  next_txid = 3;
  queries = some (question 0) ∷ some (question 1) ∷ [];
}

abbrev address : Ref
address = record {
  message = 10 ∷ 0 ∷ 0 ∷ 1 ∷ [];
  name = record { message = 10 ∷ 0 ∷ 0 ∷ 1 ∷ []; start = 0 };
  rtype = ResourceType.a;
  rclass = ResourceClass.in_class;
  cache_flush = true;
  ttl = 120;
  rdata_start = 0;
  rdata_len = 4;
}

-- The second query is given up while the first is on its way.
abbrev some_calls : List (ℕ × HandleCall)
some_calls =
    (0, transmit 0 (0 ∷ []))
    ∷ (1, retire)
    ∷ (0, outcome 0 (FamilyAttempt.accepted 0) FamilyAttempt.no_socket)
    ∷ (1, ask)
    ∷ (0, event (answer address) 0)
    ∷ (0, duplicate (from_secs 1))
    ∷ (0, time_out (from_secs 1))
    ∷ []

apply_all-find_example :
    find cells (apply_all cells cells cells steady two some_calls) 0
    ≡ Option.map (λ q. calls steady cells cells q (calls_of 0 some_calls)) (find cells two 0)
apply_all-find_example = apply_all-find cells cells-IsPool cells cells steady some_calls two 0

abbrev spec : QuerySpec
spec = record {
  qname = host;
  qtype = ResourceType.aaaa;
  qclass = ResourceClass.in_class;
  unicast_response = false;
  timeout = some (from_secs 5);
  max_answers = some 3;
}

cancel_query-find_example :
    let (s', found) = cancel_query cells two 1 in
    (found ≡ elim (find cells two 1) [ none ↦ false | some _ ↦ true ])
    × (find cells s' 0 ≡ (if 0 == 1 then none else find cells two 0))
unfolding new_query
cancel_query-find_example = cancel_query-find cells cells-IsPool two 1 0 ((refl, tt), (tt, tt))

-- The first query is given up, a third is started, and the second is called to its end and swept.
abbrev some_deeds : List Deed
some_deeds =
    cancel 0
    ∷ start spec 0
    ∷ about 1 retire
    ∷ about 1 ask
    ∷ sweep
    ∷ about 2 (transmit 0 (0 ∷ []))
    ∷ []

deeds-IsNumbered_example :
    let s' = deeds cells cells cells steady two some_deeds in
    IsNumbered s'.next_query_handle (cells.iter s'.queries)
unfolding new_query starts
deeds-IsNumbered_example =
    deeds-IsNumbered cells cells-IsPool cells cells steady some_deeds two (omega arith)
      ((omega arith, (omega arith, tt)), ((refl, tt), (tt, tt)))

-- The new query asks, hears an answer and the same question of another host, while others come and go.
abbrev some_more : List Deed
some_more =
    about 2 (time_out 0)
    ∷ about 2 (transmit 0 (0 ∷ []))
    ∷ cancel 0
    ∷ start spec (from_secs 1)
    ∷ about 2 (event (answer address) (from_secs 2))
    ∷ about 2 (duplicate (from_secs 3))
    ∷ sweep
    ∷ []

start-shut_example :
    let s' = (try_start_query cells cells cells steady two spec 0).0 in
    (poll_query_transmit cells
      (deeds cells cells cells steady s' some_more)
      2
      (from_secs 6)
      (0 ∷ [])).1
    ≡ (0 ∷ [], ok none)
unfolding new_query try_start_query
start-shut_example =
    start-shut cells cells-IsPool cells cells steady two spec 0 (from_secs 5) (from_secs 5) 2
      some_more (from_secs 6) (0 ∷ []) steady-IsClock (omega arith) (omega arith) refl refl
      (omega arith) refl
