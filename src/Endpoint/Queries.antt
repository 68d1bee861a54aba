-- ===== src/Endpoint/Queries.antt =====
-- mdns-proto/src/endpoint/query.rs: the queries of an endpoint, by their handles. The rest of the
-- endpoint is no part of the state here: none of these functions touches it.
pub mod Adjusted
pub mod Deeds
pub mod Laws
pub mod Map
pub mod Numbered
pub mod Removal
pub mod Start
pub mod Window
mod Tests
use mathlib.Core.Option
use hick.Prelude.{
  ℕ, ◌+◌, ◌%◌, Bool, true, false, List, [], ◌∷◌, Option, none, some, Result, ok, ◌==◌,
  if◌then◌else◌, length,
}
use hick.Time.{Clock}
use hick.Owner.{Name}
use hick.Wire.ResourceType.{ResourceType}
use hick.Wire.ResourceClass.{ResourceClass}
use hick.Transmit.{FamilyAttempt, Transmit, TransmitConfirm, nothing_confirmed}
use hick.Cache.Lists.{first_key, keys_where}
use hick.Cache.Backing.{Pool}
use hick.Query
use hick.Query.{Query, QueryUpdate, saturating_add_u32, with_max_answers}
use hick.Query.Sending
use hick.Query.Sending.{TransmitError}
use hick.Query.Collect.{CollectedAnswer, new_query}

pub record QuerySpec : Type 0 where
  pub qname : Name
  pub qtype : ResourceType
  pub qclass : ResourceClass
  pub unicast_response : Bool
  pub timeout : Option ℕ
  pub max_answers : Option ℕ

-- `QS` holds the queries.
pub record Queries (QS : Type 0) : Type 0 where
  pub next_query_handle : ℕ
  pub next_txid : ℕ
  pub queries : QS

-- The id of the query after that of `txid`, on 16 bits; no query has the id 0.
abbrev pub following_txid : ℕ → ℕ
following_txid txid = let next_raw = (txid + 1) % 0x10000 in if next_raw == 0 then 1 else next_raw

-- `now.checked_add_duration(dur)`, where there is a duration.
abbrev pub timeout_of : Clock → ℕ → Option ℕ → Option ℕ
timeout_of clock now none = none
timeout_of clock now (some dur) = clock.checked_add_duration now dur

module _ {AN EV QS : Type 0} (pool : Pool QS (Query AN EV)) where
  unfoldable pub query_key : Queries QS → ℕ → Option ℕ
  query_key s handle = first_key (λ q. q.handle == handle) (pool.iter s.queries)

  -- What a function on the query of a handle makes of the endpoint and answers: `missing` where
  -- there is no such query.
  unfoldable pub with_query :
      {R : Type 0} → (Query AN EV → Query AN EV × R) → R → Queries QS → ℕ → Queries QS × R
  unfolding query_key
  with_query f missing s handle = elim (query_key s handle) [
    | none ↦ (s, missing)
    | some key ↦ elim (pool.get s.queries key) [
      | none ↦ (s, missing)
      | some q ↦ (record s { queries = pool.modify s.queries key (λ q. (f q).0) }, (f q).1)
    ]
  ]

  -- What a function answers of the query of a handle, if there is one.
  unfoldable pub of_query : {R : Type 0} → (Query AN EV → R) → Queries QS → ℕ → Option R
  unfolding query_key
  of_query f s handle = elim (query_key s handle) [
    | none ↦ none
    | some key ↦ Option.map f (pool.get s.queries key)
  ]

  unfoldable pub poll_query_timeout : Queries QS → ℕ → Option ℕ
  unfolding of_query
  poll_query_timeout s handle = elim (of_query Query.poll_timeout s handle) [
    | none ↦ none
    | some deadline ↦ deadline
  ]

  unfoldable pub query_accepted_count : Queries QS → ℕ → Option ℕ
  unfolding of_query
  query_accepted_count s handle = of_query (λ q. q.next_seq) s handle

  unfoldable pub poll_query_transmit :
      Queries QS → ℕ → ℕ → List ℕ → Queries QS × (List ℕ × Result TransmitError (Option Transmit))
  unfolding with_query
  poll_query_transmit s handle now buf =
      with_query (λ q. let (q', buf', sent) = Sending.poll_transmit q now buf in (q', (buf', sent)))
        (buf, ok none) s handle

  unfoldable pub note_query_transmit_outcome :
      Clock → Queries QS → ℕ → ℕ → FamilyAttempt → FamilyAttempt → Queries QS × TransmitConfirm
  unfolding with_query
  note_query_transmit_outcome clock s handle now v4 v6 =
      with_query (λ q. Sending.note_transmit_outcome clock q now v4 v6) nothing_confirmed s handle

  -- `for key in to_remove`
  unfoldable pub remove_each : List ℕ → QS → QS
  remove_each [] queries = queries
  remove_each (key ∷ keys) queries = remove_each keys (pool.try_remove queries key).0

  unfoldable pub sweep_terminated_queries : Queries QS → Queries QS × ℕ
  unfolding remove_each
  sweep_terminated_queries s =
      let to_remove = keys_where (λ (q : Query AN EV). q.terminal_emitted) (pool.iter s.queries) in
      (record s { queries = remove_each to_remove s.queries }, length to_remove)

  unfoldable pub cancel_query : Queries QS → ℕ → Queries QS × Bool
  unfolding query_key
  cancel_query s handle = elim (query_key s handle) [
    | none ↦ (s, false)
    | some key ↦ (record s { queries = (pool.try_remove s.queries key).0 }, true)
  ]

module _ {AN EV QS : Type 0} (pool : Pool QS (Query AN EV)) (queue : Pool EV QueryUpdate) where
  unfoldable pub poll_query : Queries QS → ℕ → Queries QS × Option QueryUpdate
  unfolding with_query
  poll_query s handle = with_query pool (Query.poll_query queue) none s handle

  unfoldable pub handle_query_timeout : Queries QS → ℕ → ℕ → Queries QS
  unfolding with_query
  handle_query_timeout s handle now =
      (with_query pool (λ q. (Query.handle_timeout queue q now, true)) false s handle).0

  unfoldable pub retire_query : Queries QS → ℕ → Queries QS
  unfolding with_query
  retire_query s handle = (with_query pool (λ q. (Query.retire queue q, true)) false s handle).0

  module _ (store : Pool AN CollectedAnswer) (clock : Clock) where
    -- The query that a specification asks for, under the next handle and the next id.
    unfoldable pub query_of : Queries QS → QuerySpec → ℕ → Query AN EV
    query_of s spec now =
        let q =
          new_query store queue s.next_query_handle spec.qname spec.qtype spec.qclass s.next_txid
            spec.unicast_response (timeout_of clock now spec.timeout) in
        elim spec.max_answers [ none ↦ q | some m ↦ with_max_answers q m ]

    -- The handle, or the error of a full pool.
    unfoldable pub try_start_query : Queries QS → QuerySpec → ℕ → Queries QS × Option ℕ
    unfolding query_of
    try_start_query s spec now =
        let (queries, inserted) = pool.insert s.queries (query_of s spec now) in
        (
          record {
            next_query_handle = saturating_add_u32 s.next_query_handle 1;
            next_txid = following_txid s.next_txid;
            queries = queries;
          },
          elim inserted [ some _ ↦ some s.next_query_handle | none ↦ none ],
        )
