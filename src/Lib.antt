-- ===== src/Lib.antt =====
-- hick: multicast DNS (RFC 6762) in Rust, and the protocol crate of it, mdns-proto.
--
-- The crate does no I/O: it is handed datagrams and the time, and answers what to send. Its lowest
-- layer reads and writes DNS messages in place (mdns-proto/src/wire); the endpoint, the services,
-- the queries and the cache stand on that layer, and the drivers (hick-reactor, hick-compio,
-- hick-mio, hick-smoltcp, hick-embassy) on the endpoint. This library models the wire
-- layer, the owned names, the cache and the queries, and of the layers above the rules that stand on
-- their own: which names match, the conflict flood, the tiebreak of proposals, and the schedule of a service.
--
-- Conventions. A byte is a number; that the bytes of a message are below 256 is the hypothesis
-- `AreBytes`. A `&[u8]` is a list, and that its length fits in an isize, as Rust guarantees, is the
-- hypothesis `IsSlice`. A `Result` of the source is `ok` or `err` of Prelude/Results.antt; the
-- third case, `stuck`, is a loop of the model that ran out of fuel.
-- The cursor of an iterator is passed from call to call, as is the buffer of a writer.
--
-- Which file models what:
-- - Prelude, Prelude/*: lists, byte arithmetic, results and the tests on numbers.
-- - Wire/Error: ParseError and EncodeError of mdns-proto/src/error.rs, and the limits of
--   mdns-proto/src/constants.rs.
-- - Wire/Opcode, Wire/ResponseCode, Wire/ResourceType, Wire/ResourceClass: the enums of the files of
--   those names in mdns-proto/src/wire. Wire/Values has their round trips.
-- - Wire/Flags: wire/flags.rs, the word of flags and its setters.
-- - Wire/Header, Wire/Header/Laws: wire/header.rs.
-- - Wire/Name: `NameRef::try_parse` and the iterator `NameLabels` of wire/name.rs. Name/Spells says
--   independently what a message spells at an offset (RFC 1035, §4.1.4), Name/Round, Arms and View
--   work out one round of the iterator, and Name/Decode compares the two. Name/Parse is about
--   `try_parse`, Name/Write about `write_wire`, Name/Compare about `equals_ignoring_case`.
-- - Wire/Question, Wire/Record: the parsers of wire/question.rs and wire/record/mod.rs.
-- - Wire/Rdata: the typed views of rdata (wire/record/*.rs); Rdata/Canonical its canonical forms,
--   which decompress the names, with the writer of Wire/Writer; Rdata/Ends is
--   about the end of it.
-- - Wire/Reader: wire/reader.rs, the four sections of a message and their iterators. Reader/Items is
--   about the loops over them.
-- - Wire/Builder: wire/builder.rs, the compression table, the checkpoints and `finish`;
--   Builder/Name is `write_name`, Builder/Push every function that pushes. Builder/Extends says what
--   a write leaves alone, Builder/Steps that every part of a push does, Builder/Counted what a push adds to the counts, Builder/Rollback what follows
--   for `restore` and the bounds, Builder/Finish what `finish` leaves.
-- - Owner: the owned names of mdns-proto/src/name.rs. Owner/Text is about the texts, Owner/Labels
--   about the labels of a name and the comparisons, Owner/FromWire about `from_wire_labels`.
-- - Time: the trait `Instant` of mdns-proto/src/time.rs, as `Clock` with the laws `IsClock`;
--   Time/Steady is a clock that satisfies them.
-- - Transmit: what became of a datagram by address family, of mdns-proto/src/transmit.rs.
-- - Service/Patience and Service/Schedule: mdns-proto/src/service/schedule.rs, the wait for a family
--   that misses a datagram, and the deadlines.
-- - Service/Proposal: the fold of mdns-proto/src/service/proposal.rs; Proposal/Fold is about what it
--   keeps, Proposal/Verdict about what it decides. Service/Adjudicate is the rest of that file, with
--   `write_canonical_txt` of service/respond.rs: both proposals, and the verdict on a datagram;
--   Adjudicate/Ends is about the end of it.
-- - Endpoint/Matching: mdns-proto/src/endpoint/matching.rs, with Matching/Names about the match;
--   Endpoint/Admission is `ProposalScope` of that file.
-- - Endpoint/Admits: mdns-proto/src/endpoint/admits.rs; `Unknown` of `Provenance` is `unknown_origin`,
--   `None` of `Answering` is `nothing_answered`.
-- - Query: mdns-proto/src/query/mod.rs, with the body of `Endpoint::poll_query`. Query/Sending is the
--   question that is sent and its confirm, Query/Collect the answers and `handle_event`, Query/Retry
--   query/retry.rs. `deadline` is the field `next_deadline`, `folded` the field `rdata_key`,
--   `new_query` is `try_new`. Query/Run puts calls in any order, Query/Budget is about how often a
--   query asks, Query/Drive about how it ends, Query/Ended and Query/Told about what follows,
--   Query/Window about the timeout of the caller,
--   Collect/Fifo, Capacity, Queued and Arrivals about what is collected.
-- - Endpoint/Queries: mdns-proto/src/endpoint/query.rs, whose state is the pool of queries and the
--   two counters of `Endpoint`. `with_query` is the search and the call that each function makes;
--   `query_of` is the query that `try_start_query` makes. Queries/Map is about calls by handle
--   and what datagrams bring a query, Queries/Adjusted about one of them,
--   Queries/Start about a new query, Queries/Removal about cancelling and sweeping, Queries/Numbered
--   and Queries/Deeds about the handles over any order of all of these, Queries/Window about a timeout.
-- - Endpoint/Flood: mdns-proto/src/endpoint/flood.rs. Flood/History has the specification, over the
--   list of all conflicts; Flood/Ring and Flood/Latch keep the two together, Flood/Run over any
--   number of conflicts; Flood/Dedupe is about what counts once.
-- - Cache: mdns-proto/src/cache.rs, by the name of each function. The trait `Pool` of
--   mdns-proto/src/pool.rs is the interface of Cache/Backing, with what its documentation promises
--   as laws; Backing/Cells, which is endless, and Backing/Slots, of two slots, satisfy them.
--   Cache/Bounds is about the cap, Sweep about expiry, Deadline about the next expiry, Flush and Others about the cache-flush bit,
--   Goodbye about a TTL of zero, Identity about duplicates, Lookup about the key
--   that is answered; Lists has the keyed pairs that a pool iterates over, Lists/Pruned what
--   removals leave of them.
-- - Wire/Tests, Wire/Name/Tests, Wire/Builder/Tests, Owner/Tests, Service/Tests, Endpoint/Tests,
--   Endpoint/Queries/Tests, Query/Tests, Cache/Tests: runs on concrete messages, names and rounds.
--
-- Fuel. The iterator of a name follows at most 32 pointers, and that count is what its loop is
-- structural in, so it has no fuel. A label takes two octets at least and a name has 255 at most, so
-- 128 rounds are enough wherever the source loops over the labels of a name. `try_parse` moves
-- forwards in every round, and one round more than the message has bytes is enough; so it is with
-- the strings of a TXT record.
--
-- Instants and durations are nanoseconds. Code with `&mut self` that may fail is a function from the
-- state to the state and the result: what was written before an error stays written.
--
-- Not modelled: of the service, the state machine of service/mod.rs and the answers of
-- service/respond.rs; of the endpoint, what it does with
-- a datagram it receives, its services and their withdrawal; the assertions of
-- debug builds; the counters of the stats feature (an entry of the cache has the canonical text of its name, in
-- bytes); the drivers, the sockets of hick-udp, the interface tests of hick-onlink and the logging of
-- hick-trace, which are I/O and glue. The `with_` builders of the header and of the flags are the
-- setters by value.

pub mod Prelude
pub mod Time
pub mod Wire
pub mod Owner
pub mod Cache
pub mod Transmit
pub mod Service
pub mod Endpoint
pub mod Query
