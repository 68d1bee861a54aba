-- ===== src/Service.antt =====
-- mdns-proto/src/service: a service that is registered, from its probes to its records.
pub mod Patience
pub mod Schedule
pub mod Proposal
pub mod Adjudicate
mod Tests
