-- ===== src/Endpoint.antt =====
-- mdns-proto/src/endpoint: the endpoint, which routes datagrams to the services and queries.
pub mod Matching
pub mod Flood
pub mod Admission
pub mod Admits
pub mod Queries
mod Tests
