-- ===== src/Wire.antt =====
-- mdns-proto/src/wire: the DNS wire format, from the name codec up to the message reader.
pub mod Error
pub mod Opcode
pub mod ResponseCode
pub mod ResourceType
pub mod ResourceClass
pub mod Values
pub mod Name
pub mod Flags
pub mod Header
pub mod Question
pub mod Record
pub mod Writer
pub mod Rdata
pub mod Reader
pub mod Builder
mod Tests
