-- ===== src/OwnershipProtocol.antt =====
-- src/ownership_protocol.rs
pub mod Hex
pub mod Frame
pub mod Wire
