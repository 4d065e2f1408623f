-- ===== src/Protection.antt =====
-- src/protection.rs
pub mod Lease
pub mod Registry
pub mod Active
pub mod Guard
pub mod Operations
pub mod Safety
pub mod Runs
pub mod Edits
