-- ===== src/Examples.antt =====
-- Concrete inputs at which the theorems about src/ apply, and the theorems there.
pub mod Fixtures
pub mod Codec
pub mod Renewals
pub mod Protections
pub mod Requests
pub mod Frames
pub mod Pressures
pub mod Worktrees
pub mod Removals
pub mod Progress
pub mod Directories
mod Captures
mod Deletions
