-- ===== src/Identity.antt =====
-- internal/identity: node identifiers.
pub mod Ids
pub mod Base32
pub use Ids.*
