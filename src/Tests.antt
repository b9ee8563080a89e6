-- ===== src/Tests.antt =====
-- Runs of the theorems at concrete inputs, with a toy digest in place of the libraries.
pub mod Toy
pub mod Hashes
pub mod Chains
pub mod Tables
pub mod Stores
pub mod Exchanges
pub mod Actions
pub mod Commits
pub mod EndToEnd
pub mod Searches
pub mod Queues
pub mod Queries
pub mod Scripts
