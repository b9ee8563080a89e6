-- ===== src/Kad.antt =====
-- The Kademlia routing table (kad_bucket.go, kad_table.go).
pub mod Bucket
pub mod Table
pub mod Query
