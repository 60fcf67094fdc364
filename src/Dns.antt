-- ===== src/Dns.antt =====
-- src/verifier/dns.rs.
pub mod Query
pub mod Socket
pub mod Stages
