-- ===== src/Redis.antt =====
-- src/verifier/redis.rs.
pub mod Frame
pub mod Client
pub mod Session
pub mod Stages
