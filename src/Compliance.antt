-- ===== src/Compliance.antt =====
-- src/verifier/compliance.rs: the checker that looks for prebuilt servers in a candidate's workspace.
pub mod Forbidden
pub mod Logical
pub mod Segments
pub mod Tokens
pub mod Command
pub mod Files
pub mod Manifests
pub mod Workspace
