-- ===== src/Api.antt =====
-- api/: the request and response that every provider shares, and what is computed from them.
pub mod Types
pub mod FlowKey
pub mod Ids
pub mod Pairs
pub mod Load
pub mod Diff
pub mod Assert
pub mod Documents
pub mod Smells
pub mod Scopes
pub mod Cost
