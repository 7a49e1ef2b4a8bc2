-- ===== src/Calico.antt =====
-- provider/calico: verdicts of Felix's policy checker over the actors of a topology.
pub mod Store
pub mod Flow
pub mod Actors
pub mod Matrix
pub mod Eval
pub mod Collapse
pub mod Classes
pub mod Locality
pub mod Hooks
pub mod Entries
pub mod Icmp
pub mod Services
pub mod Streaming
pub mod KeepSet
pub mod Bounds
pub mod Expansion
pub mod ByClass
pub mod Requested
pub mod TierMatch
pub mod Lint
pub mod Ports
pub mod Inline
