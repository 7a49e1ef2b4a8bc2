-- ===== src/Cilium.antt =====
-- engines/cilium: the matrix of Cilium's own policy engine, with the index of the directions that
-- some rule affects, which spares the engine's lookup for the other pairs.
pub mod Repository
pub mod Defaults
pub mod Identities
pub mod Policies
pub mod Evaluate
pub mod Unrestricted
pub mod Total
pub mod Entries
