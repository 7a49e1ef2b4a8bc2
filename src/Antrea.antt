-- ===== src/Antrea.antt =====
-- engines/antrea: Kubernetes NetworkPolicy verdicts over resolved selectors, with the
-- per-endpoint index that eliminates rules before the probe.
pub mod Types
pub mod Rules
pub mod Defaults
pub mod Manifests
pub mod Build
pub mod Evaluate
pub mod Probe
pub mod Equivalence
pub mod WellFormed
pub mod Verdicts
