-- ===== src/Tests.antt =====
-- The engines on small inputs.
mod Nets
mod Antrea
mod Calico
mod Api
mod Icmp
mod Assert
mod ByClass
mod Requested
mod Cost
mod TierMatch
mod Lint
mod Inline
mod Cilium
