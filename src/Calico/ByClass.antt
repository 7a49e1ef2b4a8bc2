-- ===== src/Calico/ByClass.antt =====
-- provider/calico/collapse.go: why the matrix by classes is the matrix by pairs.
pub mod Coverage
pub mod Signatures
pub mod Agreement
pub mod Rows
pub mod Fingerprints
pub mod Classmates
pub mod Representatives
pub mod Cells
pub mod Equivalence
