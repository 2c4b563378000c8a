-- ===== src/Tests.antt =====
-- The components at concrete inputs.
pub mod Numbers
pub mod Residues
pub mod Ledgers
pub mod Sessions
pub mod Ciphers
pub mod Proofs
pub mod Signatures
pub mod Points
pub mod Nodes
pub mod Moduli
pub mod Keygens
pub mod Known
pub mod Openings
