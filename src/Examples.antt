-- ===== src/Examples.antt =====
-- The theorems at concrete inputs, over a concrete platform that meets the hypotheses.
pub mod Pairing
pub mod Ideal
pub mod Session
pub mod Family
pub mod Steps
pub mod Witnesses
pub mod FamilyWitnesses
pub mod BasicWitnesses
pub mod Store
pub mod Readers
pub mod Rebuilding
pub mod Checkpoints
pub mod Backends
pub mod Votes
pub mod Submitting
pub mod Memos
