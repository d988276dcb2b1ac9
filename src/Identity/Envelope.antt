-- ===== src/Identity/Envelope.antt =====
-- `_parse_identity_envelope` of identity.py: the checks of each operation, the proofs, the state.
pub mod Operations
pub mod Signers
pub mod Parse
pub mod Rules
pub mod Inversion
pub mod Authority
pub mod Soundness
pub mod Verdict
