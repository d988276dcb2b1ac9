-- ===== src/Signer.antt =====
-- signer.py: the checks of an update, and the capability that signs it.
pub mod Error
pub mod Check
pub mod Capability
pub mod Once
