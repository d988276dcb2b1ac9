-- ===== src/Identity.antt =====
-- identity.py: the public Identity records of an owner.
pub mod Error
pub mod Require
pub mod Authorization
pub mod Update
pub mod State
pub mod Proof
pub mod Envelope
pub mod Draft
pub mod Bundle
pub mod Transition
pub mod Latch
