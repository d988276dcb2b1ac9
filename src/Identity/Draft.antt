-- ===== src/Identity/Draft.antt =====
-- `IdentityDraft` of identity.py: its checks, and its exchange form.
pub mod Rules
pub mod Chain
pub mod Create
pub mod Make
pub mod Lineage
