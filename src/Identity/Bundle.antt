-- ===== src/Identity/Bundle.antt =====
-- `IdentityProof` and `IdentityBundle` of identity.py.
pub mod Merge
pub mod Finalize
pub mod Sorted
