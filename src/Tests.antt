-- ===== src/Tests.antt =====
-- Runs of the model on small inputs.
pub mod Codec
pub mod Chain
pub mod Identity
pub mod Signing
pub mod Session
pub mod Registry
pub mod Rotation
pub mod Binding
pub mod Possession
