-- ===== src/Wallet.antt =====
-- container.py: the session of an unlocked wallet.
pub mod Intent
pub mod State
pub mod Install
pub mod Session
pub mod Rotation
pub mod Commit
pub mod Keys
pub mod Sound
pub mod Runs
pub mod Storing
pub mod Moves
pub mod Results
pub mod Ends
pub mod Calls
pub mod Finalize
pub mod Returns
pub mod Legacy
pub mod Binding
pub mod Bound
pub mod Possession
pub mod Rotates
pub mod Proven
pub mod Opened
