-- ===== src/Storage.antt =====
-- container.py: `_stage_file`, `_restore_previous_after_failed_sync` and `_atomic_write`, over one
-- target file. A call of the operating system may fail: `Faults` says which do.
pub mod Atomic
pub mod Outcome
