-- ===== src/Storage/Outcome.antt =====
-- The outcomes of `_atomic_write` of container.py, and the target after each.
use decent_wallet.Prelude.{
  Bool, Option, Result, arith, beq→eq, err, list_eq, nat_eq, none, not, ok, option_eq, pair_eq,
  some, true, ℕ, ◌&&◌, ◌==◌, ◌≡◌,
}
use decent_wallet.Python.Value.{Bytes}
use decent_wallet.Storage.Atomic.{
  Faults, Meddling, StorageError, Target, after_stage, atomic_write, confirm_previous, content_of,
  failure, put_back, restore_previous, stage_file,
}

confirm_previous-eq :
    (f : Faults) (previous : Option Bytes) (t : Target)
    → confirm_previous f previous t ≡ true
    → content_of t ≡ previous
unfolding confirm_previous
confirm_previous-eq f previous t h =
    beq→eq (content_of t) previous (last (content_of t == previous) h)
  where
    last :
        (b : Bool)
        → (not f.read_back && b && not f.sync_again && not f.read_again && b) ≡ true
        → b ≡ true
    last b q = ground arith

restore_previous-eq :
    (f : Faults) (again : ℕ) (previous : Option Bytes) (installed : ℕ) (t : Target)
    → (restore_previous f again previous installed t).0 ≡ true
    → content_of (restore_previous f again previous installed t).1 ≡ previous
unfolding restore_previous
restore_previous-eq f again previous installed none h =
    ground (arith, confirm_previous-eq f previous none)
restore_previous-eq f again previous installed (some file) h =
    let t = put_back f again previous (some file) in
    ground (arith, confirm_previous-eq f previous t)

module _ (f : Faults) (meddle : Meddling) (fresh again : ℕ) (new : Bytes) where
  abbrev outcome : Bool → Target → Result StorageError (Unit {0}) × Target
  outcome replace t = atomic_write f meddle fresh again replace new t

  after_stage-failure :
      (previous : Option Bytes) (installed : ℕ) (t : Target)
      → (after_stage f meddle again previous (some installed, t)).0 ≡ err failure
      → content_of (after_stage f meddle again previous (some installed, t)).1 ≡ previous
  unfolding after_stage
  after_stage-failure previous installed t h =
      ground (arith, restore_previous-eq f again previous installed (meddle t))

  after_stage-ok :
      (previous : Option Bytes) (installed : ℕ) (t : Target)
      → (after_stage f meddle again previous (some installed, t)).0 ≡ ok tt
      → (after_stage f meddle again previous (some installed, t)).1 ≡ t
  unfolding after_stage
  after_stage-ok previous installed t h = ground arith

  -- A replacing write that returns leaves exactly the new bytes. If it raises `StorageFailure`, the
  -- target has the bytes that it had before, even where another process changed the file between the
  -- installation and a failed sync; every other end is `StorageOutcomeUnknown`.
  pub atomic_write-content :
      (t : Target)
      → ((outcome true t).0 ≡ ok tt → content_of (outcome true t).1 ≡ some new)
        × ((outcome true t).0 ≡ err failure → content_of (outcome true t).1 ≡ content_of t)
  unfolding atomic_write stage_file
  atomic_write-content t =
      let installed : Target = some (record { identity = fresh; content = new }) in
      (
        λ h. ground (arith, after_stage-ok (content_of t) fresh installed),
        λ h. ground (arith, after_stage-failure (content_of t) fresh installed),
      )
