-- ===== src/Registry/Dispatching.antt =====
-- The ways that `RegistryAdapter.dispatch_owner_key_rotation` of identity.py ends, in a safe adapter.
use decent_wallet.Crypto.{Crypto}
use decent_wallet.Identity.Error.{
  Checked, expired_publication, invalid_request, invalid_state, stale_publication,
  transport_failure, unexpected,
}
use decent_wallet.Identity.Latch.{RotationBinding, binding_eq}
use decent_wallet.Prelude.{
  Option, err, false, list_eq, nat_eq, none, not, ok, option_eq, pair_eq, some, ℕ, ◌==◌, ◌||◌,
}
use decent_wallet.Python.Value.{Bytes}
use decent_wallet.Registry.Confirm.{confirm_owner_key_rotation}
use decent_wallet.Registry.Dispatch.{
  Prewrite, RotationDispatchResult, after_dispatch, clear_or_keep, compare_remote, confirm_dispatch,
  consent_has_expired, not_clearable, observed_locally, prewrite_result, remote_answer, unresolved,
}
use decent_wallet.Registry.Gate.{
  Reason, confirmation_incomplete, readback_did_not_confirm_dispatch,
  readback_did_not_confirm_envelope, readback_unavailable_after_rejection,
}
use decent_wallet.Registry.Growth.{Leaves, bind-Leaves, if-Leaves}
use decent_wallet.Registry.Guards.{Safe}
use decent_wallet.Registry.Quiet.{environment_matches-Grows}
use decent_wallet.Registry.Read.{rotation_environment_matches}
use decent_wallet.Registry.Rotating.{confirm_rotation-Safe, plain-Safe, quiet-then}
use decent_wallet.Registry.State.{Handler, Registry, observe, pure}
use decent_wallet.Registry.World.{World, remote_read}

module _ (c : Crypto) (w : World) (handle : ℕ) (i : RotationBinding) where
  confirm_dispatch-Safe :
      (why : Reason) (r : Registry)
      → Safe c w r
      → Leaves (Safe c w) (confirm_dispatch c w handle i why r)
  unfolding confirm_dispatch
  confirm_dispatch-Safe why r s =
      bind-Leaves (Safe c w) (Safe c w) (confirm_owner_key_rotation c w i r) _
        (confirm_rotation-Safe c w i r s) (λ r1 s1. s1) (λ x r1 e s1. s1)

  clear_or_keep-Safe :
      (why : Prewrite) (r : Registry)
      → Safe c w r
      → Leaves (Safe c w) (clear_or_keep c w handle i why r)
  clear_or_keep-Safe (not_clearable b) r s = s
  clear_or_keep-Safe consent_has_expired r s =
      quiet-then c w (rotation_environment_matches w i.environment r) _ s
        (environment_matches-Grows w i.environment r) (λ holds r1 s1. s1)

  remote_answer-Safe :
      (why : Prewrite) (a : Checked (Option Bytes)) (r : Registry)
      → Safe c w r
      → Leaves (Safe c w) (remote_answer c w handle i why a r)
  remote_answer-Safe why (err e) r s = s
  remote_answer-Safe why (ok found) r s =
      quiet-then c w (rotation_environment_matches w i.environment r) _ s
        (environment_matches-Grows w i.environment r)
        (λ holds r1 s1.
          if-Leaves (Safe c w) (not holds) _ _ r1 (λ p. s1) (λ p. compared found r1 s1))
    where
      compared :
          (found : Option Bytes) (r1 : Registry)
          → Safe c w r1
          → Leaves (Safe c w) (
              (elim found as (λ x. Handler RotationDispatchResult) [
                | none ↦ pure (unresolved readback_unavailable_after_rejection)
                | some envelope ↦ compare_remote c w handle i why envelope
              ])
                r1)
      compared none r1 s1 = s1
      compared (some envelope) r1 s1 =
          if-Leaves (Safe c w) (observed_locally why || c.sha256 envelope == i.envelope_hash) _ _ r1
            (λ p. confirm_dispatch-Safe confirmation_incomplete r1 s1)
            (λ p. clear_or_keep-Safe why r1 s1)

  pub prewrite_result-Safe :
      (why : Prewrite) (r : Registry)
      → Safe c w r
      → Leaves (Safe c w) (prewrite_result c w handle i why r)
  unfolding prewrite_result
  prewrite_result-Safe why r s =
      quiet-then c w (rotation_environment_matches w i.environment r) _ s
        (environment_matches-Grows w i.environment r)
        (λ holds r1 s1.
          if-Leaves (Safe c w) (not holds) _ _ r1 (λ p. s1)
            (λ p.
              let a = w.get_remote_identity_envelope r1.history i.owner_name in
              remote_answer-Safe why a (observe w (remote_read i.owner_name a) r1)
                (plain-Safe c w (remote_read i.owner_name a) r1 tt s1)))

  pub after_dispatch-Safe :
      (a : Checked (Unit {0})) (r : Registry)
      → Safe c w r
      → Leaves (Safe c w) (after_dispatch c w handle i a r)
  after_dispatch-Safe (ok u) r s = confirm_dispatch-Safe readback_did_not_confirm_envelope r s
  after_dispatch-Safe (err stale_publication) r s = prewrite_result-Safe (not_clearable false) r s
  after_dispatch-Safe (err expired_publication) r s = prewrite_result-Safe consent_has_expired r s
  after_dispatch-Safe (err invalid_state) r s =
      confirm_dispatch-Safe readback_did_not_confirm_dispatch r s
  after_dispatch-Safe (err invalid_request) r s =
      confirm_dispatch-Safe readback_did_not_confirm_dispatch r s
  after_dispatch-Safe (err transport_failure) r s =
      confirm_dispatch-Safe readback_did_not_confirm_dispatch r s
  after_dispatch-Safe (err unexpected) r s =
      confirm_dispatch-Safe readback_did_not_confirm_dispatch r s
