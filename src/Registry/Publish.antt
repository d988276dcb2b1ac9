-- ===== src/Registry/Publish.antt =====
-- `RegistryAdapter.publish_bundle` and `confirm_bundle` of identity.py.
use decent_wallet.Crypto.{Crypto}
use decent_wallet.Identity.Bundle.Finalize.{draft_previous_state, finalize}
use decent_wallet.Identity.Bundle.Merge.{IdentityBundle}
use decent_wallet.Identity.Error.{Checked, expired_publication, invalid_request, stale_publication}
use decent_wallet.Identity.Latch.{is_owner_latched}
use decent_wallet.Identity.Require.{require_bytes}
use decent_wallet.Identity.State.{IdentityState, same_state}
use decent_wallet.Identity.Update.{SignedUpdate, decode_signed_update}
use decent_wallet.Prelude.{
  Option, err, false, if◌then◌else◌, is_empty, leb, none, not, ok, reject_if, some, ℕ,
}
use decent_wallet.Python.Value.{Bytes}
use decent_wallet.Registry.Consent.{check_transcript}
use decent_wallet.Registry.Gate.{
  PublishStatus, Refusal, conditional_publication_rejected, consent_expired, consent_gate,
  readback_did_not_confirm_dispatch, readback_did_not_confirm_envelope, rotation_is_unresolved,
  state_changed_before_publication,
}
use decent_wallet.Registry.Read.{read_state}
use decent_wallet.Registry.Request.{
  ConsentRequest, PublicationResult, confirm_publication, hash_of, is_rotation,
  publication_transcript, refused,
}
use decent_wallet.Registry.State.{
  Handler, attempt, gets, lift, locked, pure, put, read_clock, ◌>>=◌, ◌>>◌,
}
use decent_wallet.Registry.World.{World}

module _ (c : Crypto) (w : World) where
  -- After the transport's answer to the write.
  abbrev pub after_put :
      Bytes → Bytes → Option IdentityState → Checked (Unit {0}) → Handler PublicationResult
  after_put owner envelope previous (ok u) =
      confirm_publication c w owner envelope previous readback_did_not_confirm_envelope
  after_put owner envelope previous (err stale_publication) =
      pure (refused PublishStatus.stale (some envelope) conditional_publication_rejected)
  after_put owner envelope previous (err expired_publication) =
      pure (refused PublishStatus.expired (some envelope) consent_expired)
  after_put owner envelope previous (err e) =
      confirm_publication c w owner envelope previous readback_did_not_confirm_dispatch

  -- Under the owner's lock: the write, where no rotation is latched.
  abbrev pub guarded_put :
      Bytes → Bytes → Option IdentityState → ℕ → Handler (Option (Checked (Unit {0})))
  guarded_put owner envelope current expires_at = do
    latched ← gets (λ r. is_owner_latched owner r.latches)
    if latched
        then pure none
        else (do a ← attempt (put w owner envelope (hash_of current) expires_at); pure (some a))

  abbrev pub sent :
      Bytes → Bytes → Option IdentityState → Option (Checked (Unit {0})) → Handler PublicationResult
  sent owner envelope previous none =
      pure (refused PublishStatus.failed (some envelope) rotation_is_unresolved)
  sent owner envelope previous (some a) = after_put owner envelope previous a

  -- The part after the consent: the accepted state is read again, and then the clock.
  unfoldable pub publish_approved :
      Bytes → Bytes → Option IdentityState → ℕ → Handler PublicationResult
  publish_approved owner envelope previous expires_at = do
    current ← read_state c w owner
    if not (same_state previous current)
        then pure (refused PublishStatus.stale (some envelope) state_changed_before_publication)
        else (do
          now ← read_clock w
          if leb expires_at now
              then pure (refused PublishStatus.expired (some envelope) consent_expired)
              else (do
                a ← locked owner (guarded_put owner envelope current expires_at)
                sent owner envelope previous a))

  abbrev pub gated :
      Bytes → Bytes → Option IdentityState → ℕ → Option Refusal → Handler PublicationResult
  gated owner envelope previous expires_at none =
      publish_approved owner envelope previous expires_at
  gated owner envelope previous expires_at (some (status, reason)) =
      pure (refused status (some envelope) reason)

  unfoldable pub publish_checked :
      ConsentRequest
      → SignedUpdate
      → Bytes
      → Bytes
      → Option IdentityState
      → Handler PublicationResult
  publish_checked q u owner envelope previous = do
    current ← read_state c w owner
    if not (same_state previous current)
        then pure (refused PublishStatus.stale (some envelope) state_changed_before_publication)
        else (do
          t ← lift (
              check_transcript c
                (publication_transcript c q u.authorization previous u.sequence envelope))
          refusal ← consent_gate c w owner t
          gated owner envelope previous q.expires_at refusal)

  unfoldable pub publish_bundle : IdentityBundle → ConsentRequest → Handler PublicationResult
  publish_bundle b q = do
    lift (reject_if (is_empty b.proofs) invalid_request)
    u ← lift (decode_signed_update c b.draft.signed_update_bytes)
    lift (reject_if (is_rotation u.authorization) invalid_request)
    envelope ← lift (finalize c b)
    owner ← lift (require_bytes none false u.record_name)
    latched ← gets (λ r. is_owner_latched owner r.latches)
    if latched
        then pure (refused PublishStatus.failed (some envelope) rotation_is_unresolved)
        else (do
          previous ← lift (draft_previous_state c b.draft)
          publish_checked q u owner envelope previous)

  unfoldable pub confirm_bundle : IdentityBundle → Handler PublicationResult
  confirm_bundle b = do
    u ← lift (decode_signed_update c b.draft.signed_update_bytes)
    lift (reject_if (is_rotation u.authorization) invalid_request)
    envelope ← lift (finalize c b)
    previous ← lift (draft_previous_state c b.draft)
    owner ← lift (require_bytes none false u.record_name)
    confirm_publication c w owner envelope previous readback_did_not_confirm_envelope
